-- ===== src/Api/Callers.antt =====
-- Who a request is from: `withCaller` of internal/api/server.go, for a peer address.
use Prim.Native.Char.{code}
use planless.Prelude.{◌/◌, ◌%◌, ◌^◌, String, Bool, not, ◌&&◌, if◌then◌else◌, ◌=?◌, ◌==◌}
use planless.Netset.Ip.{Addr, v4, v6, zero_addr, is_space}
use planless.Platform.Model.{Caller}
use planless.Platform.Store.{Store, segment, known_principal}
use planless.Api.Http.{Request}

abbrev pub no_caller : Caller
no_caller = record { principal = ""; segment = ""; addr = zero_addr }

-- `Is4In6` and `Unmap`: an IPv4 address written in IPv6.
abbrev pub unmap : Addr → Addr
unmap (v6 n) = if n / 2 ^ 32 =? 0xffff then v4 (n % 2 ^ 32) else v6 n
unmap a = a

-- `strings.TrimSpace`.
unfoldable pub trim : String → String
trim s = right (left s)
  where
    left : String → String
    left String.[] = String.[]
    left (String.◌∷◌ c s) = let rest = left s in if is_space (code c) then rest else String.◌∷◌ c s

    right : String → String
    right String.[] = String.[]
    right (String.◌∷◌ c s) =
        let rest = right s in
        if rest == "" && is_space (code c) then String.[] else String.◌∷◌ c rest

-- The principal that `withCaller` gives a caller.
unfoldable pub principal_for : Bool → String → Store → String
unfolding trim known_principal
principal_for allow_principal asserted st =
    let p = trim asserted in
    if allow_principal && not (p == "") && known_principal st p then p else ""

-- The caller, for a peer address that could be read.
abbrev pub caller_of : Bool → Request → Addr → Store → Caller
caller_of allow_principal r addr st = record {
  principal = principal_for allow_principal r.asserted_principal st;
  segment = segment st (unmap addr);
  addr = unmap addr;
}
