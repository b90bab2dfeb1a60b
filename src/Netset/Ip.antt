-- ===== src/Netset/Ip.antt =====
-- What internal/netset/netset.go and internal/platform/authz.go use of Go's `net/netip`, for IPv4:
-- `ParseAddr`, `ParsePrefix`, `Masked`, and the `strings.TrimSpace` in front of them. A text that
-- names no IPv4 address or prefix gives `none`, whether netip reads it as IPv6 or refuses it: the
-- callers answer both with the same error.
use planless.Prelude.{
  ◌≡◌, refl, ℕ, suc, ◌+◌, ◌-◌, ◌*◌, ◌%◌, ◌^◌, Bool, ◌&&◌, ◌||◌, not, Option, none, some, List, [],
  ◌∷◌, if◌then◌else◌, leb, ltb, ◌=?◌,
}
use planless.Prelude.Text.{codes}
use mathlib.Core.List.{reverse}

-- `netip.Addr`: an IPv4 address as its 32-bit value, an IPv6 address, or the zero value.
pub data Addr : Type 0 where
  v4 : ℕ → Addr
  v6 : ℕ → Addr
  zero_addr : Addr

abbrev pub is_digit : ℕ → Bool
is_digit c = leb b'0' c && leb c b'9'

-- The loop of `parseIPv4Fields`: the fields so far, how many they are, the current field, and how
-- many digits it has.
unfoldable pub parse_fields : ℕ → ℕ → ℕ → ℕ → List ℕ → Option ℕ
parse_fields acc pos val digs [] =
    if pos =? 3 && not (digs =? 0) then some (acc * 256 + val) else none
parse_fields acc pos val digs (c ∷ cs) =
    let digit = parse_fields acc pos (val * 10 + (c - b'0')) (suc digs) cs in
    let dot = parse_fields (acc * 256 + val) (suc pos) 0 0 cs in
    if is_digit c
    then (if digs =? 1 && val =? 0
        then none
        else if ltb 255 (val * 10 + (c - b'0'))
        then none
        else digit)
    else if c =? b'.'
    then (if digs =? 0 then none else if pos =? 3 then none else dot)
    else none

-- `ParseAddr`, where it gives an IPv4 address.
unfoldable pub parse_addr4 : List ℕ → Option ℕ
unfolding parse_fields
parse_addr4 cs = parse_fields 0 0 0 0 cs

-- `strconv.Atoi` after the test on the first digit: up to two digits can be in range.
unfoldable pub parse_bits : List ℕ → Option ℕ
parse_bits (c ∷ []) = if is_digit c then some (c - b'0') else none
parse_bits (c ∷ d ∷ []) =
    if leb b'1' c && leb c b'9' && is_digit d && leb ((c - b'0') * 10 + (d - b'0')) 32
    then some ((c - b'0') * 10 + (d - b'0'))
    else none
parse_bits _ = none

-- The text before and after the last slash; the text before is read from its end.
unfoldable pub cut_last : List ℕ → List ℕ → Option (List ℕ × List ℕ)
cut_last [] after = none
cut_last (c ∷ before) after =
    let rest = cut_last before (c ∷ after) in
    if c =? b'/' then some (reverse before, after) else rest

pub record Prefix : Type 0 where
  pub addr : ℕ
  pub bits : ℕ

-- `ParsePrefix`, where it gives an IPv4 prefix.
unfoldable pub parse_prefix : List ℕ → Option Prefix
unfolding parse_addr4 parse_bits cut_last
parse_prefix cs = elim (cut_last (reverse cs) []) [
  | none ↦ none
  | some (before, after) ↦ elim (parse_addr4 before) [
    | none ↦ none
    | some a ↦ elim (parse_bits after) [
      | none ↦ none
      | some b ↦ some (record { addr = a; bits = b })
    ]
  ]
]

-- `Masked`: the bits behind the prefix are cleared.
unfoldable pub masked : Prefix → Prefix
masked p = record p { addr = p.addr - p.addr % 2 ^ (32 - p.bits) }

-- `unicode.IsSpace`.
abbrev pub is_space : ℕ → Bool
is_space c =
    (leb 9 c && leb c 13)
    || c =? 32
    || c =? 0x85
    || c =? 0xa0
    || c =? 0x1680
    || (leb 0x2000 c && leb c 0x200a)
    || c =? 0x2028
    || c =? 0x2029
    || c =? 0x202f
    || c =? 0x205f
    || c =? 0x3000

unfoldable pub trim_left : List ℕ → List ℕ
trim_left [] = []
trim_left (c ∷ cs) = let rest = trim_left cs in if is_space c then rest else c ∷ cs

-- `strings.TrimSpace`.
unfoldable pub trim_space : List ℕ → List ℕ
unfolding trim_left
trim_space cs = reverse (trim_left (reverse (trim_left cs)))

prefix_test :
    parse_prefix (trim_space (codes " 10.20.0.7/16\n"))
    ≡ some (record { addr = 169082887; bits = 16 })
unfolding parse_prefix trim_space
prefix_test = refl
