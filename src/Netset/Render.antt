-- ===== src/Netset/Render.antt =====
-- `Prefixes` and `Equal` of internal/netset/netset.go: a set as a list of CIDR texts. A text is
-- the list of its characters.
use planless.Prelude.{
  ℕ, zero, suc, ◌+◌, ◌-◌, ◌/◌, ◌%◌, ◌^◌, Bool, true, false, ◌&&◌, ◌||◌, not, Option, List, [], ◌∷◌,
  ◌++◌, if◌then◌else◌, leb, ltb, ◌=?◌,
}
use planless.Netset.Ip.{Prefix}
use planless.Netset.{NetSet, intervals_of}
use planless.Netset.Spans.{Intervals}

-- The inner loop: how many low bits the next prefix leaves open. `left` rounds remain of 33, `b` is
-- the round, `best` the last that passed.
unfoldable pub open_bits : (left b best lo hi : ℕ) → ℕ
open_bits zero b best lo hi = best
open_bits (suc left) b best lo hi =
    let wider = open_bits left (suc b) b lo hi in
    if ltb (hi - lo + 1) (2 ^ b) || not (lo % 2 ^ b =? 0) then best else wider

-- The outer loop over one interval. Each round covers at least one address, so `hi - lo + 1` rounds
-- are enough.
unfoldable pub split : (fuel lo hi : ℕ) → List Prefix
unfolding open_bits
split zero lo hi = []
split (suc fuel) lo hi =
    let k = open_bits 33 0 0 lo hi in
    let rest = split fuel (lo + 2 ^ k) hi in
    if leb lo hi then record { addr = lo; bits = 32 - k } ∷ rest else []

unfoldable pub split_all : Intervals → List Prefix
unfolding split
split_all [] = []
split_all (iv ∷ rest) = split (iv.hi - iv.lo + 1) iv.lo iv.hi ++ split_all rest

-- A number below 1000 in decimal.
unfoldable pub decimal : ℕ → List ℕ
decimal n =
    if ltb n 10
    then (b'0' + n) ∷ []
    else if ltb n 100
    then (b'0' + n / 10) ∷ (b'0' + n % 10) ∷ []
    else (b'0' + n / 100) ∷ (b'0' + n / 10 % 10) ∷ (b'0' + n % 10) ∷ []

-- `netip.Prefix.String`, with `fromU32` in front of it.
unfoldable pub render : Prefix → List ℕ
unfolding decimal
render p =
    decimal (p.addr / 16777216)
    ++ (b'.'
        ∷ (decimal (p.addr / 65536 % 256)
            ++ (b'.'
                ∷ (decimal (p.addr / 256 % 256)
                    ++ (b'.' ∷ (decimal (p.addr % 256) ++ (b'/' ∷ decimal p.bits)))))))

unfoldable pub render_all : List Prefix → List (List ℕ)
unfolding render
render_all [] = []
render_all (p ∷ ps) = render p ∷ render_all ps

-- `Prefixes`.
unfoldable pub prefixes : Option NetSet → List (List ℕ)
unfolding split_all render_all
prefixes s = render_all (split_all (intervals_of s))

abbrev pub same_text : List ℕ → List ℕ → Bool
same_text [] [] = true
same_text (x ∷ xs) (y ∷ ys) = x =? y && same_text xs ys
same_text _ _ = false

-- The length test and the loop of `Equal`.
abbrev pub same_texts : List (List ℕ) → List (List ℕ) → Bool
same_texts [] [] = true
same_texts (x ∷ xs) (y ∷ ys) = same_text x y && same_texts xs ys
same_texts _ _ = false

-- `Equal`.
unfoldable pub equal : Option NetSet → Option NetSet → Bool
unfolding prefixes
equal s o = same_texts (prefixes s) (prefixes o)
