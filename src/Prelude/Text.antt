-- ===== src/Prelude/Text.antt =====
-- Texts as code points, and their order: Go compares strings byte by byte, which for UTF-8 is the
-- order of the code points.
use Prim.Native.Nat.{ℕ}
use Prim.Native.Char.{code}
use Prim.Native.String.{String}
use mathlib.Core.Path.{◌≡◌, refl}
use mathlib.Core.Bool.{Bool, true, false}
use mathlib.Core.Option
use mathlib.Core.Option.{Option, none, some}
use mathlib.Core.List.{List, [], ◌∷◌}
use native.Mathlib.Omega.{arith}
use text.Mathlib.TextEquality.{Char-path}
use planless.Prelude.Tests.{ltb, ◌=?◌, if◌then◌else◌}

abbrev pub codes : String → List ℕ
codes String.[] = []
codes (String.◌∷◌ c s) = code c ∷ codes s

-- The lexicographic order.
abbrev pub codes_ltb : List ℕ → List ℕ → Bool
codes_ltb xs [] = false
codes_ltb [] (y ∷ ys) = true
codes_ltb (x ∷ xs) (y ∷ ys) = if x =? y then codes_ltb xs ys else ltb x y

pub codes_ltb_irrefl : (xs : List ℕ) → codes_ltb xs xs ≡ false
codes_ltb_irrefl [] = refl
codes_ltb_irrefl (x ∷ xs) = ground (arith, codes_ltb_irrefl xs)

pub codes_ltb_trans :
    (xs ys zs : List ℕ) → codes_ltb xs ys ≡ true → codes_ltb ys zs ≡ true → codes_ltb xs zs ≡ true
codes_ltb_trans [] [] zs h k = ground arith
codes_ltb_trans [] (y ∷ ys) [] h k = k
codes_ltb_trans [] (y ∷ ys) (z ∷ zs) h k = refl
codes_ltb_trans (x ∷ xs) [] zs h k = ground arith
codes_ltb_trans (x ∷ xs) (y ∷ ys) [] h k = k
codes_ltb_trans (x ∷ xs) (y ∷ ys) (z ∷ zs) h k = ground (arith, codes_ltb_trans xs ys zs)

pub codes_ltb_total : (xs ys : List ℕ) → codes_ltb xs ys ≡ false → codes_ltb ys xs ≡ false → xs ≡ ys
codes_ltb_total [] [] h k = refl
codes_ltb_total [] (y ∷ ys) h k = ground arith
codes_ltb_total (x ∷ xs) [] h k = ground arith
codes_ltb_total (x ∷ xs) (y ∷ ys) h k = ground (arith, codes_ltb_total xs ys)

pub codes_inj : (s t : String) → codes s ≡ codes t → s ≡ t
codes_inj String.[] String.[] h = refl
codes_inj String.[] (String.◌∷◌ d t) h = absurd (cc h)
codes_inj (String.◌∷◌ c s) String.[] h = absurd (cc h)
codes_inj (String.◌∷◌ c s) (String.◌∷◌ d t) h =
    let p : c ≡ d = Char-path c d (cc h) in let q : s ≡ t = codes_inj s t (cc h) in cc

-- `s < t` on texts.
unfoldable pub text_ltb : String → String → Bool
text_ltb s t = codes_ltb (codes s) (codes t)

pub text_ltb_irrefl : (s : String) → text_ltb s s ≡ false
unfolding text_ltb
text_ltb_irrefl s = codes_ltb_irrefl (codes s)

pub text_ltb_trans :
    (r s t : String) → text_ltb r s ≡ true → text_ltb s t ≡ true → text_ltb r t ≡ true
unfolding text_ltb
text_ltb_trans r s t h k = codes_ltb_trans (codes r) (codes s) (codes t) h k

pub text_ltb_total : (s t : String) → text_ltb s t ≡ false → text_ltb t s ≡ false → s ≡ t
unfolding text_ltb
text_ltb_total s t h k = codes_inj s t (codes_ltb_total (codes s) (codes t) h k)

-- `strings.Cut` at the first character with the code `c`.
unfoldable pub cut : ℕ → String → Option (String × String)
cut c String.[] = none
cut c (String.◌∷◌ d s) =
    if code d =? c
    then some (String.[], s)
    else Option.map (λ (p : String × String). (String.◌∷◌ d p.0, p.1)) (cut c s)

-- The rest of a text behind a prefix; `none` where it does not begin with the prefix.
unfoldable pub strip_prefix : String → String → Option String
strip_prefix String.[] s = some s
strip_prefix (String.◌∷◌ c p) String.[] = none
strip_prefix (String.◌∷◌ c p) (String.◌∷◌ d s) =
    let rest = strip_prefix p s in if code c =? code d then rest else none

-- `strings.HasPrefix`, with the text first.
unfoldable pub has_prefix : String → String → Bool
unfolding strip_prefix
has_prefix s p = elim (strip_prefix p s) [ none ↦ false | some _ ↦ true ]

-- `strings.TrimPrefix`, with the text first.
unfoldable pub trim_prefix : String → String → String
unfolding strip_prefix
trim_prefix s p = elim (strip_prefix p s) [ none ↦ s | some rest ↦ rest ]
