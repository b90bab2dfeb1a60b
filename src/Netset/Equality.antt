-- ===== src/Netset/Equality.antt =====
-- `Prefixes` covers exactly the addresses of the set, and `Equal` decides equal coverage.
use mathlib.Core.Path.{ap₂}
use native.Mathlib.Nat.{one-le-pow}
use planless.Prelude.{
  ℕ, zero, suc, ◌+◌, ◌-◌, ◌%◌, ◌^◌, ◌≤◌, ◌<◌, ◌≡◌, ◌↔◌, refl, sym, ap, ◌∙◌, Bool, true, ◌&&◌, ◌||◌,
  not, List, [], ◌∷◌, leb, ltb, ◌=?◌, arith, inl, inr, Bool-cases, some, any-append, All,
  All-append, any,
}
use planless.Netset.{NetSet, interval_of, contains}
use planless.Netset.Merge.{IsRange}
use planless.Netset.Prefixes.{block, interval_of_ends, IsPrefix4}
use planless.Netset.Spans.{Intervals, within, covers}
use planless.Netset.Ip.{Prefix, v4, parse_prefix}
use planless.Netset.Reading.{parse-render}
use planless.Netset.Canonical.{IsNormalSet, normal_ext}
use planless.Netset.Coverage.{IsNormal→IsRange}
use planless.Netset.Render.{
  open_bits, split, split_all, render, render_all, prefixes, same_text, same_texts, equal,
}

-- A block of `2 ^ k` addresses starts at `lo` and fits below `hi`.
record Fits (k lo hi : ℕ) : Type 0 where
  small : k ≤ 32
  size : 2 ^ k ≤ hi - lo + 1
  aligned : lo % 2 ^ k ≡ 0

open_bits-Fits :
    (left b best lo hi : ℕ)
    → left + b ≤ 33
    → Fits best lo hi
    → Fits (open_bits left b best lo hi) lo hi
unfolding open_bits
open_bits-Fits zero b best lo hi h f = f
open_bits-Fits (suc left) b best lo hi h f =
    elim (Bool-cases (ltb (hi - lo + 1) (2 ^ b) || not (lo % 2 ^ b =? 0))) [
      | inl e ↦ rw e f
      | inr e ↦ rw e (
          open_bits-Fits left (suc b) b lo hi (omega arith)
            (record { small = omega arith; size = ground arith; aligned = ground arith }))
    ]

open_bits_start : (lo hi : ℕ) → Fits (open_bits 33 0 0 lo hi) lo hi
open_bits_start lo hi =
    open_bits-Fits 33 0 0 lo hi (omega arith)
      (record { small = omega arith; size = omega arith; aligned = omega arith })

-- The addresses that a list of prefixes covers.
abbrev pub covered : List Prefix → ℕ → Bool
covered ps v = any (λ p. within v (interval_of p)) ps

within_block :
    (k lo hi v : ℕ)
    → lo ≤ hi
    → hi < 2 ^ 32
    → Fits k lo hi
    → within v (interval_of (record { addr = lo; bits = 32 - k }))
      ≡ (leb lo v && ltb v (lo + 2 ^ k))
within_block k lo hi v l h f =
    let p : Prefix = record { addr = lo; bits = 32 - k } in
    let e = interval_of_ends p (omega arith, omega arith) in
    let w : 32 - (32 - k) ≡ k = omega (arith, f.small) in
    let b : block p ≡ 2 ^ k = ap (λ (x : ℕ). 2 ^ x) w in
    let a : lo % block p ≡ 0 = rw b f.aligned in ground (arith, e.0, e.1, e.2, a, b)

two_parts :
    (lo hi v m : ℕ)
    → lo ≤ hi
    → 1 ≤ m
    → m ≤ hi - lo + 1
    → ((leb lo v && ltb v (lo + m)) || (leb (lo + m) v && leb v hi)) ≡ (leb lo v && leb v hi)
two_parts lo hi v m h k l = ground arith

-- With fuel of at least the number of addresses of a 32-bit range, the prefixes that the range is
-- split into contain exactly the addresses of the range, so the loop has come to its end.
pub split-covers :
    (fuel lo hi v : ℕ)
    → hi < 2 ^ 32
    → hi + 1 - lo ≤ fuel
    → covered (split fuel lo hi) v ≡ (leb lo v && leb v hi)
unfolding split
split-covers zero lo hi v h f = ground arith
split-covers (suc fuel) lo hi v h f = elim (Bool-cases (leb lo hi)) [
  | inr e ↦ rw e (ground (arith, e))
  | inl e ↦
      let k = open_bits 33 0 0 lo hi in
      let fits = open_bits_start lo hi in
      let pos : 1 ≤ 2 ^ k = one-le-pow k 2 (omega arith) in
      let ih = split-covers fuel (lo + 2 ^ k) hi v h (omega (arith, f, pos)) in
      let w = within_block k lo hi v (ground arith) h fits in
      rw e (ap₂ ◌||◌ w ih ∙ two_parts lo hi v (2 ^ k) (ground arith) pos fits.size)
]

split_all-covers :
    (ivs : Intervals) (v : ℕ) → All IsRange ivs → covered (split_all ivs) v ≡ covers ivs v
unfolding split_all
split_all-covers [] v u = refl
split_all-covers (iv ∷ rest) v u =
    any-append (λ p. within v (interval_of p)) (split (iv.hi - iv.lo + 1) iv.lo iv.hi)
      (split_all rest)
    ∙ ap₂ ◌||◌ (split-covers (iv.hi - iv.lo + 1) iv.lo iv.hi v u.0.1 (omega (arith, u.0.0)))
        (split_all-covers rest v u.1)

split-IsPrefix4 : (fuel lo hi : ℕ) → hi < 2 ^ 32 → All IsPrefix4 (split fuel lo hi)
unfolding split
split-IsPrefix4 zero lo hi h = tt
split-IsPrefix4 (suc fuel) lo hi h = elim (Bool-cases (leb lo hi)) [
  | inr e ↦ rw e tt
  | inl e ↦
      let k = open_bits 33 0 0 lo hi in
      rw e ((ground arith, omega arith), split-IsPrefix4 fuel (lo + 2 ^ k) hi h)
]

split_all-IsPrefix4 : (ivs : Intervals) → All IsRange ivs → All IsPrefix4 (split_all ivs)
unfolding split_all
split_all-IsPrefix4 [] u = tt
split_all-IsPrefix4 (iv ∷ rest) u =
    All-append IsPrefix4 (split (iv.hi - iv.lo + 1) iv.lo iv.hi) (split_all rest)
      (split-IsPrefix4 (iv.hi - iv.lo + 1) iv.lo iv.hi u.0.1) (split_all-IsPrefix4 rest u.1)

same_text→eq : (xs ys : List ℕ) → same_text xs ys ≡ true → xs ≡ ys
same_text→eq [] [] h = refl
same_text→eq [] (y ∷ ys) h = ground arith
same_text→eq (x ∷ xs) [] h = ground arith
same_text→eq (x ∷ xs) (y ∷ ys) h = ground (arith, same_text→eq xs ys)

same_texts→eq : (xs ys : List (List ℕ)) → same_texts xs ys ≡ true → xs ≡ ys
same_texts→eq [] [] h = refl
same_texts→eq [] (y ∷ ys) h = ground arith
same_texts→eq (x ∷ xs) [] h = ground arith
same_texts→eq (x ∷ xs) (y ∷ ys) h = ground (arith, same_texts→eq xs ys, same_text→eq x y)

same_text_refl : (xs : List ℕ) → same_text xs xs ≡ true
same_text_refl [] = refl
same_text_refl (x ∷ xs) = ground (arith, same_text_refl xs)

same_texts_refl : (xs : List (List ℕ)) → same_texts xs xs ≡ true
same_texts_refl [] = refl
same_texts_refl (x ∷ xs) = ground (arith, same_text_refl x, same_texts_refl xs)

render_inj : (p q : Prefix) → IsPrefix4 p → IsPrefix4 q → render p ≡ render q → p ≡ q
render_inj p q h k e =
    let r : some p ≡ some q = sym (parse-render p h) ∙ ap parse_prefix e ∙ parse-render q k in cc r

render_all_inj :
    (ps qs : List Prefix)
    → All IsPrefix4 ps
    → All IsPrefix4 qs
    → render_all ps ≡ render_all qs
    → ps ≡ qs
unfolding render_all
render_all_inj [] [] h k e = refl
render_all_inj [] (q ∷ qs) h k e = absurd (cc e)
render_all_inj (p ∷ ps) [] h k e = absurd (cc e)
render_all_inj (p ∷ ps) (q ∷ qs) h k e =
    let first = render_inj p q h.0 k.0 (cc e) in
    let rest = render_all_inj ps qs h.1 k.1 (cc e) in cc (first, rest)

-- Two normal sets are equal exactly when they contain the same addresses, however each was
-- spelled.
pub equal_iff :
    (s o : NetSet)
    → IsNormalSet s
    → IsNormalSet o
    → (equal (some s) (some o) ≡ true)
      ↔ ((v : ℕ) → v < 2 ^ 32 → contains (some s) (v4 v) ≡ contains (some o) (v4 v))
unfolding equal prefixes contains
equal_iff s o n m = (to, from)
  where
    r : All IsRange s.intervals
    r = IsNormal→IsRange 0 s.intervals n

    q : All IsRange o.intervals
    q = IsNormal→IsRange 0 o.intervals m

    to :
        same_texts (render_all (split_all s.intervals)) (render_all (split_all o.intervals)) ≡ true
        → (v : ℕ) → v < 2 ^ 32
        → covers s.intervals v ≡ covers o.intervals v
    to e v b =
        let same =
          render_all_inj (split_all s.intervals) (split_all o.intervals)
            (split_all-IsPrefix4 s.intervals r) (split_all-IsPrefix4 o.intervals q)
            (same_texts→eq _ _ e) in
        sym (split_all-covers s.intervals v r)
        ∙ ap (λ (ps : List Prefix). covered ps v) same
        ∙ split_all-covers o.intervals v q

    from :
        ((v : ℕ) → v < 2 ^ 32 → covers s.intervals v ≡ covers o.intervals v)
        → same_texts (render_all (split_all s.intervals)) (render_all (split_all o.intervals))
          ≡ true
    from e =
        let same = normal_ext s.intervals o.intervals n m e in
        rw same (same_texts_refl (render_all (split_all o.intervals)))
