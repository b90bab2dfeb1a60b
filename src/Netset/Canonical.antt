-- ===== src/Netset/Canonical.antt =====
-- A normal list of intervals is determined by the addresses that it covers.
use planless.Prelude.{
  ℕ, ◌+◌, ◌^◌, ◌≤◌, ◌<◌, ◌≡◌, ◌↔◌, refl, sym, ap, ◌∙◌, true, false, [], ◌∷◌, ltb, ◌=?◌, arith, inl,
  inr, Bool-cases, some, length,
}
use planless.Netset.{NetSet, contains, is_empty, covers_all, whole}
use planless.Netset.Merge.{IsNormal, Separated}
use planless.Netset.Spans.{Interval, Intervals, covers, max_u32}
use planless.Netset.Ip.{v4}

not_below : (k : ℕ) (ivs : Intervals) (v : ℕ) → Separated k ivs → v < k → covers ivs v ≡ false
not_below k [] v s h = refl
not_below k (iv ∷ rest) v s h =
    let later = not_below (iv.hi + 2) rest v s.2 (omega (arith, s.0, s.1)) in
    ground (arith, later, s.0)

-- Where two normal lists agree on every address, their first intervals start together.
lo_le :
    (k : ℕ) (x y : Interval) (xs ys : Intervals)
    → Separated k (x ∷ xs)
    → Separated k (y ∷ ys)
    → covers (x ∷ xs) y.lo ≡ covers (y ∷ ys) y.lo
    → x.lo ≤ y.lo
lo_le k x y xs ys s t e = elim (Bool-cases (ltb y.lo x.lo)) [
  | inl l ↦
      let out = not_below x.lo (x ∷ xs) y.lo (omega arith, s.1, s.2) (ground arith) in
      absurd (ground (arith, out, e, t.1))
  | inr l ↦ ground arith
]

hi_le :
    (k : ℕ) (x y : Interval) (xs ys : Intervals)
    → Separated k (x ∷ xs)
    → Separated k (y ∷ ys)
    → x.lo ≡ y.lo
    → covers (x ∷ xs) (y.hi + 1) ≡ covers (y ∷ ys) (y.hi + 1)
    → x.hi ≤ y.hi
hi_le k x y xs ys s t l e =
    let out = not_below (y.hi + 2) ys (y.hi + 1) t.2 (omega arith) in ground (arith, out, e, t.1, l)

hi_below :
    (k : ℕ) (x y : Interval) (xs ys : Intervals)
    → Separated k (x ∷ xs)
    → Separated k (y ∷ ys)
    → x.lo ≡ y.lo
    → ((v : ℕ) → v < 2 ^ 32 → covers (x ∷ xs) v ≡ covers (y ∷ ys) v)
    → x.hi ≤ y.hi
hi_below k x y xs ys s t l e = elim (Bool-cases (ltb (y.hi + 1) (2 ^ 32))) [
  | inl b ↦ hi_le k x y xs ys s t l (e (y.hi + 1) (ground arith))
  | inr b ↦ ground (arith, s.1)
]

tail_agrees :
    (x : Interval) (xs ys : Intervals) (v : ℕ)
    → Separated (x.hi + 2) xs
    → Separated (x.hi + 2) ys
    → covers (x ∷ xs) v ≡ covers (x ∷ ys) v
    → covers xs v ≡ covers ys v
tail_agrees x xs ys v s t e = elim (Bool-cases (ltb v (x.hi + 2))) [
  | inl l ↦
      not_below (x.hi + 2) xs v s (ground arith) ∙ sym (not_below (x.hi + 2) ys v t (ground arith))
  | inr g ↦ ground (arith, e)
]

same_list :
    (k : ℕ) (xs ys : Intervals)
    → Separated k xs
    → Separated k ys
    → ((v : ℕ) → v < 2 ^ 32 → covers xs v ≡ covers ys v)
    → xs ≡ ys
same_list k [] [] s t e = refl
same_list k [] (y ∷ ys) s t e = absurd (ground (arith, e y.lo (omega (arith, t.1)), t.1))
same_list k (x ∷ xs) [] s t e = absurd (ground (arith, e x.lo (omega (arith, s.1)), s.1))
same_list k (x ∷ xs) (y ∷ ys) s t e =
    let le₁ = lo_le k x y xs ys s t (e y.lo (omega (arith, t.1))) in
    let le₂ = lo_le k y x ys xs t s (sym (e x.lo (omega (arith, s.1)))) in
    let low : x.lo ≡ y.lo = omega (arith, le₁, le₂) in
    let top₁ = hi_below k x y xs ys s t low e in
    let top₂ = hi_below k y x ys xs t s (sym low) (λ v b. sym (e v b)) in
    let same : x ≡ y = ground (arith, low, top₁, top₂) in
    let t' : Separated (x.hi + 2) ys = rw same t.2 in
    let rest = same_list (x.hi + 2) xs ys s.2 t' (λ v b.
      tail_agrees x xs ys v s.2 t' (e v b ∙ ap (λ (z : Interval). covers (z ∷ ys) v) (sym same))) in
    cc (same, rest)

-- Two normal lists that cover the same addresses are the same list.
pub normal_ext :
    (xs ys : Intervals)
    → IsNormal xs
    → IsNormal ys
    → ((v : ℕ) → v < 2 ^ 32 → covers xs v ≡ covers ys v)
    → xs ≡ ys
normal_ext = same_list 0

-- A set in normal form.
abbrev pub IsNormalSet : NetSet → Type 0
IsNormalSet s = IsNormal s.intervals

-- A normal set is empty exactly when it contains no IPv4 address.
pub is_empty_iff :
    (s : NetSet)
    → IsNormalSet s
    → (is_empty (some s) ≡ true) ↔ ((v : ℕ) → v < 2 ^ 32 → contains (some s) (v4 v) ≡ false)
unfolding is_empty contains
is_empty_iff s n = (λ e v b. to s.intervals e v, λ e. from s.intervals n e)
  where
    to : (ivs : Intervals) → (length ivs =? 0) ≡ true → (v : ℕ) → covers ivs v ≡ false
    to [] e v = refl
    to (iv ∷ rest) e v = ground (arith, e)

    from :
        (ivs : Intervals)
        → IsNormal ivs
        → ((v : ℕ) → v < 2 ^ 32 → covers ivs v ≡ false)
        → (length ivs =? 0) ≡ true
    from [] n e = refl
    from (iv ∷ rest) n e = absurd (ground (arith, e iv.lo (omega (arith, n.1)), n.1))

whole_list : Intervals
whole_list = record { lo = 0; hi = max_u32 } ∷ []

-- A normal set covers all exactly when it contains every IPv4 address.
pub covers_all_iff :
    (s : NetSet)
    → IsNormalSet s
    → (covers_all (some s) ≡ true) ↔ ((v : ℕ) → v < 2 ^ 32 → contains (some s) (v4 v) ≡ true)
unfolding covers_all contains whole_list
covers_all_iff s n = (λ e v b. to s.intervals e v b, from)
  where
    to : (ivs : Intervals) → whole ivs ≡ true → (v : ℕ) → v < 2 ^ 32 → covers ivs v ≡ true
    to [] e v b = ground (arith, e)
    to (iv ∷ []) e v b = ground (arith, e, b)
    to (iv ∷ jv ∷ rest) e v b = ground (arith, e)

    from : ((v : ℕ) → v < 2 ^ 32 → covers s.intervals v ≡ true) → whole s.intervals ≡ true
    from e =
        let same =
          normal_ext s.intervals whole_list n (omega arith)
            (λ v b. e v b ∙ sym (to whole_list refl v b)) in
        rw same refl
