-- ===== src/Netset/Operations.antt =====
-- Union and intersection in internal/netset/netset.go, by the addresses that they contain.
use planless.Prelude.{
  ℕ, ◌≡◌, refl, ◌∙◌, ◌&&◌, ◌||◌, [], ◌∷◌, ◌++◌, arith, some, any-append, All, All-append,
}
use planless.Netset.{NetSet, contains, union, intersect, overlap, overlaps, all_overlaps}
use planless.Netset.Merge.{IsRange, covers-normalize, normalize-IsNormal}
use planless.Netset.Spans.{Interval, Intervals, within, covers}
use planless.Netset.Ip.{v4}
use planless.Netset.Canonical.{IsNormalSet}
use planless.Netset.Coverage.{IsRange→bound, IsNormal→IsRange}

overlap-covers : (a b : Interval) (v : ℕ) → covers (overlap a b) v ≡ (within v a && within v b)
overlap-covers a b v = ground arith

overlaps-covers :
    (a : Interval) (bs : Intervals) (v : ℕ) → covers (overlaps a bs) v ≡ (within v a && covers bs v)
overlaps-covers a [] v = ground arith
overlaps-covers a (b ∷ bs) v = ground (
  arith,
  any-append (within v) (overlap a b) (overlaps a bs),
  overlap-covers a b v,
  overlaps-covers a bs v,
)

all_overlaps-covers :
    (xs ys : Intervals) (v : ℕ) → covers (all_overlaps xs ys) v ≡ (covers xs v && covers ys v)
all_overlaps-covers [] ys v = refl
all_overlaps-covers (x ∷ xs) ys v = ground (
  arith,
  any-append (within v) (overlaps x ys) (all_overlaps xs ys),
  overlaps-covers x ys v,
  all_overlaps-covers xs ys v,
)

overlap-IsRange : (a b : Interval) → IsRange a → All IsRange (overlap a b)
overlap-IsRange a b r = ground arith

overlaps-IsRange : (a : Interval) (bs : Intervals) → IsRange a → All IsRange (overlaps a bs)
overlaps-IsRange a [] r = tt
overlaps-IsRange a (b ∷ bs) r =
    All-append IsRange (overlap a b) (overlaps a bs) (overlap-IsRange a b r)
      (overlaps-IsRange a bs r)

all_overlaps-IsRange : (xs ys : Intervals) → All IsRange xs → All IsRange (all_overlaps xs ys)
all_overlaps-IsRange [] ys u = tt
all_overlaps-IsRange (x ∷ xs) ys u =
    All-append IsRange (overlaps x ys) (all_overlaps xs ys) (overlaps-IsRange x ys u.0)
      (all_overlaps-IsRange xs ys u.1)

module _ (s o : NetSet) (n : IsNormalSet s) (m : IsNormalSet o) where
  union-IsRange : All IsRange (s.intervals ++ o.intervals)
  union-IsRange =
      All-append IsRange s.intervals o.intervals (IsNormal→IsRange 0 s.intervals n)
        (IsNormal→IsRange 0 o.intervals m)

  -- The union of two normal sets contains an address exactly when one of the sets does.
  pub contains-union :
      (v : ℕ)
      → contains (some (union (some s) (some o))) (v4 v)
        ≡ (contains (some s) (v4 v) || contains (some o) (v4 v))
  unfolding contains union
  contains-union v =
      covers-normalize (s.intervals ++ o.intervals) v
        (IsRange→bound (s.intervals ++ o.intervals) union-IsRange)
      ∙ any-append (within v) s.intervals o.intervals

  pub union-IsNormalSet : IsNormalSet (union (some s) (some o))
  unfolding union
  union-IsNormalSet = normalize-IsNormal (s.intervals ++ o.intervals) union-IsRange

  intersect-IsRange : All IsRange (all_overlaps s.intervals o.intervals)
  intersect-IsRange =
      all_overlaps-IsRange s.intervals o.intervals (IsNormal→IsRange 0 s.intervals n)

  -- The intersection of two normal sets contains an address exactly when both sets do.
  pub contains-intersect :
      (v : ℕ)
      → contains (some (intersect (some s) (some o))) (v4 v)
        ≡ (contains (some s) (v4 v) && contains (some o) (v4 v))
  unfolding contains intersect
  contains-intersect v =
      let all = all_overlaps s.intervals o.intervals in
      covers-normalize all v (IsRange→bound all intersect-IsRange)
      ∙ all_overlaps-covers s.intervals o.intervals v

  pub intersect-IsNormalSet : IsNormalSet (intersect (some s) (some o))
  unfolding intersect
  intersect-IsNormalSet =
      normalize-IsNormal (all_overlaps s.intervals o.intervals) intersect-IsRange
