-- ===== src/Netset/Merge.antt =====
-- Sorting and merging intervals keep the covered addresses, and end in a normal form.
use planless.Prelude.{
  ℕ, ◌+◌, ◌^◌, ◌≤◌, ◌<◌, ◌≡◌, refl, ◌∙◌, true, false, ◌||◌, [], ◌∷◌, All, arith, inl, inr,
  Bool-cases,
}
use planless.Netset.{merge, normalize}
use planless.Netset.Spans.{
  Interval, Intervals, before, insert, sort, joins, widen, merge_from, within, covers,
}

covers-insert : (a : Interval) (bs : Intervals) (v : ℕ) → covers (insert a bs) v ≡ covers (a ∷ bs) v
unfolding insert
covers-insert a [] v = refl
covers-insert a (b ∷ bs) v = ground (arith, covers-insert a bs v)

covers-sort : (ivs : Intervals) (v : ℕ) → covers (sort ivs) v ≡ covers ivs v
unfolding sort
covers-sort [] v = refl
covers-sort (a ∷ ivs) v = ground (arith, covers-insert a (sort ivs) v, covers-sort ivs v)

-- Lower ends do not fall, starting from a bound.
abbrev pub Ascending : ℕ → Intervals → Type 0
Ascending k [] = Unit
Ascending k (iv ∷ rest) = (k ≤ iv.lo) × Ascending iv.lo rest

abbrev pub IsU32 : Interval → Type 0
IsU32 iv = (iv.lo < 2 ^ 32) × (iv.hi < 2 ^ 32)

-- A proper interval of addresses.
abbrev pub IsRange : Interval → Type 0
IsRange iv = (iv.lo ≤ iv.hi) × (iv.hi < 2 ^ 32)

Ascending-weaken : (j k : ℕ) (ivs : Intervals) → j ≤ k → Ascending k ivs → Ascending j ivs
Ascending-weaken j k [] h s = tt
Ascending-weaken j k (iv ∷ rest) h s = (omega arith, s.1)

insert-Ascending :
    (k : ℕ) (a : Interval) (bs : Intervals) → k ≤ a.lo → Ascending k bs → Ascending k (insert a bs)
unfolding insert
insert-Ascending k a [] h s = (h, tt)
insert-Ascending k a (b ∷ bs) h s =
    ground (arith, insert-Ascending b.lo a bs, Ascending-weaken b.lo a.lo bs)

sort-Ascending : (ivs : Intervals) → Ascending 0 (sort ivs)
unfolding sort
sort-Ascending [] = tt
sort-Ascending (a ∷ ivs) = insert-Ascending 0 a (sort ivs) (omega arith) (sort-Ascending ivs)

within-joins :
    (last iv : Interval) (v : ℕ)
    → last.lo ≤ iv.lo
    → last.hi < 2 ^ 32
    → joins last iv ≡ true
    → within v (widen last iv) ≡ (within v last || within v iv)
within-joins last iv v h u j = ground arith

widen-bound : (last iv : Interval) → last.hi < 2 ^ 32 → iv.hi < 2 ^ 32 → (widen last iv).hi < 2 ^ 32
widen-bound last iv h k = ground arith

widen-lo : (last iv : Interval) → (widen last iv).lo ≡ last.lo
widen-lo last iv = ground arith

covers-merge_from :
    (last : Interval) (ivs : Intervals) (v : ℕ)
    → last.hi < 2 ^ 32
    → All (λ iv. iv.hi < 2 ^ 32) ivs
    → Ascending last.lo ivs
    → covers (merge_from last ivs) v ≡ covers (last ∷ ivs) v
unfolding merge_from
covers-merge_from last [] v h u s = refl
covers-merge_from last (iv ∷ rest) v h u s = elim (Bool-cases (joins last iv)) [
  | inl j ↦ rw j (
      ground (
        arith,
        covers-merge_from (widen last iv) rest v (widen-bound last iv h u.0) u.1
            (rw widen-lo (Ascending-weaken last.lo iv.lo rest s.0 s.1)),
        within-joins last iv v s.0 h j,
      ))
  | inr a ↦ rw a (ground (arith, covers-merge_from iv rest v u.0 u.1 s.1))
]

insert-All :
    (P : Interval → Type 0) (a : Interval) (bs : Intervals) → P a → All P bs → All P (insert a bs)
unfolding insert
insert-All P a [] h u = (h, tt)
insert-All P a (b ∷ bs) h u = elim (Bool-cases (before b a)) [
  | inl e ↦ rw e (u.0, insert-All P a bs h u.1)
  | inr e ↦ rw e (h, u)
]

sort-All : (P : Interval → Type 0) (ivs : Intervals) → All P ivs → All P (sort ivs)
unfolding sort
sort-All P [] u = tt
sort-All P (a ∷ rest) u = insert-All P a (sort rest) u.0 (sort-All P rest u.1)

covers-merge :
    (ivs : Intervals) (v : ℕ)
    → All (λ iv. iv.hi < 2 ^ 32) ivs
    → Ascending 0 ivs
    → covers (merge ivs) v ≡ covers ivs v
unfolding merge
covers-merge [] v u s = refl
covers-merge (iv ∷ rest) v u s = covers-merge_from iv rest v u.0 u.1 s.1

-- Normalizing intervals below 2 ^ 32 changes no address's coverage.
pub covers-normalize :
    (ivs : Intervals) (v : ℕ)
    → All (λ iv. iv.hi < 2 ^ 32) ivs
    → covers (normalize ivs) v ≡ covers ivs v
unfolding normalize
covers-normalize ivs v u =
    covers-merge (sort ivs) v (sort-All (λ iv. iv.hi < 2 ^ 32) ivs u) (sort-Ascending ivs)
    ∙ covers-sort ivs v

-- The normal form: proper intervals, each ending at least two addresses before the next.
abbrev pub Separated : ℕ → Intervals → Type 0
Separated k [] = Unit
Separated k (iv ∷ rest) = (k ≤ iv.lo) × IsRange iv × Separated (iv.hi + 2) rest

abbrev pub IsNormal : Intervals → Type 0
IsNormal ivs = Separated 0 ivs

widen-IsRange : (last iv : Interval) → IsRange last → IsRange iv → IsRange (widen last iv)
widen-IsRange last iv h k = ground arith

apart_lem :
    (last iv : Interval)
    → last.lo ≤ iv.lo
    → IsRange last
    → IsRange iv
    → joins last iv ≡ false
    → last.hi + 2 ≤ iv.lo
apart_lem last iv h r k a = ground arith

merge_from-Separated :
    (k : ℕ) (last : Interval) (ivs : Intervals)
    → k ≤ last.lo
    → IsRange last
    → All IsRange ivs
    → Ascending last.lo ivs
    → Separated k (merge_from last ivs)
unfolding merge_from
merge_from-Separated k last [] h r u s = (h, r, tt)
merge_from-Separated k last (iv ∷ rest) h r u s = elim (Bool-cases (joins last iv)) [
  | inl j ↦ rw j (
      merge_from-Separated k (widen last iv) rest (rw widen-lo h) (widen-IsRange last iv r u.0) u.1
        (rw widen-lo (Ascending-weaken last.lo iv.lo rest s.0 s.1)))
  | inr a ↦
      rw a (
        h,
        r,
        merge_from-Separated (last.hi + 2) iv rest (apart_lem last iv s.0 r u.0 a) u.0 u.1 s.1,
      )
]

merge-IsNormal : (ivs : Intervals) → All IsRange ivs → Ascending 0 ivs → IsNormal (merge ivs)
unfolding merge
merge-IsNormal [] u s = tt
merge-IsNormal (iv ∷ rest) u s = merge_from-Separated 0 iv rest s.0 u.0 u.1 s.1

-- Normalizing proper intervals gives intervals in order, each ending at least two addresses before
-- the next begins.
pub normalize-IsNormal : (ivs : Intervals) → All IsRange ivs → IsNormal (normalize ivs)
unfolding normalize
normalize-IsNormal ivs u = merge-IsNormal (sort ivs) (sort-All IsRange ivs u) (sort-Ascending ivs)
