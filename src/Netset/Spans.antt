-- ===== src/Netset/Spans.antt =====
-- The intervals of internal/netset/netset.go: their order, the merge of a sorted list, and the
-- addresses that a list covers.
use planless.Prelude.{
  ℕ, ◌+◌, ◌%◌, ◌^◌, Bool, ◌&&◌, ◌||◌, not, List, [], ◌∷◌, if◌then◌else◌, leb, ltb, ◌=?◌, any,
}

-- The largest `uint32`, `^uint32(0)`.
abbrev pub max_u32 : ℕ
max_u32 = 4294967295

pub record Interval : Type 0 where
  pub lo : ℕ
  pub hi : ℕ

abbrev pub Intervals : Type 0
Intervals = List Interval

-- The less function that `normalize` sorts by.
abbrev pub before : Interval → Interval → Bool
before a b = if not (a.lo =? b.lo) then ltb a.lo b.lo else ltb a.hi b.hi

unfoldable pub insert : Interval → Intervals → Intervals
insert a [] = a ∷ []
insert a (b ∷ bs) = if before b a then b ∷ insert a bs else a ∷ b ∷ bs

-- `sort.Slice`: intervals that compare equal are equal, so any sorting gives this list.
unfoldable pub sort : Intervals → Intervals
unfolding insert
sort [] = []
sort (a ∷ ivs) = insert a (sort ivs)

-- The test by which the next interval joins the last one.
abbrev pub joins : Interval → Interval → Bool
joins last iv = leb iv.lo last.hi || (not (last.hi =? max_u32) && iv.lo =? (last.hi + 1) % 2 ^ 32)

abbrev pub widen : Interval → Interval → Interval
widen last iv = if ltb last.hi iv.hi then record last { hi = iv.hi } else last

-- The merging loop of `normalize`, after the first interval.
unfoldable pub merge_from : Interval → Intervals → Intervals
merge_from last [] = last ∷ []
merge_from last (iv ∷ rest) =
    let joined = merge_from (widen last iv) rest in
    let apart = last ∷ merge_from iv rest in if joins last iv then joined else apart

abbrev pub within : ℕ → Interval → Bool
within v iv = leb iv.lo v && leb v iv.hi

-- The scan of `Contains`.
abbrev pub covers : Intervals → ℕ → Bool
covers ivs v = any (within v) ivs
