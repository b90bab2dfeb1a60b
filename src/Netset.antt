-- ===== src/Netset.antt =====
-- internal/netset/netset.go: coverage over sets of IPv4 CIDR ranges. A `uint32` is a number below
-- `2 ^ 32`, with the wrap-around written out; a `*Set` that may be nil is an `Option NetSet`.
pub mod Ip
pub mod Spans
pub mod Merge
pub mod Prefixes
pub mod Coverage
pub mod Operations
pub mod Canonical
pub mod Render
pub mod Reading
pub mod Equality
use planless.Prelude.{
  ◌≡◌, refl, ℕ, ◌+◌, ◌-◌, ◌%◌, ◌^◌, String, Bool, true, false, ◌&&◌, Option, none, some, List, [],
  ◌∷◌, ◌++◌, if◌then◌else◌, leb, ltb, ◌=?◌, length,
}
use planless.Prelude.Text.{codes}
use Ip.{Addr, v4, Prefix, parse_prefix, masked, trim_space}
use Spans.{Interval, Intervals, sort, merge_from, covers, max_u32}

-- `Set`.
pub record NetSet : Type 0 where
  pub intervals : Intervals

-- The merge of a sorted list; an empty list stays empty.
unfoldable pub merge : Intervals → Intervals
unfolding merge_from
merge [] = []
merge (iv ∷ rest) = merge_from iv rest

-- `normalize`: sorted by lower end, then merged where intervals overlap or touch.
unfoldable pub normalize : Intervals → Intervals
unfolding sort merge
normalize ivs = merge (sort ivs)

-- The interval of one parsed prefix. `1 << 32` is 0 in a `uint32`, and 0 - 1 wraps.
unfoldable pub interval_of : Prefix → Interval
unfolding masked
interval_of p =
    let lo = (masked p).addr in
    record { lo = lo; hi = (lo + (2 ^ (32 - p.bits) % 2 ^ 32 + 2 ^ 32 - 1) % 2 ^ 32) % 2 ^ 32 }

abbrev pub prefix_of : String → Option Prefix
prefix_of cidr = parse_prefix (trim_space (codes cidr))

-- The loop of `Parse`: one entry that is no IPv4 prefix is an error for the whole list.
unfoldable pub parse_intervals : List String → Option Intervals
unfolding interval_of parse_prefix trim_space
parse_intervals [] = some []
parse_intervals (cidr ∷ rest) = elim (prefix_of cidr) [
  | none ↦ none
  | some p ↦ elim (parse_intervals rest) [ none ↦ none | some ivs ↦ some (interval_of p ∷ ivs) ]
]

unfoldable pub parse : List String → Option NetSet
unfolding parse_intervals normalize
parse cidrs = elim (parse_intervals cidrs) [
  | none ↦ none
  | some ivs ↦ some (record { intervals = normalize ivs })
]

abbrev pub empty : NetSet
empty = record { intervals = [] }

-- `All`: `MustParse` of the one prefix, which does not panic.
unfoldable pub all_addresses : Option NetSet
unfolding parse
all_addresses = parse ("0.0.0.0/0" ∷ [])

-- `Contains`.
unfoldable pub contains : Option NetSet → Addr → Bool
contains (some s) (v4 v) = covers s.intervals v
contains _ _ = false

-- `IsEmpty`.
unfoldable pub is_empty : Option NetSet → Bool
is_empty none = true
is_empty (some s) = length s.intervals =? 0

abbrev whole : Intervals → Bool
whole (iv ∷ []) = iv.lo =? 0 && iv.hi =? max_u32
whole _ = false

-- `CoversAll`.
unfoldable pub covers_all : Option NetSet → Bool
covers_all none = false
covers_all (some s) = whole s.intervals

abbrev pub intervals_of : Option NetSet → Intervals
intervals_of none = []
intervals_of (some s) = s.intervals

-- `Union`.
unfoldable pub union : Option NetSet → Option NetSet → NetSet
unfolding normalize
union s o = record { intervals = normalize (intervals_of s ++ intervals_of o) }

-- The overlap of two intervals, if they have one.
abbrev pub overlap : Interval → Interval → Intervals
overlap a b =
    let lo = if ltb a.lo b.lo then b.lo else a.lo in
    let hi = if ltb b.hi a.hi then b.hi else a.hi in
    if leb lo hi then record { lo = lo; hi = hi } ∷ [] else []

abbrev pub overlaps : Interval → Intervals → Intervals
overlaps a [] = []
overlaps a (b ∷ bs) = overlap a b ++ overlaps a bs

abbrev pub all_overlaps : Intervals → Intervals → Intervals
all_overlaps [] bs = []
all_overlaps (a ∷ ivs) bs = overlaps a bs ++ all_overlaps ivs bs

-- `Intersect`.
unfoldable pub intersect : Option NetSet → Option NetSet → NetSet
unfolding normalize
intersect (some s) (some o) = record {
  intervals = normalize (all_overlaps s.intervals o.intervals);
}
intersect _ _ = empty

two_halves : parse ("128.0.0.0/1" ∷ " 0.0.0.0/1" ∷ []) ≡ all_addresses
unfolding parse all_addresses
two_halves = refl
