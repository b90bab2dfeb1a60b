-- ===== src/Examples/Addresses.antt =====
-- Instances of the theorems on sets of addresses.
use planless.Prelude.{
  ℕ, leb, ◌^◌, ◌<◌, ◌≤◌, ◌+◌, ◌≡◌, ◌↔◌, refl, true, ◌&&◌, none, some, [], ◌∷◌, Has, arith,
}
use planless.Netset.{interval_of, NetSet, normalize, prefix_of, parse, contains}
use planless.Netset.Ip.{Prefix, v4, parse_prefix}
use planless.Netset.Spans.{Interval, Intervals}
use planless.Netset.Merge.{normalize-IsNormal, IsNormal}
use planless.Netset.Coverage.{InCidr, contains-parse, parse-eq-none_iff, parse-IsNormalSet}
use planless.Netset.Canonical.{IsNormalSet}
use planless.Netset.Render.{render, equal, split}
use planless.Netset.Reading.{parse-render}
use planless.Netset.Equality.{equal_iff, covered, split-covers}
use planless.Netset.Prefixes.{interval_of_ends}
use planless.Examples.{corp_ranges, desk}

abbrev span : ℕ → ℕ → Interval
span lo hi = record { lo = lo; hi = hi }

abbrev overlapping : Intervals
overlapping = span 30 40 ∷ span 10 20 ∷ span 15 29 ∷ []

abbrev corp : NetSet
corp = record { intervals = span 168427520 168493055 ∷ [] }

abbrev pair : NetSet
pair = record { intervals = span 10 20 ∷ span 30 40 ∷ [] }

corp-IsNormalSet : IsNormalSet corp
corp-IsNormalSet = (omega arith, (omega arith, omega arith), tt)

pair-IsNormalSet : IsNormalSet pair
pair-IsNormalSet =
    (omega arith, (omega arith, omega arith), (omega arith, (omega arith, omega arith), tt))

contains-parse_example : (contains (some corp) (v4 desk) ≡ true) ↔ Has (InCidr desk) corp_ranges
unfolding parse
contains-parse_example = contains-parse corp_ranges corp desk refl

parse-eq-none_iff_example :
    (parse ("10.10.0.0/17" ∷ "10.10.0.0/33" ∷ []) ≡ none)
    ↔ Has (λ cidr. prefix_of cidr ≡ none) ("10.10.0.0/17" ∷ "10.10.0.0/33" ∷ [])
parse-eq-none_iff_example = parse-eq-none_iff ("10.10.0.0/17" ∷ "10.10.0.0/33" ∷ [])

parse-IsNormalSet_example : IsNormalSet corp
unfolding parse
parse-IsNormalSet_example = parse-IsNormalSet corp_ranges corp refl

normalize-IsNormal_example : IsNormal (normalize overlapping)
normalize-IsNormal_example =
    normalize-IsNormal overlapping (omega arith, (omega arith, (omega arith, tt)))

parse-render_example :
    parse_prefix (render (record { addr = 168427520; bits = 16 }))
    ≡ some (record { addr = 168427520; bits = 16 })
parse-render_example =
    parse-render (record { addr = 168427520; bits = 16 }) (omega arith, omega arith)

equal_iff_example :
    (equal (some corp) (some pair) ≡ true)
    ↔ ((v : ℕ) → v < 2 ^ 32 → contains (some corp) (v4 v) ≡ contains (some pair) (v4 v))
equal_iff_example = equal_iff corp pair corp-IsNormalSet pair-IsNormalSet

abbrev office : Prefix
office = record { addr = 168427527; bits = 16 }

interval_of_ends_example :
    ((interval_of office).lo ≡ 168427520)
    × ((interval_of office).hi ≡ 168493055)
    × (0 < 65536)
    × (168427520 + 65536 ≤ 2 ^ 32)
interval_of_ends_example = interval_of_ends office (omega arith, omega arith)

split-covers_example : covered (split 31 10 40) 17 ≡ (leb 10 17 && leb 17 40)
split-covers_example = split-covers 31 10 40 17 (omega arith) (omega arith)
