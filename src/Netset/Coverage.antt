-- ===== src/Netset/Coverage.antt =====
-- What the operations of internal/netset/netset.go mean for the addresses that a set covers.
use planless.Prelude.{
  ℕ, ◌+◌, ◌/◌, ◌^◌, ◌<◌, ◌≡◌, ◌↔◌, refl, sym, ap, ◌∙◌, true, ◌||◌, List, [], ◌∷◌, arith, inl, inr,
  Bool-cases, Option, none, some, String, Has, here, there, All,
}
use planless.Prelude.Text.{codes}
use planless.Netset.{NetSet, normalize, prefix_of, parse_intervals, parse, interval_of, contains}
use planless.Netset.Merge.{IsRange, Separated, covers-normalize, normalize-IsNormal}
use planless.Netset.Prefixes.{
  block, interval_of-IsRange, within-interval_of, parse_prefix-IsPrefix4,
}
use planless.Netset.Spans.{Intervals, within, covers}
use planless.Netset.Ip.{Prefix, v4, trim_space}
use planless.Netset.Canonical.{IsNormalSet}

-- An address lies in the prefix that a text names: the two agree before the prefix's end.
pub record InCidr (v : ℕ) (cidr : String) : Type 0 where
  pub prefix : Prefix
  pub named : prefix_of cidr ≡ some prefix
  pub agrees : v / block prefix ≡ prefix.addr / block prefix

pub IsRange→bound : (ivs : Intervals) → All IsRange ivs → All (λ iv. iv.hi < 2 ^ 32) ivs
IsRange→bound [] u = tt
IsRange→bound (iv ∷ rest) u = (u.0.1, IsRange→bound rest u.1)

pub IsNormal→IsRange : (k : ℕ) (ivs : Intervals) → Separated k ivs → All IsRange ivs
IsNormal→IsRange k [] s = tt
IsNormal→IsRange k (iv ∷ rest) s = (s.1, IsNormal→IsRange (iv.hi + 2) rest s.2)

-- What a parsed list of entries was read from.
record Parsed (cidr : String) (rest : List String) (ivs : Intervals) : Type 0 where
  first : Prefix
  more : Intervals
  first_lem : prefix_of cidr ≡ some first
  more_lem : parse_intervals rest ≡ some more
  parts : ivs ≡ interval_of first ∷ more

parse_intervals-cons :
    (cidr : String) (rest : List String) (ivs : Intervals)
    → parse_intervals (cidr ∷ rest) ≡ some ivs
    → Parsed cidr rest ivs
unfolding parse_intervals
parse_intervals-cons cidr rest ivs e = go (prefix_of cidr) (parse_intervals rest) refl refl
  where
    go :
        (p : Option Prefix) (r : Option Intervals)
        → prefix_of cidr ≡ p
        → parse_intervals rest ≡ r
        → Parsed cidr rest ivs
    go none r hp hr = absurd (ground (arith, e, hp))
    go (some p) none hp hr = absurd (ground (arith, e, hp, hr))
    go (some p) (some more) hp hr = record {
      first = p;
      more = more;
      first_lem = hp;
      more_lem = hr;
      parts = ground (arith, e, hp, hr);
    }

parse_intervals-IsRange :
    (cidrs : List String) (ivs : Intervals) → parse_intervals cidrs ≡ some ivs → All IsRange ivs
unfolding parse_intervals
parse_intervals-IsRange [] ivs e = let p : ivs ≡ [] = ground (arith, e) in rw p tt
parse_intervals-IsRange (cidr ∷ rest) ivs e =
    let r = parse_intervals-cons cidr rest ivs e in
    let p = r.parts in
    rw p (
      interval_of-IsRange r.first
          (parse_prefix-IsPrefix4 (trim_space (codes cidr)) r.first r.first_lem),
      parse_intervals-IsRange rest r.more r.more_lem,
    )

InCidr-of_within :
    (v : ℕ) (cidr : String) (p : Prefix)
    → prefix_of cidr ≡ some p
    → (within v (interval_of p) ≡ true) ↔ InCidr v cidr
InCidr-of_within v cidr p e =
    let (to, from) =
      within-interval_of p v (parse_prefix-IsPrefix4 (trim_space (codes cidr)) p e) in
    (
      λ w. record { prefix = p; named = e; agrees = to w },
      λ c. let same : c.prefix ≡ p = cc (c.named, e) in from (rw same at c.agrees),
    )

covers-Parsed :
    (cidr : String) (rest : List String) (ivs : Intervals) (v : ℕ)
    → Parsed cidr rest ivs
    → ((more : Intervals)
        → parse_intervals rest ≡ some more
        → (covers more v ≡ true) ↔ Has (InCidr v) rest)
    → (covers ivs v ≡ true) ↔ Has (InCidr v) (cidr ∷ rest)
covers-Parsed cidr rest ivs v r ih = (to, from)
  where
    step : covers ivs v ≡ (within v (interval_of r.first) || covers r.more v)
    step = ap (λ (l : Intervals). covers l v) r.parts

    one : (within v (interval_of r.first) ≡ true) ↔ InCidr v cidr
    one = InCidr-of_within v cidr r.first r.first_lem

    others : (covers r.more v ≡ true) ↔ Has (InCidr v) rest
    others = ih r.more r.more_lem

    to : covers ivs v ≡ true → Has (InCidr v) (cidr ∷ rest)
    to c = elim (Bool-cases (within v (interval_of r.first))) [
      | inl w ↦ here (one.0 w)
      | inr w ↦ there (others.0 (ground (arith, step, w, c)))
    ]

    from : Has (InCidr v) (cidr ∷ rest) → covers ivs v ≡ true
    from (here c) = ground (arith, step, one.1 c)
    from (there h) = ground (arith, step, others.1 h)

covers-parse_intervals :
    (cidrs : List String) (ivs : Intervals) (v : ℕ)
    → parse_intervals cidrs ≡ some ivs
    → (covers ivs v ≡ true) ↔ Has (InCidr v) cidrs
unfolding parse_intervals
covers-parse_intervals [] ivs v e =
    let p : ivs ≡ [] = ground (arith, e) in (λ c. absurd (ground (arith, p, c)), λ h. elim h [ ])
covers-parse_intervals (cidr ∷ rest) ivs v e =
    covers-Parsed cidr rest ivs v (parse_intervals-cons cidr rest ivs e)
      (λ more m. covers-parse_intervals rest more v m)

-- What `parse` gives when it gives a set.
parse-eq-some :
    (cidrs : List String) (s : NetSet)
    → parse cidrs ≡ some s
    → (ivs : Intervals) × (parse_intervals cidrs ≡ some ivs) × (s.intervals ≡ normalize ivs)
unfolding parse
parse-eq-some cidrs s e = go (parse_intervals cidrs) refl
  where
    go :
        (r : Option Intervals)
        → parse_intervals cidrs ≡ r
        → (ivs : Intervals) × (parse_intervals cidrs ≡ some ivs) × (s.intervals ≡ normalize ivs)
    go none h = absurd (ground (arith, e, h))
    go (some ivs) h = (ivs, h, ground (arith, e, h))

-- A set parsed from CIDR texts contains an IPv4 address exactly when the address lies in one of
-- the listed prefixes.
pub contains-parse :
    (cidrs : List String) (s : NetSet) (v : ℕ)
    → parse cidrs ≡ some s
    → (contains (some s) (v4 v) ≡ true) ↔ Has (InCidr v) cidrs
unfolding contains
contains-parse cidrs s v e =
    let (ivs, read, same) = parse-eq-some cidrs s e in
    let bound = IsRange→bound ivs (parse_intervals-IsRange cidrs ivs read) in
    let c = ap (λ (l : Intervals). covers l v) same ∙ covers-normalize ivs v bound in
    let (to, from) = covers-parse_intervals cidrs ivs v read in
    (λ h. to (sym c ∙ h), λ h. c ∙ from h)

-- A parsed set is in normal form.
pub parse-IsNormalSet : (cidrs : List String) (s : NetSet) → parse cidrs ≡ some s → IsNormalSet s
parse-IsNormalSet cidrs s e =
    let (ivs, read, same) = parse-eq-some cidrs s e in
    rw same (normalize-IsNormal ivs (parse_intervals-IsRange cidrs ivs read))

refused→Has :
    (cidrs : List String) → parse_intervals cidrs ≡ none → Has (λ cidr. prefix_of cidr ≡ none) cidrs
unfolding parse_intervals
refused→Has [] e = absurd (ground (arith, e))
refused→Has (cidr ∷ rest) e =
    go (prefix_of cidr) (parse_intervals rest) refl refl (λ h. refused→Has rest h)
  where
    go :
        (p : Option Prefix) (r : Option Intervals)
        → prefix_of cidr ≡ p
        → parse_intervals rest ≡ r
        → (parse_intervals rest ≡ none → Has (λ cidr. prefix_of cidr ≡ none) rest)
        → Has (λ cidr. prefix_of cidr ≡ none) (cidr ∷ rest)
    go none r hp hr ih = here hp
    go (some p) none hp hr ih = there (ih hr)
    go (some p) (some more) hp hr ih = absurd (ground (arith, e, hp, hr))

Has→refused :
    {cidrs : List String} → Has (λ cidr. prefix_of cidr ≡ none) cidrs → parse_intervals cidrs ≡ none
unfolding parse_intervals
Has→refused (here h) = ground (arith, h)
Has→refused (there h) = ground (arith, Has→refused h)

-- Parsing is an error exactly when some entry names no IPv4 prefix.
pub parse-eq-none_iff :
    (cidrs : List String) → (parse cidrs ≡ none) ↔ Has (λ cidr. prefix_of cidr ≡ none) cidrs
unfolding parse
parse-eq-none_iff cidrs =
    (λ e. refused→Has cidrs (ground (arith, e)), λ h. ground (arith, Has→refused h))
