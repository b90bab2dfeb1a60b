-- ===== src/Tofu/Compare/Agreement.antt =====
-- What the comparisons of internal/tofu/reconcile.go accept: at least two documents, all with the same
-- key.
use planless.Prelude.{
  ℕ, ◌+◌, ◌≤◌, ◌≡◌, ◌↔◌, refl, sym, String, Bool, true, ◌&&◌, Option, none, some, List, [], ◌∷◌,
  ◌==◌, length, All, Option-cases, inl, inr, arith, text_eq→eq, eq→text_eq, text_eq_refl, ℤ,
}
use planless.Tofu.Reconcile.{Observation, ObservationSet}
use planless.Tofu.Transcript.{Transcript}
use planless.Tofu.Compare.{
  compare_from, same_int, same_bool, same_observation, same_observations, observations_of,
  compare_observations, build_of, compare_builds, served_by, compare_application,
}

-- The document could be decoded, and its key is this one.
pub record HasKey {D K : Type 0} (key : D → Option K) (k : K) (x : Option D) : Type 0 where
  pub document : D
  pub decoded : x ≡ some document
  pub keyed : key document ≡ some k

module _ {D K : Type 0} (key : D → Option K) (agree : K → K → Bool)
    (reflects : (f k : K) → (agree f k ≡ true) ↔ (f ≡ k)) where
  from→ :
      (docs : List (Option D)) (f : K) (seen : ℕ)
      → compare_from key agree docs (some f) seen ≡ true
      → (2 ≤ seen + length docs) × All (HasKey key f) docs
  unfolding compare_from
  from→ [] f seen h = (ground (arith, h), tt)
  from→ (none ∷ rest) f seen h = absurd (cc h)
  from→ (some d ∷ rest) f seen h = elim (Option-cases (key d)) [
    | inl n ↦ absurd (cc (rw (n, compare_from) at h))
    | inr (k, e) ↦
        let both : (agree f k && compare_from key agree rest (some f) (seen + 1)) ≡ true =
          rw (e, compare_from) at h in
        let same : f ≡ k = (reflects f k).0 (ground (arith, both)) in
        let ih = from→ rest f (seen + 1) (ground (arith, both)) in
        (omega (arith, ih.0), (record { document = d; decoded = refl; keyed = rw same e }, ih.1))
  ]

  from← :
      (docs : List (Option D)) (f : K) (seen : ℕ)
      → 2 ≤ seen + length docs
      → All (HasKey key f) docs
      → compare_from key agree docs (some f) seen ≡ true
  unfolding compare_from
  from← [] f seen h u = ground (arith, h)
  from← (none ∷ rest) f seen h u = absurd (cc u.0.decoded)
  from← (some d ∷ rest) f seen h u =
      let is : u.0.document ≡ d = cc u.0.decoded in
      let e : key d ≡ some f = rw (← is) u.0.keyed in
      let ih = from← rest f (seen + 1) (omega (arith, h)) u.1 in
      rw (e, compare_from) (ground (arith, (reflects f f).1 refl, ih))

  -- The loop from its start.
  pub compare_from_lem :
      (docs : List (Option D))
      → (compare_from key agree docs none 0 ≡ true)
        ↔ ((2 ≤ length docs) × ((k : K) × All (HasKey key k) docs))
  unfolding compare_from
  compare_from_lem [] = (λ h. absurd (cc h), λ u. absurd (ground (arith, u.0)))
  compare_from_lem (none ∷ rest) = (λ h. absurd (cc h), λ u. absurd (cc u.1.1.0.decoded))
  compare_from_lem (some d ∷ rest) = (to, from)
    where
      to :
          compare_from key agree (some d ∷ rest) none 0 ≡ true
          → (2 ≤ length (some d ∷ rest)) × ((k : K) × All (HasKey key k) (some d ∷ rest))
      to h = elim (Option-cases (key d)) [
        | inl n ↦ absurd (cc (rw (n, compare_from) at h))
        | inr (k, e) ↦
            let ih = from→ rest k 1 (rw (e, compare_from) at h) in
            (omega (arith, ih.0), (k, (record { document = d; decoded = refl; keyed = e }, ih.1)))
      ]

      from :
          (2 ≤ length (some d ∷ rest)) × ((k : K) × All (HasKey key k) (some d ∷ rest))
          → compare_from key agree (some d ∷ rest) none 0 ≡ true
      from (many, (k, (first, others))) =
          let is : first.document ≡ d = cc first.decoded in
          let e : key d ≡ some k = rw (← is) first.keyed in
          rw (e, compare_from) (from← rest k 1 (omega (arith, many)) others)

texts_agree : (f k : String) → ((k == f) ≡ true) ↔ (f ≡ k)
texts_agree f k = (λ h. sym (text_eq→eq h), λ p. eq→text_eq (sym p))

-- The comparison of builds succeeds exactly when there are at least two documents, and all of them
-- can be decoded and are transcripts that report one build that is not empty.
pub compare_builds_iff :
    (docs : List (Option Transcript))
    → (compare_builds docs ≡ true)
      ↔ ((2 ≤ length docs) × ((build : String) × All (HasKey build_of build) docs))
unfolding compare_builds
compare_builds_iff docs = compare_from_lem build_of (λ a b. b == a) texts_agree docs

-- The comparison of applications succeeds exactly when there are at least two documents, and all
-- of them can be decoded and are observation sets whose last digest of a reached service is one
-- text that is not empty.
pub compare_application_iff :
    (docs : List (Option ObservationSet))
    → (compare_application docs ≡ true)
      ↔ ((2 ≤ length docs) × ((digest : String) × All (HasKey served_by digest) docs))
unfolding compare_application
compare_application_iff docs = compare_from_lem served_by (λ a b. b == a) texts_agree docs

same_int→ : (a b : ℤ) → same_int a b ≡ true → a ≡ b
same_int→ (ℤ.pos m) (ℤ.pos n) h = ground (arith, h)
same_int→ (ℤ.pos m) (ℤ.negsuc n) h = absurd (cc h)
same_int→ (ℤ.negsuc m) (ℤ.pos n) h = absurd (cc h)
same_int→ (ℤ.negsuc m) (ℤ.negsuc n) h = ground (arith, h)

same_int_refl : (a : ℤ) → same_int a a ≡ true
same_int_refl (ℤ.pos m) = ground arith
same_int_refl (ℤ.negsuc m) = ground arith

same_bool→ : (a b : Bool) → same_bool a b ≡ true → a ≡ b
same_bool→ a b h = ground (arith, h)

same_bool_refl : (a : Bool) → same_bool a a ≡ true
same_bool_refl a = ground arith

same_observation→ : (a b : Observation) → same_observation a b ≡ true → a ≡ b
same_observation→ a b h =
    let segment : a.segment ≡ b.segment = text_eq→eq (ground (arith, h)) in
    let resource : a.resource ≡ b.resource = text_eq→eq (ground (arith, h)) in
    let digest : a.digest ≡ b.digest = text_eq→eq (ground (arith, h)) in
    let reachable : a.reachable ≡ b.reachable =
      same_bool→ a.reachable b.reachable (ground (arith, h)) in
    let status : a.status ≡ b.status = same_int→ a.status b.status (ground (arith, h)) in
    cc (segment, resource, digest, reachable, status)

same_observation_refl : (a : Observation) → same_observation a a ≡ true
same_observation_refl a = ground (
  arith,
  text_eq_refl a.segment,
  text_eq_refl a.resource,
  text_eq_refl a.digest,
  same_bool_refl a.reachable,
  same_int_refl a.status,
)

same_observations→ : (l m : List Observation) → same_observations l m ≡ true → l ≡ m
same_observations→ [] [] h = refl
same_observations→ [] (b ∷ m) h = absurd (cc h)
same_observations→ (a ∷ l) [] h = absurd (cc h)
same_observations→ (a ∷ l) (b ∷ m) h =
    let first = same_observation→ a b (ground (arith, h)) in
    let rest = same_observations→ l m (ground (arith, h)) in cc (first, rest)

same_observations_refl : (l : List Observation) → same_observations l l ≡ true
same_observations_refl [] = refl
same_observations_refl (a ∷ l) = ground (arith, same_observation_refl a, same_observations_refl l)

-- The comparison of observations succeeds exactly when there are at least two documents, and all
-- of them can be decoded and are observation sets with one sorted list of observations that is not
-- empty.
pub compare_observations_iff :
    (docs : List (Option ObservationSet))
    → (compare_observations docs ≡ true) ↔ (
        (2 ≤ length docs)
        × ((sorted : List Observation) × All (HasKey observations_of sorted) docs))
unfolding compare_observations
compare_observations_iff docs =
    compare_from_lem observations_of same_observations
      (λ f k. (same_observations→ f k, λ p. rw p (same_observations_refl k))) docs
