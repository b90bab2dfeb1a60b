-- ===== src/Tofu/Compare.antt =====
-- The comparisons of internal/tofu/reconcile.go over a stream of documents. A document is `none` where
-- it cannot be decoded; `true` is the nil error.
pub mod Agreement
use planless.Prelude.{
  ℕ, ◌+◌, ℤ, String, Bool, true, false, not, ◌&&◌, ◌||◌, Option, none, some, List, [], ◌∷◌,
  if◌then◌else◌, ltb, ◌=?◌, ◌==◌, any, all, keep, length, map,
}
use planless.Gate.{Decision, Exposure}
use planless.Tofu.Transcript.{Transcript, transcript_document, observation_document}
use planless.Tofu.Reconcile.{Observation, ObservationSet, sort_observations, segment_internet}

-- The loop that the five comparisons share: each document has a key or is an error, each key must
-- agree with the first, and a comparison needs two documents.
unfoldable pub compare_from :
    {D K : Type 0}
    → (D → Option K)
    → (K → K → Bool)
    → List (Option D)
    → Option K
    → (seen : ℕ) → Bool
compare_from key agree [] first seen = not (ltb seen 2)
compare_from key agree (none ∷ rest) first seen = false
compare_from key agree (some d ∷ rest) first seen = elim (key d) [
  | none ↦ false
  | some k ↦ elim first [
    | none ↦ compare_from key agree rest (some k) (seen + 1)
    | some f ↦ let more = compare_from key agree rest (some f) (seen + 1) in agree f k && more
  ]
]

abbrev pub same_int : ℤ → ℤ → Bool
same_int (ℤ.pos m) (ℤ.pos n) = m =? n
same_int (ℤ.negsuc m) (ℤ.negsuc n) = m =? n
same_int _ _ = false

abbrev pub same_bool : Bool → Bool → Bool
same_bool true b = b
same_bool false b = not b

-- Go's `==` on an `Observation`.
abbrev pub same_observation : Observation → Observation → Bool
same_observation a b =
    a.segment == b.segment
    && a.resource == b.resource
    && same_bool a.reachable b.reachable
    && same_int a.status b.status
    && a.digest == b.digest

-- `sameObservations`.
abbrev pub same_observations : List Observation → List Observation → Bool
same_observations [] [] = true
same_observations (a ∷ as') (b ∷ bs) = same_observation a b && same_observations as' bs
same_observations _ _ = false

abbrev pub nonempty {ℓ} : {A : Type ℓ} → List A → Option (List A)
nonempty [] = none
nonempty (a ∷ l) = some (a ∷ l)

abbrev pub observations_of : ObservationSet → Option (List Observation)
observations_of set =
    if not (set.document == observation_document)
    then none
    else nonempty (sort_observations set.observations)

-- `CompareObservations`.
unfoldable pub compare_observations : List (Option ObservationSet) → Bool
unfolding compare_from
compare_observations documents = compare_from observations_of same_observations documents none 0

abbrev pub build_of : Transcript → Option String
build_of t =
    if not (t.document == transcript_document)
    then none
    else if t.application_build == ""
    then none
    else some t.application_build

-- `CompareBuilds`.
unfoldable pub compare_builds : List (Option Transcript) → Bool
unfolding compare_from
compare_builds documents = compare_from build_of (λ a b. b == a) documents none 0

-- A Go map with the keys of `V`, as its assignments, the last first.
abbrev pub Assignments : Type 0 → Type 0
Assignments V = List (String × V)

abbrev pub lookup : {V : Type 0} → String → Assignments V → Option V
lookup k [] = none
lookup k ((l, v) ∷ rest) = if l == k then some v else lookup k rest

-- `len` of a map: its distinct keys.
abbrev pub has_key : {V : Type 0} → String → Assignments V → Bool
has_key k [] = false
has_key k ((l, v) ∷ rest) = l == k || has_key k rest

abbrev pub size : {V : Type 0} → Assignments V → ℕ
size [] = 0
size ((k, v) ∷ rest) = if has_key k rest then size rest else size rest + 1

-- The loop that fills `current` in `CompareExposures`; an exposure without reachability is an error.
unfoldable pub exposures_from :
    List (String × String) → Assignments String → Option (Assignments String)
exposures_from [] current = some current
exposures_from ((resource, reach) ∷ rest) current =
    let more = exposures_from rest ((resource, reach) ∷ current) in
    if reach == "" then none else more

-- The exposures of a decision, each as its resource and its reachability.
abbrev pub reaches_of : Decision → List (String × String)
reaches_of d = elim d.exposures [
  | none ↦ []
  | some es ↦ map (λ (e : Exposure). (e.resource, e.reachability)) es
]

abbrev pub decision_of : Transcript → Option Decision
decision_of t = elim t.would_have_decided [ none ↦ t.decision | some d ↦ some d ]

abbrev pub exposures_of : Transcript → Option (Assignments String)
exposures_of t = if not (t.document == transcript_document) then none else elim (decision_of t) [
  | none ↦ none
  | some d ↦ if length (reaches_of d) =? 0 then none else exposures_from (reaches_of d) []
]

-- The inner loop of `CompareExposures`, over each resource of `current` as it was assigned last.
abbrev pub is_shared : Assignments String → String × String → Bool
is_shared first (resource, _) = has_key resource first

abbrev pub keeps_reach : Assignments String → Assignments String → String × String → Bool
keeps_reach first current (resource, _) = elim (lookup resource first) [
  | none ↦ true
  | some want ↦ elim (lookup resource current) [ none ↦ true | some reach ↦ want == reach ]
]

abbrev pub same_exposures : Assignments String → Assignments String → Bool
same_exposures first current =
    all (keeps_reach first current) current && any (is_shared first) current

-- `CompareExposures`.
unfoldable pub compare_exposures : List (Option Transcript) → Bool
unfolding compare_from exposures_from
compare_exposures documents = compare_from exposures_of same_exposures documents none 0

-- The loop that fills `current` in `CompareReachability`.
unfoldable pub reached_from : List Observation → Assignments Bool → Assignments Bool
reached_from [] current = current
reached_from (o ∷ rest) current =
    reached_from rest
      (if o.segment == segment_internet then (o.resource, o.reachable) ∷ current else current)

abbrev pub reached_of : ObservationSet → Option (Assignments Bool)
reached_of set =
    if not (set.document == observation_document)
    then none
    else nonempty (reached_from set.observations [])

abbrev pub keeps_reachable : Assignments Bool → Assignments Bool → String × Bool → Bool
keeps_reachable first current (resource, _) = elim (lookup resource first) [
  | none ↦ false
  | some want ↦ elim (lookup resource current) [
    | none ↦ true
    | some reachable ↦ same_bool want reachable
  ]
]

abbrev pub same_reachability : Assignments Bool → Assignments Bool → Bool
same_reachability first current =
    size first =? size current && all (keeps_reachable first current) current

-- `CompareReachability`.
unfoldable pub compare_reachability : List (Option ObservationSet) → Bool
unfolding compare_from reached_from
compare_reachability documents = compare_from reached_of same_reachability documents none 0

abbrev pub service : String
service = "workload/fare-engine:service"

-- The loop over the observations in `CompareApplication`: the last digest of the service.
unfoldable pub served_from : List Observation → String → String
served_from [] digest = digest
served_from (o ∷ rest) digest =
    served_from rest (if o.resource == service && o.reachable then o.digest else digest)

abbrev pub served_by : ObservationSet → Option String
served_by set =
    if not (set.document == observation_document)
    then none
    else (let digest = served_from set.observations "" in
        if digest == "" then none else some digest)

-- `CompareApplication`.
unfoldable pub compare_application : List (Option ObservationSet) → Bool
unfolding compare_from served_from
compare_application documents = compare_from served_by (λ a b. b == a) documents none 0
