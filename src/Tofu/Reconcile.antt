-- ===== src/Tofu/Reconcile.antt =====
-- internal/tofu/reconcile.go: what each segment observed, against what a reviewed allowlist names.
-- A stream of JSON documents is the list of what the decoder makes of it.
pub mod Unreviewed
use Prim.Native.String
use planless.Prelude.{
  ℕ, ℤ, String, Bool, true, false, not, ◌&&◌, ◌||◌, Option, none, some, List, [], ◌∷◌, ◌++◌,
  if◌then◌else◌, ltb, ◌=?◌, ◌==◌, any, keep, length, map,
}
use planless.Prelude.Text.{codes, text_ltb}
use planless.Ordered.{sort}
use planless.Netset.{parse, contains}
use planless.Netset.Ip.{v4, parse_addr4}

-- `Observation` and `ObservationSet` of internal/tofu/transcript.go.
pub record Observation : Type 0 where
  pub segment : String
  pub resource : String
  pub reachable : Bool
  pub status : ℤ
  pub digest : String

pub record ObservationSet : Type 0 where
  pub document : String
  pub segment : String
  pub observations : List Observation

-- An entry of `allowlistDocument`.
pub record Entry : Type 0 where
  pub rule : String
  pub kind : String
  pub name : String
  pub principals : List String
  pub sources : List String

-- `Reconciliation`. Its reason is the text for a pass, or the resources that the text for a failure
-- names.
pub record Reconciliation : Type 0 where
  pub verdict : String
  pub expected : String
  pub publicly_reachable : List String
  pub allowed_public : List String
  pub unreviewed : List String

abbrev pub verdict_pass : String
verdict_pass = "PASS"

abbrev pub verdict_fail : String
verdict_fail = "FAIL"

abbrev pub segment_internet : String
segment_internet = "internet"

abbrev pub probe_address : String
probe_address = "198.51.100.50"

-- `anonymous`.
abbrev pub is_anonymous : List String → Bool
is_anonymous = any (λ p. p == "*")

abbrev pub resource_of : Entry → String
resource_of e = String.◌++◌ e.kind (String.◌++◌ "/" e.name)

-- The loop of `PublicEntries`; `none` is the error of an entry whose sources cannot be read.
unfoldable pub public_scan : List Entry → ℕ → Option (List String)
unfolding parse contains
public_scan [] probe = some []
public_scan (e ∷ rest) probe = elim (parse e.sources) [
  | none ↦ none
  | some set ↦ elim (public_scan rest probe) [
    | none ↦ none
    | some out ↦ some (
        if not (contains (some set) (v4 probe))
        then out
        else if e.kind == "bucket" && not (is_anonymous e.principals)
        then out
        else resource_of e ∷ out)
  ]
]

-- `sort.Strings`.
abbrev pub sort_strings : List String → List String
sort_strings = sort text_ltb

-- `PublicEntries`, from the decoded document on.
unfoldable pub public_entries : List Entry → Option (List String)
unfolding public_scan parse_addr4 sort
public_entries entries =
    if length entries =? 0 then none else elim (parse_addr4 (codes probe_address)) [
      | none ↦ none
      | some probe ↦ elim (public_scan entries probe) [
        | none ↦ none
        | some out ↦ some (sort_strings out)
      ]
    ]

-- The less function of `sortObservations`.
abbrev pub observed_before : Observation → Observation → Bool
observed_before a b =
    if not (a.segment == b.segment)
    then text_ltb a.segment b.segment
    else text_ltb a.resource b.resource

-- `sortObservations`.
unfoldable pub sort_observations : List Observation → List Observation
unfolding sort
sort_observations = sort observed_before

abbrev pub is_public : Observation → Bool
is_public o = o.segment == segment_internet && o.reachable

-- The loop of `Reconcile` over the observations.
abbrev pub reachable_resources : List Observation → List String
reachable_resources os = map (λ o. o.resource) (keep is_public os)

abbrev pub listed : List String → String → Bool
listed list v = any (λ e. e == v) list

-- `Reconcile`, from the stream's observations and the decoded allowlist on; `expected` is what
-- `ExpectReconciliationOf` gives.
unfoldable pub reconcile :
    List Observation → List Entry → (expected : String) → Option Reconciliation
unfolding public_entries sort_observations sort
reconcile observations entries expected = elim (public_entries entries) [
  | none ↦ none
  | some allowed ↦
      let reachable = sort_strings (reachable_resources (sort_observations observations)) in
      let unreviewed = keep (λ r. not (listed allowed r)) reachable in
      some (record {
        verdict = if length unreviewed =? 0 then verdict_pass else verdict_fail;
        expected = expected;
        publicly_reachable = reachable;
        allowed_public = allowed;
        unreviewed = unreviewed;
      })
]

-- What `Reconcile` leaves in the transcript's `Passed`.
abbrev pub passed_after : Bool → Reconciliation → Bool
passed_after passed r = passed && r.verdict == r.expected

-- One document of the stream, by its head.
pub data Document (T : Type 0) : Type 0 where
  transcript : T → Document T
  observations : ObservationSet → Document T
  unrecognized : Document T

-- The loop of `readStream`. `none` is a document that cannot be decoded, and an error.
unfoldable pub read_documents :
    {T : Type 0}
    → List (Option (Document T))
    → Option T
    → List Observation
    → Option (Option T × List Observation)
read_documents [] seen found = some (seen, found)
read_documents (none ∷ rest) seen found = none
read_documents (some unrecognized ∷ rest) seen found = none
read_documents (some (transcript t) ∷ rest) none found = read_documents rest (some t) found
read_documents (some (transcript t) ∷ rest) (some s) found = none
read_documents (some (observations set) ∷ rest) seen found =
    read_documents rest seen (found ++ set.observations)

-- The checks of `readStream` after the loop.
abbrev pub complete : {T : Type 0} → Option T × List Observation → Option (T × List Observation)
complete (none, found) = none
complete (some t, []) = none
complete (some t, o ∷ found) = some (t, o ∷ found)

-- `readStream`.
unfoldable pub read_stream :
    {T : Type 0} → List (Option (Document T)) → Option (T × List Observation)
unfolding read_documents
read_stream documents = elim (read_documents documents none []) [
  | none ↦ none
  | some found ↦ complete found
]
