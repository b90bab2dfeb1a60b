-- ===== src/Tofu/Drift.antt =====
-- internal/tofu/drift.go: the check of the platform's live state by the gate's policy, and the explicit
-- removal of the permissions that the demonstration leaves behind.
use Prim.Native.String
use planless.Prelude.{
  String, Bool, true, false, Option, none, some, List, [], ◌∷◌, if◌then◌else◌, ◌==◌, any, keep,
  refl, ◌≡◌, Bool-cases, inl, inr,
}
use planless.Prelude.Text.{text_ltb}
use planless.Ordered.{sort}
use planless.Gate.{Violation, Decision, evaluate, is_denied}
use planless.Graph.Live.{State, LiveGrant, from_platform_state}
use planless.Tofu.Transcript.{DriftReport}
use planless.Tofu.Pipeline.{Env}

abbrev pub sort_findings : Option (List Violation) → List Violation
unfolding sort text_ltb
sort_findings none = []
sort_findings (some vs) = sort (λ (a b : Violation). text_ltb a.resource b.resource) vs

abbrev pub drift_report : String → String → Decision → DriftReport
drift_report digest allowlist decision = record {
  document = "planless.drift";
  warning = "";
  read_from = "the control plane's read-only state API";
  state_digest = digest;
  allowlist = allowlist;
  remediated = false;
  drift_detected = is_denied decision;
  findings = sort_findings decision.violations;
  exposures = decision.exposures;
}

abbrev pub drift_grant_id : String
drift_grant_id = "grant-fare-exports-console-read"

abbrev pub undeclared_grants : List String
undeclared_grants = drift_grant_id ∷ "grant-fare-exports-extra-read" ∷ []

abbrev pub or_default : String → String
or_default allowlist = if allowlist == "" then "default.json" else allowlist

module _ {W : Type 0} (env : Env W) where
  -- The decision of `Drift`, from the state that was read on.
  abbrev pub live_decision : String → State → Option Decision
  live_decision allowlist state = elim (from_platform_state state env.segments) [
    | none ↦ none
    | some normalized ↦ elim (env.graph_bytes normalized) [
      | none ↦ none
      | some body ↦ some (
          evaluate (env.gate env.opa (String.◌++◌ env.allowlist_dir (String.◌++◌ "/" allowlist)))
            body)
    ]
  ]

  -- `Drift`. It reads the control plane and changes nothing, so its result is all of it.
  unfoldable pub drift : String → W → Option DriftReport
  unfolding evaluate
  drift allowlist world = elim (env.read_state world) [
    | none ↦ none
    | some state ↦ elim (env.state_digest world) [
      | none ↦ none
      | some digest ↦ elim (live_decision (or_default allowlist) state) [
        | none ↦ none
        | some decision ↦ some (drift_report digest (or_default allowlist) decision)
      ]
    ]
  ]

-- What `RemoveUndeclaredGrants` ends with: the grants it removed, and whether there was no error.
pub record Removal (W : Type 0) : Type 0 where
  pub world : W
  pub removed : List String
  pub succeeded : Bool

module _ {W : Type 0} (delete_grant : String → W → W × Bool) where
  -- The loop of `RemoveUndeclaredGrants`.
  unfoldable pub remove_each : List LiveGrant → List String → W → Removal W
  remove_each present [] world = record { world = world; removed = []; succeeded = true }
  remove_each present (id ∷ rest) world =
      let skipped = remove_each present rest world in
      let answer = delete_grant id world in
      let done = remove_each present rest answer.0 in
      if any (λ (g : LiveGrant). g.id == id) present
      then (if answer.1
          then record done { removed = id ∷ done.removed }
          else record { world = answer.0; removed = []; succeeded = false })
      else skipped

  -- `RemoveUndeclaredGrants`; `none` is an error before anything was removed.
  unfoldable pub remove_undeclared_grants : (W → Option State) → W → Option (Removal W)
  unfolding remove_each
  remove_undeclared_grants read_state world = elim (read_state world) [
    | none ↦ none
    | some state ↦ some (remove_each state.grants undeclared_grants world)
  ]

-- Independently: the deletes one after the other, up to the first that fails.
abbrev pub delete_all : {W : Type 0} → (String → W → W × Bool) → List String → W → Removal W
delete_all delete_grant [] world = record { world = world; removed = []; succeeded = true }
delete_all delete_grant (id ∷ rest) world =
    let answer = delete_grant id world in
    let done = delete_all delete_grant rest answer.0 in
    if answer.1
    then record done { removed = id ∷ done.removed }
    else record { world = answer.0; removed = []; succeeded = false }

-- Removing the undeclared grants deletes those of them that are present, in their order, up to the
-- first delete that fails, and nothing else.
pub remove_each-delete_all :
    {W : Type 0} (delete_grant : String → W → W × Bool) (present : List LiveGrant)
    (ids : List String) (world : W)
    → remove_each delete_grant present ids world
      ≡ delete_all delete_grant (keep (λ id. any (λ (g : LiveGrant). g.id == id) present) ids) world
unfolding remove_each
remove_each-delete_all delete_grant present [] world = refl
remove_each-delete_all delete_grant present (id ∷ rest) world =
    elim (Bool-cases (any (λ (g : LiveGrant). g.id == id) present)) [
      | inl e ↦
          rw e
            (rw (remove_each-delete_all delete_grant present rest (delete_grant id world).0) refl)
      | inr e ↦ rw e (remove_each-delete_all delete_grant present rest world)
    ]
