-- ===== src/Tofu/Pipeline/Outcome.antt =====
-- What internal/tofu/harness.go says of a transcript: the refusal, its class, and whether the scenario
-- met its declared outcome.
use Prim.Native.String
use planless.Prelude.{
  ℤ, ℕ, zero, suc, String, Bool, true, false, not, ◌&&◌, ◌||◌, Option, none, some, [], ◌∷◌, ◌++◌,
  if◌then◌else◌, ◌=?◌, ◌==◌, leb, ltb, length, any, all, pos, negsuc,
}
use planless.Gate.{Decision, is_denied}
use planless.Tofu.Approval.{Codec}
use planless.Tofu.Transcript.{
  Transcript, Stage, transcript_document, no_artifacts, result_refused, result_deployed,
}
use planless.Tofu.Scenarios.{
  Scenario, expect_applied, expect_refused, expect_applied_out_of_band, vulnerable_warning,
}

-- `refuse`.
unfoldable pub refuse : String → String → String → Transcript → Transcript
refuse stage class rule t = record t {
  enforcement = record t.enforcement {
    applied = false;
    operator_result = result_refused;
    refused_at_stage = stage;
  };
  audit =
      t.audit
      ++ (record {
        event = result_refused;
        correlation_id = t.correlation_id;
        scenario = t.scenario;
        class = class;
        rule = rule;
        stage = stage;
      }
          ∷ []);
}

-- `classOf`.
abbrev pub class_of : Decision → String
class_of d = elim d.violations [
  | none ↦ d.class
  | some vs ↦ elim vs [ [] ↦ d.class | v ∷ _ ↦ v.class ]
]

-- `d != nil && d.Denied()`, and `d != nil && !d.Denied()`.
abbrev pub has_denied : Option Decision → Bool
has_denied none = false
has_denied (some d) = is_denied d

abbrev pub has_admitted : Option Decision → Bool
has_admitted none = false
has_admitted (some d) = not (is_denied d)

abbrev pub violation_count : Option Decision → ℕ
violation_count none = 0
violation_count (some d) = elim d.violations [ none ↦ 0 | some vs ↦ length vs ]

-- The tests on the reports, each false on a nil pointer.
abbrev pub is_drift_seen : Transcript → Bool
is_drift_seen t = elim t.drift [
  | none ↦ false
  | some d ↦
      d.drift_detected && not d.remediated && not (t.artifacts.applied_state == t.state_after)
]

-- `FindingCount == 0`.
abbrev is_zero : ℤ → Bool
is_zero (pos n) = n =? 0
is_zero (negsuc n) = false

abbrev pub is_scan_empty : Transcript → Bool
is_scan_empty t = elim t.scan [ none ↦ false | some r ↦ is_zero r.finding_count ]

abbrev pub is_denylist_empty : Transcript → Bool
is_denylist_empty t = elim t.denylist [
  | none ↦ false
  | some r ↦ is_zero r.finding_count && ltb 0 (length r.rules)
]

-- The three cases of `assert`.
abbrev pub met_out_of_band : Transcript → Bool
met_out_of_band t =
    t.enforcement.out_of_band
    && t.enforcement.applied
    && t.enforcement.operator_result == result_refused
    && length t.audit =? 1
    && has_denied t.decision

abbrev pub met_applied : Scenario → Transcript → Bool
met_applied s t =
    if not (t.enforcement.operator_result == result_deployed)
    then false
    else if s.drift_mutation
    then has_admitted t.decision && is_drift_seen t
    else if s.scan
    then is_scan_empty t && has_denied t.would_have_decided
    else if not (s.manifest == "")
    then has_admitted t.decision
    else if s.denylist
    then is_denylist_empty t && has_denied t.would_have_decided
    else if s.is_advisory
    then t.enforcement.advisory && has_denied t.decision && leb 2 (violation_count t.decision)
    else true

abbrev pub met_refused : Scenario → Transcript → Bool
met_refused s t =
    if not (t.enforcement.operator_result == result_refused) || t.enforcement.applied
    then false
    else if not (length t.audit =? 1)
    then false
    else if not s.skip_remote && not (t.state_before == t.state_after)
    then false
    else true

-- `assert`.
unfoldable pub is_met : Scenario → Transcript → Bool
is_met s t =
    if s.expect == expect_applied_out_of_band
    then met_out_of_band t
    else if s.expect == expect_applied
    then met_applied s t
    else if s.expect == expect_refused
    then met_refused s t
    else false

abbrev pub is_green : Stage → Bool
is_green stage = elim stage.exit_code [ pos n ↦ n =? 0 | negsuc _ ↦ false ]

abbrev pub has_stage : String → Transcript → Bool
has_stage name t = any (λ (stage : Stage). stage.name == name) t.stages

-- `toolchainWasGreen`.
unfoldable pub is_toolchain_green : Transcript → Bool
is_toolchain_green t =
    all is_green t.stages && (has_stage "validate" t && has_stage "plan" t && has_stage "apply" t)

-- A text without its first characters, and its first characters.
abbrev pub drop_text : ℕ → String → String
drop_text zero s = s
drop_text (suc n) String.[] = String.[]
drop_text (suc n) (String.◌∷◌ c s) = drop_text n s

abbrev pub take_text : ℕ → String → String
take_text zero s = String.[]
take_text (suc n) String.[] = String.[]
take_text (suc n) (String.◌∷◌ c s) = String.◌∷◌ c (take_text n s)

-- `correlationID`.
abbrev pub correlation_id : Codec → String → String
correlation_id codec id =
    String.◌++◌ id (String.◌++◌ "-" (take_text 8 (drop_text 7 (codec.digest (codec.bytes id)))))

-- The transcript that `Run` starts with.
abbrev pub opened : Codec → Scenario → Transcript
opened codec s = record {
  document = transcript_document;
  scenario = s.id;
  correlation_id = correlation_id codec s.id;
  warning = if s.is_vulnerable then vulnerable_warning else "";
  application_build = "";
  stages = [];
  artifacts = record no_artifacts { evaluated_by = "nothing" };
  source_layout = [];
  scan = none;
  denylist = none;
  would_have_decided = none;
  decision = none;
  drift = none;
  enforcement = record {
    applied = false;
    operator_result = result_refused;
    refused_at_stage = "";
    advisory = false;
    out_of_band = false;
  };
  audit = [];
  state_before = "";
  state_after = "";
  observations = [];
  provenance = [];
  reconcile = none;
  expected = s.expect;
  passed = false;
  error = "";
}
