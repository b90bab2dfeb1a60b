-- ===== src/Tofu/Transcript.antt =====
-- internal/tofu/transcript.go: the record of one run. A pointer that is nil and a slice that is nil are
-- `none` where the code tells them apart.
use planless.Prelude.{ℤ, String, Bool, Option, List}
use planless.Gate.{Violation, Exposure, Decision, ScanReport, DenylistReport}
use planless.Tofu.Reconcile.{Observation, Reconciliation}

abbrev pub transcript_document : String
transcript_document = "planless.transcript"

abbrev pub observation_document : String
observation_document = "planless.observations"

-- `ResultDeployed` and `ResultRefused`, and the stages of a refusal.
abbrev pub result_deployed : String
result_deployed = "DEPLOYED"

abbrev pub result_refused : String
result_refused = "DEPLOY_REFUSED"

abbrev pub stage_policy : String
stage_policy = "policy"

abbrev pub stage_binding : String
stage_binding = "binding"

pub record Artifacts : Type 0 where
  pub source_configuration : String
  pub resolved_desired_state : String
  pub plan_artifact : String
  pub evaluated_by_policy : String
  pub applied_state : String
  pub evaluated_by : String

pub record Enforcement : Type 0 where
  pub applied : Bool
  pub operator_result : String
  pub refused_at_stage : String
  pub advisory : Bool
  pub out_of_band : Bool

pub record AuditEvent : Type 0 where
  pub event : String
  pub correlation_id : String
  pub scenario : String
  pub class : String
  pub rule : String
  pub stage : String

pub record Stage : Type 0 where
  pub name : String
  pub command : String
  pub exit_code : ℤ
  pub output : String

pub record ValueOrigin : Type 0 where
  pub resource : String
  pub field : String
  pub origin : String
  pub reference : String
  pub contributors : String

-- `Finding` of internal/tofu/sources.go.
pub record Finding : Type 0 where
  pub file : String
  pub rule : String
  pub detail : String

-- `DriftReport` of internal/tofu/drift.go.
pub record DriftReport : Type 0 where
  pub document : String
  pub warning : String
  pub read_from : String
  pub state_digest : String
  pub allowlist : String
  pub remediated : Bool
  pub drift_detected : Bool
  pub findings : List Violation
  pub exposures : Option (List Exposure)

pub record Transcript : Type 0 where
  pub document : String
  pub scenario : String
  pub correlation_id : String
  pub warning : String
  pub application_build : String
  pub stages : List Stage
  pub artifacts : Artifacts
  pub source_layout : List Finding
  pub scan : Option ScanReport
  pub denylist : Option DenylistReport
  pub would_have_decided : Option Decision
  pub decision : Option Decision
  pub drift : Option DriftReport
  pub enforcement : Enforcement
  pub audit : List AuditEvent
  pub state_before : String
  pub state_after : String
  pub observations : List Observation
  pub provenance : List ValueOrigin
  pub reconcile : Option Reconciliation
  pub expected : String
  pub passed : Bool
  pub error : String

abbrev pub no_artifacts : Artifacts
no_artifacts = record {
  source_configuration = "";
  resolved_desired_state = "";
  plan_artifact = "";
  evaluated_by_policy = "";
  applied_state = "";
  evaluated_by = "";
}
