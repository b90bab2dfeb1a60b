-- ===== src/Gate.antt =====
-- internal/gate/gate.go: the deployment gate, which asks a policy engine and answers every failure
-- with a denial. The engine's process and `encoding/json` are parameters: fields of `Env`.
pub mod Decisions
pub mod Reports
use planless.Prelude.{
  ℤ, ℕ, String, Bool, true, false, not, ◌&&◌, ◌||◌, Option, none, some, List, [], ◌∷◌,
  if◌then◌else◌, ltb, ◌=?◌, ◌==◌, length,
}

abbrev pub result_admit : String
result_admit = "admit"

abbrev pub result_deny : String
result_deny = "deny"

abbrev pub query : String
query = "data.planless.gate.decision"

abbrev pub denylist_query : String
denylist_query = "data.planless.denylist.report"

pub record Violation : Type 0 where
  pub class : String
  pub resource : String
  pub exposure : String
  pub reason : String

pub record Exposure : Type 0 where
  pub resource : String
  pub computed : String
  pub reachability : String
  pub admitted_by : String

-- `Decision`. A slice that the decoder left nil is `none`.
pub record Decision : Type 0 where
  pub result : String
  pub class : String
  pub violations : Option (List Violation)
  pub exposures : Option (List Exposure)

pub record ScanFinding : Type 0 where
  pub rule : String
  pub file : String
  pub reason : String

pub record ScanReport : Type 0 where
  pub scanned_files : List String
  pub findings : Option (List ScanFinding)
  pub finding_count : ℤ
  pub artifact : String
  pub correct_about : String
  pub did_not_read : String

pub record DenylistFinding : Type 0 where
  pub rule : String
  pub resource : String
  pub matched : String
  pub reason : String

pub record DenylistReport : Type 0 where
  pub rules : List String
  pub findings : Option (List DenylistFinding)
  pub finding_count : ℤ
  pub artifact : String
  pub method : String
  pub limitation : String

-- How the engine's process ends: `cmd.Start` fails, the process fails with this on its standard
-- error, the timeout comes first, or it is done with this on its standard output.
pub data Process : Type 0 where
  not_started timed_out : Process
  failed done : List ℕ → Process

-- `evalOutput`: each result's expressions, an expression as its raw value.
abbrev pub EvalOutput : Type 0
EvalOutput = List (List (List ℕ))

pub record Env : Type 0 where
  pub is_valid : List ℕ → Bool
  pub has_allowlist : Bool
  pub engine : (input : List ℕ) → (query : String) → Process
  pub message : List ℕ → String
  pub read_output : List ℕ → Option EvalOutput
  pub read_decision : List ℕ → Option Decision
  pub read_scan : List ℕ → Option ScanReport
  pub read_denylist : List ℕ → Option DenylistReport

-- A value, or the error's text.
pub data Result {ℓ} (A : Type ℓ) : Type ℓ where
  ok : A → Result A
  error : String → Result A

-- `Denied`.
abbrev pub is_denied : Decision → Bool
is_denied d = not (d.result == result_admit)

abbrev pub denial : String → String → Decision
denial class reason = record {
  result = result_deny;
  class = class;
  violations =
      some (record { class = class; resource = "<artifact>"; exposure = ""; reason = reason } ∷ []);
  exposures = some [];
}

-- `run`. `message` is `firstLine` of the standard error, behind the text in front of it.
abbrev pub run : Env → List ℕ → String → Result (List ℕ)
run env input q = elim (env.engine input q) [
  | not_started ↦ error "the policy engine could not be started"
  | timed_out ↦ error "the policy engine did not finish in time"
  | failed stderr ↦ error (env.message stderr)
  | done stdout ↦ ok stdout
]

-- The first expression of the first result, where there is one.
abbrev pub first_value : EvalOutput → Option (List ℕ)
first_value [] = none
first_value ([] ∷ _) = none
first_value ((value ∷ _) ∷ _) = some value

-- `expressionValue`.
abbrev pub expression_value : Env → List ℕ → Result (List ℕ)
expression_value env raw = elim (env.read_output raw) [
  | none ↦ error "the policy engine returned output this runner cannot read"
  | some out ↦ elim (first_value out) [
    | none ↦ error "the policy returned no answer"
    | some value ↦ ok value
  ]
]

-- `len(d.Violations) > 0`.
abbrev pub has_violations : Decision → Bool
has_violations d = elim d.violations [ none ↦ false | some vs ↦ ltb 0 (length vs) ]

abbrev pub or_empty {ℓ} : {A : Type ℓ} → Option (List A) → Option (List A)
or_empty none = some []
or_empty (some l) = some l

-- The checks of `parse` on a decoded decision.
unfoldable pub checked : Decision → Decision
checked d =
    if not (d.result == result_admit) && not (d.result == result_deny)
    then denial "malformed_decision" "the policy returned an unrecognized result"
    else if d.result == result_admit && has_violations d
    then denial "malformed_decision" "the policy admitted a deployment while reporting violations"
    else record d { violations = or_empty d.violations; exposures = or_empty d.exposures }

-- `parse`.
unfoldable pub parse : Env → List ℕ → Decision
unfolding checked
parse env raw = elim (env.read_output raw) [
  | none ↦ denial "malformed_decision" "the policy engine returned output this gate cannot read"
  | some out ↦ elim (first_value out) [
    | none ↦ denial "no_decision" "the policy returned no decision"
    | some value ↦ elim (env.read_decision value) [
      | none ↦ denial "malformed_decision" "the policy returned a decision this gate cannot read"
      | some d ↦ checked d
    ]
  ]
]

-- `Evaluate`.
unfoldable pub evaluate : Env → List ℕ → Decision
unfolding parse
evaluate env graph =
    if not (env.is_valid graph)
    then denial "unparsable_artifact" "the policy input is not valid JSON"
    else if not env.has_allowlist
    then denial "policy_engine_error" "the reviewed allowlist could not be read"
    else elim (run env graph query) [
      | error text ↦ denial "policy_engine_error" text
      | ok raw ↦ parse env raw
    ]

-- `ScanWith`, from the decoded report on.
abbrev pub checked_scan : ScanReport → Result ScanReport
checked_scan report =
    if length report.scanned_files =? 0
    then error "the scan reports having read no files at all"
    else ok (record report { findings = or_empty report.findings })

-- `ScanWith`.
unfoldable pub scan_with : Env → List ℕ → String → Result ScanReport
scan_with env bundle q = elim (run env bundle q) [
  | error text ↦ error text
  | ok raw ↦ elim (expression_value env raw) [
    | error text ↦ error text
    | ok value ↦ elim (env.read_scan value) [
      | none ↦ error "the scan returned a report this runner cannot read"
      | some report ↦ checked_scan report
    ]
  ]
]

abbrev pub checked_denylist : DenylistReport → Result DenylistReport
checked_denylist report =
    if length report.rules =? 0
    then error "the denylist reports having no rules at all"
    else ok (record report { findings = or_empty report.findings })

-- `Denylist`.
unfoldable pub denylist : Env → List ℕ → Result DenylistReport
denylist env graph = elim (run env graph denylist_query) [
  | error text ↦ error text
  | ok raw ↦ elim (expression_value env raw) [
    | error text ↦ error text
    | ok value ↦ elim (env.read_denylist value) [
      | none ↦ error "the denylist returned a report this runner cannot read"
      | some report ↦ checked_denylist report
    ]
  ]
]
