-- ===== src/Tofu/Pipeline/Harness.antt =====
-- `Run` of internal/tofu/harness.go and its parts. The work directory's paths are written as the code
-- joins them to it: `plan.tfplan` and `approval.json`.
use Prim.Native.String
use planless.Prelude.{
  ℕ, String, Bool, true, false, not, ◌&&◌, Option, none, some, List, [], ◌∷◌, ◌++◌, if◌then◌else◌,
  ◌==◌, length, ltb,
}
use planless.Gate.{Decision, denial, is_denied, scan_with, denylist, Result, ok, error}
use planless.Gate
use planless.Graph.Plan.{from_plan}
use planless.Tofu.Approval.{
  Approval, write_file, run_id, write, verify_approval, Class, verified, no_approval,
  changed_after_approval, issued_for_another_run, unreadable,
}
use planless.Tofu.Transcript.{Transcript, result_deployed, stage_policy, stage_binding}
use planless.Tofu.Scenarios.{
  Scenario, allowlist_of, vulnerable_warning, binding_unapproved, binding_stale, binding_modified,
}
use planless.Tofu.Canonical.{canonical_plan}
use planless.Tofu.Origins.{value_origins}
use planless.Tofu.Drift.{drift}
use planless.Tofu.Pipeline.{
  Env, Step, ◌>>=◌, ◌>>◌, done, raise, lift, gets, read_file, note, set_files, call, run_tool,
  capture,
}
use planless.Tofu.Pipeline.Outcome.{refuse, class_of, is_met}

abbrev pub plan_path : String
plan_path = "plan.tfplan"

abbrev pub approval_path : String
approval_path = "approval.json"

-- The texts of the classes that `VerifyApproval` returns.
abbrev pub class_text : Class → String
class_text verified = ""
class_text no_approval = "plan_artifact_not_approved"
class_text changed_after_approval = "plan_artifact_changed_after_approval"
class_text issued_for_another_run = "approval_issued_for_another_run"
class_text unreadable = "approval_unreadable"

abbrev pub is_verified : Class → Bool
is_verified verified = true
is_verified _ = false

abbrev pub is_refused : Transcript → Bool
is_refused t = ltb 0 (length t.audit)

abbrev pub build_noted : Option String → Transcript → Transcript
build_noted none t = t
build_noted (some build) t = record t { application_build = build }

abbrev pub flagged : String → String → Transcript → Transcript
flagged digest by t = record t {
  artifacts = record t.artifacts { evaluated_by_policy = digest; evaluated_by = by };
}

abbrev pub report_of : {A : Type 0} → Result A → Option A
report_of (ok a) = some a
report_of (error _) = none

module _ {W : Type 0} (env : Env W) where
  -- `gateConfig`.
  abbrev pub gate_env : Scenario → Gate.Env
  gate_env s =
      env.gate
        (if s.break_engine
          then String.◌++◌ env.work_dir "/policy-engine-that-is-not-there"
          else env.opa)
        (String.◌++◌ env.allowlist_dir (String.◌++◌ "/" (allowlist_of s)))

  -- `evaluate`.
  unfoldable pub evaluate : Scenario → List ℕ → Decision
  evaluate s artifact = elim (from_plan env.reader artifact env.segments) [
    | none ↦ denial "unparsable_artifact" (env.plan_error artifact)
    | some g ↦ elim (env.graph_bytes g) [
      | none ↦ denial "policy_engine_error" "the policy input cannot be encoded"
      | some body ↦ Gate.evaluate (gate_env s) body
    ]
  ]

  -- `approval.Write`.
  abbrev pub write_approval : Approval → Step W (Unit {0})
  write_approval a = do
    files ← gets (λ r. r.files)
    written ← lift (write env.codec a approval_path files)
    set_files written

  -- One byte is appended to the plan artifact.
  abbrev pub append_byte : Step W (Unit {0})
  append_byte = do
    content ← read_file plan_path
    files ← gets (λ r. r.files)
    set_files (write_file plan_path (content ++ (0 ∷ [])) files)

  -- `rehearseBinding`.
  unfoldable pub rehearse_binding : Scenario → Approval → Step W (Unit {0})
  rehearse_binding s a =
      if s.binding == binding_unapproved
      then done
      else if s.binding == binding_stale
      then write_approval
          (record a { run_id = run_id env.codec "some-other-run" a.plan_artifact_digest })
      else if s.binding == binding_modified
      then (do write_approval a; append_byte)
      else write_approval a

  abbrev pub apply_plan : Step W (Unit {0})
  apply_plan =
      run_tool env "apply" ("-input=false" ∷ "-no-color" ∷ "-lock=false" ∷ "plan.tfplan" ∷ [])

  -- `finish` as far as it applies.
  unfoldable pub enforce : Scenario → Bool → Step W (Unit {0})
  enforce s refused =
      if not refused && not (s.artifact == "")
      then raise
      else if not refused && not s.skip_apply
      then (do
        apply_plan
        note λ t. record t {
          enforcement = record t.enforcement { applied = true; operator_result = result_deployed };
        })
      else if refused && s.out_of_band
      then (do
        apply_plan
        note (λ t. record t {
          enforcement = record t.enforcement { applied = true; out_of_band = true };
        }))
      else if not refused && s.skip_apply
      then note (λ t. record t {
        enforcement = record t.enforcement { operator_result = result_deployed };
      })
      else done

  -- `finish` as far as it reads the platform after the apply.
  unfoldable pub observe : Scenario → Step W (Unit {0})
  observe s = if s.skip_remote then done else (do
    world ← gets (λ r. r.world)
    after ← lift (env.state_digest world)
    note λ t. build_noted (env.application_build world) (record t { state_after = after })
    note λ t.
        if t.enforcement.applied
        then record t { artifacts = record t.artifacts { applied_state = after } }
        else t)

  -- `finish` as far as it changes the platform behind the gate's back and checks for drift.
  unfoldable pub rehearse_drift : Scenario → Step W (Unit {0})
  rehearse_drift s = do
    applied ← gets (λ r. r.transcript.enforcement.applied)
    if s.drift_mutation && applied
        then (do
          call env.add_console_grant
          world ← gets (λ r. r.world)
          after ← lift (env.state_digest world)
          note λ t. record t { state_after = after }
          report ← lift (drift env (allowlist_of s) world)
          note λ t. record t {
            drift = some (
                if s.is_vulnerable then record report { warning = vulnerable_warning } else report);
          })
        else done

  -- The end of a run: the outcome, which is an error where the scenario's is another.
  unfoldable pub conclude : Scenario → Step W (Unit {0})
  conclude s = do
    note λ t. record t { passed = is_met s t }
    passed ← gets (λ r. r.transcript.passed)
    if passed then done else raise

  -- `finish`.
  unfoldable pub finish : Scenario → Step W (Unit {0})
  finish s = do
    refused ← gets (λ r. is_refused r.transcript)
    enforce s refused
    observe s
    rehearse_drift s
    conclude s

  -- `Run` from the state before it to the checks of the source files.
  unfoldable pub prepare : Step W (Unit {0})
  prepare = do
    files ← lift env.work_tree
    set_files files
    digest ← lift (env.digest_tree files)
    note λ t. record t { artifacts = record t.artifacts { source_configuration = digest } }
    findings ← lift (env.check_sources files)
    note λ t. record t { source_layout = findings }
    if ltb 0 (length findings) then raise else done

  -- The plan that `Run` makes, its canonical bytes and its digests.
  unfoldable pub plan : Scenario → Step W (List ℕ)
  plan s = do
    run_tool env "init" ("-input=false" ∷ "-no-color" ∷ [])
    run_tool env "validate" ("-no-color" ∷ [])
    run_tool env "plan" (
        "-input=false"
        ∷ "-no-color"
        ∷ "-lock=false"
        ∷ String.◌++◌ "-var-file=" s.var_file
        ∷ "-out=plan.tfplan"
        ∷ [])
    content ← read_file plan_path
    note λ t. record t {
      artifacts = record t.artifacts { plan_artifact = env.codec.digest content };
    }
    shown ← capture env "show" ("-json" ∷ "plan.tfplan" ∷ [])
    resolved ← lift (canonical_plan env.quote env.read_json shown)
    note λ t. record t {
      artifacts = record t.artifacts { resolved_desired_state = env.codec.digest resolved };
    }
    if ltb 0 (length (env.values_missing resolved)) then raise else done
    origins ← lift (value_origins env.reader env.segments resolved)
    note λ t. record t { provenance = origins }
    lift (some resolved)

  -- The checked-in artifact of a rehearsal.
  unfoldable pub rehearse_artifact : Scenario → Step W (List ℕ)
  rehearse_artifact s = do
    body ← lift (env.artifact s.artifact)
    note λ t. record t {
      artifacts = record t.artifacts { resolved_desired_state = env.codec.digest body };
    }
    lift (some body)

  -- What the policy would have decided, and the end of a run that did not ask it.
  unfoldable pub finish_unasked : Scenario → List ℕ → Step W (Unit {0})
  finish_unasked s evaluated = do
    note λ t. record t { would_have_decided = some (evaluate s evaluated) }
    finish s

  -- The scan of the source files.
  unfoldable pub run_scan : Scenario → List ℕ → Step W (Unit {0})
  run_scan s evaluated = do
    files ← gets (λ r. r.files)
    body ← lift (env.source_bundle files)
    note (flagged (env.codec.digest body) "a policy scan over the source configuration files")
    report ← lift (report_of (scan_with (gate_env s) body "data.planless.source_scan.report"))
    note λ t. record t { scan = some report }
    finish_unasked s evaluated

  -- The denylist, over the resolved plan.
  unfoldable pub run_denylist : Scenario → List ℕ → Step W (Unit {0})
  run_denylist s evaluated = do
    note (
        flagged (env.codec.digest evaluated)
          "a denylist of known-bad literals, over the resolved desired state")
    g ← lift (from_plan env.reader evaluated env.segments)
    body ← lift (env.graph_bytes g)
    report ← lift (report_of (denylist (gate_env s) body))
    note λ t. record t { denylist = some report }
    finish_unasked s evaluated

  -- The approval of a run, from the digests of its transcript.
  abbrev pub approval_of : Scenario → Transcript → Approval
  approval_of s t = record {
    run_id = run_id env.codec s.id t.artifacts.plan_artifact;
    scenario = s.id;
    plan_artifact_digest = t.artifacts.plan_artifact;
    resolved_digest = t.artifacts.resolved_desired_state;
    allowlist = allowlist_of s;
  }

  -- What `Run` does with the class that `VerifyApproval` returned.
  unfoldable pub check_binding : Class → Step W (Unit {0})
  check_binding class =
      if is_verified class
      then done
      else note (refuse stage_binding (class_text class) "gate-to-apply-binding")

  -- The binding of the gate to the apply: the approval is written, and read back and compared.
  unfoldable pub bind : Scenario → Step W (Unit {0})
  bind s = do
    t ← gets (λ r. r.transcript)
    rehearse_binding s (approval_of s t)
    files ← gets (λ r. r.files)
    check_binding (verify_approval env.codec approval_path plan_path s.id files)
    finish s

  -- What `Run` does with the decision of the gate.
  unfoldable pub obey : Scenario → Decision → Step W (Unit {0})
  obey s decision =
      if is_denied decision && s.is_advisory
      then (do
        note λ t. record t { enforcement = record t.enforcement { advisory = true } }
        bind s)
      else if is_denied decision
      then (do note (refuse stage_policy (class_of decision) "deny-by-default"); finish s)
      else bind s

  -- The deployment gate.
  unfoldable pub run_gate : Scenario → List ℕ → Step W (Unit {0})
  run_gate s evaluated = do
    note (
        flagged (env.codec.digest evaluated)
          "the deny-by-default policy, over the resolved desired state")
    note λ t. record t { decision = some (evaluate s evaluated) }
    obey s (evaluate s evaluated)

  -- `Run` on the infrastructure surface, from the empty work directory on.
  unfoldable pub run_infrastructure : Scenario → Step W (Unit {0})
  run_infrastructure s = do
    prepare
    evaluated ← if s.artifact == "" then plan s else rehearse_artifact s
    if s.scan
        then run_scan s evaluated
        else if s.denylist
        then run_denylist s evaluated
        else if not s.is_gated
        then finish_unasked s evaluated
        else run_gate s evaluated
