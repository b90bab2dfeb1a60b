-- ===== src/Examples/Runs.antt =====
-- Instances of the theorems on runs of the harness, at an environment whose platform is a number.
use planless.Prelude.{
  ℕ, String, Bool, true, false, if◌then◌else◌, ◌==◌, ◌≡◌, refl, Option, some, none, List, [], ◌∷◌,
  pos, here, there, length, ◌=?◌,
}
use planless.Json.{object, end}
use planless.Ordered.{sort}
use planless.Canon.{marshal, write as write_json}
use planless.Gate
use planless.Gate.{Decision, done as finished, parse, checked}
use planless.Graph.Origins.{Decode, ConfigIndex}
use planless.Graph.Plan.{plan_module, none_left, Reader, from_plan, walk, visit_all}
use planless.Graph.Sorted.{sort_all}
use planless.Tofu.Approval.{
  Codec, Files, write_file, run_id, write, read_approval, compare_approval, verify_approval,
}
use planless.Tofu.Transcript.{result_refused}
use planless.Tofu.Canonical.{canonical_plan}
use planless.Tofu.Origins.{value_origins}
use planless.Tofu.Scenarios.{Scenario, is_available, expect_applied, unset}
use planless.Tofu.Pipeline.{
  Run, Exec, Env, summarize, executed, run_tool, capture, ◌>>=◌, done, raise, lift, gets, read_file,
  note, set_files, call,
}
use planless.Tofu.Pipeline.Outcome.{refuse, is_met, has_stage}
use planless.Tofu.Pipeline.Harness.{
  evaluate, rehearse_binding, enforce, observe, rehearse_drift, conclude, finish, prepare, plan,
  check_binding, bind, obey, run_gate, run_infrastructure,
}
use planless.Tofu.Pipeline.Manifest.{observe_before, run_available, start, run}
use planless.Tofu.Pipeline.Refusals.{IsReadOnly, run-IsUntouched}
use planless.Tofu.Pipeline.Applies.{IsApproved, run-IsAccounted}
use planless.Tofu.Pipeline.Secure.{run-IsApproved}

abbrev index : ConfigIndex
index = record { root = record { resources = []; variables = [] }; modules = []; resolved = [] }

abbrev decode : Decode
decode = record {
  expression = λ _. none;
  blocks = λ _. none;
  text_of = λ _. none;
  marshal = λ _. none;
}

abbrev reader : Reader
reader = record {
  plan = λ _.
      some (record {
        format_version = "1.2";
        root_module = plan_module "" [] none_left;
        index = index;
      });
  decode = decode;
  int_of = λ _. pos 0;
}

abbrev codec : Codec
codec = record {
  digest = λ _. "d";
  bytes = λ _. [];
  encode = λ _. some (7 ∷ []);
  decode = λ _. some (record {
    run_id = "d";
    scenario = "s";
    plan_artifact_digest = "d";
    resolved_digest = "d";
    allowlist = "a";
  });
}

-- The policy engine answers with this decision.
abbrev engine : String → Gate.Env
engine result = record {
  is_valid = λ _. true;
  has_allowlist = true;
  engine = λ _ _. finished [];
  message = λ _. "failed";
  read_output = λ _. some (([] ∷ []) ∷ []);
  read_decision =
      λ _. some (record { result = result; class = "public"; violations = none; exposures = none });
  read_scan = λ _. none;
  read_denylist = λ _. none;
}

abbrev is_name : String → List String → Bool
is_name name [] = false
is_name name (a ∷ _) = a == name

-- The plan writes a file, and the apply sets the platform to 1.
abbrev toolchain : List String → Files → ℕ → Exec ℕ
toolchain args files world = record {
  output = [];
  failure = none;
  files = if is_name "plan" args then write_file "plan.tfplan" (1 ∷ []) files else files;
  world = if is_name "apply" args then 1 else world;
}

abbrev env : String → Env ℕ
env result = record {
  tofu = "tofu";
  work_dir = "/work";
  opa = "opa";
  allowlist_dir = "/allow";
  segments = [];
  text = λ _. "";
  exec = toolchain;
  new_run = some tt;
  work_tree = some (λ _. none);
  digest_tree = λ _. some "t";
  check_sources = λ _. some [];
  source_bundle = λ _. none;
  quote = λ _. [];
  read_json = λ _. some (object end);
  values_missing = λ _. [];
  artifact = λ _. some [];
  codec = codec;
  reader = reader;
  plan_error = λ _. "unreadable";
  graph_bytes = λ _. some [];
  gate = λ _ _. engine result;
  state_digest = λ w. some (if w =? 0 then "before" else "after");
  application_build = λ _. none;
  add_console_grant = λ w. (w, true);
  read_state = λ _. none;
  render_manifests = λ _. none;
  from_manifests = λ _ _. none;
  manifest_bundle = none;
  apply_graph = λ _ w. (w, true);
}

abbrev secure_apply : Scenario
secure_apply = record unset {
  id = "secure-apply";
  description = "the gate admits the secure plan and the apply consumes exactly what it approved";
  var_file = "secure.tfvars";
  is_gated = true;
  expect = expect_applied;
}

abbrev applied : Run ℕ × Option (Unit {0})
applied = run_available (env "admit") secure_apply (start (env "admit") secure_apply 0)

applied-ran : run (env "admit") "secure" "" secure_apply 0 ≡ some (applied.0, applied.1)
unfolding run is_available
applied-ran = refl

applied-stage : has_stage "apply" applied.0.transcript ≡ true
unfolding run_available observe_before run_infrastructure prepare plan run_gate obey bind
    check_binding finish enforce observe rehearse_drift conclude rehearse_binding evaluate is_met
    run_tool capture executed summarize ◌>>=◌ done raise lift gets read_file note set_files call
    canonical_plan marshal write_json sort value_origins from_plan walk visit_all sort_all
    Gate.evaluate parse checked run_id write read_approval compare_approval verify_approval
applied-stage = refl

run-IsAccounted_example :
    (before : Run ℕ) × IsApproved (env "admit") secure_apply before
    × (applied.0 ≡ (finish (env "admit") secure_apply before).0)
run-IsAccounted_example =
    run-IsAccounted (env "admit") "secure" "" secure_apply 0 applied.0 applied.1 refl refl refl refl
      refl refl applied-ran applied-stage

run-IsApproved_example :
    (before : Run ℕ) × IsApproved (env "admit") secure_apply before
    × (applied.0 ≡ (finish (env "admit") secure_apply before).0)
run-IsApproved_example =
    run-IsApproved (env "admit") "secure" "" secure_apply 0 applied.0 applied.1 (there (here refl))
      refl refl applied-ran applied-stage

abbrev denied : Run ℕ × Option (Unit {0})
denied = run_available (env "deny") secure_apply (start (env "deny") secure_apply 0)

denied-ran : run (env "deny") "secure" "" secure_apply 0 ≡ some (denied.0, denied.1)
unfolding run is_available
denied-ran = refl

denied-audit : length denied.0.transcript.audit ≡ 1
unfolding run_available observe_before run_infrastructure prepare plan run_gate obey bind
    check_binding finish enforce observe rehearse_drift conclude rehearse_binding evaluate is_met
    run_tool capture executed summarize refuse ◌>>=◌ done raise lift gets read_file note set_files
    call canonical_plan marshal write_json sort value_origins from_plan walk visit_all sort_all
    Gate.evaluate parse checked run_id write read_approval compare_approval verify_approval
denied-audit = refl

toolchain-IsReadOnly : IsReadOnly (env "deny")
toolchain-IsReadOnly name args files world ne = rw ne refl

run-IsUntouched_example :
    (length denied.0.transcript.audit ≡ 1)
    × (has_stage "apply" denied.0.transcript ≡ false)
    × (denied.0.transcript.enforcement.applied ≡ false)
    × (denied.0.transcript.enforcement.operator_result ≡ result_refused)
    × (denied.0.world ≡ 0)
run-IsUntouched_example =
    run-IsUntouched (env "deny") toolchain-IsReadOnly "secure" "" secure_apply 0 denied.0 denied.1
      refl denied-ran (λ e. cc (e, denied-audit))
