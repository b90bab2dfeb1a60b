-- ===== src/Examples/Pipelines.antt =====
-- Instances of the theorems on the gate, the approval and the reconciliation.
use planless.Prelude.{
  ◌≤◌, ◌≡◌, ◌↔◌, refl, String, Bool, true, false, Option, some, none, List, [], ◌∷◌, ℕ, ℤ, pos,
  if◌then◌else◌, ◌==◌, All, Has, length, text_eq→eq, Bool-cases, inl, inr, arith, ◌&&◌,
}
use planless.Prelude.Text.{codes, text_ltb}
use planless.Gate.{Env, done, ScanReport, evaluate}
use planless.Gate.Decisions.{Admitted, evaluate_admits_iff}
use planless.Tofu.Approval.{
  Approval, Codec, Files, write_file, verified, verify_approval, run_id, write,
}
use planless.Tofu.Approval.Binding.{Bound, verify_approval_iff, verify_approval-write}
use planless.Tofu.Reconcile.{
  Observation, ObservationSet, Entry, Reconciliation, reconcile, is_public,
}
use planless.Tofu.Reconcile.Unreviewed.{Reviews, reconcile_passes_iff}
use planless.Tofu.Compare.{observations_of, compare_observations}
use planless.Tofu.Compare.Agreement.{HasKey, compare_observations_iff}

abbrev scanned : ScanReport
scanned = record {
  scanned_files = "main.tf" ∷ [];
  findings = none;
  finding_count = pos 0;
  artifact = "";
  correct_about = "";
  did_not_read = "";
}

abbrev engine_env : Env
engine_env = record {
  is_valid = λ _. true;
  has_allowlist = true;
  engine = λ _ _. done (123 ∷ []);
  message = λ _. "failed";
  read_output = λ _. some (((110 ∷ []) ∷ []) ∷ []);
  read_decision =
      λ _. some (record { result = "admit"; class = ""; violations = none; exposures = none });
  read_scan = λ _. some scanned;
  read_denylist = λ _. none;
}

evaluate_admits_iff_example :
    ((evaluate engine_env (123 ∷ [])).result ≡ "admit") ↔ Admitted engine_env (123 ∷ [])
evaluate_admits_iff_example = evaluate_admits_iff engine_env (123 ∷ [])

abbrev approval : Approval
approval = record {
  run_id = "d";
  scenario = "s";
  plan_artifact_digest = "d";
  resolved_digest = "r";
  allowlist = "default.json";
}

abbrev is_approval : Approval → Bool
is_approval a =
    a.run_id == "d"
    && a.scenario == "s"
    && a.plan_artifact_digest == "d"
    && a.resolved_digest == "r"
    && a.allowlist == "default.json"

-- A codec that has one text, for one approval.
abbrev codec : Codec
codec = record {
  digest = λ _. "d";
  bytes = codes;
  encode = λ a. if is_approval a then some [] else none;
  decode = λ _. some approval;
}

codec_lem :
    (b : Approval) (content : List ℕ)
    → codec.encode b ≡ some content
    → codec.decode content ≡ some b
codec_lem b content h = elim (Bool-cases (is_approval b)) [
  | inr n ↦ absurd (cc (rw n at h))
  | inl e ↦
      let run : b.run_id ≡ "d" = text_eq→eq (ground (arith, e)) in
      let scenario : b.scenario ≡ "s" = text_eq→eq (ground (arith, e)) in
      let digest : b.plan_artifact_digest ≡ "d" = text_eq→eq (ground (arith, e)) in
      let resolved : b.resolved_digest ≡ "r" = text_eq→eq (ground (arith, e)) in
      let allowlist : b.allowlist ≡ "default.json" = text_eq→eq (ground (arith, e)) in
      cc (run, scenario, digest, resolved, allowlist)
]

abbrev files : Files
files p = if p == "plan" then some (112 ∷ []) else none

verify_approval_iff_example :
    (verify_approval codec "approval" "plan" "s" files ≡ verified)
    ↔ Bound codec "approval" "plan" "s" files
verify_approval_iff_example = verify_approval_iff codec "approval" "plan" "s" files

verify_approval-write_example :
    verify_approval codec "approval" "plan" "s" (write_file "approval" [] files) ≡ verified
unfolding run_id write
verify_approval-write_example =
    verify_approval-write codec "approval" "plan" "s" files (112 ∷ []) approval
      (write_file "approval" [] files) codec_lem refl (λ content p. cc p) refl refl refl refl

abbrev observation : String → Bool → Observation
observation resource reachable = record {
  segment = "internet";
  resource = resource;
  reachable = reachable;
  status = ℤ.pos 200;
  digest = "x";
}

abbrev entry : Entry
entry = record {
  rule = "r1";
  kind = "workload";
  name = "web";
  principals = [];
  sources = "0.0.0.0/0" ∷ [];
}

abbrev verdict : Reconciliation
verdict = record {
  verdict = "FAIL";
  expected = "PASS";
  publicly_reachable = "bucket/reports" ∷ "workload/web" ∷ [];
  allowed_public = "workload/web" ∷ [];
  unreviewed = "bucket/reports" ∷ [];
}

abbrev observed : List Observation
observed =
    observation "workload/web" true
    ∷ observation "bucket/reports" true
    ∷ observation "bucket/logs" false
    ∷ []

reconcile_passes_iff_example :
    (verdict.verdict ≡ "PASS")
    ↔ All (λ o. is_public o ≡ true → Has (Reviews o.resource) (entry ∷ [])) observed
unfolding reconcile text_ltb
reconcile_passes_iff_example = reconcile_passes_iff observed (entry ∷ []) "PASS" verdict refl

abbrev sets : List (Option ObservationSet)
sets =
    some
      (record { document = "planless.observations"; segment = "internet"; observations = observed })
    ∷ none
    ∷ []

compare_observations_iff_example :
    (compare_observations sets ≡ true)
    ↔ ((2 ≤ length sets) × ((sorted : List Observation) × All (HasKey observations_of sorted) sets))
compare_observations_iff_example = compare_observations_iff sets
