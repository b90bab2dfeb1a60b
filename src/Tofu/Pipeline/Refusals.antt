-- ===== src/Tofu/Pipeline/Refusals.antt =====
-- A run of internal/tofu/harness.go or internal/tofu/manifest_run.go that refuses applies nothing.
use planless.Prelude.{
  ℕ, ◌≡◌, ◌≢◌, refl, ◌∙◌, String, false, not, ◌&&◌, inl, inr, Option, none, some, List, ◌∷◌, ◌==◌,
  length,
}
use planless.Gate.{Decision, is_denied}
use planless.Tofu.Approval.{Files}
use planless.Tofu.Transcript.{result_refused}
use planless.Tofu.Scenarios.{Scenario}
use planless.Tofu.Pipeline.{Run, Env}
use planless.Tofu.Pipeline.Outcome.{has_stage}
use planless.Tofu.Pipeline.Harness.{
  finish, bind, obey, run_gate, finish_unasked, run_scan, run_denylist, run_infrastructure,
}
use planless.Tofu.Pipeline.Manifest.{run_available, run}
use planless.Tofu.Pipeline.Keeps.{
  Holds, Ends, Holds-bind, Holds-if, Holds-pre, Keeps-lift, Keeps-gets, Keeps-note, Keeps-if,
}
use planless.Tofu.Pipeline.Frames.{
  On, plan-Keeps, run-Ends, prepare-Keeps, rehearse_artifact-Keeps, rehearse_binding-Keeps,
  observe_before-Keeps,
}
use planless.Tofu.Pipeline.Endings.{Quiet-tool, Quiet, Outcome, Open, finish-Outcome}
use planless.Tofu.Pipeline.ManifestRefusals.{
  IsBefore, quietly, refuse-Quiet, check_binding-Open, run_manifest-Outcome,
}

-- The toolchain's processes other than the apply leave the platform as it is.
abbrev pub IsReadOnly : {W : Type 0} → Env W → Type 0
IsReadOnly {W} env =
    (name : String) (args : List String) (files : Files) (world : W)
    → (name == "apply") ≡ false
    → (env.exec (name ∷ args) files world).world ≡ world

module _ {W : Type 0} (env : Env W) (read_only : IsReadOnly env) (before : W) (s : Scenario)
    (one_path : s.out_of_band ≡ false) where
  finished :
      Holds
        (Open (IsBefore before))
        (finish env s)
        (λ _. Outcome (IsBefore before))
        (Outcome (IsBefore before))
  finished = finish-Outcome env (IsBefore before) s one_path

  quiet_finished :
      Holds
        (On (Quiet (IsBefore before) 0))
        (finish env s)
        (λ _. Outcome (IsBefore before))
        (Outcome (IsBefore before))
  quiet_finished = Holds-pre (λ r h. inl h) finished

  bind-Outcome :
      Holds
        (On (Quiet (IsBefore before) 0))
        (bind env s)
        (λ _. Outcome (IsBefore before))
        (Outcome (IsBefore before))
  unfolding bind
  bind-Outcome = Holds-bind _ (quietly env before (Keeps-gets _)) λ t.
      Holds-bind _ (quietly env before (rehearse_binding-Keeps env (Quiet (IsBefore before) 0) s _))
        λ _.
          Holds-bind _ (quietly env before (Keeps-gets _))
            λ files. Holds-bind _ (check_binding-Open env before _) λ _. finished

  obey-Outcome :
      (decision : Decision)
      → Holds
          (On (Quiet (IsBefore before) 0))
          (obey env s decision)
          (λ _. Outcome (IsBefore before))
          (Outcome (IsBefore before))
  unfolding obey
  obey-Outcome decision =
      Holds-if (is_denied decision && s.is_advisory)
        (λ _. Holds-bind _ (quietly env before (Keeps-note _ λ r h. h)) λ _. bind-Outcome)
        (λ _.
          Holds-if (is_denied decision)
            (λ _.
              Holds-bind _ (refuse-Quiet env before _ _ _) λ _. Holds-pre (λ r h. inr h) finished)
            (λ _. bind-Outcome))

  run_gate-Outcome :
      (evaluated : List ℕ)
      → Holds
          (On (Quiet (IsBefore before) 0))
          (run_gate env s evaluated)
          (λ _. Outcome (IsBefore before))
          (Outcome (IsBefore before))
  unfolding run_gate
  run_gate-Outcome evaluated =
      Holds-bind _ (quietly env before (Keeps-note _ λ r h. h))
        λ _. Holds-bind _ (quietly env before (Keeps-note _ λ r h. h)) λ _. obey-Outcome _

  finish_unasked-Outcome :
      (evaluated : List ℕ)
      → Holds
          (On (Quiet (IsBefore before) 0))
          (finish_unasked env s evaluated)
          (λ _. Outcome (IsBefore before))
          (Outcome (IsBefore before))
  unfolding finish_unasked
  finish_unasked-Outcome evaluated =
      Holds-bind _ (quietly env before (Keeps-note _ λ r h. h)) λ _. quiet_finished

  run_scan-Outcome :
      (evaluated : List ℕ)
      → Holds
          (On (Quiet (IsBefore before) 0))
          (run_scan env s evaluated)
          (λ _. Outcome (IsBefore before))
          (Outcome (IsBefore before))
  unfolding run_scan
  run_scan-Outcome evaluated = Holds-bind _ (quietly env before (Keeps-gets _)) λ files.
      Holds-bind _ (quietly env before (Keeps-lift _)) λ body.
        Holds-bind _ (quietly env before (Keeps-note _ λ r h. h)) λ _.
          Holds-bind _ (quietly env before (Keeps-lift _)) λ report.
            Holds-bind _ (quietly env before (Keeps-note _ λ r h. h))
              λ _. finish_unasked-Outcome evaluated

  run_denylist-Outcome :
      (evaluated : List ℕ)
      → Holds
          (On (Quiet (IsBefore before) 0))
          (run_denylist env s evaluated)
          (λ _. Outcome (IsBefore before))
          (Outcome (IsBefore before))
  unfolding run_denylist
  run_denylist-Outcome evaluated = Holds-bind _ (quietly env before (Keeps-note _ λ r h. h)) λ _.
      Holds-bind _ (quietly env before (Keeps-lift _)) λ g.
        Holds-bind _ (quietly env before (Keeps-lift _)) λ body.
          Holds-bind _ (quietly env before (Keeps-lift _)) λ report.
            Holds-bind _ (quietly env before (Keeps-note _ λ r h. h))
              λ _. finish_unasked-Outcome evaluated

  run_infrastructure-Outcome :
      Holds
        (On (Quiet (IsBefore before) 0))
        (run_infrastructure env s)
        (λ _. Outcome (IsBefore before))
        (Outcome (IsBefore before))
  unfolding run_infrastructure
  run_infrastructure-Outcome =
      Holds-bind _ (quietly env before (prepare-Keeps env (Quiet (IsBefore before) 0))) λ _.
        Holds-bind _
          (quietly env before (
            Keeps-if (s.artifact == "")
              (λ _.
                plan-Keeps env (Quiet (IsBefore before) 0)
                  (Quiet-tool env (IsBefore before)
                    (λ name args files w ne h. read_only name args files w ne ∙ h))
                  s)
              (λ _. rehearse_artifact-Keeps env (Quiet (IsBefore before) 0) s)))
          λ evaluated.
            Holds-if s.scan (λ _. run_scan-Outcome evaluated)
              (λ _.
                Holds-if s.denylist (λ _. run_denylist-Outcome evaluated)
                  (λ _.
                    Holds-if (not s.is_gated) (λ _. finish_unasked-Outcome evaluated)
                      (λ _. run_gate-Outcome evaluated)))

  run_available-Outcome :
      Holds
        (On (Quiet (IsBefore before) 0))
        (run_available env s)
        (λ _. Outcome (IsBefore before))
        (Outcome (IsBefore before))
  unfolding run_available
  run_available-Outcome =
      Holds-bind _ (quietly env before (observe_before-Keeps env (Quiet (IsBefore before) 0) s))
        λ _.
          Holds-if (not (s.manifest == "")) (λ _. run_manifest-Outcome env before s)
            (λ _. run_infrastructure-Outcome)

-- Where the toolchain's commands other than the apply leave the platform as it is, a run on either
-- surface without a second path that has a refusal on its record has exactly one, has applied
-- nothing, tells the operator that it refused, and leaves the platform as it found it.
pub run-IsUntouched :
    {W : Type 0} (env : Env W)
    → IsReadOnly env
    → (surface acknowledgement : String) (s : Scenario) (world : W) (r : Run W)
      (answer : Option (Unit {0}))
    → s.out_of_band ≡ false
    → run env surface acknowledgement s world ≡ some (r, answer)
    → length r.transcript.audit ≢ 0
    → (length r.transcript.audit ≡ 1)
      × (has_stage "apply" r.transcript ≡ false)
      × (r.transcript.enforcement.applied ≡ false)
      × (r.transcript.enforcement.operator_result ≡ result_refused)
      × (r.world ≡ world)
run-IsUntouched env read_only surface acknowledgement s world r answer one_path ran refused =
    untouched (
      by_answer answer (
        run-Ends env surface acknowledgement s world (r, answer) (On (Quiet (IsBefore world) 0)) _ _
          ran (run_available-Outcome env read_only world s one_path)
          (refl, refl, refl, refl, refl)))
  where
    untouched :
        Outcome (IsBefore world) r
        → (length r.transcript.audit ≡ 1)
          × (has_stage "apply" r.transcript ≡ false)
          × (r.transcript.enforcement.applied ≡ false)
          × (r.transcript.enforcement.operator_result ≡ result_refused)
          × (r.world ≡ world)
    untouched (inl none_refused) = absurd (refused none_refused)
    untouched (inr h) = (h.3, h.0, h.1, h.2, h.4)

    by_answer :
        (o : Option (Unit {0}))
        → Ends (λ _. Outcome (IsBefore world)) (Outcome (IsBefore world)) (r, o)
        → Outcome (IsBefore world) r
    by_answer none h = h
    by_answer (some _) h = h
