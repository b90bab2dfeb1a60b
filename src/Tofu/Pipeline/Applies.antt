-- ===== src/Tofu/Pipeline/Applies.antt =====
-- What a gated run of internal/tofu/harness.go applies was admitted by the gate and verified against its
-- approval.
use planless.Prelude.{
  ◌≡◌, refl, String, true, false, not, ◌&&◌, ◌⊎◌, inl, inr, Option, none, some, List, ◌==◌, ℕ,
  subst, sym, ◌∙◌, Bool-cases, arith, eq→text_eq,
}
use planless.Gate.{is_denied}
use planless.Tofu.Approval.{
  Approval, Files, Class, verified, no_approval, changed_after_approval, issued_for_another_run,
  unreadable, verify_approval,
}
use planless.Tofu.Transcript.{Artifacts}
use planless.Tofu.Scenarios.{Scenario}
use planless.Tofu.Pipeline.{Run, Env, Step}
use planless.Tofu.Pipeline.Outcome.{has_stage}
use planless.Tofu.Pipeline.Harness.{
  evaluate, plan_path, approval_path, is_verified, check_binding, finish, bind, obey, run_gate,
  rehearse_binding, run_infrastructure,
}
use planless.Tofu.Pipeline.Manifest.{run_available, run}
use planless.Tofu.Pipeline.Keeps.{
  Holds, Keeps, Ends, Holds-bind, Holds-weaken, Holds-gets, Holds-if, Holds-pre, Holds-absurd,
  Holds-either, Holds-done, Keeps-gets, Holds-note, keeps_rules,
}
use planless.Tofu.Pipeline.Frames.{On, run-Ends, prepare-Keeps, observe_before-Keeps}
use planless.Tofu.Pipeline.Planned.{Any, Planned, plan-Planned}
use planless.Tofu.Pipeline.Unapplied.{Unapplied, run_available-Unapplied}
use planless.Tofu.Pipeline.Endings.{Quiet, Quiet-refuse, finish-Quiet}

-- The gate admitted the plan that the toolchain showed, nothing was applied yet, and the approval is of
-- the plan artifact in the work directory.
pub record IsApproved {W : Type 0} (env : Env W) (s : Scenario) (r : Run W) : Type 0 where
  pub plan : List ℕ
  pub planned : Planned env r.transcript.artifacts plan
  pub decided : r.transcript.decision ≡ some (evaluate env s plan)
  pub admits : is_denied (evaluate env s plan) ≡ false
  pub binding : verify_approval env.codec approval_path plan_path s.id r.files ≡ verified
  pub unapplied : has_stage "apply" r.transcript ≡ false

-- If anything was applied, it was by the end of a run that was approved before it.
abbrev pub IsAccounted : {W : Type 0} → Env W → Scenario → Run W → Type 0
IsAccounted {W} env s r =
    has_stage "apply" r.transcript ≡ true
    → (before : Run W) × IsApproved env s before × (r ≡ (finish env s before).0)

module _ {W : Type 0} (env : Env W) (s : Scenario) where
  -- The gate decided on the plan.
  abbrev Decided : List ℕ → Run W → Type 0
  Decided plan r =
      On (Quiet Any 0) r
      × Planned env r.transcript.artifacts plan
      × (r.transcript.decision ≡ some (evaluate env s plan))

  rehearse_binding-Decided :
      (plan : List ℕ) (a : Approval) → Keeps (Decided plan) (rehearse_binding env s a)
  unfolding rehearse_binding
  rehearse_binding-Decided plan a = search keeps_rules depth 20

  unapplied : {n : ℕ} (r : Run W) → On (Quiet Any n) r → IsAccounted env s r
  unapplied r h applied = cc (applied, h.0)

  quietly :
      {A : Type 0} {n : ℕ} {m : Step W A}
      → Keeps (On (Quiet Any n)) m
      → Holds (On (Quiet Any n)) m (λ _. On (Quiet Any n)) (IsAccounted env s)
  quietly hm = Holds-weaken hm (λ _ r h. h) unapplied

  from_end : (P : Run W → Type 0) (e : Run W × Option (Unit {0})) → P e.0 → Ends (λ _. P) P e
  from_end P (r, none) h = h
  from_end P (r, some _) h = h

  finish-IsAccounted :
      Holds (IsApproved env s) (finish env s) (λ _. IsAccounted env s) (IsAccounted env s)
  finish-IsAccounted = record {
    at = λ r h. from_end (IsAccounted env s) (finish env s r) (λ applied. (r, h, refl));
  }

  module _ (one_path : s.out_of_band ≡ false) where
    refused_finish :
        Holds (On (Quiet Any 1)) (finish env s) (λ _. IsAccounted env s) (IsAccounted env s)
    refused_finish = Holds-weaken (finish-Quiet env Any s one_path) (λ _. unapplied) unapplied

    -- The check of the binding, where the files are still those that were read.
    check_binding-IsApproved :
        (plan : List ℕ)
        → is_denied (evaluate env s plan) ≡ false
        → (files : Files)
        → Holds
            (λ r. (r.files ≡ files) × Decided plan r)
            (check_binding env (verify_approval env.codec approval_path plan_path s.id files))
            (λ _ r. IsApproved env s r ⊎ On (Quiet Any 1) r)
            (IsAccounted env s)
    unfolding check_binding
    check_binding-IsApproved plan admitted files =
        Holds-if (is_verified (verify_approval env.codec approval_path plan_path s.id files))
          (λ e. Holds-done λ r h. inl (record {
            plan = plan;
            planned = h.1.1;
            decided = h.1.2;
            admits = admitted;
            binding =
                subst (λ f. verify_approval env.codec approval_path plan_path s.id f ≡ verified)
                  (sym h.0) (of_test _ e);
            unapplied = h.1.0.0;
          }))
          (λ _.
            Holds-pre (λ r h. h.1.0)
              (Holds-weaken (Quiet-refuse Any {E = IsAccounted env s} _ _ _) (λ _ r h. inr h)
                (λ r h. h)))
      where
        of_test : (class : Class) → is_verified class ≡ true → class ≡ verified
        of_test verified e = refl
        of_test no_approval e = cc e
        of_test changed_after_approval e = cc e
        of_test issued_for_another_run e = cc e
        of_test unreadable e = cc e

    bind-Accounted :
        (plan : List ℕ)
        → is_denied (evaluate env s plan) ≡ false
        → Holds (Decided plan) (bind env s) (λ _. IsAccounted env s) (IsAccounted env s)
    unfolding bind
    bind-Accounted plan admitted =
        Holds-bind _ (Holds-weaken (Keeps-gets _) (λ _ r h. h) (λ r h. unapplied r h.0)) λ t.
          Holds-bind _
            (Holds-weaken (rehearse_binding-Decided plan _) (λ _ r h. h) (λ r h. unapplied r h.0))
            λ _. Holds-gets _ λ files.
              Holds-bind _ (check_binding-IsApproved plan admitted files)
                λ _. Holds-either finish-IsAccounted refused_finish

    obey-Accounted :
        (plan : List ℕ)
        → s.is_advisory ≡ false
        → Holds
            (Decided plan)
            (obey env s (evaluate env s plan))
            (λ _. IsAccounted env s)
            (IsAccounted env s)
    unfolding obey
    obey-Accounted plan obeyed =
        Holds-if (is_denied (evaluate env s plan) && s.is_advisory)
          (λ e. Holds-absurd λ r h. ground (arith, e, obeyed))
          (λ _.
            Holds-if (is_denied (evaluate env s plan))
              (λ _.
                Holds-pre (λ r h. h.0) (Holds-bind _ (Quiet-refuse Any _ _ _) λ _. refused_finish))
              (λ admitted. bind-Accounted plan admitted))

    -- The same plan with the same digests on the record.
    Planned-same :
        (plan : List ℕ) (a b : Artifacts)
        → a.plan_artifact ≡ b.plan_artifact
        → a.resolved_desired_state ≡ b.resolved_desired_state
        → Planned env b plan
        → Planned env a plan
    Planned-same plan a b p q h = record {
      output = h.output;
      shown = record {
        content = h.shown.content;
        files = h.shown.files;
        world = h.shown.world;
        present = h.shown.present;
        succeeded = h.shown.succeeded;
        printed = h.shown.printed;
        artifact = p ∙ h.shown.artifact;
      };
      canonical = h.canonical;
      recorded = q ∙ h.recorded;
    }

    run_gate-Accounted :
        (plan : List ℕ)
        → s.is_advisory ≡ false
        → Holds
            (λ r. On (Quiet Any 0) r × Planned env r.transcript.artifacts plan)
            (run_gate env s plan)
            (λ _. IsAccounted env s)
            (IsAccounted env s)
    unfolding run_gate
    run_gate-Accounted plan obeyed =
        Holds-bind _
          (Holds-note {Q = λ r. On (Quiet Any 0) r × Planned env r.transcript.artifacts plan} _
            λ r h. (h.0, Planned-same plan _ r.transcript.artifacts refl refl h.1))
          λ _.
            Holds-bind _ (Holds-note {Q = Decided plan} _ λ r h. (h.0, h.1, refl))
              λ _. obey-Accounted plan obeyed

    run_infrastructure-Accounted :
        (s.artifact == "") ≡ true
        → s.is_gated ≡ true
        → s.is_advisory ≡ false
        → s.scan ≡ false
        → s.denylist ≡ false
        → Holds
            (On (Quiet Any 0))
            (run_infrastructure env s)
            (λ _. IsAccounted env s)
            (IsAccounted env s)
    unfolding run_infrastructure
    run_infrastructure-Accounted planned gated obeyed unscanned unlisted =
        Holds-bind _ (quietly (prepare-Keeps env (Quiet Any 0))) λ _.
          Holds-bind _
            (Holds-if (s.artifact == "") (λ _. plan-Planned env unapplied s)
              (λ e. Holds-absurd λ r h. cc (e, planned)))
            λ evaluated.
              Holds-if s.scan (λ e. Holds-absurd λ r h. cc (e, unscanned))
                λ _.
                  Holds-if s.denylist (λ e. Holds-absurd λ r h. cc (e, unlisted))
                    λ _.
                      Holds-if (not s.is_gated) (λ e. Holds-absurd λ r h. ground (arith, e, gated))
                        λ _. run_gate-Accounted evaluated obeyed

    run_available-Accounted :
        s.manifest ≡ ""
        → (s.artifact == "") ≡ true
        → s.is_gated ≡ true
        → s.is_advisory ≡ false
        → s.scan ≡ false
        → s.denylist ≡ false
        → Holds
            (On (Quiet Any 0))
            (run_available env s)
            (λ _. IsAccounted env s)
            (IsAccounted env s)
    unfolding run_available
    run_available-Accounted infrastructure planned gated obeyed unscanned unlisted =
        Holds-bind _ (quietly (observe_before-Keeps env (Quiet Any 0) s)) λ _.
          Holds-if (not (s.manifest == ""))
            (λ e. Holds-absurd λ r h. ground (arith, e, eq→text_eq infrastructure))
            λ _. run_infrastructure-Accounted planned gated obeyed unscanned unlisted

-- If a run of an infrastructure scenario that is gated, obeyed and has no scan, denylist or second
-- path has applied anything, then it had the end of a run that had applied nothing before, whose
-- approval verified on the files in the work directory, and on whose record is the gate's decision
-- on the plan, which admits it; the plan is the canonical form of what the toolchain showed of the
-- plan artifact, and the record has the digests of both.
pub run-IsAccounted :
    {W : Type 0} (env : Env W) (surface acknowledgement : String) (s : Scenario) (world : W)
    (r : Run W) (answer : Option (Unit {0}))
    → s.manifest ≡ ""
    → s.is_gated ≡ true
    → s.is_advisory ≡ false
    → s.scan ≡ false
    → s.denylist ≡ false
    → s.out_of_band ≡ false
    → run env surface acknowledgement s world ≡ some (r, answer)
    → has_stage "apply" r.transcript ≡ true
    → (before : Run W) × IsApproved env s before × (r ≡ (finish env s before).0)
run-IsAccounted {W} env surface acknowledgement s world r answer infrastructure gated obeyed
      unscanned unlisted one_path ran applied =
    elim (Bool-cases (s.artifact == "")) [
      | inl planned ↦
          by_answer (IsAccounted env s) answer
            (run-Ends env surface acknowledgement s world (r, answer) (On (Quiet Any 0)) _ _ ran
              (run_available-Accounted env s one_path infrastructure planned gated obeyed unscanned
                unlisted)
              (refl, refl, refl, refl, tt))
            applied
      | inr rehearsed ↦
          let nothing = by_answer (On Unapplied) answer (
            run-Ends env surface acknowledgement s world (r, answer) (On Unapplied) _ _ ran
              (run_available-Unapplied env s one_path (inr rehearsed) infrastructure unscanned
                unlisted)
              refl) in
          absurd (cc (applied, nothing))
    ]
  where
    by_answer : (P : Run W → Type 0) (o : Option (Unit {0})) → Ends (λ _. P) P (r, o) → P r
    by_answer P none h = h
    by_answer P (some _) h = h
