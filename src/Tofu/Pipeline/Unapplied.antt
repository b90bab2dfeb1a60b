-- ===== src/Tofu/Pipeline/Unapplied.antt =====
-- Scenarios of internal/tofu/harness.go that apply nothing: those that skip the apply, and the rehearsals
-- of a checked-in artifact, of which there is no plan to apply.
use planless.Prelude.{
  ◌≡◌, String, Bool, true, false, not, ◌&&◌, ◌⊎◌, inl, inr, List, ℕ, [], ◌∷◌, ◌==◌, any, any-append,
  arith, eq→text_eq, subst, sym,
}
use planless.Gate.{Decision, is_denied}
use planless.Tofu.Approval.{Class}
use planless.Tofu.Transcript.{Stage}
use planless.Tofu.Scenarios.{Scenario}
use planless.Tofu.Pipeline.{Env}
use planless.Tofu.Pipeline.Outcome.{refuse}
use planless.Tofu.Pipeline.Harness.{
  enforce, rehearse_drift, finish, finish_unasked, run_infrastructure, is_verified, check_binding,
  bind, obey, run_gate,
}
use planless.Tofu.Pipeline.Manifest.{run_available}
use planless.Tofu.Pipeline.Keeps.{
  Keeps, Keeps-bind, Keeps-gets, Keeps-note, Keeps-if, Keeps-done, Keeps-raise, Holds-if,
  Holds-absurd, keeps_rules,
}
use planless.Tofu.Pipeline.Frames.{
  Claim, On, IsToolProof, call-Keeps, observe-Keeps, conclude-Keeps, prepare-Keeps, plan-Keeps,
  rehearse_artifact-Keeps, rehearse_binding-Keeps, observe_before-Keeps,
}

abbrev pub Unapplied : {W : Type 0} → Claim W
Unapplied stages enforcement audit decision world =
    any (λ (stage : Stage). stage.name == "apply") stages ≡ false

-- There is no apply at the end: it is skipped, or the run is about a checked-in artifact.
abbrev pub IsInert : Scenario → Type 0
IsInert s = (s.skip_apply ≡ true) ⊎ ((s.artifact == "") ≡ false)

module _ {W : Type 0} (env : Env W) (s : Scenario) where
  Unapplied-tool :
      (name : String) → (name == "apply") ≡ false → IsToolProof env (Unapplied {W = W}) name
  Unapplied-tool name ne args files stage stages enforcement audit decision world p h =
      let other : (stage.name == "apply") ≡ false =
        subst (λ n. (n == "apply") ≡ false) (sym p) ne in
      ground (arith, any-append (λ (x : Stage). x.name == "apply") stages (stage ∷ []), h, other)

  module _ (one_path : s.out_of_band ≡ false) (inert : IsInert s) where
    enforce-Unapplied : (refused : Bool) → Keeps (On (Unapplied {W = W})) (enforce env s refused)
    unfolding enforce
    enforce-Unapplied true = rw one_path Keeps-done
    enforce-Unapplied false = elim inert [
      | inl skipped ↦
          rw skipped
            (Keeps-if (not (s.artifact == "")) (λ _. Keeps-raise) (λ _. Keeps-note _ λ r h. h))
      | inr rehearsed ↦ rw rehearsed Keeps-raise
    ]

    rehearse_drift-Unapplied : Keeps (On (Unapplied {W = W})) (rehearse_drift env s)
    unfolding rehearse_drift
    rehearse_drift-Unapplied =
        search (keeps_rules, call-Keeps env (Unapplied {W = W}) (λ a b c d w w' h. h)) depth 20

    finish-Unapplied : Keeps (On (Unapplied {W = W})) (finish env s)
    unfolding finish
    finish-Unapplied = Keeps-bind (Keeps-gets _) λ refused.
        Keeps-bind (enforce-Unapplied refused) λ _.
          Keeps-bind (observe-Keeps env (Unapplied {W = W}) s)
            λ _. Keeps-bind rehearse_drift-Unapplied λ _. conclude-Keeps env (Unapplied {W = W}) s

    check_binding-Unapplied :
        (class : Class) → Keeps (On (Unapplied {W = W})) (check_binding env class)
    unfolding check_binding refuse
    check_binding-Unapplied class =
        Keeps-if (is_verified class) (λ _. Keeps-done) (λ _. Keeps-note _ λ r h. h)

    bind-Unapplied : Keeps (On (Unapplied {W = W})) (bind env s)
    unfolding bind
    bind-Unapplied = Keeps-bind (Keeps-gets _) λ t.
        Keeps-bind (rehearse_binding-Keeps env (Unapplied {W = W}) s _) λ _.
          Keeps-bind (Keeps-gets _)
            λ files. Keeps-bind (check_binding-Unapplied _) λ _. finish-Unapplied

    obey-Unapplied : (d : Decision) → Keeps (On (Unapplied {W = W})) (obey env s d)
    unfolding obey refuse
    obey-Unapplied d =
        Keeps-if (is_denied d && s.is_advisory)
          (λ _. Keeps-bind (Keeps-note _ λ r h. h) λ _. bind-Unapplied)
          (λ _.
            Keeps-if (is_denied d) (λ _. Keeps-bind (Keeps-note _ λ r h. h) λ _. finish-Unapplied)
              (λ _. bind-Unapplied))

    run_gate-Unapplied :
        (evaluated : List ℕ) → Keeps (On (Unapplied {W = W})) (run_gate env s evaluated)
    unfolding run_gate
    run_gate-Unapplied evaluated =
        Keeps-bind (Keeps-note _ λ r h. h)
          λ _. Keeps-bind (Keeps-note _ λ r h. h) λ _. obey-Unapplied _

    run_infrastructure-Unapplied :
        s.scan ≡ false
        → s.denylist ≡ false
        → Keeps (On (Unapplied {W = W})) (run_infrastructure env s)
    unfolding run_infrastructure finish_unasked
    run_infrastructure-Unapplied unscanned unlisted =
        Keeps-bind (prepare-Keeps env (Unapplied {W = W})) λ _.
          Keeps-bind
            (Keeps-if (s.artifact == "") (λ _. plan-Keeps env (Unapplied {W = W}) Unapplied-tool s)
              (λ _. rehearse_artifact-Keeps env (Unapplied {W = W}) s))
            λ evaluated.
              Holds-if s.scan (λ e. Holds-absurd λ r h. cc (e, unscanned))
                λ _.
                  Holds-if s.denylist (λ e. Holds-absurd λ r h. cc (e, unlisted))
                    λ _.
                      Keeps-if (not s.is_gated)
                        (λ _. Keeps-bind (Keeps-note _ λ r h. h) λ _. finish-Unapplied)
                        (λ _. run_gate-Unapplied evaluated)

    pub run_available-Unapplied :
        s.manifest ≡ ""
        → s.scan ≡ false
        → s.denylist ≡ false
        → Keeps (On (Unapplied {W = W})) (run_available env s)
    unfolding run_available
    run_available-Unapplied infrastructure unscanned unlisted =
        Keeps-bind (observe_before-Keeps env (Unapplied {W = W}) s) λ _.
          Holds-if (not (s.manifest == ""))
            (λ e. Holds-absurd λ r h. ground (arith, e, eq→text_eq infrastructure))
            λ _. run_infrastructure-Unapplied unscanned unlisted
