-- ===== src/Tofu/Pipeline/Frames.antt =====
-- What the steps of internal/tofu/harness.go leave alone: most of them write neither stages,
-- enforcement, audit nor decision, and call no operation that changes the platform.
use planless.Prelude.{
  subst, ◌≡◌, refl, Bool, true, false, Option, none, some, List, [], ◌∷◌, ◌++◌, if◌then◌else◌, ◌==◌,
  ℤ, String, ℕ, Bool-cases, inl, inr,
}
use planless.Gate.{Decision}
use planless.Tofu.Approval.{Approval, Files}
use planless.Tofu.Transcript.{Stage, Enforcement, AuditEvent}
use planless.Tofu.Scenarios.{is_available, Scenario}
use planless.Tofu.Pipeline.{call, Run, Env, stage_noted, value_of, executed, run_tool, capture}
use planless.Tofu.Pipeline.Harness.{
  build_noted, rehearse_binding, observe, conclude, prepare, plan, rehearse_artifact,
}
use planless.Tofu.Pipeline.Manifest.{
  start, run, run_available, observe_before, observe_manifest, scan_base,
}
use planless.Tofu.Pipeline.Keeps.{
  Holds, Keeps, Ends, Keeps-bind, Keeps-done, Keeps-lift, Keeps-gets, Keeps-read, Keeps-note,
  Keeps-if, keeps_rules,
}

-- A claim on the parts of a run that most steps leave alone.
abbrev pub Claim : Type 0 → Type 1
Claim W = List Stage → Enforcement → List AuditEvent → Option Decision → W → Type 0

abbrev pub On : {W : Type 0} → Claim W → Run W → Type 0
On K r =
    K r.transcript.stages r.transcript.enforcement r.transcript.audit r.transcript.decision r.world

module _ {W : Type 0} (env : Env W) (K : Claim W) where
  build_noted-On :
      (o : Option String) (r : Run W)
      → On K r
      → On K (record r { transcript = build_noted o r.transcript })
  build_noted-On none r h = h
  build_noted-On (some b) r h = h

  applied_noted-On :
      (after : String) (r : Run W)
      → On K r
      → On K (record r {
        transcript =
            if r.transcript.enforcement.applied
            then record r.transcript {
              artifacts = record r.transcript.artifacts { applied_state = after };
            }
            else r.transcript;
      })
  applied_noted-On after r h = by_flag r.transcript.enforcement.applied
    where
      by_flag :
          (b : Bool)
          → On K (record r {
            transcript =
                if b
                then record r.transcript {
                  artifacts = record r.transcript.artifacts { applied_state = after };
                }
                else r.transcript;
          })
      by_flag true = h
      by_flag false = h

  pub observe-Keeps : (s : Scenario) → Keeps (On K) (observe env s)
  unfolding observe
  observe-Keeps s =
      Keeps-if s.skip_remote (λ _. Keeps-done)
        (λ _. Keeps-bind (Keeps-gets _) λ world. Keeps-bind (Keeps-lift _) λ after.
          Keeps-bind
            (Keeps-note _ (λ r h.
              build_noted-On (env.application_build world)
                (record r { transcript = record r.transcript { state_after = after } }) h))
            λ _. Keeps-note _ (applied_noted-On after))

  pub conclude-Keeps : (s : Scenario) → Keeps (On K) (conclude env s)
  unfolding conclude
  conclude-Keeps s = search keeps_rules

  pub rehearse_binding-Keeps :
      (s : Scenario) (a : Approval) → Keeps (On K) (rehearse_binding env s a)
  unfolding rehearse_binding
  rehearse_binding-Keeps s a = search keeps_rules depth 20

  pub prepare-Keeps : Keeps (On K) (prepare env)
  unfolding prepare
  prepare-Keeps = search keeps_rules depth 20

  pub rehearse_artifact-Keeps : (s : Scenario) → Keeps (On K) (rehearse_artifact env s)
  unfolding rehearse_artifact
  rehearse_artifact-Keeps s = search keeps_rules

  pub observe_before-Keeps : (s : Scenario) → Keeps (On K) (observe_before env s)
  unfolding observe_before
  observe_before-Keeps s = search keeps_rules depth 20

  pub scan_base-Keeps : (s : Scenario) → Keeps (On K) (scan_base env s)
  unfolding scan_base
  scan_base-Keeps s = search keeps_rules depth 20

  pub observe_manifest-Keeps : Keeps (On K) (observe_manifest env)
  unfolding observe_manifest
  observe_manifest-Keeps = Keeps-bind (Keeps-gets _) λ world. Keeps-bind (Keeps-lift _) λ after.
      Keeps-bind (Keeps-note _ λ r h. h) λ _.
        Keeps-bind (Keeps-note _ (applied_noted-On after))
          λ _. Keeps-note _ (build_noted-On (env.application_build world))

  -- The claim survives this process of the toolchain.
  abbrev pub IsToolProof : String → Type 0
  IsToolProof name =
      (args : List String) (files : Files) (stage : Stage) (stages : List Stage)
      (enforcement : Enforcement) (audit : List AuditEvent) (decision : Option Decision) (world : W)
      → stage.name ≡ name
      → K stages enforcement audit decision world
      → K (stages ++ (stage ∷ [])) enforcement audit decision
          (env.exec (name ∷ args) files world).world

  module _ (name : String) (tool : IsToolProof name) where
    -- A process that started where `F` held printed `output`, and the digests on the record are those
    -- that were there before it.
    pub record Printed (F : Run W → Type 0) (args : List String) (output : List ℕ) (after : Run W)
        : Type 0 where
      pub before : Run W
      pub held : F before
      pub succeeded : (env.exec (name ∷ args) before.files before.world).failure ≡ none
      pub printed : (env.exec (name ∷ args) before.files before.world).output ≡ output
      pub kept : after.transcript.artifacts ≡ before.transcript.artifacts

    executed-Keeps :
        (args : List String) (shown : List ℕ → String) → Keeps (On K) (executed env name args shown)
    unfolding executed
    executed-Keeps args shown = record {
      at = λ s h. by_failure s (env.exec (name ∷ args) s.files s.world).failure h;
    }
      where
        by_failure :
            (s : Run W) (failure : Option (ℤ × String))
            → On K s
            → Ends
                (λ _. On K)
                (On K)
                (
                  record {
                    transcript =
                        stage_noted env name args
                          (env.exec (name ∷ args) s.files s.world).output
                          shown
                          failure
                          s.transcript;
                    files = (env.exec (name ∷ args) s.files s.world).files;
                    world = (env.exec (name ∷ args) s.files s.world).world;
                  },
                  value_of env (env.exec (name ∷ args) s.files s.world).output failure,
                )
        by_failure s none h = tool args s.files _ _ _ _ _ s.world refl h
        by_failure s (some why) h = tool args s.files _ _ _ _ _ s.world refl h

    -- The process was started in the state before the step, and printed the output that is returned.
    pub executed-Prints :
        (F : Run W → Type 0) (args : List String) (shown : List ℕ → String)
        → Holds
            (λ r. On K r × F r)
            (executed env name args shown)
            (λ output r. On K r × Printed F args output r)
            (On K)
    unfolding executed
    executed-Prints F args shown = record {
      at = λ s h. by_failure s (env.exec (name ∷ args) s.files s.world).failure refl h;
    }
      where
        by_failure :
            (s : Run W) (failure : Option (ℤ × String))
            → (env.exec (name ∷ args) s.files s.world).failure ≡ failure
            → On K s × F s
            → Ends
                (λ output r. On K r × Printed F args output r)
                (On K)
                (
                  record {
                    transcript =
                        stage_noted env name args
                          (env.exec (name ∷ args) s.files s.world).output
                          shown
                          failure
                          s.transcript;
                    files = (env.exec (name ∷ args) s.files s.world).files;
                    world = (env.exec (name ∷ args) s.files s.world).world;
                  },
                  value_of env (env.exec (name ∷ args) s.files s.world).output failure,
                )
        by_failure s none e h = (
          tool args s.files _ _ _ _ _ s.world refl h.0,
          record { before = s; held = h.1; succeeded = e; printed = refl; kept = refl },
        )
        by_failure s (some why) e h = tool args s.files _ _ _ _ _ s.world refl h.0

    pub run_tool-Keeps : (args : List String) → Keeps (On K) (run_tool env name args)
    unfolding run_tool
    run_tool-Keeps args = Keeps-bind (executed-Keeps args _) λ _. Keeps-done

    pub capture-Keeps : (args : List String) → Keeps (On K) (capture env name args)
    unfolding capture
    capture-Keeps args = executed-Keeps args _

  pub plan-Keeps :
      ((name : String) → (name == "apply") ≡ false → IsToolProof name)
      → (s : Scenario) → Keeps (On K) (plan env s)
  unfolding plan
  plan-Keeps tool s = Keeps-bind (run_tool-Keeps "init" (tool _ refl) _) λ _.
      Keeps-bind (run_tool-Keeps "validate" (tool _ refl) _) λ _.
        Keeps-bind (run_tool-Keeps "plan" (tool _ refl) _) λ _. Keeps-bind (Keeps-read _) λ _.
          Keeps-bind (Keeps-note _ λ r h. h)
            λ _. Keeps-bind (capture-Keeps "show" (tool _ refl) _) λ _. search keeps_rules depth 20

-- A call of the control plane, for a claim that is not on the platform.
pub call-Keeps :
    {W : Type 0} (env : Env W) (K : Claim W)
    → ((stages : List Stage) (enforcement : Enforcement) (audit : List AuditEvent)
          (decision : Option Decision) (w w' : W)
        → K stages enforcement audit decision w
        → K stages enforcement audit decision w')
    → (f : W → W × Bool) → Keeps (On K) (call f)
unfolding call
call-Keeps {W} env K blind f = record { at = λ s h. by_answer s (f s.world) h }
  where
    by_answer :
        (s : Run W) (answer : W × Bool)
        → On K s
        → Ends
            (λ _. On K)
            (On K)
            (record s { world = answer.0 }, if answer.1 then some tt else none)
    by_answer s (w, true) h = blind _ _ _ _ s.world w h
    by_answer s (w, false) h = blind _ _ _ _ s.world w h

-- What a triple says of a run that was available.
pub run-Ends :
    {W : Type 0} (env : Env W) (surface acknowledgement : String) (s : Scenario) (world : W)
    (result : Run W × Option (Unit {0})) (P : Run W → Type 0) (Q : Unit {0} → Run W → Type 0)
    (E : Run W → Type 0)
    → run env surface acknowledgement s world ≡ some result
    → Holds P (run_available env s) Q E
    → P (start env s world)
    → Ends Q E result
unfolding run
run-Ends env surface acknowledgement s world result P Q E ran holds begun =
    elim (Bool-cases (is_available s surface acknowledgement)) [
      | inr e ↦ cc (rw e at ran)
      | inl e ↦
          let ended : run_available env s (start env s world) ≡ result = cc (rw e at ran) in
          subst (Ends Q E) ended (holds.at (start env s world) begun)
    ]
