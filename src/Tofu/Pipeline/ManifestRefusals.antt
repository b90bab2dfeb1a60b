-- ===== src/Tofu/Pipeline/ManifestRefusals.antt =====
-- A run of internal/tofu/manifest_run.go that refuses applies nothing.
use planless.Prelude.{ℕ, ◌≡◌, String, Bool, true, false, ◌&&◌, inl, inr, some, List, if◌then◌else◌}
use planless.Gate
use planless.Graph.{Graph}
use planless.Gate.{Decision, is_denied}
use planless.Tofu.Approval.{Class}
use planless.Tofu.Scenarios.{Scenario}
use planless.Tofu.Pipeline.{Run, Env, Step, ◌>>◌, note}
use planless.Tofu.Pipeline.Outcome.{refuse}
use planless.Tofu.Pipeline.Harness.{flagged, check_binding, gate_env, conclude, is_verified}
use planless.Tofu.Pipeline.Manifest.{enforce_manifest, observe_manifest, decided, run_manifest}
use planless.Tofu.Pipeline.Keeps.{
  Holds, Keeps, Holds-bind, Holds-weaken, Holds-if, Holds-pre, Holds-either, Keeps-bind, Keeps-done,
  Keeps-lift, Keeps-note, Keeps-if,
}
use planless.Tofu.Pipeline.Frames.{On, conclude-Keeps, scan_base-Keeps, observe_manifest-Keeps}
use planless.Tofu.Pipeline.Endings.{Quiet-refuse, Audited, Quiet, Outcome, Open, Audited-call}

-- The platform is as it was.
abbrev pub IsBefore : {W : Type 0} → W → W → Type 0
IsBefore before w = w ≡ before

module _ {W : Type 0} (env : Env W) (before : W) where
  -- A step without refusal before the end of a run.
  pub quietly :
      {A : Type 0} {m : Step W A}
      → Keeps (On (Quiet (IsBefore before) 0)) m
      → Holds
          (On (Quiet (IsBefore before) 0))
          m
          (λ _. On (Quiet (IsBefore before) 0))
          (Outcome (IsBefore before))
  quietly hm = Holds-weaken hm (λ _ r h. h) (λ r h. inl h.3)

  pub refuse-Quiet :
      (stage class rule : String)
      → Holds
          (On (Quiet (IsBefore before) 0))
          (note {W = W} (refuse stage class rule))
          (λ _. On (Quiet (IsBefore before) 1))
          (Outcome (IsBefore before))
  refuse-Quiet stage class rule = Quiet-refuse (IsBefore before) stage class rule

  pub check_binding-Open :
      (class : Class)
      → Holds
          (On (Quiet (IsBefore before) 0))
          (check_binding env class)
          (λ _. Open (IsBefore before))
          (Outcome (IsBefore before))
  unfolding check_binding
  check_binding-Open class =
      Holds-if (is_verified class)
        (λ _. Holds-weaken (quietly Keeps-done) (λ _ r h. inl h) (λ r h. h))
        (λ _. Holds-weaken (refuse-Quiet _ _ _) (λ _ r h. inr h) (λ r h. h))

  enforce_manifest-Outcome :
      (s : Scenario) (decision : Decision) (g : Graph)
      → Holds
          (On (Quiet (IsBefore before) 0))
          (enforce_manifest env s decision g)
          (λ _. Outcome (IsBefore before))
          (Outcome (IsBefore before))
  unfolding enforce_manifest
  enforce_manifest-Outcome s decision g =
      Holds-if (s.is_gated && is_denied decision)
        (λ _. Holds-weaken (refuse-Quiet _ _ _) (λ _ r h. inr h) (λ r h. h))
        (λ _.
          Holds-pre (λ r h. h.3)
            (Holds-weaken (Keeps-bind (Audited-call env _) λ _. Keeps-note _ λ r h. h)
              (λ _ r h. inl h) (λ r h. inl h)))

  -- The steps of a manifest run after the enforcement.
  manifest_ended :
      (s : Scenario) → Keeps (Outcome (IsBefore before)) (observe_manifest env >> conclude env s)
  manifest_ended s =
      Holds-either
        (Holds-weaken
          (Keeps-bind (observe_manifest-Keeps env (Audited 0))
            λ _. conclude-Keeps env (Audited 0) s)
          (λ _ r h. inl h) (λ r h. inl h))
        (Holds-weaken
          (Keeps-bind (observe_manifest-Keeps env (Quiet (IsBefore before) 1))
            λ _. conclude-Keeps env (Quiet (IsBefore before) 1) s)
          (λ _ r h. inr h) (λ r h. inr h))

  decided-Quiet :
      (s : Scenario) (body : List ℕ) (decision : Decision) (r : Run W)
      → On (Quiet (IsBefore before) 0) r
      → On
          (Quiet (IsBefore before) 0)
          (record r { transcript = decided env s body decision r.transcript })
  decided-Quiet s body decision r h = by_gate s.is_gated
    where
      by_gate :
          (b : Bool)
          → On (Quiet (IsBefore before) 0) (record r {
            transcript =
                if b
                then record (flagged
                    (env.codec.digest body)
                    "the deny-by-default policy, over the rendered manifest set"
                    r.transcript) { decision = some decision }
                else record r.transcript { would_have_decided = some decision };
          })
      by_gate true = h
      by_gate false = h

  pub run_manifest-Outcome :
      (s : Scenario)
      → Holds
          (On (Quiet (IsBefore before) 0))
          (run_manifest env s)
          (λ _. Outcome (IsBefore before))
          (Outcome (IsBefore before))
  unfolding run_manifest
  run_manifest-Outcome s = Holds-bind _ (quietly (Keeps-lift _)) λ _.
      Holds-bind _ (quietly (Keeps-lift _)) λ base.
        Holds-bind _ (quietly (Keeps-lift _)) λ rendered.
          Holds-bind _ (quietly (Keeps-note _ λ r h. h)) λ _.
            Holds-bind _ (quietly (Keeps-lift _)) λ g. Holds-bind _ (quietly (Keeps-lift _)) λ body.
              Holds-bind _ (quietly (Keeps-note _ λ r h. h)) λ _.
                Holds-bind _
                  (quietly (
                    Keeps-if s.scan (λ _. scan_base-Keeps env (Quiet (IsBefore before) 0) s)
                      (λ _. Keeps-done)))
                  λ _. decided_ended g (Gate.evaluate (gate_env env s) body) body
    where
      decided_ended :
          (g : Graph) (decision : Decision) (body : List ℕ)
          → Holds
              (On (Quiet (IsBefore before) 0))
              (note (decided env s body decision)
                >> (enforce_manifest env s decision g >> (observe_manifest env >> conclude env s)))
              (λ _. Outcome (IsBefore before))
              (Outcome (IsBefore before))
      decided_ended g decision body =
          Holds-bind _ (quietly (Keeps-note _ (λ r h. decided-Quiet s body decision r h)))
            λ _. Holds-bind _ (enforce_manifest-Outcome s decision g) λ _. manifest_ended s
