-- ===== src/Tofu/Pipeline/Planned.antt =====
-- What the plan of a run of internal/tofu/harness.go is: the canonical form of what the toolchain shows of
-- the plan artifact in the work directory.
use planless.Prelude.{
  ◌≡◌, refl, ap, ◌∙◌, subst, String, false, none, some, List, [], ◌∷◌, ℕ, ltb, length, ◌==◌,
}
use planless.Tofu.Approval.{Files}
use planless.Tofu.Transcript.{Artifacts}
use planless.Tofu.Scenarios.{Scenario}
use planless.Tofu.Origins.{value_origins}
use planless.Tofu.Canonical.{canonical_plan}
use planless.Tofu.Pipeline.{Run, Env, Step, run_tool, capture, note, lift}
use planless.Tofu.Pipeline.Harness.{plan, plan_path}
use planless.Tofu.Pipeline.Keeps.{
  Holds, Keeps, Holds-bind, Holds-weaken, Holds-note, Holds-lift, Holds-read, Keeps-note,
  Keeps-lift, Keeps-if, Keeps-raise, Keeps-done,
}
use planless.Tofu.Pipeline.Frames.{On, IsToolProof, run_tool-Keeps, executed-Prints}
use planless.Tofu.Pipeline.Endings.{Quiet, Quiet-tool}

abbrev pub Any : {W : Type 0} → W → Type 0
Any w = Unit

abbrev show_args : List String
show_args = "show" ∷ "-json" ∷ "plan.tfplan" ∷ []

-- The toolchain showed `output` of files whose plan artifact is the recorded one.
pub record Shown {W : Type 0} (env : Env W) (artifacts : Artifacts) (output : List ℕ) : Type 0 where
  pub content : List ℕ
  pub files : Files
  pub world : W
  pub present : files plan_path ≡ some content
  pub succeeded : (env.exec show_args files world).failure ≡ none
  pub printed : (env.exec show_args files world).output ≡ output
  pub artifact : artifacts.plan_artifact ≡ env.codec.digest content

-- `resolved` is the canonical form of what the toolchain showed of the plan artifact, and the record has
-- the digests of both.
pub record Planned {W : Type 0} (env : Env W) (artifacts : Artifacts) (resolved : List ℕ)
    : Type 0 where
  pub output : List ℕ
  pub shown : Shown env artifacts output
  pub canonical : canonical_plan env.quote env.read_json output ≡ some resolved
  pub recorded : artifacts.resolved_desired_state ≡ env.codec.digest resolved

module _ {W : Type 0} (env : Env W) {E : Run W → Type 0}
    (ends : (r : Run W) → On (Quiet Any 0) r → E r) where
  proof : (name : String) → (name == "apply") ≡ false → IsToolProof env (Quiet {W = W} Any 0) name
  proof name ne = Quiet-tool env Any (λ name args files w ne h. h) name ne

  tool :
      (name : String)
      → (name == "apply") ≡ false
      → (args : List String)
      → Holds (On (Quiet Any 0)) (run_tool env name args) (λ _. On (Quiet Any 0)) E
  tool name ne args =
      Holds-weaken (run_tool-Keeps env (Quiet Any 0) name (proof name ne) args) (λ _ r h. h) ends

  -- Before the plan is shown: the file that was read, and its digest on the record.
  abbrev Recorded : List ℕ → Run W → Type 0
  Recorded content r =
      (r.files plan_path ≡ some content)
      × (r.transcript.artifacts.plan_artifact ≡ env.codec.digest content)

  show-Shown :
      (content : List ℕ)
      → Holds
          (λ r. On (Quiet Any 0) r × Recorded content r)
          (capture env "show" ("-json" ∷ "plan.tfplan" ∷ []))
          (λ output r. On (Quiet Any 0) r × Shown env r.transcript.artifacts output)
          E
  unfolding capture
  show-Shown content =
      Holds-weaken
        (executed-Prints env (Quiet Any 0) "show" (proof "show" refl) (Recorded content) _ _)
        (λ output r h. (
          h.0,
          record {
            content = content;
            files = h.1.before.files;
            world = h.1.before.world;
            present = h.1.held.0;
            succeeded = h.1.succeeded;
            printed = h.1.printed;
            artifact = ap (λ (a : Artifacts). a.plan_artifact) h.1.kept ∙ h.1.held.1;
          },
        ))
        ends

  abbrev Ready : List ℕ → Run W → Type 0
  Ready resolved r = On (Quiet Any 0) r × Planned env r.transcript.artifacts resolved

  ready :
      {A : Type 0} {resolved : List ℕ} {m : Step W A}
      → Keeps (Ready resolved) m
      → Holds (Ready resolved) m (λ _. Ready resolved) E
  ready hm = Holds-weaken hm (λ _ r h. h) (λ r h. ends r h.0)

  -- The digest of the resolved plan is recorded.
  recorded-Ready :
      (output resolved : List ℕ)
      → Holds
          (λ r.
            (canonical_plan env.quote env.read_json output ≡ some resolved)
            × (On (Quiet Any 0) r × Shown env r.transcript.artifacts output))
          (note {W = W} λ t. record t {
            artifacts = record t.artifacts { resolved_desired_state = env.codec.digest resolved };
          })
          (λ _. Ready resolved)
          E
  recorded-Ready output resolved = Holds-note {Q = Ready resolved} _ λ r h. (
    h.1.0,
    record {
      output = output;
      shown = record {
        content = h.1.1.content;
        files = h.1.1.files;
        world = h.1.1.world;
        present = h.1.1.present;
        succeeded = h.1.1.succeeded;
        printed = h.1.1.printed;
        artifact = h.1.1.artifact;
      };
      canonical = h.0;
      recorded = refl;
    },
  )

  -- The plan that `Run` goes on with is the one of the artifact.
  pub plan-Planned : (s : Scenario) → Holds (On (Quiet Any 0)) (plan env s) Ready E
  unfolding plan
  plan-Planned s = Holds-bind _ (tool "init" refl _) λ _. Holds-bind _ (tool "validate" refl _) λ _.
      Holds-bind _ (tool "plan" refl _) λ _. Holds-bind _ (Holds-read plan_path ends) λ content.
        Holds-bind _
          (Holds-note {Q = λ r. On (Quiet Any 0) r × Recorded content r} _
            λ r h. (h.1, (h.0, refl)))
          λ _. Holds-bind _ (show-Shown content) λ output.
            Holds-bind _
              (Holds-lift {P = λ r. On (Quiet Any 0) r × Shown env r.transcript.artifacts output}
                (canonical_plan env.quote env.read_json output) (λ r h. ends r (h.0)))
              λ resolved. Holds-bind _ (recorded-Ready output resolved) λ _.
                Holds-bind _
                  (ready (
                    Keeps-if (ltb 0 (length (env.values_missing resolved))) (λ _. Keeps-raise)
                      (λ _. Keeps-done)))
                  λ _.
                    Holds-bind _
                      (ready (Keeps-lift (value_origins env.reader env.segments resolved)))
                      λ origins. Holds-bind _ (ready (Keeps-note _ λ r h. h)) λ _. returned resolved
    where
      returned : (resolved : List ℕ) → Holds (Ready resolved) (lift (some resolved)) Ready E
      returned resolved =
          Holds-weaken (Holds-lift (some resolved) (λ r h. ends r h.0))
            (λ a r h. subst (λ l. Ready l r) (cc (h.0)) (h.1)) (λ r h. h)
