-- ===== src/Tofu/Pipeline/Manifest.antt =====
-- `runManifest` of internal/tofu/manifest_run.go, and the whole of `Run` of internal/tofu/harness.go,
-- which chooses between the two surfaces.
use planless.Prelude.{
  ℕ, String, true, not, ◌&&◌, Option, none, some, List, map, if◌then◌else◌, ◌==◌,
}
use planless.Gate.{Decision, is_denied, scan_with}
use planless.Gate
use planless.Graph.{Graph}
use planless.Tofu.Transcript.{Transcript, ValueOrigin, result_deployed, stage_policy}
use planless.Tofu.Scenarios.{Scenario, is_available}
use planless.Tofu.Origins.{graph_origins}
use planless.Tofu.Pipeline.{Run, Env, Step, ◌>>=◌, ◌>>◌, done, lift, gets, note, call}
use planless.Tofu.Pipeline.Outcome.{refuse, class_of, opened}
use planless.Tofu.Pipeline.Harness.{
  gate_env, report_of, flagged, build_noted, conclude, run_infrastructure,
}

-- `manifestOrigins`.
abbrev pub manifest_origins : Graph → List ValueOrigin
manifest_origins g =
    map (λ (v : ValueOrigin). record v { reference = ""; contributors = "" }) (graph_origins g)

module _ {W : Type 0} (env : Env W) where
  -- The scan of the base manifests.
  unfoldable pub scan_base : Scenario → Step W (Unit {0})
  scan_base s = do
    raw ← lift env.manifest_bundle
    report ← lift (report_of (scan_with (gate_env env s) raw "data.planless.manifest_scan.report"))
    note λ t.
        flagged (env.codec.digest raw) "a policy scan over the base manifest set"
          (record t { scan = some report })

  abbrev pub decided : Scenario → List ℕ → Decision → Transcript → Transcript
  decided s body decision t =
      if s.is_gated
      then record (flagged (env.codec.digest body)
          "the deny-by-default policy, over the rendered manifest set" t) {
            decision = some decision;
          }
      else record t { would_have_decided = some decision }

  -- The refusal, or the apply of the normalized set.
  unfoldable pub enforce_manifest : Scenario → Decision → Graph → Step W (Unit {0})
  enforce_manifest s decision normalized =
      if s.is_gated && is_denied decision
      then note (refuse stage_policy (class_of decision) "deny-by-default")
      else (do
        call (env.apply_graph normalized)
        note λ t. record t {
          enforcement = record t.enforcement { applied = true; operator_result = result_deployed };
        })

  -- What the run reads of the platform afterwards.
  unfoldable pub observe_manifest : Step W (Unit {0})
  observe_manifest = do
    world ← gets (λ r. r.world)
    after ← lift (env.state_digest world)
    note λ t. record t { state_after = after }
    note λ t.
        if t.enforcement.applied
        then record t { artifacts = record t.artifacts { applied_state = after } }
        else t
    note (build_noted (env.application_build world))

  -- `runManifest`.
  unfoldable pub run_manifest : Scenario → Step W (Unit {0})
  run_manifest s = do
    lift env.new_run
    base ← lift (env.render_manifests "base")
    rendered ← lift (env.render_manifests s.manifest)
    note λ t. record t {
      artifacts = record t.artifacts {
        source_configuration = env.codec.digest base;
        resolved_desired_state = env.codec.digest rendered;
      };
    }
    normalized ← lift (env.from_manifests rendered base)
    body ← lift (env.graph_bytes normalized)
    note λ t. record t { provenance = manifest_origins normalized }
    if s.scan then scan_base s else done
    let decision = Gate.evaluate (gate_env env s) body
    note (decided s body decision)
    enforce_manifest s decision normalized
    observe_manifest
    conclude env s

  -- The digest of the platform's state before the run.
  unfoldable pub observe_before : Scenario → Step W (Unit {0})
  observe_before s = if s.skip_remote then done else (do
    world ← gets (λ r. r.world)
    before ← lift (env.state_digest world)
    note λ t. record t { state_before = before; state_after = before })

  -- `Run` of a scenario that is available.
  unfoldable pub run_available : Scenario → Step W (Unit {0})
  run_available s = do
    observe_before s
    if not (s.manifest == "") then run_manifest s else run_infrastructure env s

  -- The run as it starts.
  abbrev pub start : Scenario → W → Run W
  start s world = record { transcript = opened env.codec s; files = λ _. none; world = world }

  -- `Run`; `none` is the error that starts nothing.
  unfoldable pub run :
      (surface acknowledgement : String) → Scenario → W → Option (Run W × Option (Unit {0}))
  run surface acknowledgement s world =
      if not (is_available s surface acknowledgement)
      then none
      else some (run_available s (start s world))
