-- ===== src/Tofu/Pipeline/Met.antt =====
-- A run of internal/tofu/harness.go that returns no error has met the outcome that its scenario declares.
use planless.Prelude.{◌≡◌, true}
use planless.Tofu.Transcript.{Transcript}
use planless.Tofu.Scenarios.{Scenario}
use planless.Tofu.Pipeline.{Env, Step}
use planless.Tofu.Pipeline.Outcome.{is_met}
use planless.Tofu.Pipeline.Keeps.{Holds}

module _ {W : Type 0} (env : Env W) (s : Scenario) where
  -- A run that ends with `m` without an error has met its outcome.
  abbrev Meets : Step W (Unit {0}) → Type 0
  Meets m = Holds (λ _. Unit {0}) m (λ _ r. is_met s r.transcript ≡ true) (λ _. Unit)
