-- ===== src/Tofu/Scenarios/Table.antt =====
-- `Scenarios` of internal/tofu/scenario.go; the key of an entry is its `id`.
use planless.Prelude.{true, List, [], ◌∷◌}
use planless.Tofu.Reconcile.{verdict_fail}
use planless.Tofu.Scenarios.{
  expect_applied, expect_refused, expect_applied_out_of_band, binding_unapproved, binding_modified,
  binding_stale, Scenario, unset,
}

abbrev pub scenarios : List Scenario
scenarios =
    record unset {
      id = "offline-init";
      description = "initialize and plan with no network interface at all";
      var_file = "secure.tfvars";
      expect = expect_applied;
      skip_apply = true;
      skip_remote = true;
    }
    ∷ record unset {
      id = "secure-apply";
      description =
          "the gate admits the secure plan and the apply consumes exactly what it approved";
      var_file = "secure.tfvars";
      is_gated = true;
      expect = expect_applied;
    }
    ∷ record unset {
      id = "refuse-anonymous-export";
      description = "a plan whose resolved state grants anonymous read on the refund export";
      var_file = "secure.tfvars";
      artifact = "modified-anonymous-export-grant.json";
      is_gated = true;
      expect = expect_refused;
    }
    ∷ record unset {
      id = "refuse-unrestricted-admin";
      description =
          "a plan whose admin port is bound to every address and permitted from every address";
      var_file = "secure.tfvars";
      artifact = "modified-unrestricted-admin.json";
      is_gated = true;
      expect = expect_refused;
    }
    ∷ record unset {
      id = "fail-closed-unparsable";
      description = "an artifact the normalizer cannot read";
      var_file = "secure.tfvars";
      artifact = "modified-unparsable.json";
      is_gated = true;
      expect = expect_refused;
    }
    ∷ record unset {
      id = "fail-closed-unknown-type";
      description = "an artifact carrying a resource type the normalizer does not know";
      var_file = "secure.tfvars";
      artifact = "modified-unknown-resource-type.json";
      is_gated = true;
      expect = expect_refused;
    }
    ∷ record unset {
      id = "fail-closed-unrecognized-field";
      description = "an artifact carrying a field the normalizer does not know";
      var_file = "secure.tfvars";
      artifact = "modified-unrecognized-field.json";
      is_gated = true;
      expect = expect_refused;
    }
    ∷ record unset {
      id = "fail-closed-engine-error";
      description = "the policy engine fails to run at all";
      var_file = "secure.tfvars";
      is_gated = true;
      break_engine = true;
      expect = expect_refused;
    }
    ∷ record unset {
      id = "binding-unapproved-plan";
      description = "an apply attempted with no approval at all";
      var_file = "secure.tfvars";
      is_gated = true;
      binding = binding_unapproved;
      expect = expect_refused;
    }
    ∷ record unset {
      id = "binding-modified-plan";
      description = "an apply attempted with a plan artifact changed after the gate approved it";
      var_file = "secure.tfvars";
      is_gated = true;
      binding = binding_modified;
      expect = expect_refused;
    }
    ∷ record unset {
      id = "reviewed-exposure-unapproved";
      description = "publishing a second status asset, against the allowlist that does not name it";
      var_file = "reviewed-exposure.tfvars";
      is_gated = true;
      expect = expect_refused;
    }
    ∷ record unset {
      id = "reviewed-exposure";
      description = "the same change, against a reviewed allowlist that names the new exposure";
      var_file = "reviewed-exposure.tfvars";
      allowlist = "reviewed-exposure.json";
      is_gated = true;
      expect = expect_applied;
    }
    ∷ record unset {
      id = "routine-change";
      description = "an ordinary non-security change: keep access logs for longer";
      var_file = "routine-change.tfvars";
      is_gated = true;
      expect = expect_applied;
    }
    ∷ record unset {
      id = "vulnerable-gated";
      description = "the misconfigured value set, with the gate standing on the path to apply";
      var_file = "vulnerable.tfvars";
      is_gated = true;
      is_vulnerable = true;
      expect = expect_refused;
    }
    ∷ record unset {
      id = "vulnerable-ungated";
      description = "the misconfigured value set, applied by a path no gate stands on";
      var_file = "vulnerable.tfvars";
      is_vulnerable = true;
      expect = expect_applied;
      expect_reconciliation = verdict_fail;
    }
    ∷ record unset {
      id = "half-fix-source-scan";
      description =
          "a policy scan reads the configuration files, finds nothing, and is right about what it read";
      var_file = "vulnerable.tfvars";
      scan = true;
      is_vulnerable = true;
      expect = expect_applied;
      expect_reconciliation = verdict_fail;
    }
    ∷ record unset {
      id = "half-fix-report-only";
      description =
          "the gate reads the resolved plan, reports both findings correctly, and does not stop the pipeline";
      var_file = "vulnerable.tfvars";
      is_gated = true;
      is_advisory = true;
      is_vulnerable = true;
      expect = expect_applied;
      expect_reconciliation = verdict_fail;
    }
    ∷ record unset {
      id = "manifest-intended";
      description = "the intended posture, rendered from manifests and decided by the same policy";
      var_file = "secure.tfvars";
      manifest = "intended";
      is_gated = true;
      expect = expect_applied;
    }
    ∷ record unset {
      id = "manifest-exposed";
      description = "the exposed overlay, refused by the same policy with no change to it";
      var_file = "secure.tfvars";
      manifest = "exposed";
      is_gated = true;
      is_vulnerable = true;
      expect = expect_refused;
    }
    ∷ record unset {
      id = "manifest-exposed-ungated";
      description =
          "the exposed overlay applied with no policy step, and a scan of the base that finds nothing";
      var_file = "secure.tfvars";
      manifest = "exposed";
      scan = true;
      is_vulnerable = true;
      expect = expect_applied;
      expect_reconciliation = verdict_fail;
    }
    ∷ record unset {
      id = "half-fix-denylist";
      description =
          "two literal rules over the resolved plan, and the same exposure written two other ways";
      var_file = "denylist.tfvars";
      denylist = true;
      is_vulnerable = true;
      expect = expect_applied;
      expect_reconciliation = verdict_fail;
    }
    ∷ record unset {
      id = "half-fix-review-path-only";
      description =
          "the gate blocks on the review path and the change reaches the platform by another";
      var_file = "vulnerable.tfvars";
      is_gated = true;
      out_of_band = true;
      is_vulnerable = true;
      expect = expect_applied_out_of_band;
      expect_reconciliation = verdict_fail;
    }
    ∷ record unset {
      id = "half-fix-drift";
      description = "a compliant state, changed directly at the control plane afterwards";
      var_file = "secure.tfvars";
      is_gated = true;
      drift_mutation = true;
      is_vulnerable = true;
      expect = expect_applied;
      expect_reconciliation = verdict_fail;
    }
    ∷ record unset {
      id = "binding-stale-approval";
      description = "an apply attempted with an approval issued for a different run";
      var_file = "secure.tfvars";
      is_gated = true;
      binding = binding_stale;
      expect = expect_refused;
    }
    ∷ []
