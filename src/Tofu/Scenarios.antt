-- ===== src/Tofu/Scenarios.antt =====
-- internal/tofu/scenario.go: the scenarios that the harness can run.
pub mod Table
use planless.Prelude.{
  String, Bool, true, false, not, ◌&&◌, List, [], ◌∷◌, if◌then◌else◌, ◌==◌, map, keep,
}
use planless.Prelude.Text.{text_ltb}
use planless.Ordered.{sort}
use planless.Tofu.Reconcile.{verdict_pass}

abbrev pub expect_applied : String
expect_applied = "applied"

abbrev pub expect_refused : String
expect_refused = "refused"

abbrev pub expect_applied_out_of_band : String
expect_applied_out_of_band = "applied-out-of-band"

-- The bindings other than `BindingHonest`, which is the empty text.
abbrev pub binding_unapproved : String
binding_unapproved = "unapproved"

abbrev pub binding_modified : String
binding_modified = "modified"

abbrev pub binding_stale : String
binding_stale = "stale"

abbrev pub vulnerable_warning : String
vulnerable_warning = "INTENTIONALLY VULNERABLE — local educational material, not a real platform"

abbrev pub surface_vulnerable : String
surface_vulnerable = "vulnerable"

-- `Acknowledgement`.
abbrev pub acknowledged : String
acknowledged = "true"

pub record Scenario : Type 0 where
  pub id : String
  pub description : String
  pub var_file : String
  pub allowlist : String
  pub expect : String
  pub artifact : String
  pub is_gated : Bool
  pub binding : String
  pub break_engine : Bool
  pub expect_reconciliation : String
  pub scan : Bool
  pub manifest : String
  pub denylist : Bool
  pub is_advisory : Bool
  pub out_of_band : Bool
  pub drift_mutation : Bool
  pub is_vulnerable : Bool
  pub skip_apply : Bool
  pub skip_remote : Bool

-- The zero value, from which a composite literal starts.
abbrev pub unset : Scenario
unset = record {
  id = "";
  description = "";
  var_file = "";
  allowlist = "";
  expect = "";
  artifact = "";
  is_gated = false;
  binding = "";
  break_engine = false;
  expect_reconciliation = "";
  scan = false;
  manifest = "";
  denylist = false;
  is_advisory = false;
  out_of_band = false;
  drift_mutation = false;
  is_vulnerable = false;
  skip_apply = false;
  skip_remote = false;
}

-- `Available`.
unfoldable pub is_available : Scenario → String → String → Bool
is_available s surface acknowledgement =
    if not s.is_vulnerable
    then true
    else surface == surface_vulnerable && acknowledgement == acknowledged

-- `AvailableScenarios`, of the scenarios in some order.
unfoldable pub available_scenarios : List Scenario → String → String → List String
unfolding sort text_ltb is_available
available_scenarios scenarios surface acknowledgement =
    sort text_ltb
      (map (λ (s : Scenario). s.id) (keep (λ s. is_available s surface acknowledgement) scenarios))

-- `ExpectReconciliationOf`.
abbrev pub expect_reconciliation_of : Scenario → String
expect_reconciliation_of s =
    if s.expect_reconciliation == "" then verdict_pass else s.expect_reconciliation

-- `AllowlistOf`.
abbrev pub allowlist_of : Scenario → String
allowlist_of s = if s.allowlist == "" then "default.json" else s.allowlist
