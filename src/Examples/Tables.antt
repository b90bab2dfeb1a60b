-- ===== src/Examples/Tables.antt =====
-- Instances of the theorems on the comparison table.
use planless.Prelude.{ℤ, String, true, false, ◌≡◌, ◌≢◌, refl, none, some, List, [], ◌∷◌, pos}
use planless.Prelude.Text.{strip_prefix, trim_prefix}
use planless.Prelude.Words.{contains_text}
use planless.Gate.{Decision}
use planless.Tofu.Reconcile.{Observation, Reconciliation}
use planless.Tofu.Transcript.{Transcript, no_artifacts}
use planless.Tofu.Table.{
  Row, Table, row_of, with_row, add_rows, build_table, evaluated_by, exposed_by, applied_exposure,
  reachable_from_internet, short,
}
use planless.Tofu.Table.Rows.{Tabled, build_table-Tabled}

abbrev print_count : ℤ → String
print_count _ = "2"

abbrev passed : Reconciliation
passed = record {
  verdict = "PASS";
  expected = "PASS";
  publicly_reachable = [];
  allowed_public = [];
  unreviewed = [];
}

abbrev seen : String → Observation
seen segment = record {
  segment = segment;
  resource = "bucket/reports/q1";
  reachable = true;
  status = pos 200;
  digest = "d";
}

abbrev exposed : Decision
exposed = record {
  result = "admit";
  class = "";
  violations = some (
      record {
        class = "exposure_not_allowlisted";
        resource = "workload/fare-engine:admin";
        exposure = "";
        reason = "";
      }
      ∷ []);
  exposures = none;
}

-- The gate is advisory: what it found is applied all the same.
abbrev advisory_run : Transcript
advisory_run = record {
  document = "planless.transcript";
  scenario = "S1";
  correlation_id = "c";
  warning = "vulnerable";
  application_build = "";
  stages = [];
  artifacts = no_artifacts;
  source_layout = [];
  scan = none;
  denylist = none;
  would_have_decided = none;
  decision = some exposed;
  drift = none;
  enforcement = record {
    applied = true;
    operator_result = "DEPLOYED";
    refused_at_stage = "";
    advisory = true;
    out_of_band = false;
  };
  audit = [];
  state_before = "a";
  state_after = "b";
  observations = seen "corp" ∷ seen "internet" ∷ [];
  provenance = [];
  reconcile = some passed;
  expected = "applied";
  passed = true;
  error = "";
}

abbrev advisory_row : Row
advisory_row = record {
  scenario = "S1";
  evaluated = "resolved state";
  decision = "admit";
  enforcement = "advisory, applied";
  applied = "admin";
  reachable = "reports/q1";
  state_changed = "changed";
  reconciled = "PASS";
  vulnerable = true;
}

build_table-Tabled_example :
    ((u : Table)
      → build_table print_count (some advisory_run ∷ []) ≡ some u
      → (u.rows ≢ []) × Tabled print_count (some advisory_run ∷ []) u.rows)
    × ((rows : List Row)
        → rows ≢ []
        → Tabled print_count (some advisory_run ∷ []) rows
        → (u : Table) × (build_table print_count (some advisory_run ∷ []) ≡ some u)
          × (u.rows ≡ rows))
build_table-Tabled_example = build_table-Tabled print_count (some advisory_run ∷ [])

build_table-advisory :
    build_table print_count (some advisory_run ∷ [])
    ≡ some (record {
      document = "planless.comparison-table";
      warning = "vulnerable";
      rows = advisory_row ∷ [];
    })
unfolding build_table add_rows with_row row_of evaluated_by applied_exposure exposed_by
    reachable_from_internet short trim_prefix strip_prefix contains_text
build_table-advisory = refl

-- A transcript that was never reconciled is an error, and so is an empty stream.
build_table-unreconciled :
    build_table print_count
      (some advisory_run ∷ some (record advisory_run { reconcile = none }) ∷ [])
    ≡ none
unfolding build_table add_rows
build_table-unreconciled = refl

build_table-empty : build_table print_count [] ≡ none
unfolding build_table add_rows
build_table-empty = refl
