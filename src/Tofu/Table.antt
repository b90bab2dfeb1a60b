-- ===== src/Tofu/Table.antt =====
-- internal/tofu/table.go: the comparison of reconciled transcripts. A document is `none` where it cannot
-- be decoded, and `print_count` is `fmt`'s printing of a number.
pub mod Rows
use Prim.Native.String
use planless.Prelude.{
  ℤ, String, Bool, true, false, not, ◌&&◌, ◌||◌, Option, none, some, List, [], ◌∷◌, ◌++◌, map, keep,
  if◌then◌else◌, ◌==◌,
}
use planless.Prelude.Text.{trim_prefix}
use planless.Prelude.Words.{contains_text, join_texts}
use planless.Gate.{Violation, Decision}
use planless.Tofu.Reconcile.{Observation, Reconciliation}
use planless.Tofu.Transcript.{Transcript, Enforcement, transcript_document}

pub record Row : Type 0 where
  pub scenario : String
  pub evaluated : String
  pub decision : String
  pub enforcement : String
  pub applied : String
  pub reachable : String
  pub state_changed : String
  pub reconciled : String
  pub vulnerable : Bool

pub record Table : Type 0 where
  pub document : String
  pub warning : String
  pub rows : List Row

abbrev pub table_document : String
table_document = "planless.comparison-table"

-- `evaluatedBy`.
unfoldable pub evaluated_by : Transcript → String
unfolding contains_text
evaluated_by t = elim t.scan [
  | some scan ↦ if contains_text scan.artifact "manifest" then "base manifests" else "source text"
  | none ↦ elim t.denylist [
    | some _ ↦ "resolved state (literals)"
    | none ↦ elim t.decision [ some _ ↦ "resolved state" | none ↦ "nothing" ]
  ]
]

-- `decisionOf`.
abbrev pub decision_of : (ℤ → String) → Transcript → String
decision_of print_count t = elim t.scan [
  | some scan ↦ String.◌++◌ (print_count scan.finding_count) " findings"
  | none ↦ elim t.denylist [
    | some denylist ↦ String.◌++◌ (print_count denylist.finding_count) " findings"
    | none ↦ elim t.decision [ some decision ↦ decision.result | none ↦ "none" ]
  ]
]

-- `enforcementOf`.
abbrev pub enforcement_of : Enforcement → String
enforcement_of e =
    if e.out_of_band
    then "refused, applied anyway"
    else if e.advisory
    then "advisory, applied"
    else if e.applied
    then "applied"
    else "refused"

-- `short`.
unfoldable pub short : String → String
unfolding trim_prefix
short resource =
    trim_prefix (trim_prefix (trim_prefix resource "bucket/") "workload/") "fare-engine:"

abbrev pub or_none_left : {A : Type 0} → Option (List A) → List A
or_none_left none = []
or_none_left (some l) = l

abbrev pub or_else : String → List String → String
or_else nothing [] = nothing
or_else nothing (w ∷ words) = join_texts " " (w ∷ words)

-- What `appliedExposure` collects from a decision.
unfoldable pub exposed_by : Decision → List String
unfolding short
exposed_by d =
    map (λ (v : Violation). short v.resource)
      (keep (λ (v : Violation). v.class == "exposure_not_allowlisted") (or_none_left d.violations))

abbrev pub decision_shown : Option Decision → Option Decision → Option Decision
decision_shown none would_have = would_have
decision_shown (some d) would_have = some d

-- `appliedExposure`.
unfoldable pub applied_exposure : Transcript → String
unfolding exposed_by
applied_exposure t = elim (decision_shown t.decision t.would_have_decided) [
  | none ↦ "—"
  | some d ↦ if t.enforcement.applied then or_else "reviewed only" (exposed_by d) else "—"
]

-- `reachableFromInternet`.
unfoldable pub reachable_from_internet : Transcript → String
unfolding short
reachable_from_internet t = or_else "nothing" (
    map (λ (o : Observation). short o.resource)
      (keep (λ (o : Observation). o.segment == "internet" && o.reachable) t.observations))

-- `stateChange`.
abbrev pub state_change : Transcript → String
state_change t =
    if t.state_before == "" || t.state_after == ""
    then "—"
    else if t.state_before == t.state_after
    then "unchanged"
    else "changed"

-- The check of `BuildTable` after its loop.
abbrev pub unless_empty : Table → Option Table
unless_empty table = elim table.rows [ [] ↦ none | _ ∷ _ ↦ some table ]

module _ (print_count : ℤ → String) where
  -- `rowOf`, of a transcript that was reconciled.
  unfoldable pub row_of : Transcript → Reconciliation → Row
  unfolding evaluated_by applied_exposure reachable_from_internet
  row_of t r = record {
    scenario = t.scenario;
    evaluated = evaluated_by t;
    decision = decision_of print_count t;
    enforcement = enforcement_of t.enforcement;
    applied = applied_exposure t;
    reachable = reachable_from_internet t;
    state_changed = state_change t;
    reconciled = r.verdict;
    vulnerable = not (t.warning == "");
  }

  -- What one turn of the loop of `BuildTable` makes of the table.
  unfoldable pub with_row : Transcript → Reconciliation → Table → Table
  unfolding row_of
  with_row t r table = record table {
    rows = table.rows ++ (row_of t r ∷ []);
    warning = if t.warning == "" then table.warning else t.warning;
  }

  -- The loop of `BuildTable`.
  unfoldable pub add_rows : List (Option Transcript) → Table → Option Table
  unfolding with_row
  add_rows [] table = some table
  add_rows (none ∷ rest) table = none
  add_rows (some t ∷ rest) table = elim t.reconcile [
    | none ↦ none
    | some r ↦
        let more = add_rows rest (with_row t r table) in
        if t.document == transcript_document then more else none
  ]

  -- `BuildTable`; `none` is an error.
  unfoldable pub build_table : List (Option Transcript) → Option Table
  unfolding add_rows
  build_table documents =
      elim (add_rows documents (record { document = table_document; warning = ""; rows = [] })) [
        | none ↦ none
        | some table ↦ unless_empty table
      ]
