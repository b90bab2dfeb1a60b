-- ===== src/Tofu/Table/Rows.antt =====
-- The rows of the comparison table: `BuildTable` of internal/tofu/table.go.
use mathlib.Core.List.{append_assoc, append-nil}
use planless.Prelude.{
  ℤ, String, ◌≡◌, ◌≢◌, inl, inr, refl, ap, sym, subst, ◌∙◌, Option, none, some, List, [], ◌∷◌, ◌++◌,
  ◌==◌, text_eq→eq, eq→text_eq, Bool-cases, Option-cases,
}
use planless.Tofu.Reconcile.{Reconciliation}
use planless.Tofu.Transcript.{Transcript, transcript_document}
use planless.Tofu.Table.{
  Row, Table, table_document, row_of, with_row, add_rows, unless_empty, build_table,
}

unless_empty→ :
    (rows : List Row) (table u : Table)
    → table.rows ≡ rows
    → unless_empty table ≡ some u
    → (table ≡ u) × (u.rows ≢ [])
unless_empty→ [] table u r h = absurd (cc (rw (r, unless_empty) at h))
unless_empty→ (row ∷ rows) table u r h =
    let same : table ≡ u = cc (rw (r, unless_empty) at h) in
    (
      same,
      λ none_left.
          let rows_of : table.rows ≡ u.rows = ap (λ (t : Table). t.rows) same in
          absurd (cc (r, rows_of, none_left)),
    )

unless_empty-some :
    (rows : List Row) (table : Table)
    → table.rows ≡ rows
    → rows ≢ []
    → unless_empty table ≡ some table
unless_empty-some [] table r n = absurd (n refl)
unless_empty-some (_ ∷ _) table r n = rw r refl

unless_empty← : (table : Table) → table.rows ≢ [] → unless_empty table ≡ some table
unless_empty← table n = unless_empty-some table.rows table refl n

module _ (print_count : ℤ → String) where
  -- Every document is a transcript that was reconciled, and has its row, in the order of the stream.
  pub data Tabled : List (Option Transcript) → List Row → Type 0 where
    nothing_left : Tabled [] []
    row :
        (t : Transcript) (r : Reconciliation) {documents : List (Option Transcript)}
        {rows : List Row}
        → t.document ≡ "planless.transcript"
        → t.reconcile ≡ some r
        → Tabled documents rows
        → Tabled (some t ∷ documents) (row_of print_count t r ∷ rows)

  add_rows-Tabled→ :
      (documents : List (Option Transcript)) (table u : Table)
      → add_rows print_count documents table ≡ some u
      → (rows : List Row) × (u.rows ≡ (table.rows ++ rows)) × Tabled documents rows
  unfolding add_rows with_row
  add_rows-Tabled→ [] table u h =
      let same : table ≡ u = cc h in
      ([], sym (ap (λ (x : Table). x.rows) same) ∙ sym (append-nil table.rows), nothing_left)
  add_rows-Tabled→ (none ∷ documents) table u h = absurd (cc h)
  add_rows-Tabled→ (some t ∷ documents) table u h = elim (Option-cases t.reconcile) [
    | inl n ↦ absurd (cc (rw (n, add_rows) at h))
    | inr (r, e) ↦ elim (Bool-cases (t.document == transcript_document)) [
      | inr d ↦ absurd (let k = rw (e, add_rows) at h in cc (rw d at k))
      | inl d ↦
          let k = rw (e, add_rows) at h in
          let later = add_rows-Tabled→ documents (with_row print_count t r table) u (rw d at k) in
          (
            row_of print_count t r ∷ later.0,
            later.1 ∙ append_assoc table.rows (row_of print_count t r ∷ []) (later.0),
            row t r (text_eq→eq d) e (later.2),
          )
    ]
  ]

  add_rows-Tabled← :
      (documents : List (Option Transcript)) (rows : List Row) (table : Table)
      → Tabled documents rows
      → (u : Table) × (add_rows print_count documents table ≡ some u)
        × (u.rows ≡ (table.rows ++ rows))
  unfolding add_rows with_row
  add_rows-Tabled← _ _ table nothing_left = (table, refl, sym (append-nil table.rows))
  add_rows-Tabled← (some t ∷ documents) (_ ∷ rows) table (row _ r d e tabled) =
      let later = add_rows-Tabled← documents rows (with_row print_count t r table) tabled in
      (
        later.0,
        rw (e, add_rows) (rw (eq→text_eq d) (later.1)),
        later.2 ∙ append_assoc table.rows (row_of print_count t r ∷ []) rows,
      )

  empty_table : Table
  empty_table = record { document = table_document; warning = ""; rows = [] }

  module _ (documents : List (Option Transcript)) where
    build_table→ :
        (u : Table)
        → build_table print_count documents ≡ some u
        → (u.rows ≢ []) × Tabled documents u.rows
    unfolding build_table empty_table
    build_table→ u h = elim (Option-cases (add_rows print_count documents empty_table)) [
      | inl n ↦ absurd (cc (rw (n, build_table) at h))
      | inr (table, e) ↦
          let kept = unless_empty→ table.rows table u refl (rw (e, build_table) at h) in
          let tabled = add_rows-Tabled→ documents empty_table table e in
          (
            kept.1,
            subst (λ l. Tabled documents l) (sym (tabled.1) ∙ ap (λ (t : Table). t.rows) (kept.0))
                (tabled.2),
          )
    ]

    build_table← :
        (rows : List Row)
        → rows ≢ []
        → Tabled documents rows
        → (u : Table) × (build_table print_count documents ≡ some u) × (u.rows ≡ rows)
    unfolding build_table empty_table
    build_table← rows n tabled =
        let loop = add_rows-Tabled← documents rows empty_table tabled in
        (
          loop.0,
          rw (loop.1, build_table) (unless_empty← (loop.0) (subst (λ l. l ≢ []) (sym (loop.2)) n)),
          loop.2,
        )

    -- A table is built exactly from a stream that has a document, and in which every document is a
    -- transcript that was reconciled; the rows of the table are theirs, in the order of the
    -- stream.
    pub build_table-Tabled :
        ((u : Table)
          → build_table print_count documents ≡ some u
          → (u.rows ≢ []) × Tabled documents u.rows)
        × ((rows : List Row)
            → rows ≢ []
            → Tabled documents rows
            → (u : Table) × (build_table print_count documents ≡ some u) × (u.rows ≡ rows))
    build_table-Tabled = (build_table→, build_table←)
