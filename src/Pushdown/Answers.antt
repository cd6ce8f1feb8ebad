-- ===== src/Pushdown/Answers.antt =====
-- The rows of the query that src/oracle_extension.cpp pushes, where Oracle reads the text of each
-- condition as that condition.
use duckdb_oracle.Base.{
  length, ◌≡◌, refl, ap, Bool, true, ◌&&◌, some, List, [], ◌∷◌, map, arith, ℕ, Option, get_elem?,
  Text, if◌then◌else◌, All, ◌∙◌,
}
use duckdb_oracle.Duckdb.{Strings}
use duckdb_oracle.Pushdown.{
  Expression, split_filters, OracleBindData, LogicalGet, pushdown_complex_filter, push_into,
  pushed_query,
}
use duckdb_oracle.Pushdown.Meaning.{
  Domain, DomainLaws, Clause, column_of, render, keeps_all, selects, selects_all, seen, IsBound,
  IsTableOrder,
}
use duckdb_oracle.Pushdown.Rows.{AreDistinct, named_row, named_row-SameRow, split_filters-Splits}

-- The rows that pass a test, in their order.
abbrev pub select_rows {ℓ} : {A : Type ℓ} → (A → Bool) → List A → List A
select_rows test [] = []
select_rows test (row ∷ rows) =
    let rest = select_rows test rows in if test row then row ∷ rest else rest

pub select_rows-again {ℓ} :
    {A : Type ℓ} (first second both : A → Bool) (rows : List A)
    → ((row : A) → (first row && second row) ≡ both row)
    → select_rows second (select_rows first rows) ≡ select_rows both rows
select_rows-again first second both [] h = refl
select_rows-again first second both (row ∷ rows) h =
    ground (arith, select_rows-again first second both rows h, h row)

-- A row that meets each clause of a WHERE clause, as Oracle reads its text.
abbrev pub meets {ℓ} : {R : Type ℓ} → (Text → R → Bool) → List Text → R → Bool
meets reads [] row = true
meets reads (clause ∷ clauses) row = reads clause row && meets reads clauses row

module _ {V : Type 0} (str : Strings) (to_sql : V → Text) where
  pub pushdown-pushed :
      {T : Type 0} (bind : OracleBindData T) (get : LogicalGet T) (es : List (Expression V))
      → bind.enable_pushdown ≡ true
      → let (bind', get', remaining) = pushdown_complex_filter str to_sql bind get es in
        let (clauses, rest) = split_filters str to_sql bind.column_names es in
        (bind'.query ≡ pushed_query str bind'.column_names bind.base_query clauses)
        × (bind'.original_names ≡ bind.original_names)
        × (remaining ≡ rest)
  unfolding pushdown_complex_filter push_into
  pushdown-pushed bind get es on = rw (on, pushdown_complex_filter) (refl, refl, refl)

  module _ (dom : Domain V) where
    open dom use {D}

    -- On the columns `names`, Oracle reads the text of a condition as that condition.
    abbrev pub ReadsClauses : List Text → (Text → (Text → Option D) → Bool) → Type 0
    ReadsClauses names reads =
        (condition : Clause V) (i : ℕ) (named : Text → Option D)
        → get_elem? names i ≡ some (column_of condition)
        → reads (render str to_sql condition) named ≡ selects dom condition named

    meets-selects_all :
        (names : List Text) (reads : Text → (Text → Option D) → Bool) (conditions : List (Clause V))
        (named : Text → Option D)
        → ReadsClauses names reads
        → All (λ condition. (i : ℕ) × (get_elem? names i ≡ some (column_of condition))) conditions
        → meets reads (map (render str to_sql) conditions) named ≡ selects_all dom conditions named
    unfolding selects_all
    meets-selects_all names reads [] named law on = refl
    meets-selects_all names reads (c ∷ cs) named law ((i, at), on) =
        cc (law c i named at, meets-selects_all names reads cs named law on)

    -- In table order and for filters that are bound, the rows that meet the pushed clauses and pass
    -- the filters that remain are those that pass all.
    pub select_rows-pushed :
        DomainLaws dom
        → (column_ids : List ℕ) (names : List Text) (es : List (Expression V))
          (reads : Text → (Text → Option D) → Bool) (rows : List (ℕ → Option D))
        → AreDistinct names
        → IsTableOrder column_ids
        → All (IsBound (length column_ids)) es
        → ReadsClauses names reads
        → let (clauses, remaining) = split_filters str to_sql names es in
          select_rows
            (λ row. keeps_all dom remaining (seen column_ids row))
            (select_rows (λ row. meets reads clauses (named_row names row)) rows)
          ≡ select_rows (λ row. keeps_all dom es (seen column_ids row)) rows
    select_rows-pushed laws column_ids names es reads rows distinct order bound law =
        let s = split_filters-Splits dom laws str to_sql (length column_ids) names es in
        let kept = keeps_all dom (split_filters str to_sql names es).1 in
        select_rows-again _ _ _ rows (λ row.
          let named = named_row names row in
          let seen_row = seen column_ids row in
          ap (λ texts. meets reads texts named && kept seen_row) s.texts
          ∙ ap (λ met. met && kept seen_row)
              (meets-selects_all names reads s.conditions named law s.on_columns)
          ∙ s.together bound seen_row named
              (named_row-SameRow dom column_ids names row order distinct))
