-- ===== src/Pushdown.antt =====
-- `OraclePushdownComplexFilter` of src/oracle_extension.cpp with its helpers: filters that Oracle can
-- evaluate become a WHERE clause, and a projection becomes the SELECT list.
-- DuckDB's expressions are modelled by what the code inspects of them: an operator node is one of
-- the five comparisons, IS NULL over its children, or anything else.
mod Tests
pub mod Meaning
pub mod Split
pub mod Rows
pub mod Answers
pub mod Position
pub mod Mapping
pub mod Aligned
use duckdb_oracle.Base.{
  ℕ, ◌-◌, Bool, true, false, Option, none, some, List, [], ◌∷◌, ◌++◌, map, ltb, ◌==◌, if◌then◌else◌,
  length, get_elem?, Text, lit, u64_mod,
}
use duckdb_oracle.Duckdb.{Strings}

pub data Comparison : Type 0 where
  equal less_than greater_than less_than_or_equal greater_than_or_equal : Comparison

-- `other k` stands for a node of any other type; IS NULL with a number of children that is not one
-- is such a node for this code.
pub data Expression (V : Type 0) : Type 0 where
  constant : V → Expression V
  bound_ref : ℕ → Expression V
  bound_column_ref : ℕ → Expression V
  comparison : Comparison → Expression V → Expression V → Expression V
  is_null : Expression V → Expression V
  other : ℕ → Expression V

abbrev invalid_index : ℕ
invalid_index = u64_mod - 1

unfoldable pub flip : Comparison → Comparison
flip equal = equal
flip less_than = greater_than
flip greater_than = less_than
flip less_than_or_equal = greater_than_or_equal
flip greater_than_or_equal = less_than_or_equal

unfoldable pub operator_sql : Comparison → Text
operator_sql equal = lit "="
operator_sql less_than = lit "<"
operator_sql greater_than = lit ">"
operator_sql less_than_or_equal = lit "<="
operator_sql greater_than_or_equal = lit ">="

module _ {V : Type 0} where
  unfoldable pub column_index : Expression V → Option ℕ
  column_index (bound_ref i) = some i
  column_index (bound_column_ref i) = some i
  column_index e = none

  unfoldable pub constant_of : Expression V → Option V
  constant_of (constant c) = some c
  constant_of e = none

  -- `column op constant`, or `constant op column` turned round.
  unfoldable pub comparison_parts :
      Comparison → Option ℕ → Option V → Option ℕ → Option V → Option (Comparison × ℕ × V)
  comparison_parts op (some i) left_const right_col (some c) = some (op, i, c)
  comparison_parts op left_col (some c) (some i) right_const = some (flip op, i, c)
  comparison_parts op left_col left_const right_col right_const = none

-- `col_idx == INVALID_INDEX || col_idx >= names.size()` fails.
unfoldable pub column_name : List Text → ℕ → Option Text
column_name names i = if i == invalid_index then none else get_elem? names i

-- What the code reads and writes of `OracleBindData`.
pub record OracleBindData (T : Type 0) : Type 0 where
  pub enable_pushdown : Bool
  pub base_query : Text
  pub query : Text
  pub column_names : List Text
  pub original_names : List Text
  pub original_types : List T
  pub oci_types : List ℕ
  pub oci_sizes : List ℕ

-- `column_ids` are the columns of the table that the scan is asked for; a binding of a filter is a
-- position in them, which the code does not look at. `get.names` and `get.returned_types` are set
-- only under a projection.
pub record LogicalGet (T : Type 0) : Type 0 where
  pub column_ids : List ℕ
  pub projection_ids : List ℕ
  pub names : List Text
  pub returned_types : List T

-- `projected.push_back(list[idx])` for the ids in range of `original_names`; the lists are as long as
-- that, so no id is skipped for another reason.
pub project {ℓ} : {A : Type ℓ} → ℕ → List A → List ℕ → List A
project n list [] = []
project n list (idx ∷ ids) =
    let rest = project n list ids in
    if ltb idx n then elim (get_elem? list idx) [ none ↦ rest | some a ↦ a ∷ rest ] else rest

abbrev is_empty {ℓ} : {A : Type ℓ} → List A → Bool
is_empty [] = true
is_empty (x ∷ xs) = false

module _ (str : Strings) where
  open str use {join, write_quoted}

  pub where_sql : List Text → Text
  where_sql [] = []
  where_sql (clause ∷ clauses) = lit " WHERE " ++ join (clause ∷ clauses) (lit " AND ")

  pub pushed_query : List Text → Text → List Text → Text
  pushed_query names base clauses =
      lit "SELECT "
      ++ (join (map write_quoted names) (lit ", ")
          ++ (lit " FROM (" ++ (base ++ (lit ")" ++ where_sql clauses))))

module _ (str : Strings) {V : Type 0} (to_sql : V → Text) where
  open str use {write_quoted}

  abbrev comparison_clause : List Text → Option (Comparison × ℕ × V) → Option Text
  comparison_clause names none = none
  comparison_clause names (some (op, i, c)) = elim (column_name names i) [
    | none ↦ none
    | some name ↦
        some (write_quoted name ++ (lit " " ++ (operator_sql op ++ (lit " " ++ to_sql c))))
  ]

  unfoldable pub try_extract_comparison : List Text → Expression V → Option Text
  try_extract_comparison names (comparison op left right) = comparison_clause names (
      comparison_parts op (column_index left) (constant_of left) (column_index right)
        (constant_of right))
  try_extract_comparison names e = none

  abbrev is_null_clause : List Text → Option ℕ → Option Text
  is_null_clause names none = none
  is_null_clause names (some i) = elim (column_name names i) [
    | none ↦ none
    | some name ↦ some (write_quoted name ++ lit " IS NULL")
  ]

  unfoldable pub try_extract_is_null : List Text → Expression V → Option Text
  try_extract_is_null names (is_null child) = is_null_clause names (column_index child)
  try_extract_is_null names e = none

  unfoldable pub try_extract : List Text → Expression V → Option Text
  try_extract names e = elim (try_extract_comparison names e) [
    | some clause ↦ some clause
    | none ↦ try_extract_is_null names e
  ]

  -- The loop over the filters: the clauses, and the filters that remain.
  unfoldable pub split_filters : List Text → List (Expression V) → List Text × List (Expression V)
  split_filters names [] = ([], [])
  split_filters names (e ∷ es) =
      let (clauses, remaining) = split_filters names es in
      elim (try_extract names e) [
        | some clause ↦ (clause ∷ clauses, remaining)
        | none ↦ (clauses, e ∷ remaining)
      ]

  unfoldable pub push_into :
      {T : Type 0}
      → OracleBindData T
      → LogicalGet T
      → List Text × List (Expression V)
      → OracleBindData T × LogicalGet T × List (Expression V)
  push_into bind get (clauses, remaining) =
      let n = length bind.original_names in
      let ids = get.projection_ids in
      let whole = is_empty ids in
      let names = if whole then bind.original_names else project n bind.original_names ids in
      let types = if whole then bind.original_types else project n bind.original_types ids in
      (
        record bind {
          column_names = names;
          oci_types = if whole then bind.oci_types else project n bind.oci_types ids;
          oci_sizes = if whole then bind.oci_sizes else project n bind.oci_sizes ids;
          query = pushed_query str names bind.base_query clauses;
        },
        record get {
          names = if whole then get.names else names;
          returned_types = if whole then get.returned_types else types;
        },
        remaining,
      )

  unfoldable pub pushdown_complex_filter :
      {T : Type 0}
      → OracleBindData T
      → LogicalGet T
      → List (Expression V)
      → OracleBindData T × LogicalGet T × List (Expression V)
  pushdown_complex_filter bind get expressions =
      if bind.enable_pushdown
      then push_into bind get (split_filters bind.column_names expressions)
      else (bind, get, expressions)
