-- ===== src/Scan/Whole/Filtered.antt =====
-- What a scan of src/oracle_extension.cpp with filters pushed down answers: Oracle is a parameter, as
-- the rows that it replies for a text, and its documented reading of a SELECT with a WHERE clause.
mod Tests
use duckdb_oracle.Base.{
  map, ok-injective, Bool, Text, ◌≡◌, ℕ, List, Option, none, throw, ◌&&◌, if◌then◌else◌, Bool-cases,
  arith,
}
use duckdb_oracle.Pushdown.{OracleBindData}
use duckdb_oracle.Pushdown.Meaning.{Clause, column_of, render, selects, selects_all}
use duckdb_oracle.Pushdown.Rows.{named_row, split_filters-Splits}
use duckdb_oracle.Pushdown.Mapping.{column_mapping}
use duckdb_oracle.Scan.Describe.{LogicalTypeId, undescribed}

-- What Oracle replies for the columns `names` of a row of the base query.
abbrev pub shown :
    {D : Type 0}
    → (Option D → Option Text)
    → List Text
    → List Text
    → (ℕ → Option D)
    → List (Option Text)
shown text_of base_names names row = map (λ name. text_of (named_row base_names row name)) names

-- Bind data of a query that was described and not pushed into.
record IsFresh (enable_pushdown : Bool) (query : Text) (bind : OracleBindData LogicalTypeId)
    : Type 0 where
  names : bind.column_names ≡ bind.original_names
  base : bind.base_query ≡ query
  pushdown : bind.enable_pushdown ≡ enable_pushdown
