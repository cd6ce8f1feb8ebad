-- ===== src/Pushdown/Tests.antt =====
-- A scan with filters and a projection, as src/oracle_extension.cpp pushes them down.
use duckdb_oracle.Base.{
  ℕ, ◌≡◌, refl, Bool, true, none, some, List, [], ◌∷◌, ltb, leb, ◌==◌, get_elem?, Text, lit,
}
use duckdb_oracle.Pushdown.{
  OracleBindData, LogicalGet, Expression, Comparison, equal, less_than, greater_than,
  less_than_or_equal, greater_than_or_equal, constant, bound_ref, bound_column_ref, comparison,
  is_null, other,
}
use duckdb_oracle.Pushdown.Meaning.{Domain}
use duckdb_oracle.Pushdown.Mapping.{column_mapping, column_mapping-name}

-- Numbers, compared as numbers; the nodes that the code does not look into are true.
abbrev compare_numbers : Comparison → ℕ → ℕ → Bool
compare_numbers equal a b = a == b
compare_numbers less_than a b = ltb a b
compare_numbers greater_than a b = ltb b a
compare_numbers less_than_or_equal a b = leb a b
compare_numbers greater_than_or_equal a b = leb b a

abbrev numbers : Domain ℕ
numbers = record {
  D = ℕ;
  value_of = λ n. some n;
  compare = compare_numbers;
  eval_other = λ e row. none;
  test_other = λ e row. true;
}

abbrev names : List Text
names = lit "ID" ∷ lit "AGE" ∷ lit "NAME" ∷ []

abbrev bind : OracleBindData ℕ
bind = record {
  enable_pushdown = true;
  base_query = lit "SELECT * FROM PEOPLE";
  query = lit "SELECT * FROM PEOPLE";
  column_names = names;
  original_names = names;
  original_types = 0 ∷ 1 ∷ 2 ∷ [];
  oci_types = 2 ∷ 2 ∷ 1 ∷ [];
  oci_sizes = 22 ∷ 22 ∷ 100 ∷ [];
}

abbrev get : LogicalGet ℕ
get = record {
  column_ids = 0 ∷ 1 ∷ 2 ∷ [];
  projection_ids = 2 ∷ 0 ∷ [];
  names = [];
  returned_types = [];
}

-- 18 <= AGE, NAME IS NULL, and a filter that stays.
abbrev filters : List (Expression ℕ)
filters =
    comparison less_than_or_equal (constant 18) (bound_ref 1)
    ∷ is_null (bound_column_ref 2)
    ∷ other 0
    ∷ []

-- The scan is asked for NAME and then ID: the filter on ID, the second of them, is pushed as one on AGE.
abbrev name_and_id : LogicalGet ℕ
name_and_id = record {
  column_ids = 2 ∷ 0 ∷ [];
  projection_ids = [];
  names = [];
  returned_types = [];
}

-- The query fetches NAME and ID; the first column of the output is ID.
named_buffer :
    (j : ℕ) × (get_elem?
        (column_mapping names (lit "NAME" ∷ lit "ID" ∷ []) (0 ∷ 2 ∷ []) (2 ∷ 0 ∷ []))
        0
      ≡ some j)
    × (get_elem? (lit "NAME" ∷ lit "ID" ∷ []) j ≡ some (lit "ID"))
named_buffer =
    column_mapping-name names (lit "NAME" ∷ lit "ID" ∷ []) (0 ∷ 2 ∷ []) (2 ∷ 0 ∷ []) 0 0 (lit "ID")
      refl (refl, (1, refl))
