-- ===== src/Scan/Whole/Filtered/Tests.antt =====
-- A scan of the ages in a table, with one filter that Oracle evaluates and one that it does not.
use duckdb_oracle.Base.{
  Option, length, List, decimal, Bool, true, false, none, some, [], ◌∷◌, text_eq, if◌then◌else◌,
  ltb, leb, ◌==◌, lit, Text, pos, ℕ,
}
use duckdb_oracle.Samples.{ascii}
use duckdb_oracle.Settings.{default_settings}
use duckdb_oracle.Pushdown.{
  LogicalGet, Comparison, equal, less_than, greater_than, less_than_or_equal, greater_than_or_equal,
  Expression, constant, bound_ref, comparison, other,
}
use duckdb_oracle.Pushdown.Meaning.{Domain, Clause, compares, tests_null, render, selects}
use duckdb_oracle.Pushdown.Mapping.{column_mapping}
use duckdb_oracle.Scan.Describe.{LogicalTypeId, OciColumn, vcs, describe_columns, undescribed}
use duckdb_oracle.Scan.Start.{ScanBindData, copies, pushes, plan, OracleScanState}
use duckdb_oracle.Scan.Start.Prepared.{prepared_with, defined}
use duckdb_oracle.Scan.Fetch.{Fetched, oci_no_data}
use duckdb_oracle.Scan.Whole.Tests.{sqlt}
use duckdb_oracle.Scan.Whole.Filtered.{shown}

-- The one constant of the filters.
data Limit : Type 0 where
  eighteen : Limit

abbrev to_sql : Limit → Text
to_sql eighteen = lit "18"

abbrev compare_ages : Comparison → ℕ → ℕ → Bool
compare_ages equal a b = a == b
compare_ages less_than a b = ltb a b
compare_ages greater_than a b = ltb b a
compare_ages less_than_or_equal a b = leb a b
compare_ages greater_than_or_equal a b = leb b a

abbrev below_65 : Option ℕ → Bool
below_65 none = false
below_65 (some age) = ltb age 65

abbrev ages : Domain Limit
ages = record {
  D = ℕ;
  value_of = λ limit. some 18;
  compare = compare_ages;
  eval_other = λ e row. none;
  test_other = λ e row. below_65 (row 0);
}

abbrev columns : List OciColumn
columns =
    record { name = lit "AGE"; data_type = vcs; precision = 0; scale = pos 0; char_len = 3 } ∷ []

abbrev people : Text
people = lit "SELECT AGE FROM PEOPLE"

abbrev bound : ScanBindData
bound = record {
  connection_string = lit "scott/tiger@db";
  bind = describe_columns sqlt columns (undescribed sqlt true people);
  settings = default_settings;
  conn_handle = none;
  stmt = none;
  finished = false;
}

abbrev get : LogicalGet LogicalTypeId
get = record { column_ids = 0 ∷ []; projection_ids = []; names = []; returned_types = [] }

-- 18 <= AGE, and AGE below 65 in a form that stays.
abbrev filters : List (Expression Limit)
filters = comparison less_than_or_equal (constant eighteen) (bound_ref 0) ∷ other 0 ∷ []

abbrev conditions : List (Clause Limit)
conditions =
    compares (lit "AGE") equal eighteen
    ∷ compares (lit "AGE") less_than eighteen
    ∷ compares (lit "AGE") greater_than eighteen
    ∷ compares (lit "AGE") less_than_or_equal eighteen
    ∷ compares (lit "AGE") greater_than_or_equal eighteen
    ∷ tests_null (lit "AGE")
    ∷ []

-- Oracle knows these conditions by their texts.
abbrev reads_as : List (Clause Limit) → Text → (Text → Option ℕ) → Bool
reads_as [] text row = false
reads_as (c ∷ cs) text row =
    let later = reads_as cs text row in
    if text_eq text (render ascii to_sql c) then selects ages c row else later

abbrev person : Option ℕ → ℕ → Option ℕ
person age i = age

abbrev base_rows : List (ℕ → Option ℕ)
base_rows = person (some 17) ∷ person (some 40) ∷ person none ∷ person (some 70) ∷ []

abbrev text_of : Option ℕ → Option Text
text_of none = none
text_of (some age) = some (decimal age)

abbrev answer : List (List (Option Text))
answer = (some (lit "40") ∷ []) ∷ (some (lit "70") ∷ []) ∷ []

abbrev planned : ScanBindData
planned = plan ascii to_sql (copies ∷ pushes get filters ∷ []) bound

abbrev started : OracleScanState
started =
    let bind = planned.bind in
    record {
      conn_handle = 4;
      stmt = 7;
      prepared = some (prepared_with default_settings bind.query);
      columns = defined bind 0 (length bind.column_names);
      mapping = column_mapping bind.original_names bind.column_names (0 ∷ []) [];
    }

abbrev end : Fetched
end = record { status = oci_no_data; rows = answer }

abbrev shows : (ℕ → Option ℕ) → List (Option Text)
shows = shown text_of bound.bind.column_names planned.bind.column_names
