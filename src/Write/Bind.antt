-- ===== src/Write/Bind.antt =====
-- `OracleWriteBind` of src/storage/oracle_write.cpp and `OracleWriteBindData` of
-- src/include/oracle_write.hpp: the options of COPY TO, and the names and types that the columns have
-- in Oracle.
-- An option is its key and the text of its first value. `fetch` is a connection and a query: the rows,
-- or nothing where it throws.
pub mod Tables
pub mod Exact
pub mod Plan
mod Tests
use duckdb_oracle.Base.{
  ℕ, zero, suc, ◌+◌, ◌-◌, ◌*◌, ◌/◌, ◌%◌, ◌^◌, ◌≤◌, ◌<◌, ◌≡◌, ◌≢◌, ◌↔◌, ◌⊎◌, inl, inr, refl, sym, ap,
  ◌∙◌, subst, Bool, true, false, not, ◌&&◌, ◌||◌, Option, none, some, List, [], ◌∷◌, ◌++◌, map,
  arith, ltb, leb, ◌==◌, if◌then◌else◌, ==_refl, ==_iff, Bool-cases, Option-cases, Result, ok,
  throw, ◌>>=◌, ◌>>◌, throw_if, >>=-eq-ok, ok-injective, length, get_elem?, take, drop, replicate,
  length-append, take-append_self, drop-append_self, length-replicate, length-map, All, Text, lit,
  text_eq, text_eq_iff, text_eq_refl, empty, has, index, find, substr, substr_from, decimal, ℤ, pos,
  negsuc, to_idx, is_le_zero, is_gt, u64_mod, String,
}
use duckdb_oracle.Duckdb.{Strings}

pub data BindError : Type 0 where
  unrecognized_option : Text → BindError
  no_table_name : BindError

pub record OracleWriteBindData : Type 0 where
  pub table_name : Text
  pub connection_string : Text
  pub schema_name : Text
  pub object_name : Text
  pub column_names : List Text
  pub oracle_types : List Text

-- What the loop over the rows of `all_tab_columns` keeps.
pub record TableScan : Type 0 where
  pub best_table_name : Text
  pub best_owner : Text
  pub found_exact : Bool
  pub col_type_map : Text → Option Text
  pub col_name_map : Text → Option Text

abbrev pub empty_map : Text → Option Text
empty_map key = none

abbrev pub put : (Text → Option Text) → Text → Text → Text → Option Text
put m key t other = if text_eq key other then some t else m other

abbrev pub new_scan : TableScan
new_scan = record {
  best_table_name = [];
  best_owner = [];
  found_exact = false;
  col_type_map = empty_map;
  col_name_map = empty_map;
}

-- `if (best_table_name.empty())`
first_table : Text → Text → TableScan → TableScan
first_table owner table scan =
    if empty scan.best_table_name
    then record scan { best_table_name = table; best_owner = owner }
    else scan

-- From `if (table == result->object_name)` on.
keep_column : Strings → Text → Text → Text → Text → TableScan → TableScan
keep_column str object_name table col type scan =
    let exact = if text_eq table object_name then true else scan.found_exact in
    if text_eq table scan.best_table_name
    then record scan {
      found_exact = exact;
      col_type_map = put scan.col_type_map col type;
      col_name_map = put scan.col_name_map (str.upper col) col;
    }
    else record scan { found_exact = exact }

-- `if (table != best_table_name)`: the exact name replaces another table, any other table is passed
-- over once the exact one is found.
other_table : Strings → Text → Text → Text → Text → Text → TableScan → TableScan
unfolding keep_column
other_table str object_name owner table col type scan =
    if text_eq table object_name && not scan.found_exact
    then keep_column str object_name table col type (record scan {
      best_table_name = table;
      best_owner = owner;
      col_type_map = empty_map;
      col_name_map = empty_map;
      found_exact = true;
    })
    else if scan.found_exact
    then scan
    else keep_column str object_name table col type scan

pub scan_row : Strings → Text → TableScan → List Text → TableScan
unfolding first_table keep_column other_table
scan_row str object_name scan (owner ∷ table ∷ col ∷ type ∷ more) =
    let s = first_table owner table scan in
    if text_eq table s.best_table_name
    then keep_column str object_name table col type s
    else other_table str object_name owner table col type s
scan_row str object_name scan row = scan

pub scan_rows : Strings → Text → TableScan → List (List Text) → TableScan
scan_rows str object_name scan [] = scan
scan_rows str object_name scan (row ∷ rows) =
    scan_rows str object_name (scan_row str object_name scan row) rows

-- The name that Oracle has for a column of DuckDB; an empty one is none.
pub actual_name : Strings → TableScan → Text → Text
actual_name str scan name = elim (scan.col_name_map (str.upper name)) [
  | some actual ↦ actual
  | none ↦ elim (scan.col_type_map name) [ some type ↦ name | none ↦ [] ]
]

abbrev default_type : Text
default_type = lit "VARCHAR2"

pub bound_name : Strings → TableScan → Text → Text
unfolding actual_name
bound_name str scan name =
    let actual = actual_name str scan name in if empty actual then name else actual

pub bound_type : Strings → TableScan → Text → Text
unfolding actual_name
bound_type str scan name =
    let actual = actual_name str scan name in
    if empty actual
    then default_type
    else elim (scan.col_type_map actual) [ some type ↦ type | none ↦ default_type ]

pub metadata_query : Text → Text → Text
metadata_query schema_name object_name =
    lit "SELECT owner, table_name, column_name, data_type FROM all_tab_columns WHERE "
    ++ ((if empty schema_name
          then lit "owner = SYS_CONTEXT('USERENV', 'CURRENT_SCHEMA')"
          else lit "owner = upper('" ++ (schema_name ++ lit "')"))
        ++ (lit " AND (table_name = '"
            ++ (object_name
                ++ (lit "' OR table_name = upper('"
                    ++ (object_name ++ lit "')) ORDER BY owner, table_name, column_id")))))

-- What the scan found replaces the defaults.
resolve : Strings → List Text → OracleWriteBindData → TableScan → OracleWriteBindData
resolve str names result scan =
    let known = not (empty scan.best_table_name) in
    record result {
      object_name = if known then scan.best_table_name else result.object_name;
      schema_name =
          if known && empty result.schema_name then scan.best_owner else result.schema_name;
      column_names = map (bound_name str scan) names;
      oracle_types = map (bound_type str scan) names;
    }

pub introspect :
    Strings
    → (Text → Text → Option (List (List Text)))
    → List Text
    → OracleWriteBindData
    → OracleWriteBindData
unfolding resolve
introspect str fetch names result =
    if empty result.connection_string
    then result
    else elim (fetch result.connection_string
        (metadata_query result.schema_name result.object_name)) [
          | none ↦ result
          | some rows ↦ resolve str names result (scan_rows str result.object_name new_scan rows)
        ]

-- The keys of the map differ in more than case, so the first match is the only one.
find_option : Strings → List (Text × Text) → Text → Option Text
find_option str [] key = none
find_option str ((name, val) ∷ options) key =
    let rest = find_option str options key in
    if text_eq (str.lower name) key then some val else rest

check_options : Strings → List (Text × Text) → Result BindError (Unit {0})
check_options str [] = ok tt
check_options str ((name, val) ∷ options) =
    let rest = check_options str options in
    let key = str.lower name in
    if text_eq key (lit "connection_string") || text_eq key (lit "table")
    then rest
    else throw (unrecognized_option name)

-- `StringUtil::Split(target_table, ".")` into two parts names a schema.
split_table : List Text → Text → Text × Text
split_table (schema ∷ object ∷ []) target = (schema, object)
split_table parts target = ([], target)

abbrev or_text : Option Text → Text → Text
or_text none d = d
or_text (some t) d = t

pub oracle_write_bind :
    Strings
    → (Text → Text → Option (List (List Text)))
    → Text
    → List (Text × Text)
    → List Text
    → Result BindError OracleWriteBindData
unfolding find_option check_options split_table
oracle_write_bind str fetch file_path options names = do
  check_options str options
  let target = or_text (find_option str options (lit "table")) file_path
  throw_if (empty target) no_table_name
  let (schema, object) = split_table (str.split target b'.') target
  ok (
      introspect str fetch names (record {
        table_name = target;
        connection_string = or_text (find_option str options (lit "connection_string")) [];
        schema_name = schema;
        object_name = object;
        column_names = names;
        oracle_types = map (λ _. default_type) names;
      }))
