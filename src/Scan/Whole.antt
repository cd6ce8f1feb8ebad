-- ===== src/Scan/Whole.antt =====
-- A scan of src/oracle_extension.cpp from its bind data to its rows: `OracleBindInternal`, the planner,
-- `OracleInitGlobal`, and the calls of `OracleQueryFunction` until a chunk is empty.
mod Tests
pub mod Filtered
use duckdb_oracle.Base.{
  subst, ap, ◌∙◌, map, true, length, ok-injective, All, get_elem?, sym, Bool, Text, ◌≡◌, ℕ, List,
  Option, none, some, ok, throw, [], ◌∷◌, refl,
}
use duckdb_oracle.Duckdb.{Strings}
use duckdb_oracle.Settings.{OracleSettings}
use duckdb_oracle.Pushdown.Mapping.{IsFetched, column_mapping}
use duckdb_oracle.Scan.Describe.{LogicalTypeId, OciType, OciColumn}
use duckdb_oracle.Scan.Start.{
  InitCall, InitError, ScanBindData, bind_scan, PlanStep, plan, Statements, OracleScanState,
  init_global,
}
use duckdb_oracle.Scan.Start.Prepared.{
  init_global-prepares, or_failed, prepared_with, first_failed, start_calls, defined,
}
use duckdb_oracle.Scan.Fetch.{Decoders, Cell, Fetched, decode_row, drain, new_scan_state}
use duckdb_oracle.Scan.Fetch.Delivery.{Streams, drain-Streams}
use duckdb_oracle.Scan.Fetch.Named.{read_as, decode_row-name}

-- A start that did not fail.
or_failed-ok : {A : Type 0} (a b : A) (failed : Option InitCall) → or_failed a failed ≡ ok b → b ≡ a
or_failed-ok a b none e = sym (ok-injective {E = InitError} e)
or_failed-ok a b (some call) e = cc

-- What a start that did not fail gives to the calls that follow.
pub init_global-started :
    (sqlt : OciType → ℕ) (describe : Text → Option (List OciColumn)) (settings : OracleSettings)
    (connection_string query : Text) (b : ScanBindData) {V : Type 0} (str : Strings)
    (to_sql : V → Text) (steps : List (PlanStep V)) (acquires : Text → Option ℕ)
    (succeeds : InitCall → Bool) (column_ids projection_ids : List ℕ) (s : Statements)
    (conn_handle : ℕ) (started : OracleScanState)
    → bind_scan sqlt describe settings connection_string query ≡ some b
    → acquires connection_string ≡ some conn_handle
    → let bind = (plan str to_sql steps b).bind in
      (init_global succeeds acquires (plan str to_sql steps b) column_ids projection_ids s).1
        ≡ ok started
      → (started.prepared ≡ some (prepared_with settings bind.query))
        × (started.mapping
            ≡ column_mapping bind.original_names bind.column_names column_ids projection_ids)
init_global-started sqlt describe settings connection_string query b str to_sql steps acquires
      succeeds column_ids projection_ids s conn_handle started bound acquired starts =
    let (told, live) =
      init_global-prepares sqlt describe settings connection_string query b str to_sql steps
        acquires succeeds column_ids projection_ids s conn_handle bound acquired in
    let is = or_failed-ok _ started _ (sym told ∙ starts) in
    (ap (λ (x : OracleScanState). x.prepared) is, ap (λ (x : OracleScanState). x.mapping) is)

module _ {ℓ} {X : Type ℓ} (str : Strings) (d : Decoders X) where
  -- In the row, column `n` of the chunk is what the text or the NULL of a column of that name becomes.
  abbrev pub ShowsColumn :
      List Text
      → List ℕ
      → List LogicalTypeId
      → ℕ
      → Text
      → LogicalTypeId
      → List (Option Text)
      → Type ℓ
  ShowsColumn column_names mapping types n name type row =
      (j : ℕ) × (text : Option Text) × (get_elem? column_names j ≡ some name)
      × (get_elem? row j ≡ some text)
      × (get_elem? (decode_row str d mapping 0 types row) n ≡ some (read_as str d type text))

  rows-ShowsColumn :
      (original_names column_names : List Text) (column_ids projection_ids : List ℕ)
      (types : List LogicalTypeId) (rows : List (List (Option Text))) (n col_idx : ℕ) (name : Text)
      (type : LogicalTypeId)
      → get_elem? column_ids n ≡ some col_idx
      → IsFetched original_names column_names col_idx name
      → get_elem? types n ≡ some type
      → All (λ row. length row ≡ length column_names) rows
      → All
          (ShowsColumn column_names
            (column_mapping original_names column_names column_ids projection_ids)
            types
            n
            name
            type)
          rows
  rows-ShowsColumn original_names column_names column_ids projection_ids types [] n col_idx name
        type asked fetched type_is whole =
      tt
  rows-ShowsColumn original_names column_names column_ids projection_ids types (row ∷ rows) n
        col_idx name type asked fetched type_is (one, whole) =
      (
        decode_row-name str d original_names column_names column_ids projection_ids types row n
            col_idx name type asked fetched type_is one,
        rows-ShowsColumn original_names column_names column_ids projection_ids types rows n col_idx
            name type asked fetched type_is whole,
      )

  -- A query was described, the planner has copied its bind data and pushed into it in any order, and a
  -- scan of it has started. The statement that it executes was prepared with the query as the last
  -- push has left it. Where the cursor can be executed and streams these rows, with one buffer for
  -- each fetched column: the scan ends after the last reply and gives each row once, in order,
  -- decoded; and where output column `n` was asked for as column `col_idx` of the table, which was
  -- described under `name`, and a column of that name is fetched, the `n`-th entry of every row is
  -- what the text or the NULL of a column of that name becomes.
  pub scan-delivers :
      (sqlt : OciType → ℕ) (describe : Text → Option (List OciColumn)) (settings : OracleSettings)
      (connection_string query : Text) (b : ScanBindData) {V : Type 0} (to_sql : V → Text)
      (steps : List (PlanStep V)) (acquires : Text → Option ℕ) (succeeds : InitCall → Bool)
      (column_ids projection_ids : List ℕ) (s : Statements) (conn_handle : ℕ)
      (started : OracleScanState) (fs : List Fetched) (rows : List (List (Option Text)))
      (types : List LogicalTypeId) (n col_idx : ℕ) (name : Text) (type : LogicalTypeId)
      → bind_scan sqlt describe settings connection_string query ≡ some b
      → acquires connection_string ≡ some conn_handle
      → let bind = (plan str to_sql steps b).bind in
        (init_global succeeds acquires (plan str to_sql steps b) column_ids projection_ids s).1
          ≡ ok started
        → Streams fs rows
        → All (λ row. length row ≡ length bind.column_names) rows
        → get_elem? column_ids n ≡ some col_idx
        → IsFetched bind.original_names bind.column_names col_idx name
        → get_elem? types n ≡ some type
        → (started.prepared ≡ some (prepared_with settings bind.query))
          × (drain str d started.mapping types true new_scan_state fs
              ≡ some (ok (map (decode_row str d started.mapping 0 types) rows)))
          × All (ShowsColumn bind.column_names started.mapping types n name type) rows
  scan-delivers sqlt describe settings connection_string query b to_sql steps acquires succeeds
        column_ids projection_ids s conn_handle started fs rows types n col_idx name type bound
        acquired starts streams whole asked fetched type_is =
      let bind = (plan str to_sql steps b).bind in
      let (prepared, mapped) =
        init_global-started sqlt describe settings connection_string query b str to_sql steps
          acquires succeeds column_ids projection_ids s conn_handle started bound acquired starts in
      (
        prepared,
        drain-Streams str d started.mapping types fs rows streams,
        subst (λ mapping. All (ShowsColumn bind.column_names mapping types n name type) rows)
            (sym mapped)
            (rows-ShowsColumn bind.original_names bind.column_names column_ids projection_ids types
              rows n col_idx name type asked fetched type_is whole),
      )
