-- ===== src/Scan/Start.antt =====
-- The bind data of src/include/oracle_table_function.hpp from `OracleBindInternal` on, its copies, and
-- how `OracleInitGlobal` of src/oracle_extension.cpp makes a scan of it: the session, the statement
-- handle with its prefetch attributes, and the defines.
-- Which sessions the pool gives and which calls of OCI succeed are arguments. The call timeout of 30
-- seconds is left out.
pub mod Prepared
mod Tests
use duckdb_oracle.Base.{
  not, ◌>>◌, ◌>>=◌, throw_if, ltb, length, ◌+◌, Result, ◌-◌, if◌then◌else◌, ◌&&◌, ◌^◌, Option,
  text_eq, List, ◌%◌, ℕ, Text, Bool, none, some, true, false, ok, throw, zero, suc, [], ◌∷◌,
}
use duckdb_oracle.Duckdb.{Strings}
use duckdb_oracle.Settings.{OracleSettings}
use duckdb_oracle.Pushdown.{OracleBindData, LogicalGet, Expression, pushdown_complex_filter}
use duckdb_oracle.Pushdown.Mapping.{column_mapping}
use duckdb_oracle.Scan.Describe.{LogicalTypeId, OciType, OciColumn, oracle_bind_internal}
use duckdb_oracle.Scan.Define.{DefineColumn, define_column}

-- The calls whose failure throws.
pub data InitCall : Type 0 where
  alloc_statement prepare : InitCall
  define_column_at define_array_at : ℕ → InitCall

pub data InitError : Type 0 where
  no_session : InitError
  init_failed : InitCall → InitError

-- `conn_handle` and `stmt` are numbers of a handle and of a statement.
pub record ScanBindData : Type 0 where
  pub connection_string : Text
  pub bind : OracleBindData LogicalTypeId
  pub settings : OracleSettings
  pub conn_handle : Option ℕ
  pub stmt : Option ℕ
  pub finished : Bool

-- `OracleBindInternal` on a session; it resets both handles at its end.
unfoldable pub bind_scan :
    (OciType → ℕ)
    → (Text → Option (List OciColumn))
    → OracleSettings
    → Text
    → Text
    → Option ScanBindData
bind_scan sqlt describe settings connection_string query =
    elim (oracle_bind_internal sqlt describe settings.enable_pushdown query) [
      | none ↦ none
      | some bind ↦ some (record {
        connection_string = connection_string;
        bind = bind;
        settings = settings;
        conn_handle = none;
        stmt = none;
        finished = false;
      })
    ]

-- `OracleBindData::Copy`: the handle of the session is not copied.
unfoldable pub copy_bind_data : ScanBindData → ScanBindData
copy_bind_data b = record b { conn_handle = none; finished = false }

-- `OracleBindData::Equals`
pub equals : ScanBindData → ScanBindData → Bool
equals b other =
    text_eq b.bind.query other.bind.query && text_eq b.connection_string other.connection_string

-- What the planner does with bind data.
pub data PlanStep (V : Type 0) : Type 0 where
  copies : PlanStep V
  pushes : LogicalGet LogicalTypeId → List (Expression V) → PlanStep V

unfoldable pub plan :
    {V : Type 0} → Strings → (V → Text) → List (PlanStep V) → ScanBindData → ScanBindData
unfolding copy_bind_data
plan str to_sql [] b = b
plan str to_sql (copies ∷ steps) b = plan str to_sql steps (copy_bind_data b)
plan str to_sql (pushes get filters ∷ steps) b =
    plan str to_sql steps
      (record b { bind = (pushdown_complex_filter str to_sql b.bind get filters).0 })

-- The statement handles that are allocated, and the number of the next one.
pub record Statements : Type 0 where
  pub live : ℕ
  pub next : ℕ

-- The statement of a scan: the text that was prepared on it and its attributes, where the scan has
-- allocated it; `none` is the statement of the bind data.
pub record Preparation : Type 0 where
  pub text : Text
  pub prefetch_rows : ℕ
  pub prefetch_memory : Option ℕ

pub record OracleScanState : Type 0 where
  pub conn_handle : ℕ
  pub stmt : ℕ
  pub prepared : Option Preparation
  pub columns : List DefineColumn
  pub mapping : List ℕ

-- The attributes are `ub4`.
abbrev pub preparation : ScanBindData → Preparation
preparation b = record {
  text = b.bind.query;
  prefetch_rows = b.settings.prefetch_rows % 2 ^ 32;
  prefetch_memory =
      if ltb 0 b.settings.prefetch_memory then some (b.settings.prefetch_memory % 2 ^ 32) else none;
}

-- `if (!state->conn_handle) state->conn_handle = Acquire(...)`
abbrev pub session_of : (Text → Option ℕ) → ScanBindData → Option ℕ
session_of acquires b = elim b.conn_handle [
  | none ↦ acquires b.connection_string
  | some handle ↦ some handle
]

-- A scan that fails frees the statement that it has allocated.
abbrev pub drop_statement : Option Preparation → Statements → Statements
drop_statement none s = s
drop_statement (some p) s = record s { live = s.live - 1 }

module _ (succeeds : InitCall → Bool) where
  -- A statement of the scan's own. A handle on which the prepare fails is freed with the scan state.
  unfoldable pub prepare_again :
      ScanBindData → Statements → Statements × Result InitError (ℕ × Option Preparation)
  prepare_again b s =
      if succeeds alloc_statement
      then (if succeeds prepare
          then (record { live = s.live + 1; next = s.next + 1 }, ok (s.next, some (preparation b)))
          else (record s { next = s.next + 1 }, throw (init_failed prepare)))
      else (s, throw (init_failed alloc_statement))

  -- `need_reprepare`: the query has changed, or the bind data has no statement.
  unfoldable pub scan_statement :
      ScanBindData → Statements → Statements × Result InitError (ℕ × Option Preparation)
  unfolding prepare_again
  scan_statement b s = elim b.stmt [
    | none ↦ prepare_again b s
    | some stmt ↦
        if text_eq b.bind.query b.bind.base_query then (s, ok (stmt, none)) else prepare_again b s
  ]

  -- The define loop, from column `col_idx` on, over `n` columns.
  unfoldable pub define_columns :
      OracleBindData LogicalTypeId → ℕ → ℕ → Result InitError (List DefineColumn)
  define_columns bind col_idx zero = ok []
  define_columns bind col_idx (suc n) = do
    throw_if (not (succeeds (define_column_at col_idx))) (init_failed (define_column_at col_idx))
    throw_if (not (succeeds (define_array_at col_idx))) (init_failed (define_array_at col_idx))
    rest ← define_columns bind (suc col_idx) n
    ok (define_column bind col_idx ∷ rest)

  unfoldable pub with_defines :
      ScanBindData
      → ℕ
      → List ℕ
      → Statements × Result InitError (ℕ × Option Preparation)
      → Statements × Result InitError OracleScanState
  with_defines b conn_handle mapping (s, throw problem) = (s, throw problem)
  with_defines b conn_handle mapping (s, ok (stmt, prepared)) =
      elim (define_columns b.bind 0 (length b.bind.column_names)) [
        | throw problem ↦ (drop_statement prepared s, throw problem)
        | ok columns ↦ (
          s,
          ok (record {
            conn_handle = conn_handle;
            stmt = stmt;
            prepared = prepared;
            columns = columns;
            mapping = mapping;
          }),
        )
      ]

  -- `OracleInitGlobal` with the column ids and the projection ids that DuckDB passes.
  unfoldable pub init_global :
      (Text → Option ℕ)
      → ScanBindData
      → List ℕ
      → List ℕ
      → Statements
      → Statements × Result InitError OracleScanState
  unfolding scan_statement with_defines
  init_global acquires b column_ids projection_ids s = elim (session_of acquires b) [
    | none ↦ (s, throw no_session)
    | some conn_handle ↦
        with_defines b conn_handle
          (column_mapping b.bind.original_names b.bind.column_names column_ids projection_ids)
          (scan_statement b s)
  ]
