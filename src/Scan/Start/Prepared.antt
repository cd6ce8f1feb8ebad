-- ===== src/Scan/Start/Prepared.antt =====
-- What a scan of src/oracle_extension.cpp starts with, whatever the planner has done with its bind data.
use mathlib.Core.Option.{some-injective}
use duckdb_oracle.Base.{
  ◌∙◌, ltb, ap, ◌^◌, ◌%◌, subst, length, arith, if◌then◌else◌, Option-cases, Result, ◌≡◌, List,
  Text, ℕ, Option, Bool, none, some, ok, throw, zero, suc, [], ◌∷◌, refl, inl, inr,
}
use duckdb_oracle.Duckdb.{Strings}
use duckdb_oracle.Settings.{OracleSettings}
use duckdb_oracle.Pushdown.{OracleBindData}
use duckdb_oracle.Scan.Describe.{LogicalTypeId, OciType, OciColumn, oracle_bind_internal}
use duckdb_oracle.Scan.Define.{DefineColumn, define_column}
use duckdb_oracle.Scan.Start.{
  scan_statement, column_mapping, Preparation, init_global, InitCall, alloc_statement, prepare,
  define_column_at, define_array_at, InitError, init_failed, ScanBindData, bind_scan,
  copy_bind_data, PlanStep, copies, pushes, plan, Statements, preparation, prepare_again,
  define_columns, with_defines,
}

-- Bind data as `OracleBindInternal` leaves it for these arguments, but for the pushdown.
record IsReset (connection_string : Text) (settings : OracleSettings) (b : ScanBindData)
    : Type 0 where
  names : b.connection_string ≡ connection_string
  keeps : b.settings ≡ settings
  no_handle : b.conn_handle ≡ none
  no_stmt : b.stmt ≡ none

bind_scan-IsReset :
    (sqlt : OciType → ℕ) (describe : Text → Option (List OciColumn)) (settings : OracleSettings)
    (connection_string query : Text) (b : ScanBindData)
    → bind_scan sqlt describe settings connection_string query ≡ some b
    → IsReset connection_string settings b
unfolding bind_scan
bind_scan-IsReset sqlt describe settings connection_string query b e =
    elim (Option-cases (oracle_bind_internal sqlt describe settings.enable_pushdown query)) [
      | inl gone ↦ cc (rw (gone, bind_scan) at e)
      | inr (bind, found) ↦
          let is = some-injective _ _ (rw (found, bind_scan) at e) in
          subst (IsReset connection_string settings) is
            (record { names = refl; keeps = refl; no_handle = refl; no_stmt = refl })
    ]

plan-IsReset :
    (connection_string : Text) (settings : OracleSettings) {V : Type 0} (str : Strings)
    (to_sql : V → Text) (steps : List (PlanStep V)) (b : ScanBindData)
    → IsReset connection_string settings b
    → IsReset connection_string settings (plan str to_sql steps b)
unfolding plan copy_bind_data
plan-IsReset connection_string settings str to_sql [] b h = h
plan-IsReset connection_string settings str to_sql (copies ∷ steps) b h =
    plan-IsReset connection_string settings str to_sql steps _
      (record { names = h.names; keeps = h.keeps; no_handle = refl; no_stmt = h.no_stmt })
plan-IsReset connection_string settings str to_sql (pushes get filters ∷ steps) b h =
    plan-IsReset connection_string settings str to_sql steps _
      (record { names = h.names; keeps = h.keeps; no_handle = h.no_handle; no_stmt = h.no_stmt })

-- The calls that the start of a scan of `n` columns makes.
abbrev pub define_calls : ℕ → ℕ → List InitCall
define_calls col_idx zero = []
define_calls col_idx (suc n) =
    define_column_at col_idx ∷ define_array_at col_idx ∷ define_calls (suc col_idx) n

-- The first of them that fails.
abbrev pub first_failed : (InitCall → Bool) → List InitCall → Option InitCall
first_failed succeeds [] = none
first_failed succeeds (call ∷ calls) =
    let later = first_failed succeeds calls in if succeeds call then later else some call

-- The columns from `col_idx` on, defined.
abbrev pub defined : OracleBindData LogicalTypeId → ℕ → ℕ → List DefineColumn
defined bind col_idx zero = []
defined bind col_idx (suc n) = define_column bind col_idx ∷ defined bind (suc col_idx) n

abbrev pub or_failed {ℓ} : {A : Type ℓ} → A → Option InitCall → Result InitError A
or_failed a none = ok a
or_failed a (some call) = throw (init_failed call)

define_columns-defined :
    (succeeds : InitCall → Bool) (bind : OracleBindData LogicalTypeId) (col_idx n : ℕ)
    → define_columns succeeds bind col_idx n
      ≡ or_failed (defined bind col_idx n) (first_failed succeeds (define_calls col_idx n))
unfolding define_columns
define_columns-defined succeeds bind col_idx zero = refl
define_columns-defined succeeds bind col_idx (suc n) =
    ground (arith, define_columns-defined succeeds bind (suc col_idx) n)

-- The statement handles that are left allocated: one more if the scan starts.
abbrev pub live_after : ℕ → Option InitCall → ℕ
live_after live none = suc live
live_after live (some call) = live

-- The calls of a start, in their order.
abbrev pub start_calls : ℕ → List InitCall
start_calls n = alloc_statement ∷ prepare ∷ define_calls 0 n

with_defines-result :
    (succeeds : InitCall → Bool) (b : ScanBindData) (conn_handle : ℕ) (mapping : List ℕ)
    (s : Statements)
    → let failed = first_failed succeeds (start_calls (length b.bind.column_names)) in
      let (s', result) = with_defines succeeds b conn_handle mapping (prepare_again succeeds b s) in
      (result
        ≡ or_failed
            (record {
              conn_handle = conn_handle;
              stmt = s.next;
              prepared = some (preparation b);
              columns = defined b.bind 0 (length b.bind.column_names);
              mapping = mapping;
            })
            failed)
      × (s'.live ≡ live_after s.live failed)
unfolding with_defines prepare_again
with_defines-result succeeds b conn_handle mapping s =
    ground (arith, define_columns-defined succeeds b.bind 0 (length b.bind.column_names))

-- The attributes of the statement of a scan.
abbrev pub prepared_with : OracleSettings → Text → Preparation
prepared_with settings text = record {
  text = text;
  prefetch_rows = settings.prefetch_rows % 2 ^ 32;
  prefetch_memory =
      if ltb 0 settings.prefetch_memory then some (settings.prefetch_memory % 2 ^ 32) else none;
}

init_global-reset :
    (acquires : Text → Option ℕ) (succeeds : InitCall → Bool) (b : ScanBindData)
    (column_ids projection_ids : List ℕ) (s : Statements) (connection_string : Text)
    (settings : OracleSettings) (conn_handle : ℕ)
    → IsReset connection_string settings b
    → acquires connection_string ≡ some conn_handle
    → init_global succeeds acquires b column_ids projection_ids s
      ≡ with_defines succeeds b conn_handle
          (column_mapping b.bind.original_names b.bind.column_names column_ids projection_ids)
          (prepare_again succeeds b s)
unfolding init_global scan_statement
init_global-reset acquires succeeds b column_ids projection_ids s connection_string settings
      conn_handle h e =
    ground (arith, h.names, h.no_handle, h.no_stmt, e)

-- Bind data of a query, after the planner has copied it and pushed filters and projections into it in
-- any order, is given to a scan, and the pool has a session for its connection string. Where every call
-- of OCI succeeds, the scan has a statement handle of its own with the number that was next, on which
-- the query as the last push has left it was prepared, with the prefetch attributes of the settings
-- of the bind; each fetched column is defined once, in order; and one handle more is allocated. Where
-- a call fails, the scan throws the first that does, and leaves no handle more than there were.
pub init_global-prepares :
    (sqlt : OciType → ℕ) (describe : Text → Option (List OciColumn)) (settings : OracleSettings)
    (connection_string query : Text) (b : ScanBindData) {V : Type 0} (str : Strings)
    (to_sql : V → Text) (steps : List (PlanStep V)) (acquires : Text → Option ℕ)
    (succeeds : InitCall → Bool) (column_ids projection_ids : List ℕ) (s : Statements)
    (conn_handle : ℕ)
    → bind_scan sqlt describe settings connection_string query ≡ some b
    → acquires connection_string ≡ some conn_handle
    → let bind = (plan str to_sql steps b).bind in
      let n = length bind.column_names in
      let failed = first_failed succeeds (start_calls n) in
      let (s', result) =
        init_global succeeds acquires (plan str to_sql steps b) column_ids projection_ids s in
      (result
        ≡ or_failed
            (record {
              conn_handle = conn_handle;
              stmt = s.next;
              prepared = some (prepared_with settings bind.query);
              columns = defined bind 0 n;
              mapping =
                  column_mapping bind.original_names bind.column_names column_ids projection_ids;
            })
            failed)
      × (s'.live ≡ live_after s.live failed)
init_global-prepares sqlt describe settings connection_string query b str to_sql steps acquires
      succeeds column_ids projection_ids s conn_handle bound acquired =
    let b' = plan str to_sql steps b in
    let reset =
      plan-IsReset connection_string settings str to_sql steps b
        (bind_scan-IsReset sqlt describe settings connection_string query b bound) in
    let mapping =
      column_mapping b'.bind.original_names b'.bind.column_names column_ids projection_ids in
    let n = length b'.bind.column_names in
    let failed = first_failed succeeds (start_calls n) in
    let starts =
      init_global-reset acquires succeeds b' column_ids projection_ids s connection_string settings
        conn_handle reset acquired in
    let (told, live) = with_defines-result succeeds b' conn_handle mapping s in
    (
      ap (λ out. out.1) starts
          ∙ told
          ∙ ap
              (λ st.
                or_failed
                  (record {
                    conn_handle = conn_handle;
                    stmt = s.next;
                    prepared = some (prepared_with st b'.bind.query);
                    columns = defined b'.bind 0 n;
                    mapping = mapping;
                  })
                  failed)
              reset.keeps,
      ap (λ out. out.0.live) starts ∙ live,
    )
