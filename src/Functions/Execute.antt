-- ===== src/Functions/Execute.antt =====
-- `OracleExecuteFunction` of src/oracle_extension.cpp: `oracle_execute` on one row.
-- What the pool, OCI and the database answer to a statement is an argument. `S` is what the sessions
-- of the database have done.
pub mod Outcome
pub mod AfterCopy
use duckdb_oracle.Base.{
  decimal, ◌++◌, none, some, lit, empty, true, throw, ◌||◌, Option, ok, false, ltb, ◌+◌, Bool,
  Result, if◌then◌else◌, ◌-◌, Text, ℕ,
}
use duckdb_oracle.Base.Action.{Action, ◌>>◌, returns}
use duckdb_oracle.Duckdb.{Values, Strings}
use duckdb_oracle.Catalog.Registry.{Registry}
use duckdb_oracle.Functions.Target.{resolve_target}

pub data ExecuteCall : Type 0 where
  alloc_statement prepare execute get_statement_type get_row_count : ExecuteCall

pub data ExecuteError : Type 0 where
  no_session : ExecuteError
  call_error : ExecuteCall → ExecuteError

-- `OCI_ATTR_STMT_TYPE`
pub data StatementType : Type 0 where
  update_type delete_type insert_type merge_type : StatementType
  other_type : ℕ → StatementType

-- What is answered to one statement: `executes` and `refuses` are what it does to the database where
-- `OCIStmtExecute` succeeds, before its commit, and where it fails.
pub record Served (S : Type 0) : Type 0 where
  pub acquires : Bool
  pub succeeds : ExecuteCall → Bool
  pub stmt_type : StatementType
  pub row_count : ℕ
  pub executes : S → S
  pub refuses : S → S

-- The database, and the statement handles that are allocated.
pub record Executing (S : Type 0) : Type 0 where
  pub database : S
  pub statements : ℕ

abbrev pub is_dml : StatementType → Bool
is_dml (other_type k) = false
is_dml _ = true

unfoldable pub success_message : StatementType → ℕ → Text
success_message stmt_type row_count =
    if ltb 0 row_count || is_dml stmt_type
    then lit "Statement executed successfully (" ++ (decimal row_count ++ lit " rows affected)")
    else lit "Statement executed successfully"

-- The `unique_ptr` frees the handle wherever the block is left.
abbrev pub release_statement {ℓ} : {S : Type 0} {A : Type ℓ} → Executing S × A → Executing S × A
release_statement (s, result) = (record s { statements = s.statements - 1 }, result)

abbrev pub message_value {ℓ} :
    {T : Type ℓ} → T × Result ExecuteError Text → T × Result ExecuteError (Option Text)
message_value (s, throw problem) = (s, throw problem)
message_value (s, ok message) = (s, ok (some message))

module _ {S : Type 0} (commit : S → S) where
  -- A call that changes nothing but what OCI answers next.
  unfoldable pub checked_call :
      Served S → ExecuteCall → Action (Executing S) ExecuteError (Unit {0})
  checked_call served call s = (s, if served.succeeds call then ok tt else throw (call_error call))

  -- `OCIStmtExecute` with `OCI_COMMIT_ON_SUCCESS`.
  unfoldable pub execute_and_commit : Served S → Action (Executing S) ExecuteError (Unit {0})
  execute_and_commit served s =
      if served.succeeds execute
      then (record s { database = commit (served.executes s.database) }, ok tt)
      else (record s { database = served.refuses s.database }, throw (call_error execute))

  -- The calls on the statement handle.
  unfoldable pub on_statement : Served S → Action (Executing S) ExecuteError Text
  unfolding checked_call execute_and_commit
  on_statement served = do
    checked_call served prepare
    execute_and_commit served
    checked_call served get_statement_type
    checked_call served get_row_count
    returns (success_message served.stmt_type served.row_count)

  -- The block that acquires a session and runs the statement on it.
  unfoldable pub execute_statement : Served S → Action (Executing S) ExecuteError Text
  unfolding on_statement
  execute_statement served s =
      if served.acquires
      then (if served.succeeds alloc_statement
          then release_statement (on_statement served (record s { statements = s.statements + 1 }))
          else (s, throw (call_error alloc_statement)))
      else (s, throw no_session)

  -- `OracleExecuteFunction`: `none` is NULL. `served` is what is answered to a statement at a
  -- connection string.
  unfoldable pub oracle_execute :
      (v : Values)
      → Strings
      → (ℕ → Text)
      → (ℕ → Bool)
      → (Text → Text → Served S)
      → v.Value
      → v.Value
      → Registry
      → Executing S
      → Registry × (Executing S × Result ExecuteError (Option Text))
  unfolding execute_statement
  oracle_execute v str strings alive served connection sql r s =
      let target = v.to_string connection in
      if empty target
      then (r, (s, ok none))
      else (let (r', connection_string) = resolve_target str strings alive target r in
          (r', message_value (execute_statement (served connection_string (v.to_string sql)) s)))
