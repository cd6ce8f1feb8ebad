-- ===== src/Functions/Execute/Outcome.antt =====
-- What `oracle_execute` of src/oracle_extension.cpp leaves and reports, by which calls succeed.
use duckdb_oracle.Base.{
  ap, ◌∙◌, if_false, false, empty, ℕ, [], Result, some, none, ◌∷◌, List, Text, Option, arith, ◌&&◌,
  if◌then◌else◌, Bool, ◌≡◌, ok, throw,
}
use duckdb_oracle.Duckdb.{Values, Strings}
use duckdb_oracle.Catalog.Registry.{Registry}
use duckdb_oracle.Functions.Target.{resolve_target}
use duckdb_oracle.Functions.Execute.{
  message_value, oracle_execute, ExecuteCall, ExecuteError, alloc_statement, prepare, execute,
  get_statement_type, get_row_count, no_session, call_error, Served, Executing, success_message,
  checked_call, execute_and_commit, on_statement, execute_statement,
}

-- The statement is executed.
abbrev pub reaches : {S : Type 0} → Served S → Bool
reaches served = served.acquires && (served.succeeds alloc_statement && served.succeeds prepare)

-- What the statement has done to the database when it is left.
abbrev pub database_after : {S : Type 0} → (S → S) → Served S → S → S
database_after commit served d =
    if reaches served
    then (if served.succeeds execute then commit (served.executes d) else served.refuses d)
    else d

-- The first call of a list that fails.
abbrev pub first_failure : (ExecuteCall → Bool) → List ExecuteCall → Option ExecuteError
first_failure succeeds [] = none
first_failure succeeds (call ∷ calls) =
    let later = first_failure succeeds calls in
    if succeeds call then later else some (call_error call)

abbrev pub execute_calls : List ExecuteCall
execute_calls = alloc_statement ∷ prepare ∷ execute ∷ get_statement_type ∷ get_row_count ∷ []

-- What goes wrong first, if anything does.
abbrev pub failure_of : {S : Type 0} → Served S → Option ExecuteError
failure_of served =
    if served.acquires then first_failure served.succeeds execute_calls else some no_session

abbrev pub reported : Text → Option ExecuteError → Result ExecuteError Text
reported message none = ok message
reported message (some problem) = throw problem

pub execute_statement-database :
    {S : Type 0} (commit : S → S) (served : Served S) (s : Executing S)
    → (execute_statement commit served s).0
      ≡ record s { database = database_after commit served s.database }
unfolding execute_statement on_statement checked_call execute_and_commit
execute_statement-database commit served s = ground arith

pub execute_statement-reported :
    {S : Type 0} (commit : S → S) (served : Served S) (s : Executing S)
    → (execute_statement commit served s).1
      ≡ reported (success_message served.stmt_type served.row_count) (failure_of served)
unfolding execute_statement on_statement checked_call execute_and_commit
execute_statement-reported commit served s = ground arith

-- A connection string that is not empty is resolved, and one statement runs at what it names. The
-- statement handles are as many as before, whichever call fails. The database is changed where the
-- statement was reached: by what it does and its commit where `OCIStmtExecute` succeeds, and by what
-- a refused statement does where it fails. The result is the message for the type and the row count
-- where every call succeeds, and else the error of the first that fails; so the error of a call
-- after `OCIStmtExecute` reports a statement that is committed.
pub oracle_execute-outcome :
    {S : Type 0} (commit : S → S) (v : Values) (str : Strings) (strings : ℕ → Text)
    (alive : ℕ → Bool) (served : Text → Text → Served S) (connection sql : v.Value) (r : Registry)
    (s : Executing S)
    → empty (v.to_string connection) ≡ false
    → let (r', target) = resolve_target str strings alive (v.to_string connection) r in
      let answers = served target (v.to_string sql) in
      oracle_execute commit v str strings alive served connection sql r s ≡ (
        r',
        message_value (
          record s { database = database_after commit answers s.database },
          reported (success_message answers.stmt_type answers.row_count) (failure_of answers),
        ),
      )
unfolding oracle_execute
oracle_execute-outcome commit v str strings alive served connection sql r s h =
    let (r', target) = resolve_target str strings alive (v.to_string connection) r in
    let answers = served target (v.to_string sql) in
    if_false _ _ h
    ∙ ap (λ run. (r', message_value (run, (execute_statement commit answers s).1)))
        (execute_statement-database commit answers s)
    ∙ ap
        (λ result. (
          r',
          message_value (record s { database = database_after commit answers s.database }, result),
        ))
        (execute_statement-reported commit answers s)
