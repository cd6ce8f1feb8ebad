-- ===== src/Functions/Execute/AfterCopy.antt =====
-- A COPY of src/storage/oracle_write.cpp that fails, and then an `oracle_execute` of
-- src/oracle_extension.cpp that gets the same session from the pool.
use duckdb_oracle.Base.{
  Text, Result, map, ok, throw, ◌∙◌, ap, ok, ◌∷◌, All, Bool, List, ℕ, arith, ◌++◌, none, ◌≡◌, [],
}
use duckdb_oracle.Write.Buffers.{WriteError}
use duckdb_oracle.Write.Copy.{copy, Batch, Chunk, Session}
use duckdb_oracle.Functions.Execute.{
  ExecuteError, success_message, execute_statement, Executing, Served,
}
use duckdb_oracle.Write.Copy.Outcome.{IsGood, IsRefused, copy-pending}
use duckdb_oracle.Functions.Execute.Outcome.{
  reported, execute_statement-reported, execute_statement-database, failure_of, database_after,
}

-- What a commit makes of a session.
abbrev pub commit_session : Session → Session
commit_session d = record { pending = []; committed = d.committed ++ d.pending }

database_after-committed :
    {S : Type 0} (commit : S → S) (served : Served S) (d : S)
    → failure_of served ≡ none
    → database_after commit served d ≡ commit (served.executes d)
database_after-committed commit served d h = ground arith

execute_statement-succeeds :
    {S : Type 0} (commit : S → S) (served : Served S) (s : Executing S)
    → failure_of served ≡ none
    → execute_statement commit served s ≡ (
      record s { database = commit (served.executes s.database) },
      ok (success_message served.stmt_type served.row_count),
    )
execute_statement-succeeds commit served s h =
    ap (λ t. (t, (execute_statement commit served s).1))
      (execute_statement-database commit served s)
    ∙ ap (λ r. (record s { database = database_after commit served s.database }, r))
        (execute_statement-reported commit served s
          ∙ ap (reported (success_message served.stmt_type served.row_count)) h)
    ∙ ap (λ d. (record s { database = d }, ok (success_message served.stmt_type served.row_count)))
        (database_after-committed commit served s.database h)

-- A COPY inserts chunks that OCI accepts, and then one whose batch is refused: it throws. A statement
-- that `oracle_execute` runs next on that session, each call of which succeeds, and which inserts some
-- rows or none, makes permanent what was pending in the session, then the chunks of the failed COPY
-- and what its refused batch has inserted, and then its own rows; its message does not tell.
pub execute_statement-commits_failed_copy :
    (width : ℕ) (chunks rest : List Chunk) (bad : Chunk) (commits : Bool) (s : Session)
    (served : Served Session) (rows : List Batch) (statements : ℕ)
    → All (IsGood width) chunks
    → IsRefused bad
    → failure_of served ≡ none
    → ((d : Session) → served.executes d ≡ record d { pending = d.pending ++ rows })
    → let (left, result) = copy (chunks ++ (bad ∷ rest)) commits s in
      ((problem : WriteError) × (result ≡ throw problem))
      × (execute_statement commit_session served
            (record { database = left; statements = statements })
          ≡ (
            record {
              database = record {
                pending = [];
                committed =
                    s.committed
                    ++ (((s.pending ++ map (λ c. c.columns) chunks) ++ bad.partial) ++ rows);
              };
              statements = statements;
            },
            ok (success_message served.stmt_type served.row_count),
          ))
execute_statement-commits_failed_copy width chunks rest bad commits s served rows statements good h
      runs inserts =
    let (done, (problem, e)) = copy-pending width chunks rest bad commits s good h in
    let at : Session → Executing Session × Result ExecuteError Text = λ d. (
      record { database = commit_session d; statements = statements },
      ok (success_message served.stmt_type served.row_count),
    ) in
    (
      (problem, ap (λ r. r.1) e),
      execute_statement-succeeds commit_session served _ runs
          ∙ ap at (inserts _)
          ∙ ap (λ r. at (record r.0 { pending = r.0.pending ++ rows })) e,
    )
