-- ===== src/Write/Copy/Tests.antt =====
-- A COPY whose second chunk is refused, on a session with nothing pending.
use duckdb_oracle.Base.{◌≡◌, refl, true, false, none, some, [], ◌∷◌, ◌++◌, arith, ok, throw, lit}
use duckdb_oracle.Write.Buffers.{WriteError}
use duckdb_oracle.Write.Sink.{Oci}
use duckdb_oracle.Write.Copy.{Batch, Session, Chunk, copy}
use duckdb_oracle.Functions.Execute.{Served, insert_type, success_message, execute_statement}
use duckdb_oracle.Functions.Execute.AfterCopy.{
  commit_session, execute_statement-commits_failed_copy,
}
use duckdb_oracle.Write.Copy.Outcome.{IsGood, copy-pending}

abbrev willing : Oci
willing = record { accepts_bind = λ _. true; executes = λ _. true }

abbrev unwilling : Oci
unwilling = record { accepts_bind = λ _. true; executes = λ _. false }

abbrev batch : Batch
batch = (some (lit "1") ∷ none ∷ []) ∷ (some (lit "x") ∷ some (lit "yz") ∷ []) ∷ []

abbrev good : Chunk
good = record { count = 2; columns = batch; oci = willing; partial = [] }

abbrev bad : Chunk
bad = record { count = 2; columns = batch; oci = unwilling; partial = [] }

abbrev fresh : Session
fresh = record { pending = []; committed = [] }

good-IsGood : IsGood 2 good
unfolding lit
good-IsGood = record {
  some_rows = omega arith;
  wide = refl;
  tall = (refl, (refl, tt));
  short = ground arith;
  binds = λ col. refl;
  executes = refl;
}

copy-pending_example :
    (copy (good ∷ []) true fresh
      ≡ (record { pending = []; committed = [] ++ ([] ++ (batch ∷ [])) }, ok tt))
    × ((problem : WriteError) × (copy ((good ∷ []) ++ (bad ∷ [])) true fresh
          ≡ (record { pending = ([] ++ (batch ∷ [])) ++ []; committed = [] }, throw problem)))
copy-pending_example =
    copy-pending 2 (good ∷ []) [] bad true fresh (good-IsGood, tt)
      (record { some_rows = omega arith; refused = refl })

-- An INSERT of `oracle_execute` on the session after that COPY.
abbrev counts_one : Served Session
counts_one = record {
  acquires = true;
  succeeds = λ call. true;
  stmt_type = insert_type;
  row_count = 1;
  executes = λ d. record d { pending = d.pending ++ (batch ∷ []) };
  refuses = λ d. d;
}

execute_statement-commits_failed_copy_example :
    let (left, result) = copy ((good ∷ []) ++ (bad ∷ [])) true fresh in
    ((problem : WriteError) × (result ≡ throw problem))
    × (execute_statement commit_session counts_one (record { database = left; statements = 0 }) ≡ (
      record {
        database = record {
          pending = [];
          committed = [] ++ ((([] ++ (batch ∷ [])) ++ []) ++ (batch ∷ []));
        };
        statements = 0;
      },
      ok (success_message insert_type 1),
    ))
execute_statement-commits_failed_copy_example =
    execute_statement-commits_failed_copy 2 (good ∷ []) [] bad true fresh counts_one (batch ∷ []) 0
      (good-IsGood, tt) (record { some_rows = omega arith; refused = refl }) refl (λ d. refl)
