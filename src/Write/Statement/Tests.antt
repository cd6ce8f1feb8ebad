-- ===== src/Write/Statement/Tests.antt =====
-- A COPY whose INSERT cannot be prepared.
use duckdb_oracle.Base.{arith, ◌++◌, none, some, ok, refl, ◌+◌, ◌≡◌, true, false, [], ◌∷◌, lit}
use duckdb_oracle.Samples.{ascii}
use duckdb_oracle.Write.Bind.{OracleWriteBindData}
use duckdb_oracle.Write.Insert.{insert_sql}
use duckdb_oracle.Write.Sink.{Oci}
use duckdb_oracle.Write.Copy.{Batch, Chunk}
use duckdb_oracle.Write.Copy.Outcome.{IsGood}
use duckdb_oracle.Write.Statement.Inserts.{insert_text, copy_to-inserts}
use duckdb_oracle.Write.Statement.{CopyCalls, Writing, copy_to}
use duckdb_oracle.Write.Statement.Leak.{leaks, copy_to-leaks}

abbrev refusing : CopyCalls
refusing = record { acquires = true; allocates = true; prepares = λ sql. false; commits = true }

abbrev bound : OracleWriteBindData
bound = record {
  table_name = lit "EMP";
  connection_string = lit "scott/tiger@db";
  schema_name = [];
  object_name = lit "EMP";
  column_names = lit "ID" ∷ [];
  oracle_types = lit "NUMBER" ∷ [];
}

abbrev start : Writing
start = record { session = record { pending = []; committed = [] }; statements = 3; prepared = [] }

refused_insert_leaks :
    (copy_to ascii refusing bound [] start).0.statements
    ≡ 3 + leaks refusing (insert_sql ascii bound)
refused_insert_leaks = copy_to-leaks ascii refusing bound [] start

abbrev accepting : CopyCalls
accepting = record { acquires = true; allocates = true; prepares = λ sql. true; commits = true }

abbrev willing : Oci
willing = record { accepts_bind = λ _. true; executes = λ _. true }

abbrev batch : Batch
batch = (some (lit "1") ∷ none ∷ []) ∷ []

abbrev good : Chunk
good = record { count = 2; columns = batch; oci = willing; partial = [] }

good-IsGood : IsGood 1 good
unfolding lit
good-IsGood = record {
  some_rows = omega arith;
  wide = refl;
  tall = (refl, tt);
  short = ground arith;
  binds = λ col. refl;
  executes = refl;
}

copy_to-inserts_example : copy_to ascii accepting bound (good ∷ []) start ≡ (
  record {
    session = record { pending = []; committed = [] ++ ([] ++ (batch ∷ [])) };
    statements = 3;
    prepared = insert_text ascii bound ∷ [];
  },
  ok tt,
)
copy_to-inserts_example =
    copy_to-inserts ascii accepting bound 1 (good ∷ []) start refl refl refl refl (good-IsGood, tt)
