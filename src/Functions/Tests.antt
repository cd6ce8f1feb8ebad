-- ===== src/Functions/Tests.antt =====
-- Calls of the scalar functions on small inputs.
use duckdb_oracle.Base.{Bool, ◌+◌, ◌↔◌, decimal, ℕ, ◌≡◌, refl, true, none, [], ◌∷◌, ok, lit, Text}
use duckdb_oracle.Samples.{samples, ascii, text_of}
use duckdb_oracle.ConnectionString.{Credentials, parse_connection_string}
use duckdb_oracle.Catalog.Registry.{Registry}
use duckdb_oracle.Functions.Target.{resolve_target}
use duckdb_oracle.Functions.Target.Accepted.{Names, resolve_target-accepted}
use duckdb_oracle.Functions.Execute.{
  Served, Executing, insert_type, success_message, message_value, oracle_execute,
}
use duckdb_oracle.Functions.Execute.Outcome.{oracle_execute-outcome, reported}

-- State 3 is attached as hr and alive.
abbrev registry : Registry
registry = record { states = 3 ∷ []; aliases = (lit "hr", 3) ∷ [] }

abbrev strings : ℕ → Text
strings id = lit "scott/tiger@db"

abbrev alive : ℕ → Bool
alive id = true

abbrev scott : Credentials
scott = record { user = lit "scott"; password = lit "tiger"; db = lit "db" }

hr_is_accepted :
    (parse_connection_string (resolve_target ascii strings alive (lit "HR") registry).1 ≡ ok scott)
    ↔ Names ascii strings alive (lit "HR") registry scott
hr_is_accepted = resolve_target-accepted ascii strings alive (lit "HR") registry scott

-- An INSERT of two rows into a table that is counted.
abbrev inserts : Text → Text → Served ℕ
inserts connection_string sql = record {
  acquires = true;
  succeeds = λ call. true;
  stmt_type = insert_type;
  row_count = 2;
  executes = λ rows. rows + 2;
  refuses = λ rows. rows;
}

abbrev before : Executing ℕ
before = record { database = 5; statements = 1 }

oracle_execute-outcome_example :
    oracle_execute
      (λ rows. rows)
      samples
      ascii
      strings
      alive
      inserts
      (text_of (lit "hr"))
      (text_of (lit "INSERT INTO t SELECT * FROM u"))
      registry
      before
    ≡ (
      (resolve_target ascii strings alive (lit "hr") registry).0,
      message_value
          (record { database = 7; statements = 1 }, reported (success_message insert_type 2) none),
    )
unfolding lit
oracle_execute-outcome_example =
    oracle_execute-outcome (λ rows. rows) samples ascii strings alive inserts (text_of (lit "hr"))
      (text_of (lit "INSERT INTO t SELECT * FROM u")) registry before refl

-- The message names the rows.
two_rows : success_message insert_type 2 ≡ lit "Statement executed successfully (2 rows affected)"
unfolding success_message lit decimal
two_rows = refl
