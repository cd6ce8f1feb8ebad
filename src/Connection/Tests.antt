-- ===== src/Connection/Tests.antt =====
-- Two rows, one with a NULL.
use duckdb_oracle.Base.{true, Option, none, some, List, [], ◌∷◌, Text, lit}
use duckdb_oracle.Connection.{row, no_data, Cursor}

abbrev people : List (List (Option Text))
people = (some (lit "ANN") ∷ []) ∷ (none ∷ []) ∷ []

abbrev cursor : Cursor
cursor = record {
  succeeds = λ call. true;
  columns = lit "NAME" ∷ [];
  replies = row (some (lit "ANN") ∷ []) ∷ row (none ∷ []) ∷ no_data ∷ [];
}
