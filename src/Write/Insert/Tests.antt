-- ===== src/Write/Insert/Tests.antt =====
-- The INSERT statement for a table with a date.
use duckdb_oracle.Base.{◌≡◌, refl, [], ◌∷◌, ◌++◌, map, lit, text_eq, decimal}
use duckdb_oracle.Samples.{ascii}
use duckdb_oracle.Write.Bind.{OracleWriteBindData}
use duckdb_oracle.Write.Insert.{insert_sql, values_sql, placeholder}
use duckdb_oracle.Base.Joined.{separated}
use duckdb_oracle.Write.Insert.Columns.{placeholders, insert_sql-separated}

abbrev bound : OracleWriteBindData
bound = record {
  table_name = lit "HR.EMP";
  connection_string = lit "scott/tiger@db";
  schema_name = lit "HR";
  object_name = lit "EMP";
  column_names = lit "ID" ∷ lit "SINCE" ∷ [];
  oracle_types = lit "NUMBER" ∷ lit "DATE" ∷ [];
}

lists_values :
    values_sql ascii 0 bound.oracle_types ≡ lit ":1, TO_DATE(:2, 'YYYY-MM-DD HH24:MI:SS')"
unfolding values_sql placeholder lit text_eq decimal
lists_values = refl

lists_columns :
    insert_sql ascii bound
    ≡ lit "INSERT /*+ APPEND_VALUES */ INTO "
      ++ ((ascii.write_quoted bound.schema_name ++ lit ".")
          ++ (ascii.write_quoted bound.object_name
              ++ (lit " ("
                  ++ (separated (map ascii.write_quoted bound.column_names)
                      ++ (lit ") VALUES ("
                          ++ (separated (placeholders ascii 0 bound.oracle_types) ++ lit ")"))))))
unfolding lit
lists_columns = insert_sql-separated ascii bound
