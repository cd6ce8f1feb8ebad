-- ===== src/Write/Insert/Columns.antt =====
-- The lists of the INSERT statement of src/storage/oracle_write.cpp.
use duckdb_oracle.Base.{
  ℕ, suc, ◌≡◌, refl, sym, ap, ◌∙◌, List, [], ◌∷◌, ◌++◌, map, if◌then◌else◌, Text, lit, empty,
}
use duckdb_oracle.Base.Joined.{separated, continued, separated-continued}
use duckdb_oracle.Duckdb.{Strings}
use duckdb_oracle.Write.Bind.{OracleWriteBindData}
use duckdb_oracle.Write.Insert.{placeholder, columns_sql, values_sql, insert_sql}

-- A placeholder for each type, numbered from the first.
abbrev pub placeholders : Strings → ℕ → List Text → List Text
placeholders str i [] = []
placeholders str i (type ∷ types) = placeholder str type i ∷ placeholders str (suc i) types

columns_sql-continued :
    (str : Strings) (i : ℕ) (names : List Text)
    → columns_sql str (suc i) names ≡ continued (map str.write_quoted names)
unfolding columns_sql
columns_sql-continued str i [] = refl
columns_sql-continued str i (name ∷ names) =
    ap (λ s. lit ", " ++ (str.write_quoted name ++ s)) (columns_sql-continued str (suc i) names)

values_sql-continued :
    (str : Strings) (i : ℕ) (types : List Text)
    → values_sql str (suc i) types ≡ continued (placeholders str (suc i) types)
unfolding values_sql
values_sql-continued str i [] = refl
values_sql-continued str i (type ∷ types) =
    ap (λ s. lit ", " ++ (placeholder str type (suc i) ++ s))
      (values_sql-continued str (suc i) types)

columns_sql-separated :
    (str : Strings) (names : List Text)
    → columns_sql str 0 names ≡ separated (map str.write_quoted names)
unfolding columns_sql
columns_sql-separated str [] = refl
columns_sql-separated str (name ∷ names) =
    ap (λ s. str.write_quoted name ++ s) (columns_sql-continued str 0 names)
    ∙ sym (separated-continued (str.write_quoted name) (map str.write_quoted names))

values_sql-separated :
    (str : Strings) (types : List Text)
    → values_sql str 0 types ≡ separated (placeholders str 0 types)
unfolding values_sql
values_sql-separated str [] = refl
values_sql-separated str (type ∷ types) =
    ap (λ s. placeholder str type 0 ++ s) (values_sql-continued str 0 types)
    ∙ sym (separated-continued (placeholder str type 0) (placeholders str 1 types))

-- The INSERT names the schema, if there is one, and the table, lists the quoted columns and one
-- placeholder for each type, numbered from 1 in the order of the columns, each list with commas
-- between its items and none at its ends.
pub insert_sql-separated :
    (str : Strings) (result : OracleWriteBindData)
    → insert_sql str result
      ≡ lit "INSERT /*+ APPEND_VALUES */ INTO "
        ++ ((if empty result.schema_name
              then []
              else str.write_quoted result.schema_name ++ lit ".")
            ++ (str.write_quoted result.object_name
                ++ (lit " ("
                    ++ (separated (map str.write_quoted result.column_names)
                        ++ (lit ") VALUES ("
                            ++ (separated (placeholders str 0 result.oracle_types) ++ lit ")"))))))
unfolding insert_sql
insert_sql-separated str result =
    rw (columns_sql-separated str result.column_names, values_sql-separated str result.oracle_types)
      refl
