-- ===== src/Write/Bind/Tests.antt =====
-- The bind of src/storage/oracle_write.cpp on a table that Oracle knows in upper case.
use duckdb_oracle.Base.{◌≡◌, ◌≢◌, refl, some, List, [], ◌∷◌, arith, All, Text, lit, text_eq}
use duckdb_oracle.Samples.{ascii}
use duckdb_oracle.Write.Bind.{new_scan, scan_rows, scan_row, first_table, keep_column, other_table}
use duckdb_oracle.Write.Bind.Exact.{scan_rows-exact}
use duckdb_oracle.Write.Bind.Tables.{IsRow, NamesTable, scan_rows-best}

abbrev answer : List (List Text)
answer =
    (lit "SCOTT" ∷ lit "EMP" ∷ lit "ID" ∷ lit "NUMBER" ∷ [])
    ∷ (lit "SCOTT" ∷ lit "emp" ∷ lit "Id" ∷ lit "DATE" ∷ [])
    ∷ []

emp_named : lit "emp" ≢ []
unfolding lit
emp_named = ground arith

answer_named : All NamesTable answer
unfolding lit
answer_named = ground arith

-- The table in lower case has the exact name, so its column is kept and that of the other is not.
keeps_exact :
    (scan_rows ascii (lit "emp") new_scan answer).col_type_map (lit "Id") ≡ some (lit "DATE")
unfolding scan_rows scan_row first_table keep_column other_table lit text_eq
keeps_exact = refl

scan_rows-best_example :
    IsRow answer
      (scan_rows ascii (lit "emp") new_scan answer).best_table_name
      (lit "Id")
      (lit "DATE")
scan_rows-best_example =
    scan_rows-best ascii (lit "emp") answer emp_named answer_named (lit "Id") (lit "DATE")
      keeps_exact

scan_rows-exact_example : (scan_rows ascii (lit "emp") new_scan answer).best_table_name ≡ lit "emp"
scan_rows-exact_example =
    scan_rows-exact ascii (lit "emp") answer emp_named answer_named 1 (lit "SCOTT") (lit "Id")
      (lit "DATE") [] refl
