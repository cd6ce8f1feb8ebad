-- ===== src/Write/Insert.antt =====
-- The INSERT statement of `OracleWriteInitGlobal` in src/storage/oracle_write.cpp.
pub mod Columns
mod Tests
use duckdb_oracle.Base.{
  ℕ, zero, suc, ◌+◌, ◌||◌, List, [], ◌∷◌, ◌++◌, if◌then◌else◌, Text, lit, text_eq, empty, decimal,
}
use duckdb_oracle.Duckdb.{Strings}
use duckdb_oracle.Write.Bind.{OracleWriteBindData}

-- `if (i > 0) sql += ", ";`
abbrev comma : ℕ → Text
comma zero = []
comma (suc i) = lit ", "

pub placeholder : Strings → Text → ℕ → Text
placeholder str oracle_type i =
    let type = str.upper oracle_type in
    let mark = lit ":" ++ decimal (i + 1) in
    if text_eq type (lit "DATE")
    then lit "TO_DATE(" ++ (mark ++ lit ", 'YYYY-MM-DD HH24:MI:SS')")
    else if str.contains type (lit "TIMESTAMP")
    then lit "TO_TIMESTAMP(" ++ (mark ++ lit ", 'YYYY-MM-DD HH24:MI:SS.FF')")
    else if text_eq type (lit "SDO_GEOMETRY") || text_eq type (lit "MDSYS.SDO_GEOMETRY")
    then lit "SDO_UTIL.FROM_WKTGEOMETRY(" ++ (mark ++ lit ")")
    else mark

pub columns_sql : Strings → ℕ → List Text → Text
columns_sql str i [] = []
columns_sql str i (name ∷ names) =
    comma i ++ (str.write_quoted name ++ columns_sql str (suc i) names)

-- The bind has one type for each column, so the loop over the columns is one over the types.
pub values_sql : Strings → ℕ → List Text → Text
values_sql str i [] = []
values_sql str i (type ∷ types) =
    comma i ++ (placeholder str type i ++ values_sql str (suc i) types)

pub insert_sql : Strings → OracleWriteBindData → Text
insert_sql str result =
    lit "INSERT /*+ APPEND_VALUES */ INTO "
    ++ ((if empty result.schema_name then [] else str.write_quoted result.schema_name ++ lit ".")
        ++ (str.write_quoted result.object_name
            ++ (lit " ("
                ++ (columns_sql str 0 result.column_names
                    ++ (lit ") VALUES (" ++ (values_sql str 0 result.oracle_types ++ lit ")"))))))
