-- ===== src/Write/Bind/Plan.antt =====
-- `Copy` and `Equals` of `OracleWriteBindData` in src/include/oracle_write.hpp, with which DuckDB keeps
-- the plan of a COPY. The DuckDB types of the columns are left out, as they are in the bind.
use duckdb_oracle.Base.{text_eq_refl, ◌&&◌, text_eq, arith, ◌≡◌, Bool, true}
use duckdb_oracle.Write.Bind.{OracleWriteBindData}

pub copy_write_bind : OracleWriteBindData → OracleWriteBindData
copy_write_bind b = record {
  table_name = b.table_name;
  connection_string = b.connection_string;
  schema_name = b.schema_name;
  object_name = b.object_name;
  column_names = b.column_names;
  oracle_types = b.oracle_types;
}

pub write_binds_equal : OracleWriteBindData → OracleWriteBindData → Bool
write_binds_equal b other =
    text_eq b.table_name other.table_name && text_eq b.connection_string other.connection_string

-- A copy is the bind, and counts as equal to it.
pub copy_write_bind-equal :
    (b : OracleWriteBindData) → write_binds_equal b (copy_write_bind b) ≡ true
unfolding write_binds_equal copy_write_bind
copy_write_bind-equal b =
    ground (arith, text_eq_refl b.table_name, text_eq_refl b.connection_string)
