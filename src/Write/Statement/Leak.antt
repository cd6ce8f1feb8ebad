-- ===== src/Write/Statement/Leak.antt =====
-- The statement handles that a COPY of src/storage/oracle_write.cpp leaves allocated.
use duckdb_oracle.Base.{not, ◌&&◌, ◌+◌, if◌then◌else◌, ℕ, ◌≡◌, List, Text, arith}
use duckdb_oracle.Duckdb.{Strings}
use duckdb_oracle.Write.Bind.{OracleWriteBindData}
use duckdb_oracle.Write.Insert.{insert_sql}
use duckdb_oracle.Write.Copy.{Chunk}
use duckdb_oracle.Write.Statement.{CopyCalls, Writing, init_write_global, copy_on_state, copy_to}

-- The handle of a statement whose text is refused is never freed.
abbrev pub leaks : CopyCalls → Text → ℕ
leaks calls sql = if calls.acquires && (calls.allocates && not (calls.prepares sql)) then 1 else 0

-- A COPY leaves as many statement handles as before, whatever becomes of its chunks and its commit,
-- but for one: where the handle was allocated and `OCIStmtPrepare` of the INSERT fails, the
-- constructor throws with the handle allocated, and it stays so.
pub copy_to-leaks :
    (str : Strings) (calls : CopyCalls) (bind : OracleWriteBindData) (chunks : List Chunk)
    (w : Writing)
    → (copy_to str calls bind chunks w).0.statements
      ≡ w.statements + leaks calls (insert_sql str bind)
unfolding copy_to init_write_global copy_on_state
copy_to-leaks str calls bind chunks w = ground arith
