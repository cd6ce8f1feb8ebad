-- ===== src/Write/Statement.antt =====
-- The statement handle of a COPY in src/storage/oracle_write.cpp: the constructor and the destructor of
-- `OracleWriteGlobalState`, and the COPY between them. A constructor that throws runs no destructor.
-- Whether the pool gives a session and the two calls of OCI succeed is an argument.
pub mod Leak
pub mod Inserts
mod Tests
use duckdb_oracle.Base.{
  ◌∷◌, ◌+◌, if◌then◌else◌, Text, List, ℕ, ◌-◌, Result, Bool, true, false, none, some, ok, throw,
}
use duckdb_oracle.Duckdb.{Strings}
use duckdb_oracle.Write.Bind.{OracleWriteBindData}
use duckdb_oracle.Write.Insert.{insert_sql}
use duckdb_oracle.Write.Buffers.{WriteError}
use duckdb_oracle.Write.Copy.{Session, Chunk, copy}

pub data StatementError : Type 0 where
  no_session cannot_alloc cannot_prepare : StatementError
  copy_failed : WriteError → StatementError

-- What the environment decides of a COPY: `prepares` is `OCIStmtPrepare` of a text.
pub record CopyCalls : Type 0 where
  pub acquires : Bool
  pub allocates : Bool
  pub prepares : Text → Bool
  pub commits : Bool

-- The session, the statement handles that are allocated, and the texts prepared on them.
pub record Writing : Type 0 where
  pub session : Session
  pub statements : ℕ
  pub prepared : List Text

-- The constructor, and `OracleWriteInitGlobal` around it.
unfoldable pub init_write_global :
    Strings → CopyCalls → OracleWriteBindData → Writing → Writing × Result StatementError (Unit {0})
init_write_global str calls bind w =
    if calls.acquires
    then (if calls.allocates
        then (let allocated : Writing = record w { statements = w.statements + 1 } in
            if calls.prepares (insert_sql str bind)
            then (record allocated { prepared = insert_sql str bind ∷ w.prepared }, ok tt)
            else (allocated, throw cannot_prepare))
        else (w, throw cannot_alloc))
    else (w, throw no_session)

-- The destructor of a state that was constructed.
abbrev pub destroy_write_global : Writing → Writing
destroy_write_global w = record w { statements = w.statements - 1 }

abbrev pub copy_result : Result WriteError (Unit {0}) → Result StatementError (Unit {0})
copy_result (ok done) = ok done
copy_result (throw problem) = throw (copy_failed problem)

-- The chunks and the commit, where there is a state, and its destructor wherever they are left.
unfoldable pub copy_on_state :
    List Chunk
    → Bool
    → Writing × Result StatementError (Unit {0})
    → Writing × Result StatementError (Unit {0})
copy_on_state chunks commits (w, throw problem) = (w, throw problem)
copy_on_state chunks commits (w, ok made) =
    let (session, result) = copy chunks commits w.session in
    (destroy_write_global (record w { session = session }), copy_result result)

unfoldable pub copy_to :
    Strings
    → CopyCalls
    → OracleWriteBindData
    → List Chunk
    → Writing
    → Writing × Result StatementError (Unit {0})
unfolding init_write_global copy_on_state
copy_to str calls bind chunks w =
    copy_on_state chunks calls.commits (init_write_global str calls bind w)
