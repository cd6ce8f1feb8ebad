-- ===== src/Write/Statement/Inserts.antt =====
-- What a COPY of src/storage/oracle_write.cpp that nothing refuses does, from its statement to its
-- commit.
use duckdb_oracle.Base.{
  ◌-◌, ◌∙◌, ap, Result, All, List, ℕ, map, empty, if◌then◌else◌, ◌++◌, arith, lit, ◌+◌, Text, ◌≡◌,
  true, ok, [], ◌∷◌,
}
use duckdb_oracle.Base.Joined.{separated}
use duckdb_oracle.Duckdb.{Strings}
use duckdb_oracle.Write.Bind.{OracleWriteBindData}
use duckdb_oracle.Write.Insert.{insert_sql}
use duckdb_oracle.Write.Insert.Columns.{insert_sql-separated, placeholders}
use duckdb_oracle.Write.Copy.{Session, Chunk, copy}
use duckdb_oracle.Write.Copy.Outcome.{IsGood, copy-good}
use duckdb_oracle.Write.Statement.{
  WriteError, StatementError, copy_result, copy_to, copy_on_state, destroy_write_global, Chunk,
  copy_on_state, copy_to, CopyCalls, Writing, init_write_global,
}

-- The INSERT of a bind.
abbrev pub insert_text : Strings → OracleWriteBindData → Text
insert_text str bind =
    lit "INSERT /*+ APPEND_VALUES */ INTO "
    ++ ((if empty bind.schema_name then [] else str.write_quoted bind.schema_name ++ lit ".")
        ++ (str.write_quoted bind.object_name
            ++ (lit " ("
                ++ (separated (map str.write_quoted bind.column_names)
                    ++ (lit ") VALUES ("
                        ++ (separated (placeholders str 0 bind.oracle_types) ++ lit ")"))))))

module _ (str : Strings) (calls : CopyCalls) (bind : OracleWriteBindData) where
  -- The state of a COPY whose statement is prepared.
  abbrev prepared_state : Writing → Writing
  prepared_state w = record w {
    statements = w.statements + 1;
    prepared = insert_sql str bind ∷ w.prepared;
  }

  init_write_global-succeeds :
      (w : Writing)
      → calls.acquires ≡ true
      → calls.allocates ≡ true
      → calls.prepares (insert_sql str bind) ≡ true
      → init_write_global str calls bind w ≡ (prepared_state w, ok tt)
  unfolding init_write_global
  init_write_global-succeeds w acquired allocated prepared = ground arith

  -- The session is given, and the handle and the INSERT are accepted; the chunks have rows, as wide as
  -- the table, of texts under 64 KiB that OCI accepts, and the commit succeeds. Then the COPY prepares
  -- one statement, the INSERT that lists the quoted columns and one placeholder for each type, each
  -- list with commas between its items; it commits what was pending in its session and then exactly
  -- the chunks, in order, and it leaves as many statement handles as before.
  pub copy_to-inserts :
      (width : ℕ) (chunks : List Chunk) (w : Writing)
      → calls.acquires ≡ true
      → calls.allocates ≡ true
      → calls.prepares (insert_text str bind) ≡ true
      → calls.commits ≡ true
      → All (IsGood width) chunks
      → copy_to str calls bind chunks w ≡ (
        record {
          session = record {
            pending = [];
            committed = w.session.committed ++ (w.session.pending ++ map (λ c. c.columns) chunks);
          };
          statements = w.statements;
          prepared = insert_text str bind ∷ w.prepared;
        },
        ok tt,
      )
  unfolding copy_to copy_on_state
  copy_to-inserts width chunks w acquired allocated prepared commits good =
      let text = insert_sql-separated str bind in
      let leave : Session × Result WriteError (Unit {0})
          → Writing × Result StatementError (Unit {0}) =
        λ done. (
          destroy_write_global (record (prepared_state w) { session = done.0 }),
          copy_result done.1,
        ) in
      let final : ℕ → Text → Writing × Result StatementError (Unit {0}) = λ statements sql. (
        record {
          session = record {
            pending = [];
            committed = w.session.committed ++ (w.session.pending ++ map (λ c. c.columns) chunks);
          };
          statements = statements;
          prepared = sql ∷ w.prepared;
        },
        ok tt,
      ) in
      let same : w.statements + 1 - 1 ≡ w.statements = omega arith in
      ap (copy_on_state chunks calls.commits)
        (init_write_global-succeeds w acquired allocated (ap calls.prepares text ∙ prepared))
      ∙ ap (λ c. leave (copy chunks c w.session)) commits
      ∙ ap leave (copy-good width chunks w.session good)
      ∙ ap (λ n. final n (insert_sql str bind)) same
      ∙ ap (final w.statements) text
