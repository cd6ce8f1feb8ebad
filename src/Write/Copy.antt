-- ===== src/Write/Copy.antt =====
-- A whole COPY of src/storage/oracle_write.cpp: `OracleWriteSink` on each chunk, then
-- `OracleWriteFinalize`. The session comes from the pool and goes back to it as it is, also where a
-- chunk has thrown.
pub mod Outcome
mod Tests
use duckdb_oracle.Base.{
  ℕ, zero, suc, ◌+◌, ◌-◌, ◌*◌, ◌/◌, ◌%◌, ◌^◌, ◌≤◌, ◌<◌, ◌≡◌, ◌≢◌, ◌↔◌, ◌⊎◌, inl, inr, refl, sym, ap,
  ◌∙◌, subst, Bool, true, false, not, ◌&&◌, ◌||◌, Option, none, some, List, [], ◌∷◌, ◌++◌, map,
  arith, ltb, leb, ◌==◌, if◌then◌else◌, ==_refl, ==_iff, Bool-cases, Option-cases, Result, ok,
  throw, throw_if, >>=-eq-ok, ok-injective, length, get_elem?, take, drop, replicate, length-append,
  take-append_self, drop-append_self, length-replicate, length-map, All, Text, lit, text_eq,
  text_eq_iff, text_eq_refl, empty, has, index, find, substr, substr_from, decimal, ℤ, pos, negsuc,
  to_idx, is_le_zero, is_gt, u64_mod, String,
}
use duckdb_oracle.Write.Buffers.{ColumnBuffer, WriteError, oci_error, read_rows}
use duckdb_oracle.Write.Sink.{Oci, sink_texts}

-- The columns of the rows that one execution inserts.
abbrev pub Batch : Type 0
Batch = List (List (Option Text))

-- What the session has inserted and not committed, and what it has committed, in their order.
pub record Session : Type 0 where
  pub pending : List Batch
  pub committed : List Batch

-- A chunk, what the environment decides about it, and the batches that its execution inserts if it
-- fails.
pub record Chunk : Type 0 where
  pub count : ℕ
  pub columns : List (List (Option Text))
  pub oci : Oci
  pub partial : List Batch

-- What OCI reads from the buffers; nothing is executed for a chunk without rows.
abbrev pub batches_of : ℕ → List ColumnBuffer → List Batch
batches_of zero bs = []
batches_of (suc count) bs = map (λ b. read_rows b 0 (suc count)) bs ∷ []

unfoldable pub insert_chunks :
    List Chunk → List ColumnBuffer → Session → Session × Result WriteError (Unit {0})
insert_chunks [] bs s = (s, ok tt)
insert_chunks (c ∷ chunks) bs s = elim (sink_texts c.oci bs c.count c.columns) [
  | throw problem ↦ (record s { pending = s.pending ++ c.partial }, throw problem)
  | ok out ↦ insert_chunks chunks out (record s { pending = s.pending ++ batches_of c.count out })
]

-- `OracleWriteFinalize`; `commits` is whether `OCITransCommit` succeeds.
unfoldable pub finalize :
    Bool → Session × Result WriteError (Unit {0}) → Session × Result WriteError (Unit {0})
finalize commits (s, throw problem) = (s, throw problem)
finalize commits (s, ok done) =
    if commits
    then (record { pending = []; committed = s.committed ++ s.pending }, ok tt)
    else (s, throw oci_error)

-- The buffers of a COPY start empty.
unfoldable pub copy : List Chunk → Bool → Session → Session × Result WriteError (Unit {0})
unfolding insert_chunks finalize
copy chunks commits s = finalize commits (insert_chunks chunks [] s)
