-- ===== src/Write/Copy/Outcome.antt =====
-- What a COPY of src/storage/oracle_write.cpp leaves in the database and in its session.
use mathlib.Core.List.{append-nil, append_assoc}
use duckdb_oracle.Base.{
  zero, suc, not, ◌>>=◌, ◌>>◌, throw_if, Bool, true, false, ◌>>=◌, ℕ, zero, suc, ◌<◌, ◌≡◌, ◌⊎◌, inl,
  inr, refl, sym, ap, ◌∙◌, Bool, true, false, not, Option, List, [], ◌∷◌, ◌++◌, map, arith, Result,
  ok, throw, throw_if, length, All, Text,
}
use duckdb_oracle.Write.Buffers.{ColumnBuffer, WriteError, oci_error, read_rows}
use duckdb_oracle.Write.Buffers.Slots.{IsShort}
use duckdb_oracle.Write.Sink.{Slot, prepare, bind_all, Oci, sink_texts, prepare, bind_all}
use duckdb_oracle.Write.Sink.Sizing.{IsSized}
use duckdb_oracle.Write.Sink.Delivery.{Delivers, Matches, sink_texts-Delivers}
use duckdb_oracle.Write.Copy.{Session, Chunk, batches_of, insert_chunks, finalize, copy}

-- A chunk with rows, as wide as the table, of texts under 64 KiB, that OCI accepts.
pub record IsGood (width : ℕ) (c : Chunk) : Type 0 where
  pub some_rows : 0 < c.count
  pub wide : length c.columns ≡ width
  pub tall : All (λ cells. length cells ≡ c.count) c.columns
  pub short : All (All IsShort) c.columns
  pub binds : (col : ℕ) → c.oci.accepts_bind col ≡ true
  pub executes : c.oci.executes c.count ≡ true

-- A chunk with rows whose execution OCI refuses.
pub record IsRefused (c : Chunk) : Type 0 where
  pub some_rows : 0 < c.count
  pub refused : c.oci.executes c.count ≡ false

Delivers-columns :
    (bs : List ColumnBuffer) (columns : List (List (Option Text))) (count : ℕ)
    → Delivers bs columns
    → All (λ cells. length cells ≡ count) columns
    → map (λ b. read_rows b 0 count) bs ≡ columns
Delivers-columns [] [] count d tall = refl
Delivers-columns [] (cells ∷ columns) count d tall = absurd d
Delivers-columns (b ∷ bs) [] count d tall = absurd d
Delivers-columns (b ∷ bs) (cells ∷ columns) count (sized, reads, d) (tall, more) =
    ap (λ n. read_rows b 0 n ∷ map (λ c. read_rows c 0 count) bs) (sym tall)
    ∙ ap (λ cs. cs ∷ map (λ c. read_rows c 0 count) bs) reads
    ∙ ap (◌∷◌ cells) (Delivers-columns bs columns count d more)

Delivers-IsSized :
    (bs : List ColumnBuffer) (columns : List (List (Option Text)))
    → Delivers bs columns
    → All IsSized bs × (length bs ≡ length columns)
Delivers-IsSized [] [] d = (tt, refl)
Delivers-IsSized [] (cells ∷ columns) d = absurd d
Delivers-IsSized (b ∷ bs) [] d = absurd d
Delivers-IsSized (b ∷ bs) (cells ∷ columns) (sized, reads, d) =
    let (all, same) = Delivers-IsSized bs columns d in ((sized, all), ap suc same)

batches-columns :
    (count : ℕ) (bs : List ColumnBuffer) (columns : List (List (Option Text)))
    → 0 < count
    → map (λ b. read_rows b 0 count) bs ≡ columns
    → batches_of count bs ≡ columns ∷ []
batches-columns zero bs columns h e = absurd (omega arith)
batches-columns (suc count) bs columns h e = ap (λ batch. batch ∷ []) e

insert_ok :
    (c : Chunk) (chunks : List Chunk) (bs out : List ColumnBuffer) (s : Session)
    → sink_texts c.oci bs c.count c.columns ≡ ok out
    → insert_chunks (c ∷ chunks) bs s
      ≡ insert_chunks chunks out (record s { pending = s.pending ++ batches_of c.count out })
unfolding insert_chunks
insert_ok c chunks bs out s e =
    ap
      (λ r. elim r [
        | throw problem ↦ (record s { pending = s.pending ++ c.partial }, throw problem)
        | ok bs' ↦
            insert_chunks chunks bs' (record s { pending = s.pending ++ batches_of c.count bs' })
      ])
      e

insert_throw :
    (c : Chunk) (chunks : List Chunk) (bs : List ColumnBuffer) (s : Session) (problem : WriteError)
    → sink_texts c.oci bs c.count c.columns ≡ throw problem
    → insert_chunks (c ∷ chunks) bs s
      ≡ (record s { pending = s.pending ++ c.partial }, throw problem)
unfolding insert_chunks
insert_throw c chunks bs s problem e =
    ap
      (λ r. elim r [
        | throw problem' ↦ (record s { pending = s.pending ++ c.partial }, throw problem')
        | ok bs' ↦
            insert_chunks chunks bs' (record s { pending = s.pending ++ batches_of c.count bs' })
      ])
      e

by_fill :
    (filled : Result WriteError (List ColumnBuffer)) (fails : Bool)
    → fails ≡ true
    → (problem : WriteError) × ((filled >>= λ bs. (throw_if fails oci_error >> ok bs))
        ≡ throw problem)
by_fill (throw problem) fails h = (problem, refl)
by_fill (ok bs) true h = (oci_error, refl)
by_fill (ok bs) false h = cc

by_steps :
    (prepared : Result WriteError (List Slot)) (fails : Bool)
    → fails ≡ true
    → (problem : WriteError) × ((prepared >>= λ bound.
          (bind_all bound >>= λ bs. (throw_if fails oci_error >> ok bs)))
        ≡ throw problem)
by_steps (throw problem) fails h = (problem, refl)
by_steps (ok bound) fails h = by_fill (bind_all bound) fails h

-- Whatever the buffers are, a refused batch throws.
sink_texts-refused :
    (oci : Oci) (bs : List ColumnBuffer) (count : ℕ) (columns : List (List (Option Text)))
    → 0 < count
    → oci.executes count ≡ false
    → (problem : WriteError) × (sink_texts oci bs count columns ≡ throw problem)
unfolding sink_texts
sink_texts-refused oci bs zero columns h refused = absurd (omega arith)
sink_texts-refused oci bs (suc count) columns h refused =
    by_steps (prepare oci bs columns) (not (oci.executes (suc count))) (ap not refused)

insert_none : (bs : List ColumnBuffer) (s : Session) → insert_chunks [] bs s ≡ (s, ok tt)
unfolding insert_chunks
insert_none bs s = refl

insert_good :
    (width : ℕ) (chunks rest : List Chunk) (bs : List ColumnBuffer) (s : Session)
    → All (IsGood width) chunks
    → All IsSized bs
    → (bs ≡ []) ⊎ (length bs ≡ width)
    → (out : List ColumnBuffer) × (insert_chunks (chunks ++ rest) bs s
        ≡ insert_chunks rest out (record s { pending = s.pending ++ map (λ c. c.columns) chunks }))
insert_good width [] rest bs s good sized fit =
    (bs, ap (λ p. insert_chunks rest bs (record s { pending = p })) (sym (append-nil s.pending)))
insert_good width (c ∷ chunks) rest bs s (g, good) sized fit =
    let matches : Matches bs c.columns = elim fit [
      | inl e ↦ inl e
      | inr e ↦ inr (e ∙ sym g.wide)
    ] in
    let (filled, e, d) =
      sink_texts-Delivers c.oci bs c.count c.columns g.some_rows sized matches g.short g.binds
        g.executes in
    let (all, same) = Delivers-IsSized filled c.columns d in
    let batch =
      batches-columns c.count filled c.columns g.some_rows
        (Delivers-columns filled c.columns c.count d g.tall) in
    let next : Session = record s { pending = s.pending ++ (c.columns ∷ []) } in
    let (out, e') = insert_good width chunks rest filled next good all (inr (same ∙ g.wide)) in
    (
      out,
      insert_ok c (chunks ++ rest) bs filled s e
          ∙ ap (λ b. insert_chunks (chunks ++ rest) filled (record s { pending = s.pending ++ b }))
              batch
          ∙ e'
          ∙ ap (λ p. insert_chunks rest out (record s { pending = p }))
              (append_assoc s.pending (c.columns ∷ []) (map (λ d. d.columns) chunks)),
    )

-- A COPY of good chunks commits what was pending, and then these chunks.
pub copy-good :
    (width : ℕ) (chunks : List Chunk) (s : Session)
    → All (IsGood width) chunks
    → copy chunks true s ≡ (
      record {
        pending = [];
        committed = s.committed ++ (s.pending ++ map (λ c. c.columns) chunks);
      },
      ok tt,
    )
unfolding copy finalize
copy-good width chunks s good =
    let (out, e) = insert_good width chunks [] [] s good tt (inl refl) in
    ap (λ cs. copy cs true s) (sym (append-nil chunks)) ∙ ap (finalize true) (e ∙ insert_none out _)

-- Chunks with rows, as wide as the table, of texts under 64 KiB, that OCI accepts: a COPY of them
-- whose commit succeeds commits what was pending in its session, and then exactly these chunks, in
-- their order. If a chunk after them is refused, the COPY throws, commits nothing and leaves them
-- pending, with what the refused batch has inserted; so the next COPY on that session that
-- succeeds commits them too.
pub copy-pending :
    (width : ℕ) (chunks rest : List Chunk) (bad : Chunk) (commits : Bool) (s : Session)
    → All (IsGood width) chunks
    → IsRefused bad
    → (copy chunks true s ≡ (
      record {
        pending = [];
        committed = s.committed ++ (s.pending ++ map (λ c. c.columns) chunks);
      },
      ok tt,
    ))
      × ((problem : WriteError) × (copy (chunks ++ (bad ∷ rest)) commits s ≡ (
        record s { pending = (s.pending ++ map (λ c. c.columns) chunks) ++ bad.partial },
        throw problem,
      )))
unfolding copy finalize
copy-pending width chunks rest bad commits s good h =
    let (out, e) = insert_good width chunks (bad ∷ rest) [] s good tt (inl refl) in
    let (problem, thrown) =
      sink_texts-refused bad.oci out bad.count bad.columns h.some_rows h.refused in
    (
      copy-good width chunks s good,
      (problem, ap (finalize commits) (e ∙ insert_throw bad rest out _ problem thrown)),
    )
