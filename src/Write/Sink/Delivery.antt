-- ===== src/Write/Sink/Delivery.antt =====
-- What a batch of src/storage/oracle_write.cpp delivers.
use duckdb_oracle.Base.{
  ℕ, zero, suc, ◌<◌, ◌≡◌, ◌⊎◌, inl, inr, refl, ap, ◌∙◌, subst, true, ◌||◌, Option, List, [], ◌∷◌,
  map, arith, Bool-cases, ok, length, All, Text,
}
use duckdb_oracle.Write.Buffers.{ColumnBuffer, bind_column, read_rows}
use duckdb_oracle.Write.Buffers.Slots.{
  IsShort, bind_column_total, bind_column_reads, bind_column_same,
}
use duckdb_oracle.Write.Sink.{
  Slot, prepare, Oci, pair_up, any_grows, bind_all, sink_texts, no_buffers,
}
use duckdb_oracle.Write.Sink.Sizing.{IsSized, IsReady, prepare-IsReady, rebind_all_total}

-- Buffer by buffer, OCI reads the cells of the column, and the buffer is sized for the next chunk.
abbrev pub Delivers : List ColumnBuffer → List (List (Option Text)) → Type 0
Delivers [] [] = Unit {0}
Delivers [] (cells ∷ columns) = ⊥
Delivers (b ∷ bs) [] = ⊥
Delivers (b ∷ bs) (cells ∷ columns) =
    IsSized b × (read_rows b 0 (length cells) ≡ cells) × Delivers bs columns

abbrev cells_of : List Slot → List (List (Option Text))
cells_of = map (λ slot. slot.cells)

bind_column-IsSized :
    (cells : List (Option Text)) (b c : ColumnBuffer) (i : ℕ)
    → bind_column b i cells ≡ ok c
    → IsSized b
    → IsSized c
bind_column-IsSized cells b c i e sized =
    let same = bind_column_same cells b c i e in
    record { room = omega (arith, same, sized.room); told = omega (arith, same, sized.told) }

bind_all-Delivers :
    (slots : List Slot)
    → All IsReady slots
    → All (All IsShort) (cells_of slots)
    → (bs : List ColumnBuffer) × (bind_all slots ≡ ok bs) × Delivers bs (cells_of slots)
unfolding bind_all
bind_all-Delivers [] ready short = ([], refl, tt)
bind_all-Delivers (slot ∷ slots) ready short =
    let (b, e) = bind_column_total slot.cells slot.buffer 0 ready.0.fits in
    let (bs, e', d) = bind_all-Delivers slots ready.1 short.1 in
    let reads = bind_column_reads slot.cells slot.buffer b 0 e ready.0.sized.told short.0 in
    (
      b ∷ bs,
      rw (e, e') refl,
      (bind_column-IsSized slot.cells slot.buffer b 0 e ready.0.sized, reads, d),
    )

-- The columns of a chunk find their buffers: there are none yet, or one for each column.
abbrev pub Matches : List ColumnBuffer → List (List (Option Text)) → Type 0
Matches bs columns = (bs ≡ []) ⊎ (length bs ≡ length columns)

cells_of-pair_up :
    (bs : List ColumnBuffer) (columns : List (List (Option Text)))
    → Matches bs columns
    → cells_of (pair_up bs columns) ≡ columns
unfolding pair_up
cells_of-pair_up [] [] h = refl
cells_of-pair_up [] (cells ∷ columns) h = ap (◌∷◌ cells) (cells_of-pair_up [] columns (inl refl))
cells_of-pair_up (b ∷ bs) [] h = ground arith
cells_of-pair_up (b ∷ bs) (cells ∷ columns) h =
    ap (◌∷◌ cells) (cells_of-pair_up bs columns (inr (ground arith)))

prepare_total :
    (oci : Oci) (bs : List ColumnBuffer) (columns : List (List (Option Text)))
    → ((col : ℕ) → oci.accepts_bind col ≡ true)
    → (bound : List Slot) × (prepare oci bs columns ≡ ok bound)
unfolding prepare
prepare_total oci bs columns all =
    let slots = pair_up bs columns in
    elim (Bool-cases (no_buffers bs || any_grows slots)) [
      | inl yes_bind ↦ rw yes_bind (rebind_all_total oci.accepts_bind 0 slots all)
      | inr still ↦ rw still (slots, refl)
    ]

-- If the buffers are sized, there are none yet or one for each column, and OCI accepts the binds
-- and the batch: a chunk with rows, whose texts are shorter than 64 KiB, is inserted with no
-- exception, OCI reads in every column and row the text or the NULL of the chunk, and the buffers
-- are sized for the next chunk.
pub sink_texts-Delivers :
    (oci : Oci) (bs : List ColumnBuffer) (count : ℕ) (columns : List (List (Option Text)))
    → 0 < count
    → All IsSized bs
    → Matches bs columns
    → All (All IsShort) columns
    → ((col : ℕ) → oci.accepts_bind col ≡ true)
    → oci.executes count ≡ true
    → (out : List ColumnBuffer) × (sink_texts oci bs count columns ≡ ok out) × Delivers out columns
unfolding sink_texts
sink_texts-Delivers oci bs zero columns h sized fit short binds runs = absurd (omega arith)
sink_texts-Delivers oci bs (suc count) columns h sized fit short binds runs =
    let (bound, e) = prepare_total oci bs columns binds in
    let (ready, same) = prepare-IsReady oci bs columns bound sized e in
    let cells_are : cells_of bound ≡ columns = same ∙ cells_of-pair_up bs columns fit in
    let (out, e', d) = bind_all-Delivers bound ready (rw cells_are short) in
    (out, rw (e, e', runs) refl, subst (Delivers out) cells_are d)
