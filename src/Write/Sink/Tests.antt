-- ===== src/Write/Sink/Tests.antt =====
-- Runs of `Sink` of src/storage/oracle_write.cpp on small chunks.
use duckdb_oracle.Base.{
  ◌≡◌, inl, refl, true, Option, none, some, List, [], ◌∷◌, map, arith, ok, All, Text, lit,
}
use duckdb_oracle.Write.Buffers.{ColumnBuffer}
use duckdb_oracle.Write.Sink.{Oci, Slot, prepare, rebind, rebind_all, pair_up, sink_texts}
use duckdb_oracle.Write.Sink.Sizing.{WritesInside, prepare-WritesInside}
use duckdb_oracle.Write.Sink.Delivery.{Delivers, sink_texts-Delivers}

abbrev willing : Oci
willing = record { accepts_bind = λ _. true; executes = λ _. true }

-- Two columns of two rows.
abbrev chunk : List (List (Option Text))
chunk = (some (lit "1") ∷ none ∷ []) ∷ (some (lit "x") ∷ some (lit "yz") ∷ []) ∷ []

sink_texts-Delivers_example :
    (out : List ColumnBuffer) × (sink_texts willing [] 2 chunk ≡ ok out) × Delivers out chunk
unfolding lit
sink_texts-Delivers_example =
    sink_texts-Delivers willing [] 2 chunk (omega arith) tt (inl refl) (ground arith) (λ col. refl)
      refl

abbrev bound : List Slot
bound = map rebind (pair_up [] chunk)

prepares : prepare willing [] chunk ≡ ok bound
unfolding prepare pair_up rebind_all
prepares = refl

prepare-WritesInside_example : All (λ slot. WritesInside slot.buffer 0 slot.cells) bound
unfolding pair_up
prepare-WritesInside_example =
    prepare-WritesInside willing [] chunk bound tt (ground arith) prepares
