-- ===== src/Write/Sink.antt =====
-- `OracleWriteLocalState::Sink` of src/storage/oracle_write.cpp: buffers are sized for a chunk, bound
-- again where they grew, filled and executed.
mod Tests
pub mod Sizing
pub mod Delivery
use duckdb_oracle.Base.{
  ℕ, zero, suc, ◌+◌, ◌-◌, ◌*◌, ◌/◌, ◌%◌, ◌^◌, ◌≤◌, ◌<◌, ◌≡◌, ◌≢◌, ◌↔◌, ◌⊎◌, inl, inr, refl, sym, ap,
  ◌∙◌, subst, Bool, true, false, not, ◌&&◌, ◌||◌, Option, none, some, List, [], ◌∷◌, ◌++◌, map,
  arith, ltb, leb, ◌==◌, if◌then◌else◌, ==_refl, ==_iff, Bool-cases, Option-cases, Result, ok,
  throw, ◌>>=◌, ◌>>◌, throw_if, >>=-eq-ok, ok-injective, length, get_elem?, take, drop, replicate,
  length-append, take-append_self, drop-append_self, length-replicate, length-map, All, Text, lit,
  text_eq, text_eq_iff, text_eq_refl, empty, has, index, find, substr, substr_from, decimal, ℤ, pos,
  negsuc, to_idx, is_le_zero, is_gt, u64_mod, String,
}
use duckdb_oracle.Duckdb.{Values}
use duckdb_oracle.Write.Buffers.{
  ColumnBuffer, WriteError, value_too_large, oci_error, bind_column, read_row, max_batch_size,
}

-- `(x + 3) & ~3`
abbrev align : ℕ → ℕ
align x = (x + 3) / 4 * 4

-- `max_len` over the rows of a column that are valid.
pub max_length : List (Option Text) → ℕ → ℕ
max_length [] max_len = max_len
max_length (none ∷ cells) max_len = max_length cells max_len
max_length (some t ∷ cells) max_len =
    max_length cells (if ltb max_len (length t) then length t else max_len)

unfoldable pub required_size : List (Option Text) → ℕ
unfolding max_length
required_size cells =
    let max_len = max_length cells 0 in align (if ltb 4096 max_len then max_len + 32 else 4096)

abbrev fresh_buffer : ColumnBuffer
fresh_buffer = record {
  bytes = λ _. 0;
  capacity = 0;
  element_size = 0;
  is_null = λ _. false;
  lengths = λ _. 0;
  bound_size = 0;
}

-- A column of the chunk with its buffer.
pub record Slot : Type 0 where
  pub buffer : ColumnBuffer
  pub cells : List (Option Text)

abbrev must_grow : Slot → Bool
must_grow slot = ltb slot.buffer.element_size (required_size slot.cells)

pub any_grows : List Slot → Bool
any_grows [] = false
any_grows (slot ∷ slots) = must_grow slot || any_grows slots

-- The two sizes of a buffer that grows, then `OCIBindByPos` and `OCIBindArrayOfStruct`.
abbrev grow : Slot → ColumnBuffer
grow slot =
    let size = required_size slot.cells in
    if must_grow slot
    then record slot.buffer { element_size = size; capacity = max_batch_size * size }
    else slot.buffer

abbrev rebind : Slot → Slot
rebind slot = let b = grow slot in record slot { buffer = record b { bound_size = b.element_size } }

-- Each bind call may fail.
pub rebind_all : (ℕ → Bool) → ℕ → List Slot → Result WriteError (List Slot)
rebind_all accepts col [] = ok []
rebind_all accepts col (slot ∷ slots) = do
  throw_if (not (accepts col)) oci_error
  rest ← rebind_all accepts (col + 1) slots
  ok (rebind slot ∷ rest)

-- `BindColumn` on every column.
pub bind_all : List Slot → Result WriteError (List ColumnBuffer)
bind_all [] = ok []
bind_all (slot ∷ slots) = do
  b ← bind_column slot.buffer 0 slot.cells
  rest ← bind_all slots
  ok (b ∷ rest)

-- `bind_buffers.empty()` makes fresh buffers, one for each column of the chunk. All chunks of a COPY
-- are as wide as its first, so a chunk never meets buffers that are fewer.
pub pair_up : List ColumnBuffer → List (List (Option Text)) → List Slot
pair_up [] [] = []
pair_up [] (cells ∷ columns) = record { buffer = fresh_buffer; cells = cells } ∷ pair_up [] columns
pair_up (b ∷ bs) [] = []
pair_up (b ∷ bs) (cells ∷ columns) = record { buffer = b; cells = cells } ∷ pair_up bs columns

abbrev no_buffers : List ColumnBuffer → Bool
no_buffers [] = true
no_buffers (b ∷ bs) = false

-- What the environment decides: whether OCI accepts the bind of a column and the batch.
pub record Oci : Type 0 where
  pub accepts_bind : ℕ → Bool
  pub executes : ℕ → Bool

-- The check for a rebind, and the bind calls if there is one.
pub prepare : Oci → List ColumnBuffer → List (List (Option Text)) → Result WriteError (List Slot)
prepare oci bs columns =
    let slots = pair_up bs columns in
    if no_buffers bs || any_grows slots then rebind_all oci.accepts_bind 0 slots else ok slots

-- `count` rows in `columns`, each cell the text that `ToString` or `StringValue::Get` gives.
unfoldable pub sink_texts :
    Oci → List ColumnBuffer → ℕ → List (List (Option Text)) → Result WriteError (List ColumnBuffer)
sink_texts oci bs zero columns = ok bs
sink_texts oci bs (suc count) columns = do
  bound ← prepare oci bs columns
  filled ← bind_all bound
  throw_if (not (oci.executes (suc count))) oci_error
  ok filled

module _ (v : Values) where
  open v use {Value, to_string, is_blob, get_string}

  pub cell_text : Value → Text
  cell_text val = if is_blob val then get_string val else to_string val

  abbrev column_texts : List (Option Value) → List (Option Text)
  column_texts [] = []
  column_texts (none ∷ vals) = none ∷ column_texts vals
  column_texts (some val ∷ vals) = some (cell_text val) ∷ column_texts vals

  pub sink :
      Oci
      → List ColumnBuffer
      → ℕ
      → List (List (Option Value))
      → Result WriteError (List ColumnBuffer)
  sink oci bs count columns = sink_texts oci bs count (map column_texts columns)
