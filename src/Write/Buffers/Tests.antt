-- ===== src/Write/Buffers/Tests.antt =====
-- A text that `BindColumn` of src/storage/oracle_write.cpp cuts.
use duckdb_oracle.Base.{
  ℕ, ◌*◌, ◌^◌, ◌≡◌, ◌≢◌, false, some, [], ◌∷◌, arith, ok, length, replicate, length-replicate, Text,
}
use duckdb_oracle.Write.Buffers.{ColumnBuffer, bind_column, store_text, read_row}
use duckdb_oracle.Write.Buffers.Slots.{bind_column_cuts_long}

abbrev long_text : Text
long_text = replicate (2 ^ 16) 120

abbrev roomy : ColumnBuffer
roomy = record {
  bytes = λ _. 0;
  capacity = 2048 * 2 ^ 17;
  element_size = 2 ^ 17;
  is_null = λ _. false;
  lengths = λ _. 0;
  bound_size = 2 ^ 17;
}

long_length : length long_text ≡ 2 ^ 16
long_length = length-replicate {A = ℕ} (2 ^ 16) 120

binds_long : bind_column roomy 0 (some long_text ∷ []) ≡ ok (store_text roomy 0 long_text)
unfolding bind_column
binds_long = ground (arith, long_length)

bind_column_cuts_long_example : read_row (store_text roomy 0 long_text) 0 ≢ some long_text
bind_column_cuts_long_example =
    bind_column_cuts_long long_text [] roomy (store_text roomy 0 long_text) 0 binds_long
      (omega (arith, long_length))
