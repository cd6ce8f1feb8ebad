-- ===== src/Write/Buffers.antt =====
-- The bind buffers of `OracleWriteLocalState` of src/storage/oracle_write.cpp: `BindColumn`, and the
-- bytes that OCI then reads.
-- A buffer is its size and a function from offsets to bytes.
mod Tests
pub mod Slots
use duckdb_oracle.Base.{
  ℕ, zero, suc, ◌+◌, ◌-◌, ◌*◌, ◌/◌, ◌%◌, ◌^◌, ◌≤◌, ◌<◌, ◌≡◌, ◌≢◌, ◌↔◌, ◌⊎◌, inl, inr, refl, sym, ap,
  ◌∙◌, subst, Bool, true, false, not, ◌&&◌, ◌||◌, Option, none, some, List, [], ◌∷◌, ◌++◌, map,
  arith, ltb, leb, ◌==◌, if◌then◌else◌, ==_refl, ==_iff, Bool-cases, Option-cases, Result, ok,
  throw, ◌>>=◌, ◌>>◌, throw_if, >>=-eq-ok, ok-injective, length, get_elem?, take, drop, replicate,
  length-append, take-append_self, drop-append_self, length-replicate, length-map, All, Text, lit,
  text_eq, text_eq_iff, text_eq_refl, empty, has, index, find, substr, substr_from, decimal, ℤ, pos,
  negsuc, to_idx, is_le_zero, is_gt, u64_mod, String,
}

pub data WriteError : Type 0 where
  value_too_large : WriteError
  oci_error : WriteError

-- One column's entries of `bind_buffers`, `indicator_buffers`, `length_buffers` and
-- `current_buffer_sizes`, and the size that the last `OCIBindByPos` was told.
pub record ColumnBuffer : Type 0 where
  pub bytes : ℕ → ℕ
  pub capacity : ℕ
  pub element_size : ℕ
  pub is_null : ℕ → Bool
  pub lengths : ℕ → ℕ
  pub bound_size : ℕ

abbrev pub max_batch_size : ℕ
max_batch_size = 2048

-- `static_cast<ub2>`
abbrev pub to_ub2 : ℕ → ℕ
to_ub2 n = n % 2 ^ 16

abbrev pub put_at {ℓ} : {A : Type ℓ} → (ℕ → A) → ℕ → A → ℕ → A
put_at f i a k = if k == i then a else f k

-- `memcpy(data + off, t.c_str(), t.size())`
pub memcpy : (ℕ → ℕ) → ℕ → Text → ℕ → ℕ
memcpy f off [] = f
memcpy f off (c ∷ t) = memcpy (put_at f off c) (off + 1) t

abbrev pub store_null : ColumnBuffer → ℕ → ColumnBuffer
store_null b i = record b { is_null = put_at b.is_null i true; lengths = put_at b.lengths i 0 }

abbrev pub store_text : ColumnBuffer → ℕ → Text → ColumnBuffer
store_text b i t = record b {
  bytes = memcpy b.bytes (i * b.element_size) t;
  is_null = put_at b.is_null i false;
  lengths = put_at b.lengths i (to_ub2 (length t));
}

-- The loop of `BindColumn` from row `i` on, over the texts of the rows that are left.
pub bind_column : ColumnBuffer → ℕ → List (Option Text) → Result WriteError ColumnBuffer
bind_column b i [] = ok b
bind_column b i (none ∷ cells) = bind_column (store_null b i) (i + 1) cells
bind_column b i (some t ∷ cells) =
    let rest = bind_column (store_text b i t) (i + 1) cells in
    if ltb b.element_size (length t) then throw value_too_large else rest

-- What OCI reads of row `i` after `OCIBindArrayOfStruct` with the bound size as data skip.
abbrev pub read_bytes : (ℕ → ℕ) → ℕ → ℕ → Text
read_bytes f off zero = []
read_bytes f off (suc n) = f off ∷ read_bytes f (off + 1) n

pub read_row : ColumnBuffer → ℕ → Option Text
read_row b i =
    if b.is_null i then none else some (read_bytes b.bytes (i * b.bound_size) (b.lengths i))

-- What OCI reads of the `n` rows from row `i` on.
abbrev pub read_rows : ColumnBuffer → ℕ → ℕ → List (Option Text)
read_rows b i zero = []
read_rows b i (suc n) = read_row b i ∷ read_rows b (i + 1) n
