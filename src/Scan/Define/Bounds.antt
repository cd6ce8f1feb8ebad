-- ===== src/Scan/Define/Bounds.antt =====
-- The reads of `OracleQueryFunction` in src/oracle_extension.cpp stay inside the fetch buffers.
use duckdb_oracle.Base.{ℕ, ◌+◌, ◌*◌, ◌^◌, ◌≤◌, ◌<◌, ◌≡◌, ◌/◌, ◌%◌, subst, some, arith, get_elem?}
use duckdb_oracle.Pushdown.{OracleBindData}
use duckdb_oracle.Scan.Describe.{LogicalTypeId}
use duckdb_oracle.Scan.Define.{
  define_size, buffer_length, define_column, element_size, row_offset, vector_size,
}

define_size_room :
    (n : ℕ) → n < 2 ^ 30 → (n * 4 ≤ define_size (some n)) × (0 < define_size (some n))
unfolding define_size
define_size_room n h = ground arith

define_size_small :
    (n : ℕ)
    → n < 2 ^ 19
    → define_size (some n) * vector_size % 2 ^ 32 ≡ define_size (some n) * vector_size
unfolding define_size
define_size_small n h = ground arith

row_inside :
    (row len size : ℕ) → row < vector_size → len ≤ size → row * size + len ≤ size * vector_size
row_inside row len size inside short = grind arith

stride : (size : ℕ) → size * vector_size < 2 ^ 32 → size * vector_size / vector_size % 2 ^ 32 ≡ size
stride size small = omega arith

-- A column of `n` characters, `n` below 2^19, has room for `4 * n` bytes in each row, whose elements
-- are read at the stride that OCI writes them at; each row of a batch of at most 2048, of a length
-- that OCI was given room for, is read inside the buffer.
pub define_column_reads :
    (bind : OracleBindData LogicalTypeId) (col_idx row len n : ℕ)
    → let c = define_column bind col_idx in
      row < vector_size
      → len ≤ c.size
      → get_elem? bind.oci_sizes col_idx ≡ some n
      → n < 2 ^ 19
      → (n * 4 ≤ c.size) × (element_size c ≡ c.size) × (row_offset c row + len ≤ c.buffer)
unfolding row_offset element_size define_column buffer_length
define_column_reads bind col_idx row len n inside short size_is small =
    let room = define_size_room n (omega arith) in
    let whole = define_size_small n small in
    let size = define_size (some n) in
    let fits : size * vector_size < 2 ^ 32 = omega (arith, whole) in
    let told : size * vector_size % 2 ^ 32 / vector_size % 2 ^ 32 ≡ size =
      rw whole (stride size fits) in
    let here : len ≤ size = subst (λ o. len ≤ define_size o) size_is short in
    rw size_is (room.0, told, rw (told, whole) (row_inside row len size inside here))

define_size_large : (n : ℕ) → 2 ^ 19 ≤ n → n < 2 ^ 30 → define_size (some n) ≡ n * 4
unfolding define_size
define_size_large n large small = ground arith

-- A column of `n` characters, `n` at least 2^19 and below 2^30, gets a buffer that is shorter than the
-- 2048 elements of its size that OCI is told of, since the product wraps round in 32 bits; at
-- 2^19 it is empty.
pub define_column_overflows :
    (bind : OracleBindData LogicalTypeId) (col_idx n : ℕ)
    → let c = define_column bind col_idx in
      get_elem? bind.oci_sizes col_idx ≡ some n
      → 2 ^ 19 ≤ n
      → n < 2 ^ 30
      → (c.size ≡ n * 4) × (c.buffer < c.size * vector_size) × (n ≡ 2 ^ 19 → c.buffer ≡ 0)
unfolding define_column buffer_length
define_column_overflows bind col_idx n size_is large small =
    let size_of = define_size_large n large small in
    rw (size_is, size_of) (λ i. n * 4, omega (arith, large), λ e. omega (arith, e))
