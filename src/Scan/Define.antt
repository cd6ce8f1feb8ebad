-- ===== src/Scan/Define.antt =====
-- The define loop of `OracleInitGlobal` in src/oracle_extension.cpp: how large the fetch buffer of a
-- column is, and as what OCI fetches it; and where `OracleQueryFunction` reads a value back.
pub mod Bounds
pub mod Projected
mod Tests
use duckdb_oracle.Base.{
  ℕ, zero, suc, ◌+◌, ◌-◌, ◌*◌, ◌/◌, ◌%◌, ◌^◌, ◌≤◌, ◌<◌, ◌≡◌, ◌≢◌, ◌↔◌, ◌⊎◌, inl, inr, refl, sym, ap,
  ◌∙◌, subst, Bool, true, false, not, ◌&&◌, ◌||◌, Option, none, some, List, [], ◌∷◌, ◌++◌, map,
  arith, ltb, leb, ◌==◌, if◌then◌else◌, ==_refl, ==_iff, Bool-cases, Option-cases, Result, ok,
  throw, ◌>>=◌, ◌>>◌, throw_if, >>=-eq-ok, ok-injective, length, get_elem?, take, drop, replicate,
  length-append, take-append_self, drop-append_self, length-replicate, length-map, All, Text, lit,
  text_eq, text_eq_iff, text_eq_refl, empty, has, index, find, substr, substr_from, decimal, ℤ, pos,
  negsuc, to_idx, is_le_zero, is_gt, u64_mod, String,
}
use duckdb_oracle.Pushdown.{OracleBindData}
use duckdb_oracle.Scan.Describe.{LogicalTypeId, blob_id}

abbrev pub vector_size : ℕ
vector_size = 2048

-- `bind.oci_sizes[col_idx] * 4` in a `ub4`, at least 4000.
abbrev at_least_4000 : ℕ → ℕ
at_least_4000 size = if ltb size 4000 then 4000 else size

pub define_size : Option ℕ → ℕ
define_size none = 4000
define_size (some oci_size) = at_least_4000 (if ltb 0 oci_size then oci_size * 4 % 2 ^ 32 else 4000)

-- `state->buffers[col_idx].resize(size * STANDARD_VECTOR_SIZE)`: a `ub4` times `2048U`, in 32 bits.
pub buffer_length : Option ℕ → ℕ
unfolding define_size
buffer_length oci_size = define_size oci_size * vector_size % 2 ^ 32

pub data FetchType : Type 0 where
  sqlt_str sqlt_bin : FetchType

-- The `switch` over `bind.original_types[col_idx]`; both branches on the OCI type of a BLOB agree.
pub fetch_type : Option LogicalTypeId → Option ℕ → FetchType
fetch_type (some blob_id) (some oci_type) = sqlt_bin
fetch_type (some blob_id) none = sqlt_str
fetch_type _ oci_type = sqlt_str

-- What OCI is told of column `col_idx`: the size of an element, the length of the buffer, the type.
pub record DefineColumn : Type 0 where
  pub size : ℕ
  pub buffer : ℕ
  pub type : FetchType

pub define_column : OracleBindData LogicalTypeId → ℕ → DefineColumn
unfolding define_size buffer_length fetch_type
define_column bind col_idx =
    let oci_size = get_elem? bind.oci_sizes col_idx in
    record {
      size = define_size oci_size;
      buffer = buffer_length oci_size;
      type = fetch_type (get_elem? bind.original_types col_idx) (get_elem? bind.oci_types col_idx);
    }

-- `element_size` of `OracleQueryFunction`, a `ub4`, and the offset of a row.
pub element_size : DefineColumn → ℕ
element_size c = c.buffer / vector_size % 2 ^ 32

pub row_offset : DefineColumn → ℕ → ℕ
unfolding element_size
row_offset c row = row * element_size c
