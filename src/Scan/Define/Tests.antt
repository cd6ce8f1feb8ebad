-- ===== src/Scan/Define/Tests.antt =====
-- Two columns, a text and a BLOB, in their order and swapped.
use duckdb_oracle.Base.{
  ◌+◌, ◌*◌, ◌≤◌, ◌≡◌, ◌≢◌, refl, true, some, [], ◌∷◌, arith, get_elem?, lit, decimal,
}
use duckdb_oracle.Samples.{ascii}
use duckdb_oracle.Pushdown.{OracleBindData, LogicalGet, pushdown_complex_filter}
use duckdb_oracle.Scan.Describe.{LogicalTypeId, varchar_id, blob_id}
use duckdb_oracle.Scan.Define.{
  define_column, define_size, buffer_length, element_size, row_offset, sqlt_str,
}
use duckdb_oracle.Scan.Define.Bounds.{define_column_reads, define_column_overflows}
use duckdb_oracle.Scan.Define.Projected.{projected_blob_is_text}

abbrev bind : OracleBindData LogicalTypeId
bind = record {
  enable_pushdown = true;
  base_query = lit "SELECT * FROM DOCS";
  query = lit "SELECT * FROM DOCS";
  column_names = lit "NAME" ∷ lit "BODY" ∷ [];
  original_names = lit "NAME" ∷ lit "BODY" ∷ [];
  original_types = varchar_id ∷ blob_id ∷ [];
  oci_types = 1 ∷ 113 ∷ [];
  oci_sizes = 1200 ∷ 4000 ∷ [];
}

abbrev swapped : LogicalGet LogicalTypeId
swapped = record {
  column_ids = 0 ∷ 1 ∷ [];
  projection_ids = 1 ∷ 0 ∷ [];
  names = [];
  returned_types = [];
}

fits : 4800 ≤ (define_column bind 0).size
unfolding define_column define_size buffer_length
fits = omega arith

define_column_reads_example :
    let c = define_column bind 0 in
    (1200 * 4 ≤ c.size) × (element_size c ≡ c.size) × (row_offset c 2047 + 4800 ≤ c.buffer)
define_column_reads_example =
    define_column_reads bind 0 2047 4800 1200 (omega arith) fits refl (omega arith)

-- A column of 2^19 characters gets an empty buffer.
abbrev wide : OracleBindData LogicalTypeId
wide = record bind { oci_sizes = 524288 ∷ [] }

empty_buffer : (define_column wide 0).buffer ≡ 0
empty_buffer = (define_column_overflows wide 0 524288 refl (omega arith) (omega arith)).2 refl

varchar_is_not_blob : varchar_id ≢ blob_id
varchar_is_not_blob = λ e. cc

projected_blob_is_text_example :
    let out = (pushdown_complex_filter ascii decimal bind swapped []).0 in
    (get_elem? out.column_names 0 ≡ some (lit "BODY")) × ((define_column out 0).type ≡ sqlt_str)
projected_blob_is_text_example =
    projected_blob_is_text ascii decimal bind swapped [] 1 (0 ∷ []) 0 1 (lit "BODY") varchar_id refl
      refl (omega arith, (omega arith, tt)) refl refl refl refl varchar_is_not_blob
