-- ===== src/Scan/Define/Projected.antt =====
-- The fetch type of a column that the projection of src/oracle_extension.cpp has moved.
use duckdb_oracle.Base.{
  ℕ, ◌<◌, ◌≡◌, ◌≢◌, refl, true, Option, some, List, ◌∷◌, length, get_elem?, All, Text,
}
use duckdb_oracle.Duckdb.{Strings}
use duckdb_oracle.Pushdown.{OracleBindData, LogicalGet, Expression, pushdown_complex_filter}
use duckdb_oracle.Pushdown.Aligned.{project-get, projected_names}
use duckdb_oracle.Scan.Describe.{
  LogicalTypeId, blob_id, varchar_id, bigint_id, double_id, decimal_id, timestamp_id, list_id,
  user_id, other_id,
}
use duckdb_oracle.Scan.Define.{sqlt_str, define_column, fetch_type}

fetch_text :
    (type : LogicalTypeId) (oci_type : Option ℕ)
    → type ≢ blob_id
    → fetch_type (some type) oci_type ≡ sqlt_str
unfolding fetch_type
fetch_text blob_id oci_type h = absurd (h refl)
fetch_text varchar_id oci_type h = refl
fetch_text bigint_id oci_type h = refl
fetch_text double_id oci_type h = refl
fetch_text decimal_id oci_type h = refl
fetch_text timestamp_id oci_type h = refl
fetch_text list_id oci_type h = refl
fetch_text user_id oci_type h = refl
fetch_text other_id oci_type h = refl

-- With pushdown on and a projection in range: a BLOB column that the projection moves to the place
-- where the table has a column of another type is fetched as text, not as bytes, since the fetch
-- type is looked up at the place in the query and not at the column.
pub projected_blob_is_text :
    (str : Strings) {V : Type 0} (to_sql : V → Text) (bind : OracleBindData LogicalTypeId)
    (get : LogicalGet LogicalTypeId) (filters : List (Expression V)) (first : ℕ) (ids : List ℕ)
    (k id : ℕ) (name : Text) (type : LogicalTypeId)
    → bind.enable_pushdown ≡ true
    → get.projection_ids ≡ first ∷ ids
    → All (λ i. i < length bind.original_names) (first ∷ ids)
    → get_elem? (first ∷ ids) k ≡ some id
    → get_elem? bind.original_names id ≡ some name
    → get_elem? bind.original_types id ≡ some blob_id
    → get_elem? bind.original_types k ≡ some type
    → type ≢ blob_id
    → let out = (pushdown_complex_filter str to_sql bind get filters).0 in
      (get_elem? out.column_names k ≡ some name) × ((define_column out k).type ≡ sqlt_str)
unfolding define_column
projected_blob_is_text str to_sql bind get filters first ids k id name type on projects inside moved
      named is_blob place other =
    let (names, types) = projected_names str to_sql bind get filters first ids on projects in
    (
      rw names (
          project-get bind.original_names (length bind.original_names) (first ∷ ids) k id name refl
            inside moved named),
      rw (types, place) (fetch_text type _ other),
    )
