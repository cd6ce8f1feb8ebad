-- ===== src/Types/Tests.antt =====
-- Columns of src/storage/oracle_table_entry.cpp.
use duckdb_oracle.Base.{
  [], ◌∷◌, none, map, List, ◌≡◌, inl, refl, true, false, some, ◌++◌, arith, lit, text_eq, negsuc,
  to_idx,
}
use duckdb_oracle.Samples.{ascii}
use duckdb_oracle.Types.{
  spatial, lob_blob, column_metadata, category_of, select_item, map_oracle_column, decimal_type,
  is_spatial_name, is_vector_name, is_blob_name,
}
use duckdb_oracle.Types.Conversion.{HoldsText, serialized-HoldsText, blob_never_converted}
use duckdb_oracle.Base.Joined.{separated}
use duckdb_oracle.Types.Select.{item, scan_function_query, scan_function_query-separated}
use duckdb_oracle.Types.Columns.{Column, load_columns, map_oracle_column-scale}

shape_is_spatial : (column_metadata ascii (lit "SHAPE") (lit "sdo_geometry")).category ≡ spatial
unfolding column_metadata category_of is_spatial_name lit text_eq
shape_is_spatial = refl

shape_text : HoldsText (map_oracle_column ascii true false (lit "sdo_geometry") 0 0)
shape_text =
    serialized-HoldsText ascii (lit "SHAPE") (lit "sdo_geometry") true false 0 0
      (inl shape_is_spatial)

doc_is_blob : (column_metadata ascii (lit "DOC") (lit "BLOB")).category ≡ lob_blob
unfolding column_metadata category_of is_spatial_name is_vector_name is_blob_name lit text_eq
doc_is_blob = refl

blob_as_it_is :
    select_item ascii true true false
      (lit "DOC")
      (some (column_metadata ascii (lit "DOC") (lit "BLOB")))
    ≡ ascii.write_quoted (lit "DOC") ++ (lit " AS " ++ ascii.write_quoted (lit "DOC"))
blob_as_it_is =
    blob_never_converted ascii (lit "DOC") (lit "BLOB") true true false (inl doc_is_blob)

scale_wraps :
    map_oracle_column ascii true true (lit "number") 10 (to_idx (negsuc 1)) ≡ decimal_type 10 254
unfolding lit text_eq
scale_wraps =
    map_oracle_column-scale ascii true true (lit "number") 10 (negsuc 1) refl refl (omega arith)
      (omega arith) (omega arith)

-- A number and a shape, as ALL_TAB_COLUMNS lists them.
abbrev site_columns : List Column
site_columns =
    load_columns ascii (λ text. none) true true
      ((lit "ID" ∷ lit "NUMBER" ∷ [] ∷ [] ∷ [] ∷ lit "N" ∷ [])
        ∷ (lit "AREA" ∷ lit "SDO_GEOMETRY" ∷ [] ∷ [] ∷ [] ∷ lit "Y" ∷ [])
        ∷ [])

selects_items :
    scan_function_query ascii true true true
      (lit "GIS")
      (lit "SITE")
      (map (λ c. c.name) site_columns)
      (map (λ c. c.metadata) site_columns)
    ≡ lit "SELECT "
      ++ (separated (map (item ascii true true true) site_columns)
          ++ (lit " FROM "
              ++ (ascii.write_quoted (lit "GIS") ++ (lit "." ++ ascii.write_quoted (lit "SITE")))))
selects_items =
    scan_function_query-separated ascii true true true (lit "GIS") (lit "SITE") site_columns
