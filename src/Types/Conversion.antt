-- ===== src/Types/Conversion.antt =====
-- Which columns src/storage/oracle_table_entry.cpp converts on the server, and to what.
use duckdb_oracle.Base.{lit, ◌++◌, not, ◌&&◌, if◌then◌else◌, some, ℕ, ◌≡◌, ◌⊎◌, Bool, arith, Text}
use duckdb_oracle.Duckdb.{Strings}
use duckdb_oracle.Types.{
  requires_query_rewrite, select_item, OracleTypeCategory, spatial, vector, json, lob_blob, raw,
  xml, LogicalType, varchar, list_of_float, geometry, category_of, column_metadata,
  conversion_expression, map_oracle_column,
}

-- Oracle sends the values as a text that it made of them.
abbrev pub IsSerialized : OracleTypeCategory → Type 0
IsSerialized c = (c ≡ spatial) ⊎ (c ≡ vector) ⊎ (c ≡ json) ⊎ (c ≡ xml)

abbrev pub HoldsText : LogicalType → Type 0
HoldsText t = (t ≡ varchar) ⊎ (t ≡ list_of_float) ⊎ (t ≡ geometry)

module _ (str : Strings) (name data_type : Text) where
  -- A column that Oracle serializes has a type that is read from text, whatever the settings.
  pub serialized-HoldsText :
      (vector_to_list enable_spatial_types : Bool) (precision scale : ℕ)
      → IsSerialized (column_metadata str name data_type).category
      → HoldsText
          (map_oracle_column str vector_to_list enable_spatial_types data_type precision scale)
  unfolding column_metadata category_of map_oracle_column
  serialized-HoldsText vector_to_list enable_spatial_types precision scale h = ground arith

  -- A BLOB, BFILE or RAW column is fetched as it is under every setting: `try_native_lobs` off asks
  -- for a rewrite, and the rewrite is the column itself under its own name.
  pub blob_never_converted :
      (enable_type_conversion supports_json try_native_lobs : Bool)
      → ((column_metadata str name data_type).category ≡ lob_blob)
        ⊎ ((column_metadata str name data_type).category ≡ raw)
      → let col = str.write_quoted name in
        select_item str enable_type_conversion supports_json try_native_lobs name
          (some (column_metadata str name data_type))
        ≡ (if enable_type_conversion && not try_native_lobs
            then col ++ (lit " AS " ++ col)
            else col)
  unfolding select_item conversion_expression requires_query_rewrite column_metadata category_of
  blob_never_converted enable_type_conversion supports_json try_native_lobs h = ground arith
