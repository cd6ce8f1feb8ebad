-- ===== src/Types.antt =====
-- src/include/oracle_table_entry.hpp and src/storage/oracle_table_entry.cpp: how an Oracle column is
-- classified, typed and fetched. `StringUtil::Format` with `%s` is concatenation here.
mod Tests
pub mod Conversion
pub mod Columns
pub mod Select
pub mod Entry
use duckdb_oracle.Base.{
  ℕ, zero, suc, ◌+◌, ◌-◌, ◌*◌, ◌/◌, ◌%◌, ◌^◌, ◌≤◌, ◌<◌, ◌≡◌, ◌≢◌, ◌↔◌, ◌⊎◌, inl, inr, refl, sym, ap,
  ◌∙◌, subst, Bool, true, false, not, ◌&&◌, ◌||◌, Option, none, some, List, [], ◌∷◌, ◌++◌, map,
  arith, ltb, leb, ◌==◌, if◌then◌else◌, ==_refl, ==_iff, Bool-cases, Option-cases, Result, ok,
  throw, ◌>>=◌, ◌>>◌, throw_if, >>=-eq-ok, ok-injective, length, get_elem?, take, drop, replicate,
  length-append, take-append_self, drop-append_self, length-replicate, length-map, All, Text, lit,
  text_eq, text_eq_iff, text_eq_refl, empty, has, index, find, substr, substr_from, decimal, ℤ, pos,
  negsuc, to_idx, is_le_zero, is_gt, u64_mod, String,
}
use duckdb_oracle.Duckdb.{Strings}

pub data OracleTypeCategory : Type 0 where
  standard numeric temporal spatial vector json lob_clob lob_blob raw xml unknown :
      OracleTypeCategory

pub record OracleColumnMetadata : Type 0 where
  pub column_name : Text
  pub oracle_data_type : Text
  pub category : OracleTypeCategory
  pub needs_server_conversion : Bool

-- The types of DuckDB that a column may get.
pub data LogicalType : Type 0 where
  varchar double timestamp blob list_of_float geometry : LogicalType
  decimal_type : ℕ → ℕ → LogicalType

module _ (str : Strings) where
  open str use {upper, starts_with, contains, write_quoted}

  is_spatial_name : Text → Bool
  is_spatial_name u = text_eq u (lit "SDO_GEOMETRY") || text_eq u (lit "MDSYS.SDO_GEOMETRY")

  is_vector_name : Text → Bool
  is_vector_name u = text_eq u (lit "VECTOR") || starts_with u (lit "VECTOR(")

  is_blob_name : Text → Bool
  is_blob_name u = text_eq u (lit "BLOB") || text_eq u (lit "BFILE")

  is_clob_name : Text → Bool
  is_clob_name u = text_eq u (lit "CLOB") || text_eq u (lit "NCLOB")

  is_raw_name : Text → Bool
  is_raw_name u = text_eq u (lit "RAW") || starts_with u (lit "RAW(")

  is_xml_name : Text → Bool
  is_xml_name u = text_eq u (lit "XMLTYPE") || text_eq u (lit "SYS.XMLTYPE")

  is_float_name : Text → Bool
  is_float_name u =
      text_eq u (lit "FLOAT") || text_eq u (lit "BINARY_FLOAT") || text_eq u (lit "BINARY_DOUBLE")

  is_temporal_name : Text → Bool
  is_temporal_name u = text_eq u (lit "DATE") || contains u (lit "TIMESTAMP")

  category_of : Text → OracleTypeCategory × Bool
  category_of u =
      if is_spatial_name u
      then (spatial, true)
      else if is_vector_name u
      then (vector, true)
      else if text_eq u (lit "JSON")
      then (json, true)
      else if is_blob_name u
      then (lob_blob, false)
      else if is_clob_name u
      then (lob_clob, false)
      else if is_raw_name u
      then (raw, false)
      else if is_xml_name u
      then (xml, true)
      else if text_eq u (lit "NUMBER") || is_float_name u || starts_with u (lit "NUMBER(")
      then (numeric, false)
      else if is_temporal_name u
      then (temporal, false)
      else if contains u (lit "CHAR") || contains u (lit "VARCHAR")
      then (standard, false)
      else (unknown, false)

  -- The constructor of `OracleColumnMetadata`.
  pub column_metadata : Text → Text → OracleColumnMetadata
  column_metadata name data_type =
      let (category, needs) = category_of (upper data_type) in
      record {
        column_name = name;
        oracle_data_type = data_type;
        category = category;
        needs_server_conversion = needs;
      }

  rewrites : OracleTypeCategory → Bool → Bool → Bool → Bool
  rewrites spatial needs supports_json try_native_lobs = true
  rewrites xml needs supports_json try_native_lobs = true
  rewrites vector needs supports_json try_native_lobs = true
  rewrites json needs supports_json try_native_lobs = supports_json
  rewrites lob_blob needs supports_json try_native_lobs = not try_native_lobs || needs
  rewrites raw needs supports_json try_native_lobs = not try_native_lobs || needs
  rewrites lob_clob needs supports_json try_native_lobs = needs
  rewrites _ needs supports_json try_native_lobs = false

  pub requires_query_rewrite : OracleColumnMetadata → Bool → Bool → Bool
  unfolding rewrites
  requires_query_rewrite meta supports_json try_native_lobs =
      rewrites meta.category meta.needs_server_conversion supports_json try_native_lobs

  convert : Text → OracleTypeCategory → Bool → Bool → Text
  convert col spatial needs supports_json = lit "SDO_UTIL.TO_WKTGEOMETRY(" ++ (col ++ lit ")")
  convert col vector needs supports_json = lit "VECTOR_SERIALIZE(" ++ (col ++ lit ")")
  convert col json needs supports_json =
      if supports_json
      then lit "JSON_SERIALIZE(" ++ (col ++ lit " RETURNING VARCHAR2(32767))")
      else col
  convert col xml needs supports_json = lit "XMLSERIALIZE(CONTENT " ++ (col ++ lit " AS CLOB)")
  convert col lob_blob needs supports_json =
      if needs then lit "RAWTOHEX(" ++ (col ++ lit ")") else col
  convert col lob_clob needs supports_json =
      if needs then lit "TO_CHAR(" ++ (col ++ lit ")") else col
  convert col raw needs supports_json = if needs then lit "RAWTOHEX(" ++ (col ++ lit ")") else col
  convert col _ needs supports_json = col

  pub conversion_expression : Text → OracleColumnMetadata → Bool → Text
  unfolding convert
  conversion_expression quoted_col meta supports_json =
      convert quoted_col meta.category meta.needs_server_conversion supports_json

  -- One item of the SELECT list of `GetScanFunction`; `meta` is missing past the end of the metadata.
  pub select_item : Bool → Bool → Bool → Text → Option OracleColumnMetadata → Text
  select_item enable_type_conversion supports_json try_native_lobs name none = write_quoted name
  select_item enable_type_conversion supports_json try_native_lobs name (some meta) =
      let col = write_quoted name in
      if enable_type_conversion && requires_query_rewrite meta supports_json try_native_lobs
      then conversion_expression col meta supports_json ++ (lit " AS " ++ col)
      else col

  number_type : ℕ → ℕ → LogicalType
  number_type precision scale =
      if precision == 0
      then double
      else if ltb 38 precision
      then double
      else decimal_type (precision % 2 ^ 8) (scale % 2 ^ 8)

  -- `data_length` is passed and never read.
  pub map_oracle_column : Bool → Bool → Text → ℕ → ℕ → LogicalType
  unfolding number_type
  map_oracle_column vector_to_list enable_spatial_types data_type precision scale =
      let u = upper data_type in
      if is_vector_name u
      then (if vector_to_list then list_of_float else varchar)
      else if is_spatial_name u
      then (if enable_spatial_types then geometry else varchar)
      else if text_eq u (lit "JSON")
      then varchar
      else if is_xml_name u
      then varchar
      else if text_eq u (lit "NUMBER")
      then number_type precision scale
      else if is_float_name u
      then double
      else if is_temporal_name u
      then timestamp
      else if contains u (lit "CHAR")
          || contains u (lit "CLOB")
          || contains u (lit "VARCHAR")
          || contains u (lit "NCHAR")
      then varchar
      else if contains u (lit "BLOB") || contains u (lit "RAW") || contains u (lit "BFILE")
      then blob
      else varchar
