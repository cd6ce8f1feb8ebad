-- ===== src/Types/Columns.antt =====
-- `LoadColumns` of src/storage/oracle_table_entry.cpp: the rows of ALL_TAB_COLUMNS become typed columns.
-- `std::stoll` is an argument; `none` is an exception, which the code turns into 0.
use duckdb_oracle.Base.{
  ℕ, suc, ◌-◌, ◌%◌, ◌^◌, ◌≤◌, ◌<◌, ◌≡◌, Bool, false, Option, none, some, List, [], ◌∷◌, arith,
  if◌then◌else◌, Text, lit, text_eq, empty, ℤ, pos, negsuc, to_idx, u64_mod,
}
use duckdb_oracle.Duckdb.{Strings}
use duckdb_oracle.Types.{
  OracleColumnMetadata, LogicalType, decimal_type, column_metadata, map_oracle_column, number_type,
  is_vector_name, is_spatial_name, is_xml_name,
}

pub record Column : Type 0 where
  pub name : Text
  pub logical : LogicalType
  pub metadata : OracleColumnMetadata

module _ (str : Strings) (stoll : Text → Option ℤ) where
  index_or_zero : Option ℤ → ℕ
  index_or_zero none = 0
  index_or_zero (some n) = to_idx n

  pub parse_idx : Text → ℕ
  unfolding index_or_zero
  parse_idx s = if empty s then 0 else index_or_zero (stoll s)

  -- column_name, data_type, data_length, data_precision, data_scale, nullable; a shorter row is
  -- skipped.
  unfoldable pub load_columns : Bool → Bool → List (List Text) → List Column
  load_columns vector_to_list enable_spatial_types [] = []
  load_columns vector_to_list enable_spatial_types
        ((name ∷ data_type ∷ len ∷ precision ∷ scale ∷ nullable ∷ more) ∷ rows) =
      record {
        name = name;
        logical =
            map_oracle_column str vector_to_list enable_spatial_types data_type
              (parse_idx precision) (parse_idx scale);
        metadata = column_metadata str name data_type;
      }
      ∷ load_columns vector_to_list enable_spatial_types rows
  load_columns vector_to_list enable_spatial_types (row ∷ rows) =
      load_columns vector_to_list enable_spatial_types rows

-- The scales that Oracle allows.
abbrev pub IsScale : ℤ → Type 0
IsScale (pos n) = n ≤ 127
IsScale (negsuc n) = n < 84

-- The scale that the column gets.
abbrev pub stored_scale : ℤ → ℕ
stored_scale (pos n) = n
stored_scale (negsuc n) = 255 - n

number_type-scale :
    (str : Strings) (precision : ℕ) (scale : ℤ)
    → 0 < precision
    → precision ≤ 38
    → IsScale scale
    → number_type str precision (to_idx scale) ≡ decimal_type precision (stored_scale scale)
unfolding number_type to_idx
number_type-scale str precision (pos n) p q h = ground arith
number_type-scale str precision (negsuc n) p q h =
    let wrapped : (u64_mod - suc n) % 2 ^ 8 ≡ 255 - n = omega arith in ground (arith, wrapped)

-- A NUMBER column of precision 1 to 38 is DECIMAL of that precision and of its scale where the
-- scale is 0 to 127; a scale -(n + 1) down to -84 wraps round to 255 - n. The helpers are only
-- asked to upper-case the name to NUMBER and not to find VECTOR( at its start.
pub map_oracle_column-scale :
    (str : Strings) (vector_to_list enable_spatial_types : Bool) (data_type : Text) (precision : ℕ)
    (scale : ℤ)
    → str.upper data_type ≡ lit "NUMBER"
    → str.starts_with (lit "NUMBER") (lit "VECTOR(") ≡ false
    → 0 < precision
    → precision ≤ 38
    → IsScale scale
    → map_oracle_column str vector_to_list enable_spatial_types data_type precision (to_idx scale)
      ≡ decimal_type precision (stored_scale scale)
unfolding map_oracle_column is_vector_name is_spatial_name is_xml_name text_eq lit
map_oracle_column-scale str vector_to_list enable_spatial_types data_type precision scale upper_is
      no_prefix p q h =
    rw (upper_is, map_oracle_column) (simp no_prefix (number_type-scale str precision scale p q h))
