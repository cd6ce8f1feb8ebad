-- ===== src/Functions/Options.antt =====
-- The settings of the session that `OracleExtension::Load` of src/oracle_extension.cpp registers, each
-- with its default.
pub mod Session
mod Tests
use duckdb_oracle.Base.{lit, ℕ, Text, Bool, List, true, false, [], ◌∷◌}
use duckdb_oracle.Duckdb.{Values}

-- `Value::BOOLEAN` and `Value::UBIGINT`.
pub record Literals (v : Values) : Type 0 where
  pub boolean : Bool → v.Value
  pub ubigint : ℕ → v.Value

module _ (v : Values) (l : Literals v) where
  open l use {boolean, ubigint}

  -- Names and defaults, in the order of `AddExtensionOption`.
  abbrev pub extension_options : List (Text × v.Value)
  extension_options =
      (lit "oracle_enable_pushdown", boolean true)
      ∷ (lit "oracle_prefetch_rows", ubigint 1024)
      ∷ (lit "oracle_prefetch_memory", ubigint 0)
      ∷ (lit "oracle_array_size", ubigint 256)
      ∷ (lit "oracle_connection_cache", boolean true)
      ∷ (lit "oracle_connection_limit", ubigint 8)
      ∷ (lit "oracle_debug_show_queries", boolean false)
      ∷ (lit "oracle_lazy_schema_loading", boolean true)
      ∷ (
        lit "oracle_metadata_object_types",
        v.of_string (lit "TABLE,VIEW,SYNONYM,MATERIALIZED VIEW"),
      )
      ∷ (lit "oracle_metadata_result_limit", ubigint 10000)
      ∷ (lit "oracle_use_current_schema", boolean true)
      ∷ (lit "oracle_enable_spatial_types", boolean true)
      ∷ []
