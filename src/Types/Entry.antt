-- ===== src/Types/Entry.antt =====
-- `OracleTableEntry::Create` with the query of `LoadColumns`, and `GetScanFunction` on the entry, of
-- src/storage/oracle_table_entry.cpp. `quote` is `Value(text).ToSQLString()`.
pub mod Told
pub mod Scanned
mod Tests
use duckdb_oracle.Base.{empty, if◌then◌else◌, map, ◌++◌, ℤ, Option, List, lit, Text, none, some, ok}
use duckdb_oracle.Base.Action.{◌>>=◌, returns}
use duckdb_oracle.Duckdb.{Strings}
use duckdb_oracle.Settings.{OracleSettings}
use duckdb_oracle.Catalog.State.{Database, Step, query_state, OracleVersionInfo}
use duckdb_oracle.Catalog.Version.{get_version_info}
use duckdb_oracle.Catalog.Generators.{TableEntry}
use duckdb_oracle.Types.Columns.{Column, load_columns}
use duckdb_oracle.Types.Select.{scan_function_query}

pub columns_query : (Text → Text) → Text → Text → Text
columns_query quote schema table =
    lit
      "SELECT column_name, data_type, data_length, data_precision, data_scale, nullable FROM all_tab_columns WHERE owner = UPPER("
    ++ (quote schema
        ++ (lit ") AND table_name = UPPER(" ++ (quote table ++ lit ") ORDER BY column_id")))

-- The entry: its name in DuckDB, the object that it stands for, and its columns with their metadata.
pub record OracleTableEntry : Type 0 where
  pub name : Text
  pub schema_name : Text
  pub table_name : Text
  pub columns : List Column

module _ (str : Strings) (quote : Text → Text) (settings : OracleSettings) (db : Database)
    (stoi stoll : Text → Option ℤ) where
  abbrev pub made_entry : TableEntry → List (List Text) → OracleTableEntry
  made_entry e rows = record {
    name = if empty e.entry_name then e.object else e.entry_name;
    schema_name = e.owner;
    table_name = e.object;
    columns = load_columns str stoll settings.vector_to_list settings.enable_spatial_types rows;
  }

  -- `Create`
  unfoldable pub create_entry : TableEntry → Step str quote settings db OracleTableEntry
  create_entry e = do
    rows ← query_state str quote settings db (columns_query quote e.owner e.object)
    returns (made_entry e rows)

  -- The query of `GetScanFunction`.
  unfoldable pub entry_query : OracleTableEntry → Step str quote settings db Text
  entry_query entry = do
    version ← get_version_info str quote settings db stoi
    returns (
        scan_function_query str settings.enable_type_conversion version.supports_json_type
          settings.try_native_lobs entry.schema_name entry.table_name
          (map (λ c. c.name) entry.columns) (map (λ c. c.metadata) entry.columns))
