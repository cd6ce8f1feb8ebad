-- ===== src/Types/Entry/Tests.antt =====
-- A table of one number, made and scanned.
use duckdb_oracle.Base.{Option, map, List, false, true, some, [], ◌∷◌, lit, Text, pos, ℤ}
use duckdb_oracle.Samples.{ascii}
use duckdb_oracle.Settings.{default_settings}
use duckdb_oracle.Catalog.State.{CatalogState, Database, new_catalog_state}
use duckdb_oracle.Catalog.Generators.{TableEntry}
use duckdb_oracle.Types.Select.{scan_function_query}
use duckdb_oracle.Types.Entry.{OracleTableEntry, made_entry}

abbrev cells : List (List Text)
cells = (lit "ID" ∷ lit "NUMBER" ∷ lit "22" ∷ lit "10" ∷ lit "0" ∷ lit "N" ∷ []) ∷ []

abbrev tells : Database
tells = record { connects = true; answer = λ query. some cells }

abbrev ten : Text → Option ℤ
ten text = some (pos 10)

abbrev employees : TableEntry
employees = record { owner = lit "HR"; object = lit "EMP"; entry_name = lit "emp" }

abbrev quote : Text → Text
quote text = text

abbrev linked : CatalogState
linked = record new_catalog_state { connected = true }

abbrev known : CatalogState
known = record linked { version_detected = true }

abbrev made : OracleTableEntry
made = made_entry ascii quote default_settings tells ten ten employees cells

abbrev scan_sql : Text
scan_sql =
    scan_function_query ascii default_settings.enable_type_conversion false
      default_settings.try_native_lobs made.schema_name made.table_name
      (map (λ c. c.name) made.columns) (map (λ c. c.metadata) made.columns)
