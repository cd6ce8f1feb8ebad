-- ===== src/Catalog/Generators.antt =====
-- `OracleTableGenerator`, `OracleSchemaGenerator` and `OracleCatalog` of
-- src/storage/oracle_schema_entry.cpp: how a name becomes an entry of the catalog.
use duckdb_oracle.Base.{
  ℤ, ◌&&◌, Option, some, none, [], ok, Text, lit, text_eq, if◌then◌else◌, empty,
}
use duckdb_oracle.Duckdb.{Strings}
use duckdb_oracle.Settings.{OracleSettings}
use duckdb_oracle.Base.Action.{◌>>=◌, ◌>>◌, returns}
use duckdb_oracle.Catalog.State.{
  Database, Step, ensure_connection, detect_current_schema, get_object_name, resolve_synonym,
  get_real_schema_name,
}
use duckdb_oracle.Catalog.Version.{detect_oracle_version}

-- What `OracleTableEntry::Create` is called with.
pub record TableEntry : Type 0 where
  pub owner : Text
  pub object : Text
  pub entry_name : Text

pub record SchemaEntry : Type 0 where
  pub schema : Text
  pub oracle_schema : Text

-- The constructor of `OracleSchemaEntry`.
abbrev pub schema_entry : Text → Text → SchemaEntry
schema_entry schema oracle_schema = record {
  schema = schema;
  oracle_schema = if empty oracle_schema then schema else oracle_schema;
}

abbrev pub table_types : Text
table_types = lit "'TABLE','VIEW','MATERIALIZED VIEW'"

-- A synonym stands for the object that it names.
abbrev pub synonym_entry : Text → Option (Text × Text) → Option TableEntry
synonym_entry entry_name none = none
synonym_entry entry_name (some (owner, object)) =
    some (record { owner = owner; object = object; entry_name = entry_name })

abbrev pub named_entry : Text → Text → SchemaEntry
named_entry entry_name real_name =
    if empty real_name then schema_entry entry_name [] else schema_entry real_name []

module _ (str : Strings) (quote : Text → Text) (settings : OracleSettings) (db : Database) where
  -- `CreateDefaultEntry` of a table, in the Oracle schema of its entry.
  unfoldable pub create_table_entry : Text → Text → Step str quote settings db (Option TableEntry)
  create_table_entry schema_name entry_name = do
    real_name ← get_object_name str quote settings db schema_name entry_name table_types
    (if empty real_name
        then resolve_synonym str quote settings db schema_name entry_name
          >>= (λ resolved. returns (synonym_entry entry_name resolved))
        else returns
            (some (record { owner = schema_name; object = real_name; entry_name = entry_name })))

  unfoldable pub create_named_schema : Text → Step str quote settings db SchemaEntry
  create_named_schema entry_name = do
    real_name ← get_real_schema_name str quote settings db entry_name
    returns (named_entry entry_name real_name)

  -- The current schema under the name "main", where there is one.
  unfoldable pub create_current_schema : Text → Step str quote settings db SchemaEntry
  unfolding create_named_schema
  create_current_schema entry_name s =
      if empty s.current_schema
      then create_named_schema entry_name s
      else (s, ok (schema_entry entry_name s.current_schema))

  -- `CreateDefaultEntry` of a schema; `DEFAULT_SCHEMA` is "main".
  unfoldable pub create_schema_entry : Text → Step str quote settings db SchemaEntry
  unfolding create_current_schema create_named_schema
  create_schema_entry entry_name s =
      if text_eq entry_name (lit "main") && settings.use_current_schema
      then (if empty s.current_schema
          then (detect_current_schema str quote settings db >> create_current_schema entry_name) s
          else create_current_schema entry_name s)
      else create_named_schema entry_name s

  -- `Initialize`
  pub initialize : (Text → Option ℤ) → Step str quote settings db (Unit {0})
  initialize stoi = do
    ensure_connection str quote settings db
    detect_current_schema str quote settings db
    detect_oracle_version str quote settings db stoi
