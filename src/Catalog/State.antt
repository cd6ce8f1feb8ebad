-- ===== src/Catalog/State.antt =====
-- The operations of `OracleCatalogState` in src/storage/oracle_catalog.cpp.
use duckdb_oracle.Base.{
  Bool, true, false, Option, none, some, List, [], ◌∷◌, ◌++◌, if◌then◌else◌, ok, throw, Text, lit,
  text_eq, empty, ℤ, pos,
}
use duckdb_oracle.Duckdb.{Strings}
use duckdb_oracle.Settings.{OracleSettings}
use duckdb_oracle.Base.Action.{Action, ◌>>=◌, ◌>>◌, returns, reads, changes, catch_all}
use duckdb_oracle.Catalog.Queries.{
  current_schema_query, all_schemas_query, tables_query, synonym_query, exists_query,
  object_name_query, schema_name_query, objects_query,
}

pub data CatalogError : Type 0 where
  cannot_connect cannot_query : CatalogError

pub record OracleVersionInfo : Type 0 where
  pub major : ℤ
  pub minor : ℤ
  pub patch : ℤ
  pub supports_json_type : Bool
  pub supports_vector : Bool
  pub supports_vector_serialize : Bool

abbrev pub unknown_version : OracleVersionInfo
unknown_version = record {
  major = pos 0;
  minor = pos 0;
  patch = pos 0;
  supports_json_type = false;
  supports_vector = false;
  supports_vector_serialize = false;
}

-- `connected` is whether the `OracleConnection` holds a session; a map is the list of its entries.
pub record CatalogState : Type 0 where
  pub connected : Bool
  pub schema_cache : List Text
  pub table_cache : List (Text × List Text)
  pub object_cache : List (Text × List Text)
  pub current_schema : Text
  pub version_detected : Bool
  pub version_info : OracleVersionInfo

-- The constructor.
abbrev pub new_catalog_state : CatalogState
new_catalog_state = record {
  connected = false;
  schema_cache = [];
  table_cache = [];
  object_cache = [];
  current_schema = [];
  version_detected = false;
  version_info = unknown_version;
}

-- What the database does.
pub record Database : Type 0 where
  pub connects : Bool
  pub answer : Text → Option (List (List Text))

abbrev pub find_entry : List (Text × List Text) → Text → Option (List Text)
find_entry [] key = none
find_entry ((name, entries) ∷ cache) key =
    if text_eq name key then some entries else find_entry cache key

-- `if (!row.empty()) names.push_back(row[0]);`
pub first_columns : List (List Text) → List Text
first_columns [] = []
first_columns ([] ∷ rows) = first_columns rows
first_columns ((name ∷ more) ∷ rows) = name ∷ first_columns rows

-- `rows[0][0]` where there is one.
pub first_cell : List (List Text) → Text
first_cell [] = []
first_cell ([] ∷ rows) = []
first_cell ((name ∷ more) ∷ rows) = name

-- `ClearCaches`
unfoldable pub clear_caches : CatalogState → CatalogState
clear_caches s = new_catalog_state

abbrev pub cache_key : Text → Text → Text
cache_key schema object_types = schema ++ (lit ":" ++ object_types)

unfoldable pub is_nil : List Text → Bool
is_nil [] = true
is_nil (name ∷ names) = false

-- The query has two columns.
unfoldable pub synonym_of : List (List Text) → Option (Text × Text)
synonym_of ((owner ∷ name ∷ more) ∷ rows) = some (owner, name)
synonym_of rows = none

has_row : List (List Text) → Bool
has_row [] = false
has_row (row ∷ rows) = true

module _ (str : Strings) (quote : Text → Text) (settings : OracleSettings) (db : Database) where
  abbrev pub Step {ℓ} : Type ℓ → Type ℓ
  Step A = Action CatalogState CatalogError A

  -- `OracleConnection::Query` on a session.
  unfoldable pub ask : Text → Step (List (List Text))
  ask query s = elim (db.answer query) [ none ↦ (s, throw cannot_query) | some rows ↦ (s, ok rows) ]

  abbrev fresh_connection : CatalogState → CatalogState
  fresh_connection s = if settings.connection_cache then s else record s { connected = false }

  unfoldable pub connect : Step (Unit {0})
  connect s =
      if s.connected
      then (s, ok tt)
      else if db.connects
      then (record s { connected = true }, ok tt)
      else (s, throw cannot_connect)

  -- `EnsureConnectionInternal`
  unfoldable pub ensure_connection : Step (Unit {0})
  unfolding connect
  ensure_connection s = connect (fresh_connection s)

  -- `Query`
  unfoldable pub query_state : Text → Step (List (List Text))
  query_state query = do ensure_connection; ask query

  -- Asked only while `current_schema` is empty; no row leaves it so.
  unfoldable pub ask_current_schema : Step (Unit {0})
  ask_current_schema = do
    rows ← ask current_schema_query
    changes (λ s. record s { current_schema = first_cell rows })

  -- `DetectCurrentSchema`
  unfoldable pub detect_current_schema : Step (Unit {0})
  unfolding ask_current_schema
  detect_current_schema s =
      if empty s.current_schema
      then (do ensure_connection; catch_all ask_current_schema (returns tt)) s
      else (s, ok tt)

  -- All schemas.
  unfoldable pub load_all_schemas : Step (List Text)
  load_all_schemas = do
    rows ← ask all_schemas_query
    changes (λ s. record s { schema_cache = first_columns rows })
    reads (λ s. s.schema_cache)

  abbrev schema_names : Text → List Text
  schema_names current =
      if settings.use_current_schema then lit "main" ∷ current ∷ [] else current ∷ []

  -- The current schema alone, where there is one.
  unfoldable pub load_current_schema : Step (List Text)
  unfolding load_all_schemas
  load_current_schema s = if empty s.current_schema then load_all_schemas s else (
    record s { schema_cache = schema_names s.current_schema },
    ok (schema_names s.current_schema),
  )

  unfoldable pub lazy_schemas : Step (List Text)
  unfolding ask_current_schema load_current_schema
  lazy_schemas s =
      if empty s.current_schema
      then (do ask_current_schema; load_current_schema) s
      else load_current_schema s

  -- `ListSchemas`
  unfoldable pub list_schemas : Step (List Text)
  unfolding is_nil lazy_schemas load_all_schemas
  list_schemas s =
      if is_nil s.schema_cache
      then (do
        ensure_connection
        (if settings.lazy_schema_loading then lazy_schemas else load_all_schemas))
          s
      else (s, ok s.schema_cache)

  unfoldable pub load_tables : Text → Step (List Text)
  load_tables schema = do
    rows ← ask (tables_query quote schema)
    changes (λ s. record s { table_cache = (schema, first_columns rows) ∷ s.table_cache })
    returns (first_columns rows)

  -- `ListTables`
  unfoldable pub list_tables : Text → Step (List Text)
  unfolding load_tables
  list_tables schema s = elim (find_entry s.table_cache schema) [
    | some tables ↦ (s, ok tables)
    | none ↦ (do ensure_connection; (if empty schema then returns [] else load_tables schema)) s
  ]

  unfoldable pub load_objects : Text → Text → Step (List Text)
  load_objects schema object_types = do
    rows ← ask (objects_query quote str settings.metadata_result_limit schema object_types)
    changes (λ s. record s {
      object_cache = (cache_key schema object_types, first_columns rows) ∷ s.object_cache;
    })
    returns (first_columns rows)

  -- `ListObjects`
  unfoldable pub list_objects : Text → Text → Step (List Text)
  unfolding load_objects
  list_objects schema object_types s =
      elim (find_entry s.object_cache (cache_key schema object_types)) [
        | some objects ↦ (s, ok objects)
        | none ↦ (do ensure_connection; load_objects schema object_types) s
      ]

  -- `ResolveSynonym`; `none` is not found.
  unfoldable pub resolve_synonym : Text → Text → Step (Option (Text × Text))
  unfolding synonym_of
  resolve_synonym schema synonym_name = do
    ensure_connection
    rows ← ask (synonym_query quote schema synonym_name)
    returns (synonym_of rows)

  -- `ObjectExists`
  pub object_exists : Text → Text → Text → Step Bool
  unfolding has_row
  object_exists schema object_name object_types = do
    ensure_connection
    rows ← ask (exists_query quote schema object_name object_types)
    returns (has_row rows)

  -- `GetObjectName`
  unfoldable pub get_object_name : Text → Text → Text → Step Text
  get_object_name schema object_name object_types = do
    ensure_connection
    rows ← ask (object_name_query quote schema object_name object_types)
    returns (first_cell rows)

  -- `GetRealSchemaName`
  unfoldable pub get_real_schema_name : Text → Step Text
  get_real_schema_name name = do
    ensure_connection
    rows ← ask (schema_name_query quote name)
    returns (first_cell rows)
