-- ===== src/Catalog/Refinement.antt =====
-- A client of src/storage/oracle_catalog.cpp cannot tell the caches from the database.
use duckdb_oracle.Base.{Option, ◌≡◌, List, [], ◌∷◌, map, ok, Text, Result, refl, ap, ◌∙◌}
use duckdb_oracle.Duckdb.{Strings}
use duckdb_oracle.Settings.{OracleSettings}
use duckdb_oracle.Base.Action.{◌>>=◌, Action, returns}
use duckdb_oracle.Catalog.Answers.{map_ok, schemas_answer, tables_answer, objects_answer}
use duckdb_oracle.Catalog.State.{
  CatalogState, CatalogError, Database, clear_caches, list_schemas, list_tables, list_objects,
  detect_current_schema,
}
use duckdb_oracle.Catalog.Coherence.{IsCoherent, Gives, login, clear_caches-IsCoherent}
use duckdb_oracle.Catalog.Generators.{
  TableEntry, SchemaEntry, create_table_entry, create_schema_entry,
}
use duckdb_oracle.Catalog.Coherence.Entries.{
  Gives-map, table_entry_answer, schema_entry_answer, create_table_entry-Gives,
  create_schema_entry-Gives,
}
use duckdb_oracle.Catalog.Coherence.Lists.{list_tables-Gives, list_objects-Gives}
use duckdb_oracle.Catalog.Coherence.Schemas.{list_schemas-Gives}
use duckdb_oracle.Catalog.Coherence.Current.{detect_current_schema-Gives}

-- What the generators, `OracleCatalog` and `OracleClearCache` ask of the state.
pub data Request : Type 0 where
  schemas detect clear : Request
  tables_of objects_of schema_named : Text → Request
  table_named : Text → Text → Request

pub data Answer : Type 0 where
  done : Answer
  names : List Text → Answer
  schema : SchemaEntry → Answer
  table : Option TableEntry → Answer

module _ (str : Strings) (quote : Text → Text) (settings : OracleSettings) (db : Database) where
  unfoldable pub serve : Request → Action CatalogState CatalogError Answer
  serve schemas = list_schemas str quote settings db >>= λ found. returns (names found)
  serve detect = detect_current_schema str quote settings db >>= λ _. returns done
  serve clear = λ s. (clear_caches s, ok done)
  serve (tables_of schema_name) =
      list_tables str quote settings db schema_name >>= λ found. returns (names found)
  serve (objects_of schema_name) =
      list_objects str quote settings db schema_name settings.metadata_object_types >>= λ found.
      returns (names found)
  serve (schema_named name) =
      create_schema_entry str quote settings db name >>= λ entry. returns (schema entry)
  serve (table_named schema_name name) =
      create_table_entry str quote settings db schema_name name >>= λ entry. returns (table entry)

  -- The replies, in their order; an exception ends its request and no other.
  pub replies : List Request → CatalogState → List (Result CatalogError Answer)
  unfolding serve
  replies [] s = []
  replies (request ∷ requests) s = let reply = serve request s in reply.1 ∷ replies requests reply.0

  -- The reply without any state.
  pub reference : Request → Result CatalogError Answer
  reference schemas = map_ok names (schemas_answer str quote settings db)
  reference detect = map_ok (λ _. done) (login db.connects)
  reference clear = ok done
  reference (tables_of schema_name) = map_ok names (tables_answer str quote settings db schema_name)
  reference (objects_of schema_name) =
      map_ok names (objects_answer str quote settings db schema_name settings.metadata_object_types)
  reference (schema_named name) = map_ok schema (schema_entry_answer str quote settings db name)
  reference (table_named schema_name name) =
      map_ok table (table_entry_answer str quote settings db schema_name name)

  serve-Gives :
      (request : Request) (s : CatalogState)
      → IsCoherent str quote settings db s
      → Gives str quote settings db (serve request s) (reference request)
  unfolding serve reference
  serve-Gives schemas s h =
      Gives-map str quote settings db _ _ names (list_schemas-Gives str quote settings db s h)
  serve-Gives detect s h =
      Gives-map str quote settings db _ _ (λ _. done)
        (detect_current_schema-Gives str quote settings db s h)
  serve-Gives clear s h = (clear_caches-IsCoherent str quote settings db s, refl)
  serve-Gives (tables_of schema_name) s h =
      Gives-map str quote settings db _ _ names
        (list_tables-Gives str quote settings db schema_name s h)
  serve-Gives (objects_of schema_name) s h =
      Gives-map str quote settings db _ _ names
        (list_objects-Gives str quote settings db schema_name s h)
  serve-Gives (schema_named name) s h =
      Gives-map str quote settings db _ _ schema
        (create_schema_entry-Gives str quote settings db name s h)
  serve-Gives (table_named schema_name name) s h =
      Gives-map str quote settings db _ _ table
        (create_table_entry-Gives str quote settings db schema_name name s h)

  replies-IsCoherent :
      (requests : List Request) (s : CatalogState)
      → IsCoherent str quote settings db s
      → replies requests s ≡ map reference requests
  unfolding replies
  replies-IsCoherent [] s h = refl
  replies-IsCoherent (request ∷ requests) s h =
      let served = serve-Gives request s h in
      ap (◌∷◌ (serve request s).1) (replies-IsCoherent requests (serve request s).0 served.0)
      ∙ ap (λ reply. reply ∷ map reference requests) served.1

  -- After `ClearCaches`, whatever the caches held before, each request in any series of them (list the
  -- schemas, the tables or the objects of a schema, create the entry of a schema or of a table, detect
  -- the current schema, clear) gets the reply that the database gives with nothing cached, provided
  -- that the database answers a query always alike. So no reply depends on the requests before it,
  -- and none sees an error that another has met.
  pub replies-reference :
      (requests : List Request) (stale : CatalogState)
      → replies requests (clear_caches stale) ≡ map reference requests
  replies-reference requests stale =
      replies-IsCoherent requests (clear_caches stale)
        (clear_caches-IsCoherent str quote settings db stale)
