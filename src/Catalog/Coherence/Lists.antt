-- ===== src/Catalog/Coherence/Lists.antt =====
-- The list operations of src/storage/oracle_catalog.cpp answer what the database does.
use mathlib.Core.List.{append_cancel_right}
use duckdb_oracle.Base.{
  ◌≡◌, some, List, [], ◌∷◌, ok, Text, throw, refl, subst, ap, if◌then◌else◌, empty,
}
use duckdb_oracle.Duckdb.{Strings}
use duckdb_oracle.Settings.{OracleSettings}
use duckdb_oracle.Base.Action.{returns, ◌>>◌}
use duckdb_oracle.Catalog.Queries.{tables_query}
use duckdb_oracle.Catalog.Answers.{map_ok, tables_answer, objects_answer, asked}
use duckdb_oracle.Catalog.State.{
  CatalogState, Database, find_entry, cache_key, cannot_connect, first_columns, ensure_connection,
  load_objects, list_objects, list_tables, load_tables,
}
use duckdb_oracle.Catalog.Coherence.{IsCoherent, Gives, connected-IsCoherent}
use duckdb_oracle.Catalog.Coherence.Steps.{
  find_entry-cons, on, after_login, after_query, refused, by_cache,
}

module _ (str : Strings) (quote : Text → Text) (settings : OracleSettings) (db : Database) where
  table_cached :
      (s : CatalogState) (schema : Text) (names : List Text)
      → IsCoherent str quote settings db s
      → tables_answer str quote settings db schema ≡ ok names
      → IsCoherent str quote settings db
          (record s { table_cache = (schema, names) ∷ s.table_cache })
  table_cached s schema names h e = record {
    session = h.session;
    schemas = h.schemas;
    tables =
        find_entry-cons (λ key entries. tables_answer str quote settings db key ≡ ok entries) schema
          names s.table_cache e h.tables;
    objects = h.objects;
    current = h.current;
  }

  list_tables_missing :
      (schema : Text) (s : CatalogState)
      → IsCoherent str quote settings db s
      → Gives str quote settings db
          ((ensure_connection str quote settings db
              >> (if empty schema then returns [] else load_tables str quote settings db schema))
            s)
          (tables_answer str quote settings db schema)
  unfolding tables_answer load_tables
  list_tables_missing [] s h =
      after_login str quote settings db (returns []) s
        (if db.connects then ok [] else throw cannot_connect) h
        (λ up. (connected-IsCoherent str quote settings db s h, rw up refl)) (λ down. rw down refl)
  list_tables_missing (c ∷ rest) s h =
      after_login str quote settings db (load_tables str quote settings db (c ∷ rest)) s
        (map_ok first_columns (asked str quote settings db (tables_query quote (c ∷ rest)))) h
        (λ up.
          after_query str quote settings db (tables_query quote (c ∷ rest)) _ first_columns
            (on str quote settings db s) (connected-IsCoherent str quote settings db s h) up
            (λ rows found. (
              table_cached (on str quote settings db s) (c ∷ rest) (first_columns rows)
                  (connected-IsCoherent str quote settings db s h)
                  (ap (map_ok first_columns) found),
              refl,
            )))
        (refused str quote settings db _ _)

  pub list_tables-Gives :
      (schema : Text) (s : CatalogState)
      → IsCoherent str quote settings db s
      → Gives str quote settings db
          (list_tables str quote settings db schema s)
          (tables_answer str quote settings db schema)
  unfolding list_tables
  list_tables-Gives schema s h =
      by_cache str quote settings db (find_entry s.table_cache schema) _ s
        (tables_answer str quote settings db schema) h (h.tables schema)
        (list_tables_missing schema s h)

  object_cached :
      (s : CatalogState) (schema : Text) (names : List Text)
      → IsCoherent str quote settings db s
      → objects_answer str quote settings db schema settings.metadata_object_types ≡ ok names
      → IsCoherent str quote settings db (record s {
        object_cache = (cache_key schema settings.metadata_object_types, names) ∷ s.object_cache;
      })
  object_cached s schema names h e = record {
    session = h.session;
    schemas = h.schemas;
    tables = h.tables;
    objects = λ other entries found.
        find_entry-cons
          (λ key entries.
            (schema : Text)
            → key ≡ cache_key schema settings.metadata_object_types
            → objects_answer str quote settings db schema settings.metadata_object_types
              ≡ ok entries)
          (cache_key schema settings.metadata_object_types) names s.object_cache
          (λ same is.
            subst
              (λ n.
                objects_answer str quote settings db n settings.metadata_object_types ≡ ok names)
              (append_cancel_right _ _ _ is) e)
          (λ key entries found same is.
            h.objects same entries
              (subst (λ k. find_entry s.object_cache k ≡ some entries) is found))
          _ entries found other refl;
    current = h.current;
  }

  pub list_objects-Gives :
      (schema : Text) (s : CatalogState)
      → IsCoherent str quote settings db s
      → Gives str quote settings db
          (list_objects str quote settings db schema settings.metadata_object_types s)
          (objects_answer str quote settings db schema settings.metadata_object_types)
  unfolding list_objects objects_answer load_objects
  list_objects-Gives schema s h =
      by_cache str quote settings db
        (find_entry s.object_cache (cache_key schema settings.metadata_object_types)) _ s
        (objects_answer str quote settings db schema settings.metadata_object_types) h
        (h.objects schema)
        (after_login str quote settings db _ s
          (objects_answer str quote settings db schema settings.metadata_object_types) h
          (λ up.
            after_query str quote settings db _ _ first_columns (on str quote settings db s)
              (connected-IsCoherent str quote settings db s h) up
              (λ rows found. (
                object_cached (on str quote settings db s) schema (first_columns rows)
                    (connected-IsCoherent str quote settings db s h)
                    (ap (map_ok first_columns) found),
                refl,
              )))
          (refused str quote settings db _ _))
