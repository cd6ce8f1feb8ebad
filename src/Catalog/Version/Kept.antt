-- ===== src/Catalog/Version/Kept.antt =====
-- The requests to a state of src/storage/oracle_catalog.cpp leave its version information as it is, or
-- clear it.
use duckdb_oracle.Base.{
  Result, List, ok, throw, Text, if-Holds, empty, Option-cases, Bool-cases, inl, inr, lit, text_eq,
  ◌&&◌,
}
use duckdb_oracle.Duckdb.{Strings}
use duckdb_oracle.Settings.{OracleSettings}
use duckdb_oracle.Base.Action.{Action, and_then, handled, returns}
use duckdb_oracle.Catalog.State.{
  CatalogState, CatalogError, Database, find_entry, cache_key, ask, connect, ensure_connection,
  clear_caches, detect_current_schema, ask_current_schema, load_all_schemas, load_current_schema,
  lazy_schemas, list_schemas, load_tables, list_tables, load_objects, list_objects, resolve_synonym,
  get_object_name, get_real_schema_name, is_nil,
}
use duckdb_oracle.Catalog.Generators.{
  create_table_entry, create_schema_entry, create_named_schema, create_current_schema,
}
use duckdb_oracle.Catalog.Refinement.{
  Request, schemas, detect, clear, tables_of, objects_of, schema_named, table_named, serve,
}
use duckdb_oracle.Catalog.Version.Features.{IsLadder, unknown_version-IsLadder}

-- The version information of a state.
abbrev pub Fine : CatalogState → Type 0
Fine s = IsLadder s.version_info

-- An action has come to its end, with a value or an exception, and left it so.
pub record Left {ℓ} {A : Type ℓ} (reply : CatalogState × Result CatalogError A) : Type 0 where
  pub fine : Fine reply.0

-- An action that keeps it.
abbrev pub Keeps {ℓ} : {A : Type ℓ} → Action CatalogState CatalogError A → Type 0
Keeps action = (s : CatalogState) → Fine s → Left (action s)

pub and_then-Left {ℓ κ} :
    {A : Type ℓ} {B : Type κ} (done : CatalogState × Result CatalogError A)
    (next : A → Action CatalogState CatalogError B)
    → Left done
    → ((a : A) → Keeps (next a))
    → Left (and_then done next)
and_then-Left (t, throw problem) next h keeps = record { fine = h.fine }
and_then-Left (t, ok a) next h keeps = keeps a t h.fine

pub handled-Left {ℓ} :
    {A : Type ℓ} (done : CatalogState × Result CatalogError A) (a : A)
    → Left done
    → Left (handled done (returns a))
handled-Left (t, throw problem) a h = record { fine = h.fine }
handled-Left (t, ok b) a h = record { fine = h.fine }

module _ (str : Strings) (quote : Text → Text) (settings : OracleSettings) (db : Database) where
  pub ask-Keeps : (query : Text) → Keeps (ask str quote settings db query)
  unfolding ask
  ask-Keeps query s h = elim (Option-cases (db.answer query)) [
    | inl gone ↦ rw (gone, ask) (record { fine = h })
    | inr (rows, found) ↦ rw (found, ask) (record { fine = h })
  ]

  pub ensure_connection-Keeps : Keeps (ensure_connection str quote settings db)
  unfolding ensure_connection connect
  ensure_connection-Keeps s h = elim (Bool-cases settings.connection_cache) [
    | inl cached ↦ elim (Bool-cases s.connected) [
      | inl on ↦ rw (cached, on) (record { fine = h })
      | inr off ↦
          rw (cached, off)
            (if-Holds Left db.connects (λ _. record { fine = h }) (λ _. record { fine = h }))
    ]
    | inr fresh ↦
        rw fresh (if-Holds Left db.connects (λ _. record { fine = h }) (λ _. record { fine = h }))
  ]

  -- A session and a query, whatever is made of the rows.
  asks-Keeps {ℓ} :
      {A : Type ℓ} (query : Text) (next : List (List Text) → Action CatalogState CatalogError A)
      → ((rows : List (List Text)) → Keeps (next rows))
      → Keeps (λ s.
        and_then
          (ensure_connection str quote settings db s)
          (λ _ t. and_then (ask str quote settings db query t) next))
  asks-Keeps query next keeps s h =
      and_then-Left (ensure_connection str quote settings db s) _ (ensure_connection-Keeps s h)
        (λ _ t g.
          and_then-Left (ask str quote settings db query t) next (ask-Keeps query t g) keeps)

  ask_current_schema-Keeps : Keeps (ask_current_schema str quote settings db)
  unfolding ask_current_schema
  ask_current_schema-Keeps s h =
      and_then-Left (ask str quote settings db _ s) _ (ask-Keeps _ s h)
        (λ rows t g. record { fine = g })

  detect_current_schema-Keeps : Keeps (detect_current_schema str quote settings db)
  unfolding detect_current_schema
  detect_current_schema-Keeps s h =
      if-Holds Left (empty s.current_schema)
        (λ _.
          and_then-Left (ensure_connection str quote settings db s) _ (ensure_connection-Keeps s h)
            (λ _ t g.
              handled-Left (ask_current_schema str quote settings db t) tt
                (ask_current_schema-Keeps t g)))
        (λ _. record { fine = h })

  load_all_schemas-Keeps : Keeps (load_all_schemas str quote settings db)
  unfolding load_all_schemas
  load_all_schemas-Keeps s h =
      and_then-Left (ask str quote settings db _ s) _ (ask-Keeps _ s h)
        (λ rows t g. record { fine = g })

  load_current_schema-Keeps : Keeps (load_current_schema str quote settings db)
  unfolding load_current_schema
  load_current_schema-Keeps s h =
      if-Holds Left (empty s.current_schema) (λ _. load_all_schemas-Keeps s h)
        (λ _. record { fine = h })

  lazy_schemas-Keeps : Keeps (lazy_schemas str quote settings db)
  unfolding lazy_schemas
  lazy_schemas-Keeps s h =
      if-Holds Left (empty s.current_schema)
        (λ _.
          and_then-Left (ask_current_schema str quote settings db s) _
            (ask_current_schema-Keeps s h) (λ _. load_current_schema-Keeps))
        (λ _. load_current_schema-Keeps s h)

  list_schemas-Keeps : Keeps (list_schemas str quote settings db)
  unfolding list_schemas
  list_schemas-Keeps s h =
      if-Holds Left (is_nil s.schema_cache)
        (λ _.
          and_then-Left (ensure_connection str quote settings db s) _ (ensure_connection-Keeps s h)
            (λ _.
              if-Holds Keeps settings.lazy_schema_loading (λ _. lazy_schemas-Keeps)
                (λ _. load_all_schemas-Keeps)))
        (λ _. record { fine = h })

  list_tables-Keeps : (schema : Text) → Keeps (list_tables str quote settings db schema)
  unfolding list_tables load_tables
  list_tables-Keeps schema s h = elim (Option-cases (find_entry s.table_cache schema)) [
    | inr (tables, found) ↦ rw (found, list_tables) (record { fine = h })
    | inl gone ↦
        rw (gone, list_tables)
          (and_then-Left (ensure_connection str quote settings db s) _ (ensure_connection-Keeps s h)
            (λ _.
              if-Holds Keeps (empty schema) (λ _ t g. record { fine = g })
                (λ _ t g.
                  and_then-Left (ask str quote settings db _ t) _ (ask-Keeps _ t g)
                    (λ rows u k. record { fine = k }))))
  ]

  list_objects-Keeps :
      (schema object_types : Text) → Keeps (list_objects str quote settings db schema object_types)
  unfolding list_objects load_objects
  list_objects-Keeps schema object_types s h =
      elim (Option-cases (find_entry s.object_cache (cache_key schema object_types))) [
        | inr (objects, found) ↦ rw (found, list_objects) (record { fine = h })
        | inl gone ↦ rw (gone, list_objects) (asks-Keeps _ _ (λ rows t g. record { fine = g }) s h)
      ]

  create_table_entry-Keeps :
      (schema_name entry_name : Text)
      → Keeps (create_table_entry str quote settings db schema_name entry_name)
  unfolding create_table_entry get_object_name resolve_synonym
  create_table_entry-Keeps schema_name entry_name s h =
      and_then-Left _ _ (asks-Keeps _ _ (λ rows t g. record { fine = g }) s h) (λ real_name.
        if-Holds Keeps (empty real_name)
          (λ _ t g.
            and_then-Left _ _ (asks-Keeps _ _ (λ rows u k. record { fine = k }) t g)
              (λ _ u k. record { fine = k }))
          (λ _ t g. record { fine = g }))

  create_named_schema-Keeps :
      (entry_name : Text) → Keeps (create_named_schema str quote settings db entry_name)
  unfolding create_named_schema get_real_schema_name
  create_named_schema-Keeps entry_name s h =
      and_then-Left _ _ (asks-Keeps _ _ (λ rows t g. record { fine = g }) s h)
        (λ _ t g. record { fine = g })

  create_current_schema-Keeps :
      (entry_name : Text) → Keeps (create_current_schema str quote settings db entry_name)
  unfolding create_current_schema
  create_current_schema-Keeps entry_name s h =
      if-Holds Left (empty s.current_schema) (λ _. create_named_schema-Keeps entry_name s h)
        (λ _. record { fine = h })

  create_schema_entry-Keeps :
      (entry_name : Text) → Keeps (create_schema_entry str quote settings db entry_name)
  unfolding create_schema_entry
  create_schema_entry-Keeps entry_name s h =
      if-Holds Left (text_eq entry_name (lit "main") && settings.use_current_schema)
        (λ _.
          if-Holds Left (empty s.current_schema)
            (λ _.
              and_then-Left _ _ (detect_current_schema-Keeps s h)
                (λ _. create_current_schema-Keeps entry_name))
            (λ _. create_current_schema-Keeps entry_name s h))
        (λ _. create_named_schema-Keeps entry_name s h)

  pub serve-Keeps : (request : Request) → Keeps (serve str quote settings db request)
  unfolding serve clear_caches
  serve-Keeps schemas s h =
      and_then-Left _ _ (list_schemas-Keeps s h) (λ _ t g. record { fine = g })
  serve-Keeps detect s h =
      and_then-Left _ _ (detect_current_schema-Keeps s h) (λ _ t g. record { fine = g })
  serve-Keeps clear s h = record { fine = unknown_version-IsLadder }
  serve-Keeps (tables_of name) s h =
      and_then-Left _ _ (list_tables-Keeps name s h) (λ _ t g. record { fine = g })
  serve-Keeps (objects_of name) s h =
      and_then-Left _ _ (list_objects-Keeps name _ s h) (λ _ t g. record { fine = g })
  serve-Keeps (schema_named name) s h =
      and_then-Left _ _ (create_schema_entry-Keeps name s h) (λ _ t g. record { fine = g })
  serve-Keeps (table_named schema name) s h =
      and_then-Left _ _ (create_table_entry-Keeps schema name s h) (λ _ t g. record { fine = g })
