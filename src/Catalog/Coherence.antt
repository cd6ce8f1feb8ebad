-- ===== src/Catalog/Coherence.antt =====
-- The caches of src/storage/oracle_catalog.cpp hold what the database answers.
pub mod Steps
pub mod Lists
pub mod Current
pub mod Schemas
pub mod Entries
use duckdb_oracle.Base.{
  ◌≡◌, ◌≢◌, true, some, List, [], ok, Text, Result, throw, refl, inl, inr, Bool, Bool-cases,
  if◌then◌else◌,
}
use duckdb_oracle.Duckdb.{Strings}
use duckdb_oracle.Settings.{OracleSettings}
use duckdb_oracle.Catalog.Answers.{tables_answer, objects_answer, current_answer, schemas_answer}
use duckdb_oracle.Catalog.State.{
  CatalogState, Database, find_entry, cache_key, clear_caches, CatalogError, cannot_connect,
  ensure_connection, connect,
}

abbrev pub login : Bool → Result CatalogError (Unit {0})
login connects = if connects then ok tt else throw cannot_connect

module _ (str : Strings) (quote : Text → Text) (settings : OracleSettings) (db : Database) where
  -- Every cache entry is the answer of the database, and a session is held only where one can be had.
  pub record IsCoherent (s : CatalogState) : Type 0 where
    pub session : s.connected ≡ true → db.connects ≡ true
    pub schemas : s.schema_cache ≢ [] → schemas_answer str quote settings db ≡ ok s.schema_cache
    pub tables :
        (schema : Text) (names : List Text)
        → find_entry s.table_cache schema ≡ some names
        → tables_answer str quote settings db schema ≡ ok names
    pub objects :
        (schema : Text) (names : List Text)
        → find_entry s.object_cache (cache_key schema settings.metadata_object_types) ≡ some names
        → objects_answer str quote settings db schema settings.metadata_object_types ≡ ok names
    pub current : s.current_schema ≢ [] → current_answer str quote settings db ≡ ok s.current_schema

  -- A state that was just made or cleared.
  pub clear_caches-IsCoherent : (s : CatalogState) → IsCoherent (clear_caches s)
  unfolding clear_caches
  clear_caches-IsCoherent s = record {
    session = λ e. cc;
    schemas = λ e. absurd (e refl);
    tables = λ schema names e. cc;
    objects = λ schema names e. cc;
    current = λ e. absurd (e refl);
  }

  -- The state, and the answer of the database.
  abbrev pub Gives :
      {A : Type 0} → CatalogState × Result CatalogError A → Result CatalogError A → Type 0
  Gives reply answer = IsCoherent reply.0 × (reply.1 ≡ answer)

  pub connected-IsCoherent :
      (s : CatalogState) → IsCoherent s → IsCoherent (record s { connected = db.connects })
  connected-IsCoherent s h = record {
    session = λ e. e;
    schemas = h.schemas;
    tables = h.tables;
    objects = h.objects;
    current = h.current;
  }

  -- With or without `connection_cache`, the session is one that the database gives.
  pub ensure_connection_lem :
      (s : CatalogState)
      → IsCoherent s
      → ensure_connection str quote settings db s
        ≡ (record s { connected = db.connects }, login db.connects)
  unfolding ensure_connection connect
  ensure_connection_lem s h = elim (Bool-cases settings.connection_cache) [
    | inl cached ↦ elim (Bool-cases s.connected) [
      | inl on ↦ rw (cached, on, h.session on) refl
      | inr off ↦ elim (Bool-cases db.connects) [
        | inl up ↦ rw (cached, off, up) refl
        | inr down ↦ rw (cached, off, down) refl
      ]
    ]
    | inr fresh ↦ elim (Bool-cases db.connects) [
      | inl up ↦ rw (fresh, up) refl
      | inr down ↦ rw (fresh, down) refl
    ]
  ]
