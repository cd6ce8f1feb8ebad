-- ===== src/Catalog/Coherence/Schemas.antt =====
-- `ListSchemas` of src/storage/oracle_catalog.cpp answers what the database does.
use duckdb_oracle.Base.{
  if_false, if_true, ◌≡◌, ◌≢◌, true, false, some, none, List, [], ◌∷◌, ok, Text, throw, refl, sym,
  subst, ap, ◌∙◌, inl, inr, Bool-cases, if◌then◌else◌, empty, Option, if-Holds,
}
use duckdb_oracle.Duckdb.{Strings}
use duckdb_oracle.Settings.{OracleSettings}
use duckdb_oracle.Base.Action.{Action, and_then, changes}
use duckdb_oracle.Catalog.Queries.{current_schema_query, all_schemas_query}
use duckdb_oracle.Catalog.Answers.{
  schemas_for, all_schemas_answer, current_answer, schemas_answer, with_main, map_ok, rows_or_throw,
}
use duckdb_oracle.Catalog.State.{
  CatalogState, Database, CatalogError, cannot_connect, cannot_query, first_columns, first_cell,
  ask, list_schemas, load_all_schemas, load_current_schema, lazy_schemas, ask_current_schema,
  is_nil,
}
use duckdb_oracle.Catalog.Coherence.{IsCoherent, Gives, connected-IsCoherent}
use duckdb_oracle.Catalog.Coherence.Steps.{refused, on, after_login, after_query}
use duckdb_oracle.Catalog.Coherence.Current.{
  cons_is_not_nil, not_empty, current_cached, current_lem,
}

not_nil : (names : List Text) → is_nil names ≡ false → names ≢ []
unfolding is_nil
not_nil [] e = cc
not_nil (name ∷ names) e = cons_is_not_nil name names

module _ (str : Strings) (quote : Text → Text) (settings : OracleSettings) (db : Database) where
  schemas_cached :
      (s : CatalogState) (names : List Text)
      → IsCoherent str quote settings db s
      → schemas_answer str quote settings db ≡ ok names
      → IsCoherent str quote settings db (record s { schema_cache = names })
  schemas_cached s names h e = record {
    session = h.session;
    schemas = λ _. e;
    tables = h.tables;
    objects = h.objects;
    current = h.current;
  }

  load_all_schemas-Gives :
      (s : CatalogState)
      → IsCoherent str quote settings db s
      → db.connects ≡ true
      → schemas_answer str quote settings db ≡ all_schemas_answer str quote settings db
      → Gives str quote settings db
          (load_all_schemas str quote settings db s)
          (all_schemas_answer str quote settings db)
  unfolding load_all_schemas all_schemas_answer
  load_all_schemas-Gives s h up e =
      after_query str quote settings db all_schemas_query _ first_columns s h up (λ rows found.
        (schemas_cached s (first_columns rows) h (e ∙ ap (map_ok first_columns) found), refl))

  eager_answer :
      settings.lazy_schema_loading ≡ false
      → schemas_answer str quote settings db ≡ all_schemas_answer str quote settings db
  unfolding schemas_answer
  eager_answer eager = if_false _ _ eager

  lazy_throws :
      (e : CatalogError)
      → settings.lazy_schema_loading ≡ true
      → current_answer str quote settings db ≡ throw e
      → schemas_answer str quote settings db ≡ throw e
  unfolding schemas_answer
  lazy_throws e lazy problem =
      ap
        (λ is_lazy.
          if is_lazy
          then schemas_for str quote settings db (current_answer str quote settings db)
          else all_schemas_answer str quote settings db)
        lazy
      ∙ ap (schemas_for str quote settings db) problem

  schemas_refused :
      db.connects ≡ false → schemas_answer str quote settings db ≡ throw cannot_connect
  unfolding current_answer all_schemas_answer
  schemas_refused down = elim (Bool-cases settings.lazy_schema_loading) [
    | inl lazy ↦
        lazy_throws cannot_connect lazy
          (refused str quote settings db current_schema_query first_cell down)
    | inr eager ↦
        eager_answer eager ∙ refused str quote settings db all_schemas_query first_columns down
  ]

  lazy_answer :
      (name : Text)
      → settings.lazy_schema_loading ≡ true
      → current_answer str quote settings db ≡ ok name
      → schemas_answer str quote settings db ≡ (
          if empty name
          then all_schemas_answer str quote settings db
          else ok (with_main str quote settings db name))
  unfolding schemas_answer
  lazy_answer name lazy e =
      ap
        (λ is_lazy.
          if is_lazy
          then schemas_for str quote settings db (current_answer str quote settings db)
          else all_schemas_answer str quote settings db)
        lazy
      ∙ ap (schemas_for str quote settings db) e

  load_current_schema-Gives :
      (s : CatalogState)
      → IsCoherent str quote settings db s
      → db.connects ≡ true
      → schemas_answer str quote settings db ≡ (
          if empty s.current_schema
          then all_schemas_answer str quote settings db
          else ok (with_main str quote settings db s.current_schema))
      → Gives str quote settings db
          (load_current_schema str quote settings db s)
          (schemas_answer str quote settings db)
  unfolding load_current_schema
  load_current_schema-Gives s h up e =
      if-Holds (λ r. Gives str quote settings db r (schemas_answer str quote settings db))
        (empty s.current_schema)
        (λ none_yet.
          let all = e ∙ if_true _ _ none_yet in
          subst (Gives str quote settings db (load_all_schemas str quote settings db s)) (sym all)
            (load_all_schemas-Gives s h up all))
        (λ known.
          let one = e ∙ if_false _ _ known in
          (schemas_cached s (with_main str quote settings db s.current_schema) h one, sym one))

  -- The reply to the query for the current schema, stored.
  by_current :
      (reply : Option (List (List Text))) (s : CatalogState)
      → IsCoherent str quote settings db s
      → db.connects ≡ true
      → settings.lazy_schema_loading ≡ true
      → current_answer str quote settings db ≡ map_ok first_cell (rows_or_throw reply)
      → Gives str quote settings db
          (and_then
            (and_then
              (elim reply [ none ↦ (s, throw cannot_query) | some rows ↦ (s, ok rows) ])
              (λ rows. changes (λ t. record t { current_schema = first_cell rows })))
            (λ _. load_current_schema str quote settings db))
          (schemas_answer str quote settings db)
  by_current none s h up lazy e = (h, sym (lazy_throws cannot_query lazy e))
  by_current (some rows) s h up lazy e =
      load_current_schema-Gives (record s { current_schema = first_cell rows })
        (current_cached str quote settings db s (first_cell rows) h e) up
        (lazy_answer (first_cell rows) lazy e)

  lazy_schemas-Gives :
      (s : CatalogState)
      → IsCoherent str quote settings db s
      → db.connects ≡ true
      → settings.lazy_schema_loading ≡ true
      → Gives str quote settings db
          (lazy_schemas str quote settings db s)
          (schemas_answer str quote settings db)
  unfolding lazy_schemas ask_current_schema ask
  lazy_schemas-Gives s h up lazy =
      if-Holds (λ r. Gives str quote settings db r (schemas_answer str quote settings db))
        (empty s.current_schema)
        (λ none_yet.
          by_current (db.answer current_schema_query) s h up lazy
            (current_lem str quote settings db up))
        (λ known.
          load_current_schema-Gives s h up
            (lazy_answer s.current_schema lazy (h.current (not_empty s.current_schema known))))

  list_schemas_missing :
      (s : CatalogState)
      → IsCoherent str quote settings db s
      → db.connects ≡ true
      → Gives str quote settings db
          ((if settings.lazy_schema_loading
              then lazy_schemas str quote settings db
              else load_all_schemas str quote settings db)
            s)
          (schemas_answer str quote settings db)
  list_schemas_missing s h up =
      if-Holds
        (λ (next : Action CatalogState CatalogError (List Text)).
          Gives str quote settings db (next s) (schemas_answer str quote settings db))
        settings.lazy_schema_loading (lazy_schemas-Gives s h up)
        (λ eager.
          let all = eager_answer eager in
          subst (Gives str quote settings db (load_all_schemas str quote settings db s)) (sym all)
            (load_all_schemas-Gives s h up all))

  pub list_schemas-Gives :
      (s : CatalogState)
      → IsCoherent str quote settings db s
      → Gives str quote settings db
          (list_schemas str quote settings db s)
          (schemas_answer str quote settings db)
  unfolding list_schemas
  list_schemas-Gives s h =
      if-Holds (λ r. Gives str quote settings db r (schemas_answer str quote settings db))
        (is_nil s.schema_cache)
        (λ nothing.
          after_login str quote settings db _ s (schemas_answer str quote settings db) h
            (list_schemas_missing (on str quote settings db s)
              (connected-IsCoherent str quote settings db s h))
            schemas_refused)
        (λ known. (h, sym (h.schemas (not_nil s.schema_cache known))))
