-- ===== src/Catalog/Coherence/Current.antt =====
-- `DetectCurrentSchema` of src/storage/oracle_catalog.cpp finds what the database says.
use duckdb_oracle.Base.{
  Bool, Result, if_true, ◌≡◌, ◌≢◌, true, false, some, none, List, [], ◌∷◌, ok, Text, throw, refl,
  sym, subst, ap, ◌∙◌, inl, inr, Bool-cases, if◌then◌else◌, empty, Option, if-Holds,
}
use duckdb_oracle.Duckdb.{Strings}
use duckdb_oracle.Settings.{OracleSettings}
use duckdb_oracle.Base.Action.{catch_all, handled, and_then, returns, changes}
use duckdb_oracle.Catalog.Queries.{current_schema_query}
use duckdb_oracle.Catalog.Answers.{asked, current_answer, map_ok, rows_or_throw}
use duckdb_oracle.Catalog.State.{
  detect_current_schema, CatalogState, Database, CatalogError, cannot_connect, cannot_query,
  first_cell, ask, ask_current_schema,
}
use duckdb_oracle.Catalog.Coherence.{
  ensure_connection_lem, login, IsCoherent, Gives, connected-IsCoherent,
}
use duckdb_oracle.Catalog.Coherence.Steps.{refused, on, after_login, asked_lem}

pub cons_is_not_nil {ℓ} : {A : Type ℓ} (x : A) (xs : List A) → x ∷ xs ≢ []
cons_is_not_nil x xs = λ e. cc

pub not_empty : (s : Text) → empty s ≡ false → s ≢ []
not_empty [] e = cc
not_empty (c ∷ s) e = cons_is_not_nil c s

-- The name that the state keeps: none where the query throws.
abbrev pub current_of : Result CatalogError Text → Text
current_of (ok name) = name
current_of (throw problem) = []

nothing : (s : Text) → empty s ≡ true → s ≡ []
nothing [] e = refl
nothing (c ∷ s) e = cc

module _ (str : Strings) (quote : Text → Text) (settings : OracleSettings) (db : Database) where
  pub current_cached :
      (s : CatalogState) (name : Text)
      → IsCoherent str quote settings db s
      → current_answer str quote settings db ≡ ok name
      → IsCoherent str quote settings db (record s { current_schema = name })
  current_cached s name h e = record {
    session = h.session;
    schemas = h.schemas;
    tables = h.tables;
    objects = h.objects;
    current = λ _. e;
  }

  pub current_lem :
      db.connects ≡ true
      → current_answer str quote settings db
        ≡ map_ok first_cell (rows_or_throw (db.answer current_schema_query))
  unfolding current_answer
  current_lem up = ap (map_ok first_cell) (asked_lem str quote settings db current_schema_query up)

  by_detect :
      (reply : Option (List (List Text))) (s : CatalogState)
      → IsCoherent str quote settings db s
      → current_answer str quote settings db ≡ map_ok first_cell (rows_or_throw reply)
      → Gives str quote settings db
          (handled
            (and_then
              (elim reply [ none ↦ (s, throw cannot_query) | some rows ↦ (s, ok rows) ])
              (λ rows. changes (λ t. record t { current_schema = first_cell rows })))
            (returns tt))
          (ok (tt {0}))
  by_detect none s h e = (h, refl)
  by_detect (some rows) s h e = (current_cached s (first_cell rows) h e, refl)

  known_connects :
      (name : Text) → current_answer str quote settings db ≡ ok name → db.connects ≡ true
  unfolding current_answer
  known_connects name e = elim (Bool-cases db.connects) [
    | inl up ↦ up
    | inr down ↦
        let thrown = refused str quote settings db current_schema_query first_cell down in cc
  ]

  pub detect_current_schema-Gives :
      (s : CatalogState)
      → IsCoherent str quote settings db s
      → Gives str quote settings db
          (detect_current_schema str quote settings db s)
          (login db.connects)
  unfolding detect_current_schema ask_current_schema ask
  detect_current_schema-Gives s h =
      if-Holds (λ r. Gives str quote settings db r (login db.connects)) (empty s.current_schema)
        (λ none_yet.
          after_login str quote settings db _ s (login db.connects) h
            (λ up. subst (Gives str quote settings db _) (sym (ap login up)) (
              by_detect (db.answer current_schema_query) (on str quote settings db s)
                (connected-IsCoherent str quote settings db s h) (current_lem up)))
            (ap login))
        (λ known. (
          h,
          sym (
              ap login
                (known_connects s.current_schema (h.current (not_empty s.current_schema known)))),
        ))

  by_detect-current :
      (connects : Bool) (reply : Option (List (List Text))) (s : CatalogState)
      → s.current_schema ≡ []
      → (and_then
          (s, login connects)
          (λ _ t.
            handled
              (and_then
                (elim reply [ none ↦ (t, throw cannot_query) | some rows ↦ (t, ok rows) ])
                (λ rows. changes (λ u. record u { current_schema = first_cell rows })))
              (returns tt))).0.current_schema
        ≡ current_of
            (map_ok first_cell (if connects then rows_or_throw reply else throw cannot_connect))
  by_detect-current true none s e = e
  by_detect-current true (some rows) s e = refl
  by_detect-current false reply s e = e

  -- What `DetectCurrentSchema` finds.
  pub detect_current_schema-current :
      (s : CatalogState)
      → IsCoherent str quote settings db s
      → empty s.current_schema ≡ true
      → (detect_current_schema str quote settings db s).0.current_schema
        ≡ current_of (current_answer str quote settings db)
  unfolding detect_current_schema ask_current_schema ask current_answer asked
  detect_current_schema-current s h none_yet =
      ap (λ (r : CatalogState × Result CatalogError (Unit {0})). r.0.current_schema)
        (if_true _ _ none_yet)
      ∙ ap
          (λ entered.
            (and_then entered (λ _.
              catch_all (ask_current_schema str quote settings db) (returns tt))).0.current_schema)
          (ensure_connection_lem str quote settings db s h)
      ∙ by_detect-current db.connects (db.answer current_schema_query) (on str quote settings db s)
          (nothing s.current_schema none_yet)
