-- ===== src/Catalog/Coherence/Entries.antt =====
-- The generators of src/storage/oracle_schema_entry.cpp answer what the database does.
use duckdb_oracle.Base.{
  ◌≡◌, true, false, ◌&&◌, Option, some, List, ok, Text, Result, throw, refl, sym, subst, ap, ◌∙◌,
  Bool, if◌then◌else◌, empty, if-Holds, lit, text_eq, if_true, if_false,
}
use duckdb_oracle.Duckdb.{Strings}
use duckdb_oracle.Settings.{OracleSettings}
use duckdb_oracle.Base.Action.{Action, and_then, ◌>>=◌, ◌>>◌, returns}
use duckdb_oracle.Catalog.Queries.{
  current_schema_query, object_name_query, synonym_query, schema_name_query,
}
use duckdb_oracle.Catalog.Answers.{map_ok, current_answer, asked}
use duckdb_oracle.Catalog.State.{
  ask, CatalogState, Database, CatalogError, cannot_connect, first_cell, get_object_name,
  resolve_synonym, get_real_schema_name, detect_current_schema, synonym_of,
}
use duckdb_oracle.Catalog.Generators.{
  TableEntry, SchemaEntry, schema_entry, table_types, synonym_entry, named_entry,
  create_table_entry, create_named_schema, create_current_schema, create_schema_entry,
}
use duckdb_oracle.Catalog.Coherence.{
  ensure_connection, IsCoherent, Gives, login, connected-IsCoherent,
}
use duckdb_oracle.Catalog.Coherence.Current.{
  current_of, not_empty, detect_current_schema-Gives, detect_current_schema-current,
}
use duckdb_oracle.Catalog.Coherence.Steps.{on, after_login, after_query, refused}

abbrev pub then_answer :
    {A B : Type 0} → Result CatalogError A → (A → Result CatalogError B) → Result CatalogError B
then_answer (throw problem) f = throw problem
then_answer (ok a) f = f a

module _ (str : Strings) (quote : Text → Text) (settings : OracleSettings) (db : Database) where
  abbrev pub table_or_synonym : Text → Text → Text → Result CatalogError (Option TableEntry)
  table_or_synonym schema_name entry_name real_name =
      if empty real_name
      then map_ok (synonym_entry entry_name) (
          map_ok synonym_of
            (asked str quote settings db (synonym_query quote schema_name entry_name)))
      else ok (some (record { owner = schema_name; object = real_name; entry_name = entry_name }))

  -- An object of the schema, else what a synonym of that name stands for, else nothing.
  unfoldable pub table_entry_answer : Text → Text → Result CatalogError (Option TableEntry)
  table_entry_answer schema_name entry_name =
      then_answer
        (map_ok first_cell (
          asked str quote settings db (object_name_query quote schema_name entry_name table_types)))
        (table_or_synonym schema_name entry_name)

  unfoldable pub named_schema_answer : Text → Result CatalogError SchemaEntry
  named_schema_answer entry_name =
      map_ok (named_entry entry_name)
        (map_ok first_cell (asked str quote settings db (schema_name_query quote entry_name)))

  -- A query that reads one name.
  lookup-Gives :
      {A : Type 0} (query : Text) (f : List (List Text) → A) (s : CatalogState)
      → IsCoherent str quote settings db s
      → Gives str quote settings db
          ((ensure_connection str quote settings db
              >> (ask str quote settings db query >>= λ rows. returns (f rows)))
            s)
          (map_ok f (asked str quote settings db query))
  lookup-Gives query f s h =
      after_login str quote settings db _ s _ h
        (λ up.
          after_query str quote settings db query (λ rows. returns (f rows)) f
            (on str quote settings db s) (connected-IsCoherent str quote settings db s h) up
            (λ rows found. (connected-IsCoherent str quote settings db s h, refl)))
        (refused str quote settings db query f)

  Gives-then :
      {A B : Type 0} (done : CatalogState × Result CatalogError A) (answer : Result CatalogError A)
      (next : A → Action CatalogState CatalogError B) (f : A → Result CatalogError B)
      → Gives str quote settings db done answer
      → ((a : A) (s : CatalogState)
          → IsCoherent str quote settings db s
          → Gives str quote settings db (next a s) (f a))
      → Gives str quote settings db (and_then done next) (then_answer answer f)
  Gives-then (s, ok value) answer next f (h, e) later =
      subst (λ r. Gives str quote settings db (next value s) (then_answer r f)) e (later value s h)
  Gives-then (s, throw problem) answer next f (h, e) later = (h, ap (λ r. then_answer r f) e)

  pub Gives-map :
      {A B : Type 0} (done : CatalogState × Result CatalogError A) (answer : Result CatalogError A)
      (f : A → B)
      → Gives str quote settings db done answer
      → Gives str quote settings db (and_then done (λ a. returns (f a))) (map_ok f answer)
  Gives-map (s, ok value) answer f (h, e) = (h, ap (map_ok f) e)
  Gives-map (s, throw problem) answer f (h, e) = (h, ap (map_ok f) e)

  pub create_table_entry-Gives :
      (schema_name entry_name : Text) (s : CatalogState)
      → IsCoherent str quote settings db s
      → Gives str quote settings db
          (create_table_entry str quote settings db schema_name entry_name s)
          (table_entry_answer schema_name entry_name)
  unfolding create_table_entry table_entry_answer get_object_name resolve_synonym
  create_table_entry-Gives schema_name entry_name s h =
      Gives-then (get_object_name str quote settings db schema_name entry_name table_types s)
        (map_ok first_cell (
          asked str quote settings db (object_name_query quote schema_name entry_name table_types)))
        _ (table_or_synonym schema_name entry_name) (lookup-Gives _ first_cell s h)
        (λ real_name t k.
          if-Holds
            (λ (next : Action CatalogState CatalogError (Option TableEntry)).
              Gives str quote settings db (next t)
                (table_or_synonym schema_name entry_name real_name))
            (empty real_name)
            (λ missing.
              subst (Gives str quote settings db _) (sym (if_true _ _ missing))
                (Gives-map _ _ (synonym_entry entry_name) (lookup-Gives _ synonym_of t k)))
            (λ found. subst (Gives str quote settings db _) (sym (if_false _ _ found)) (k, refl)))

  create_named_schema-Gives :
      (entry_name : Text) (s : CatalogState)
      → IsCoherent str quote settings db s
      → Gives str quote settings db
          (create_named_schema str quote settings db entry_name s)
          (named_schema_answer entry_name)
  unfolding create_named_schema named_schema_answer get_real_schema_name
  create_named_schema-Gives entry_name s h =
      Gives-map _ _ (named_entry entry_name) (lookup-Gives _ first_cell s h)

  named_schema_refused :
      (entry_name : Text)
      → db.connects ≡ false
      → named_schema_answer entry_name ≡ throw cannot_connect
  unfolding named_schema_answer
  named_schema_refused entry_name down =
      ap (map_ok (named_entry entry_name))
        (refused str quote settings db (schema_name_query quote entry_name) first_cell down)

  abbrev pub current_or_named : Text → Text → Result CatalogError SchemaEntry
  current_or_named entry_name current =
      if empty current then named_schema_answer entry_name else ok (schema_entry entry_name current)

  -- "main" is the current schema where there is one; another name is that of a user, in any case.
  unfoldable pub schema_entry_answer : Text → Result CatalogError SchemaEntry
  schema_entry_answer entry_name =
      if text_eq entry_name (lit "main") && settings.use_current_schema
      then current_or_named entry_name (current_of (current_answer str quote settings db))
      else named_schema_answer entry_name

  create_current_schema-Gives :
      (entry_name current : Text) (s : CatalogState)
      → IsCoherent str quote settings db s
      → s.current_schema ≡ current
      → Gives str quote settings db
          (create_current_schema str quote settings db entry_name s)
          (current_or_named entry_name current)
  unfolding create_current_schema
  create_current_schema-Gives entry_name current s h e =
      subst
        (λ name.
          Gives str quote settings db (create_current_schema str quote settings db entry_name s)
            (current_or_named entry_name name))
        e
        (if-Holds
          (λ (r : CatalogState × Result CatalogError SchemaEntry).
            Gives str quote settings db r (current_or_named entry_name s.current_schema))
          (empty s.current_schema)
          (λ none_yet.
            subst (Gives str quote settings db _) (sym (if_true _ _ none_yet))
              (create_named_schema-Gives entry_name s h))
          (λ known. subst (Gives str quote settings db _) (sym (if_false _ _ known)) (h, refl)))

  after_detect :
      {A : Type 0} (done : CatalogState × Result CatalogError (Unit {0})) (connects : Bool)
      (current : Text) (next : Action CatalogState CatalogError A) (answer : Result CatalogError A)
      → Gives str quote settings db done (login connects)
      → done.0.current_schema ≡ current
      → (connects ≡ false → answer ≡ throw cannot_connect)
      → ((s : CatalogState)
          → IsCoherent str quote settings db s
          → s.current_schema ≡ current
          → Gives str quote settings db (next s) answer)
      → Gives str quote settings db (and_then done (λ _. next)) answer
  after_detect (s, ok value) connects current next answer (h, e) is down later = later s h is
  after_detect (s, throw problem) true current next answer (h, e) is down later = cc
  after_detect (s, throw problem) false current next answer (h, e) is down later =
      let same : problem ≡ cannot_connect = cc in (h, ap throw same ∙ sym (down refl))

  down_entry :
      (entry_name : Text)
      → db.connects ≡ false
      → current_or_named entry_name (current_of (current_answer str quote settings db))
        ≡ throw cannot_connect
  unfolding current_answer
  down_entry entry_name down =
      ap (λ r. current_or_named entry_name (current_of r))
        (refused str quote settings db current_schema_query first_cell down)
      ∙ named_schema_refused entry_name down

  main_entry-Gives :
      (entry_name : Text) (s : CatalogState)
      → IsCoherent str quote settings db s
      → Gives str quote settings db
          (if empty s.current_schema
            then (detect_current_schema str quote settings db
                  >> create_current_schema str quote settings db entry_name)
                s
            else create_current_schema str quote settings db entry_name s)
          (current_or_named entry_name (current_of (current_answer str quote settings db)))
  main_entry-Gives entry_name s h =
      let current = current_of (current_answer str quote settings db) in
      if-Holds
        (λ (r : CatalogState × Result CatalogError SchemaEntry).
          Gives str quote settings db r (current_or_named entry_name current))
        (empty s.current_schema)
        (λ none_yet.
          after_detect (detect_current_schema str quote settings db s) db.connects current _
            (current_or_named entry_name current)
            (detect_current_schema-Gives str quote settings db s h)
            (detect_current_schema-current str quote settings db s h none_yet)
            (down_entry entry_name) (λ t k e. create_current_schema-Gives entry_name current t k e))
        (λ known.
          create_current_schema-Gives entry_name current s h
            (sym (ap current_of (h.current (not_empty s.current_schema known)))))

  pub create_schema_entry-Gives :
      (entry_name : Text) (s : CatalogState)
      → IsCoherent str quote settings db s
      → Gives str quote settings db
          (create_schema_entry str quote settings db entry_name s)
          (schema_entry_answer entry_name)
  unfolding create_schema_entry schema_entry_answer
  create_schema_entry-Gives entry_name s h =
      if-Holds
        (λ (r : CatalogState × Result CatalogError SchemaEntry).
          Gives str quote settings db r (schema_entry_answer entry_name))
        (text_eq entry_name (lit "main") && settings.use_current_schema)
        (λ main.
          subst (Gives str quote settings db _) (sym (if_true _ _ main))
            (main_entry-Gives entry_name s h))
        (λ other.
          subst (Gives str quote settings db _) (sym (if_false _ _ other))
            (create_named_schema-Gives entry_name s h))
