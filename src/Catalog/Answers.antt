-- ===== src/Catalog/Answers.antt =====
-- What a client of src/storage/oracle_catalog.cpp is told if nothing is cached: the answers in terms of
-- the database alone.
use duckdb_oracle.Base.{
  Option, none, some, List, [], ◌∷◌, if◌then◌else◌, Result, ok, throw, Text, lit, empty,
}
use duckdb_oracle.Duckdb.{Strings}
use duckdb_oracle.Settings.{OracleSettings}
use duckdb_oracle.Catalog.Queries.{
  current_schema_query, all_schemas_query, tables_query, objects_query,
}
use duckdb_oracle.Catalog.State.{
  CatalogError, cannot_connect, cannot_query, Database, first_columns, first_cell,
}

abbrev pub map_ok {ℓ κ} : {E A : Type ℓ} {B : Type κ} → (A → B) → Result E A → Result E B
map_ok f (throw problem) = throw problem
map_ok f (ok value) = ok (f value)

abbrev pub rows_or_throw {ℓ} : {A : Type ℓ} → Option A → Result CatalogError A
rows_or_throw none = throw cannot_query
rows_or_throw (some rows) = ok rows

module _ (str : Strings) (quote : Text → Text) (settings : OracleSettings) (db : Database) where
  -- The rows of a query, after a login.
  unfoldable pub asked : Text → Result CatalogError (List (List Text))
  asked query = if db.connects then rows_or_throw (db.answer query) else throw cannot_connect

  unfoldable pub tables_answer : Text → Result CatalogError (List Text)
  tables_answer schema =
      if empty schema
      then (if db.connects then ok [] else throw cannot_connect)
      else map_ok first_columns (asked (tables_query quote schema))

  unfoldable pub objects_answer : Text → Text → Result CatalogError (List Text)
  objects_answer schema object_types =
      map_ok first_columns
        (asked (objects_query quote str settings.metadata_result_limit schema object_types))

  -- The current schema, before and after "main" is put before it.
  unfoldable pub current_answer : Result CatalogError Text
  current_answer = map_ok first_cell (asked current_schema_query)

  abbrev pub with_main : Text → List Text
  with_main current =
      if settings.use_current_schema then lit "main" ∷ current ∷ [] else current ∷ []

  unfoldable pub all_schemas_answer : Result CatalogError (List Text)
  all_schemas_answer = map_ok first_columns (asked all_schemas_query)

  -- The current schema where there is one, else all of them.
  abbrev pub schemas_for : Result CatalogError Text → Result CatalogError (List Text)
  schemas_for (throw problem) = throw problem
  schemas_for (ok current) = if empty current then all_schemas_answer else ok (with_main current)

  unfoldable pub schemas_answer : Result CatalogError (List Text)
  schemas_answer =
      if settings.lazy_schema_loading then schemas_for current_answer else all_schemas_answer
