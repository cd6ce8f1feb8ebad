-- ===== src/Types/Entry/Scanned.antt =====
-- From an entry of the catalog to the query of its scan in src/storage/oracle_table_entry.cpp.
use duckdb_oracle.Base.{
  ok-injective, ap, ◌∙◌, Option-cases, ◌≡◌, List, ℤ, Option, Text, some, ok, inl, inr,
}
use duckdb_oracle.Duckdb.{Strings}
use duckdb_oracle.Settings.{OracleSettings}
use duckdb_oracle.Catalog.State.{CatalogState, CatalogError, Database, ask}

module _ (str : Strings) (quote : Text → Text) (settings : OracleSettings) (db : Database)
    (stoi stoll : Text → Option ℤ) where
  asked :
      (query : Text) (s t : CatalogState) (rows : List (List Text))
      → ask str quote settings db query s ≡ (t, ok rows)
      → db.answer query ≡ some rows
  unfolding ask
  asked query s t rows e = elim (Option-cases (db.answer query)) [
    | inl gone ↦ cc (rw (gone, ask) at e)
    | inr (found, is) ↦
        is ∙ ap some (ok-injective {E = CatalogError} (ap (λ r. r.1) (rw (is, ask) at e)))
  ]
