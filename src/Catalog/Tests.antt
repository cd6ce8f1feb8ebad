-- ===== src/Catalog/Tests.antt =====
-- A database that answers every query with one row.
use duckdb_oracle.Base.{
  leb, ◌||◌, ◌==◌, arith, Bool, suc, ℕ, false, none, ◌≡◌, true, some, List, [], ◌∷◌, ◌++◌, map,
  Text, lit,
}
use duckdb_oracle.Samples.{ascii}
use duckdb_oracle.Settings.{default_settings}
use duckdb_oracle.Catalog.State.{Database, CatalogState, new_catalog_state, clear_caches}
use duckdb_oracle.Catalog.Refinement.{
  Request, schemas, detect, clear, tables_of, schema_named, table_named, replies, reference,
  replies-reference,
}
use duckdb_oracle.Catalog.Registry.{new_registry}
use duckdb_oracle.Catalog.Registry.Lookup.{
  Event, registers, looks_up, clears_all, lookups, expected, lookups-expected,
}
use duckdb_oracle.Catalog.Version.Reached.{VersionCall, request, version}

abbrev quote : Text → Text
quote s = 39 ∷ (s ++ (39 ∷ []))

abbrev answers : Database
answers = record { connects = true; answer = λ query. some ((lit "HR" ∷ []) ∷ []) }

-- Caches with what another database has said.
abbrev stale : CatalogState
stale = record new_catalog_state {
  schema_cache = lit "OLD" ∷ [];
  table_cache = (lit "HR", lit "GONE" ∷ []) ∷ [];
  current_schema = lit "OLD";
}

abbrev requests : List Request
requests =
    schemas
    ∷ tables_of (lit "HR")
    ∷ clear
    ∷ tables_of (lit "HR")
    ∷ detect
    ∷ schema_named (lit "main")
    ∷ table_named (lit "HR") (lit "emp")
    ∷ schemas
    ∷ []

replies-reference_example :
    replies ascii quote default_settings answers requests (clear_caches stale)
    ≡ map (reference ascii quote default_settings answers) requests
replies-reference_example = replies-reference ascii quote default_settings answers requests stale

-- The schemas are listed and the version is asked for while no login is to be had.
abbrev down : Database
down = record { connects = false; answer = λ query. none }

abbrev calls : List (Database × VersionCall)
calls = (down, request schemas) ∷ (down, version) ∷ (answers, request schemas) ∷ []

-- State 1 is attached as HR, then state 2 as hr; state 2 dies before the last lookup.
abbrev living : ℕ → ℕ → Bool
living t id = id == 1 || leb t 2

abbrev events : List Event
events =
    registers 1 (lit "HR")
    ∷ registers 2 (lit "hr")
    ∷ looks_up (lit "Hr")
    ∷ clears_all
    ∷ looks_up (lit "HR")
    ∷ []

no_return : (s id : ℕ) → living (suc s) id ≡ true → living s id ≡ true
no_return s id h = ground arith

lookups-expected_example :
    lookups ascii living 0 events new_registry ≡ expected ascii living 0 events (λ key. none)
lookups-expected_example = lookups-expected ascii living events no_return
