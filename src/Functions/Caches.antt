-- ===== src/Functions/Caches.antt =====
-- `OracleClearCache` of src/oracle_extension.cpp, with `ClearAllCaches` of
-- src/storage/oracle_catalog.cpp on the catalog states and `Clear` of
-- src/oracle_connection_manager.cpp on the pools.
pub mod Renewed
use duckdb_oracle.Base.{lit, ◌==◌, ◌++◌, ◌&&◌, map, if◌then◌else◌, Text, List, Bool, ℕ, [], ◌∷◌}
use duckdb_oracle.Catalog.Registry.{Registry, clear_all_caches}
use duckdb_oracle.Catalog.State.{CatalogState, clear_caches}
use duckdb_oracle.Pool.{System, Event, drops, clears, run}

-- The registry, the states by their number, and the pools.
pub record Caches : Type 0 where
  pub registry : Registry
  pub catalogs : ℕ → CatalogState
  pub pools : System

-- The loop over the registry.
unfoldable pub clear_states : (ℕ → Bool) → List ℕ → (ℕ → CatalogState) → ℕ → CatalogState
clear_states alive [] catalogs = catalogs
clear_states alive (id ∷ states) catalogs =
    clear_states alive states
      (λ other. if alive id && other == id then clear_caches (catalogs other) else catalogs other)

-- A state that is cleared gives its session back before the pools are cleared: `held` are the places
-- of these handles, one after the other.
unfoldable pub oracle_clear_cache : (ℕ → Bool) → List ℕ → Caches → Caches × Text
unfolding clear_states
oracle_clear_cache alive held c = (
  record {
    registry = clear_all_caches alive c.registry;
    catalogs = clear_states alive c.registry.states c.catalogs;
    pools = run c.pools (map drops held ++ (clears ∷ []));
  },
  lit "oracle caches cleared",
)
