-- ===== src/Functions/Caches/Renewed.antt =====
-- What is left of the caches after `oracle_clear_cache` of src/oracle_extension.cpp.
use duckdb_oracle.Base.{
  ◌∙◌, ap, map, Text, get_elem?, arith, true, ◌≡◌, List, Bool, ℕ, zero, suc, [], ◌∷◌, some,
}
use duckdb_oracle.Duckdb.{Strings}
use duckdb_oracle.Settings.{OracleSettings}
use duckdb_oracle.Catalog.Registry.{Registry}
use duckdb_oracle.Catalog.State.{CatalogState, Database, clear_caches, new_catalog_state}
use duckdb_oracle.Catalog.Refinement.{Request, replies, reference, replies-reference}
use duckdb_oracle.Pool.{Event, init, run}
use duckdb_oracle.Pool.Cleared.History.{AreFrom, drops-clear-AreFrom}
use duckdb_oracle.Functions.Caches.{clear_states, oracle_clear_cache}

-- A cleared state stays as it is.
clear_states-new :
    (alive : ℕ → Bool) (states : List ℕ) (catalogs : ℕ → CatalogState) (id : ℕ)
    → catalogs id ≡ new_catalog_state
    → clear_states alive states catalogs id ≡ new_catalog_state
unfolding clear_states clear_caches
clear_states-new alive [] catalogs id h = h
clear_states-new alive (other ∷ states) catalogs id h =
    clear_states-new alive states _ id (ground arith)

-- A state that is registered and alive is cleared.
clear_states-registered :
    (alive : ℕ → Bool) (states : List ℕ) (catalogs : ℕ → CatalogState) (id k : ℕ)
    → alive id ≡ true
    → get_elem? states k ≡ some id
    → clear_states alive states catalogs id ≡ new_catalog_state
unfolding clear_states clear_caches
clear_states-registered alive [] catalogs id k on e = cc
clear_states-registered alive (other ∷ states) catalogs id zero on e =
    clear_states-new alive states _ id (ground arith)
clear_states-registered alive (other ∷ states) catalogs id (suc k) on e =
    clear_states-registered alive states _ id k on e

-- Before `oracle_clear_cache` the pools are as any interleaving has left them, and the caches hold
-- anything. Afterwards a state that is registered and alive answers every series of requests as the
-- database does with nothing cached, provided that the database answers a query always alike; and
-- after any interleaving that follows, every session that is idle in the pool of a connection string
-- or that a handle of that pool holds was opened after the call. Sessions are numbered in the order in
-- which they are opened.
pub oracle_clear_cache-renews :
    (str : Strings) (quote : Text → Text) (settings : OracleSettings) (db : Database)
    (requests : List Request) (alive : ℕ → Bool) (held : List ℕ) (registry : Registry)
    (catalogs : ℕ → CatalogState) (before after : List Event) (id k : ℕ) (d : Text) (i : ℕ)
    → let s = run init before in
      let cleared =
        (oracle_clear_cache alive held
          (record { registry = registry; catalogs = catalogs; pools = s })).0 in
      let t = run cleared.pools after in
      alive id ≡ true
      → get_elem? registry.states k ≡ some id
      → t.pools d ≡ some i
      → (replies str quote settings db requests (cleared.catalogs id)
          ≡ map (reference str quote settings db) requests)
        × AreFrom s.next_context i t
unfolding oracle_clear_cache clear_caches
oracle_clear_cache-renews str quote settings db requests alive held registry catalogs before after
      id k d i on e mapped =
    (
      ap (replies str quote settings db requests)
            (clear_states-registered alive registry.states catalogs id k on e)
          ∙ replies-reference str quote settings db requests new_catalog_state,
      drops-clear-AreFrom before after held d i mapped,
    )
