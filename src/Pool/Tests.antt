-- ===== src/Pool/Tests.antt =====
-- Runs of the pools of src/oracle_connection_manager.cpp.
use duckdb_oracle.Base.{
  map, text_eq, ℕ, ◌+◌, ◌≤◌, ◌≡◌, refl, true, some, List, [], ◌∷◌, length, All, lit,
}
use duckdb_oracle.Pool.{
  Event, acquires, succeeds, fails, drops, init, run, step, acquire_cached, raise_limit, add_pool,
  attempt, reuse, reserve, wait, created, release, clear, leave,
}
use duckdb_oracle.Samples.{ascii}
use duckdb_oracle.Settings.{default_settings}
use duckdb_oracle.Catalog.Registry.{Registry}
use duckdb_oracle.Catalog.State.{CatalogState, Database, new_catalog_state}
use duckdb_oracle.Catalog.Refinement.{schemas, replies, reference}
use duckdb_oracle.Pool.Cleared.History.{AreFrom}
use duckdb_oracle.Functions.Caches.{oracle_clear_cache}
use duckdb_oracle.Functions.Caches.Renewed.{oracle_clear_cache-renews}
use duckdb_oracle.Pool.Accounting.{leased, opening}
use duckdb_oracle.Pool.Accounting.History.{run-init-balance}
use duckdb_oracle.Pool.Sessions.History.{run-init-opened_with}
use duckdb_oracle.Pool.Exclusive.History.{run-init-exclusive}
use duckdb_oracle.Pool.Exclusive.{pooled_times, held_times}
use duckdb_oracle.Pool.Service.{acquire-limit, limit_of}
use Prim.Native.Nat.{max}

-- Two sessions are opened, one attempt fails, one session is given back and taken again.
abbrev busy : List Event
busy =
    acquires (lit "a") true 9
    ∷ acquires (lit "b") true 2
    ∷ acquires (lit "a") true 9
    ∷ succeeds 1
    ∷ fails 0
    ∷ succeeds 0
    ∷ drops 0
    ∷ acquires (lit "a") true 9
    ∷ []

run-init-balance_example :
    let s = run init busy in
    ((s.heap 0).total ≡ length (s.heap 0).idle + leased 0 s.handles + opening 0 s.pending)
    × ((s.heap 0).total ≤ (s.heap 0).limit)
run-init-balance_example = run-init-balance busy 0

run-init-opened_with_example : All (λ h. h.ctx.opened_with ≡ h.asked) (run init busy).handles
run-init-opened_with_example = run-init-opened_with busy

run-init-exclusive_example :
    pooled_times (run init busy) 0 0
      + pooled_times (run init busy) 0 1
      + held_times 0 (run init busy).handles
    ≤ 1
run-init-exclusive_example = run-init-exclusive busy 0 0 1 refl

acquire-limit_example :
    let t = step init (acquires (lit "a") true 3) in
    (i : ℕ) × (t.pools (lit "a") ≡ some i)
    × ((t.heap i).limit ≡ max (limit_of init (init.pools (lit "a"))) 3)
acquire-limit_example = acquire-limit init (lit "a") 3

-- State 3 is attached as hr.
abbrev registry : Registry
registry = record { states = 3 ∷ []; aliases = (lit "hr", 3) ∷ [] }

-- Two sessions are opened and one is given back; state 3 held the other.
abbrev used : List Event
used =
    acquires (lit "a") true 2 ∷ acquires (lit "a") true 2 ∷ succeeds 0 ∷ succeeds 0 ∷ drops 0 ∷ []

abbrev stale : ℕ → CatalogState
stale id = record new_catalog_state { connected = true; schema_cache = lit "OLD" ∷ [] }

abbrev answers : Database
answers = record { connects = true; answer = λ query. some ((lit "HR" ∷ []) ∷ []) }

abbrev again : List Event
again = acquires (lit "a") true 2 ∷ succeeds 0 ∷ []

oracle_clear_cache-renews_example :
    let s = run init used in
    let cleared =
      (oracle_clear_cache
        (λ id. true)
        (0 ∷ [])
        (record { registry = registry; catalogs = stale; pools = s })).0 in
    let t = run cleared.pools again in
    (replies ascii (λ text. text) default_settings answers (schemas ∷ []) (cleared.catalogs 3)
      ≡ map (reference ascii (λ text. text) default_settings answers) (schemas ∷ []))
    × AreFrom s.next_context 1 t
unfolding oracle_clear_cache lit text_eq run step init acquire_cached raise_limit add_pool attempt
    reuse reserve wait created release clear leave
oracle_clear_cache-renews_example =
    oracle_clear_cache-renews ascii (λ text. text) default_settings answers (schemas ∷ [])
      (λ id. true) (0 ∷ []) registry stale used again 3 0 (lit "a") 1 refl refl refl
