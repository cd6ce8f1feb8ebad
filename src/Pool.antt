-- ===== src/Pool.antt =====
-- `OracleConnectionManager` of src/oracle_connection_manager.cpp and
-- src/include/oracle_connection_manager.hpp: the pools of sessions, and the threads that acquire
-- and release them.
-- A pool is an entry of a heap, since a handle keeps its pool alive when `Clear` drops it from the
-- map. A step is what one thread does while it holds a lock, so an interleaving is a list of
-- steps. Whether a connection attempt succeeds, and which waiter wakes or times out, is the
-- environment's choice; so `notify_one`, which only lets a waiter wake, has no step of its own.
mod Tests
pub mod Counting
pub mod Accounting
pub mod Sessions
pub mod Cleared
pub mod Exclusive
pub mod Service
use duckdb_oracle.Base.{
  ℕ, zero, suc, ◌+◌, ◌-◌, Bool, true, false, Option, none, some, List, [], ◌∷◌, Text, ltb, ◌==◌,
  text_eq, if◌then◌else◌, get_elem?,
}

-- An open session. `opened_with` is the connection string that it logged in with.
pub record Context : Type 0 where
  pub id : ℕ
  pub opened_with : Text

-- The head of `idle` is the back of the vector. `key` is the string that the pool was made for.
pub record OracleConnectionPool : Type 0 where
  pub idle : List Context
  pub total : ℕ
  pub limit : ℕ
  pub key : Text

-- A live handle; a session that is not cached has no pool.
pub record Handle : Type 0 where
  pub pool : Option ℕ
  pub ctx : Context
  pub asked : Text

-- A thread inside `CreateConnection`, or one that waits on a pool's condition variable.
pub record Pending : Type 0 where
  pub pool : Option ℕ
  pub asked : Text

pub record Waiter : Type 0 where
  pub pool : ℕ
  pub asked : Text

pub record System : Type 0 where
  pub heap : ℕ → OracleConnectionPool
  pub pools : Text → Option ℕ
  pub next_pool : ℕ
  pub next_context : ℕ
  pub handles : List Handle
  pub pending : List Pending
  pub waiting : List Waiter

abbrev pub default_limit : ℕ
default_limit = 8

abbrev pub new_pool : Text → OracleConnectionPool
new_pool c = record { idle = []; total = 0; limit = default_limit; key = c }

pub init : System
init = record {
  heap = λ _. new_pool [];
  pools = λ _. none;
  next_pool = 0;
  next_context = 0;
  handles = [];
  pending = [];
  waiting = [];
}

abbrev pub remove_at {ℓ} : {A : Type ℓ} → List A → ℕ → List A
remove_at [] k = []
remove_at (x ∷ xs) zero = xs
remove_at (x ∷ xs) (suc k) = x ∷ remove_at xs k

abbrev pub put_pool : System → ℕ → OracleConnectionPool → System
put_pool s i p = record s { heap = λ j. if j == i then p else s.heap j }

-- `auto &p = pools[connection_string]; if (!p) p = make_shared<OracleConnectionPool>();`
pub add_pool : System → Text → System
add_pool s c = record s {
  heap = λ j. if j == s.next_pool then new_pool c else s.heap j;
  pools = λ d. if text_eq c d then some s.next_pool else s.pools d;
  next_pool = s.next_pool + 1;
}

-- `if (settings.connection_limit > pool->limit) pool->limit = settings.connection_limit;`
pub raise_limit : System → ℕ → ℕ → System
raise_limit s i l =
    if ltb (s.heap i).limit l then put_pool s i (record (s.heap i) { limit = l }) else s

pub reuse : System → ℕ → Text → Context → List Context → System
reuse s i c ctx rest = record (put_pool s i (record (s.heap i) { idle = rest })) {
  handles = record { pool = some i; ctx = ctx; asked = c } ∷ s.handles;
}

pub reserve : System → ℕ → Text → System
reserve s i c = record (put_pool s i (record (s.heap i) { total = (s.heap i).total + 1 })) {
  pending = record { pool = some i; asked = c } ∷ s.pending;
}

pub wait : System → ℕ → Text → System
wait s i c = record s { waiting = record { pool = i; asked = c } ∷ s.waiting }

-- The body of the `while (true)` loop.
pub attempt : System → ℕ → Text → System
attempt s i c = elim (s.heap i).idle [
  | ctx ∷ rest ↦ reuse s i c ctx rest
  | [] ↦ if ltb (s.heap i).total (s.heap i).limit then reserve s i c else wait s i c
]

-- `Acquire`, up to the first wait or the start of a connection attempt. The lookup of the pool and the
-- first turn of its loop, under two locks, are one step.
pub acquire_cached : System → Text → ℕ → System
acquire_cached s c l = elim (s.pools c) [
  | some i ↦ attempt (raise_limit s i l) i c
  | none ↦ attempt (raise_limit (add_pool s c) s.next_pool l) s.next_pool c
]

pub acquire_standalone : System → Text → System
acquire_standalone s c = record s { pending = record { pool = none; asked = c } ∷ s.pending }

-- `CreateConnection` returns a session for the string that was asked for.
pub created : System → ℕ → Pending → System
created s k p = record s {
  next_context = s.next_context + 1;
  pending = remove_at s.pending k;
  handles =
      record {
        pool = p.pool;
        ctx = record { id = s.next_context; opened_with = p.asked };
        asked = p.asked;
      }
      ∷ s.handles;
}

-- `CreateConnection` throws: the reservation is rolled back.
pub failed : System → ℕ → Pending → System
failed s k p =
    let rest = record s { pending = remove_at s.pending k } in
    elim p.pool [
      | none ↦ rest
      | some i ↦ put_pool rest i (record (s.heap i) { total = (s.heap i).total - 1 })
    ]

-- `~OracleConnectionHandle`
pub release : System → ℕ → Handle → System
release s k h =
    let rest = record s { handles = remove_at s.handles k } in
    elim h.pool [
      | none ↦ rest
      | some i ↦ put_pool rest i (record (s.heap i) { idle = h.ctx ∷ (s.heap i).idle })
    ]

pub leave : System → ℕ → System
leave s k = record s { waiting = remove_at s.waiting k }

-- `Clear`
pub clear : System → System
clear s = record s { pools = λ _. none }

-- The k-th thread of a list acts; a step of no thread changes nothing.
pub data Event : Type 0 where
  acquires : Text → Bool → ℕ → Event
  wakes times_out succeeds fails drops : ℕ → Event
  clears : Event

pub step : System → Event → System
step s (acquires c true l) = acquire_cached s c l
step s (acquires c false l) = acquire_standalone s c
step s (wakes k) = elim (get_elem? s.waiting k) [
  | none ↦ s
  | some w ↦ attempt (leave s k) w.pool w.asked
]
step s (times_out k) = leave s k
step s (succeeds k) = elim (get_elem? s.pending k) [ none ↦ s | some p ↦ created s k p ]
step s (fails k) = elim (get_elem? s.pending k) [ none ↦ s | some p ↦ failed s k p ]
step s (drops k) = elim (get_elem? s.handles k) [ none ↦ s | some h ↦ release s k h ]
step s clears = clear s

pub run : System → List Event → System
run s [] = s
run s (e ∷ es) = run (step s e) es
