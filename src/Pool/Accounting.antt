-- ===== src/Pool/Accounting.antt =====
-- The books of a pool: every session that counts towards `total` is idle, in a live handle, or being
-- opened, in whatever order the threads run.
pub mod History
use duckdb_oracle.Base.{
  ℕ, zero, suc, ◌+◌, ◌≤◌, ◌<◌, ◌≡◌, refl, Bool, true, false, Option, none, some, List, [], ◌∷◌,
  arith, if◌then◌else◌, get_elem?, All, ◌==◌, length, Text, text_eq, ltb, Option-cases, Bool-cases,
  inl, inr,
}
use duckdb_oracle.Pool.Counting.{count, count-remove_at, All-remove_at, All-get_elem?}
use duckdb_oracle.Pool.{
  System, OracleConnectionPool, Handle, Pending, Waiter, Context, Event, acquires, wakes, times_out,
  succeeds, fails, drops, clears, init, remove_at, add_pool, raise_limit, reuse, reserve, wait,
  attempt, acquire_cached, acquire_standalone, created, failed, release, leave, clear, step, run,
  default_limit,
}

abbrev pub in_pool : ℕ → Option ℕ → Bool
in_pool i none = false
in_pool i (some j) = j == i

abbrev pub leased : ℕ → List Handle → ℕ
leased i = count (λ h. in_pool i h.pool)

abbrev pub opening : ℕ → List Pending → ℕ
opening i = count (λ p. in_pool i p.pool)

pub record Accounts (s : System) : Type 0 where
  pub balance :
      (i : ℕ) → (s.heap i).total ≡ length (s.heap i).idle + leased i s.handles + opening i s.pending
  pub within_limit : (i : ℕ) → (s.heap i).total ≤ (s.heap i).limit
  pub limit_floor : (i : ℕ) → default_limit ≤ (s.heap i).limit
  pub unused : (i : ℕ) → s.next_pool ≤ i → (s.heap i).total ≡ 0
  pub mapped : (c : Text) (i : ℕ) → s.pools c ≡ some i → i < s.next_pool
  pub known : All (λ w. w.pool < s.next_pool) s.waiting

All-weaken :
    (m n : ℕ) (ws : List Waiter) → m ≤ n → All (λ w. w.pool < m) ws → All (λ w. w.pool < n) ws
All-weaken m n [] h a = tt
All-weaken m n (w ∷ ws) h a = (omega arith, All-weaken m n ws h a.1)

init-Accounts : Accounts init
unfolding init
init-Accounts = record {
  balance = λ i. refl;
  within_limit = λ i. omega arith;
  limit_floor = λ i. omega arith;
  unused = λ i h. refl;
  mapped = λ c i e. cc;
  known = tt;
}

module _ (s : System) (a : Accounts s) where
  add_pool-Accounts : (c : Text) → Accounts (add_pool s c)
  unfolding add_pool
  add_pool-Accounts c = record {
    balance = λ i. ground (arith, a.balance i, a.unused i);
    within_limit = λ i. ground (arith, a.within_limit i);
    limit_floor = λ i. ground (arith, a.limit_floor i);
    unused = λ i h. ground (arith, a.unused i);
    mapped = λ d i e. ground (arith, a.mapped d i);
    known = All-weaken s.next_pool (s.next_pool + 1) s.waiting (omega arith) a.known;
  }

  raise_limit-Accounts : (i l : ℕ) → Accounts (raise_limit s i l)
  unfolding raise_limit
  raise_limit-Accounts i l = elim (Bool-cases (ltb (s.heap i).limit l)) [
    | inl e ↦ rw e (record {
      balance = λ j. ground (arith, a.balance j);
      within_limit = λ j. ground (arith, a.within_limit j);
      limit_floor = λ j. ground (arith, a.limit_floor j);
      unused = λ j h. ground (arith, a.unused j);
      mapped = a.mapped;
      known = a.known;
    })
    | inr e ↦ rw e a
  ]

  reuse-Accounts :
      (i : ℕ) (c : Text) (ctx : Context) (rest : List Context)
      → (s.heap i).idle ≡ ctx ∷ rest
      → Accounts (reuse s i c ctx rest)
  unfolding reuse
  reuse-Accounts i c ctx rest e = record {
    balance = λ j. ground (arith, a.balance j);
    within_limit = λ j. ground (arith, a.within_limit j);
    limit_floor = λ j. ground (arith, a.limit_floor j);
    unused = λ j h. ground (arith, a.unused j);
    mapped = a.mapped;
    known = a.known;
  }

  reserve-Accounts :
      (i : ℕ) (c : Text)
      → i < s.next_pool
      → (s.heap i).total < (s.heap i).limit
      → Accounts (reserve s i c)
  unfolding reserve
  reserve-Accounts i c b h = record {
    balance = λ j. ground (arith, a.balance j);
    within_limit = λ j. ground (arith, a.within_limit j);
    limit_floor = λ j. ground (arith, a.limit_floor j);
    unused = λ j h. ground (arith, a.unused j);
    mapped = a.mapped;
    known = a.known;
  }

  wait-Accounts : (i : ℕ) (c : Text) → i < s.next_pool → Accounts (wait s i c)
  unfolding wait
  wait-Accounts i c b = record {
    balance = a.balance;
    within_limit = a.within_limit;
    limit_floor = a.limit_floor;
    unused = a.unused;
    mapped = a.mapped;
    known = (b, a.known);
  }

  leave-Accounts : (k : ℕ) → Accounts (leave s k)
  unfolding leave
  leave-Accounts k = record {
    balance = a.balance;
    within_limit = a.within_limit;
    limit_floor = a.limit_floor;
    unused = a.unused;
    mapped = a.mapped;
    known = All-remove_at (λ w. w.pool < s.next_pool) s.waiting k a.known;
  }

  clear-Accounts : Accounts (clear s)
  unfolding clear
  clear-Accounts = record {
    balance = a.balance;
    within_limit = a.within_limit;
    limit_floor = a.limit_floor;
    unused = a.unused;
    mapped = λ c i e. cc;
    known = a.known;
  }

  acquire_standalone-Accounts : (c : Text) → Accounts (acquire_standalone s c)
  unfolding acquire_standalone
  acquire_standalone-Accounts c = record {
    balance = λ j. omega (arith, a.balance j);
    within_limit = a.within_limit;
    limit_floor = a.limit_floor;
    unused = a.unused;
    mapped = a.mapped;
    known = a.known;
  }

  created-Accounts :
      (k : ℕ) (p : Pending) → get_elem? s.pending k ≡ some p → Accounts (created s k p)
  unfolding created
  created-Accounts k p e = record {
    balance =
        λ j. omega (arith, a.balance j, count-remove_at (λ q. in_pool j q.pool) s.pending k p e);
    within_limit = a.within_limit;
    limit_floor = a.limit_floor;
    unused = a.unused;
    mapped = a.mapped;
    known = a.known;
  }

  -- A pending thread of pool `i` is one of those that `total` counts.
  failed-some-Accounts :
      (k i : ℕ) (p : Pending)
      → get_elem? s.pending k ≡ some p
      → p.pool ≡ some i
      → Accounts (failed s k p)
  unfolding failed
  failed-some-Accounts k i p e o =
      let counted = λ (j : ℕ). count-remove_at (λ q. in_pool j q.pool) s.pending k p e in
      rw (o, failed)
        (record {
          balance = λ j. ground (arith, a.balance j, counted j);
          within_limit = λ j. ground (arith, a.within_limit j);
          limit_floor = λ j. ground (arith, a.limit_floor j);
          unused = λ j h. ground (arith, a.unused j);
          mapped = a.mapped;
          known = a.known;
        })

  failed-none-Accounts :
      (k : ℕ) (p : Pending)
      → get_elem? s.pending k ≡ some p
      → p.pool ≡ none
      → Accounts (failed s k p)
  unfolding failed
  failed-none-Accounts k p e o =
      let counted = λ (j : ℕ). count-remove_at (λ q. in_pool j q.pool) s.pending k p e in
      rw (o, failed)
        (record {
          balance = λ j. ground (arith, a.balance j, counted j);
          within_limit = a.within_limit;
          limit_floor = a.limit_floor;
          unused = a.unused;
          mapped = a.mapped;
          known = a.known;
        })

  release-some-Accounts :
      (k i : ℕ) (h : Handle)
      → get_elem? s.handles k ≡ some h
      → h.pool ≡ some i
      → Accounts (release s k h)
  unfolding release
  release-some-Accounts k i h e o =
      let counted = λ (j : ℕ). count-remove_at (λ (q : Handle). in_pool j q.pool) s.handles k h e in
      rw (o, release)
        (record {
          balance = λ j. ground (arith, a.balance j, counted j);
          within_limit = λ j. ground (arith, a.within_limit j);
          limit_floor = λ j. ground (arith, a.limit_floor j);
          unused = λ j h. ground (arith, a.unused j);
          mapped = a.mapped;
          known = a.known;
        })

  release-none-Accounts :
      (k : ℕ) (h : Handle)
      → get_elem? s.handles k ≡ some h
      → h.pool ≡ none
      → Accounts (release s k h)
  unfolding release
  release-none-Accounts k h e o =
      let counted = λ (j : ℕ). count-remove_at (λ (q : Handle). in_pool j q.pool) s.handles k h e in
      rw (o, release)
        (record {
          balance = λ j. ground (arith, a.balance j, counted j);
          within_limit = a.within_limit;
          limit_floor = a.limit_floor;
          unused = a.unused;
          mapped = a.mapped;
          known = a.known;
        })
