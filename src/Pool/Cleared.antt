-- ===== src/Pool/Cleared.antt =====
-- What `Clear` of src/oracle_connection_manager.cpp, which `oracle_clear_cache` calls, does to the
-- sessions that the pools give out afterwards.
pub mod History
use mathlib.Core.Option.{some-injective}
use duckdb_oracle.Base.{
  ℕ, suc, ◌-◌, ◌+◌, ◌≤◌, ◌<◌, ◌≡◌, inl, inr, refl, sym, ◌∙◌, subst, true, false, none, some, List,
  [], ◌∷◌, arith, ltb, ◌==◌, if◌then◌else◌, Bool-cases, Option-cases, get_elem?, All, Text,
  text_eq_iff,
}
use duckdb_oracle.Pool.{
  System, OracleConnectionPool, Handle, Pending, Waiter, Context, Event, acquires, wakes, times_out,
  succeeds, fails, drops, clears, init, remove_at, add_pool, raise_limit, reuse, reserve, wait,
  attempt, acquire_cached, acquire_standalone, created, failed, release, leave, clear, step, run,
  put_pool,
}
use duckdb_oracle.Pool.Counting.{All-remove_at, All-get_elem?, All-map}
use duckdb_oracle.Pool.Sessions.{
  PendingFits, MayBePoolOf, Owned, HandleFits, WaiterFits, init-Owned, add_pool-Owned,
}
use duckdb_oracle.Pool.Sessions.History.{raise_limit-Owned, step-Owned, run-Owned, leave-Owned}

-- A handle of a pool from `n` on holds a session from `c` on.
abbrev IsNew : ℕ → ℕ → Handle → Type 0
IsNew n c h = (i : ℕ) → h.pool ≡ some i → n ≤ i → c ≤ h.ctx.id

-- The pools of the map are those from `n` on, and these hold sessions from `c` on.
record IsCleared (n c : ℕ) (s : System) : Type 0 where
  pools_later : n ≤ s.next_pool
  contexts_later : c ≤ s.next_context
  idle_new : (i : ℕ) → n ≤ i → i < s.next_pool → All (λ ctx. c ≤ ctx.id) (s.heap i).idle
  handles_new : All (IsNew n c) s.handles
  mapped_new : (d : Text) (i : ℕ) → s.pools d ≡ some i → n ≤ i

module _ (n c : ℕ) (s : System) (x : IsCleared n c s) where
  -- Who waits, and who connects, does not matter.
  others-IsCleared :
      (ps : List Pending) (ws : List Waiter)
      → IsCleared n c (record s { pending = ps; waiting = ws })
  others-IsCleared ps ws = record {
    pools_later = x.pools_later;
    contexts_later = x.contexts_later;
    idle_new = x.idle_new;
    handles_new = x.handles_new;
    mapped_new = x.mapped_new;
  }

  handles-IsCleared :
      (hs : List Handle) → All (IsNew n c) hs → IsCleared n c (record s { handles = hs })
  handles-IsCleared hs h = record {
    pools_later = x.pools_later;
    contexts_later = x.contexts_later;
    idle_new = x.idle_new;
    handles_new = h;
    mapped_new = x.mapped_new;
  }

  put_pool-IsCleared :
      (i : ℕ) (p : OracleConnectionPool)
      → (n ≤ i → All (λ ctx. c ≤ ctx.id) p.idle)
      → IsCleared n c (put_pool s i p)
  put_pool-IsCleared i p h = record {
    pools_later = x.pools_later;
    contexts_later = x.contexts_later;
    idle_new = λ j above below. elim (Bool-cases (j == i)) [
      | inl hit ↦ rw hit (h (ground arith))
      | inr miss ↦ rw miss (x.idle_new j above below)
    ];
    handles_new = x.handles_new;
    mapped_new = x.mapped_new;
  }

  add_pool-IsCleared : (d : Text) → IsCleared n c (add_pool s d)
  unfolding add_pool
  add_pool-IsCleared d = record {
    pools_later = omega (arith, x.pools_later);
    contexts_later = x.contexts_later;
    idle_new = λ j above below. elim (Bool-cases (j == s.next_pool)) [
      | inl hit ↦ rw hit tt
      | inr miss ↦ rw miss (x.idle_new j above (ground arith))
    ];
    handles_new = x.handles_new;
    mapped_new = λ e i h. ground (arith, x.mapped_new e i, x.pools_later, text_eq_iff d e);
  }

module _ (n c : ℕ) (s : System) (x : IsCleared n c s) where
  raise_limit-IsCleared : (i l : ℕ) → i < s.next_pool → IsCleared n c (raise_limit s i l)
  unfolding raise_limit
  raise_limit-IsCleared i l below = elim (Bool-cases (ltb (s.heap i).limit l)) [
    | inl e ↦ rw e (
        put_pool-IsCleared n c s x i (record (s.heap i) { limit = l })
          (λ above. x.idle_new i above below))
    | inr e ↦ rw e x
  ]

  reuse-IsCleared :
      (i : ℕ) (d : Text) (ctx : Context) (rest : List Context)
      → i < s.next_pool
      → (s.heap i).idle ≡ ctx ∷ rest
      → IsCleared n c (reuse s i d ctx rest)
  unfolding reuse
  reuse-IsCleared i d ctx rest below e =
      let new = λ (above : n ≤ i). subst (All (λ y. c ≤ y.id)) e (x.idle_new i above below) in
      handles-IsCleared n c _
        (put_pool-IsCleared n c s x i (record (s.heap i) { idle = rest }) (λ above. (new above).1))
        (record { pool = some i; ctx = ctx; asked = d } ∷ s.handles)
        (
          λ j is above. (new (subst (λ k. n ≤ k) (sym (some-injective i j is)) above)).0,
          x.handles_new,
        )

  reserve-IsCleared : (i : ℕ) (d : Text) → i < s.next_pool → IsCleared n c (reserve s i d)
  unfolding reserve
  reserve-IsCleared i d below =
      others-IsCleared n c _
        (put_pool-IsCleared n c s x i (record (s.heap i) { total = (s.heap i).total + 1 })
          (λ above. x.idle_new i above below))
        (record { pool = some i; asked = d } ∷ s.pending) s.waiting

  attempt-IsCleared : (i : ℕ) (d : Text) → i < s.next_pool → IsCleared n c (attempt s i d)
  unfolding attempt wait
  attempt-IsCleared i d below = by_idle (s.heap i).idle refl
    where
      by_room :
          IsCleared n c
            (if ltb (s.heap i).total (s.heap i).limit then reserve s i d else wait s i d)
      by_room = elim (Bool-cases (ltb (s.heap i).total (s.heap i).limit)) [
        | inl e ↦ rw e (reserve-IsCleared i d below)
        | inr e ↦
            rw e (others-IsCleared n c s x s.pending (record { pool = i; asked = d } ∷ s.waiting))
      ]

      by_idle : (xs : List Context) → (s.heap i).idle ≡ xs → IsCleared n c (attempt s i d)
      by_idle [] e = rw (e, attempt) by_room
      by_idle (ctx ∷ rest) e = rw (e, attempt) (reuse-IsCleared i d ctx rest below e)

  created-IsCleared : (k : ℕ) (p : Pending) → IsCleared n c (created s k p)
  unfolding created
  created-IsCleared k p = record {
    pools_later = x.pools_later;
    contexts_later = omega (arith, x.contexts_later);
    idle_new = x.idle_new;
    handles_new = (λ i is above. x.contexts_later, x.handles_new);
    mapped_new = x.mapped_new;
  }

  failed-IsCleared : (k : ℕ) (p : Pending) → PendingFits s p → IsCleared n c (failed s k p)
  unfolding failed
  failed-IsCleared k p fits = elim (Option-cases p.pool) [
    | inl e ↦ rw (e, failed) (others-IsCleared n c s x (remove_at s.pending k) s.waiting)
    | inr (i, e) ↦
        rw (e, failed)
          (put_pool-IsCleared n c _ (others-IsCleared n c s x (remove_at s.pending k) s.waiting) i
            (record (s.heap i) { total = (s.heap i).total - 1 })
            (λ above. x.idle_new i above (subst (λ q. MayBePoolOf s q p.asked) e fits).0))
  ]

  release-IsCleared :
      (k : ℕ) (h : Handle)
      → get_elem? s.handles k ≡ some h
      → HandleFits s h
      → IsCleared n c (release s k h)
  unfolding release
  release-IsCleared k h found fits =
      let dropped =
        handles-IsCleared n c s x (remove_at s.handles k)
          (All-remove_at (IsNew n c) s.handles k x.handles_new) in
      let new = All-get_elem? (IsNew n c) s.handles k h found x.handles_new in
      elim (Option-cases h.pool) [
        | inl e ↦ rw (e, release) dropped
        | inr (i, e) ↦
            rw (e, release)
              (put_pool-IsCleared n c _ dropped i
                (record (s.heap i) { idle = h.ctx ∷ (s.heap i).idle })
                (λ above. (
                  new i e above,
                  x.idle_new i above (subst (λ q. MayBePoolOf s q h.asked) e fits.1).0,
                )))
      ]

next_pool-raise_limit : (s : System) (i l : ℕ) → (raise_limit s i l).next_pool ≡ s.next_pool
unfolding raise_limit
next_pool-raise_limit s i l = ground arith

acquire_cached-IsCleared :
    (n c : ℕ) (s : System) (d : Text) (l : ℕ)
    → IsCleared n c s
    → Owned s
    → IsCleared n c (acquire_cached s d l)
unfolding acquire_cached
acquire_cached-IsCleared n c s d l x o = elim (Option-cases (s.pools d)) [
  | inl e ↦
      let added = add_pool-IsCleared n c s x d in
      let below : s.next_pool < (add_pool s d).next_pool = unfold add_pool in omega arith in
      rw (e, acquire_cached)
        (attempt-IsCleared n c _ (raise_limit-IsCleared n c _ added s.next_pool l below) s.next_pool
          d (rw next_pool-raise_limit below))
  | inr (i, e) ↦
      let below = (o.mapped_owned d i e).0 in
      rw (e, acquire_cached)
        (attempt-IsCleared n c _ (raise_limit-IsCleared n c s x i l below) i d
          (rw next_pool-raise_limit below))
]
