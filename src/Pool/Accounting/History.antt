-- ===== src/Pool/Accounting/History.antt =====
-- The books of the pools of src/oracle_connection_manager.cpp over whole histories.
use duckdb_oracle.Base.{
  ℕ, ◌+◌, ◌≤◌, ◌<◌, ◌≡◌, refl, true, false, some, List, [], ◌∷◌, arith, if◌then◌else◌, get_elem?,
  length, Text, ltb, Option-cases, Bool-cases, inl, inr,
}
use duckdb_oracle.Pool.Counting.{All-get_elem?}
use duckdb_oracle.Pool.{
  System, Handle, Pending, Context, Event, acquires, wakes, times_out, succeeds, fails, drops,
  clears, init, add_pool, raise_limit, reserve, wait, attempt, acquire_cached, failed, release,
  leave, step, run,
}
use duckdb_oracle.Pool.Accounting.{
  Accounts, leased, opening, init-Accounts, add_pool-Accounts, raise_limit-Accounts, reuse-Accounts,
  reserve-Accounts, wait-Accounts, leave-Accounts, clear-Accounts, acquire_standalone-Accounts,
  created-Accounts, failed-some-Accounts, failed-none-Accounts, release-some-Accounts,
  release-none-Accounts,
}

attempt-Accounts :
    (s : System) (i : ℕ) (c : Text) → Accounts s → i < s.next_pool → Accounts (attempt s i c)
unfolding attempt
attempt-Accounts s i c a b = by_idle (s.heap i).idle refl
  where
    by_room : Accounts (if ltb (s.heap i).total (s.heap i).limit then reserve s i c else wait s i c)
    by_room = elim (Bool-cases (ltb (s.heap i).total (s.heap i).limit)) [
      | inl e ↦ rw e (reserve-Accounts s a i c b (ground arith))
      | inr e ↦ rw e (wait-Accounts s a i c b)
    ]

    by_idle : (xs : List Context) → (s.heap i).idle ≡ xs → Accounts (attempt s i c)
    by_idle [] e = rw (e, attempt) by_room
    by_idle (ctx ∷ rest) e = rw (e, attempt) (reuse-Accounts s a i c ctx rest e)

next_pool-raise_limit : (s : System) (i l : ℕ) → (raise_limit s i l).next_pool ≡ s.next_pool
unfolding raise_limit
next_pool-raise_limit s i l = ground arith

acquire_cached-Accounts :
    (s : System) (c : Text) (l : ℕ) → Accounts s → Accounts (acquire_cached s c l)
unfolding acquire_cached add_pool
acquire_cached-Accounts s c l a = elim (Option-cases (s.pools c)) [
  | inl e ↦
      let added = add_pool-Accounts s a c in
      let raised = raise_limit-Accounts _ added s.next_pool l in
      let i = s.next_pool in
      rw (e, acquire_cached)
        (attempt-Accounts _ i c raised (omega (arith, next_pool-raise_limit (add_pool s c) i l)))
  | inr (i, e) ↦
      let bound = a.mapped c i e in
      rw (e, acquire_cached)
        (attempt-Accounts _ i c (raise_limit-Accounts s a i l)
          (omega (arith, next_pool-raise_limit s i l)))
]

failed-Accounts :
    (s : System) (k : ℕ) (p : Pending)
    → Accounts s
    → get_elem? s.pending k ≡ some p
    → Accounts (failed s k p)
failed-Accounts s k p a e = elim (Option-cases p.pool) [
  | inl o ↦ failed-none-Accounts s a k p e o
  | inr (i, o) ↦ failed-some-Accounts s a k i p e o
]

release-Accounts :
    (s : System) (k : ℕ) (h : Handle)
    → Accounts s
    → get_elem? s.handles k ≡ some h
    → Accounts (release s k h)
release-Accounts s k h a e = elim (Option-cases h.pool) [
  | inl o ↦ release-none-Accounts s a k h e o
  | inr (i, o) ↦ release-some-Accounts s a k i h e o
]

-- One step of one thread keeps the books.
step-Accounts : (s : System) (e : Event) → Accounts s → Accounts (step s e)
unfolding step
step-Accounts s (acquires c true l) a = acquire_cached-Accounts s c l a
step-Accounts s (acquires c false l) a = acquire_standalone-Accounts s a c
step-Accounts s (wakes k) a = elim (Option-cases (get_elem? s.waiting k)) [
  | inl e ↦ rw (e, step) a
  | inr (w, e) ↦
      rw (e, step)
        (attempt-Accounts (leave s k) w.pool w.asked (leave-Accounts s a k)
          (unfold leave in All-get_elem? (λ x. x.pool < s.next_pool) s.waiting k w e a.known))
]
step-Accounts s (times_out k) a = leave-Accounts s a k
step-Accounts s (succeeds k) a = elim (Option-cases (get_elem? s.pending k)) [
  | inl e ↦ rw (e, step) a
  | inr (p, e) ↦ rw (e, step) (created-Accounts s a k p e)
]
step-Accounts s (fails k) a = elim (Option-cases (get_elem? s.pending k)) [
  | inl e ↦ rw (e, step) a
  | inr (p, e) ↦ rw (e, step) (failed-Accounts s k p a e)
]
step-Accounts s (drops k) a = elim (Option-cases (get_elem? s.handles k)) [
  | inl e ↦ rw (e, step) a
  | inr (h, e) ↦ rw (e, step) (release-Accounts s k h a e)
]
step-Accounts s clears a = clear-Accounts s a

pub run-Accounts : (s : System) (es : List Event) → Accounts s → Accounts (run s es)
unfolding run
run-Accounts s [] a = a
run-Accounts s (e ∷ es) a = run-Accounts (step s e) es (step-Accounts s e a)

-- In every pool, after any interleaving from the start: the sessions that are idle, in live handles
-- or being opened are exactly `total`, and `total` never passes the limit.
pub run-init-balance :
    (es : List Event) (i : ℕ)
    → let s = run init es in
      ((s.heap i).total ≡ length (s.heap i).idle + leased i s.handles + opening i s.pending)
      × ((s.heap i).total ≤ (s.heap i).limit)
run-init-balance es i =
    let a = run-Accounts init es init-Accounts in (a.balance i, a.within_limit i)
