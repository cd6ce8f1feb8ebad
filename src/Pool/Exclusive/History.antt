-- ===== src/Pool/Exclusive/History.antt =====
-- Sessions of src/oracle_connection_manager.cpp stay in one place over whole histories.
use duckdb_oracle.Base.{
  ℕ, ◌+◌, ◌-◌, ◌≤◌, ◌≡◌, inl, inr, refl, true, false, some, List, [], ◌∷◌, ltb, ◌==◌, if◌then◌else◌,
  Bool-cases, Option-cases, get_elem?, Text,
}
use duckdb_oracle.Pool.{
  System, Handle, Pending, Context, Event, acquires, wakes, times_out, succeeds, fails, drops,
  clears, init, raise_limit, reserve, wait, attempt, acquire_cached, acquire_standalone, failed,
  release, leave, clear, step, run,
}
use duckdb_oracle.Pool.Exclusive.{
  IsExclusive, pooled_times, held_times, init-IsExclusive, add_pool-IsExclusive,
  put_pool-IsExclusive, created-IsExclusive, reuse-IsExclusive, release-some-IsExclusive,
  release-none-IsExclusive, same-IsExclusive,
}

attempt-IsExclusive : (s : System) (i : ℕ) (c : Text) → IsExclusive s → IsExclusive (attempt s i c)
unfolding attempt reserve wait
attempt-IsExclusive s i c x = by_idle (s.heap i).idle refl
  where
    by_room :
        IsExclusive (if ltb (s.heap i).total (s.heap i).limit then reserve s i c else wait s i c)
    by_room = elim (Bool-cases (ltb (s.heap i).total (s.heap i).limit)) [
      | inl e ↦ rw e (
          same-IsExclusive _ _ refl refl refl
            (put_pool-IsExclusive s x i (record (s.heap i) { total = (s.heap i).total + 1 }) refl))
      | inr e ↦ rw e (same-IsExclusive s _ refl refl refl x)
    ]

    by_idle : (xs : List Context) → (s.heap i).idle ≡ xs → IsExclusive (attempt s i c)
    by_idle [] e = rw (e, attempt) by_room
    by_idle (ctx ∷ rest) e = rw (e, attempt) (reuse-IsExclusive s x i c ctx rest e)

raise_limit-IsExclusive : (s : System) (i l : ℕ) → IsExclusive s → IsExclusive (raise_limit s i l)
unfolding raise_limit
raise_limit-IsExclusive s i l x = elim (Bool-cases (ltb (s.heap i).limit l)) [
  | inl e ↦ rw e (put_pool-IsExclusive s x i (record (s.heap i) { limit = l }) refl)
  | inr e ↦ rw e x
]

failed-IsExclusive : (s : System) (k : ℕ) (p : Pending) → IsExclusive s → IsExclusive (failed s k p)
unfolding failed
failed-IsExclusive s k p x = elim (Option-cases p.pool) [
  | inl e ↦ rw (e, failed) (same-IsExclusive s _ refl refl refl x)
  | inr (i, e) ↦
      rw (e, failed)
        (same-IsExclusive _ _ refl refl refl
          (put_pool-IsExclusive s x i (record (s.heap i) { total = (s.heap i).total - 1 }) refl))
]

release-IsExclusive :
    (s : System) (k : ℕ) (h : Handle)
    → IsExclusive s
    → get_elem? s.handles k ≡ some h
    → IsExclusive (release s k h)
release-IsExclusive s k h x found = elim (Option-cases h.pool) [
  | inl e ↦ release-none-IsExclusive s x k h found e
  | inr (i, e) ↦ release-some-IsExclusive s x k i h found e
]

step-IsExclusive : (s : System) (e : Event) → IsExclusive s → IsExclusive (step s e)
unfolding step acquire_cached acquire_standalone leave clear
step-IsExclusive s (acquires c true l) x = elim (Option-cases (s.pools c)) [
  | inl e ↦
      rw (e, acquire_cached)
        (attempt-IsExclusive _ s.next_pool c
          (raise_limit-IsExclusive _ s.next_pool l (add_pool-IsExclusive s x c)))
  | inr (i, e) ↦
      rw (e, acquire_cached) (attempt-IsExclusive _ i c (raise_limit-IsExclusive s i l x))
]
step-IsExclusive s (acquires c false l) x = same-IsExclusive s _ refl refl refl x
step-IsExclusive s (wakes k) x = elim (Option-cases (get_elem? s.waiting k)) [
  | inl e ↦ rw (e, step) x
  | inr (w, e) ↦
      rw (e, step) (attempt-IsExclusive _ w.pool w.asked (same-IsExclusive s _ refl refl refl x))
]
step-IsExclusive s (times_out k) x = same-IsExclusive s _ refl refl refl x
step-IsExclusive s (succeeds k) x = elim (Option-cases (get_elem? s.pending k)) [
  | inl e ↦ rw (e, step) x
  | inr (p, e) ↦ rw (e, step) (created-IsExclusive s x k p)
]
step-IsExclusive s (fails k) x = elim (Option-cases (get_elem? s.pending k)) [
  | inl e ↦ rw (e, step) x
  | inr (p, e) ↦ rw (e, step) (failed-IsExclusive s k p x)
]
step-IsExclusive s (drops k) x = elim (Option-cases (get_elem? s.handles k)) [
  | inl e ↦ rw (e, step) x
  | inr (h, e) ↦ rw (e, step) (release-IsExclusive s k h x e)
]
step-IsExclusive s clears x = same-IsExclusive s _ refl refl refl x

run-IsExclusive : (s : System) (es : List Event) → IsExclusive s → IsExclusive (run s es)
unfolding run
run-IsExclusive s [] x = x
run-IsExclusive s (e ∷ es) x = run-IsExclusive (step s e) es (step-IsExclusive s e x)

-- After any interleaving from the start, a session stands at most once in all of the live handles and
-- any two different pools: no two owners share it, and it is not idle while it is held.
pub run-init-exclusive :
    (es : List Event) (n i j : ℕ)
    → (i == j) ≡ false
    → pooled_times (run init es) n i
        + pooled_times (run init es) n j
        + held_times n (run init es).handles
      ≤ 1
run-init-exclusive es n i j = (run-IsExclusive init es init-IsExclusive).two_pools n i j
