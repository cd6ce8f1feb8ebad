-- ===== src/Pool/Sessions/History.antt =====
-- Whose session a handle of src/oracle_connection_manager.cpp holds, over whole histories.
use duckdb_oracle.Base.{
  ℕ, ◌+◌, ◌-◌, ◌≡◌, inl, inr, refl, sym, ◌∙◌, subst, true, false, none, some, List, [], ◌∷◌, ltb,
  if◌then◌else◌, Bool-cases, Option-cases, get_elem?, All, Text, text_eq_refl,
}
use duckdb_oracle.Pool.Sessions.{
  MayBePoolOf, Owned, IsPoolOf, HandleFits, PendingFits, WaiterFits, init-Owned, add_pool-Owned,
  put_pool-Owned, put_pool-Keeps,
}
use duckdb_oracle.Pool.{
  System, OracleConnectionPool, Handle, Pending, Context, Event, acquires, wakes, times_out,
  succeeds, fails, drops, clears, init, remove_at, add_pool, raise_limit, reuse, reserve, wait,
  attempt, acquire_cached, acquire_standalone, created, failed, release, leave, clear, step, run,
  put_pool,
}
use duckdb_oracle.Pool.Counting.{All-remove_at, All-get_elem?, All-map}

module _ (s : System) (o : Owned s) where
  pub raise_limit-Owned : (i l : ℕ) → Owned (raise_limit s i l)
  unfolding raise_limit
  raise_limit-Owned i l = elim (Bool-cases (ltb (s.heap i).limit l)) [
    | inl e ↦ rw e (put_pool-Owned s o i (record (s.heap i) { limit = l }) refl (o.idle_owned i))
    | inr e ↦ rw e o
  ]

  add_handle-Owned : (h : Handle) → HandleFits s h → Owned (record s { handles = h ∷ s.handles })
  add_handle-Owned h f = record {
    idle_owned = o.idle_owned;
    handles_owned = (f, o.handles_owned);
    pending_owned = o.pending_owned;
    waiting_owned = o.waiting_owned;
    mapped_owned = o.mapped_owned;
  }

  add_pending-Owned : (p : Pending) → PendingFits s p → Owned (record s { pending = p ∷ s.pending })
  add_pending-Owned p f = record {
    idle_owned = o.idle_owned;
    handles_owned = o.handles_owned;
    pending_owned = (f, o.pending_owned);
    waiting_owned = o.waiting_owned;
    mapped_owned = o.mapped_owned;
  }

  wait-Owned : (i : ℕ) (c : Text) → IsPoolOf s i c → Owned (wait s i c)
  unfolding wait
  wait-Owned i c f = record {
    idle_owned = o.idle_owned;
    handles_owned = o.handles_owned;
    pending_owned = o.pending_owned;
    waiting_owned = (f, o.waiting_owned);
    mapped_owned = o.mapped_owned;
  }

  drop_handle-Owned : (k : ℕ) → Owned (record s { handles = remove_at s.handles k })
  drop_handle-Owned k = record {
    idle_owned = o.idle_owned;
    handles_owned = All-remove_at (HandleFits s) s.handles k o.handles_owned;
    pending_owned = o.pending_owned;
    waiting_owned = o.waiting_owned;
    mapped_owned = o.mapped_owned;
  }

  drop_pending-Owned : (k : ℕ) → Owned (record s { pending = remove_at s.pending k })
  drop_pending-Owned k = record {
    idle_owned = o.idle_owned;
    handles_owned = o.handles_owned;
    pending_owned = All-remove_at (PendingFits s) s.pending k o.pending_owned;
    waiting_owned = o.waiting_owned;
    mapped_owned = o.mapped_owned;
  }

  pub leave-Owned : (k : ℕ) → Owned (leave s k)
  unfolding leave
  leave-Owned k = record {
    idle_owned = o.idle_owned;
    handles_owned = o.handles_owned;
    pending_owned = o.pending_owned;
    waiting_owned = All-remove_at (WaiterFits s) s.waiting k o.waiting_owned;
    mapped_owned = o.mapped_owned;
  }

  clear-Owned : Owned (clear s)
  unfolding clear
  clear-Owned = record {
    idle_owned = o.idle_owned;
    handles_owned = o.handles_owned;
    pending_owned = o.pending_owned;
    waiting_owned = o.waiting_owned;
    mapped_owned = λ c i e. cc;
  }

module _ (s : System) (o : Owned s) where
  reuse-Owned :
      (i : ℕ) (c : Text) (ctx : Context) (rest : List Context)
      → IsPoolOf s i c
      → (s.heap i).idle ≡ ctx ∷ rest
      → Owned (reuse s i c ctx rest)
  unfolding reuse
  reuse-Owned i c ctx rest f e =
      let p : OracleConnectionPool = record (s.heap i) { idle = rest } in
      let owned = subst (All (λ x. x.opened_with ≡ (s.heap i).key)) e (o.idle_owned i) in
      let k = put_pool-Keeps s o i p refl in
      add_handle-Owned (put_pool s i p) (put_pool-Owned s o i p refl owned.1)
        (record { pool = some i; ctx = ctx; asked = c }) (owned.0 ∙ f.1, k.keeps_pool i c f)

  reserve-Owned : (i : ℕ) (c : Text) → IsPoolOf s i c → Owned (reserve s i c)
  unfolding reserve
  reserve-Owned i c f =
      let p : OracleConnectionPool = record (s.heap i) { total = (s.heap i).total + 1 } in
      let k = put_pool-Keeps s o i p refl in
      add_pending-Owned (put_pool s i p) (put_pool-Owned s o i p refl (o.idle_owned i))
        (record { pool = some i; asked = c }) (k.keeps_pool i c f)

  attempt-Owned : (i : ℕ) (c : Text) → IsPoolOf s i c → Owned (attempt s i c)
  unfolding attempt
  attempt-Owned i c f = by_idle (s.heap i).idle refl
    where
      by_room : Owned (if ltb (s.heap i).total (s.heap i).limit then reserve s i c else wait s i c)
      by_room = elim (Bool-cases (ltb (s.heap i).total (s.heap i).limit)) [
        | inl e ↦ rw e (reserve-Owned i c f)
        | inr e ↦ rw e (wait-Owned s o i c f)
      ]

      by_idle : (xs : List Context) → (s.heap i).idle ≡ xs → Owned (attempt s i c)
      by_idle [] e = rw (e, attempt) by_room
      by_idle (ctx ∷ rest) e = rw (e, attempt) (reuse-Owned i c ctx rest f e)

  created-Owned : (k : ℕ) (p : Pending) → get_elem? s.pending k ≡ some p → Owned (created s k p)
  unfolding created
  created-Owned k p e =
      let fits = All-get_elem? (PendingFits s) s.pending k p e o.pending_owned in
      record {
        idle_owned = o.idle_owned;
        handles_owned = ((refl, fits), o.handles_owned);
        pending_owned = All-remove_at (PendingFits s) s.pending k o.pending_owned;
        waiting_owned = o.waiting_owned;
        mapped_owned = o.mapped_owned;
      }

  failed-Owned : (k : ℕ) (p : Pending) → Owned (failed s k p)
  unfolding failed
  failed-Owned k p = elim (Option-cases p.pool) [
    | inl e ↦ rw (e, failed) (drop_pending-Owned s o k)
    | inr (i, e) ↦
        rw (e, failed)
          (put_pool-Owned _ (drop_pending-Owned s o k) i
            (record (s.heap i) { total = (s.heap i).total - 1 }) refl (o.idle_owned i))
  ]

  release-Owned : (k : ℕ) (h : Handle) → get_elem? s.handles k ≡ some h → Owned (release s k h)
  unfolding release
  release-Owned k h found =
      let fits = All-get_elem? (HandleFits s) s.handles k h found o.handles_owned in
      elim (Option-cases h.pool) [
        | inl e ↦ rw (e, release) (drop_handle-Owned s o k)
        | inr (i, e) ↦
            rw (e, release)
              (put_pool-Owned _ (drop_handle-Owned s o k) i
                (record (s.heap i) { idle = h.ctx ∷ (s.heap i).idle }) refl
                (fits.0 ∙ sym (subst (λ q. MayBePoolOf s q h.asked) e fits.1).1, o.idle_owned i))
      ]

pools-raise_limit : (s : System) (i l : ℕ) → (raise_limit s i l).pools ≡ s.pools
unfolding raise_limit
pools-raise_limit s i l = elim (Bool-cases (ltb (s.heap i).limit l)) [ inl e ↦ rw e | inr e ↦ rw e ]

acquire_cached-Owned : (s : System) (c : Text) (l : ℕ) → Owned s → Owned (acquire_cached s c l)
unfolding acquire_cached add_pool
acquire_cached-Owned s c l o = elim (Option-cases (s.pools c)) [
  | inl e ↦
      let added = add_pool-Owned s o c in
      let i = s.next_pool in
      let raised = raise_limit-Owned _ added i l in
      rw (e, acquire_cached)
        (attempt-Owned _ raised i c
          (raised.mapped_owned c i (rw pools-raise_limit (rw text_eq_refl))))
  | inr (i, e) ↦
      let raised = raise_limit-Owned s o i l in
      rw (e, acquire_cached)
        (attempt-Owned _ raised i c (raised.mapped_owned c i (rw pools-raise_limit e)))
]

pub step-Owned : (s : System) (e : Event) → Owned s → Owned (step s e)
unfolding step acquire_standalone
step-Owned s (acquires c true l) o = acquire_cached-Owned s c l o
step-Owned s (acquires c false l) o = add_pending-Owned s o (record { pool = none; asked = c }) tt
step-Owned s (wakes k) o = elim (Option-cases (get_elem? s.waiting k)) [
  | inl e ↦ rw (e, step) o
  | inr (w, e) ↦
      let fits = All-get_elem? (WaiterFits s) s.waiting k w e o.waiting_owned in
      rw (e, step)
        (attempt-Owned (leave s k) (leave-Owned s o k) w.pool w.asked (unfold leave in fits))
]
step-Owned s (times_out k) o = leave-Owned s o k
step-Owned s (succeeds k) o = elim (Option-cases (get_elem? s.pending k)) [
  | inl e ↦ rw (e, step) o
  | inr (p, e) ↦ rw (e, step) (created-Owned s o k p e)
]
step-Owned s (fails k) o = elim (Option-cases (get_elem? s.pending k)) [
  | inl e ↦ rw (e, step) o
  | inr (p, e) ↦ rw (e, step) (failed-Owned s o k p)
]
step-Owned s (drops k) o = elim (Option-cases (get_elem? s.handles k)) [
  | inl e ↦ rw (e, step) o
  | inr (h, e) ↦ rw (e, step) (release-Owned s o k h e)
]
step-Owned s clears o = clear-Owned s o

pub run-Owned : (s : System) (es : List Event) → Owned s → Owned (run s es)
unfolding run
run-Owned s [] o = o
run-Owned s (e ∷ es) o = run-Owned (step s e) es (step-Owned s e o)

-- After any interleaving from the start, every live handle holds a session that logged in with the
-- connection string that its owner asked for, also when the session came from a pool.
pub run-init-opened_with :
    (es : List Event) → All (λ h. h.ctx.opened_with ≡ h.asked) (run init es).handles
run-init-opened_with es =
    All-map (run init es).handles (λ h f. f.0) (run-Owned init es init-Owned).handles_owned
