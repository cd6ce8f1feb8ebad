-- ===== src/Pool/Cleared/History.antt =====
-- The sessions that the pools of src/oracle_connection_manager.cpp give out after a `Clear`, over whole
-- histories.
use duckdb_oracle.Base.{
  sym, refl, ◌∙◌, ◌++◌, map, subst, ℕ, ◌≤◌, ◌≡◌, inl, inr, true, false, none, some, List, [], ◌∷◌,
  arith, Option-cases, get_elem?, All, Text,
}
use duckdb_oracle.Pool.{
  release, System, Handle, Event, acquires, wakes, times_out, succeeds, fails, drops, clears, init,
  acquire_standalone, leave, clear, step, run,
}
use duckdb_oracle.Pool.Counting.{All-get_elem?, All-map}
use duckdb_oracle.Pool.Sessions.{
  Owned, HandleFits, PendingFits, WaiterFits, MayBePoolOf, init-Owned,
}
use duckdb_oracle.Pool.Sessions.History.{step-Owned, run-Owned}
use duckdb_oracle.Pool.Cleared.{
  IsNew, IsCleared, others-IsCleared, attempt-IsCleared, created-IsCleared, failed-IsCleared,
  release-IsCleared, acquire_cached-IsCleared,
}

module _ (n c : ℕ) where
  clear-IsCleared_later : (s : System) → IsCleared n c s → IsCleared n c (clear s)
  unfolding clear
  clear-IsCleared_later s x = record {
    pools_later = x.pools_later;
    contexts_later = x.contexts_later;
    idle_new = x.idle_new;
    handles_new = x.handles_new;
    mapped_new = λ d i e. cc;
  }

  step-IsCleared : (s : System) (e : Event) → IsCleared n c s → Owned s → IsCleared n c (step s e)
  unfolding step acquire_standalone leave
  step-IsCleared s (acquires d true l) x o = acquire_cached-IsCleared n c s d l x o
  step-IsCleared s (acquires d false l) x o =
      others-IsCleared n c s x (record { pool = none; asked = d } ∷ s.pending) s.waiting
  step-IsCleared s (wakes k) x o = elim (Option-cases (get_elem? s.waiting k)) [
    | inl e ↦ rw (e, step) x
    | inr (w, e) ↦
        let fits = All-get_elem? (WaiterFits s) s.waiting k w e o.waiting_owned in
        rw (e, step)
          (attempt-IsCleared n c (leave s k)
            (unfold leave in others-IsCleared n c s x s.pending (leave s k).waiting) w.pool w.asked
            fits.0)
  ]
  step-IsCleared s (times_out k) x o = others-IsCleared n c s x s.pending (leave s k).waiting
  step-IsCleared s (succeeds k) x o = elim (Option-cases (get_elem? s.pending k)) [
    | inl e ↦ rw (e, step) x
    | inr (p, e) ↦ rw (e, step) (created-IsCleared n c s x k p)
  ]
  step-IsCleared s (fails k) x o = elim (Option-cases (get_elem? s.pending k)) [
    | inl e ↦ rw (e, step) x
    | inr (p, e) ↦
        rw (e, step)
          (failed-IsCleared n c s x k p
            (All-get_elem? (PendingFits s) s.pending k p e o.pending_owned))
  ]
  step-IsCleared s (drops k) x o = elim (Option-cases (get_elem? s.handles k)) [
    | inl e ↦ rw (e, step) x
    | inr (h, e) ↦
        rw (e, step)
          (release-IsCleared n c s x k h e
            (All-get_elem? (HandleFits s) s.handles k h e o.handles_owned))
  ]
  step-IsCleared s clears x o = clear-IsCleared_later s x

  run-IsCleared :
      (s : System) (es : List Event) → IsCleared n c s → Owned s → IsCleared n c (run s es)
  unfolding run
  run-IsCleared s [] x o = x
  run-IsCleared s (e ∷ es) x o =
      run-IsCleared (step s e) es (step-IsCleared s e x o) (step-Owned s e o)

-- A handle whose pool, if it has one, exists already.
old-IsNew : (s : System) (h : Handle) → HandleFits s h → IsNew s.next_pool s.next_context h
old-IsNew s h fits i is above =
    absurd (omega (arith, (subst (λ q. MayBePoolOf s q h.asked) is fits.1).0))

clear-IsCleared : (s : System) → Owned s → IsCleared s.next_pool s.next_context (step s clears)
unfolding step clear
clear-IsCleared s o = record {
  pools_later = omega arith;
  contexts_later = omega arith;
  idle_new = λ i above below. absurd (omega arith);
  handles_new = All-map s.handles (old-IsNew s) o.handles_owned;
  mapped_new = λ d i e. cc;
}

-- The sessions that are idle in pool `i` or held of it are numbered from `c` on.
abbrev pub AreFrom : ℕ → ℕ → System → Type 0
AreFrom c i t =
    All (λ ctx. c ≤ ctx.id) (t.heap i).idle × All (λ h. h.pool ≡ some i → c ≤ h.ctx.id) t.handles

-- After a `Clear` and any interleaving: the sessions of the pool of a connection string are new.
clear-AreFrom :
    (s : System) (after : List Event) (d : Text) (i : ℕ)
    → Owned s
    → (run (step s clears) after).pools d ≡ some i
    → AreFrom s.next_context i (run (step s clears) after)
clear-AreFrom s after d i o is =
    let t = run (step s clears) after in
    let o' = step-Owned s clears o in
    let x =
      run-IsCleared s.next_pool s.next_context (step s clears) after (clear-IsCleared s o) o' in
    let above = x.mapped_new d i is in
    let below = (run-Owned (step s clears) after o').mapped_owned d i is in
    (x.idle_new i above below.0, All-map t.handles (λ h new e. new i e above) x.handles_new)

run-append : (s : System) (es fs : List Event) → run s (es ++ fs) ≡ run (run s es) fs
unfolding run
run-append s [] fs = refl
run-append s (e ∷ es) fs = run-append (step s e) es fs

-- Giving sessions back opens none.
next_context-drop : (s : System) (k : ℕ) → (step s (drops k)).next_context ≡ s.next_context
unfolding step release
next_context-drop s k = ground arith

next_context-drops :
    (s : System) (ks : List ℕ) → (run s (map drops ks)).next_context ≡ s.next_context
unfolding run
next_context-drops s [] = refl
next_context-drops s (k ∷ ks) = next_context-drops (step s (drops k)) ks ∙ next_context-drop s k

-- A thread that gives handles back and clears the pools right after.
pub drops-clear-AreFrom :
    (before after : List Event) (ks : List ℕ) (d : Text) (i : ℕ)
    → let s = run init before in
      let t = run (run s (map drops ks ++ (clears ∷ []))) after in
      t.pools d ≡ some i → AreFrom s.next_context i t
unfolding run
drops-clear-AreFrom before after ks d i is =
    let s = run init before in
    let s' = run s (map drops ks) in
    let same = run-append s (map drops ks) (clears ∷ []) in
    subst (λ c. AreFrom c i (run (run s (map drops ks ++ (clears ∷ []))) after))
      (next_context-drops s ks)
      (subst (λ u. AreFrom s'.next_context i (run u after)) (sym same)
        (clear-AreFrom s' after d i (run-Owned s (map drops ks) (run-Owned init before init-Owned))
          (subst (λ (u : System). (run u after).pools d ≡ some i) same is)))
