-- ===== src/Pool/Exclusive.antt =====
-- A session of src/oracle_connection_manager.cpp is in one place: in one live handle, or idle in one
-- pool.
pub mod History
use duckdb_oracle.Base.{
  ℕ, zero, suc, ◌+◌, ◌-◌, ◌*◌, ◌/◌, ◌%◌, ◌^◌, ◌≤◌, ◌<◌, ◌≡◌, ◌≢◌, ◌↔◌, ◌⊎◌, inl, inr, refl, sym, ap,
  ◌∙◌, subst, Bool, true, false, not, ◌&&◌, ◌||◌, Option, none, some, List, [], ◌∷◌, ◌++◌, map,
  arith, ltb, leb, ◌==◌, if◌then◌else◌, ==_refl, ==_iff, Bool-cases, Option-cases, Result, ok,
  throw, ◌>>=◌, ◌>>◌, throw_if, >>=-eq-ok, ok-injective, length, get_elem?, take, drop, replicate,
  length-append, take-append_self, drop-append_self, length-replicate, length-map, All, Text, lit,
  text_eq, text_eq_iff, text_eq_refl, empty, has, index, find, substr, substr_from, decimal, ℤ, pos,
  negsuc, to_idx, is_le_zero, is_gt, u64_mod, String,
}
use duckdb_oracle.Pool.Counting.{count, count-remove_at}
use duckdb_oracle.Pool.{
  System, OracleConnectionPool, Handle, Pending, Waiter, Context, Event, acquires, wakes, times_out,
  succeeds, fails, drops, clears, init, remove_at, add_pool, raise_limit, reuse, reserve, wait,
  attempt, acquire_cached, acquire_standalone, created, failed, release, leave, clear, step, run,
  put_pool,
}

-- How often session `n` is in a list of idle sessions, and how many handles hold it.
abbrev pub idle_times : ℕ → List Context → ℕ
idle_times n = count (λ ctx. ctx.id == n)

abbrev pub held_times : ℕ → List Handle → ℕ
held_times n = count (λ h. h.ctx.id == n)

abbrev pub pooled_times : System → ℕ → ℕ → ℕ
pooled_times s n i = idle_times n (s.heap i).idle

record IsExclusive (s : System) : Type 0 where
  one_pool : (n i : ℕ) → pooled_times s n i + held_times n s.handles ≤ 1
  two_pools :
      (n i j : ℕ)
      → (i == j) ≡ false
      → pooled_times s n i + pooled_times s n j + held_times n s.handles ≤ 1
  fresh_pooled : (n i : ℕ) → s.next_context ≤ n → pooled_times s n i ≡ 0
  fresh_held : (n : ℕ) → s.next_context ≤ n → held_times n s.handles ≡ 0

init-IsExclusive : IsExclusive init
unfolding init
init-IsExclusive = record {
  one_pool = λ n i. omega arith;
  two_pools = λ n i j h. omega arith;
  fresh_pooled = λ n i h. refl;
  fresh_held = λ n h. refl;
}

-- A new list of idle sessions in pool `i`, and a new list of handles, that hold the same sessions.
module _ (s : System) (x : IsExclusive s) where
  move-IsExclusive :
      (i : ℕ) (p : OracleConnectionPool) (hs : List Handle)
      → ((n : ℕ)
          → idle_times n p.idle + held_times n hs ≡ pooled_times s n i + held_times n s.handles)
      → IsExclusive (record (put_pool s i p) { handles = hs })
  move-IsExclusive i p hs same = record {
    one_pool = λ n j. ground (arith, x.one_pool n j, x.one_pool n i, x.two_pools n j i, same n);
    two_pools = λ n j k ne. ground (
      arith,
      x.one_pool n i,
      x.two_pools n j k,
      x.two_pools n j i,
      x.two_pools n k i,
      x.two_pools n i k,
      same n,
    );
    fresh_pooled =
        λ n j h. ground (arith, x.fresh_pooled n j, x.fresh_pooled n i, x.fresh_held n, same n);
    fresh_held = λ n h. ground (arith, x.fresh_pooled n i, x.fresh_held n, same n);
  }

  add_pool-IsExclusive : (c : Text) → IsExclusive (add_pool s c)
  unfolding add_pool
  add_pool-IsExclusive c = record {
    one_pool = λ n i. ground (arith, x.one_pool n i);
    two_pools = λ n i j ne. ground (arith, x.one_pool n i, x.one_pool n j, x.two_pools n i j);
    fresh_pooled = λ n i h. ground (arith, x.fresh_pooled n i);
    fresh_held = x.fresh_held;
  }

  put_pool-IsExclusive :
      (i : ℕ) (p : OracleConnectionPool) → p.idle ≡ (s.heap i).idle → IsExclusive (put_pool s i p)
  put_pool-IsExclusive i p e =
      move-IsExclusive i p s.handles (λ n. ap (λ xs. idle_times n xs + held_times n s.handles) e)

  created-IsExclusive : (k : ℕ) (p : Pending) → IsExclusive (created s k p)
  unfolding created
  created-IsExclusive k p = record {
    one_pool = λ n i. ground (arith, x.one_pool n i, x.fresh_pooled n i, x.fresh_held n);
    two_pools = λ n i j ne.
        ground (arith, x.two_pools n i j, x.fresh_pooled n i, x.fresh_pooled n j, x.fresh_held n);
    fresh_pooled = λ n i h. ground (arith, x.fresh_pooled n i);
    fresh_held = λ n h. ground (arith, x.fresh_held n);
  }

  reuse-IsExclusive :
      (i : ℕ) (c : Text) (ctx : Context) (rest : List Context)
      → (s.heap i).idle ≡ ctx ∷ rest
      → IsExclusive (reuse s i c ctx rest)
  unfolding reuse
  reuse-IsExclusive i c ctx rest e =
      move-IsExclusive i (record (s.heap i) { idle = rest }) _
        (λ n. omega (arith, ap (λ xs. idle_times n xs) e))

  release-some-IsExclusive :
      (k i : ℕ) (h : Handle)
      → get_elem? s.handles k ≡ some h
      → h.pool ≡ some i
      → IsExclusive (release s k h)
  unfolding release
  release-some-IsExclusive k i h found e =
      rw (e, release)
        (move-IsExclusive i (record (s.heap i) { idle = h.ctx ∷ (s.heap i).idle })
          (remove_at s.handles k)
          (λ n. omega (arith, count-remove_at (λ (q : Handle). q.ctx.id == n) s.handles k h found)))

  release-none-IsExclusive :
      (k : ℕ) (h : Handle)
      → get_elem? s.handles k ≡ some h
      → h.pool ≡ none
      → IsExclusive (release s k h)
  unfolding release
  release-none-IsExclusive k h found e =
      let counted =
        λ (n : ℕ). count-remove_at (λ (q : Handle). q.ctx.id == n) s.handles k h found in
      rw (e, release)
        (record {
          one_pool = λ n i. omega (arith, x.one_pool n i, counted n);
          two_pools = λ n i j ne. omega (arith, x.two_pools n i j ne, counted n);
          fresh_pooled = x.fresh_pooled;
          fresh_held = λ n h. omega (arith, x.fresh_held n h, counted n);
        })

-- The rest of a system does not matter.
same-IsExclusive :
    (s t : System)
    → s.heap ≡ t.heap
    → s.handles ≡ t.handles
    → s.next_context ≡ t.next_context
    → IsExclusive s
    → IsExclusive t
same-IsExclusive s t heap_is handles_is next_is x = record {
  one_pool = λ n i. rw (← heap_is, ← handles_is) (x.one_pool n i);
  two_pools = λ n i j ne. rw (← heap_is, ← handles_is) (x.two_pools n i j ne);
  fresh_pooled = λ n i h. rw (← heap_is) (x.fresh_pooled n i (rw next_is h));
  fresh_held = λ n h. rw (← handles_is) (x.fresh_held n (rw next_is h));
}
