-- ===== src/Pool/Service.antt =====
-- What a thread that calls `Acquire` of src/oracle_connection_manager.cpp gets.
use Prim.Native.Nat.{max}
use duckdb_oracle.Base.{
  inr, ==_refl, text_eq_refl, ◌∙◌, inl, Option-cases, true, ℕ, ◌≡◌, Option, none, some, arith, Text,
}
use duckdb_oracle.Pool.{
  acquires, add_pool, raise_limit, acquire_cached, System, reuse, reserve, wait, attempt, step,
  default_limit,
}

-- The pool's limit as the caller finds it.
abbrev pub limit_of : System → Option ℕ → ℕ
limit_of s none = default_limit
limit_of s (some i) = (s.heap i).limit

limit-attempt :
    (s : System) (i : ℕ) (c : Text) (j : ℕ) → ((attempt s i c).heap j).limit ≡ (s.heap j).limit
unfolding attempt reuse reserve wait
limit-attempt s i c j = ground arith

pools-attempt : (s : System) (i : ℕ) (c d : Text) → (attempt s i c).pools d ≡ s.pools d
unfolding attempt reuse reserve wait
pools-attempt s i c d = ground arith

limit-raise_limit :
    (s : System) (i l : ℕ) → ((raise_limit s i l).heap i).limit ≡ max (s.heap i).limit l
unfolding raise_limit
limit-raise_limit s i l = ground arith

pools-raise_limit : (s : System) (i l : ℕ) (d : Text) → (raise_limit s i l).pools d ≡ s.pools d
unfolding raise_limit
pools-raise_limit s i l d = ground arith

-- A cached acquisition finds the pool of its connection string or makes one with limit 8, and raises
-- that pool's limit to the caller's `connection_limit`; a smaller setting leaves the limit as it is.
pub acquire-limit :
    (s : System) (c : Text) (l : ℕ)
    → let t = step s (acquires c true l) in
      (i : ℕ) × (t.pools c ≡ some i) × ((t.heap i).limit ≡ max (limit_of s (s.pools c)) l)
unfolding step acquire_cached add_pool
acquire-limit s c l = elim (Option-cases (s.pools c)) [
  | inl e ↦
      let i = s.next_pool in
      let grown = add_pool s c in
      rw (e, acquire_cached)
        (
          i,
          pools-attempt (raise_limit grown i l) i c c
              ∙ pools-raise_limit grown i l c
              ∙ rw text_eq_refl,
          limit-attempt (raise_limit grown i l) i c i ∙ limit-raise_limit grown i l ∙ rw ==_refl,
        )
  | inr (i, e) ↦
      rw (e, acquire_cached)
        (
          i,
          pools-attempt (raise_limit s i l) i c c ∙ pools-raise_limit s i l c ∙ e,
          limit-attempt (raise_limit s i l) i c i ∙ limit-raise_limit s i l,
        )
]
