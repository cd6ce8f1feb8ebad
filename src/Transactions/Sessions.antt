-- ===== src/Transactions/Sessions.antt =====
-- The sessions that the transactions of src/storage/oracle_transaction_manager.cpp keep.
use native.Mathlib.Nat.{zero-add, suc-add}
use duckdb_oracle.Base.{
  if_true, sym, zero, ◌+◌, subst, if_false, ◌∙◌, throw, ok, replicate, ◌≤◌, ltb, Bool, ℕ, suc, ◌+◌,
  ◌≡◌, refl, ap, true, false, some, List, [], ◌∷◌, ◌++◌, arith, if◌then◌else◌, length, get_elem?,
}
use duckdb_oracle.Transactions.{
  no_session, end_transaction, commit_transaction, commit_each, commit, Call, OracleTransaction,
  held, start_transaction, connect_at,
}

abbrev idle : OracleTransaction
idle = record { connected = false }

abbrev busy : OracleTransaction
busy = record { connected = true }

held-start : (active : List OracleTransaction) → held (start_transaction active) ≡ held active
unfolding start_transaction
held-start [] = refl
held-start (t ∷ active) = ap (λ n. if t.connected then 1 + n else n) (held-start active)

get-start :
    (active : List OracleTransaction)
    → get_elem? (start_transaction active) (length active) ≡ some idle
unfolding start_transaction
get-start [] = refl
get-start (t ∷ active) = get-start active

connect_at-start :
    (active : List OracleTransaction)
    → connect_at (length active) (start_transaction active) ≡ active ++ (busy ∷ [])
unfolding start_transaction
connect_at-start [] = refl
connect_at-start (t ∷ active) = ap (◌∷◌ t) (connect_at-start active)

held-busy : (active : List OracleTransaction) → held (active ++ (busy ∷ [])) ≡ suc (held active)
held-busy [] = omega arith
held-busy (t ∷ active) = let h = held-busy active in ground (arith, h)

module _ (acquires : ℕ → Bool) (succeeds : Call → Bool) (limit : ℕ)
    (bounded : (n : ℕ) → acquires n ≡ ltb n limit) (commits : succeeds commit ≡ true) where
  new_commit :
      (active : List OracleTransaction)
      → commit_transaction acquires succeeds (length active) (start_transaction active) ≡ (
          if ltb (held active) limit
          then (active ++ (busy ∷ []), ok tt)
          else (start_transaction active, throw no_session))
  unfolding commit_transaction end_transaction
  new_commit active =
      rw
        (
          get-start active,
          held-start active,
          connect_at-start active,
          bounded (held active),
          commits,
        )
        refl

  commit_refused :
      (extra : ℕ) (active : List OracleTransaction)
      → limit ≤ held active
      → commit_each acquires succeeds extra active ≡ replicate extra (throw no_session)
  unfolding commit_each
  commit_refused zero active h = refl
  commit_refused (suc extra) active h =
      let full : ltb (held active) limit ≡ false = ground arith in
      let done = new_commit active ∙ if_false _ _ full in
      let still = subst (λ n. limit ≤ n) (sym (held-start active)) h in
      ap (λ r. r.1 ∷ commit_each acquires succeeds extra r.0) done
      ∙ ap (◌∷◌ (throw no_session)) (commit_refused extra (start_transaction active) still)

  commits_then_refused :
      (room extra : ℕ) (active : List OracleTransaction)
      → held active + room ≡ limit
      → commit_each acquires succeeds (room + extra) active
        ≡ replicate room (ok tt) ++ replicate extra (throw no_session)
  unfolding commit_each
  commits_then_refused zero extra active h =
      subst (λ n. commit_each acquires succeeds n active ≡ replicate extra (throw no_session))
        (sym (zero-add extra)) (commit_refused extra active (omega (arith, h)))
  commits_then_refused (suc room) extra active h =
      let free : ltb (held active) limit ≡ true = ground arith in
      let done = new_commit active ∙ if_true _ _ free in
      let less : held (active ++ (busy ∷ [])) + room ≡ limit = omega (arith, held-busy active, h) in
      subst
        (λ n.
          commit_each acquires succeeds n active
          ≡ ok tt ∷ (replicate room (ok tt) ++ replicate extra (throw no_session)))
        (sym (suc-add room extra))
        (ap (λ r. r.1 ∷ commit_each acquires succeeds (room + extra) r.0) done
          ∙ ap (◌∷◌ (ok tt)) (commits_then_refused room extra (active ++ (busy ∷ [])) less))

-- The manager keeps each transaction, and with it its session, after its end. So where a session is
-- given only while fewer than `limit` of them are held, and OCI commits whatever it is asked to, the
-- first `limit` transactions that are started and committed one after another succeed, and each one
-- after them fails for want of a session.
pub commit_each-limit :
    (acquires : ℕ → Bool) (succeeds : Call → Bool) (limit extra : ℕ)
    → ((n : ℕ) → acquires n ≡ ltb n limit)
    → succeeds commit ≡ true
    → commit_each acquires succeeds (limit + extra) []
      ≡ replicate limit (ok tt) ++ replicate extra (throw no_session)
commit_each-limit acquires succeeds limit extra bounded commits =
    commits_then_refused acquires succeeds limit bounded commits limit extra [] (zero-add limit)
