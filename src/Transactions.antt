-- ===== src/Transactions.antt =====
-- `OracleTransactionManager` and `OracleTransaction` of src/storage/oracle_transaction_manager.cpp and
-- src/storage/oracle_transaction.cpp.
-- A transaction is named by its place in `active`. Whether `Acquire` gives a session is an argument, a
-- function of the number of sessions that the transactions hold; so is whether OCI commits.
pub mod Sessions
mod Tests
use duckdb_oracle.Base.{
  ℕ, zero, suc, ◌+◌, ◌-◌, ◌*◌, ◌/◌, ◌%◌, ◌^◌, ◌≤◌, ◌<◌, ◌≡◌, ◌≢◌, ◌↔◌, ◌⊎◌, inl, inr, refl, sym, ap,
  ◌∙◌, subst, Bool, true, false, not, ◌&&◌, ◌||◌, Option, none, some, List, [], ◌∷◌, ◌++◌, map,
  arith, ltb, leb, ◌==◌, if◌then◌else◌, ==_refl, ==_iff, Bool-cases, Option-cases, Result, ok,
  throw, throw_if, >>=-eq-ok, ok-injective, length, get_elem?, take, drop, replicate, length-append,
  take-append_self, drop-append_self, length-replicate, length-map, All, Text, lit, text_eq,
  text_eq_iff, text_eq_refl, empty, has, index, find, substr, substr_from, decimal, ℤ, pos, negsuc,
  to_idx, is_le_zero, is_gt, u64_mod, String,
}
use duckdb_oracle.Connection.{Call, commit, rollback, QueryError, finish_with}

-- Whether the connection of the transaction has a handle.
pub record OracleTransaction : Type 0 where
  pub connected : Bool

pub data TransactionError : Type 0 where
  no_session : TransactionError
  not_finished : QueryError → TransactionError

-- The sessions that the transactions hold.
abbrev pub held : List OracleTransaction → ℕ
held [] = 0
held (t ∷ active) = if t.connected then 1 + held active else held active

-- `StartTransaction`: the new transaction is the last.
unfoldable pub start_transaction : List OracleTransaction → List OracleTransaction
start_transaction active = active ++ (record { connected = false } ∷ [])

-- `GetConnection` connects transaction `i`.
abbrev pub connect_at : ℕ → List OracleTransaction → List OracleTransaction
connect_at i [] = []
connect_at zero (t ∷ active) = record { connected = true } ∷ active
connect_at (suc i) (t ∷ active) = t ∷ connect_at i active

abbrev pub is_connected : Option OracleTransaction → Bool
is_connected none = false
is_connected (some t) = t.connected

abbrev pub transaction_result : Result QueryError (Unit {0}) → Result TransactionError (Unit {0})
transaction_result (ok done) = ok done
transaction_result (throw problem) = throw (not_finished problem)

module _ (acquires : ℕ → Bool) (succeeds : Call → Bool) where
  -- `GetConnection().Commit()` or `GetConnection().Rollback()`.
  unfoldable pub end_transaction :
      Call
      → ℕ
      → List OracleTransaction
      → List OracleTransaction × Result TransactionError (Unit {0})
  end_transaction call i active =
      if is_connected (get_elem? active i)
      then (active, transaction_result (finish_with call true succeeds))
      else if acquires (held active)
      then (connect_at i active, transaction_result (finish_with call true succeeds))
      else (active, throw no_session)

  -- `CommitTransaction`; the exception is the `ErrorData` that it returns.
  unfoldable pub commit_transaction :
      ℕ → List OracleTransaction → List OracleTransaction × Result TransactionError (Unit {0})
  unfolding end_transaction
  commit_transaction i active = end_transaction commit i active

  -- `RollbackTransaction`; an exception is dropped.
  unfoldable pub rollback_transaction : ℕ → List OracleTransaction → List OracleTransaction
  unfolding end_transaction
  rollback_transaction i active = (end_transaction rollback i active).0

  -- A transaction after another, each started and committed.
  unfoldable pub commit_each :
      ℕ → List OracleTransaction → List (Result TransactionError (Unit {0}))
  unfolding commit_transaction start_transaction
  commit_each zero active = []
  commit_each (suc n) active =
      let done = commit_transaction (length active) (start_transaction active) in
      done.1 ∷ commit_each n done.0
