-- ===== src/Transactions/Tests.antt =====
-- Two sessions, and three transactions.
use duckdb_oracle.Base.{◌+◌, ◌≡◌, refl, true, [], ◌++◌, ltb, ok, throw, replicate}
use duckdb_oracle.Transactions.{no_session, commit_each}
use duckdb_oracle.Transactions.Sessions.{commit_each-limit}

commit_each-limit_example :
    commit_each (λ n. ltb n 2) (λ call. true) (2 + 1) []
    ≡ replicate 2 (ok tt) ++ replicate 1 (throw no_session)
commit_each-limit_example = commit_each-limit (λ n. ltb n 2) (λ call. true) 2 1 (λ n. refl) refl
