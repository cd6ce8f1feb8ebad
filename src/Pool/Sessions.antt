-- ===== src/Pool/Sessions.antt =====
-- Whose session a handle holds. A pool is keyed by the connection string, password included, so a
-- session must not pass from one string to another.
pub mod History
use duckdb_oracle.Base.{
  ℕ, ◌<◌, ◌≡◌, Option, none, some, List, arith, All, ◌==◌, Text, text_eq_iff, Bool-cases, inl, inr,
}
use duckdb_oracle.Pool.Counting.{All-map}
use duckdb_oracle.Pool.{
  put_pool, System, OracleConnectionPool, Handle, Pending, Waiter, init, add_pool,
}

-- Pool `i` exists and was made for `c`.
abbrev pub IsPoolOf : System → ℕ → Text → Type 0
IsPoolOf s i c = (i < s.next_pool) × ((s.heap i).key ≡ c)

abbrev pub MayBePoolOf : System → Option ℕ → Text → Type 0
MayBePoolOf s none c = Unit {0}
MayBePoolOf s (some i) c = IsPoolOf s i c

abbrev pub HandleFits : System → Handle → Type 0
HandleFits s h = (h.ctx.opened_with ≡ h.asked) × MayBePoolOf s h.pool h.asked

abbrev pub PendingFits : System → Pending → Type 0
PendingFits s p = MayBePoolOf s p.pool p.asked

abbrev pub WaiterFits : System → Waiter → Type 0
WaiterFits s w = IsPoolOf s w.pool w.asked

pub record Owned (s : System) : Type 0 where
  pub idle_owned : (i : ℕ) → All (λ ctx. ctx.opened_with ≡ (s.heap i).key) (s.heap i).idle
  pub handles_owned : All (HandleFits s) s.handles
  pub pending_owned : All (PendingFits s) s.pending
  pub waiting_owned : All (WaiterFits s) s.waiting
  pub mapped_owned : (c : Text) (i : ℕ) → s.pools c ≡ some i → IsPoolOf s i c

-- `t` keeps the pools of `s` and their keys.
record Keeps (s t : System) : Type 0 where
  keeps_pool : (i : ℕ) (c : Text) → IsPoolOf s i c → IsPoolOf t i c

module _ (s t : System) (k : Keeps s t) where
  MayBePoolOf-keep : (o : Option ℕ) (c : Text) → MayBePoolOf s o c → MayBePoolOf t o c
  MayBePoolOf-keep none c h = tt
  MayBePoolOf-keep (some i) c h = k.keeps_pool i c h

  handles-keep : (hs : List Handle) → All (HandleFits s) hs → All (HandleFits t) hs
  handles-keep hs = All-map hs (λ h f. (f.0, MayBePoolOf-keep h.pool h.asked f.1))

  pending-keep : (ps : List Pending) → All (PendingFits s) ps → All (PendingFits t) ps
  pending-keep ps = All-map ps (λ p f. MayBePoolOf-keep p.pool p.asked f)

  waiting-keep : (ws : List Waiter) → All (WaiterFits s) ws → All (WaiterFits t) ws
  waiting-keep ws = All-map ws (λ w f. k.keeps_pool w.pool w.asked f)

pub init-Owned : Owned init
unfolding init
init-Owned = record {
  idle_owned = λ i. tt;
  handles_owned = tt;
  pending_owned = tt;
  waiting_owned = tt;
  mapped_owned = λ c i e. cc;
}

module _ (s : System) (o : Owned s) where
  add_pool-Keeps : (c : Text) → Keeps s (add_pool s c)
  unfolding add_pool
  add_pool-Keeps c = record { keeps_pool = λ i d h. ground arith }

  add_pool-idle :
      (c : Text) (j : ℕ)
      → All (λ ctx. ctx.opened_with ≡ ((add_pool s c).heap j).key) ((add_pool s c).heap j).idle
  unfolding add_pool
  add_pool-idle c j = elim (Bool-cases (j == s.next_pool)) [
    | inl e ↦ rw e tt
    | inr e ↦ rw e (o.idle_owned j)
  ]

  pub add_pool-Owned : (c : Text) → Owned (add_pool s c)
  unfolding add_pool
  add_pool-Owned c =
      let k = add_pool-Keeps c in
      record {
        idle_owned = add_pool-idle c;
        handles_owned = handles-keep s _ k s.handles o.handles_owned;
        pending_owned = pending-keep s _ k s.pending o.pending_owned;
        waiting_owned = waiting-keep s _ k s.waiting o.waiting_owned;
        mapped_owned = λ d i e. ground (arith, o.mapped_owned d i, text_eq_iff c d);
      }

  -- An update of a pool that keeps its key.
  put_pool-Keeps :
      (i : ℕ) (p : OracleConnectionPool) → p.key ≡ (s.heap i).key → Keeps s (put_pool s i p)
  put_pool-Keeps i p e = record { keeps_pool = λ j d h. ground arith }

  put_pool-Owned :
      (i : ℕ) (p : OracleConnectionPool)
      → p.key ≡ (s.heap i).key
      → All (λ ctx. ctx.opened_with ≡ p.key) p.idle
      → Owned (put_pool s i p)
  put_pool-Owned i p e h =
      let k = put_pool-Keeps i p e in
      record {
        idle_owned = λ j. elim (Bool-cases (j == i)) [
          | inl hit ↦ rw hit h
          | inr miss ↦ rw miss (o.idle_owned j)
        ];
        handles_owned = handles-keep s _ k s.handles o.handles_owned;
        pending_owned = pending-keep s _ k s.pending o.pending_owned;
        waiting_owned = waiting-keep s _ k s.waiting o.waiting_owned;
        mapped_owned = λ d j e. k.keeps_pool j d (o.mapped_owned d j e);
      }
