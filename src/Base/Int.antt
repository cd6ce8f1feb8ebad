-- ===== src/Base/Int.antt =====
-- `int64_t` values, and their cast to the unsigned `idx_t`.
use Prim.Native.Nat.{ℕ, suc, ◌-◌, ◌^◌}
use mathlib.Core.Bool.{Bool, true, false}
use duckdb_oracle.Base.Tests.{ltb, leb}

-- `negsuc n` is -(n + 1).
pub data ℤ : Type 0 where
  pos : ℕ → ℤ
  negsuc : ℕ → ℤ

abbrev pub u64_mod : ℕ
u64_mod = 2 ^ 64

-- `static_cast<idx_t>(val)`: a negative number wraps round.
unfoldable pub to_idx : ℤ → ℕ
to_idx (pos n) = n
to_idx (negsuc n) = u64_mod - suc n

-- `val <= 0`
abbrev pub is_le_zero : ℤ → Bool
is_le_zero (pos n) = leb n 0
is_le_zero (negsuc n) = true

-- `val > k` for a `k` that is not negative.
abbrev pub is_gt : ℤ → ℕ → Bool
is_gt (pos n) k = ltb k n
is_gt (negsuc n) k = false
