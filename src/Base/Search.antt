-- ===== src/Base/Search.antt =====
-- Facts about the first occurrence of a byte.
use Prim.Native.Nat.{ℕ, zero, suc, ◌+◌}
use mathlib.Core.Path.{◌≡◌, refl, ap, subst}
use mathlib.Core.Logic.{inl, inr}
use mathlib.Core.Bool.{false, ◌||◌}
use mathlib.Core.Option.{none, some}
use mathlib.Core.List.{List, [], ◌∷◌, ◌++◌}
use native.Mathlib.Omega.{arith}
use native.Mathlib.Nat.{zero-add, suc-add}
use duckdb_oracle.Base.Tests.{◌==◌, Bool-cases, Option-cases}
use duckdb_oracle.Base.Lists.{length, drop}
use duckdb_oracle.Base.Strings.{Text, has, index}

pub has-append : (c : ℕ) (s t : Text) → has c (s ++ t) ≡ has c s || has c t
has-append c [] t = refl
has-append c (d ∷ s) t = ground (arith, has-append c s t)

pub index-append : (c : ℕ) (s t : Text) → has c s ≡ false → index c (s ++ c ∷ t) ≡ some (length s)
index-append c [] t h = ground arith
index-append c (d ∷ s) t h = ground (arith, index-append c s t)

pub index_free : (c : ℕ) (s : Text) → has c s ≡ false → index c s ≡ none
index_free c [] h = refl
index_free c (d ∷ s) h = ground (arith, index_free c s)

pub index-none : (c : ℕ) (s : Text) → index c s ≡ none → has c s ≡ false
index-none c [] h = refl
index-none c (d ∷ s) h = ground (arith, index-none c s)

-- What a hit says of the text.
pub record Hit (c : ℕ) (s : Text) (k : ℕ) : Type 0 where
  pub before : Text
  pub after : Text
  pub splits : s ≡ before ++ c ∷ after
  pub free : has c before ≡ false
  pub at : length before ≡ k

Hit-cons : (c d : ℕ) (s : Text) (k : ℕ) → (d == c) ≡ false → Hit c s k → Hit c (d ∷ s) (suc k)
Hit-cons c d s k ne h = record {
  before = d ∷ h.before;
  after = h.after;
  splits = ap (◌∷◌ d) h.splits;
  free = ground (arith, h.free);
  at = ap suc h.at;
}

pub index-Hit : (c : ℕ) (s : Text) (k : ℕ) → index c s ≡ some k → Hit c s k
index-Hit c [] k e = cc
index-Hit c (d ∷ s) k e = elim (Bool-cases (d == c)) [
  | inl hit ↦ record {
    before = [];
    after = s;
    splits = ground arith;
    free = refl;
    at = ground arith;
  }
  | inr miss ↦ elim (Option-cases (index c s)) [
    | inl none_left ↦ ground arith
    | inr (j, found) ↦
        subst (Hit c (d ∷ s)) (ground arith) (Hit-cons c d s j miss (index-Hit c s j found))
  ]
]

pub drop-add {ℓ} : {A : Type ℓ} (m n : ℕ) (s : List A) → drop (m + n) s ≡ drop n (drop m s)
drop-add zero n s = rw zero-add
drop-add (suc m) zero [] = rw suc-add
drop-add (suc m) (suc n) [] = rw suc-add
drop-add (suc m) n (d ∷ s) = rw suc-add (drop-add m n s)
