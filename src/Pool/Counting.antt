-- ===== src/Pool/Counting.antt =====
-- Counting the entries of a list that pass a test, as an entry is taken out.
use duckdb_oracle.Base.{
  subst, ℕ, zero, suc, ◌+◌, ◌≡◌, Bool, some, List, [], ◌∷◌, arith, if◌then◌else◌, get_elem?, All,
}
use duckdb_oracle.Pool.{remove_at}

abbrev pub count {ℓ} : {A : Type ℓ} → (A → Bool) → List A → ℕ
count p [] = 0
count p (x ∷ xs) = (if p x then 1 else 0) + count p xs

module _ {ℓ} {A : Type ℓ} where
  pub count-remove_at :
      (p : A → Bool) (xs : List A) (k : ℕ) (x : A)
      → get_elem? xs k ≡ some x
      → count p xs ≡ (if p x then 1 else 0) + count p (remove_at xs k)
  count-remove_at p [] k x e = ground arith
  count-remove_at p (y ∷ ys) zero x e = ground arith
  count-remove_at p (y ∷ ys) (suc k) x e = ground (arith, count-remove_at p ys k x e)

  pub All-remove_at {κ} : (P : A → Type κ) (xs : List A) (k : ℕ) → All P xs → All P (remove_at xs k)
  All-remove_at P [] k h = h
  All-remove_at P (y ∷ ys) zero h = h.1
  All-remove_at P (y ∷ ys) (suc k) h = (h.0, All-remove_at P ys k h.1)

  pub All-get_elem? {κ} :
      (P : A → Type κ) (xs : List A) (k : ℕ) (x : A) → get_elem? xs k ≡ some x → All P xs → P x
  All-get_elem? P [] k x e h = cc
  All-get_elem? P (y ∷ ys) zero x e h = subst P (ground arith) h.0
  All-get_elem? P (y ∷ ys) (suc k) x e h = All-get_elem? P ys k x e h.1

pub All-map {ℓ κ μ} :
    {A : Type ℓ} {P : A → Type κ} {Q : A → Type μ} (xs : List A)
    → ((x : A) → P x → Q x)
    → All P xs
    → All Q xs
All-map [] f a = tt
All-map (x ∷ xs) f a = (f x a.0, All-map xs f a.1)
