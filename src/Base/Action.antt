-- ===== src/Base/Action.antt =====
-- Code that changes a state and may throw; what it changed before it threw stays.
use mathlib.Core.Path.{◌≡◌, refl}
use duckdb_oracle.Base.Tests.{Result, ok, throw}

abbrev pub Action {ℓ κ μ} : Type ℓ → Type κ → Type μ → Type (ℓ ⊔ κ ⊔ μ)
Action S E A = S → S × Result E A

abbrev pub and_then {ℓ κ μ ν} :
    {S : Type ℓ} {E : Type κ} {A : Type μ} {B : Type ν}
    → S × Result E A
    → (A → Action S E B)
    → S × Result E B
and_then (s, throw problem) next = (s, throw problem)
and_then (s, ok value) next = next value s

infixl 5 ◌>>=◌ ◌>>◌
abbrev pub ◌>>=◌ {ℓ κ μ ν} :
    {S : Type ℓ} {E : Type κ} {A : Type μ} {B : Type ν}
    → Action S E A
    → (A → Action S E B)
    → Action S E B
(action >>= next) s = and_then (action s) next

abbrev pub ◌>>◌ {ℓ κ μ} :
    {S : Type ℓ} {E : Type κ} {B : Type μ} → Action S E (Unit {0}) → Action S E B → Action S E B
(action >> later) s = and_then (action s) (λ _. later)

abbrev pub returns {ℓ κ μ} : {S : Type ℓ} {E : Type κ} {A : Type μ} → A → Action S E A
returns a s = (s, ok a)

abbrev pub throws {ℓ κ μ} : {S : Type ℓ} {E : Type κ} {A : Type μ} → E → Action S E A
throws e s = (s, throw e)

-- The state, and a part of it.
abbrev pub reads {ℓ κ μ} : {S : Type ℓ} {E : Type κ} {A : Type μ} → (S → A) → Action S E A
reads part s = (s, ok (part s))

abbrev pub changes {ℓ κ} : {S : Type ℓ} {E : Type κ} → (S → S) → Action S E (Unit {0})
changes f s = (f s, ok tt)

-- `try { … } catch (…) { … }`
abbrev pub handled {ℓ κ μ} :
    {S : Type ℓ} {E : Type κ} {A : Type μ} → S × Result E A → Action S E A → S × Result E A
handled (s, ok value) handler = (s, ok value)
handled (s, throw problem) handler = handler s

abbrev pub catch_all {ℓ κ μ} :
    {S : Type ℓ} {E : Type κ} {A : Type μ} → Action S E A → Action S E A → Action S E A
catch_all action handler s = handled (action s) handler

-- Where the whole returns, so did the first part.
pub and_then-eq-ok {ℓ κ μ ν} :
    {S : Type ℓ} {E : Type κ} {A : Type μ} {B : Type ν} (first : S × Result E A)
    (next : A → Action S E B) {t : S} {b : B}
    → and_then first next ≡ (t, ok b)
    → (a : A) × (first ≡ (first.0, ok a)) × (next a first.0 ≡ (t, ok b))
and_then-eq-ok (s, throw problem) next h = cc
and_then-eq-ok (s, ok a) next h = (a, refl, h)
