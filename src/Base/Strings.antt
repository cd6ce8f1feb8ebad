-- ===== src/Base/Strings.antt =====
-- `std::string` as the list of its bytes, with the operations of the standard library that the
-- extension calls. A literal is `lit "…"`.
use Prim.Native.Nat.{ℕ, zero, suc, ◌+◌, ◌/◌, ◌%◌}
use Prim.Native.Char.{code}
use Prim.Native.String.{String}
use mathlib.Core.Path.{◌≡◌, refl}
use mathlib.Core.Logic.{◌↔◌}
use mathlib.Core.Bool.{Bool, true, false, ◌&&◌, ◌||◌}
use mathlib.Core.Option
use mathlib.Core.Option.{Option, none, some}
use mathlib.Core.List.{List, [], ◌∷◌}
use native.Mathlib.Omega.{arith}
use duckdb_oracle.Base.Tests.{ltb, ◌==◌, if◌then◌else◌}
use duckdb_oracle.Base.Lists.{take, drop}

abbrev pub Text : Type 0
Text = List ℕ

codes : String → Text
codes String.[] = []
codes (String.◌∷◌ c s) = code c ∷ codes s

-- The bytes of a literal.
unfoldable pub lit : String → Text
unfolding codes
lit s = codes s

-- `==` of two strings.
unfoldable pub text_eq : Text → Text → Bool
text_eq [] [] = true
text_eq [] (d ∷ t) = false
text_eq (c ∷ s) [] = false
text_eq (c ∷ s) (d ∷ t) = c == d && text_eq s t

pub text_eq_iff : (s t : Text) → (text_eq s t ≡ true) ↔ (s ≡ t)
unfolding text_eq
text_eq_iff [] [] = (λ _. refl, λ _. refl)
text_eq_iff [] (d ∷ t) = ground arith
text_eq_iff (c ∷ s) [] = ground arith
text_eq_iff (c ∷ s) (d ∷ t) = ground (arith, text_eq_iff s t)

pub text_eq_refl : (s : Text) → text_eq s s ≡ true
text_eq_refl s = (text_eq_iff s s).1 refl

-- `s.empty()`
abbrev pub empty : Text → Bool
empty [] = true
empty (c ∷ s) = false

-- The byte occurs in the text.
abbrev pub has : ℕ → Text → Bool
has c [] = false
has c (d ∷ s) = d == c || has c s

-- The offset of the first occurrence.
abbrev pub index : ℕ → Text → Option ℕ
index c [] = none
index c (d ∷ s) = if d == c then some 0 else Option.map suc (index c s)

-- `s.find(c, pos)`; `none` is `npos`.
abbrev pub find : Text → ℕ → ℕ → Option ℕ
find s c pos = Option.map (λ k. pos + k) (index c (drop pos s))

-- `s.substr(pos, n)` and `s.substr(pos)`, for `pos <= s.size()`.
abbrev pub substr : Text → ℕ → ℕ → Text
substr s pos n = take n (drop pos s)

abbrev pub substr_from : Text → ℕ → Text
substr_from s pos = drop pos s

digits : ℕ → ℕ → Text → Text
digits zero n acc = acc
digits (suc f) n acc =
    let more = digits f (n / 10) ((48 + n % 10) ∷ acc) in if ltb n 10 then (48 + n) ∷ acc else more

-- `std::to_string` of an unsigned number. The fuel is more than the number of digits.
unfoldable pub decimal : ℕ → Text
unfolding digits
decimal n = digits (suc n) n []
