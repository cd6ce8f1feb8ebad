-- ===== src/Base/Joined.antt =====
-- Lists of SQL items, as the loops of src/storage/ write them.
use mathlib.Core.Path.{◌≡◌, sym, ap}
use mathlib.Core.List.{List, [], ◌∷◌, ◌++◌, append-nil}
use duckdb_oracle.Base.Strings.{Text, lit}

-- Texts with a comma and a blank between them.
abbrev pub separated : List Text → Text
separated [] = []
separated (t ∷ []) = t
separated (t ∷ u ∷ ts) = t ++ (lit ", " ++ separated (u ∷ ts))

-- What stands after the first text.
abbrev pub continued : List Text → Text
continued [] = []
continued (t ∷ ts) = lit ", " ++ (t ++ continued ts)

pub separated-continued : (t : Text) (ts : List Text) → separated (t ∷ ts) ≡ t ++ continued ts
separated-continued t [] = sym (append-nil t)
separated-continued t (u ∷ ts) = ap (λ s. t ++ (lit ", " ++ s)) (separated-continued u ts)
