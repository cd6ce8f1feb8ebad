-- ===== src/Pushdown/Rows.antt =====
-- The rows of a query are the same with and without the pushdown of src/oracle_extension.cpp.
use duckdb_oracle.Base.{
  ◌<◌, length, sym, ◌∙◌, zero, suc, text_eq_iff, false, some, text_eq, if◌then◌else◌, none, All,
  get_elem?, ℕ, ◌≡◌, inl, inr, refl, ap, ◌&&◌, Option, List, [], ◌∷◌, map, arith, Option-cases,
  Text,
}
use duckdb_oracle.Duckdb.{Strings}
use duckdb_oracle.Pushdown.{Expression, try_extract, split_filters}
use duckdb_oracle.Pushdown.Meaning.{
  Domain, DomainLaws, Clause, render, keeps_all, selects_all, SameRow, IsBound, seen, IsTableOrder,
  column_of,
}
use duckdb_oracle.Pushdown.Split.{try_extract-Translates}

-- The row of the base query by column name, for a row of DuckDB by column number.
abbrev pub named_row : {A : Type 0} → List Text → (ℕ → Option A) → Text → Option A
named_row [] row name = none
named_row (n ∷ names) row name =
    if text_eq n name then row 0 else named_row names (λ i. row (suc i)) name

-- No two columns have one name.
abbrev pub AreDistinct : List Text → Type 0
AreDistinct [] = Unit {0}
AreDistinct (n ∷ names) = All (λ m. text_eq n m ≡ false) names × AreDistinct names

All-get :
    (n : Text) (names : List Text) (i : ℕ) (name : Text)
    → All (λ m. text_eq n m ≡ false) names
    → get_elem? names i ≡ some name
    → text_eq n name ≡ false
All-get n [] i name h e = cc
All-get n (m ∷ names) zero name h e = ground (arith, h.0)
All-get n (m ∷ names) (suc i) name h e = All-get n names i name h.1 e

pub named_row-get :
    {A : Type 0} (names : List Text) (row : ℕ → Option A) (i : ℕ) (name : Text)
    → AreDistinct names
    → get_elem? names i ≡ some name
    → named_row names row name ≡ row i
named_row-get [] row i name h e = cc
named_row-get (n ∷ names) row zero name h e =
    let same : n ≡ name = ground arith in rw ((text_eq_iff n name).1 same)
named_row-get (n ∷ names) row (suc i) name h e =
    rw (All-get n names i name h.0 e) (named_row-get names (λ k. row (suc k)) i name h.1 e)

get-below_length {ℓ} :
    {A : Type ℓ} (xs : List A) (i : ℕ) → i < length xs → (x : A) × (get_elem? xs i ≡ some x)
get-below_length [] i below = ground arith
get-below_length (x ∷ xs) zero below = (x, refl)
get-below_length (x ∷ xs) (suc i) below = get-below_length xs i (omega arith)

seen-own :
    {A : Type 0} (column_ids : List ℕ) (row : ℕ → Option A) (i : ℕ)
    → IsTableOrder column_ids
    → i < length column_ids
    → seen column_ids row i ≡ row i
seen-own column_ids row i order below =
    let (k, at) = get-below_length column_ids i below in
    ap (λ o. elim o [ none ↦ none | some column ↦ row column ]) at ∙ ap row (order i k at)

-- In table order, a binding is the column of Oracle that has the name at its place.
pub named_row-SameRow :
    {V : Type 0} (dom : Domain V) (column_ids : List ℕ) (names : List Text) (row : ℕ → Option dom.D)
    → IsTableOrder column_ids
    → AreDistinct names
    → SameRow dom (length column_ids) names (seen column_ids row) (named_row names row)
named_row-SameRow dom column_ids names row order distinct = record {
  same_column = λ i name below at.
      named_row-get names row i name distinct at ∙ sym (seen-own column_ids row i order below);
}

module _ {V : Type 0} (dom : Domain V) (laws : DomainLaws dom) (str : Strings)
    (to_sql : V → Text) where
  open dom use {D}

  -- The conditions with these texts are on columns; and for filters that are bound, they and the
  -- filters that remain, together are the filters `es`.
  pub record Splits (width : ℕ) (names : List Text) (es : List (Expression V))
      (out : List Text × List (Expression V)) : Type 0 where
    pub conditions : List (Clause V)
    pub texts : out.0 ≡ map (render str to_sql) conditions
    pub on_columns :
        All (λ condition. (i : ℕ) × (get_elem? names i ≡ some (column_of condition))) conditions
    pub together :
        All (IsBound width) es
        → (row : ℕ → Option D) (named : Text → Option D) → SameRow dom width names row named
        → (selects_all dom conditions named && keeps_all dom out.1 row) ≡ keeps_all dom es row

  pub split_filters-Splits :
      (width : ℕ) (names : List Text) (es : List (Expression V))
      → Splits width names es (split_filters str to_sql names es)
  unfolding split_filters selects_all keeps_all
  split_filters-Splits width names [] = record {
    conditions = [];
    texts = refl;
    on_columns = tt;
    together = λ bound row named same. refl;
  }
  split_filters-Splits width names (e ∷ es) =
      let ih = split_filters-Splits width names es in
      elim (Option-cases (try_extract str to_sql names e)) [
        | inl left ↦
            rw (left, split_filters)
              (record {
                conditions = ih.conditions;
                texts = ih.texts;
                on_columns = ih.on_columns;
                together =
                    λ bound row named same. ground (arith, ih.together bound.1 row named same);
              })
        | inr (t, pushed) ↦
            let one = try_extract-Translates dom laws str to_sql width names e t pushed in
            rw (pushed, split_filters)
              (record {
                conditions = one.condition ∷ ih.conditions;
                texts = cc (one.text_is, ih.texts);
                on_columns = (one.on_column, ih.on_columns);
                together = λ bound row named same.
                    ground (
                      arith,
                      ih.together bound.1 row named same,
                      one.agrees bound.0 row named same,
                    );
              })
      ]
