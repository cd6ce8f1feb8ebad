-- ===== src/Pushdown/Split.antt =====
-- Pushing filters down in src/oracle_extension.cpp does not change which rows a query returns.
use duckdb_oracle.Base.{
  ℕ, ◌<◌, ◌⊎◌, ◌≡◌, inl, inr, refl, sym, ap, ◌∙◌, Option, none, some, List, arith, Option-cases,
  get_elem?, Text,
}
use duckdb_oracle.Duckdb.{Strings}
use duckdb_oracle.Pushdown.{
  Comparison, Expression, constant, bound_ref, bound_column_ref, comparison, is_null, column_index,
  constant_of, comparison_parts, column_name, try_extract_comparison, try_extract_is_null,
  try_extract, comparison_clause, is_null_clause,
}
use duckdb_oracle.Pushdown.Meaning.{
  Domain, DomainLaws, Clause, compares, tests_null, render, eval, keeps, selects, SameRow, IsBound,
  Below, Below-column, column_of, compare_values, compare_values-flip, absent,
}

column_name-get :
    (names : List Text) (i : ℕ) (name : Text)
    → column_name names i ≡ some name
    → get_elem? names i ≡ some name
unfolding column_name
column_name-get names i name e = ground arith

module _ {V : Type 0} (dom : Domain V) (laws : DomainLaws dom) (str : Strings) (to_sql : V → Text)
    (width : ℕ) (names : List Text) where
  open dom use {D, value_of}

  -- A condition on one of the columns has this text and keeps the rows that the filter `e` keeps.
  pub record Translates (e : Expression V) (t : Text) : Type 0 where
    pub condition : Clause V
    pub text_is : t ≡ render str to_sql condition
    pub on_column : (i : ℕ) × (get_elem? names i ≡ some (column_of condition))
    pub agrees :
        IsBound width e
        → (row : ℕ → Option D) (named : Text → Option D) → SameRow dom width names row named
        → selects dom condition named ≡ keeps dom e row

  eval-column :
      (e : Expression V) (i : ℕ) (row : ℕ → Option D)
      → column_index e ≡ some i
      → eval dom e row ≡ row i
  unfolding column_index eval
  eval-column (bound_ref j) i row e = ground arith
  eval-column (bound_column_ref j) i row e = ground arith
  eval-column _ i row e = cc

  eval-constant :
      (e : Expression V) (c : V) (row : ℕ → Option D)
      → constant_of e ≡ some c
      → eval dom e row ≡ value_of c
  unfolding constant_of eval
  eval-constant (constant d) c row e = ground arith
  eval-constant _ c row e = cc

  parts-means :
      (op : Comparison) (lc : Option ℕ) (lk : Option V) (rc : Option ℕ) (rk : Option V)
      (op' : Comparison) (i : ℕ) (c : V) (row : ℕ → Option D) (l r : Option D)
      → ((j : ℕ) → lc ≡ some j → l ≡ row j)
      → ((d : V) → lk ≡ some d → l ≡ value_of d)
      → ((j : ℕ) → rc ≡ some j → r ≡ row j)
      → ((d : V) → rk ≡ some d → r ≡ value_of d)
      → comparison_parts op lc lk rc rk ≡ some (op', i, c)
      → compare_values dom op' (row i) (value_of c) ≡ compare_values dom op l r
  unfolding comparison_parts
  parts-means op (some j) lk rc (some d) op' i c row l r hlc hlk hrc hrk e =
      cc (hlc j refl, hrk d refl)
  parts-means op none (some d) (some j) rk op' i c row l r hlc hlk hrc hrk e =
      cc (hlk d refl, hrc j refl, compare_values-flip dom laws op (row j) (value_of d))
  parts-means op (some k) (some d) (some j) none op' i c row l r hlc hlk hrc hrk e =
      cc (hlk d refl, hrc j refl, compare_values-flip dom laws op (row j) (value_of d))
  parts-means op none none rc rk op' i c row l r hlc hlk hrc hrk e = ground arith
  parts-means op none (some d) none rk op' i c row l r hlc hlk hrc hrk e = ground arith
  parts-means op (some k) none rc none op' i c row l r hlc hlk hrc hrk e = ground arith
  parts-means op (some k) (some d) none none op' i c row l r hlc hlk hrc hrk e = ground arith

  -- The column is one of the two operands.
  parts-column :
      (op : Comparison) (lc : Option ℕ) (lk : Option V) (rc : Option ℕ) (rk : Option V)
      (op' : Comparison) (i : ℕ) (c : V)
      → comparison_parts op lc lk rc rk ≡ some (op', i, c)
      → (lc ≡ some i) ⊎ (rc ≡ some i)
  unfolding comparison_parts
  parts-column op (some j) lk rc (some d) op' i c e = inl (ground arith)
  parts-column op none (some d) (some j) rk op' i c e = inr (ground arith)
  parts-column op (some k) (some d) (some j) none op' i c e = inr (ground arith)
  parts-column op none none rc rk op' i c e = ground arith
  parts-column op none (some d) none rk op' i c e = ground arith
  parts-column op (some k) none rc none op' i c e = ground arith
  parts-column op (some k) (some d) none none op' i c e = ground arith

  operand-Below :
      (left right : Expression V) (i : ℕ)
      → Below width left × Below width right
      → (column_index left ≡ some i) ⊎ (column_index right ≡ some i)
      → i < width
  operand-Below left right i bound (inl e) = Below-column width left i bound.0 e
  operand-Below left right i bound (inr e) = Below-column width right i bound.1 e

  clause_parts :
      (p : Option (Comparison × ℕ × V)) (t : Text)
      → comparison_clause str to_sql names p ≡ some t
      → (op : Comparison) × (i : ℕ) × (c : V) × (name : Text) × (p ≡ some (op, i, c))
        × (get_elem? names i ≡ some name)
        × (t ≡ render str to_sql (compares name op c))
  unfolding render
  clause_parts none t e = ground arith
  clause_parts (some (op, i, c)) t e = elim (Option-cases (column_name names i)) [
    | inl gone ↦ ground arith
    | inr (name, found) ↦ (op, i, c, name, refl, column_name-get names i name found, ground arith)
  ]

  comparison_clause-Translates :
      (op : Comparison) (left right : Expression V) (t : Text)
      → try_extract_comparison str to_sql names (comparison op left right) ≡ some t
      → Translates (comparison op left right) t
  unfolding try_extract_comparison selects keeps
  comparison_clause-Translates op left right t e =
      let (op', i, c, name, parts, at, text_is) = clause_parts _ t e in
      record {
        condition = compares name op' c;
        text_is = text_is;
        on_column = (i, at);
        agrees = λ bound row named same.
            let below = operand-Below left right i bound (parts-column _ _ _ _ _ op' i c parts) in
            ap (λ x. compare_values dom op' x (value_of c)) (same.same_column i name below at)
            ∙ parts-means op (column_index left) (constant_of left) (column_index right)
                (constant_of right) op' i c row (eval dom left row) (eval dom right row)
                (λ j. eval-column left j row) (λ d. eval-constant left d row)
                (λ j. eval-column right j row) (λ d. eval-constant right d row) parts;
      }

  null_parts :
      (o : Option ℕ) (t : Text)
      → is_null_clause str to_sql names o ≡ some t
      → (i : ℕ) × (name : Text) × (o ≡ some i)
        × (get_elem? names i ≡ some name)
        × (t ≡ render str to_sql (tests_null name))
  unfolding render
  null_parts none t e = ground arith
  null_parts (some i) t e = elim (Option-cases (column_name names i)) [
    | inl gone ↦ ground arith
    | inr (name, found) ↦ (i, name, refl, column_name-get names i name found, ground arith)
  ]

  null-Translates :
      (child : Expression V) (t : Text)
      → try_extract_is_null str to_sql names (is_null child) ≡ some t
      → Translates (is_null child) t
  unfolding try_extract_is_null selects keeps
  null-Translates child t e =
      let (i, name, column, at, text_is) = null_parts (column_index child) t e in
      record {
        condition = tests_null name;
        text_is = text_is;
        on_column = (i, at);
        agrees = λ bound row named same.
            let below = Below-column width child i bound column in
            ap absent (same.same_column i name below at ∙ sym (eval-column child i row column));
      }

  pub try_extract-Translates :
      (e : Expression V) (t : Text) → try_extract str to_sql names e ≡ some t → Translates e t
  unfolding try_extract try_extract_comparison try_extract_is_null
  try_extract-Translates (comparison op left right) t h =
      comparison_clause-Translates op left right t (ground arith)
  try_extract-Translates (is_null child) t h = null-Translates child t (ground arith)
  try_extract-Translates _ t h = cc
