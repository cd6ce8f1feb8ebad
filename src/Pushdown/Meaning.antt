-- ===== src/Pushdown/Meaning.antt =====
-- What filters mean, in DuckDB and as the clauses that Oracle evaluates.
-- A filter keeps a row where it is true; NULL and false are the same here. The order of values
-- and the nodes that the code of src/oracle_extension.cpp does not look into are parameters.
use duckdb_oracle.Base.{
  sym, ℕ, ◌<◌, arith, ◌≡◌, refl, Bool, true, false, ◌&&◌, Option, none, some, List, [], ◌∷◌, ◌++◌,
  get_elem?, Text, lit,
}
use duckdb_oracle.Duckdb.{Strings}
use duckdb_oracle.Pushdown.{
  equal, greater_than, less_than_or_equal, greater_than_or_equal, flip, Comparison, column_index,
  operator_sql, Expression, less_than, constant, bound_ref, bound_column_ref, comparison, is_null,
}

-- Values of columns and constants with their comparisons; `none` is NULL. `eval_other` and
-- `test_other` are the expressions that the code does not look into.
pub record Domain (V : Type 0) : Type 1 where
  pub D : Type 0
  pub value_of : V → Option D
  pub compare : Comparison → D → D → Bool
  pub eval_other : Expression V → (ℕ → Option D) → Option D
  pub test_other : Expression V → (ℕ → Option D) → Bool

-- = is symmetric, > is < with the operands exchanged, and >= is <= with them exchanged.
pub record DomainLaws {V : Type 0} (dom : Domain V) : Type 0 where
  pub equal_symm : (a b : dom.D) → dom.compare equal a b ≡ dom.compare equal b a
  pub greater-less : (a b : dom.D) → dom.compare greater_than a b ≡ dom.compare less_than b a
  pub greater_eq-less_eq :
      (a b : dom.D) → dom.compare greater_than_or_equal a b ≡ dom.compare less_than_or_equal b a

-- A condition of the WHERE clause, over columns by name.
pub data Clause (V : Type 0) : Type 0 where
  compares : Text → Comparison → V → Clause V
  tests_null : Text → Clause V

-- The column that a condition looks at.
abbrev pub column_of : {V : Type 0} → Clause V → Text
column_of (compares name op c) = name
column_of (tests_null name) = name

-- The text of a condition.
unfoldable pub render : {V : Type 0} → Strings → (V → Text) → Clause V → Text
render str to_sql (compares name op c) =
    str.write_quoted name ++ (lit " " ++ (operator_sql op ++ (lit " " ++ to_sql c)))
render str to_sql (tests_null name) = str.write_quoted name ++ lit " IS NULL"

-- The row that a filter sees: its binding `i` is the `i`-th of the columns that the scan is asked for.
abbrev pub seen : {A : Type 0} → List ℕ → (ℕ → Option A) → ℕ → Option A
seen column_ids row i = elim (get_elem? column_ids i) [ none ↦ none | some column ↦ row column ]

-- The columns that the scan is asked for are the first ones of the table, in its order.
abbrev pub IsTableOrder : List ℕ → Type 0
IsTableOrder column_ids = (i column : ℕ) → get_elem? column_ids i ≡ some column → column ≡ i

abbrev pub Below : {V : Type 0} → ℕ → Expression V → Type 0
Below width (bound_ref i) = i < width
Below width (bound_column_ref i) = i < width
Below width e = Unit {0}

-- The columns that the code takes from a filter are among the `width` that the scan is asked for.
abbrev pub IsBound : {V : Type 0} → ℕ → Expression V → Type 0
IsBound width (comparison op left right) = Below width left × Below width right
IsBound width (is_null child) = Below width child
IsBound width e = Unit {0}

pub Below-column :
    {V : Type 0} (width : ℕ) (e : Expression V) (i : ℕ)
    → Below width e
    → column_index e ≡ some i
    → i < width
unfolding column_index
Below-column width (bound_ref j) i below e = ground arith
Below-column width (bound_column_ref j) i below e = ground arith
Below-column width _ i below e = cc

abbrev pub absent {ℓ} : {A : Type ℓ} → Option A → Bool
absent none = true
absent (some a) = false

module _ {V : Type 0} (dom : Domain V) where
  open dom use {D, value_of, compare, eval_other, test_other}

  abbrev pub compare_values : Comparison → Option D → Option D → Bool
  compare_values op none b = false
  compare_values op (some a) none = false
  compare_values op (some a) (some b) = compare op a b

  unfoldable pub eval : Expression V → (ℕ → Option D) → Option D
  eval (constant c) row = value_of c
  eval (bound_ref i) row = row i
  eval (bound_column_ref i) row = row i
  eval e row = eval_other e row

  -- A filter of DuckDB on a row.
  unfoldable pub keeps : Expression V → (ℕ → Option D) → Bool
  unfolding eval
  keeps (comparison op left right) row = compare_values op (eval left row) (eval right row)
  keeps (is_null child) row = absent (eval child row)
  keeps e row = test_other e row

  unfoldable pub keeps_all : List (Expression V) → (ℕ → Option D) → Bool
  keeps_all [] row = true
  keeps_all (e ∷ es) row = keeps e row && keeps_all es row

  -- A condition of Oracle on a row of the base query.
  unfoldable pub selects : Clause V → (Text → Option D) → Bool
  selects (compares name op c) row = compare_values op (row name) (value_of c)
  selects (tests_null name) row = absent (row name)

  unfoldable pub selects_all : List (Clause V) → (Text → Option D) → Bool
  selects_all [] row = true
  selects_all (c ∷ cs) row = selects c row && selects_all cs row

  -- Both see the same row: below `width`, the binding `i` of a filter and the column of Oracle that has
  -- the `i`-th name have one value.
  pub record SameRow (width : ℕ) (names : List Text) (row : ℕ → Option D) (named : Text → Option D)
      : Type 0 where
    pub same_column :
        (i : ℕ) (name : Text) → i < width → get_elem? names i ≡ some name → named name ≡ row i

  compare-flip :
      DomainLaws dom → (op : Comparison) (a b : D) → compare (flip op) a b ≡ compare op b a
  unfolding flip
  compare-flip laws equal a b = laws.equal_symm a b
  compare-flip laws less_than a b = laws.greater-less a b
  compare-flip laws greater_than a b = sym (laws.greater-less b a)
  compare-flip laws less_than_or_equal a b = laws.greater_eq-less_eq a b
  compare-flip laws greater_than_or_equal a b = sym (laws.greater_eq-less_eq b a)

  pub compare_values-flip :
      DomainLaws dom
      → (op : Comparison) (a b : Option D) → compare_values (flip op) a b ≡ compare_values op b a
  compare_values-flip laws op none none = refl
  compare_values-flip laws op none (some b) = refl
  compare_values-flip laws op (some a) none = refl
  compare_values-flip laws op (some a) (some b) = compare-flip laws op a b
