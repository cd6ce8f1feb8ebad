-- ===== src/Pushdown/Aligned.antt =====
-- The lists of the bind data keep one length under the pushdown of src/oracle_extension.cpp.
use duckdb_oracle.Base.{
  if-Holds, ℕ, zero, suc, ◌<◌, ◌≡◌, ◌⊎◌, inl, inr, refl, sym, ap, ◌∙◌, true, none, some, List, [],
  ◌∷◌, arith, ltb, Bool-cases, length, get_elem?, All, Text,
}
use duckdb_oracle.Duckdb.{Strings}
use duckdb_oracle.Pushdown.{
  is_empty, OracleBindData, LogicalGet, Expression, project, push_into, split_filters,
  pushdown_complex_filter,
}

-- One entry of each list for each column that the query fetches, and for each column described.
pub record IsAligned {T : Type 0} (bind : OracleBindData T) : Type 0 where
  pub types_fetched : length bind.oci_types ≡ length bind.column_names
  pub sizes_fetched : length bind.oci_sizes ≡ length bind.column_names
  pub types_described : length bind.original_types ≡ length bind.original_names

-- Each list has an entry for each described column.
pub record IsWhole {T : Type 0} (bind : OracleBindData T) : Type 0 where
  pub names : length bind.column_names ≡ length bind.original_names
  pub types : length bind.original_types ≡ length bind.original_names
  pub oci_types : length bind.oci_types ≡ length bind.original_names
  pub oci_sizes : length bind.oci_sizes ≡ length bind.original_names

get_same {ℓ κ} :
    {A : Type ℓ} {B : Type κ} (xs : List A) (ys : List B) (i : ℕ)
    → length xs ≡ length ys
    → ((get_elem? xs i ≡ none) × (get_elem? ys i ≡ none))
      ⊎ ((x : A) × (y : B) × (get_elem? xs i ≡ some x) × (get_elem? ys i ≡ some y))
get_same [] [] i h = inl (refl, refl)
get_same [] (y ∷ ys) i h = absurd (omega arith)
get_same (x ∷ xs) [] i h = absurd (omega arith)
get_same (x ∷ xs) (y ∷ ys) zero h = inr (x, y, refl, refl)
get_same (x ∷ xs) (y ∷ ys) (suc i) h = get_same xs ys i (omega arith)

-- Lists of one length are projected to lists of one length.
project_same {ℓ κ} :
    {A : Type ℓ} {B : Type κ} (n : ℕ) (xs : List A) (ys : List B) (ids : List ℕ)
    → length xs ≡ length ys
    → length (project n xs ids) ≡ length (project n ys ids)
unfolding project
project_same n xs ys [] h = refl
project_same n xs ys (id ∷ ids) h = elim (Bool-cases (ltb id n)) [
  | inr e ↦ rw (e, project) (project_same n xs ys ids h)
  | inl e ↦ elim (get_same xs ys id h) [
    | inl (p, q) ↦ rw (e, p, q) (project_same n xs ys ids h)
    | inr (x, y, p, q) ↦ rw (e, p, q) (ap suc (project_same n xs ys ids h))
  ]
]

push_into-IsAligned :
    (str : Strings) {V : Type 0} (to_sql : V → Text) {T : Type 0} (bind : OracleBindData T)
    (get : LogicalGet T) (out : List Text × List (Expression V))
    → IsWhole bind
    → IsAligned (push_into str to_sql bind get out).0
unfolding push_into
push_into-IsAligned str to_sql bind get (clauses, remaining) h =
    elim (Bool-cases (is_empty get.projection_ids)) [
      | inl e ↦ rw e (record {
        types_fetched = h.oci_types;
        sizes_fetched = h.oci_sizes;
        types_described = h.types;
      })
      | inr e ↦
          let n = length bind.original_names in
          let ids = get.projection_ids in
          rw e (record {
            types_fetched = project_same n bind.oci_types bind.original_names ids h.oci_types;
            sizes_fetched = project_same n bind.oci_sizes bind.original_names ids h.oci_sizes;
            types_described = h.types;
          })
    ]

IsWhole-IsAligned : {T : Type 0} (bind : OracleBindData T) → IsWhole bind → IsAligned bind
IsWhole-IsAligned bind h = record {
  types_fetched = h.oci_types ∙ sym h.names;
  sizes_fetched = h.oci_sizes ∙ sym h.names;
  types_described = h.types;
}

pub pushdown_complex_filter-IsAligned :
    (str : Strings) {V : Type 0} (to_sql : V → Text) {T : Type 0} (bind : OracleBindData T)
    (get : LogicalGet T) (filters : List (Expression V))
    → IsWhole bind
    → IsAligned bind × IsAligned (pushdown_complex_filter str to_sql bind get filters).0
unfolding pushdown_complex_filter
pushdown_complex_filter-IsAligned str {V} to_sql {T} bind get filters h = (
  IsWhole-IsAligned bind h,
  if-Holds (λ (r : OracleBindData T × LogicalGet T × List (Expression V)). IsAligned r.0)
      bind.enable_pushdown
      (λ e.
        push_into-IsAligned str to_sql bind get (split_filters str to_sql bind.column_names filters)
          h)
      (λ e. IsWhole-IsAligned bind h),
)

pub get-lt {ℓ} :
    {A : Type ℓ} (xs : List A) (i : ℕ) → i < length xs → (a : A) × (get_elem? xs i ≡ some a)
get-lt [] i h = absurd (omega arith)
get-lt (x ∷ xs) zero h = (x, refl)
get-lt (x ∷ xs) (suc i) h = get-lt xs i (omega arith)

-- Where the projection stays in range, the k-th entry is that of the k-th id.
pub project-get {ℓ} :
    {A : Type ℓ} (list : List A) (n : ℕ) (ids : List ℕ) (k id : ℕ) (a : A)
    → length list ≡ n
    → All (λ i. i < n) ids
    → get_elem? ids k ≡ some id
    → get_elem? list id ≡ some a
    → get_elem? (project n list ids) k ≡ some a
unfolding project
project-get list n [] k id a whole inside e f = cc
project-get list n (i ∷ ids) zero id a whole inside e f =
    let id_is : i ≡ id = ground arith in
    let at : get_elem? list i ≡ some a = rw id_is f in
    let inside_is : ltb i n ≡ true = ground (arith, inside.0) in rw (inside_is, at) refl
project-get list n (i ∷ ids) (suc k) id a whole inside e f =
    let (x, at) = get-lt list i (omega (arith, inside.0, whole)) in
    let inside_is : ltb i n ≡ true = ground (arith, inside.0) in
    rw (inside_is, at) (project-get list n ids k id a whole inside.1 e f)

-- Under a projection the fetched columns are the projected ones, and the described types stay.
pub projected_names :
    (str : Strings) {V : Type 0} (to_sql : V → Text) {T : Type 0} (bind : OracleBindData T)
    (get : LogicalGet T) (filters : List (Expression V)) (id : ℕ) (ids : List ℕ)
    → bind.enable_pushdown ≡ true
    → get.projection_ids ≡ id ∷ ids
    → let out = (pushdown_complex_filter str to_sql bind get filters).0 in
      (out.column_names ≡ project (length bind.original_names) bind.original_names (id ∷ ids))
      × (out.original_types ≡ bind.original_types)
unfolding pushdown_complex_filter push_into
projected_names str to_sql bind get filters id ids on e = ground arith
