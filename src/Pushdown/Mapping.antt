-- ===== src/Pushdown/Mapping.antt =====
-- `OracleInitGlobal` of src/oracle_extension.cpp: which fetch buffer feeds an output column, and how
-- large the buffers are. Both loops over ids, that over `column_ids` and that over
-- `projection_ids`, are the same.
use duckdb_oracle.Base.{
  ℕ, zero, suc, ◌+◌, ◌≡◌, inl, inr, refl, ap, Option, none, some, List, [], ◌∷◌, arith,
  if◌then◌else◌, Bool-cases, get_elem?, Text, text_eq, text_eq_iff,
}

-- `for (j …) if (bind.column_names[j] == name) { … break; }`
pub first_index : Text → List Text → Option ℕ
first_index name [] = none
first_index name (n ∷ names) =
    let rest = first_index name names in
    if text_eq n name then some 0 else elim rest [ none ↦ none | some j ↦ some (suc j) ]

or_self : ℕ → Option ℕ → ℕ
or_self i none = i
or_self i (some j) = j

pub buffer_of : List Text → List Text → ℕ → ℕ → ℕ
unfolding or_self
buffer_of original_names column_names i col_idx = elim (get_elem? original_names col_idx) [
  | none ↦ i
  | some name ↦ or_self i (first_index name column_names)
]

pub map_ids : List Text → List Text → ℕ → List ℕ → List ℕ
map_ids original_names column_names i [] = []
map_ids original_names column_names i (id ∷ ids) =
    buffer_of original_names column_names i id ∷ map_ids original_names column_names (i + 1) ids

-- `state->column_mapping`
pub column_mapping : List Text → List Text → List ℕ → List ℕ → List ℕ
column_mapping original_names column_names [] projection_ids =
    map_ids original_names column_names 0 projection_ids
column_mapping original_names column_names (id ∷ ids) projection_ids =
    map_ids original_names column_names 0 (id ∷ ids)

first_index-found :
    (name : Text) (names : List Text) (k : ℕ)
    → get_elem? names k ≡ some name
    → (j : ℕ) × (first_index name names ≡ some j) × (get_elem? names j ≡ some name)
unfolding first_index
first_index-found name [] k e = cc
first_index-found name (n ∷ names) zero e =
    let same : n ≡ name = ground arith in (0, rw ((text_eq_iff n name).1 same) refl, ap some same)
first_index-found name (n ∷ names) (suc k) e =
    let (j, hit, at) = first_index-found name names k e in
    elim (Bool-cases (text_eq n name)) [
      | inl same ↦ (0, rw same refl, ap some ((text_eq_iff n name).0 same))
      | inr differ ↦ (suc j, rw (differ, hit) refl, at)
    ]

-- The column `name` was described at `col_idx`, and the query fetches it.
abbrev pub IsFetched : List Text → List Text → ℕ → Text → Type 0
IsFetched original_names column_names col_idx name =
    (get_elem? original_names col_idx ≡ some name)
    × ((k : ℕ) × (get_elem? column_names k ≡ some name))

buffer_of-name :
    (original_names column_names : List Text) (i col_idx : ℕ) (name : Text)
    → IsFetched original_names column_names col_idx name
    → get_elem? column_names (buffer_of original_names column_names i col_idx) ≡ some name
unfolding buffer_of
buffer_of-name original_names column_names i col_idx name (described, (k, fetched)) =
    let (j, hit, at) = first_index-found name column_names k fetched in
    rw (described, buffer_of) (rw (hit, or_self) at)

map_ids-name :
    (original_names column_names : List Text) (ids : List ℕ) (from n col_idx : ℕ) (name : Text)
    → get_elem? ids n ≡ some col_idx
    → IsFetched original_names column_names col_idx name
    → (j : ℕ) × (get_elem? (map_ids original_names column_names from ids) n ≡ some j)
      × (get_elem? column_names j ≡ some name)
unfolding map_ids
map_ids-name original_names column_names [] from n col_idx name e h = cc
map_ids-name original_names column_names (id ∷ ids) from zero col_idx name e h =
    let id_is : id ≡ col_idx = ground arith in
    (
      buffer_of original_names column_names from id,
      refl,
      rw id_is (buffer_of-name original_names column_names from col_idx name h),
    )
map_ids-name original_names column_names (id ∷ ids) from (suc n) col_idx name e h =
    map_ids-name original_names column_names ids (from + 1) n col_idx name e h

-- Output column `n`, asked for as column `col_idx` of the table, is fed by a buffer that the query
-- fetches the column of that name into, wherever the projection has moved it.
pub column_mapping-name :
    (original_names column_names : List Text) (column_ids projection_ids : List ℕ) (n col_idx : ℕ)
    (name : Text)
    → get_elem? column_ids n ≡ some col_idx
    → IsFetched original_names column_names col_idx name
    → (j : ℕ) × (get_elem? (column_mapping original_names column_names column_ids projection_ids) n
        ≡ some j)
      × (get_elem? column_names j ≡ some name)
unfolding column_mapping
column_mapping-name original_names column_names [] projection_ids n col_idx name e h = cc
column_mapping-name original_names column_names (id ∷ ids) projection_ids n col_idx name e h =
    map_ids-name original_names column_names (id ∷ ids) 0 n col_idx name e h
