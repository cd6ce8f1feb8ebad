-- ===== src/Scan/Fetch/Named.antt =====
-- Each output column of src/oracle_extension.cpp gets the value of the column that it was asked for.
use duckdb_oracle.Base.{
  ℕ, zero, suc, ◌+◌, ◌<◌, ◌≡◌, refl, ◌∙◌, Option, some, List, [], ◌∷◌, arith, length, get_elem?,
  Text,
}
use native.Mathlib.Nat.{zero-add, add-zero, add-suc, suc-add}
use duckdb_oracle.Duckdb.{Strings}
use duckdb_oracle.Pushdown.Aligned.{get-lt}
use duckdb_oracle.Pushdown.Mapping.{IsFetched, column_mapping, column_mapping-name}
use duckdb_oracle.Scan.Describe.{LogicalTypeId}
use duckdb_oracle.Scan.Fetch.{Decoders, Cell, decode_cell, decode_row, buffer_index}

get-below {ℓ} : {A : Type ℓ} (xs : List A) (i : ℕ) (a : A) → get_elem? xs i ≡ some a → i < length xs
get-below [] i a e = cc
get-below (x ∷ xs) zero a e = omega arith
get-below (x ∷ xs) (suc i) a e = let h = get-below xs i a e in omega arith

-- What the text or the NULL of a buffer becomes.
abbrev pub read_as {ℓ} : {X : Type ℓ} → Strings → Decoders X → LogicalTypeId → Option Text → Cell X
read_as str d type text = decode_cell str d type (some text)

buffer_index-get :
    (mapping : List ℕ) (n j : ℕ) → get_elem? mapping n ≡ some j → buffer_index mapping n ≡ j
unfolding buffer_index
buffer_index-get mapping n j e = rw (e, buffer_index) refl

module _ {ℓ} {X : Type ℓ} (str : Strings) (d : Decoders X) where
  decode_row-get :
      (mapping : List ℕ) (from : ℕ) (types : List LogicalTypeId) (row : List (Option Text)) (n : ℕ)
      (type : LogicalTypeId)
      → get_elem? types n ≡ some type
      → get_elem? (decode_row str d mapping from types row) n
        ≡ some (decode_cell str d type (get_elem? row (buffer_index mapping (from + n))))
  unfolding decode_row
  decode_row-get mapping from [] row n type e = cc
  decode_row-get mapping from (t ∷ types) row zero type e =
      let type_is : t ≡ type = ground arith in rw (type_is, add-zero) refl
  decode_row-get mapping from (t ∷ types) row (suc n) type e =
      decode_row-get mapping (suc from) types row n type e ∙ rw (suc-add, add-suc) refl

  -- Output column `n` was asked for as column `col_idx` of the table, which was described under
  -- `name`, and the query fetches a column of that name: in every row that has one buffer for each
  -- fetched column, the column's entry is what the text or the NULL of a column of that name becomes.
  pub decode_row-name :
      (original_names column_names : List Text) (column_ids projection_ids : List ℕ)
      (types : List LogicalTypeId) (row : List (Option Text)) (n col_idx : ℕ) (name : Text)
      (type : LogicalTypeId)
      → get_elem? column_ids n ≡ some col_idx
      → IsFetched original_names column_names col_idx name
      → get_elem? types n ≡ some type
      → length row ≡ length column_names
      → let mapping = column_mapping original_names column_names column_ids projection_ids in
        (j : ℕ) × (text : Option Text) × (get_elem? column_names j ≡ some name)
        × (get_elem? row j ≡ some text)
        × (get_elem? (decode_row str d mapping 0 types row) n ≡ some (read_as str d type text))
  decode_row-name original_names column_names column_ids projection_ids types row n col_idx name
        type asked fetched type_is whole =
      let mapping = column_mapping original_names column_names column_ids projection_ids in
      let (j, mapped, named) =
        column_mapping-name original_names column_names column_ids projection_ids n col_idx name
          asked fetched in
      let (text, at) = get-lt row j (omega (arith, get-below column_names j name named, whole)) in
      let e = decode_row-get mapping 0 types row n type type_is in
      (j, text, named, at, e ∙ rw (zero-add, buffer_index-get mapping n j mapped, at) refl)
