-- ===== src/Scan/Fetch.antt =====
-- `OracleQueryFunction` of src/oracle_extension.cpp: each call executes the cursor if it was not, fetches
-- a batch and decodes it; and the calls that DuckDB makes until a chunk is empty.
-- A row that was fetched is the list of its buffers' texts, `none` where the indicator is -1.
pub mod Delivery
pub mod Named
mod Tests
use duckdb_oracle.Base.{
  ℕ, zero, suc, ◌+◌, ◌-◌, ◌*◌, ◌/◌, ◌%◌, ◌^◌, ◌≤◌, ◌<◌, ◌≡◌, ◌≢◌, ◌↔◌, ◌⊎◌, inl, inr, refl, sym, ap,
  ◌∙◌, subst, Bool, true, false, not, ◌&&◌, ◌||◌, Option, none, some, List, [], ◌∷◌, ◌++◌, map,
  arith, ltb, leb, ◌==◌, if◌then◌else◌, ==_refl, ==_iff, Bool-cases, Option-cases, Result, ok,
  throw, ◌>>=◌, ◌>>◌, throw_if, >>=-eq-ok, ok-injective, length, get_elem?, take, drop, replicate,
  length-append, take-append_self, drop-append_self, length-replicate, length-map, All, Text, lit,
  text_eq, text_eq_iff, text_eq_refl, empty, has, index, find, substr, substr_from, decimal, ℤ, pos,
  negsuc, to_idx, is_le_zero, is_gt, u64_mod, String,
}
use duckdb_oracle.Duckdb.{Strings}
use duckdb_oracle.Scan.{parse_vector_json_to_list}
use duckdb_oracle.Scan.Describe.{
  LogicalTypeId, varchar_id, blob_id, bigint_id, double_id, decimal_id, timestamp_id, list_id,
  user_id, other_id,
}

-- Statuses of `OCIStmtFetch2`; `oci_failure` is any other one.
pub data OciStatus : Type 0 where
  oci_success oci_success_with_info oci_no_data oci_failure : OciStatus

pub data ScanError : Type 0 where
  cannot_execute cannot_fetch : ScanError

-- How texts become values: `std::stoll`, `std::stod`, the casts to DECIMAL and to the user type, and
-- `Timestamp::FromString`, with `none` where they throw; `epoch` is `timestamp_t()`.
pub record Decoders {ℓ} (X : Type ℓ) : Type ℓ where
  pub of_text : Text → X
  pub stoll : Text → Option X
  pub stod : Text → Option X
  pub to_decimal : Text → Option X
  pub to_user : Text → Option X
  pub timestamp_of : Text → Option X
  pub epoch : X
  pub stof : Text → Option X
  pub list_of : List X → X

-- An entry of the chunk; `unset` is one that the call does not write.
pub data Cell {ℓ} (X : Type ℓ) : Type ℓ where
  value : X → Cell X
  null : Cell X
  unset : Cell X

-- `s.resize(strlen(s.c_str()))`
pub until_nul : Text → Text
until_nul [] = []
until_nul (c ∷ s) = let rest = until_nul s in if c == 0 then [] else c ∷ rest

-- The flags of `OracleScanState`.
pub record ScanState : Type 0 where
  pub executed : Bool
  pub finished : Bool

-- The start of a scan.
abbrev pub new_scan_state : ScanState
new_scan_state = record { executed = false; finished = false }

-- A reply of `OCIStmtFetch2`: its status, and the rows that it put into the buffers.
pub record Fetched : Type 0 where
  pub status : OciStatus
  pub rows : List (List (Option Text))

abbrev is_failure : OciStatus → Bool
is_failure oci_failure = true
is_failure _ = false

-- The rows of a chunk that is not empty, then those of the chunks that follow.
abbrev pub then_rows {ℓ} :
    {R : Type ℓ}
    → Result ScanError (List R)
    → Option (Result ScanError (List R))
    → Option (Result ScanError (List R))
then_rows (throw e) later = some (throw e)
then_rows (ok []) later = some (ok [])
then_rows (ok (row ∷ rows)) none = none
then_rows (ok (row ∷ rows)) (some (throw e)) = some (throw e)
then_rows (ok (row ∷ rows)) (some (ok more)) = some (ok ((row ∷ rows) ++ more))

-- `column_mapping[col_idx]`, or `col_idx` where the mapping is shorter.
pub buffer_index : List ℕ → ℕ → ℕ
buffer_index mapping col_idx = elim (get_elem? mapping col_idx) [ none ↦ col_idx | some j ↦ j ]

module _ {ℓ} {X : Type ℓ} (str : Strings) (d : Decoders X) where
  abbrev or_epoch : Option X → X
  or_epoch none = d.epoch
  or_epoch (some x) = x

  pub parse_oci_timestamp : Text → X
  parse_oci_timestamp s =
      let t = until_nul s in if empty t then d.epoch else or_epoch (d.timestamp_of t)

  -- An exception of a cast gives NULL.
  abbrev or_null : Option X → Cell X
  or_null none = null
  or_null (some x) = value x

  -- The `switch` over the type of the output column.
  pub decode : LogicalTypeId → Text → Cell X
  unfolding parse_oci_timestamp
  decode varchar_id s = value (d.of_text s)
  decode blob_id s = value (d.of_text s)
  decode bigint_id s = or_null (d.stoll s)
  decode double_id s = or_null (d.stod s)
  decode decimal_id s = or_null (d.to_decimal s)
  decode timestamp_id s = value (parse_oci_timestamp s)
  decode list_id s = value (d.list_of (parse_vector_json_to_list str d.stof s))
  decode user_id s = or_null (d.to_user s)
  decode other_id s = unset

  pub decode_cell : LogicalTypeId → Option (Option Text) → Cell X
  decode_cell type none = unset
  decode_cell type (some none) = null
  decode_cell type (some (some s)) = decode type s

  -- The loop over the output columns, from column `col_idx` on.
  pub decode_row : List ℕ → ℕ → List LogicalTypeId → List (Option Text) → List (Cell X)
  decode_row mapping col_idx [] row = []
  decode_row mapping col_idx (type ∷ types) row =
      decode_cell type (get_elem? row (buffer_index mapping col_idx))
      ∷ decode_row mapping (suc col_idx) types row

  -- The end of a call that fetched: no data and no rows, or rows, and no data after them.
  end_call :
      List ℕ
      → List LogicalTypeId
      → OciStatus
      → List (List (Option Text))
      → ScanState × List (List (Cell X))
  unfolding decode_row
  end_call mapping types oci_no_data rows =
      (record { executed = true; finished = true }, map (decode_row mapping 0 types) rows)
  end_call mapping types _ rows =
      (record { executed = true; finished = false }, map (decode_row mapping 0 types) rows)

  fetched :
      List ℕ → List LogicalTypeId → Fetched → ScanState × Result ScanError (List (List (Cell X)))
  unfolding end_call
  fetched mapping types f =
      if is_failure f.status
      then (record { executed = true; finished = false }, throw cannot_fetch)
      else (let (s, rows) = end_call mapping types f.status f.rows in (s, ok rows))

  -- One call: the chunk that it gives. `executes` is whether the cursor opens.
  pub oracle_query_function :
      List ℕ
      → List LogicalTypeId
      → Bool
      → Fetched
      → ScanState
      → ScanState × Result ScanError (List (List (Cell X)))
  unfolding fetched
  oracle_query_function mapping types executes f s =
      if s.finished
      then (s, ok [])
      else if not s.executed && not executes
      then (s, throw cannot_execute)
      else fetched mapping types f

  -- DuckDB calls until a chunk is empty. A call of a finished scan fetches nothing; `none` is a scan
  -- that asks for more than the replies given.
  pub drain :
      List ℕ
      → List LogicalTypeId
      → Bool
      → ScanState
      → List Fetched
      → Option (Result ScanError (List (List (Cell X))))
  drain mapping types executes s [] = if s.finished then some (ok []) else none
  drain mapping types executes s (f ∷ fs) =
      let (s', result) = oracle_query_function mapping types executes f s in
      then_rows result (drain mapping types executes s' fs)
