-- ===== src/Scan/Fetch/Tests.antt =====
-- A cursor of three rows, in batches of two.
use duckdb_oracle.Base.{
  ℕ, ◌≡◌, inl, inr, refl, true, false, Option, none, some, List, [], ◌∷◌, ◌++◌, map, ok, throw,
  get_elem?, Text, lit,
}
use duckdb_oracle.Samples.{ascii}
use duckdb_oracle.Pushdown.Mapping.{column_mapping}
use duckdb_oracle.Scan.Describe.{varchar_id}
use duckdb_oracle.Scan.Fetch.{
  Decoders, Fetched, oci_success, oci_no_data, oci_failure, cannot_execute, cannot_fetch,
  new_scan_state, decode_row, drain,
}
use duckdb_oracle.Scan.Fetch.Delivery.{IsBatch, drain-Streams, drain_failure}
use duckdb_oracle.Scan.Fetch.Named.{read_as, decode_row-name}

-- Every type is read as a text.
abbrev texts : Decoders Text
texts = record {
  of_text = λ t. t;
  stoll = λ t. some t;
  stod = λ t. some t;
  to_decimal = λ t. some t;
  to_user = λ t. some t;
  timestamp_of = λ t. some t;
  epoch = lit "1970-01-01";
  stof = λ t. some t;
  list_of = λ ts. [];
}

abbrev first_rows : List (List (Option Text))
first_rows = (some (lit "ANN") ∷ []) ∷ (none ∷ []) ∷ []

abbrev last_rows : List (List (Option Text))
last_rows = (some (lit "BOB") ∷ []) ∷ []

abbrev full : Fetched
full = record { status = oci_success; rows = first_rows }

abbrev rest : Fetched
rest = record { status = oci_no_data; rows = last_rows }

abbrev broken : Fetched
broken = record { status = oci_failure; rows = [] }

full-IsBatch : IsBatch full
full-IsBatch = record { succeeded = inl refl; some_rows = λ e. cc }

drain-Streams_example :
    drain ascii texts (0 ∷ []) (varchar_id ∷ []) true new_scan_state (full ∷ rest ∷ [])
    ≡ some
        (ok (map (decode_row ascii texts (0 ∷ []) 0 (varchar_id ∷ [])) (first_rows ++ last_rows)))
drain-Streams_example =
    drain-Streams ascii texts (0 ∷ []) (varchar_id ∷ []) (full ∷ rest ∷ [])
      (first_rows ++ last_rows) (inr (full-IsBatch, (last_rows, refl, inl (refl, refl, refl))))

drain_failure_example :
    (drain ascii texts (0 ∷ []) (varchar_id ∷ []) true new_scan_state (full ∷ broken ∷ [])
      ≡ some (throw cannot_fetch))
    × (drain ascii texts (0 ∷ []) (varchar_id ∷ []) false new_scan_state (full ∷ broken ∷ [])
        ≡ some (throw cannot_execute))
drain_failure_example =
    drain_failure ascii texts (0 ∷ []) (varchar_id ∷ []) (full ∷ []) broken [] (full-IsBatch, tt)
      refl

abbrev names : List Text
names = lit "ID" ∷ lit "NAME" ∷ []

-- The query fetches NAME alone, for the only column of the output.
name_is_shown :
    let mapping = column_mapping names (lit "NAME" ∷ []) (1 ∷ []) (1 ∷ []) in
    (j : ℕ) × (text : Option Text) × (get_elem? (lit "NAME" ∷ []) j ≡ some (lit "NAME"))
    × (get_elem? (some (lit "ANN") ∷ []) j ≡ some text)
    × (get_elem? (decode_row ascii texts mapping 0 (varchar_id ∷ []) (some (lit "ANN") ∷ [])) 0
        ≡ some (read_as ascii texts varchar_id text))
name_is_shown =
    decode_row-name ascii texts names (lit "NAME" ∷ []) (1 ∷ []) (1 ∷ []) (varchar_id ∷ [])
      (some (lit "ANN") ∷ []) 0 1 (lit "NAME") varchar_id refl (refl, (0, refl)) refl refl
