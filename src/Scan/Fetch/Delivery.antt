-- ===== src/Scan/Fetch/Delivery.antt =====
-- What a whole scan of src/oracle_extension.cpp delivers, and what a failing one does.
use duckdb_oracle.Base.{
  ℕ, ◌≡◌, ◌≢◌, ◌⊎◌, inl, inr, refl, sym, ap, ◌∙◌, subst, Bool, true, false, Option, some, List, [],
  ◌∷◌, ◌++◌, map, Result, ok, throw, All, Text,
}
use mathlib.Core.List.{append-nil}
use duckdb_oracle.Duckdb.{Strings}
use duckdb_oracle.Scan.Describe.{LogicalTypeId}
use duckdb_oracle.Scan.Fetch.{
  OciStatus, oci_success, oci_success_with_info, oci_no_data, oci_failure, ScanError,
  cannot_execute, cannot_fetch, Decoders, Cell, ScanState, new_scan_state, Fetched, then_rows,
  decode_row, end_call, fetched, oracle_query_function, drain,
}

-- A reply with rows that others follow.
pub record IsBatch (f : Fetched) : Type 0 where
  pub succeeded : (f.status ≡ oci_success) ⊎ (f.status ≡ oci_success_with_info)
  pub some_rows : f.rows ≢ []

-- The replies of a cursor with these rows: batches, and a last reply, maybe empty, with no data
-- after it.
abbrev pub Streams : List Fetched → List (List (Option Text)) → Type 0
Streams [] rows = ⊥
Streams (f ∷ fs) rows =
    ((f.status ≡ oci_no_data) × (f.rows ≡ rows) × (fs ≡ []))
    ⊎ (IsBatch f
        × ((later : List (List (Option Text))) × (rows ≡ f.rows ++ later) × Streams fs later))

map-append {ℓ κ} :
    {A : Type ℓ} {B : Type κ} (f : A → B) (xs ys : List A) → map f (xs ++ ys) ≡ map f xs ++ map f ys
map-append f [] ys = refl
map-append f (x ∷ xs) ys = ap (◌∷◌ (f x)) (map-append f xs ys)

then_rows-append {ℓ κ} :
    {R : Type ℓ} {S : Type κ} (f : R → S) (rows more : List R)
    → rows ≢ []
    → then_rows (ok (map f rows)) (some (ok (map f more))) ≡ some (ok (map f (rows ++ more)))
then_rows-append f [] more h = absurd (h refl)
then_rows-append f (row ∷ rows) more h =
    ap (λ rs. some (ok (f row ∷ rs))) (sym (map-append f rows more))

then_rows_end {ℓ} :
    {R : Type ℓ} (rows : List R) → then_rows (ok rows) (some (ok [])) ≡ some (ok rows)
then_rows_end [] = refl
then_rows_end (row ∷ rows) = ap (λ rs. some (ok (row ∷ rs))) (append-nil rows)

then_rows-throw {ℓ κ} :
    {R : Type ℓ} {S : Type κ} (f : R → S) (rows : List R) (e : ScanError)
    → rows ≢ []
    → then_rows (ok (map f rows)) (some (throw e)) ≡ some (throw e)
then_rows-throw f [] e h = absurd (h refl)
then_rows-throw f (row ∷ rows) e h = refl

module _ {ℓ} {X : Type ℓ} (str : Strings) (d : Decoders X) (mapping : List ℕ)
    (types : List LogicalTypeId) where
  abbrev going : Bool → ScanState
  going executed = record { executed = executed; finished = false }

  abbrev decoded : List (List (Option Text)) → List (List (Cell X))
  decoded rows = map (decode_row str d mapping 0 types) rows

  abbrev call :
      Bool
      → OciStatus
      → List (List (Option Text))
      → ScanState × Result ScanError (List (List (Cell X)))
  call executed status rows =
      oracle_query_function str d mapping types true (record { status = status; rows = rows })
        (going executed)

  -- A batch gives its rows, and the scan goes on.
  call_batch :
      (executed : Bool) (status : OciStatus) (rows : List (List (Option Text)))
      → (status ≡ oci_success) ⊎ (status ≡ oci_success_with_info)
      → call executed status rows ≡ (going true, ok (decoded rows))
  unfolding oracle_query_function fetched end_call
  call_batch true oci_success rows h = refl
  call_batch false oci_success rows h = refl
  call_batch true oci_success_with_info rows h = refl
  call_batch false oci_success_with_info rows h = refl
  call_batch executed oci_no_data rows h = absurd (elim h [ inl e ↦ cc | inr e ↦ cc ])
  call_batch executed oci_failure rows h = absurd (elim h [ inl e ↦ cc | inr e ↦ cc ])

  -- The last reply gives its rows and ends the scan.
  call_last :
      (executed : Bool) (rows : List (List (Option Text)))
      → call executed oci_no_data rows
        ≡ (record { executed = true; finished = true }, ok (decoded rows))
  unfolding oracle_query_function fetched end_call
  call_last true rows = refl
  call_last false rows = refl

  call_failure :
      (executed : Bool) (rows : List (List (Option Text)))
      → call executed oci_failure rows ≡ (going true, throw cannot_fetch)
  unfolding oracle_query_function fetched
  call_failure true rows = refl
  call_failure false rows = refl

  drain-going :
      (executed : Bool) (fs : List Fetched) (rows : List (List (Option Text)))
      → Streams fs rows
      → drain str d mapping types true (going executed) fs ≡ some (ok (decoded rows))
  unfolding drain
  drain-going executed [] rows h = absurd h
  drain-going executed (f ∷ fs) rows (inl (status_is, rows_are, ends)) =
      let called =
        subst
          (λ status.
            call executed status f.rows
            ≡ (record { executed = true; finished = true }, ok (decoded f.rows)))
          (sym status_is) (call_last executed f.rows) in
      rw (called, ends)
        (then_rows_end (decoded f.rows) ∙ ap (λ rs. some (ok (decoded rs))) rows_are)
  drain-going executed (f ∷ fs) rows (inr (batch, (later, rows_are, h))) =
      rw (call_batch executed f.status f.rows batch.succeeded, drain-going true fs later h)
        (then_rows-append (decode_row str d mapping 0 types) f.rows later batch.some_rows
          ∙ ap (λ rs. some (ok (decoded rs))) (sym rows_are))

  -- A scan of a cursor whose statement can be executed ends after the last reply, and the chunks up to
  -- the first empty one are together the decoded rows of the cursor: each once, in their order.
  pub drain-Streams :
      (fs : List Fetched) (rows : List (List (Option Text)))
      → Streams fs rows
      → drain str d mapping types true new_scan_state fs
        ≡ some (ok (map (decode_row str d mapping 0 types) rows))
  drain-Streams fs rows h = drain-going false fs rows h

  drain_fails :
      (executed : Bool) (batches : List Fetched) (broken : Fetched) (fs : List Fetched)
      → All IsBatch batches
      → broken.status ≡ oci_failure
      → drain str d mapping types true (going executed) (batches ++ (broken ∷ fs))
        ≡ some (throw cannot_fetch)
  unfolding drain
  drain_fails executed [] broken fs h e =
      let called =
        subst (λ status. call executed status broken.rows ≡ (going true, throw cannot_fetch))
          (sym e) (call_failure executed broken.rows) in
      rw called refl
  drain_fails executed (f ∷ batches) broken fs h e =
      rw
        (
          call_batch executed f.status f.rows h.0.succeeded,
          drain_fails true batches broken fs h.1 e,
        )
        (then_rows-throw (decode_row str d mapping 0 types) f.rows cannot_fetch h.0.some_rows)

  -- A statement that cannot be executed gives no chunk.
  cannot_open :
      (batches : List Fetched) (broken : Fetched) (fs : List Fetched)
      → drain str d mapping types false new_scan_state (batches ++ (broken ∷ fs))
        ≡ some (throw cannot_execute)
  unfolding drain oracle_query_function
  cannot_open [] broken fs = refl
  cannot_open (f ∷ batches) broken fs = refl

  -- A cursor that fails after any number of batches makes the whole scan throw: no part of the rows is
  -- passed off as the result, also when the statement could not be executed in the first place.
  pub drain_failure :
      (batches : List Fetched) (broken : Fetched) (fs : List Fetched)
      → All IsBatch batches
      → broken.status ≡ oci_failure
      → (drain str d mapping types true new_scan_state (batches ++ (broken ∷ fs))
          ≡ some (throw cannot_fetch))
        × (drain str d mapping types false new_scan_state (batches ++ (broken ∷ fs))
            ≡ some (throw cannot_execute))
  drain_failure batches broken fs h e =
      (drain_fails false batches broken fs h e, cannot_open batches broken fs)
