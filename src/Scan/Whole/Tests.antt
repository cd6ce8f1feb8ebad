-- ===== src/Scan/Whole/Tests.antt =====
-- A scan of one column: its plan is copied, and its cursor gives one batch and then the end.
use duckdb_oracle.Base.{
  All, map, Option, length, ◌≡◌, List, decimal, Bool, refl, true, false, none, some, [], ◌∷◌, ok,
  lit, Text, pos, inl, inr, ℕ,
}
use duckdb_oracle.Samples.{ascii}
use duckdb_oracle.Settings.{default_settings}
use duckdb_oracle.Pushdown.Mapping.{column_mapping}
use duckdb_oracle.Scan.Describe.{
  OciType, OciColumn, vcs, varchar_id, describe_columns, undescribed, oracle_bind_internal,
}
use duckdb_oracle.Scan.Start.{
  InitCall, ScanBindData, bind_scan, PlanStep, copies, plan, copy_bind_data, Statements,
  OracleScanState, init_global,
}
use duckdb_oracle.Scan.Start.Prepared.{init_global-prepares, prepared_with, defined}
use duckdb_oracle.Scan.Fetch.{
  Decoders, Fetched, oci_success, oci_no_data, decode_row, drain, new_scan_state,
}
use duckdb_oracle.Scan.Fetch.Delivery.{IsBatch}
use duckdb_oracle.Scan.Whole.{ShowsColumn, scan-delivers}

abbrev pub sqlt : OciType → ℕ
sqlt type = 1

abbrev columns : List OciColumn
columns =
    record { name = lit "NAME"; data_type = vcs; precision = 0; scale = pos 0; char_len = 30 } ∷ []

abbrev people : Text
people = lit "SELECT NAME FROM PEOPLE"

abbrev bound : ScanBindData
bound = record {
  connection_string = lit "scott/tiger@db";
  bind = describe_columns sqlt columns (undescribed sqlt true people);
  settings = default_settings;
  conn_handle = none;
  stmt = none;
  finished = false;
}

binds :
    bind_scan sqlt (λ query. some columns) default_settings (lit "scott/tiger@db") people
    ≡ some bound
unfolding bind_scan oracle_bind_internal default_settings
binds = refl

abbrev steps : List (PlanStep ℕ)
steps = copies ∷ []

abbrev pub willing : InitCall → Bool
willing call = true

abbrev pub idle : Statements
idle = record { live = 0; next = 7 }

abbrev started : OracleScanState
started =
    let bind = (plan ascii decimal steps bound).bind in
    record {
      conn_handle = 4;
      stmt = 7;
      prepared = some (prepared_with default_settings bind.query);
      columns = defined bind 0 (length bind.column_names);
      mapping = column_mapping bind.original_names bind.column_names (0 ∷ []) [];
    }

starts :
    (init_global willing
      (λ connection_string. some 4)
      (plan ascii decimal steps bound)
      (0 ∷ [])
      []
      idle).1
    ≡ ok started
unfolding plan copy_bind_data describe_columns
starts =
    (init_global-prepares sqlt (λ query. some columns) default_settings (lit "scott/tiger@db")
      people bound ascii decimal steps (λ connection_string. some 4) willing (0 ∷ []) [] idle 4
      binds refl).0

-- Every type is read as a text.
abbrev pub texts : Decoders Text
texts = record {
  of_text = λ t. t;
  stoll = λ t. some t;
  stod = λ t. some t;
  to_decimal = λ t. some t;
  to_user = λ t. some t;
  timestamp_of = λ t. some t;
  epoch = lit "1970-01-01";
  stof = λ t. some t;
  list_of = λ ts. [];
}

abbrev names : List (List (Option Text))
names = (some (lit "ANN") ∷ []) ∷ (none ∷ []) ∷ []

abbrev batch : Fetched
batch = record { status = oci_success; rows = names }

abbrev end : Fetched
end = record { status = oci_no_data; rows = [] }

batch-IsBatch : IsBatch batch
batch-IsBatch = record { succeeded = inl refl; some_rows = λ e. cc }

scan-delivers_example :
    let bind = (plan ascii decimal steps bound).bind in
    (started.prepared ≡ some (prepared_with default_settings bind.query))
    × (drain ascii texts started.mapping (varchar_id ∷ []) true new_scan_state (batch ∷ end ∷ [])
        ≡ some (ok (map (decode_row ascii texts started.mapping 0 (varchar_id ∷ [])) names)))
    × All
        (ShowsColumn ascii texts bind.column_names started.mapping
          (varchar_id ∷ [])
          0
          (lit "NAME")
          varchar_id)
        names
unfolding plan copy_bind_data describe_columns
scan-delivers_example =
    scan-delivers ascii texts sqlt (λ query. some columns) default_settings (lit "scott/tiger@db")
      people bound decimal steps (λ connection_string. some 4) willing (0 ∷ []) [] idle 4 started
      (batch ∷ end ∷ []) names (varchar_id ∷ []) 0 0 (lit "NAME") varchar_id binds refl starts
      (inr (batch-IsBatch, ([], refl, inl (refl, refl, refl)))) (refl, (refl, tt)) refl
      (refl, (0, refl)) refl
