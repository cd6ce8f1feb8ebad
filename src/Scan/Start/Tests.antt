-- ===== src/Scan/Start/Tests.antt =====
-- A query of two columns whose plan is copied and then filtered.
use duckdb_oracle.Base.{
  length, ◌≡◌, Bool, decimal, false, List, ℕ, refl, true, none, some, [], ◌∷◌, lit, Text, pos,
}
use duckdb_oracle.Samples.{ascii}
use duckdb_oracle.Settings.{default_settings}
use duckdb_oracle.Pushdown.Mapping.{column_mapping}
use duckdb_oracle.Pushdown.{LogicalGet, comparison, equal, bound_ref, constant}
use duckdb_oracle.Scan.Describe.{
  oracle_bind_internal, describe_columns, undescribed, OciType, OciColumn, num, vcs, LogicalTypeId,
}
use duckdb_oracle.Scan.Start.{
  InitCall, define_array_at, ScanBindData, bind_scan, PlanStep, copies, pushes, plan, Statements,
  init_global,
}
use duckdb_oracle.Scan.Start.Prepared.{
  init_global-prepares, or_failed, defined, live_after, prepared_with, first_failed, start_calls,
}

abbrev sqlt : OciType → ℕ
sqlt type = 1

abbrev columns : List OciColumn
columns =
    record { name = lit "ID"; data_type = num; precision = 10; scale = pos 0; char_len = 0 }
    ∷ record { name = lit "NAME"; data_type = vcs; precision = 0; scale = pos 0; char_len = 30 }
    ∷ []

abbrev get : LogicalGet LogicalTypeId
get = record { column_ids = 0 ∷ 1 ∷ []; projection_ids = 1 ∷ []; names = []; returned_types = [] }

abbrev steps : List (PlanStep ℕ)
steps = copies ∷ pushes get (comparison equal (bound_ref 0) (constant 7) ∷ []) ∷ copies ∷ []

abbrev people : Text
people = lit "SELECT * FROM PEOPLE"

abbrev bound : ScanBindData
bound = record {
  connection_string = lit "scott/tiger@db";
  bind = describe_columns sqlt columns (undescribed sqlt true people);
  settings = default_settings;
  conn_handle = none;
  stmt = none;
  finished = false;
}

binds :
    bind_scan sqlt (λ query. some columns) default_settings (lit "scott/tiger@db") people
    ≡ some bound
unfolding bind_scan oracle_bind_internal default_settings
binds = refl

-- The second define of the scan's one column fails.
abbrev succeeds : InitCall → Bool
succeeds (define_array_at col_idx) = false
succeeds _ = true

abbrev idle : Statements
idle = record { live = 2; next = 9 }

init_global-prepares_example :
    let bind = (plan ascii decimal steps bound).bind in
    let n = length bind.column_names in
    let failed = first_failed succeeds (start_calls n) in
    let (s', result) =
      init_global succeeds
        (λ connection_string. some 4)
        (plan ascii decimal steps bound)
        (1 ∷ [])
        []
        idle in
    (result
      ≡ or_failed
          (record {
            conn_handle = 4;
            stmt = 9;
            prepared = some (prepared_with default_settings bind.query);
            columns = defined bind 0 n;
            mapping = column_mapping bind.original_names bind.column_names (1 ∷ []) [];
          })
          failed)
    × (s'.live ≡ live_after 2 failed)
init_global-prepares_example =
    init_global-prepares sqlt (λ query. some columns) default_settings (lit "scott/tiger@db") people
      bound ascii decimal steps (λ connection_string. some 4) succeeds (1 ∷ []) [] idle 4 binds refl
