-- ===== src/Scan/Describe/Tests.antt =====
-- Two columns, described and pushed down.
use duckdb_oracle.Base.{ℕ, ◌≡◌, refl, true, some, List, [], ◌∷◌, lit, decimal, pos}
use duckdb_oracle.Samples.{ascii}
use duckdb_oracle.Pushdown.{
  OracleBindData, LogicalGet, Expression, bound_ref, comparison, less_than, constant,
  pushdown_complex_filter,
}
use duckdb_oracle.Pushdown.Aligned.{IsAligned}
use duckdb_oracle.Scan.Describe.{
  OciType, num, chr, OciColumn, LogicalTypeId, undescribed, describe_columns, oracle_bind_internal,
}
use duckdb_oracle.Scan.Describe.Aligned.{pushdown-IsAligned}

abbrev code : OciType → ℕ
code type = 1

abbrev people : List OciColumn
people =
    record { name = lit "ID"; data_type = num; precision = 9; scale = pos 0; char_len = 0 }
    ∷ record { name = lit "NAME"; data_type = chr; precision = 0; scale = pos 0; char_len = 40 }
    ∷ []

abbrev described : OracleBindData LogicalTypeId
described = describe_columns code people (undescribed code true (lit "SELECT * FROM PEOPLE"))

abbrev get : LogicalGet LogicalTypeId
get = record { column_ids = 0 ∷ 1 ∷ []; projection_ids = 1 ∷ []; names = []; returned_types = [] }

abbrev filters : List (Expression ℕ)
filters = comparison less_than (constant 18) (bound_ref 0) ∷ []

describes :
    oracle_bind_internal code (λ query. some people) true (lit "SELECT * FROM PEOPLE")
    ≡ some described
unfolding oracle_bind_internal
describes = refl

pushdown-IsAligned_example :
    IsAligned described × IsAligned (pushdown_complex_filter ascii decimal described get filters).0
pushdown-IsAligned_example =
    pushdown-IsAligned code (λ query. some people) true (lit "SELECT * FROM PEOPLE") described ascii
      decimal get filters describes
