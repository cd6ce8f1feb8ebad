-- ===== src/Scan/Describe/Aligned.antt =====
-- The lists of the bind data keep one length.
use duckdb_oracle.Base.{
  length-snoc, ℕ, suc, ◌≡◌, inl, inr, refl, sym, ap, ◌∙◌, subst, Bool, Option, some, List, [], ◌∷◌,
  ◌++◌, arith, Option-cases, length, Text,
}
use duckdb_oracle.Duckdb.{Strings}
use duckdb_oracle.Pushdown.{OracleBindData, LogicalGet, Expression, pushdown_complex_filter}
use duckdb_oracle.Pushdown.Aligned.{IsAligned, IsWhole, pushdown_complex_filter-IsAligned}
use duckdb_oracle.Scan.Describe.{
  undescribed, OciType, LogicalTypeId, OciColumn, describe_columns, oracle_bind_internal,
}

snoc_same {ℓ κ} :
    {A : Type ℓ} {B : Type κ} (xs : List A) (ys : List B) (x : A) (y : B)
    → length xs ≡ length ys
    → length (xs ++ (x ∷ [])) ≡ length (ys ++ (y ∷ []))
snoc_same xs ys x y h = length-snoc xs x ∙ ap suc h ∙ sym (length-snoc ys y)

describe_columns-IsWhole :
    (sqlt : OciType → ℕ) (columns : List OciColumn) (bind : OracleBindData LogicalTypeId)
    → IsWhole bind
    → IsWhole (describe_columns sqlt columns bind)
unfolding describe_columns
describe_columns-IsWhole sqlt [] bind h = h
describe_columns-IsWhole sqlt (c ∷ columns) bind h =
    describe_columns-IsWhole sqlt columns _ (record {
      names = snoc_same bind.column_names bind.original_names _ _ h.names;
      types = snoc_same bind.original_types bind.original_names _ _ h.types;
      oci_types = snoc_same bind.oci_types bind.original_names _ _ h.oci_types;
      oci_sizes = snoc_same bind.oci_sizes bind.original_names _ _ h.oci_sizes;
    })

-- A query that was described has, before and after the pushdown, one OCI type and one size for each
-- column that it fetches, and one DuckDB type for each column that was described.
pub pushdown-IsAligned :
    (sqlt : OciType → ℕ) (describe : Text → Option (List OciColumn)) (enable_pushdown : Bool)
    (query : Text) (bind : OracleBindData LogicalTypeId) (str : Strings) {V : Type 0}
    (to_sql : V → Text) (get : LogicalGet LogicalTypeId) (filters : List (Expression V))
    → oracle_bind_internal sqlt describe enable_pushdown query ≡ some bind
    → IsAligned bind × IsAligned (pushdown_complex_filter str to_sql bind get filters).0
unfolding oracle_bind_internal
pushdown-IsAligned sqlt describe enable_pushdown query bind str to_sql get filters e =
    elim (Option-cases (describe query)) [
      | inl q ↦ cc
      | inr (columns, q) ↦
          let bind_is : bind
              ≡ describe_columns sqlt columns (undescribed sqlt enable_pushdown query) =
            ground (arith, q) in
          pushdown_complex_filter-IsAligned str to_sql bind get filters (
            subst IsWhole (sym bind_is) (
              describe_columns-IsWhole sqlt columns _
                (record { names = refl; types = refl; oci_types = refl; oci_sizes = refl })))
    ]
