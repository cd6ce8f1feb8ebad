-- ===== src/Scan/Describe.antt =====
-- The describe step of `OracleBindInternal` in src/oracle_extension.cpp with `OracleScanBind`: the
-- types of the columns of a query, and the bind data that a scan starts from.
-- The calls of OCI are an argument: what they tell of each column, or that one of them fails.
pub mod Aligned
mod Tests
use duckdb_oracle.Base.{
  ℕ, zero, suc, ◌+◌, ◌-◌, ◌*◌, ◌/◌, ◌%◌, ◌^◌, ◌≤◌, ◌<◌, ◌≡◌, ◌≢◌, ◌↔◌, ◌⊎◌, inl, inr, refl, sym, ap,
  ◌∙◌, subst, Bool, true, false, not, ◌&&◌, ◌||◌, Option, none, some, List, [], ◌∷◌, ◌++◌, map,
  arith, ltb, leb, ◌==◌, if◌then◌else◌, ==_refl, ==_iff, Bool-cases, Option-cases, Result, ok,
  throw, ◌>>=◌, ◌>>◌, throw_if, >>=-eq-ok, ok-injective, length, get_elem?, take, drop, replicate,
  length-append, take-append_self, drop-append_self, length-replicate, length-map, All, Text, lit,
  text_eq, text_eq_iff, text_eq_refl, empty, has, index, find, substr, substr_from, decimal, ℤ, pos,
  negsuc, to_idx, is_le_zero, is_gt, u64_mod, String,
}
use duckdb_oracle.Duckdb.{Strings}
use duckdb_oracle.Pushdown.{OracleBindData}

-- The `SQLT_` codes that the code tells apart; `other_sqlt` is any other code.
pub data OciType : Type 0 where
  chr afc vcs avc num vnu int uin flt bfloat bdouble ibfloat ibdouble dat odt timestamp timestamp_tz
        timestamp_ltz clob blob bin lbi lng lvc json vec :
      OciType
  other_sqlt : ℕ → OciType

-- The ids of DuckDB's types that the scan tells apart.
pub data LogicalTypeId : Type 0 where
  varchar_id blob_id bigint_id double_id decimal_id timestamp_id list_id user_id other_id :
      LogicalTypeId

-- What OCI tells of a column of the result.
pub record OciColumn : Type 0 where
  pub name : Text
  pub data_type : OciType
  pub precision : ℕ
  pub scale : ℤ
  pub char_len : ℕ

abbrev is_zero : ℤ → Bool
is_zero (pos n) = n == 0
is_zero (negsuc n) = false

number_id : ℕ → ℤ → LogicalTypeId
number_id precision scale =
    if is_zero scale then (if ltb 18 precision then double_id else bigint_id) else double_id

-- The `switch` over the OCI type.
pub return_type : OciType → ℕ → ℤ → LogicalTypeId
unfolding number_id
return_type num precision scale = number_id precision scale
return_type vnu precision scale = number_id precision scale
return_type int precision scale = bigint_id
return_type uin precision scale = bigint_id
return_type flt precision scale = double_id
return_type bfloat precision scale = double_id
return_type bdouble precision scale = double_id
return_type ibfloat precision scale = double_id
return_type ibdouble precision scale = double_id
return_type dat precision scale = timestamp_id
return_type odt precision scale = timestamp_id
return_type timestamp precision scale = timestamp_id
return_type timestamp_tz precision scale = timestamp_id
return_type timestamp_ltz precision scale = timestamp_id
return_type blob precision scale = blob_id
return_type bin precision scale = blob_id
return_type lbi precision scale = blob_id
return_type lng precision scale = blob_id
return_type lvc precision scale = blob_id
return_type _ precision scale = varchar_id

-- `char_len > 0 ? char_len : 4000`
pub oci_size : ℕ → ℕ
oci_size char_len = if ltb 0 char_len then char_len else 4000

-- `sqlt` is the code of a type. The loop over the parameters.
module _ (sqlt : OciType → ℕ) where
  unfoldable pub describe_columns :
      List OciColumn → OracleBindData LogicalTypeId → OracleBindData LogicalTypeId
  describe_columns [] bind = bind
  describe_columns (c ∷ columns) bind = describe_columns columns (record bind {
    original_names = bind.original_names ++ (c.name ∷ []);
    column_names = bind.column_names ++ (c.name ∷ []);
    oci_types = bind.oci_types ++ (sqlt c.data_type ∷ []);
    oci_sizes = bind.oci_sizes ++ (oci_size c.char_len ∷ []);
    original_types = bind.original_types ++ (return_type c.data_type c.precision c.scale ∷ []);
  })

  -- A query that is not described yet.
  abbrev pub undescribed : Bool → Text → OracleBindData LogicalTypeId
  undescribed enable_pushdown query = record {
    enable_pushdown = enable_pushdown;
    base_query = query;
    query = query;
    column_names = [];
    original_names = [];
    original_types = [];
    oci_types = [];
    oci_sizes = [];
  }

  -- `describe` is `none` where a call of OCI fails, and the exception passes on.
  unfoldable pub oracle_bind_internal :
      (Text → Option (List OciColumn)) → Bool → Text → Option (OracleBindData LogicalTypeId)
  oracle_bind_internal describe enable_pushdown query = elim (describe query) [
    | none ↦ none
    | some columns ↦ some (describe_columns columns (undescribed enable_pushdown query))
  ]

-- The query of `oracle_scan`.
pub scan_query : Strings → Text → Text → Text
scan_query str schema_name table_name =
    lit "SELECT * FROM "
    ++ (str.write_quoted schema_name ++ (lit "." ++ str.write_quoted table_name))
