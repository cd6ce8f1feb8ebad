-- ===== src/Functions/Target.antt =====
-- Which database `oracle_execute` and `oracle_query` of src/oracle_extension.cpp connect to: a
-- connection string, or the alias of an attached database.
pub mod Accepted
use duckdb_oracle.Base.{none, some, some, List, has, Option, if◌then◌else◌, Bool, Text, ℕ}
use duckdb_oracle.Duckdb.{Strings}
use duckdb_oracle.Catalog.Registry.{Registry, lookup_by_alias}
use duckdb_oracle.Pushdown.{OracleBindData}
use duckdb_oracle.Scan.Describe.{LogicalTypeId, OciType, OciColumn, oracle_bind_internal}

-- `strings` are the connection strings of the catalog states, `alive` is which of them are alive.
module _ (str : Strings) (strings : ℕ → Text) (alive : ℕ → Bool) where
  -- What an alias was found to name, or the text itself.
  unfoldable pub found_target : Text → Registry × Option ℕ → Registry × Text
  found_target target (r, none) = (r, target)
  found_target target (r, some id) = (r, strings id)

  -- `if (connection_string.find('@') == string::npos)`
  unfoldable pub resolve_target : Text → Registry → Registry × Text
  unfolding found_target
  resolve_target target r =
      if has b'@' target
      then (r, target)
      else found_target target (lookup_by_alias str alive target r)

  -- `OracleQueryBind`; what a database tells of a query depends on its connection string.
  pub oracle_query_bind :
      (OciType → ℕ)
      → (Text → Text → Option (List OciColumn))
      → Bool
      → Text
      → Text
      → Registry
      → Registry × Option (OracleBindData LogicalTypeId)
  unfolding resolve_target
  oracle_query_bind sqlt describe enable_pushdown target query r =
      let (r', connection_string) = resolve_target target r in
      (r', oracle_bind_internal sqlt (describe connection_string) enable_pushdown query)
