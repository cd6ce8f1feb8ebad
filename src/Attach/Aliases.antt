-- ===== src/Attach/Aliases.antt =====
-- The registry of aliases and the transaction managers of src/storage/oracle_storage_extension.cpp, as
-- databases are attached one after another. The state that the extension holds has number 0.
pub mod First
use duckdb_oracle.Base.{Result, Option, List, Text, none, some, ok, throw, [], ◌∷◌}
use duckdb_oracle.Duckdb.{Values, Strings}
use duckdb_oracle.Catalog.Registry.{Registry, register}
use duckdb_oracle.Attach.{
  AttachError, OracleCatalogState, SecretManager, AttachInfo, connection_string_of, oracle_attach,
}

-- `OracleStorageInfo` with the registry of the process.
pub record Extension : Type 0 where
  pub held : Option OracleCatalogState
  pub registry : Registry

-- Only a state that is made is registered.
unfoldable pub registry_after :
    Strings → Option OracleCatalogState → Result AttachError Text → Text → Registry → Registry
registry_after str held (throw problem) name r = r
registry_after str (some state) (ok connection_string) name r = r
registry_after str none (ok connection_string) name r = register str 0 name r

module _ (v : Values) (str : Strings) (manager : SecretManager v) where
  -- `OracleAttach` of a database with this name.
  unfoldable pub attach_as :
      Text → AttachInfo v → Extension → Extension × Result AttachError OracleCatalogState
  unfolding registry_after
  attach_as name info e =
      let (after, result) = oracle_attach v str manager e.held info in
      (
        record {
          held = after;
          registry =
              registry_after str e.held (connection_string_of v str manager info) name e.registry;
        },
        result,
      )

  unfoldable pub attach_named : List (Text × AttachInfo v) → Extension → Extension
  unfolding attach_as
  attach_named [] e = e
  attach_named ((name, info) ∷ infos) e = attach_named infos (attach_as name info e).0

-- `OracleCreateTransactionManager`: DuckDB's own, or that of a state.
pub data TransactionManager : Type 0 where
  duck_transactions : TransactionManager
  oracle_transactions : OracleCatalogState → TransactionManager

-- `info` is `none` where the extension has no storage info.
pub create_transaction_manager : Option Extension → TransactionManager
create_transaction_manager none = duck_transactions
create_transaction_manager (some e) = elim e.held [
  | none ↦ duck_transactions
  | some state ↦ oracle_transactions state
]
