-- ===== src/Catalog/Version/Reached.antt =====
-- Which version information a state of src/storage/oracle_catalog.cpp can hold.
use duckdb_oracle.Base.{List, [], ◌∷◌, Option, Text, ℤ}
use duckdb_oracle.Duckdb.{Strings}
use duckdb_oracle.Settings.{OracleSettings}
use duckdb_oracle.Catalog.State.{CatalogState, Database}
use duckdb_oracle.Catalog.Refinement.{Request, serve}
use duckdb_oracle.Catalog.Version.{get_version_info}

-- What is asked of a state: one of the requests, or the version.
pub data VersionCall : Type 0 where
  request : Request → VersionCall
  version : VersionCall

module _ (str : Strings) (quote : Text → Text) (settings : OracleSettings)
    (stoi : Text → Option ℤ) where
  -- A state that was made, after calls while the database was each of these in turn.
  abbrev pub after : List (Database × VersionCall) → CatalogState → CatalogState
  after [] s = s
  after ((db, request wanted) ∷ calls) s = after calls (serve str quote settings db wanted s).0
  after ((db, version) ∷ calls) s = after calls (get_version_info str quote settings db stoi s).0
