-- ===== src/Catalog/Version.antt =====
-- `DetectOracleVersion` and `GetVersionInfo` of src/storage/oracle_catalog.cpp and
-- src/include/oracle_catalog_state.hpp. `stoi` is `std::stoi`, with `none` where it throws.
pub mod Features
pub mod Kept
pub mod Reached
use duckdb_oracle.Base.{
  ◌≡◌, true, false, ◌&&◌, ◌||◌, Bool, List, [], ◌∷◌, Option, some, none, ok, Text, if◌then◌else◌,
  empty, ℤ, pos, negsuc, is_gt, ◌==◌, ℕ, get_elem?,
}
use duckdb_oracle.Duckdb.{Strings}
use duckdb_oracle.Settings.{OracleSettings}
use duckdb_oracle.Base.Action.{Action, ◌>>=◌, ◌>>◌, returns, reads, changes, catch_all}
use duckdb_oracle.Catalog.Queries.{instance_query, component_query}
use duckdb_oracle.Catalog.State.{
  CatalogState, CatalogError, Database, OracleVersionInfo, ask, ensure_connection, first_cell,
}

abbrev pub is_int : ℤ → ℕ → Bool
is_int (pos n) k = n == k
is_int (negsuc n) k = false

-- `rows[0][0]` is there.
abbrev pub has_cell : List (List Text) → Bool
has_cell ((cell ∷ more) ∷ rows) = true
has_cell rows = false

unfoldable pub with_features : OracleVersionInfo → OracleVersionInfo
with_features info = record info {
  supports_json_type = is_gt info.major 20;
  supports_vector = is_gt info.major 22;
  supports_vector_serialize = is_gt info.major 23 || (is_int info.major 23 && is_gt info.minor 3);
}

module _ (str : Strings) (stoi : Text → Option ℤ) where
  -- One number of the version; what is there stays where a part is missing or no number.
  version_part : List Text → ℕ → ℤ → ℤ
  version_part parts i old = elim (get_elem? parts i) [
    | none ↦ old
    | some part ↦ elim (stoi part) [ none ↦ old | some n ↦ n ]
  ]

  pub with_parts : List Text → OracleVersionInfo → OracleVersionInfo
  unfolding version_part
  with_parts parts info = record info {
    major = version_part parts 0 info.major;
    minor = version_part parts 1 info.minor;
    patch = version_part parts 2 info.patch;
  }

  unfoldable pub parse_version : Text → OracleVersionInfo → OracleVersionInfo
  unfolding with_parts with_features
  parse_version version_str info =
      if empty version_str
      then info
      else with_features (with_parts (str.split version_str b'.') info)

module _ (str : Strings) (quote : Text → Text) (settings : OracleSettings) (db : Database)
    (stoi : Text → Option ℤ) where
  abbrev pub VersionStep {ℓ} : Type ℓ → Type ℓ
  VersionStep A = Action CatalogState CatalogError A

  -- The second query is asked where the first gives no row.
  unfoldable pub ask_version : VersionStep Text
  ask_version = do
    rows ← ask str quote settings db instance_query
    (if has_cell rows
        then returns (first_cell rows)
        else ask str quote settings db component_query >>= λ others. returns (first_cell others))

  unfoldable pub set_version : VersionStep (Unit {0})
  unfolding ask_version parse_version
  set_version = do
    version_str ← ask_version
    changes (λ s. record s { version_info = parse_version str stoi version_str s.version_info })

  -- `DetectOracleVersion`
  unfoldable pub detect_oracle_version : VersionStep (Unit {0})
  unfolding set_version
  detect_oracle_version s =
      if s.version_detected
      then (s, ok tt)
      else (do
        ensure_connection str quote settings db
        catch_all set_version (returns tt)
        changes (λ t. record t { version_detected = true }))
          s

  -- `GetVersionInfo`
  unfoldable pub get_version_info : VersionStep OracleVersionInfo
  unfolding detect_oracle_version
  get_version_info s =
      (do
        (if s.version_detected then returns tt else detect_oracle_version)
        reads (λ t. t.version_info))
        s
