-- ===== src/Attach.antt =====
-- `OracleAttach` of src/storage/oracle_storage_extension.cpp: the connection string of a database, and
-- the catalog state that the extension keeps.
-- DuckDB's secret manager is an argument; the access mode and the path that DuckDB's own storage gets
-- are left out, and the registry of states is in Aliases. The state is an object that all attached databases share,
-- so an ATTACH takes what the extension holds and gives back what it holds then.
pub mod Shared
pub mod Aliases
mod Tests
use duckdb_oracle.Base.{
  ℕ, zero, suc, ◌+◌, ◌-◌, ◌*◌, ◌/◌, ◌%◌, ◌^◌, ◌≤◌, ◌<◌, ◌≡◌, ◌≢◌, ◌↔◌, ◌⊎◌, inl, inr, refl, sym, ap,
  ◌∙◌, subst, Bool, true, false, not, ◌&&◌, ◌||◌, Option, none, some, List, [], ◌∷◌, ◌++◌, map,
  arith, ltb, leb, ◌==◌, if◌then◌else◌, ==_refl, ==_iff, Bool-cases, Option-cases, Result, ok,
  throw, ◌>>=◌, ◌>>◌, throw_if, >>=-eq-ok, ok-injective, length, get_elem?, take, drop, replicate,
  length-append, take-append_self, drop-append_self, length-replicate, length-map, All, Text, lit,
  text_eq, text_eq_iff, text_eq_refl, empty, has, index, find, substr, substr_from, decimal, ℤ, pos,
  negsuc, to_idx, is_le_zero, is_gt, u64_mod, String,
}
use duckdb_oracle.Duckdb.{Values, Strings}
use duckdb_oracle.Secret.{SecretError, KeyValueSecret, build_connection_string}
use duckdb_oracle.Settings.{OracleSettings, default_settings, SettingError, apply_option}

pub data AttachError : Type 0 where
  secret_not_found : Text → AttachError
  no_secret type_mismatch not_key_value : AttachError
  secret_refused : SecretError → AttachError
  option_refused : SettingError → AttachError

pub record OracleCatalogState : Type 0 where
  pub connection_string : Text
  pub settings : OracleSettings

module _ (v : Values) where
  open v use {Value, to_string}

  -- `secret` is `none` where the secret is no key-value secret.
  pub record SecretEntry : Type 0 where
    pub type_name : Text
    pub secret : Option (KeyValueSecret v)

  -- `GetSecretByName`, and `LookupSecret` of the type oracle.
  pub record SecretManager : Type 0 where
    pub by_name : Text → Option SecretEntry
    pub by_type : Option SecretEntry

  -- The path and the options of ATTACH.
  pub record AttachInfo : Type 0 where
    pub path : Text
    pub options : List (Text × Value)

  -- `options.options.count("secret")`
  secret_option : Strings → List (Text × Value) → Option Text
  secret_option str [] = none
  secret_option str ((key, val) ∷ options) =
      let rest = secret_option str options in
      if text_eq (str.lower key) (lit "secret") then some (to_string val) else rest

  secret_entry : SecretManager → Option Text → Result AttachError SecretEntry
  secret_entry manager (some name) = elim (manager.by_name name) [
    | none ↦ throw (secret_not_found name)
    | some entry ↦ ok entry
  ]
  secret_entry manager none = elim manager.by_type [
    | none ↦ throw no_secret
    | some entry ↦ ok entry
  ]

  built_string : KeyValueSecret v → Result AttachError Text
  built_string secret = elim (build_connection_string v secret) [
    | ok built ↦ ok built.connection_string
    | throw e ↦ throw (secret_refused e)
  ]

  string_of_secret : SecretEntry → Result AttachError Text
  unfolding built_string
  string_of_secret entry =
      if text_eq entry.type_name (lit "oracle")
      then elim entry.secret [ none ↦ throw not_key_value | some secret ↦ built_string secret ]
      else throw type_mismatch

  pub connection_string_of : Strings → SecretManager → AttachInfo → Result AttachError Text
  unfolding secret_option secret_entry string_of_secret
  connection_string_of str manager info =
      if empty info.path
      then (do
        entry ← secret_entry manager (secret_option str info.options)
        string_of_secret entry)
      else ok info.path

  -- `ApplyOptions` on the shared settings: the options before one that throws stay applied.
  pub apply_in_place :
      Strings → List (Text × Value) → OracleSettings → OracleSettings × Option SettingError
  apply_in_place str [] s = (s, none)
  apply_in_place str ((key, val) ∷ options) s = elim (apply_option v (str.lower key) val s) [
    | ok s' ↦ apply_in_place str options s'
    | throw e ↦ (s, some e)
  ]

  -- `oracle_info->state`, or a new state for this connection string.
  state_for : Option OracleCatalogState → Text → OracleCatalogState
  state_for (some state) connection_string = state
  state_for none connection_string = record {
    connection_string = connection_string;
    settings = default_settings;
  }

  pub finish :
      OracleCatalogState
      → OracleSettings × Option SettingError
      → Option OracleCatalogState × Result AttachError OracleCatalogState
  finish state (settings, none) =
      (some (record state { settings = settings }), ok (record state { settings = settings }))
  finish state (settings, some e) =
      (some (record state { settings = settings }), throw (option_refused e))

  -- What the extension holds afterwards, and the state of the new database.
  pub oracle_attach :
      Strings
      → SecretManager
      → Option OracleCatalogState
      → AttachInfo
      → Option OracleCatalogState × Result AttachError OracleCatalogState
  unfolding state_for
  oracle_attach str manager held info = elim (connection_string_of str manager info) [
    | throw e ↦ (held, throw e)
    | ok connection_string ↦
        let state = state_for held connection_string in
        finish state (apply_in_place str info.options state.settings)
  ]

  -- Several databases, one after the other: the states that they got.
  pub attach_all :
      Strings
      → SecretManager
      → Option OracleCatalogState
      → List AttachInfo
      → List (Result AttachError OracleCatalogState)
  attach_all str manager held [] = []
  attach_all str manager held (info ∷ infos) =
      let (after, result) = oracle_attach str manager held info in
      result ∷ attach_all str manager after infos
