-- ===== src/Functions/Environment.antt =====
-- `OracleGetEnv` with `OracleEnvFunction`, and `PathIsDirectory` with `OracleAttachWallet`, of
-- src/oracle_extension.cpp. `getenv`, `setenv` and `stat` are arguments; `stat` is `none` where it
-- fails, and else whether the path is a directory.
use duckdb_oracle.Base.{
  ◌∙◌, if_true, sym, ap, ◌++◌, empty, lit, if◌then◌else◌, Result, Bool, Option, ◌≡◌, Text, List,
  none, some, [], ◌∷◌, refl, ok, throw, true, false,
}

-- The process environment `E`, with what the C library documents of it.
pub record Environment : Type 1 where
  pub E : Type 0
  pub getenv : E → Text → Option Text
  pub setenv : Text → Text → E → E
  pub stat : Text → Option Bool
  pub getenv-setenv : (key val : Text) (e : E) → getenv (setenv key val e) key ≡ some val
  pub stat-empty : stat [] ≡ none

pub data WalletError : Type 0 where
  no_directory : Text → WalletError

-- `val && val[0] != '\0'`
abbrev value_or : Text → Option Text → Text
value_or default none = default
value_or default (some val) = if empty val then default else val

module _ (env : Environment) where
  open env use {E, getenv, setenv, stat}

  unfoldable pub oracle_get_env : E → Text → Text → Text
  oracle_get_env e key default = value_or default (getenv e key)

  -- `OracleEnvFunction`: a row with a NULL gives NULL, as `BinaryExecutor` documents.
  pub oracle_env_function : E → List (Option Text × Option Text) → List (Option Text)
  unfolding oracle_get_env
  oracle_env_function e [] = []
  oracle_env_function e ((some name, some default) ∷ rows) =
      some (oracle_get_env e name default) ∷ oracle_env_function e rows
  oracle_env_function e ((none, default) ∷ rows) = none ∷ oracle_env_function e rows
  oracle_env_function e ((some name, none) ∷ rows) = none ∷ oracle_env_function e rows

  unfoldable pub path_is_directory : Text → Bool
  path_is_directory path = elim (stat path) [ none ↦ false | some directory ↦ directory ]

  unfoldable pub oracle_attach_wallet : Text → E → E × Result WalletError Text
  unfolding path_is_directory
  oracle_attach_wallet wallet_path e =
      if path_is_directory wallet_path
      then (setenv (lit "TNS_ADMIN") wallet_path e, ok (lit "Wallet attached: " ++ wallet_path))
      else (e, throw (no_directory wallet_path))

  -- A directory has a path that is not empty.
  value_or-directory :
      (wallet_path default : Text)
      → path_is_directory wallet_path ≡ true
      → value_or default (some wallet_path) ≡ wallet_path
  unfolding path_is_directory
  value_or-directory [] default h =
      cc (sym h ∙ ap (λ s. elim s [ none ↦ false | some directory ↦ directory ]) env.stat-empty)
  value_or-directory (c ∷ path) default h = refl

  -- A wallet directory is what `oracle_env` gives for `TNS_ADMIN` afterwards, whatever its default.
  pub oracle_attach_wallet-env :
      (wallet_path default : Text) (e : E)
      → path_is_directory wallet_path ≡ true
      → oracle_env_function
          (oracle_attach_wallet wallet_path e).0
          ((some (lit "TNS_ADMIN"), some default) ∷ [])
        ≡ some wallet_path ∷ []
  unfolding oracle_attach_wallet oracle_env_function oracle_get_env
  oracle_attach_wallet-env wallet_path default e h =
      let set : (oracle_attach_wallet wallet_path e).0 ≡ setenv (lit "TNS_ADMIN") wallet_path e =
        ap (λ (out : E × Result WalletError Text). out.0) (if_true _ _ h) in
      ap (λ got. some (value_or default got) ∷ [])
        (ap (λ e'. getenv e' (lit "TNS_ADMIN")) set
          ∙ env.getenv-setenv (lit "TNS_ADMIN") wallet_path e)
      ∙ ap (λ val. some val ∷ []) (value_or-directory wallet_path default h)
