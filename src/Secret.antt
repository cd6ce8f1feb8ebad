-- ===== src/Secret.antt =====
-- src/oracle_secret.cpp and src/include/oracle_secret.hpp: the parameters of an Oracle secret, their
-- validation, and the connection string that ATTACH builds from a stored secret.
-- An option map is what it answers to `find`; DuckDB's maps ignore the case of a key, and every
-- key that this code uses is a literal in lower case.
mod Tests
pub mod Validation
pub mod RoundTrip
use duckdb_oracle.Base.{
  ℕ, ◌||◌, Option, none, some, List, [], ◌∷◌, ◌++◌, Text, ℤ, pos, to_idx, is_le_zero, is_gt, lit,
  decimal, text_eq, ◌==◌, ltb, if◌then◌else◌, empty, Result, ok, throw, throw_if, ◌>>=◌, ◌>>◌,
}
use duckdb_oracle.Duckdb.{Values}

pub data SecretError : Type 0 where
  user_missing service_missing password_missing : SecretError
  port_refused : ℤ → SecretError
  port_out_of_range : ℕ → SecretError
  bad_cast : SecretError

pub record OracleSecretParameters : Type 0 where
  pub host : Text
  pub port : ℕ
  pub service : Text
  pub database : Text
  pub user : Text
  pub password : Text
  pub wallet_path : Text

abbrev pub default_host : Text
default_host = lit "localhost"

abbrev pub default_port : ℕ
default_port = 1521

pub validate_secret : OracleSecretParameters → Result SecretError (Unit {0})
validate_secret params = do
  throw_if (empty params.user) user_missing
  throw_if (empty params.service) service_missing
  throw_if (empty params.password) password_missing
  throw_if (params.port == 0 || ltb 65535 params.port) (port_out_of_range params.port)

check_port : Option ℤ → Result SecretError ℕ
check_port none = throw bad_cast
check_port (some n) =
    if is_le_zero n || is_gt n 65535 then throw (port_refused n) else ok (to_idx n)

cast_port : Option ℤ → Result SecretError ℕ
cast_port none = throw bad_cast
cast_port (some n) = ok (to_idx n)

-- DATABASE stands in for an empty SERVICE.
service_or : Text → Option Text → Text
service_or service none = service
service_or service (some database) = if empty service then database else service

abbrev pub or_default : Option Text → Text → Text
or_default none d = d
or_default (some s) d = s

-- What was built, and what `TNS_ADMIN` was set to, if it was.
pub record Built : Type 0 where
  pub connection_string : Text
  pub tns_admin : Option Text

build_from : OracleSecretParameters → Built
build_from params = record {
  connection_string =
      params.user
      ++ ((if empty params.password then [] else lit "/" ++ params.password)
          ++ (lit "@"
              ++ (params.host
                  ++ (lit ":" ++ (decimal params.port ++ (lit "/" ++ params.service))))));
  tns_admin = if empty params.wallet_path then none else some params.wallet_path;
}

module _ (v : Values) where
  open v use {Value, to_string, get_int64, of_string, bigint}

  abbrev pub Options : Type 0
  Options = Text → Option Value

  abbrev text_of : Options → Text → Option Text
  text_of options key = elim (options key) [ none ↦ none | some val ↦ some (to_string val) ]

  abbrev update : Options → Text → Value → Options
  update m key val other = if text_eq key other then some val else m other

  parse_port : Option Value → Result SecretError ℕ
  unfolding check_port
  parse_port none = ok default_port
  parse_port (some val) = check_port (get_int64 val)

  pub parse_secret : Options → Result SecretError OracleSecretParameters
  unfolding parse_port service_or
  parse_secret options = do
    port ← parse_port (options (lit "port"))
    ok (record {
      host = or_default (text_of options (lit "host")) default_host;
      port = port;
      service =
          service_or (or_default (text_of options (lit "service")) [])
            (text_of options (lit "database"));
      database = or_default (text_of options (lit "database")) [];
      user = or_default (text_of options (lit "user")) [];
      password = or_default (text_of options (lit "password")) [];
      wallet_path = or_default (text_of options (lit "wallet_path")) [];
    })

  pub record KeyValueSecret : Type 0 where
    pub secret_map : Options
    pub redact_keys : List Text

  -- The parameters as `BuildConnectionStringFromSecret` reads them back.
  load_port : Option Value → Result SecretError ℕ
  unfolding cast_port
  load_port none = ok default_port
  load_port (some val) = cast_port (get_int64 val)

  load_service : Option Text → Option Text → Text
  load_service (some service) database = service
  load_service none database = or_default database []

  pub load_params : KeyValueSecret → Result SecretError OracleSecretParameters
  unfolding load_port load_service
  load_params secret = do
    port ← load_port (secret.secret_map (lit "port"))
    ok (record {
      host = or_default (text_of secret.secret_map (lit "host")) default_host;
      port = port;
      service =
          load_service (text_of secret.secret_map (lit "service"))
            (text_of secret.secret_map (lit "database"));
      database = [];
      user = or_default (text_of secret.secret_map (lit "user")) [];
      password = or_default (text_of secret.secret_map (lit "password")) [];
      wallet_path = or_default (text_of secret.secret_map (lit "wallet_path")) [];
    })

  pub build_connection_string : KeyValueSecret → Result SecretError Built
  build_connection_string secret = do
    params ← load_params secret
    validate_secret params
    ok (build_from params)

  required_map : OracleSecretParameters → Options
  required_map params =
      update
        (update
          (update
            (update (update (λ _. none) (lit "host") (of_string params.host)) (lit "port")
              (bigint (pos params.port)))
            (lit "service") (of_string params.service))
          (lit "user") (of_string params.user))
        (lit "password") (of_string params.password)

  store_params : OracleSecretParameters → KeyValueSecret
  unfolding required_map
  store_params params = record {
    secret_map =
        if empty params.wallet_path
        then required_map params
        else update (required_map params) (lit "wallet_path") (of_string params.wallet_path);
    redact_keys = lit "password" ∷ [];
  }

  pub create_secret : Options → Result SecretError KeyValueSecret
  create_secret options = do
    params ← parse_secret options
    validate_secret params
    ok (store_params params)
