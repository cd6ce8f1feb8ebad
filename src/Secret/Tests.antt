-- ===== src/Secret/Tests.antt =====
-- Runs of src/oracle_secret.cpp on a secret.
use duckdb_oracle.Base.{
  ◌≤◌, ◌<◌, ◌≡◌, ◌↔◌, refl, false, none, some, [], if◌then◌else◌, ok, lit, text_eq, has, pos,
  to_idx,
}
use duckdb_oracle.Samples.{samples, samples_laws, text_of, number_of}
use duckdb_oracle.ConnectionString.{parse_connection_string}
use duckdb_oracle.Secret.{
  Options, OracleSecretParameters, parse_secret, parse_port, check_port, service_or,
  validate_secret, create_secret, store_params, required_map, load_params, load_port, load_service,
  cast_port, build_from, build_connection_string,
}
use duckdb_oracle.Secret.Validation.{IsComplete, validate_iff_IsComplete, parse_secret-port}
use duckdb_oracle.Secret.RoundTrip.{build-create, parse-build_iff, ez_connect, ez_db, tns_admin_of}

abbrev given : Options samples
given key =
    if text_eq key (lit "user")
    then some (text_of (lit "scott"))
    else if text_eq key (lit "password")
    then some (text_of (lit "tiger"))
    else if text_eq key (lit "database")
    then some (text_of (lit "XEPDB1"))
    else if text_eq key (lit "port")
    then some (number_of (pos 1522))
    else none

abbrev parsed : OracleSecretParameters
parsed = record {
  host = lit "localhost";
  port = 1522;
  service = lit "XEPDB1";
  database = lit "XEPDB1";
  user = lit "scott";
  password = lit "tiger";
  wallet_path = [];
}

parses : parse_secret samples given ≡ ok parsed
unfolding parse_secret parse_port check_port service_or to_idx lit text_eq
parses = refl

validates : validate_secret parsed ≡ ok tt
unfolding validate_secret lit text_eq
validates = refl

creates : create_secret samples given ≡ ok (store_params samples parsed)
unfolding create_secret
creates = rw (parses, validates) refl

abbrev loaded : OracleSecretParameters
loaded = record parsed { database = [] }

loads : load_params samples (store_params samples parsed) ≡ ok loaded
unfolding load_params load_port load_service cast_port store_params required_map to_idx lit text_eq
loads = refl

loaded_validates : validate_secret loaded ≡ ok tt
unfolding validate_secret lit text_eq
loaded_validates = refl

builds : build_connection_string samples (store_params samples parsed) ≡ ok (build_from loaded)
unfolding build_connection_string
builds = rw (loads, loaded_validates) refl

parsed_passes : (validate_secret parsed ≡ ok tt) ↔ IsComplete parsed
parsed_passes = validate_iff_IsComplete parsed

port_in_range : (0 < 1522) × (1522 ≤ 65535)
port_in_range = parse_secret-port samples given parsed parses

build-create_example :
    (p : OracleSecretParameters) × (parse_secret samples given ≡ ok p)
    × IsComplete p
    × (build_connection_string samples (store_params samples parsed)
        ≡ ok (record { connection_string = ez_connect p; tns_admin = tns_admin_of p }))
build-create_example = build-create samples given (store_params samples parsed) samples_laws creates

parse-build_iff_example :
    (parse_connection_string (build_from loaded).connection_string
      ≡ ok (record { user = loaded.user; password = loaded.password; db = ez_db loaded }))
    ↔ ((has b'/' loaded.user ≡ false) × (has b'@' loaded.password ≡ false))
parse-build_iff_example =
    parse-build_iff samples (store_params samples parsed) loaded (build_from loaded) loads builds
