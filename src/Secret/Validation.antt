-- ===== src/Secret/Validation.antt =====
-- What `ParseOracleSecret` and `ValidateOracleSecret` of src/oracle_secret.cpp let pass.
use duckdb_oracle.Base.{
  lit, >>=-eq-ok, ℤ, pos, negsuc, to_idx, ℕ, ◌≤◌, ◌<◌, ◌≡◌, ◌≢◌, ◌↔◌, some, none, [], ok, arith,
  Option,
}
use duckdb_oracle.Duckdb.{Values}
use duckdb_oracle.Secret.{
  Options, parse_secret, check_port, OracleSecretParameters, validate_secret, parse_port,
}

pub record IsComplete (p : OracleSecretParameters) : Type 0 where
  pub user_given : p.user ≢ []
  pub service_given : p.service ≢ []
  pub password_given : p.password ≢ []
  pub port_pos : 0 < p.port
  pub port_small : p.port ≤ 65535

validate-IsComplete : (p : OracleSecretParameters) → validate_secret p ≡ ok tt → IsComplete p
unfolding validate_secret
validate-IsComplete p e = ground arith

validate_passes : (p : OracleSecretParameters) → IsComplete p → validate_secret p ≡ ok tt
unfolding validate_secret
validate_passes p h = ground arith

-- Validation passes exactly the parameters with a user, a service, a password and a port from 1 to
-- 65535.
pub validate_iff_IsComplete :
    (p : OracleSecretParameters) → (validate_secret p ≡ ok tt) ↔ IsComplete p
validate_iff_IsComplete p = (validate-IsComplete p, validate_passes p)

check_port_bounds : (o : Option ℤ) (n : ℕ) → check_port o ≡ ok n → (0 < n) × (n ≤ 65535)
unfolding check_port to_idx
check_port_bounds none n e = ground arith
check_port_bounds (some (pos k)) n e = ground arith
check_port_bounds (some (negsuc k)) n e = ground arith

parse_port_bounds :
    (v : Values) (o : Option v.Value) (n : ℕ) → parse_port v o ≡ ok n → (0 < n) × (n ≤ 65535)
unfolding parse_port
parse_port_bounds v none n e = ground arith
parse_port_bounds v (some val) n e = check_port_bounds (v.get_int64 val) n e

-- Whatever the options hold, the parsed port is from 1 to 65535.
pub parse_secret-port :
    (v : Values) (options : Options v) (p : OracleSecretParameters)
    → parse_secret v options ≡ ok p
    → (0 < p.port) × (p.port ≤ 65535)
unfolding parse_secret
parse_secret-port v options p e =
    let (port, parsed, rest) = >>=-eq-ok (parse_port v (options (lit "port"))) _ e in
    let bounds = parse_port_bounds v _ port parsed in
    let port_is : port ≡ p.port = ground arith in rw port_is at bounds
