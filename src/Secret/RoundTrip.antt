-- ===== src/Secret/RoundTrip.antt =====
-- From CREATE SECRET to the credentials of the session: `CreateOracleSecretFromConfig` and
-- `BuildConnectionStringFromSecret` of src/oracle_secret.cpp, and
-- `ParseOracleConnectionString` of src/oracle_connection_manager.cpp.
use duckdb_oracle.Base.{
  ok-injective, subst, to_idx, ◌>>◌, ℕ, ◌≡◌, refl, ap, ◌∙◌, ◌≢◌, ◌↔◌, some, none, [], ◌∷◌, ◌++◌,
  false, Text, lit, ok, empty, arith, >>=-eq-ok, Option, has, decimal, text_eq, if◌then◌else◌,
}
use duckdb_oracle.Duckdb.{Values, ValuesLaws}
use duckdb_oracle.ConnectionString.{parse_connection_string}
use duckdb_oracle.ConnectionString.Grammar.{Spells, parse_iff_Spells}
use duckdb_oracle.Secret.{
  OracleSecretParameters, validate_secret, parse_secret, Options, build_from, store_params,
  load_params, create_secret, build_connection_string, KeyValueSecret, Built,
}
use duckdb_oracle.Secret.Validation.{IsComplete, validate_iff_IsComplete}

-- host:port/service
abbrev pub ez_db : OracleSecretParameters → Text
ez_db p = p.host ++ b':' ∷ (decimal p.port ++ b'/' ∷ p.service)

-- user/password@host:port/service
abbrev pub ez_connect : OracleSecretParameters → Text
ez_connect p = p.user ++ b'/' ∷ (p.password ++ b'@' ∷ ez_db p)

abbrev pub tns_admin_of : OracleSecretParameters → Option Text
tns_admin_of p = if empty p.wallet_path then none else some p.wallet_path

build_from-ez_connect :
    (p : OracleSecretParameters)
    → p.password ≢ []
    → build_from p ≡ record { connection_string = ez_connect p; tns_admin = tns_admin_of p }
unfolding build_from lit
build_from-ez_connect p h = ground arith

-- A built text comes from complete parameters.
build_inv :
    (v : Values) (secret : KeyValueSecret v) (p : OracleSecretParameters) (b : Built)
    → load_params v secret ≡ ok p
    → build_connection_string v secret ≡ ok b
    → IsComplete p × (b ≡ build_from p)
unfolding build_connection_string
build_inv v secret p b l e =
    let e' : (validate_secret p >> ok (build_from p)) ≡ ok b =
      rw (l, build_connection_string) at e in
    let (_, valid, built) = >>=-eq-ok (validate_secret p) (λ _. ok (build_from p)) e' in
    ((validate_iff_IsComplete p).0 valid, ground arith)

append-cons-ne-nil : (s : Text) (c : ℕ) (t : Text) → s ++ c ∷ t ≢ []
append-cons-ne-nil [] c t e = cc
append-cons-ne-nil (d ∷ s) c t e = cc

ez_connect-Spells :
    (p : OracleSecretParameters)
    → IsComplete p
    → has b'/' p.user ≡ false
    → has b'@' p.password ≡ false
    → Spells (ez_connect p) (record { user = p.user; password = p.password; db = ez_db p })
ez_connect-Spells p h hu hp = record {
  splits = refl;
  user_free = hu;
  password_free = hp;
  user_ne_nil = h.user_given;
  password_ne_nil = h.password_given;
  db_ne_nil = append-cons-ne-nil p.host b':' _;
}

-- Storing and loading keeps every parameter but DATABASE, which SERVICE has replaced.
load-store :
    (v : Values)
    → ValuesLaws v
    → (p : OracleSecretParameters)
    → load_params v (store_params v p) ≡ ok (record p { database = [] })
unfolding load_params store_params text_eq lit to_idx
load-store v laws p = load-store_at p.wallet_path refl
  where
    load-store_at :
        (w : Text)
        → p.wallet_path ≡ w
        → load_params v (store_params v p) ≡ ok (record p { database = [] })
    load-store_at [] e =
        rw (e, store_params) (simp (laws.to_string-of_string, laws.get_int64-bigint))
    load-store_at (c ∷ w) e =
        rw (e, store_params) (simp (laws.to_string-of_string, laws.get_int64-bigint))

-- A loaded secret with complete parameters builds their text.
build_of :
    (v : Values) (secret : KeyValueSecret v) (p : OracleSecretParameters)
    → load_params v secret ≡ ok p
    → IsComplete p
    → build_connection_string v secret
      ≡ ok (record { connection_string = ez_connect p; tns_admin = tns_admin_of p })
unfolding build_connection_string
build_of v secret p l h =
    rw (l, (validate_iff_IsComplete p).1 h, build_from-ez_connect p h.password_given)

-- Where a value keeps the text or the number that it was made of: a secret that was created with
-- success builds the string user/password@host:port/service of its parsed, complete parameters,
-- and sets `TNS_ADMIN` exactly when a wallet path is given.
pub build-create :
    (v : Values) (options : Options v) (secret : KeyValueSecret v)
    → ValuesLaws v
    → create_secret v options ≡ ok secret
    → (p : OracleSecretParameters) × (parse_secret v options ≡ ok p)
      × IsComplete p
      × (build_connection_string v secret
          ≡ ok (record { connection_string = ez_connect p; tns_admin = tns_admin_of p }))
unfolding create_secret build_connection_string
build-create v options secret laws e =
    let (p, parsed, rest) = >>=-eq-ok (parse_secret v options) _ e in
    let (_, valid, stored) = >>=-eq-ok (validate_secret p) (λ _. ok (store_params v p)) rest in
    let complete = (validate_iff_IsComplete p).0 valid in
    (
      p,
      parsed,
      complete,
      subst
          (λ s.
            build_connection_string v s
            ≡ ok (record { connection_string = ez_connect p; tns_admin = tns_admin_of p }))
          (ok-injective stored)
          (build_of v (store_params v p) (record p { database = [] }) (load-store v laws p)
            (record {
              user_given = complete.user_given;
              service_given = complete.service_given;
              password_given = complete.password_given;
              port_pos = complete.port_pos;
              port_small = complete.port_small;
            })),
    )

-- For a stored secret from which a connection string is built: the session gets the user, the
-- password and the database of the secret exactly when the user has no '/' and the password has no
-- '@'.
pub parse-build_iff :
    (v : Values) (secret : KeyValueSecret v) (p : OracleSecretParameters) (b : Built)
    → load_params v secret ≡ ok p
    → build_connection_string v secret ≡ ok b
    → (parse_connection_string b.connection_string
        ≡ ok (record { user = p.user; password = p.password; db = ez_db p }))
      ↔ ((has b'/' p.user ≡ false) × (has b'@' p.password ≡ false))
parse-build_iff v secret p b l e =
    let (complete, built) = build_inv v secret p b l e in
    let text_is : b.connection_string ≡ ez_connect p =
      ap (λ (x : Built). x.connection_string)
        (built ∙ build_from-ez_connect p complete.password_given) in
    let grammar =
      parse_iff_Spells b.connection_string
        (record { user = p.user; password = p.password; db = ez_db p }) in
    (
      λ read. ((grammar.0 read).user_free, (grammar.0 read).password_free),
      λ free. grammar.1 (rw text_is (ez_connect-Spells p complete free.0 free.1)),
    )
