-- ===== src/Connection/Access.antt =====
-- The session of an `OracleConnection` and the numbers of an `OracleResult` in src/oracle_connection.cpp.
-- `acquires` is `Acquire`, with the number of the session that it gives; `stoll` and `stod` are the
-- functions of the standard library, `none` where they throw.
use duckdb_oracle.Base.{
  ◌≡◌, List, Bool, Result, ℕ, ℤ, Text, Option, [], ◌∷◌, refl, none, some, true, false, ok, throw,
}
use duckdb_oracle.Connection.{QueryError, OracleResult, get_string}

pub data AccessError : Type 0 where
  no_session not_a_number : AccessError
  no_cell : QueryError → AccessError

-- `Connect`: a session that is held is kept, whatever string is given.
unfoldable pub connect_session :
    (Text → Option ℕ) → Text → Option ℕ → Option ℕ × Result AccessError (Unit {0})
connect_session acquires connection_string (some handle) = (some handle, ok tt)
connect_session acquires connection_string none = elim (acquires connection_string) [
  | none ↦ (none, throw no_session)
  | some handle ↦ (some handle, ok tt)
]

-- `conn_handle != nullptr`
unfoldable pub is_connection_open : Option ℕ → Bool
is_connection_open none = false
is_connection_open (some handle) = true

abbrev as_number : {A : Type 0} → (Text → Option A) → Result QueryError Text → Result AccessError A
as_number read (throw problem) = throw (no_cell problem)
as_number read (ok text) = elim (read text) [ none ↦ throw not_a_number | some n ↦ ok n ]

-- `GetInt64`
pub get_int64 : (Text → Option ℤ) → OracleResult → ℕ → ℕ → Result AccessError ℤ
get_int64 stoll result i j = as_number stoll (get_string result i j)

-- `GetDouble`, into the type `D` of doubles.
pub get_double : {D : Type 0} → (Text → Option D) → OracleResult → ℕ → ℕ → Result AccessError D
get_double stod result i j = as_number stod (get_string result i j)

-- The sessions after a series of connects, and whether each returned.
unfoldable pub connect_each : (Text → Option ℕ) → List Text → Option ℕ → Option ℕ
unfolding connect_session
connect_each acquires [] handle = handle
connect_each acquires (c ∷ cs) handle =
    connect_each acquires cs (connect_session acquires c handle).0

-- The session is that of the first string that `Acquire` has a session for; no later one replaces it.
pub connect_each-keeps :
    (acquires : Text → Option ℕ) (cs : List Text) (handle : ℕ)
    → connect_each acquires cs (some handle) ≡ some handle
unfolding connect_each connect_session
connect_each-keeps acquires [] handle = refl
connect_each-keeps acquires (c ∷ cs) handle = connect_each-keeps acquires cs handle
