-- ===== src/ConnectionString.antt =====
-- `ParseOracleConnectionString` of src/oracle_connection_manager.cpp.
mod Tests
pub mod Grammar
use duckdb_oracle.Base.{
  ℕ, ◌+◌, ◌-◌, ◌||◌, Option, none, some, Text, find, length, substr, substr_from, lit, refl, ◌≡◌,
  leb, ◌==◌, if◌then◌else◌, Result, ok, throw,
}

pub data ConnectionError : Type 0 where
  invalid_connection_string : ConnectionError

pub record Credentials : Type 0 where
  pub user : Text
  pub password : Text
  pub db : Text

-- `slash_pos == npos ? 0 : slash_pos`
abbrev search_start : Option ℕ → ℕ
search_start none = 0
search_start (some pos) = pos

split_at : Text → Option ℕ → Option ℕ → Result ConnectionError Credentials
split_at s none at_pos = throw invalid_connection_string
split_at s (some slash) none = throw invalid_connection_string
split_at s (some slash) (some at) =
    if slash == 0 || leb at (slash + 1) || at == length s - 1
    then throw invalid_connection_string
    else ok (record {
      user = substr s 0 slash;
      password = substr s (slash + 1) (at - slash - 1);
      db = substr_from s (at + 1);
    })

unfoldable pub parse_connection_string : Text → Result ConnectionError Credentials
unfolding split_at
parse_connection_string s =
    let slash_pos = find s b'/' 0 in split_at s slash_pos (find s b'@' (search_start slash_pos))
