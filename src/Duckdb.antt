-- ===== src/Duckdb.antt =====
-- DuckDB as the extension calls it: values, and the text helpers of `StringUtil` and
-- `KeywordHelper`. None of it stands in this repository, so it is an argument of the definitions;
-- the laws are what DuckDB documents of it.
use duckdb_oracle.Base.{List, ℕ, ◌≡◌, Bool, Option, some, Text, ℤ}

-- `duckdb::Value`. `GetValue` throws where the cast fails: that is `none`.
pub record Values : Type 1 where
  pub Value : Type 0
  pub to_string : Value → Text
  pub to_sql_string : Value → Text
  pub get_int64 : Value → Option ℤ
  pub get_bool : Value → Option Bool
  pub is_blob : Value → Bool
  pub get_string : Value → Text
  pub of_string : Text → Value
  pub bigint : ℤ → Value

pub record ValuesLaws (v : Values) : Type 0 where
  pub to_string-of_string : (s : Text) → v.to_string (v.of_string s) ≡ s
  pub get_int64-bigint : (n : ℤ) → v.get_int64 (v.bigint n) ≡ some n

-- `StringUtil::Upper`, `Lower`, `Split`, `Trim`, `Join`, `StartsWith` and `Contains`, and
-- `KeywordHelper::WriteQuoted(text, '"')`.
pub record Strings : Type 0 where
  pub upper : Text → Text
  pub lower : Text → Text
  pub split : Text → ℕ → List Text
  pub trim : Text → Text
  pub join : List Text → Text → Text
  pub starts_with : Text → Text → Bool
  pub contains : Text → Text → Bool
  pub write_quoted : Text → Text
