-- ===== src/ConnectionString/Tests.antt =====
-- Runs of src/oracle_connection_manager.cpp on connection strings.
use duckdb_oracle.Base.{◌≡◌, refl, ok, Text, lit}
use duckdb_oracle.ConnectionString.{parse_connection_string, Credentials}

abbrev scott : Text
scott = lit "scott/tiger@localhost:1521/XEPDB1"

abbrev scott_credentials : Credentials
scott_credentials = record {
  user = lit "scott";
  password = lit "tiger";
  db = lit "localhost:1521/XEPDB1";
}

scott_parses : parse_connection_string scott ≡ ok scott_credentials
unfolding parse_connection_string lit
scott_parses = refl
