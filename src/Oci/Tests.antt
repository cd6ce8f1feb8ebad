-- ===== src/Oci/Tests.antt =====
-- A login that fails, and one whose NLS statement fails.
use duckdb_oracle.Base.{◌≡◌, ◌≢◌, inr, refl, Bool, true, false, ok, lit}
use duckdb_oracle.ConnectionString.{parse_connection_string, Credentials}
use duckdb_oracle.Oci.{OciCall, begin_session, execute_nls, Handles, new_setup, create_connection}
use duckdb_oracle.Oci.Release.{IsClean, create_connection-IsClean}
use duckdb_oracle.Oci.Leak.{Leaks, create_connection-Leaks}

abbrev before : Handles
before = record { errors = 1; services = 1; servers = 1; sessions = 1; statements = 3 }

abbrev no_login : OciCall → Bool
no_login begin_session = false
no_login _ = true

abbrev no_nls : OciCall → Bool
no_nls execute_nls = false
no_nls _ = true

create_connection-IsClean_example :
    IsClean before (create_connection no_login (lit "hr/pw@db") (new_setup before))
create_connection-IsClean_example =
    create_connection-IsClean no_login before (lit "hr/pw@db") refl refl

abbrev hr : Credentials
hr = record { user = lit "hr"; password = lit "pw"; db = lit "db" }

parses : parse_connection_string (lit "hr/pw@db") ≡ ok hr
unfolding parse_connection_string lit
parses = refl

only_execute : (other : OciCall) → other ≢ execute_nls → no_nls other ≡ true
only_execute execute_nls h = absurd (h refl)
only_execute _ h = refl

create_connection-Leaks_example :
    Leaks execute_nls before (create_connection no_nls (lit "hr/pw@db") (new_setup before))
create_connection-Leaks_example =
    create_connection-Leaks no_nls execute_nls before (lit "hr/pw@db") hr refl only_execute
      (inr refl) parses
