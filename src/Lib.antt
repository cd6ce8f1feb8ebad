-- ===== src/Lib.antt =====
-- A verification library of the Oracle extension of DuckDB: src/ of the repository.
--
-- The program. ATTACH or a table function names an Oracle database by a connection string, or by a
-- secret from which one is built. A scan takes a session from the connection pool, builds a SELECT
-- for the columns of a table, and the optimizer pushes filters and the projection into it. COPY TO
-- looks the target table up, prepares an INSERT and sends each chunk of rows as an OCI array bind.
-- The settings of the attached database and those of the session steer all of it. Beside the scans,
-- `oracle_execute` runs one statement, and `oracle_clear_cache` drops what was cached.
--
-- The files.
-- - Base: lists, texts as lists of bytes, `int64_t` and its cast to `idx_t`, and `Result`, the
--   value or the exception of a call. Base/Action is code that changes a state and may throw,
--   Base/Joined lists with commas, and Base/Search has the lemmas on `std::string::find`.
-- - Duckdb: the parts of DuckDB that the extension calls, as records that the definitions take
--   as arguments, with the documented laws that a theorem needs. Samples has an instance of
--   each.
-- - ConnectionString: `ParseOracleConnectionString` of src/oracle_connection_manager.cpp.
--   Grammar has the texts that it accepts.
-- - Secret: src/oracle_secret.cpp. Validation has what is let pass; RoundTrip follows a secret
--   from its creation to the credentials of the session.
-- - Pool: `OracleConnectionManager` and its pools. A state is the heap of pools, the map from
--   connection strings, the live handles, the connection attempts under way and the threads that
--   wait. A step is what one thread does while it holds a lock, and a history is a list of
--   steps, so a theorem on all lists holds of every interleaving. Accounting, Sessions and
--   Exclusive each have an invariant, and History below them carries it along a history; so does
--   Cleared, for the sessions that are given out after a `Clear`. Service has the limit of a
--   pool.
-- - Oci: `CreateConnection` and the destructor of `OracleContext`, in the same file: the handles
--   that are taken and given back. Ownership ties the pointers of a context to its handles;
--   Release has what holds where the settings of the session can be made, Leak where they
--   cannot.
-- - Connection: `OracleConnection` of src/oracle_connection.cpp, the queries of the catalog;
--   Rows has what a query returns, Access the session and the readers of a result. Transactions:
--   src/storage/oracle_transaction_manager.cpp, with Sessions for the sessions that its
--   transactions keep.
-- - Write: src/storage/oracle_write.cpp. Bind is `OracleWriteBind`, Bind/Tables and Bind/Exact
--   the table that it settles on; Insert is the INSERT statement, and Insert/Columns its two
--   lists; Buffers is `BindColumn` on one column's bytes, lengths and indicators, with what OCI
--   reads back; Sink sizes, binds and fills the buffers of a chunk, with Sizing and Delivery for
--   their room and their contents; Copy is a whole COPY on a session of the pool, with
--   Copy/Outcome for what it commits and leaves; Statement is its statement handle, from the
--   constructor of the global state on, with Statement/Inserts for what a COPY does that nothing
--   refuses, and Statement/Leak for the handle that is never freed.
-- - Pushdown: `OraclePushdownComplexFilter` of src/oracle_extension.cpp. Meaning gives filters
--   and conditions their meaning on rows, Split has one filter, Rows all of them, Answers the
--   rows of the pushed query, Position the column that a pushed filter is about; Mapping is the
--   column mapping of `OracleInitGlobal`.
-- - Types: src/include/oracle_table_entry.hpp and src/storage/oracle_table_entry.cpp:
--   categories, rewrites and DuckDB types of columns. Columns is `LoadColumns`, Select the query
--   of `GetScanFunction`. Entry is `Create` on the state of the catalog, Entry/Told describes
--   what a scan selects, and Entry/Scanned goes from an entry to the query of its scan.
-- - Scan: the decoders `ParseVectorJsonToList` and `DecodeHexToBlob` of
--   src/oracle_extension.cpp; Hex has the hexadecimal digits, Vectors the serialized vectors.
--   Describe is `OracleBindInternal` from what OCI tells of the columns, and Describe/Aligned
--   the lists of the bind data. Define is the define loop of `OracleInitGlobal`, with
--   Define/Bounds for the room of the fetch buffers and Define/Projected for the fetch types.
--   Start is the rest of `OracleInitGlobal`, with the copies that the planner makes of the bind
--   data, and Start/Prepared what a scan starts with. Fetch is `OracleQueryFunction`: a run
--   takes the replies of the cursor one by one, as DuckDB calls until a chunk is empty;
--   Fetch/Delivery has what a whole scan gives, Fetch/Named which column a value comes from;
--   Whole goes from the bind data to the rows, and Whole/Filtered adds what Oracle answers to
--   the query with its filters.
-- - Catalog: `OracleCatalogState` of src/storage/oracle_catalog.cpp. Queries has the texts of
--   the queries, State the operations, Answers what they would answer without a state.
--   Generators is src/storage/oracle_schema_entry.cpp, which makes entries of the catalog from
--   names. Coherence is the invariant of the caches, with the lemmas on each operation below it;
--   Refinement follows any series of requests. Version is the detection of the release,
--   Version/Features what it reports, Version/Reached which versions a state can hold, with
--   Version/Kept for the requests that leave it. Registry is the list of the states with their
--   aliases, Registry/Lookup what an alias finds.
-- - Attach: `OracleAttach` of src/storage/oracle_storage_extension.cpp. A run of several ATTACH
--   hands the state that the extension holds from one to the next; Shared follows it. Aliases
--   has the registry over several ATTACH, and Aliases/First which aliases are known afterwards.
-- - Settings: src/include/oracle_settings.hpp, `ApplyOptions` and `GetOracleSettings`. Valid has
--   the bounds of the counts, Session the settings of the session.
-- - Functions: the scalar functions of src/oracle_extension.cpp. Target is the connection string
--   or the alias that `oracle_execute` and `oracle_query` are given, with Target/Accepted;
--   Execute is `oracle_execute`, Execute/Outcome what it leaves and reports, Execute/AfterCopy
--   what it does to the session of a COPY that has failed. Caches is `oracle_clear_cache`, with
--   Caches/Renewed; Environment is `oracle_env` and `oracle_attach_wallet`; Options has the
--   settings that `Load` registers, and Options/Session what a scan gets in a session.
-- - The modules named Tests run the definitions on small inputs.
--
-- Bounds. Numbers are unbounded except where the code casts: `idx_t` is 64 bits, `ub4` 32, `ub2` 16 and
-- `uint8_t` 8, each with its wrap-around written out. The loops are structural recursions. A scan
-- takes a list of replies and gives `none` where it asks for more than these. Only `decimal` has
-- fuel, one more than the number, which has fewer digits than that.
--
-- Not modelled. OCI, DuckDB and the C library do not stand in the repository: what they return is
-- an argument, a choice of the environment or a step. Locks are taken as they are documented, so a
-- thread in a critical section is one step, but for a cached acquisition, where the lookup of the
-- pool and the first turn of the loop are one. Which waiter wakes, and when, is any choice, so
-- `notify_one` is not a part of the state. Debug output and the call timeout of statements are
-- left out. A binding of a filter is a position in the columns that the scan is asked for
-- (`column_ids`), as in DuckDB. Oracle is taken to compare values as DuckDB does, and to read the
-- text of a constant and of a quoted name as that constant and that column. The settings of a
-- catalog state stay as they are while it serves requests. `oracle_execute` and
-- `oracle_attach_wallet` are modelled on the first row of their input, the only one that the code
-- looks at. The fetch buffer of 4096 bytes of `OracleConnection::Query` is left out, so a cell
-- comes back whole, and so is the refusal of `ColumnList` of two columns whose names differ only
-- in case. What a refused batch of a COPY has inserted is the environment's choice, also where the
-- refusal comes before its execution. `LoadInternal`, which registers names and callbacks with
-- DuckDB, and the entry points of the library are not modelled.
mod Base
pub mod Duckdb
pub mod ConnectionString
pub mod Secret
pub mod Pool
pub mod Oci
pub mod Connection
pub mod Transactions
pub mod Write
pub mod Pushdown
pub mod Types
pub mod Settings
pub mod Samples
pub mod Attach
pub mod Scan
pub mod Catalog
pub mod Functions
