-- ===== src/Catalog.antt =====
-- `OracleCatalogState` of src/storage/oracle_catalog.cpp: the caches of an attached database, and the
-- queries that fill them.
-- Each operation holds the state's lock, so it is one step. The state outlives an exception. What the
-- database does is an argument: whether a login succeeds, and the rows that a query gives, with
-- `none` where it throws; `quote` is `Value(text).ToSQLString()`.
pub mod Queries
pub mod State
pub mod Answers
pub mod Generators
pub mod Coherence
pub mod Refinement
pub mod Registry
pub mod Version
mod Tests
