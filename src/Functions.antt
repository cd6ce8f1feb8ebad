-- ===== src/Functions.antt =====
-- The functions that src/oracle_extension.cpp registers beside the scans: `oracle_execute`,
-- `oracle_env`, `oracle_attach_wallet` and `oracle_clear_cache`, and the settings of the session.
-- `oracle_execute` and `oracle_attach_wallet` look at the first row of their input only, and are
-- modelled on that row.
pub mod Target
pub mod Execute
pub mod Caches
pub mod Options
pub mod Environment
mod Tests
