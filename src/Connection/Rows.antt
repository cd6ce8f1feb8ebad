-- ===== src/Connection/Rows.antt =====
-- The rows that a query of src/oracle_connection.cpp returns.
