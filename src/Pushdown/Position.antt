-- ===== src/Pushdown/Position.antt =====
-- Which column a pushed filter is about: `TryExtractComparison` of src/oracle_extension.cpp takes the
-- position of a binding for a position in the table.
