-- ===== src/Catalog/Queries.antt =====
-- The texts of the queries of src/storage/oracle_catalog.cpp.
use duckdb_oracle.Base.{ℕ, ◌++◌, map, ltb, if◌then◌else◌, Text, lit, decimal}
use duckdb_oracle.Duckdb.{Strings}

abbrev pub current_schema_query : Text
current_schema_query = lit "SELECT SYS_CONTEXT('USERENV', 'CURRENT_SCHEMA') FROM DUAL"

abbrev pub all_schemas_query : Text
all_schemas_query = lit "SELECT username FROM all_users ORDER BY username"

abbrev pub instance_query : Text
instance_query = lit "SELECT VERSION_FULL FROM V$INSTANCE"

abbrev pub component_query : Text
component_query = lit "SELECT VERSION FROM PRODUCT_COMPONENT_VERSION WHERE ROWNUM = 1"

module _ (quote : Text → Text) where
  pub tables_query : Text → Text
  tables_query schema =
      lit "SELECT table_name FROM all_tables WHERE owner = UPPER("
      ++ (quote schema ++ lit ") ORDER BY table_name")

  pub synonym_query : Text → Text → Text
  synonym_query schema synonym_name =
      lit "SELECT table_owner, table_name FROM all_synonyms WHERE synonym_name = UPPER("
      ++ (quote synonym_name
          ++ (lit ") AND (owner = UPPER("
              ++ (quote schema
                  ++ (lit ") OR owner = 'PUBLIC') ORDER BY CASE WHEN owner = UPPER("
                      ++ (quote schema ++ lit ") THEN 0 ELSE 1 END")))))

  pub exists_query : Text → Text → Text → Text
  exists_query schema object_name object_types =
      lit "SELECT 1 FROM all_objects WHERE owner = UPPER("
      ++ (quote schema
          ++ (lit ") AND object_name = UPPER("
              ++ (quote object_name
                  ++ (lit ") AND object_type IN (" ++ (object_types ++ lit ")")))))

  pub object_name_query : Text → Text → Text → Text
  object_name_query schema object_name object_types =
      lit "SELECT object_name FROM all_objects WHERE owner = UPPER("
      ++ (quote schema
          ++ (lit ") AND UPPER(object_name) = UPPER("
              ++ (quote object_name
                  ++ (lit ") AND object_type IN (" ++ (object_types ++ lit ")")))))

  pub schema_name_query : Text → Text
  schema_name_query name =
      lit "SELECT username FROM all_users WHERE UPPER(username) = UPPER(" ++ (quote name ++ lit ")")

  -- The quoted types of a list with commas.
  pub types_sql : Strings → Text → Text
  types_sql str object_types =
      str.join (map (λ type. quote (str.trim type)) (str.split object_types b',')) (lit ",")

  pub objects_query : Strings → ℕ → Text → Text → Text
  objects_query str limit schema object_types =
      let query =
        lit "SELECT object_name FROM all_objects WHERE owner = UPPER("
        ++ (quote schema
            ++ (lit ") AND object_type IN ("
                ++ (types_sql str object_types ++ lit ") ORDER BY object_name"))) in
      if ltb 0 limit
      then lit "SELECT * FROM (" ++ (query ++ (lit ") WHERE ROWNUM <= " ++ decimal limit))
      else query
