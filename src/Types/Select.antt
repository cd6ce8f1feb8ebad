-- ===== src/Types/Select.antt =====
-- `GetScanFunction` of src/storage/oracle_table_entry.cpp: the query of a table of the catalog.
use mathlib.Core.List.{append_assoc}
use duckdb_oracle.Base.{
  length-snoc, if_true, ℕ, suc, ◌≡◌, refl, sym, ap, ◌∙◌, Bool, true, some, List, [], ◌∷◌, ◌++◌, map,
  arith, ltb, if◌then◌else◌, length, get_elem?, Text, lit,
}
use duckdb_oracle.Base.Joined.{separated, continued, separated-continued}
use duckdb_oracle.Duckdb.{Strings}
use duckdb_oracle.Types.{OracleColumnMetadata, select_item}
use duckdb_oracle.Types.Columns.{Column}

get-middle {ℓ} :
    {A : Type ℓ} (before : List A) (x : A) (xs : List A)
    → get_elem? (before ++ (x ∷ xs)) (length before) ≡ some x
get-middle [] x xs = refl
get-middle (y ∷ before) x xs = get-middle before x xs

module _ (str : Strings) (enable_type_conversion supports_json try_native_lobs : Bool) where
  -- The loop over the columns, from column `col_idx` on.
  column_list : ℕ → List Text → List OracleColumnMetadata → Text
  column_list col_idx [] metadata = []
  column_list col_idx (name ∷ names) metadata =
      (if ltb 0 col_idx then lit ", " else [])
      ++ (select_item str enable_type_conversion supports_json try_native_lobs name
            (get_elem? metadata col_idx)
          ++ column_list (suc col_idx) names metadata)

  pub scan_function_query : Text → Text → List Text → List OracleColumnMetadata → Text
  unfolding column_list
  scan_function_query schema_name table_name names metadata =
      lit "SELECT "
      ++ (column_list 0 names metadata
          ++ (lit " FROM "
              ++ (str.write_quoted schema_name ++ (lit "." ++ str.write_quoted table_name))))

  -- What a column is fetched as.
  abbrev pub item : Column → Text
  item c =
      select_item str enable_type_conversion supports_json try_native_lobs c.name (some c.metadata)

  column_list-continued :
      (before : List OracleColumnMetadata) (first : OracleColumnMetadata) (columns : List Column)
      → column_list
          (length (first ∷ before))
          (map (λ c. c.name) columns)
          ((first ∷ before) ++ map (λ c. c.metadata) columns)
        ≡ continued (map item columns)
  unfolding column_list
  column_list-continued before first [] = refl
  column_list-continued before first (c ∷ columns) =
      let metadata = first ∷ (before ++ (c.metadata ∷ map (λ d. d.metadata) columns)) in
      let names = map (λ d. d.name) columns in
      let more = before ++ (c.metadata ∷ []) in
      let rest : column_list (suc (suc (length before))) names metadata
          ≡ continued (map item columns) =
        ap (λ n. column_list n names metadata) (sym (ap suc (length-snoc before c.metadata)))
        ∙ ap (λ all. column_list (suc (length more)) names (first ∷ all))
            (sym (append_assoc before (c.metadata ∷ []) (map (λ d. d.metadata) columns)))
        ∙ column_list-continued more first columns in
      let after : ltb 0 (suc (length before)) ≡ true = ground arith in
      ap
        (λ separator.
          separator
          ++ (select_item str enable_type_conversion supports_json try_native_lobs c.name
                (get_elem? metadata (suc (length before)))
              ++ column_list (suc (suc (length before))) names metadata))
        (if_true _ _ after)
      ∙ ap
          (λ m.
            lit ", "
            ++ (select_item str enable_type_conversion supports_json try_native_lobs c.name m
                ++ column_list (suc (suc (length before))) names metadata))
          (get-middle before c.metadata (map (λ d. d.metadata) columns))
      ∙ ap (λ t. lit ", " ++ (item c ++ t)) rest

  column_list-separated :
      (columns : List Column)
      → column_list 0 (map (λ c. c.name) columns) (map (λ c. c.metadata) columns)
        ≡ separated (map item columns)
  unfolding column_list
  column_list-separated [] = refl
  column_list-separated (c ∷ columns) =
      ap (λ t. item c ++ t) (column_list-continued [] c.metadata columns)
      ∙ sym (separated-continued (item c) (map item columns))

  -- The query of a table selects, with commas between them, one item for each column in the order of
  -- the columns, and each item is made from the metadata of its own column; it names the quoted
  -- schema and table.
  pub scan_function_query-separated :
      (schema_name table_name : Text) (columns : List Column)
      → scan_function_query schema_name table_name
          (map (λ c. c.name) columns)
          (map (λ c. c.metadata) columns)
        ≡ lit "SELECT "
          ++ (separated (map item columns)
              ++ (lit " FROM "
                  ++ (str.write_quoted schema_name ++ (lit "." ++ str.write_quoted table_name))))
  unfolding scan_function_query
  scan_function_query-separated schema_name table_name columns =
      ap
        (λ items.
          lit "SELECT "
          ++ (items
              ++ (lit " FROM "
                  ++ (str.write_quoted schema_name ++ (lit "." ++ str.write_quoted table_name)))))
        (column_list-separated columns)
