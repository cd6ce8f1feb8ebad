-- ===== src/Types/Entry/Told.antt =====
-- What the query of a scan in src/storage/oracle_table_entry.cpp selects for the rows that the
-- database has told of the columns, without the columns that are made of them.
use duckdb_oracle.Base.{
  sym, ◌++◌, map, lit, ◌≡◌, List, [], ◌∷◌, ℤ, ◌⊎◌, inl, inr, Option, Text, Bool, true, some, refl,
  ap, if◌then◌else◌, if-Holds, leb, length, ◌&&◌, arith, suc, if_true, ◌∙◌,
}
use duckdb_oracle.Duckdb.{Strings}
use duckdb_oracle.Types.{OracleColumnMetadata, select_item, requires_query_rewrite}
use duckdb_oracle.Types.Columns.{Column, load_columns}
use duckdb_oracle.Types.Select.{item}

abbrev first_text : List Text → Text
first_text [] = []
first_text (cell ∷ cells) = cell

-- The first cells of the rows that have six cells or more.
abbrev pub told_names : List (List Text) → List Text
told_names [] = []
told_names (row ∷ rows) =
    let rest = told_names rows in if leb 6 (length row) then first_text row ∷ rest else rest

-- The column of this name under its name: as it is, or, with type conversion on, some expression.
abbrev pub IsItem : Strings → Bool → Text → Text → Type 0
IsItem str enable_type_conversion name text =
    (text ≡ str.write_quoted name)
    ⊎ ((enable_type_conversion ≡ true)
        × ((expression : Text) × (text ≡ expression ++ (lit " AS " ++ str.write_quoted name))))

-- One item for each name, in order.
abbrev pub IsSelected : Strings → Bool → List Text → List Text → Type 0
IsSelected str enable_type_conversion [] [] = Unit {0}
IsSelected str enable_type_conversion (name ∷ names) (text ∷ texts) =
    IsItem str enable_type_conversion name text × IsSelected str enable_type_conversion names texts
IsSelected str enable_type_conversion [] (text ∷ texts) = ⊥
IsSelected str enable_type_conversion (name ∷ names) [] = ⊥

module _ (str : Strings) where
  pub load_columns-told_names :
      (stoll : Text → Option ℤ) (vector_to_list enable_spatial_types : Bool)
      (rows : List (List Text))
      → map (λ c. c.name) (load_columns str stoll vector_to_list enable_spatial_types rows)
        ≡ told_names rows
  unfolding load_columns
  load_columns-told_names stoll v e [] = refl
  load_columns-told_names stoll v e ((name ∷ b ∷ c ∷ d ∷ f ∷ g ∷ more) ∷ rows) =
      let six : leb 6 (suc (suc (suc (suc (suc (suc (length more))))))) ≡ true = ground arith in
      ap (λ names. name ∷ names) (load_columns-told_names stoll v e rows) ∙ sym (if_true _ _ six)
  load_columns-told_names stoll v e ([] ∷ rows) = load_columns-told_names stoll v e rows
  load_columns-told_names stoll v e ((a ∷ []) ∷ rows) = load_columns-told_names stoll v e rows
  load_columns-told_names stoll v e ((a ∷ b ∷ []) ∷ rows) = load_columns-told_names stoll v e rows
  load_columns-told_names stoll v e ((a ∷ b ∷ c ∷ []) ∷ rows) =
      load_columns-told_names stoll v e rows
  load_columns-told_names stoll v e ((a ∷ b ∷ c ∷ d ∷ []) ∷ rows) =
      load_columns-told_names stoll v e rows
  load_columns-told_names stoll v e ((a ∷ b ∷ c ∷ d ∷ f ∷ []) ∷ rows) =
      load_columns-told_names stoll v e rows

  select_item-IsItem :
      (convert json lobs : Bool) (name : Text) (meta : OracleColumnMetadata)
      → IsItem str convert name (select_item str convert json lobs name (some meta))
  unfolding select_item
  select_item-IsItem convert json lobs name meta =
      if-Holds (IsItem str convert name) (convert && requires_query_rewrite str meta json lobs)
        (λ rewritten. inr (ground arith, (_, refl))) (λ plain. inl refl)

  pub items-IsSelected :
      (convert json lobs : Bool) (columns : List Column)
      → IsSelected str convert
          (map (λ c. c.name) columns)
          (map (item str convert json lobs) columns)
  items-IsSelected convert json lobs [] = tt
  items-IsSelected convert json lobs (c ∷ columns) = (
    select_item-IsItem convert json lobs c.name c.metadata,
    items-IsSelected convert json lobs columns,
  )
