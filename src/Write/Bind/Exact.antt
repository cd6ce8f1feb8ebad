-- ===== src/Write/Bind/Exact.antt =====
-- `OracleWriteBind` of src/storage/oracle_write.cpp prefers the table whose name is given exactly.
use duckdb_oracle.Base.{
  if-Holds, ℕ, zero, suc, ◌≡◌, ◌≢◌, ◌⊎◌, inl, inr, refl, sym, subst, true, not, ◌&&◌, some, List,
  [], ◌∷◌, arith, if◌then◌else◌, get_elem?, All, Text, text_eq, text_eq_refl, empty,
}
use duckdb_oracle.Duckdb.{Strings}
use duckdb_oracle.Write.Bind.{
  TableScan, new_scan, scan_row, scan_rows, first_table, keep_column, other_table,
}
use duckdb_oracle.Write.Bind.Tables.{NamesTable, Has, All-of, scan_rows-IsOneTable}

abbrev IsExact : TableScan → Type 0
IsExact scan = scan.found_exact ≡ true

module _ (str : Strings) (object_name : Text) where
  keep_column-IsExact :
      (table col type : Text) (scan : TableScan)
      → (text_eq table object_name ≡ true) ⊎ IsExact scan
      → IsExact (keep_column str object_name table col type scan)
  unfolding keep_column
  keep_column-IsExact table col type scan h =
      let found : (if text_eq table object_name then true else scan.found_exact) ≡ true =
        ground arith in
      if-Holds IsExact (text_eq table scan.best_table_name) (λ e. found) (λ e. found)

  other_table-IsExact :
      (owner table col type : Text) (scan : TableScan)
      → (text_eq table object_name ≡ true) ⊎ IsExact scan
      → IsExact (other_table str object_name owner table col type scan)
  unfolding other_table
  other_table-IsExact owner table col type scan h =
      if-Holds IsExact (text_eq table object_name && not scan.found_exact)
        (λ e. keep_column-IsExact table col type _ (inr refl))
        (λ e.
          if-Holds IsExact scan.found_exact (λ x. x)
            (λ x. keep_column-IsExact table col type scan h))

  scan_row-IsExact :
      (scan : TableScan) (owner table col type : Text) (more : List Text)
      → (text_eq table object_name ≡ true) ⊎ IsExact scan
      → IsExact (scan_row str object_name scan (owner ∷ table ∷ col ∷ type ∷ more))
  unfolding scan_row first_table
  scan_row-IsExact scan owner table col type more h =
      let s = first_table owner table scan in
      let first : (text_eq table object_name ≡ true) ⊎ IsExact s = elim h [
        | inl e ↦ inl e
        | inr e ↦ inr (if-Holds IsExact (empty scan.best_table_name) (λ x. e) (λ x. e))
      ] in
      if-Holds IsExact (text_eq table s.best_table_name)
        (λ e. keep_column-IsExact table col type s first)
        (λ e. other_table-IsExact owner table col type s first)

  scan_row-stays :
      (scan : TableScan) (row : List Text)
      → IsExact scan
      → IsExact (scan_row str object_name scan row)
  unfolding scan_row
  scan_row-stays scan (owner ∷ table ∷ col ∷ type ∷ more) h =
      scan_row-IsExact scan owner table col type more (inr h)
  scan_row-stays scan [] h = h
  scan_row-stays scan (a ∷ []) h = h
  scan_row-stays scan (a ∷ b ∷ []) h = h
  scan_row-stays scan (a ∷ b ∷ c ∷ []) h = h

  scan_rows-stays :
      (scan : TableScan) (rows : List (List Text))
      → IsExact scan
      → IsExact (scan_rows str object_name scan rows)
  unfolding scan_rows
  scan_rows-stays scan [] h = h
  scan_rows-stays scan (row ∷ rows) h =
      scan_rows-stays (scan_row str object_name scan row) rows (scan_row-stays scan row h)

  scan_rows-IsExact :
      (scan : TableScan) (rows : List (List Text)) (i : ℕ) (owner col type : Text)
      (more : List Text)
      → get_elem? rows i ≡ some (owner ∷ object_name ∷ col ∷ type ∷ more)
      → IsExact (scan_rows str object_name scan rows)
  unfolding scan_rows
  scan_rows-IsExact scan [] i owner col type more e = cc
  scan_rows-IsExact scan (row ∷ rows) zero owner col type more e =
      let row_is : row ≡ owner ∷ object_name ∷ col ∷ type ∷ more = ground arith in
      scan_rows-stays (scan_row str object_name scan row) rows (
        subst (λ r. IsExact (scan_row str object_name scan r)) (sym row_is)
          (scan_row-IsExact scan owner object_name col type more (inl (text_eq_refl object_name))))
  scan_rows-IsExact scan (row ∷ rows) (suc i) owner col type more e =
      scan_rows-IsExact (scan_row str object_name scan row) rows i owner col type more e

abbrev Anything : Text → Text → Text → Type 0
Anything table col type = Unit {0}

Anything-Has : (row : List Text) → Has Anything row
Anything-Has (owner ∷ table ∷ col ∷ type ∷ more) = tt
Anything-Has [] = tt
Anything-Has (a ∷ []) = tt
Anything-Has (a ∷ b ∷ []) = tt
Anything-Has (a ∷ b ∷ c ∷ []) = tt

-- Where every row names its table and one of them is of a table with exactly the name given, that
-- table is taken, wherever in the answer its rows stand.
pub scan_rows-exact :
    (str : Strings) (object_name : Text) (rows : List (List Text))
    → object_name ≢ []
    → All NamesTable rows
    → (i : ℕ) (owner col type : Text) (more : List Text)
    → get_elem? rows i ≡ some (owner ∷ object_name ∷ col ∷ type ∷ more)
    → (scan_rows str object_name new_scan rows).best_table_name ≡ object_name
scan_rows-exact str object_name rows ne names i owner col type more e =
    (scan_rows-IsOneTable Anything str object_name new_scan rows ne names
        (All-of rows (λ k row at. Anything-Has row))
        (record { of_best = λ c t f. tt; exact = λ f. cc; untouched = λ f c. refl })).exact
      (scan_rows-IsExact str object_name new_scan rows i owner col type more e)
