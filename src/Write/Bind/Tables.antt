-- ===== src/Write/Bind/Tables.antt =====
-- Which table `OracleWriteBind` of src/storage/oracle_write.cpp takes the types of.
use duckdb_oracle.Base.{
  if-Holds, ℕ, suc, ◌≡◌, ◌≢◌, ◌⊎◌, inl, inr, refl, sym, ◌∙◌, subst, true, false, not, ◌&&◌, Option,
  none, some, List, [], ◌∷◌, arith, if◌then◌else◌, Bool-cases, get_elem?, All, Text, text_eq,
  text_eq_iff, empty,
}
use duckdb_oracle.Duckdb.{Strings}
use duckdb_oracle.Write.Bind.{
  TableScan, new_scan, scan_row, scan_rows, first_table, keep_column, other_table, put,
}

-- A row of the answer with its four columns.
pub IsRow : List (List Text) → Text → Text → Text → Type 0
IsRow rows table col type =
    (i : ℕ) × (owner : Text) × (more : List Text) × (get_elem? rows i
      ≡ some (owner ∷ table ∷ col ∷ type ∷ more))

-- Every row names its table.
abbrev pub NamesTable : List Text → Type 0
NamesTable (owner ∷ table ∷ more) = table ≢ []
NamesTable row = Unit {0}

-- The row speaks of what `P` holds of.
abbrev pub Has : (Text → Text → Text → Type 0) → List Text → Type 0
Has P (owner ∷ table ∷ col ∷ type ∷ more) = P table col type
Has P row = Unit {0}

pub record IsOneTable (P : Text → Text → Text → Type 0) (object_name : Text) (scan : TableScan)
    : Type 0 where
  pub of_best :
      (col type : Text) → scan.col_type_map col ≡ some type → P scan.best_table_name col type
  pub exact : scan.found_exact ≡ true → scan.best_table_name ≡ object_name
  pub untouched : scan.best_table_name ≡ [] → (col : Text) → scan.col_type_map col ≡ none

put-cases :
    (m : Text → Option Text) (col type c t : Text)
    → put m col type c ≡ some t
    → ((col ≡ c) × (type ≡ t)) ⊎ (m c ≡ some t)
put-cases m col type c t e = ground (arith, text_eq_iff col c)

module _ (P : Text → Text → Text → Type 0) (str : Strings) (object_name : Text) where
  first_table-IsOneTable :
      (owner table : Text) (scan : TableScan)
      → IsOneTable P object_name scan
      → object_name ≢ []
      → table ≢ []
      → IsOneTable P object_name (first_table owner table scan)
  unfolding first_table
  first_table-IsOneTable owner table scan h ne given =
      elim (Bool-cases (empty scan.best_table_name)) [
        | inl e ↦
            let none_yet : scan.best_table_name ≡ [] = ground arith in
            rw e (record {
              of_best = λ col type f. cc (f, h.untouched none_yet col);
              exact = λ f. absurd (ne (sym (h.exact f) ∙ none_yet));
              untouched = λ f. absurd (given f);
            })
        | inr e ↦ rw e h
      ]

  first_table_some :
      (owner table : Text) (scan : TableScan)
      → table ≢ []
      → (first_table owner table scan).best_table_name ≢ []
  unfolding first_table
  first_table_some owner table scan given = ground arith

  keep_column-IsOneTable :
      (table col type : Text) (scan : TableScan)
      → IsOneTable P object_name scan
      → scan.best_table_name ≢ []
      → P table col type
      → (table ≡ object_name → scan.best_table_name ≡ object_name)
      → IsOneTable P object_name (keep_column str object_name table col type scan)
  unfolding keep_column
  keep_column-IsOneTable table col type scan h some_best holds exact_is =
      let exactly : (if text_eq table object_name then true else scan.found_exact) ≡ true
          → scan.best_table_name ≡ object_name =
        λ f. elim (Bool-cases (text_eq table object_name)) [
          | inl q ↦ exact_is ((text_eq_iff table object_name).0 q)
          | inr q ↦ h.exact (ground arith)
        ] in
      elim (Bool-cases (text_eq table scan.best_table_name)) [
        | inl e ↦
            let same : table ≡ scan.best_table_name =
              (text_eq_iff table scan.best_table_name).0 e in
            rw e (record {
              of_best = λ c t f. elim (put-cases scan.col_type_map col type c t f) [
                | inl q ↦
                    subst (λ b. P b c t) same
                      (subst (λ x. P table x t) q.0 (subst (λ x. P table col x) q.1 holds))
                | inr g ↦ h.of_best c t g
              ];
              exact = exactly;
              untouched = λ f. absurd (some_best f);
            })
        | inr e ↦
            rw e (record {
              of_best = h.of_best;
              exact = exactly;
              untouched = λ f. absurd (some_best f);
            })
      ]

  other_table-IsOneTable :
      (owner table col type : Text) (scan : TableScan)
      → IsOneTable P object_name scan
      → scan.best_table_name ≢ []
      → table ≢ []
      → P table col type
      → IsOneTable P object_name (other_table str object_name owner table col type scan)
  unfolding other_table
  other_table-IsOneTable owner table col type scan h some_best given holds =
      elim (Bool-cases (text_eq table object_name && not scan.found_exact)) [
        | inl e ↦
            let is_object : table ≡ object_name =
              (text_eq_iff table object_name).0 (ground arith) in
            rw e (
              keep_column-IsOneTable table col type _
                (record { of_best = λ c t f. cc; exact = λ f. is_object; untouched = λ f c. refl })
                given holds (λ q. q))
        | inr e ↦ rw e (
            if-Holds (IsOneTable P object_name) scan.found_exact (λ x. h)
              (λ x.
                let not_object : text_eq table object_name ≡ false = ground arith in
                keep_column-IsOneTable table col type scan h some_best holds
                  (λ q. cc ((text_eq_iff table object_name).1 q, not_object))))
      ]

  scan_row-IsOneTable :
      (scan : TableScan) (row : List Text)
      → object_name ≢ []
      → NamesTable row
      → Has P row
      → IsOneTable P object_name scan
      → IsOneTable P object_name (scan_row str object_name scan row)
  unfolding scan_row
  scan_row-IsOneTable scan (owner ∷ table ∷ col ∷ type ∷ more) ne given holds h =
      let first = first_table-IsOneTable owner table scan h ne given in
      let some_best = first_table_some owner table scan given in
      let s = first_table owner table scan in
      if-Holds (IsOneTable P object_name) (text_eq table s.best_table_name)
        (λ e.
          let same : table ≡ s.best_table_name = (text_eq_iff table s.best_table_name).0 e in
          keep_column-IsOneTable table col type s first some_best holds (λ q. sym same ∙ q))
        (λ e. other_table-IsOneTable owner table col type s first some_best given holds)
  scan_row-IsOneTable scan [] ne names holds h = h
  scan_row-IsOneTable scan (a ∷ []) ne names holds h = h
  scan_row-IsOneTable scan (a ∷ b ∷ []) ne names holds h = h
  scan_row-IsOneTable scan (a ∷ b ∷ c ∷ []) ne names holds h = h

  pub scan_rows-IsOneTable :
      (scan : TableScan) (rows : List (List Text))
      → object_name ≢ []
      → All NamesTable rows
      → All (Has P) rows
      → IsOneTable P object_name scan
      → IsOneTable P object_name (scan_rows str object_name scan rows)
  unfolding scan_rows
  scan_rows-IsOneTable scan [] ne names holds h = h
  scan_rows-IsOneTable scan (row ∷ rows) ne names holds h =
      scan_rows-IsOneTable (scan_row str object_name scan row) rows ne names.1 holds.1
        (scan_row-IsOneTable scan row ne names.0 holds.0 h)

pub All-of {ℓ κ} :
    {A : Type ℓ} {Q : A → Type κ} (xs : List A)
    → ((i : ℕ) (x : A) → get_elem? xs i ≡ some x → Q x)
    → All Q xs
All-of [] h = tt
All-of (x ∷ xs) h = (h 0 x refl, All-of xs (λ i. h (suc i)))

IsRow-Has :
    (rows : List (List Text)) (i : ℕ) (row : List Text)
    → get_elem? rows i ≡ some row
    → Has (IsRow rows) row
unfolding IsRow
IsRow-Has rows i (owner ∷ table ∷ col ∷ type ∷ more) e = (i, owner, more, e)
IsRow-Has rows i [] e = tt
IsRow-Has rows i (a ∷ []) e = tt
IsRow-Has rows i (a ∷ b ∷ []) e = tt
IsRow-Has rows i (a ∷ b ∷ c ∷ []) e = tt

-- Where the object has a name and every row names its table: every type that the scan keeps for a
-- column is that of a row of one table, the table that the scan settles on.
pub scan_rows-best :
    (str : Strings) (object_name : Text) (rows : List (List Text))
    → object_name ≢ []
    → All NamesTable rows
    → (col type : Text) → (scan_rows str object_name new_scan rows).col_type_map col ≡ some type
    → IsRow rows (scan_rows str object_name new_scan rows).best_table_name col type
scan_rows-best str object_name rows ne names =
    (scan_rows-IsOneTable (IsRow rows) str object_name new_scan rows ne names
      (All-of rows (IsRow-Has rows))
      (record { of_best = λ c t f. cc; exact = λ f. cc; untouched = λ f c. refl })).of_best
