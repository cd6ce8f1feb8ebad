-- ===== src/Samples.antt =====
-- A small DuckDB for the tests: values that are texts or numbers, and the text helpers on ASCII.
use duckdb_oracle.Base.{
  ℕ, suc, ◌+◌, ◌-◌, refl, Bool, true, false, not, ◌&&◌, ◌||◌, Option, none, some, List, [], ◌∷◌,
  ◌++◌, map, leb, ◌==◌, if◌then◌else◌, Text, decimal, ℤ, pos, negsuc, is_le_zero,
}
use duckdb_oracle.Duckdb.{Values, ValuesLaws, Strings}

pub data Sample : Type 0 where
  text_of : Text → Sample
  number_of : ℤ → Sample

abbrev sample_text : Sample → Text
sample_text (text_of t) = t
sample_text (number_of (pos n)) = decimal n
sample_text (number_of (negsuc n)) = b'-' ∷ decimal (suc n)

abbrev sample_number : Sample → Option ℤ
sample_number (text_of t) = none
sample_number (number_of n) = some n

abbrev sample_flag : Sample → Option Bool
sample_flag (text_of t) = none
sample_flag (number_of n) = some (not (is_le_zero n))

abbrev pub samples : Values
samples = record {
  Value = Sample;
  to_string = sample_text;
  to_sql_string = sample_text;
  get_int64 = sample_number;
  get_bool = sample_flag;
  is_blob = λ _. false;
  get_string = sample_text;
  of_string = text_of;
  bigint = number_of;
}

pub samples_laws : ValuesLaws samples
samples_laws = record { to_string-of_string = λ s. refl; get_int64-bigint = λ n. refl }

abbrev upper_byte : ℕ → ℕ
upper_byte c = if leb 97 c && leb c 122 then c - 32 else c

abbrev lower_byte : ℕ → ℕ
lower_byte c = if leb 65 c && leb c 90 then c + 32 else c

abbrev prefix : Text → Text → Bool
prefix s [] = true
prefix [] (d ∷ t) = false
prefix (c ∷ s) (d ∷ t) = (c == d) && prefix s t

abbrev contains_text : Text → Text → Bool
contains_text [] t = prefix [] t
contains_text (c ∷ s) t = prefix (c ∷ s) t || contains_text s t

abbrev join_texts : List Text → Text → Text
join_texts [] sep = []
join_texts (t ∷ []) sep = t
join_texts (t ∷ u ∷ ts) sep = t ++ (sep ++ join_texts (u ∷ ts) sep)

abbrev put_before : ℕ → List Text → List Text
put_before c [] = (c ∷ []) ∷ []
put_before c (t ∷ ts) = (c ∷ t) ∷ ts

abbrev split_texts : Text → ℕ → List Text
split_texts [] c = [] ∷ []
split_texts (d ∷ s) c =
    let rest = split_texts s c in if d == c then [] ∷ rest else put_before d rest

abbrev double_quotes : Text → Text
double_quotes [] = []
double_quotes (c ∷ s) = if c == 34 then c ∷ c ∷ double_quotes s else c ∷ double_quotes s

abbrev pub ascii : Strings
ascii = record {
  upper = map upper_byte;
  lower = map lower_byte;
  split = split_texts;
  trim = λ s. s;
  join = join_texts;
  starts_with = prefix;
  contains = contains_text;
  write_quoted = λ s. 34 ∷ (double_quotes s ++ (34 ∷ []));
}
