-- ===== src/Scan.antt =====
-- Decoding of fetched texts in src/oracle_extension.cpp: `ParseVectorJsonToList` and
-- `DecodeHexToBlob`. A byte is a number below 256.
pub mod Describe
pub mod Define
pub mod Start
pub mod Whole
pub mod Fetch
pub mod Hex
pub mod Vectors
mod Tests
use duckdb_oracle.Base.{
  ℕ, zero, suc, ◌+◌, ◌-◌, ◌*◌, ◌/◌, ◌%◌, ◌^◌, ◌≤◌, ◌<◌, ◌≡◌, ◌≢◌, ◌↔◌, ◌⊎◌, inl, inr, refl, sym, ap,
  ◌∙◌, subst, Bool, true, false, not, ◌&&◌, ◌||◌, Option, none, some, List, [], ◌∷◌, ◌++◌, map,
  arith, ltb, leb, ◌==◌, if◌then◌else◌, ==_refl, ==_iff, Bool-cases, Option-cases, Result, ok,
  throw, ◌>>=◌, ◌>>◌, throw_if, >>=-eq-ok, ok-injective, length, get_elem?, take, drop, replicate,
  length-append, take-append_self, drop-append_self, length-replicate, length-map, All, Text, lit,
  text_eq, text_eq_iff, text_eq_refl, empty, has, index, find, substr, substr_from, decimal, ℤ, pos,
  negsuc, to_idx, is_le_zero, is_gt, u64_mod, String,
}
use duckdb_oracle.Duckdb.{Strings}

-- The lambda of `DecodeHexToBlob`; any other character counts as 0.
pub hex_digit : ℕ → ℕ
hex_digit c =
    if leb b'0' c && leb c b'9'
    then c - b'0'
    else if leb b'A' c && leb c b'F'
    then c - b'A' + 10
    else if leb b'a' c && leb c b'f'
    then c - b'a' + 10
    else 0

-- `(high << 4) | low` with a `low` below 16; a last digit without its pair is dropped.
pub decode_hex_to_blob : Text → Text
unfolding hex_digit
decode_hex_to_blob [] = []
decode_hex_to_blob (high ∷ []) = []
decode_hex_to_blob (high ∷ low ∷ rest) =
    (hex_digit high * 16 + hex_digit low) ∷ decode_hex_to_blob rest

abbrev last_is : ℕ → Text → Bool
last_is c [] = false
last_is c (d ∷ []) = d == c
last_is c (d ∷ e ∷ s) = last_is c (e ∷ s)

-- `if (s.size() >= 2 && s.front() == '[' && s.back() == ']')`
pub remove_brackets : Text → Text
remove_brackets s = if ltb 1 (length s) && last_is b']' s then substr s 1 (length s - 2) else s

-- `stof` is `std::stof`; `none` is an exception, and the part is skipped.
pub parse_parts {ℓ} : {F : Type ℓ} → Strings → (Text → Option F) → List Text → List F
parse_parts str stof [] = []
parse_parts str stof (part ∷ parts) =
    let rest = parse_parts str stof parts in
    let t = str.trim part in
    if empty t then rest else elim (stof t) [ none ↦ rest | some val ↦ val ∷ rest ]

pub parse_vector_json_to_list {ℓ} : {F : Type ℓ} → Strings → (Text → Option F) → Text → List F
parse_vector_json_to_list str stof json_str = elim (str.trim json_str) [
  | [] ↦ []
  | c ∷ s ↦
      if c == b'['
      then (let inner = remove_brackets (c ∷ s) in
          if empty inner then [] else parse_parts str stof (str.split inner b','))
      else []
]
