-- ===== src/Scan/Vectors.antt =====
-- Vectors that Oracle serializes, as `ParseVectorJsonToList` of src/oracle_extension.cpp reads them.
use duckdb_oracle.Base.{
  ℕ, ◌+◌, ◌-◌, ◌≡◌, ◌≢◌, refl, true, false, Option, some, List, [], ◌∷◌, ◌++◌, map, arith, ltb,
  ==_refl, length, length-append, take-append_self, Text, lit, empty,
}
use duckdb_oracle.Duckdb.{Strings}
use duckdb_oracle.Scan.{last_is, remove_brackets, parse_parts, parse_vector_json_to_list}

-- The serialized form: the printed numbers with commas between them, in brackets.
abbrev pub vector_json {ℓ} : {F : Type ℓ} → Strings → (F → Text) → List F → Text
vector_json str print vals = b'[' ∷ (str.join (map print vals) (lit ",") ++ (b']' ∷ []))

-- What is documented of the helpers, for the printed numbers: trimming leaves such texts as they
-- are, `Split` undoes `Join`, and `std::stof` reads the number.
pub record VectorLaws {ℓ} {F : Type ℓ} (str : Strings) (stof : Text → Option F) (print : F → Text)
    : Type ℓ where
  pub trim-print : (val : F) → str.trim (print val) ≡ print val
  pub trim-json :
      (vals : List F) → str.trim (vector_json str print vals) ≡ vector_json str print vals
  pub split-join :
      (val : F) (vals : List F)
      → str.split (str.join (map print (val ∷ vals)) (lit ",")) b',' ≡ map print (val ∷ vals)
  pub join_nil : str.join [] (lit ",") ≡ []
  pub join_ne_nil : (val : F) (vals : List F) → str.join (map print (val ∷ vals)) (lit ",") ≢ []
  pub print_ne_nil : (val : F) → print val ≢ []
  pub stof-print : (val : F) → stof (print val) ≡ some val

empty-ne-nil : (s : Text) → s ≢ [] → empty s ≡ false
empty-ne-nil [] h = absurd (h refl)
empty-ne-nil (c ∷ s) h = refl

last_is-append : (c d : ℕ) (s : Text) → last_is c (d ∷ (s ++ (c ∷ []))) ≡ true
last_is-append c d [] = ==_refl c
last_is-append c d (e ∷ s) = last_is-append c e s

remove_brackets-wrap : (s : Text) → remove_brackets (b'[' ∷ (s ++ (b']' ∷ []))) ≡ s
unfolding remove_brackets
remove_brackets-wrap s =
    let size : length (b'[' ∷ (s ++ (b']' ∷ []))) ≡ length s + 2 =
      omega (arith, length-append s (b']' ∷ [])) in
    let long : ltb 1 (length (b'[' ∷ (s ++ (b']' ∷ [])))) ≡ true = ground (arith, size) in
    let inner : length (b'[' ∷ (s ++ (b']' ∷ []))) - 2 ≡ length s = omega (arith, size) in
    rw (long, last_is-append b']' b'[' s, inner) (take-append_self s (b']' ∷ []))

module _ {ℓ} {F : Type ℓ} (str : Strings) (stof : Text → Option F) (print : F → Text)
    (laws : VectorLaws str stof print) where
  parse_parts-print : (vals : List F) → parse_parts str stof (map print vals) ≡ vals
  unfolding parse_parts
  parse_parts-print [] = refl
  parse_parts-print (val ∷ vals) =
      let given = empty-ne-nil (print val) (laws.print_ne_nil val) in
      rw (laws.trim-print val, given, laws.stof-print val, parse_parts-print vals) refl

  -- Under the laws of the text helpers for the printed numbers: numbers printed as a JSON array
  -- are read back, the same ones in the same order, for the empty array too.
  pub parse_vector_json_to_list-vector_json :
      (vals : List F) → parse_vector_json_to_list str stof (vector_json str print vals) ≡ vals
  unfolding parse_vector_json_to_list
  parse_vector_json_to_list-vector_json [] =
      rw (laws.trim-json [], parse_vector_json_to_list)
        (rw (remove_brackets-wrap (str.join [] (lit ",")), laws.join_nil) refl)
  parse_vector_json_to_list-vector_json (val ∷ vals) =
      let body = str.join (map print (val ∷ vals)) (lit ",") in
      rw (laws.trim-json (val ∷ vals), parse_vector_json_to_list)
        (rw
          (
            remove_brackets-wrap body,
            empty-ne-nil body (laws.join_ne_nil val vals),
            laws.split-join val vals,
          )
          (parse_parts-print (val ∷ vals)))
