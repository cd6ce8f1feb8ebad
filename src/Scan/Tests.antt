-- ===== src/Scan/Tests.antt =====
-- Runs of the decoders.
use duckdb_oracle.Base.{
  ◌==◌, ap, if◌then◌else◌, none, map, ◌≢◌, Bool, Option, List, true, false, ◌≡◌, refl, some, [],
  ◌∷◌, arith, Text, lit,
}
use duckdb_oracle.Samples.{ascii}
use duckdb_oracle.Scan.{
  hex_digit, decode_hex_to_blob, parse_vector_json_to_list, parse_parts, remove_brackets,
}
use duckdb_oracle.Scan.Vectors.{VectorLaws, vector_json, parse_vector_json_to_list-vector_json}
use duckdb_oracle.Scan.Hex.{rawtohex, decode_hex_to_blob-rawtohex}

abbrev blob_bytes : Text
blob_bytes = 0 ∷ 255 ∷ 171 ∷ []

decodes_upper : decode_hex_to_blob (rawtohex blob_bytes) ≡ blob_bytes
decodes_upper = decode_hex_to_blob-rawtohex blob_bytes (ground arith)

-- Lower case is read too, and a digit without its pair is dropped.
decodes_lower : decode_hex_to_blob (lit "abF") ≡ 171 ∷ []
unfolding decode_hex_to_blob hex_digit lit
decodes_lower = refl

reads_vector : parse_vector_json_to_list ascii (λ t. some t) (lit "[12]") ≡ lit "12" ∷ []
unfolding parse_vector_json_to_list parse_parts remove_brackets lit
reads_vector = refl

-- Vectors of the numbers 1 and 0.
abbrev print_bit : Bool → Text
print_bit true = b'1' ∷ []
print_bit false = b'0' ∷ []

abbrev read_bit : Text → Option Bool
read_bit [] = none
read_bit (c ∷ []) = if c == b'1' then some true else if c == b'0' then some false else none
read_bit (c ∷ d ∷ s) = none

split-join_bits :
    (val : Bool) (vals : List Bool)
    → ascii.split (ascii.join (map print_bit (val ∷ vals)) (lit ",")) b','
      ≡ map print_bit (val ∷ vals)
unfolding lit
split-join_bits true [] = refl
split-join_bits false [] = refl
split-join_bits true (v ∷ vals) = ap (λ ts. (b'1' ∷ []) ∷ ts) (split-join_bits v vals)
split-join_bits false (v ∷ vals) = ap (λ ts. (b'0' ∷ []) ∷ ts) (split-join_bits v vals)

read-print_bit : (val : Bool) → read_bit (print_bit val) ≡ some val
read-print_bit true = refl
read-print_bit false = refl

print_bit_ne_nil : (val : Bool) → print_bit val ≢ []
print_bit_ne_nil true e = cc
print_bit_ne_nil false e = cc

join_bits_ne_nil :
    (val : Bool) (vals : List Bool) → ascii.join (map print_bit (val ∷ vals)) (lit ",") ≢ []
join_bits_ne_nil true [] e = cc
join_bits_ne_nil false [] e = cc
join_bits_ne_nil true (v ∷ vals) e = cc
join_bits_ne_nil false (v ∷ vals) e = cc

bits_laws : VectorLaws ascii read_bit print_bit
bits_laws = record {
  trim-print = λ val. refl;
  trim-json = λ vals. refl;
  split-join = split-join_bits;
  join_nil = refl;
  join_ne_nil = join_bits_ne_nil;
  print_ne_nil = print_bit_ne_nil;
  stof-print = read-print_bit;
}

abbrev bits : List Bool
bits = true ∷ false ∷ true ∷ []

numbers_read_back :
    parse_vector_json_to_list ascii read_bit (vector_json ascii print_bit bits) ≡ bits
numbers_read_back = parse_vector_json_to_list-vector_json ascii read_bit print_bit bits_laws bits
