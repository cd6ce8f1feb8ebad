-- ===== src/Scan/Hex.antt =====
-- The round trip through hexadecimal digits.
use duckdb_oracle.Base.{
  ℕ, ◌+◌, ◌-◌, ◌*◌, ◌/◌, ◌%◌, ◌<◌, ◌≡◌, refl, [], ◌∷◌, arith, ltb, if◌then◌else◌, All, Text,
}
use duckdb_oracle.Scan.{hex_digit, decode_hex_to_blob}

-- The digit that RAWTOHEX of Oracle writes for a number below 16.
abbrev pub digit : ℕ → ℕ
digit n = if ltb n 10 then b'0' + n else b'A' + (n - 10)

abbrev pub rawtohex : Text → Text
rawtohex [] = []
rawtohex (byte ∷ bytes) = digit (byte / 16) ∷ digit (byte % 16) ∷ rawtohex bytes

hex_digit-digit : (n : ℕ) → n < 16 → hex_digit (digit n) ≡ n
unfolding hex_digit
hex_digit-digit n h = ground arith

-- The hexadecimal digits that Oracle writes for a BLOB are decoded to the bytes of that BLOB.
pub decode_hex_to_blob-rawtohex :
    (bytes : Text) → All (λ byte. byte < 256) bytes → decode_hex_to_blob (rawtohex bytes) ≡ bytes
unfolding decode_hex_to_blob
decode_hex_to_blob-rawtohex [] h = refl
decode_hex_to_blob-rawtohex (byte ∷ bytes) h =
    let high = hex_digit-digit (byte / 16) (omega (arith, h.0)) in
    let low = hex_digit-digit (byte % 16) (omega arith) in
    let whole : byte / 16 * 16 + byte % 16 ≡ byte = omega arith in
    rw (high, low, whole, decode_hex_to_blob-rawtohex bytes h.1) refl
