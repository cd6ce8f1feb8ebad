-- ===== src/Write/Buffers/Slots.antt =====
-- Each row of a column has a slot of its own in the bind buffer of src/storage/oracle_write.cpp.
use duckdb_oracle.Base.{
  ◌%◌, ◌≢◌, ap, ◌^◌, ℕ, zero, suc, ◌+◌, ◌*◌, ◌≤◌, ◌<◌, ◌≡◌, refl, ◌∙◌, subst, false, Option, none,
  some, List, [], ◌∷◌, arith, ltb, ok, ok-injective, length, All, Text,
}
use duckdb_oracle.Write.Buffers.{
  read_row, read_rows, ColumnBuffer, memcpy, store_null, store_text, bind_column, read_bytes,
  put_at,
}

memcpy_below : (f : ℕ → ℕ) (off : ℕ) (t : Text) (k : ℕ) → k < off → memcpy f off t k ≡ f k
unfolding memcpy
memcpy_below f off [] k h = refl
memcpy_below f off (c ∷ t) k h = ground (arith, memcpy_below (put_at f off c) (off + 1) t k)

read-memcpy_self : (f : ℕ → ℕ) (off : ℕ) (t : Text) → read_bytes (memcpy f off t) off (length t) ≡ t
unfolding memcpy
read-memcpy_self f off [] = refl
read-memcpy_self f off (c ∷ t) = ground (
  arith,
  memcpy_below (put_at f off c) (off + 1) t off,
  read-memcpy_self (put_at f off c) (off + 1) t,
)

read-memcpy_below :
    (f : ℕ → ℕ) (off : ℕ) (t : Text) (from n : ℕ)
    → from + n ≤ off
    → read_bytes (memcpy f off t) from n ≡ read_bytes f from n
read-memcpy_below f off t from zero h = refl
read-memcpy_below f off t from (suc n) h =
    ground (arith, memcpy_below f off t from, read-memcpy_below f off t (from + 1) n)

-- Slots of different rows do not meet.
slot_below : (j i size : ℕ) → j < i → j * size + size ≤ i * size
slot_below j i size h = grind arith

abbrev pub Fits : ℕ → Option Text → Type 0
Fits size none = Unit {0}
Fits size (some t) = length t ≤ size

-- What a loop over the rows from `i` on leaves as it was.
record Extends (b c : ColumnBuffer) (i : ℕ) : Type 0 where
  same_size : c.element_size ≡ b.element_size
  same_capacity : c.capacity ≡ b.capacity
  same_bound : c.bound_size ≡ b.bound_size
  same_null : (j : ℕ) → j < i → c.is_null j ≡ b.is_null j
  same_length : (j : ℕ) → j < i → c.lengths j ≡ b.lengths j
  same_bytes :
      (j n : ℕ)
      → j < i
      → n ≤ b.element_size
      → read_bytes c.bytes (j * b.element_size) n ≡ read_bytes b.bytes (j * b.element_size) n

Extends-refl : (b : ColumnBuffer) (i : ℕ) → Extends b b i
Extends-refl b i = record {
  same_size = refl;
  same_capacity = refl;
  same_bound = refl;
  same_null = λ j h. refl;
  same_length = λ j h. refl;
  same_bytes = λ j n h k. refl;
}

Extends-null : (b c : ColumnBuffer) (i : ℕ) → Extends (store_null b i) c (i + 1) → Extends b c i
Extends-null b c i x = record {
  same_size = x.same_size;
  same_capacity = x.same_capacity;
  same_bound = x.same_bound;
  same_null = λ j h. ground (arith, x.same_null j);
  same_length = λ j h. ground (arith, x.same_length j);
  same_bytes = λ j n h k. x.same_bytes j n (omega arith) k;
}

Extends-text :
    (b c : ColumnBuffer) (i : ℕ) (t : Text) → Extends (store_text b i t) c (i + 1) → Extends b c i
Extends-text b c i t x = record {
  same_size = x.same_size;
  same_capacity = x.same_capacity;
  same_bound = x.same_bound;
  same_null = λ j h. ground (arith, x.same_null j);
  same_length = λ j h. ground (arith, x.same_length j);
  same_bytes = λ j n h k.
      x.same_bytes j n (omega arith) k
      ∙ read-memcpy_below b.bytes (i * b.element_size) t (j * b.element_size) n
          (omega (arith, slot_below j i b.element_size h));
}

bind_column-Extends :
    (cells : List (Option Text)) (b c : ColumnBuffer) (i : ℕ)
    → bind_column b i cells ≡ ok c
    → Extends b c i
unfolding bind_column
bind_column-Extends [] b c i e = subst (λ x. Extends b x i) (ok-injective e) (Extends-refl b i)
bind_column-Extends (none ∷ cells) b c i e =
    Extends-null b c i (bind_column-Extends cells (store_null b i) c (i + 1) e)
bind_column-Extends (some t ∷ cells) b c i e =
    Extends-text b c i t (bind_column-Extends cells (store_text b i t) c (i + 1) (ground arith))

-- The loop ends without an exception where every text fits its slot.
pub bind_column_total :
    (cells : List (Option Text)) (b : ColumnBuffer) (i : ℕ)
    → All (Fits b.element_size) cells
    → (c : ColumnBuffer) × (bind_column b i cells ≡ ok c)
unfolding bind_column
bind_column_total [] b i h = (b, refl)
bind_column_total (none ∷ cells) b i h = bind_column_total cells (store_null b i) (i + 1) h.1
bind_column_total (some t ∷ cells) b i h =
    let (c, e) = bind_column_total cells (store_text b i t) (i + 1) h.1 in
    let small : ltb b.element_size (length t) ≡ false = ground (arith, h.0) in (c, rw small e)

abbrev pub IsShort : Option Text → Type 0
IsShort none = Unit {0}
IsShort (some t) = length t < 2 ^ 16

read_row-null :
    (b c : ColumnBuffer) (i : ℕ) → Extends (store_null b i) c (i + 1) → read_row c i ≡ none
unfolding read_row
read_row-null b c i x = ground (arith, x.same_null i)

read_row-text :
    (b c : ColumnBuffer) (i : ℕ) (t : Text)
    → Extends (store_text b i t) c (i + 1)
    → b.bound_size ≡ b.element_size
    → length t ≤ b.element_size
    → length t < 2 ^ 16
    → read_row c i ≡ some t
unfolding read_row
read_row-text b c i t x bound fits short =
    let null_is : c.is_null i ≡ false = ground (arith, x.same_null i) in
    let length_is : c.lengths i ≡ length t = ground (arith, x.same_length i) in
    let size_is : c.bound_size ≡ b.element_size = x.same_bound ∙ bound in
    rw (null_is, length_is, size_is)
      (ap some (
        x.same_bytes i (length t) (omega arith) fits
        ∙ read-memcpy_self b.bytes (i * b.element_size) t))

bind_column_fits :
    (t : Text) (cells : List (Option Text)) (b c : ColumnBuffer) (i : ℕ)
    → bind_column b i (some t ∷ cells) ≡ ok c
    → (length t ≤ b.element_size) × (bind_column (store_text b i t) (i + 1) cells ≡ ok c)
unfolding bind_column
bind_column_fits t cells b c i e = ground arith

-- OCI reads back the rows that were bound.
pub bind_column_reads :
    (cells : List (Option Text)) (b c : ColumnBuffer) (i : ℕ)
    → bind_column b i cells ≡ ok c
    → b.bound_size ≡ b.element_size
    → All IsShort cells
    → read_rows c i (length cells) ≡ cells
unfolding bind_column
bind_column_reads [] b c i e bound short = refl
bind_column_reads (none ∷ cells) b c i e bound short =
    let x = bind_column-Extends cells (store_null b i) c (i + 1) e in
    cc (read_row-null b c i x, bind_column_reads cells (store_null b i) c (i + 1) e bound short.1)
bind_column_reads (some t ∷ cells) b c i e bound short =
    let (fits, rest) = bind_column_fits t cells b c i e in
    let x = bind_column-Extends cells (store_text b i t) c (i + 1) rest in
    cc (
      read_row-text b c i t x bound fits short.0,
      bind_column_reads cells (store_text b i t) c (i + 1) rest bound short.1,
    )

-- Binding keeps the sizes of the buffer.
pub bind_column_same :
    (cells : List (Option Text)) (b c : ColumnBuffer) (i : ℕ)
    → bind_column b i cells ≡ ok c
    → (c.element_size ≡ b.element_size) × (c.capacity ≡ b.capacity) × (c.bound_size ≡ b.bound_size)
bind_column_same cells b c i e =
    let x = bind_column-Extends cells b c i e in (x.same_size, x.same_capacity, x.same_bound)

length-read_bytes : (f : ℕ → ℕ) (off n : ℕ) → length (read_bytes f off n) ≡ n
length-read_bytes f off zero = refl
length-read_bytes f off (suc n) = ap suc (length-read_bytes f (off + 1) n)

-- Where `BindColumn` returns, a text of 64 KiB or more was cut without an exception: its length is
-- stored in 16 bits, and what OCI reads is another text.
pub bind_column_cuts_long :
    (t : Text) (cells : List (Option Text)) (b c : ColumnBuffer) (i : ℕ)
    → bind_column b i (some t ∷ cells) ≡ ok c
    → 2 ^ 16 ≤ length t
    → read_row c i ≢ some t
unfolding read_row
bind_column_cuts_long t cells b c i e long same =
    let (fits, rest) = bind_column_fits t cells b c i e in
    let x = bind_column-Extends cells (store_text b i t) c (i + 1) rest in
    let null_is : c.is_null i ≡ false = ground (arith, x.same_null i) in
    let length_is : c.lengths i ≡ length t % 2 ^ 16 = ground (arith, x.same_length i) in
    let read_is : read_bytes c.bytes (i * c.bound_size) (c.lengths i) ≡ t =
      ground (arith, null_is) in
    omega (
      arith,
      length_is,
      ap length read_is,
      length-read_bytes c.bytes (i * c.bound_size) (c.lengths i),
    )
