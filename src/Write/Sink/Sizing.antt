-- ===== src/Write/Sink/Sizing.antt =====
-- The buffers that `Sink` of src/storage/oracle_write.cpp sizes are large enough.
use duckdb_oracle.Base.{
  sym, ◌||◌, ◌<◌, ℕ, ◌+◌, ◌*◌, ◌≤◌, ◌≡◌, inl, inr, refl, ap, subst, Bool, true, false, not, Option,
  none, some, List, [], ◌∷◌, map, arith, ltb, if◌then◌else◌, Bool-cases, ok, throw_if, >>=-eq-ok,
  ok-injective, length, All, Text,
}
use duckdb_oracle.Write.Buffers.{oci_error, ColumnBuffer, max_batch_size}
use duckdb_oracle.Write.Buffers.Slots.{Fits}
use duckdb_oracle.Write.Sink.{
  Oci, prepare, no_buffers, max_length, required_size, Slot, must_grow, rebind, pair_up, any_grows,
  rebind_all,
}

Fits-mono : (m n : ℕ) (cells : List (Option Text)) → m ≤ n → All (Fits m) cells → All (Fits n) cells
Fits-mono m n [] h a = tt
Fits-mono m n (none ∷ cells) h a = (tt, Fits-mono m n cells h a.1)
Fits-mono m n (some t ∷ cells) h a = (omega arith, Fits-mono m n cells h a.1)

max_length-ge : (cells : List (Option Text)) (m : ℕ) → m ≤ max_length cells m
unfolding max_length
max_length-ge [] m = omega arith
max_length-ge (none ∷ cells) m = max_length-ge cells m
max_length-ge (some t ∷ cells) m =
    ground (arith, max_length-ge cells m, max_length-ge cells (length t))

max_length-Fits : (cells : List (Option Text)) (m : ℕ) → All (Fits (max_length cells m)) cells
unfolding max_length
max_length-Fits [] m = tt
max_length-Fits (none ∷ cells) m = (tt, max_length-Fits cells m)
max_length-Fits (some t ∷ cells) m =
    let next = if ltb m (length t) then length t else m in
    let longer : length t ≤ next = ground arith in
    (omega (arith, longer, max_length-ge cells next), max_length-Fits cells next)

-- Every text of the column fits the size that the column asks for.
required_size-Fits : (cells : List (Option Text)) → All (Fits (required_size cells)) cells
unfolding required_size
required_size-Fits cells =
    Fits-mono (max_length cells 0) _ cells (ground arith) (max_length-Fits cells 0)

-- The batch has room, and OCI was told the present element size.
pub record IsSized (b : ColumnBuffer) : Type 0 where
  pub room : b.capacity ≡ max_batch_size * b.element_size
  pub told : b.bound_size ≡ b.element_size

pub record IsReady (slot : Slot) : Type 0 where
  pub sized : IsSized slot.buffer
  pub fits : All (Fits slot.buffer.element_size) slot.cells

pub pair_up-IsSized :
    (bs : List ColumnBuffer) (columns : List (List (Option Text)))
    → All IsSized bs
    → All (λ slot. IsSized slot.buffer) (pair_up bs columns)
unfolding pair_up
pair_up-IsSized [] [] h = tt
pair_up-IsSized [] (cells ∷ columns) h =
    (record { room = refl; told = refl }, pair_up-IsSized [] columns h)
pair_up-IsSized (b ∷ bs) [] h = tt
pair_up-IsSized (b ∷ bs) (cells ∷ columns) h = (h.0, pair_up-IsSized bs columns h.1)

rebind-IsReady : (slot : Slot) → IsSized slot.buffer → IsReady (rebind slot)
rebind-IsReady slot h = elim (Bool-cases (must_grow slot)) [
  | inl e ↦ record {
    sized = record { room = rw e refl; told = rw e refl };
    fits = rw e (required_size-Fits slot.cells);
  }
  | inr e ↦ record {
    sized = record { room = rw e h.room; told = rw e refl };
    fits = rw e (
        Fits-mono (required_size slot.cells) _ slot.cells (ground arith)
          (required_size-Fits slot.cells));
  }
]

-- A slot that need not grow is ready as it is.
still-IsReady : (slot : Slot) → IsSized slot.buffer → must_grow slot ≡ false → IsReady slot
still-IsReady slot h e = record {
  sized = h;
  fits =
      Fits-mono (required_size slot.cells) _ slot.cells (ground arith)
        (required_size-Fits slot.cells);
}

pub any_grows-IsReady :
    (slots : List Slot)
    → All (λ slot. IsSized slot.buffer) slots
    → any_grows slots ≡ false
    → All IsReady slots
unfolding any_grows
any_grows-IsReady [] h e = tt
any_grows-IsReady (slot ∷ slots) h e =
    (still-IsReady slot h.0 (ground arith), any_grows-IsReady slots h.1 (ground arith))

pub rebind_all-IsReady :
    (accepts : ℕ → Bool) (col : ℕ) (slots out : List Slot)
    → All (λ slot. IsSized slot.buffer) slots
    → rebind_all accepts col slots ≡ ok out
    → All IsReady out × (map (λ slot. slot.cells) out ≡ map (λ slot. slot.cells) slots)
unfolding rebind_all
rebind_all-IsReady accepts col [] out h e =
    subst (λ x. All IsReady x × (map (λ slot. slot.cells) x ≡ [])) (ok-injective e) (tt, refl)
rebind_all-IsReady accepts col (slot ∷ slots) out h e =
    let (_, bound, more) = >>=-eq-ok (throw_if (not (accepts col)) oci_error) _ e in
    let (rest, e', last) = >>=-eq-ok (rebind_all accepts (col + 1) slots) _ more in
    let (ready, same) = rebind_all-IsReady accepts (col + 1) slots rest h.1 e' in
    subst
      (λ x.
        All IsReady x
        × (map (λ (y : Slot). y.cells) x ≡ slot.cells ∷ map (λ (y : Slot). y.cells) slots))
      (ok-injective last) ((rebind-IsReady slot h.0, ready), ap (◌∷◌ slot.cells) same)

pub rebind_all_total :
    (accepts : ℕ → Bool) (col : ℕ) (slots : List Slot)
    → ((c : ℕ) → accepts c ≡ true)
    → (out : List Slot) × (rebind_all accepts col slots ≡ ok out)
unfolding rebind_all
rebind_all_total accepts col [] all = ([], refl)
rebind_all_total accepts col (slot ∷ slots) all =
    let (rest, e) = rebind_all_total accepts (col + 1) slots all in
    (rebind slot ∷ rest, rw (all col, e) refl)

-- From the row `i` on, every copy stays inside the buffer.
abbrev pub WritesInside : ColumnBuffer → ℕ → List (Option Text) → Type 0
WritesInside b i [] = Unit {0}
WritesInside b i (none ∷ cells) = WritesInside b (i + 1) cells
WritesInside b i (some t ∷ cells) =
    (i * b.element_size + length t ≤ b.capacity) × WritesInside b (i + 1) cells

slot_inside : (i size : ℕ) → i < max_batch_size → i * size + size ≤ max_batch_size * size
slot_inside i size h = grind arith

ready-WritesInside :
    (b : ColumnBuffer) (i : ℕ) (cells : List (Option Text))
    → IsSized b
    → All (Fits b.element_size) cells
    → i + length cells ≤ max_batch_size
    → WritesInside b i cells
ready-WritesInside b i [] sized fits small = tt
ready-WritesInside b i (none ∷ cells) sized fits small =
    ready-WritesInside b (i + 1) cells sized fits.1 (omega arith)
ready-WritesInside b i (some t ∷ cells) sized fits small = (
  omega (arith, slot_inside i b.element_size (omega arith), sized.room, fits.0),
  ready-WritesInside b (i + 1) cells sized fits.1 (omega arith),
)

pub prepare-IsReady :
    (oci : Oci) (bs : List ColumnBuffer) (columns : List (List (Option Text))) (bound : List Slot)
    → All IsSized bs
    → prepare oci bs columns ≡ ok bound
    → All IsReady bound
      × (map (λ slot. slot.cells) bound ≡ map (λ slot. slot.cells) (pair_up bs columns))
unfolding prepare
prepare-IsReady oci bs columns bound sized e =
    let slots = pair_up bs columns in
    let slots_sized = pair_up-IsSized bs columns sized in
    elim (Bool-cases (no_buffers bs || any_grows slots)) [
      | inl yes_bind ↦
          rebind_all-IsReady oci.accepts_bind 0 slots bound slots_sized (rw yes_bind at e)
      | inr still ↦
          subst
            (λ x.
              All IsReady x × (map (λ (y : Slot). y.cells) x ≡ map (λ (y : Slot). y.cells) slots))
            (ok-injective (rw still at e))
            (any_grows-IsReady slots slots_sized (ground arith), refl)
    ]

All-WritesInside :
    (slots : List Slot)
    → All IsReady slots
    → All (λ cells. length cells ≤ max_batch_size) (map (λ slot. slot.cells) slots)
    → All (λ slot. WritesInside slot.buffer 0 slot.cells) slots
All-WritesInside [] ready small = tt
All-WritesInside (slot ∷ slots) ready small = (
  ready-WritesInside slot.buffer 0 slot.cells ready.0.sized ready.0.fits (omega arith),
  All-WritesInside slots ready.1 small.1,
)

-- If the buffers were sized before: those that a chunk of at most 2048 rows is bound to hold it,
-- so no copy of `BindColumn` runs past the end of its buffer, whether or not the buffers were
-- bound again.
pub prepare-WritesInside :
    (oci : Oci) (bs : List ColumnBuffer) (columns : List (List (Option Text))) (bound : List Slot)
    → All IsSized bs
    → All (λ cells. length cells ≤ max_batch_size) (map (λ slot. slot.cells) (pair_up bs columns))
    → prepare oci bs columns ≡ ok bound
    → All (λ slot. WritesInside slot.buffer 0 slot.cells) bound
prepare-WritesInside oci bs columns bound sized small e =
    let (ready, same) = prepare-IsReady oci bs columns bound sized e in
    All-WritesInside bound ready
      (subst (All (λ cells. length cells ≤ max_batch_size)) (sym same) small)
