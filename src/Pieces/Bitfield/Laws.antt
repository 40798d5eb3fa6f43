-- ===== src/Pieces/Bitfield/Laws.antt =====
-- The bitfield of pieces.rs as a set of pieces: each operation, bit by bit, and its validity.
use btget.Prelude.{
  ℕ, zero, suc, ◌+◌, ◌-◌, ◌*◌, ◌/◌, ◌%◌, ◌^◌, ◌≤◌, ◌<◌, ◌≡◌, refl, sym, ◌∙◌, Bool, true, false, not,
  ◌&&◌, ◌||◌, [], ◌∷◌, arith, ltb, ◌==◌, ==_iff, if◌then◌else◌, length, get_or, set as set_elem,
  replicate, Bytes, IsBytes, IsByte, ok, Bool-cases, inl, inr, length-set, length-replicate,
  All-replicate, get_or-set_self, get_or-set_ne, subst, Ensures, holds, Ensures-ok, Ensures-guard,
}
use btget.Prelude.Bits.{
  test_bit, set_bit, clear_bit, test_bit-set_bit, test_bit-clear_bit, set_bit-lt, clear_bit-lt,
  low_clear, bit_and-low_clear, low_clear-test_bit, test_bit-low_clear, test_bit_zero,
}
use Prim.Native.Nat.{bit_and}
use btget.Pieces.Bitfield.{
  Bitfield, wrong_length, spare_bits_set, byte_count, spare_bits, new, from_bytes, has, set, clear,
  bit_at, IsValid,
}

get_or-IsByte : (bits : Bytes) (i : ℕ) → IsBytes bits → get_or bits i 0 < 256
get_or-IsByte [] i h = omega arith
get_or-IsByte (b ∷ bits) zero h = h.0
get_or-IsByte (b ∷ bits) (suc i) h = get_or-IsByte bits i h.1

set_elem-IsBytes : (bits : Bytes) (i v : ℕ) → IsBytes bits → v < 256 → IsBytes (set_elem bits i v)
set_elem-IsBytes [] i v h k = tt
set_elem-IsBytes (b ∷ bits) zero v h k = (k, h.1)
set_elem-IsBytes (b ∷ bits) (suc i) v h k = (h.0, set_elem-IsBytes bits i v h.1 k)

pub get_or-replicate : (n i : ℕ) → get_or (replicate {A = ℕ} n 0) i 0 ≡ 0
get_or-replicate zero i = refl
get_or-replicate (suc n) zero = refl
get_or-replicate (suc n) (suc i) = get_or-replicate n i

get_or-past : (bits : Bytes) (i : ℕ) → length bits ≤ i → get_or bits i 0 ≡ 0
get_or-past [] i h = refl
get_or-past (b ∷ bits) zero h = absurd (omega arith)
get_or-past (b ∷ bits) (suc i) h = get_or-past bits i (omega arith)

pub has-bit_at : (b : Bitfield) (i : ℕ) → IsValid b → has b i ≡ bit_at b.bits i
unfolding has
has-bit_at b i v = ground (arith, v.spare i)

-- The bits after one byte was replaced.
bit_at-set_elem :
    (bits : Bytes) (i j v : ℕ)
    → i / 8 < length bits
    → bit_at (set_elem bits (i / 8) v) j
      ≡ (if i / 8 == j / 8 then test_bit v (j % 8) else bit_at bits j)
bit_at-set_elem bits i j v h = elim (Bool-cases (i / 8 == j / 8)) [
  | inl e ↦ rw (e, ← (==_iff (i / 8) (j / 8)).0 e, get_or-set_self bits (i / 8) v 0 h)
  | inr e ↦ rw (e, get_or-set_ne bits (i / 8) (j / 8) v 0 (λ p. ground arith))
]

same_bit : (i j : ℕ) → (i / 8 == j / 8) ≡ true → (i % 8 == j % 8) ≡ (i == j)
same_bit i j h = ground arith

other_bit : (i j : ℕ) → (i / 8 == j / 8) ≡ false → (i == j) ≡ false
other_bit i j h = ground arith

abbrev in_range : (b : Bitfield) (i : ℕ) → IsValid b → (i < b.pieces) → i / 8 < length b.bits
in_range b i v h = omega (arith, v.sized)

bit_at-set :
    (b : Bitfield) (i j : ℕ)
    → IsValid b
    → i < b.pieces
    → bit_at (set b i).bits j ≡ ((i == j) || bit_at b.bits j)
unfolding set
bit_at-set b i j v h = ground (
  arith,
  v.sized,
  bit_at-set_elem b.bits i j (set_bit (get_or b.bits (i / 8) 0) (i % 8)),
  test_bit-set_bit (i % 8) (j % 8) (get_or b.bits (i / 8) 0),
  get_or-IsByte b.bits (i / 8) v.bytes,
  same_bit i j,
  other_bit i j,
)

bit_at-clear :
    (b : Bitfield) (i j : ℕ)
    → IsValid b
    → i < b.pieces
    → bit_at (clear b i).bits j ≡ (not (i == j) && bit_at b.bits j)
unfolding clear
bit_at-clear b i j v h = ground (
  arith,
  v.sized,
  bit_at-set_elem b.bits i j (clear_bit (get_or b.bits (i / 8) 0) (i % 8)),
  test_bit-clear_bit (i % 8) (j % 8) (get_or b.bits (i / 8) 0),
  get_or-IsByte b.bits (i / 8) v.bytes,
  same_bit i j,
  other_bit i j,
)

set_outside : (b : Bitfield) (i : ℕ) → b.pieces ≤ i → set b i ≡ b
unfolding set
set_outside b i h = ground arith

clear_outside : (b : Bitfield) (i : ℕ) → b.pieces ≤ i → clear b i ≡ b
unfolding clear
clear_outside b i h = ground arith

pub pieces-set : (b : Bitfield) (i : ℕ) → (set b i).pieces ≡ b.pieces
unfolding set
pieces-set b i = ground arith

pub pieces-clear : (b : Bitfield) (i : ℕ) → (clear b i).pieces ≡ b.pieces
unfolding clear
pieces-clear b i = ground arith

pub new-IsValid : (n : ℕ) → IsValid (new n)
unfolding new
new-IsValid n = record {
  sized = length-replicate (byte_count n) 0;
  bytes = All-replicate IsByte (byte_count n) 0 (omega arith);
  spare = λ i h. rw (get_or-replicate (byte_count n) (i / 8)) (test_bit_zero (i % 8));
}

-- Replacing one byte by a byte keeps the length, and bytes.
module _ (b : Bitfield) (i byte : ℕ) (v : IsValid b) (small : byte < 256) where
  replaced-sized : length (set_elem b.bits (i / 8) byte) ≡ byte_count b.pieces
  replaced-sized = length-set b.bits (i / 8) byte ∙ v.sized

  replaced-IsBytes : IsBytes (set_elem b.bits (i / 8) byte)
  replaced-IsBytes = set_elem-IsBytes b.bits (i / 8) byte v.bytes small

-- Setting a piece keeps a valid bitfield valid.
pub set-IsValid : (b : Bitfield) (i : ℕ) → IsValid b → IsValid (set b i)
unfolding set
set-IsValid b i v = elim (Bool-cases (ltb i b.pieces)) [
  | inl e ↦
      let byte = set_bit (get_or b.bits (i / 8) 0) (i % 8) in
      let small =
        set_bit-lt (i % 8) (get_or b.bits (i / 8) 0) (omega arith)
          (get_or-IsByte b.bits (i / 8) v.bytes) in
      record {
        sized = rw (e, set) (replaced-sized b i byte v small);
        bytes = rw (e, set) (replaced-IsBytes b i byte v small);
        spare =
            λ j h. bit_at-set b i j v (ground arith) ∙ ground (arith, v.spare j, pieces-set b i);
      }
  | inr e ↦ subst IsValid (sym (set_outside b i (ground arith))) v
]

pub clear-IsValid : (b : Bitfield) (i : ℕ) → IsValid b → IsValid (clear b i)
unfolding clear
clear-IsValid b i v = elim (Bool-cases (ltb i b.pieces)) [
  | inl e ↦
      let byte = clear_bit (get_or b.bits (i / 8) 0) (i % 8) in
      let small =
        clear_bit-lt (i % 8) (get_or b.bits (i / 8) 0) (omega arith)
          (get_or-IsByte b.bits (i / 8) v.bytes) in
      record {
        sized = rw (e, clear) (replaced-sized b i byte v small);
        bytes = rw (e, clear) (replaced-IsBytes b i byte v small);
        spare = λ j h.
            bit_at-clear b i j v (ground arith) ∙ ground (arith, v.spare j, pieces-clear b i);
      }
  | inr e ↦ subst IsValid (sym (clear_outside b i (ground arith))) v
]

-- After `set`, a piece is there if it was the one set, and in range, or was there before.
pub has-set :
    (b : Bitfield) (i j : ℕ)
    → IsValid b
    → has (set b i) j ≡ ((ltb i b.pieces && (i == j)) || has b j)
has-set b i j v = elim (Bool-cases (ltb i b.pieces)) [
  | inl e ↦
      has-bit_at (set b i) j (set-IsValid b i v)
      ∙ bit_at-set b i j v (ground arith)
      ∙ rw (e, has-bit_at b j v)
  | inr e ↦ rw (e, set_outside b i (ground arith))
]

-- After `clear`, a piece is there if it was there before and is not the one cleared.
pub has-clear : (b : Bitfield) (i j : ℕ) → IsValid b → has (clear b i) j ≡ (not (i == j) && has b j)
unfolding has
has-clear b i j v = elim (Bool-cases (ltb i b.pieces)) [
  | inl e ↦
      has-bit_at (clear b i) j (clear-IsValid b i v)
      ∙ bit_at-clear b i j v (ground arith)
      ∙ rw (has-bit_at b j v)
  | inr e ↦ ground (arith, clear_outside b i)
]

pub has-new : (n i : ℕ) → has (new n) i ≡ false
unfolding has new
has-new n i = ground (arith, get_or-replicate (byte_count n) (i / 8), test_bit_zero (i % 8))

-- The last byte, where there are spare bits.
last_byte :
    (bytes : Bytes) (pieces i : ℕ)
    → length bytes ≡ byte_count pieces
    → pieces ≤ i
    → i / 8 < length bytes
    → (i / 8 ≡ length bytes - 1) × (0 < spare_bits pieces) × (8 ≤ i % 8 + spare_bits pieces)
last_byte bytes pieces i h p q = (omega arith, omega arith, omega arith)

from_bytes-spare :
    (bytes : Bytes) (pieces i : ℕ)
    → length bytes ≡ byte_count pieces
    → IsBytes bytes
    → (not (ltb 0 (spare_bits pieces))
        || (bit_and (get_or bytes (length bytes - 1) 0) (2 ^ spare_bits pieces - 1) == 0))
      ≡ true
    → pieces ≤ i
    → bit_at bytes i ≡ false
from_bytes-spare bytes pieces i h by t p = elim (Bool-cases (ltb (i / 8) (length bytes))) [
  | inl e ↦
      let (at_last, some_spare, in_spare) = last_byte bytes pieces i h p (ground arith) in
      low_clear-test_bit (spare_bits pieces) (get_or bytes (i / 8) 0) (i % 8)
        (rw at_last (
          sym (
            bit_and-low_clear (spare_bits pieces) (get_or bytes (length bytes - 1) 0) (omega arith)
              (get_or-IsByte bytes (length bytes - 1) by))
          ∙ ground arith))
        in_spare (omega arith)
  | inr e ↦ rw (get_or-past bytes (i / 8) (ground arith)) (test_bit_zero (i % 8))
]

abbrev spare_test : Bytes → ℕ → Bool
spare_test bytes pieces =
    not (ltb 0 (spare_bits pieces))
    || (bit_and (get_or bytes (length bytes - 1) 0) (2 ^ spare_bits pieces - 1) == 0)

from_bytes-Ensures :
    (bytes : Bytes) (pieces : ℕ)
    → IsBytes bytes
    → Ensures
        (λ b. IsValid b × (b.bits ≡ bytes) × (b.pieces ≡ pieces))
        (λ _. Unit {0})
        (from_bytes bytes pieces)
unfolding from_bytes
from_bytes-Ensures bytes pieces by =
    Ensures-guard (length bytes == byte_count pieces) wrong_length tt λ sized.
      Ensures-guard (spare_test bytes pieces) spare_bits_set tt λ clean.
        let h = (==_iff (length bytes) (byte_count pieces)).0 sized in
        holds {a = record { bits = bytes; pieces = pieces }} (
          record {
            sized = h;
            bytes = by;
            spare = λ i p. from_bytes-spare bytes pieces i h by clean p;
          },
          refl,
          refl,
        )

-- Bytes that are accepted make a valid bitfield over these bytes.
pub from_bytes-IsValid :
    (bytes : Bytes) (pieces : ℕ) (b : Bitfield)
    → IsBytes bytes
    → from_bytes bytes pieces ≡ ok b
    → IsValid b × (b.bits ≡ bytes) × (b.pieces ≡ pieces)
from_bytes-IsValid bytes pieces b by e = Ensures-ok (from_bytes-Ensures bytes pieces by) e

spare_test-IsValid : (b : Bitfield) → IsValid b → spare_test b.bits b.pieces ≡ true
spare_test-IsValid b v = elim (Bool-cases (ltb 0 (spare_bits b.pieces))) [
  | inl e ↦
      let last : ℕ = get_or b.bits (length b.bits - 1) 0 in
      let clean : low_clear (spare_bits b.pieces) last ≡ true =
        test_bit-low_clear (spare_bits b.pieces) last (omega arith) (λ j lo hi.
          rw (at_last j hi (ground arith), low_bit j hi) at
            (v.spare (8 * (length b.bits - 1) + j) (spare_index j lo (ground arith)))) in
      rw (
        e,
        bit_and-low_clear (spare_bits b.pieces) last (omega arith)
            (get_or-IsByte b.bits (length b.bits - 1) v.bytes),
        clean,
      )
  | inr e ↦ rw e
]
  where
    at_last :
        (j : ℕ)
        → j < 8
        → 0 < spare_bits b.pieces
        → (8 * (length b.bits - 1) + j) / 8 ≡ length b.bits - 1
    at_last j hi some_spare = omega arith

    low_bit : (j : ℕ) → j < 8 → (8 * (length b.bits - 1) + j) % 8 ≡ j
    low_bit j hi = omega arith

    spare_index :
        (j : ℕ)
        → 8 ≤ j + spare_bits b.pieces
        → 0 < spare_bits b.pieces
        → b.pieces ≤ 8 * (length b.bits - 1) + j
    spare_index j lo some_spare = omega (arith, v.sized)

-- A valid bitfield is read back from its bytes.
pub from_bytes-bits : (b : Bitfield) → IsValid b → from_bytes b.bits b.pieces ≡ ok b
unfolding from_bytes
from_bytes-bits b v = ground (arith, v.sized, spare_test-IsValid b v)
