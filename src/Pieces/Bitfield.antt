-- ===== src/Pieces/Bitfield.antt =====
-- `Bitfield` of bt/src/pieces.rs: a bit for each piece, the highest of a byte first. The bytes are a
-- list; `IsValid` keeps every index that is read or written within it, so no access panics.
pub mod Laws
pub mod Count
use btget.Prelude.{
  ℕ, zero, suc, ◌+◌, ◌-◌, ◌*◌, ◌/◌, ◌%◌, ◌^◌, ◌≡◌, ◌≤◌, ◌<◌, Bool, true, false, not, ◌||◌, List, [],
  ◌∷◌, ltb, leb, ◌==◌, if◌then◌else◌, length, get_or, set as set_elem, replicate, select, Bytes,
  IsBytes, Result, ok, err, ◌>>=◌, ◌>>◌, guard,
}
use btget.Prelude.Bits.{test_bit, set_bit, clear_bit, count_ones}
use Prim.Native.Nat.{bit_and}

pub record Bitfield : Type 0 where
  pub bits : Bytes
  pub pieces : ℕ

pub data BitfieldError : Type 0 where
  wrong_length spare_bits_set : BitfieldError

-- `pieces.div_ceil(8)`
abbrev pub byte_count : ℕ → ℕ
byte_count pieces = (pieces + 7) / 8

unfoldable pub new : ℕ → Bitfield
new pieces = record { bits = replicate (byte_count pieces) 0; pieces = pieces }

-- The bits of the last byte that stand for no piece.
abbrev pub spare_bits : ℕ → ℕ
spare_bits pieces = (8 - pieces % 8) % 8

unfoldable pub from_bytes : Bytes → ℕ → Result Bitfield BitfieldError
from_bytes bytes pieces =
    let spare = spare_bits pieces in
    let last = get_or bytes (length bytes - 1) 0 in
    do
      guard (length bytes == byte_count pieces) wrong_length
      guard (not (ltb 0 spare) || (bit_and last (2 ^ spare - 1) == 0)) spare_bits_set
      ok (record { bits = bytes; pieces = pieces })

unfoldable pub has : Bitfield → ℕ → Bool
has b index =
    if leb b.pieces index then false else test_bit (get_or b.bits (index / 8) 0) (index % 8)

unfoldable pub set : Bitfield → ℕ → Bitfield
set b index =
    let byte = set_bit (get_or b.bits (index / 8) 0) (index % 8) in
    if ltb index b.pieces then record b { bits = set_elem b.bits (index / 8) byte } else b

unfoldable pub clear : Bitfield → ℕ → Bitfield
clear b index =
    let byte = clear_bit (get_or b.bits (index / 8) 0) (index % 8) in
    if ltb index b.pieces then record b { bits = set_elem b.bits (index / 8) byte } else b

unfoldable pub sum_ones : Bytes → ℕ
sum_ones [] = 0
sum_ones (b ∷ bs) = count_ones b + sum_ones bs

unfoldable pub count_set : Bitfield → ℕ
unfolding sum_ones
count_set b = sum_ones b.bits

unfoldable pub is_complete : Bitfield → Bool
unfolding count_set
is_complete b = count_set b == b.pieces

-- `start..start + n`
unfoldable pub range : ℕ → ℕ → List ℕ
range start zero = []
range start (suc n) = start ∷ range (suc start) n

unfoldable pub missing : Bitfield → List ℕ
unfolding range has
missing b = select (λ i. not (has b i)) (range 0 b.pieces)

-- The bit at a position of the bytes, whether it stands for a piece or not.
abbrev pub bit_at : Bytes → ℕ → Bool
bit_at bits i = test_bit (get_or bits (i / 8) 0) (i % 8)

pub record IsValid (b : Bitfield) : Type 0 where
  pub sized : length b.bits ≡ byte_count b.pieces
  pub bytes : IsBytes b.bits
  pub spare : (i : ℕ) → b.pieces ≤ i → bit_at b.bits i ≡ false
