-- ===== src/Tests/PiecesRuns.antt =====
-- Runs of pieces.rs, and its theorems at concrete inputs.
use btget.Prelude.{
  ℕ, ◌+◌, ◌%◌, ◌^◌, ◌≡◌, ◌↔◌, refl, arith, true, ◌&&◌, ◌||◌, [], ◌∷◌, ok, err, ltb, ◌==◌,
  if◌then◌else◌, length,
}
use btget.Prelude.Bits.{set_bit}
use btget.Pieces.Bitfield
use btget.Pieces.Bitfield.{Bitfield, IsValid, spare_bits_set}
use btget.Pieces.Bitfield.Laws.{
  new-IsValid, set-IsValid, has-set, from_bytes-bits, from_bytes-IsValid,
}
use btget.Pieces.Bitfield.Count.{is_complete_iff}
use btget.Pieces.Availability
use btget.Pieces.Availability.{Availability}
use btget.Pieces.Availability.Laws.{count-add_bitfield, remove_bitfield-add_bitfield}

abbrev ten : Bitfield
ten = Bitfield.set (Bitfield.new 10) 9

ten-IsValid : IsValid ten
ten-IsValid = set-IsValid (Bitfield.new 10) 9 (new-IsValid 10)

ten_bits : ten ≡ record { bits = 0 ∷ 0x40 ∷ []; pieces = 10 }
unfolding Bitfield.set Bitfield.new set_bit
ten_bits = refl

spare_refused : Bitfield.from_bytes (0 ∷ 0x20 ∷ []) 10 ≡ err spare_bits_set
unfolding Bitfield.from_bytes
spare_refused = refl

has-set_example :
    Bitfield.has (Bitfield.set ten 3) 3 ≡ ((ltb 3 ten.pieces && (3 == 3)) || Bitfield.has ten 3)
has-set_example = has-set ten 3 3 ten-IsValid

from_bytes-bits_example : Bitfield.from_bytes ten.bits ten.pieces ≡ ok ten
from_bytes-bits_example = from_bytes-bits ten ten-IsValid

abbrev full : Bitfield
full = record { bits = 0xc0 ∷ []; pieces = 2 }

full_read : Bitfield.from_bytes (0xc0 ∷ []) 2 ≡ ok full
unfolding Bitfield.from_bytes
full_read = refl

from_bytes-IsValid_example : IsValid full × (full.bits ≡ 0xc0 ∷ []) × (◌≡◌ {A = ℕ} full.pieces 2)
from_bytes-IsValid_example = from_bytes-IsValid (0xc0 ∷ []) 2 full (omega arith) full_read

is_complete_iff_example : (Bitfield.is_complete ten ≡ true) ↔ (Bitfield.missing ten ≡ [])
is_complete_iff_example = is_complete_iff ten ten-IsValid

remove_bitfield-add_bitfield_example :
    Availability.count
      (Availability.remove_bitfield (Availability.add_bitfield (Availability.new 10) ten) ten)
      9
    ≡ Availability.count (Availability.new 10) 9
remove_bitfield-add_bitfield_example =
    remove_bitfield-add_bitfield (Availability.new 10) ten 9
      (unfold Availability.count Availability.new in omega arith)

count-add_bitfield_example :
    Availability.count (Availability.add_bitfield (Availability.new 10) ten) 9 ≡ (
      if Bitfield.has ten 9 && ltb 9 (length (Availability.new 10).counts)
      then (Availability.count (Availability.new 10) 9 + 1) % 2 ^ 32
      else Availability.count (Availability.new 10) 9)
count-add_bitfield_example = count-add_bitfield (Availability.new 10) ten 9
