-- ===== src/Pieces/Availability.antt =====
-- `Availability` of bt/src/pieces.rs: how many peers have each piece. A count is a u32.
pub mod Laws
use btget.Prelude.{
  ℕ, zero, suc, ◌+◌, ◌-◌, ◌%◌, ◌^◌, ◌≡◌, List, [], ◌∷◌, ltb, if◌then◌else◌, length, get_or,
  set as set_elem, replicate,
}
use btget.Pieces.Bitfield.{Bitfield, has, range}

pub record Availability : Type 0 where
  pub counts : List ℕ

unfoldable pub new : ℕ → Availability
new pieces = record { counts = replicate pieces 0 }

unfoldable pub count : Availability → ℕ → ℕ
count a index = get_or a.counts index 0

-- An index past the end changes nothing, as `set_elem` does not either.
unfoldable pub add_have : Availability → ℕ → Availability
add_have a index = record {
  counts = set_elem a.counts index ((get_or a.counts index 0 + 1) % 2 ^ 32);
}

-- `c.saturating_sub(1)` where the bitfield has the piece.
unfoldable pub remove_have : Availability → ℕ → Availability
remove_have a index = record { counts = set_elem a.counts index (get_or a.counts index 0 - 1) }

unfoldable pub add_loop : Bitfield → List ℕ → Availability → Availability
add_loop b [] a = a
add_loop b (i ∷ is) a = add_loop b is (if has b i then add_have a i else a)

unfoldable pub add_bitfield : Availability → Bitfield → Availability
unfolding add_loop range
add_bitfield a b = add_loop b (range 0 b.pieces) a

unfoldable pub remove_loop : Bitfield → List ℕ → Availability → Availability
remove_loop b [] a = a
remove_loop b (i ∷ is) a = remove_loop b is (if has b i then remove_have a i else a)

unfoldable pub remove_bitfield : Availability → Bitfield → Availability
unfolding remove_loop range
remove_bitfield a b = remove_loop b (range 0 b.pieces) a
