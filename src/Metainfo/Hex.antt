-- ===== src/Metainfo/Hex.antt =====
-- The text of an info hash, of metainfo.rs.
use btget.Prelude.{
  ℕ, ◌+◌, ◌*◌, ◌-◌, ◌/◌, ◌%◌, ◌≡◌, ◌<◌, refl, ap, Bool, true, not, ◌&&◌, ◌||◌, [], ◌∷◌, Option,
  none, some, arith, ltb, leb, ◌==◌, if◌then◌else◌, length, Bytes, IsBytes,
}

abbrev pub hex_digit : ℕ → ℕ
hex_digit n = if ltb n 10 then n + b'0' else n + 87

unfoldable pub to_hex : Bytes → Bytes
to_hex [] = []
to_hex (b ∷ bs) = hex_digit (b / 16) ∷ hex_digit (b % 16) ∷ to_hex bs

-- `char::to_digit(16)`
unfoldable pub to_digit : ℕ → Option ℕ
to_digit c =
    if leb b'0' c && leb c b'9'
    then some (c - b'0')
    else if leb b'a' c && leb c b'f'
    then some (c - 87)
    else if leb b'A' c && leb c b'F'
    then some (c - 55)
    else none

abbrev pub is_ascii : Bytes → Bool
is_ascii [] = true
is_ascii (c ∷ cs) = ltb c 128 && is_ascii cs

abbrev pub hex_byte : Option ℕ → Option ℕ → Option Bytes → Option Bytes
hex_byte (some hi) (some lo) (some bs) = some ((hi * 16 + lo) ∷ bs)
hex_byte _ _ _ = none

-- The chunks of two; a text of forty bytes has no half one.
unfoldable pub hex_pairs : Bytes → Option Bytes
unfolding to_digit
hex_pairs [] = some []
hex_pairs (c ∷ []) = none
hex_pairs (c ∷ d ∷ cs) = hex_byte (to_digit c) (to_digit d) (hex_pairs cs)

unfoldable pub from_hex : Bytes → Option Bytes
unfolding hex_pairs
from_hex text = if not (length text == 40) || not (is_ascii text) then none else hex_pairs text

to_digit-hex_digit : (n : ℕ) → n < 16 → to_digit (hex_digit n) ≡ some n
unfolding to_digit
to_digit-hex_digit n h = ground arith

hex_byte_lem :
    (b : ℕ) (bs : Bytes) → hex_byte (some (b / 16)) (some (b % 16)) (some bs) ≡ some (b ∷ bs)
hex_byte_lem b bs = ap (λ t. some (t ∷ bs)) (omega arith)

hex_pairs-to_hex : (bs : Bytes) → IsBytes bs → hex_pairs (to_hex bs) ≡ some bs
unfolding hex_pairs to_hex
hex_pairs-to_hex [] h = refl
hex_pairs-to_hex (b ∷ bs) h =
    rw
      (
        to_digit-hex_digit (b / 16) (omega (arith, h.0)),
        to_digit-hex_digit (b % 16) (omega arith),
        hex_pairs-to_hex bs h.1,
      )
      (hex_byte_lem b bs)

hex_digit-lt : (n : ℕ) → n < 16 → ltb (hex_digit n) 128 ≡ true
hex_digit-lt n h = ground arith

is_ascii-to_hex : (bs : Bytes) → IsBytes bs → is_ascii (to_hex bs) ≡ true
unfolding to_hex
is_ascii-to_hex [] h = refl
is_ascii-to_hex (b ∷ bs) h =
    rw
      (
        hex_digit-lt (b / 16) (omega (arith, h.0)),
        hex_digit-lt (b % 16) (omega arith),
        is_ascii-to_hex bs h.1,
      )
      refl

length-to_hex : (bs : Bytes) → length (to_hex bs) ≡ 2 * length bs
unfolding to_hex
length-to_hex [] = omega arith
length-to_hex (b ∷ bs) = omega (arith, length-to_hex bs)

-- The text of an info hash of twenty bytes is read back as that info hash.
pub from_hex-to_hex :
    (info_hash : Bytes)
    → IsBytes info_hash
    → length info_hash ≡ 20
    → from_hex (to_hex info_hash) ≡ some info_hash
unfolding from_hex
from_hex-to_hex info_hash h l =
    rw (length-to_hex info_hash, l, is_ascii-to_hex info_hash h) (hex_pairs-to_hex info_hash h)
