-- ===== src/Prelude/Bits.antt =====
-- The bits of one byte, highest first, and facts on them by tables checked by evaluation.
use btget.Prelude.{
  ℕ, zero, suc, ◌+◌, ◌-◌, ◌/◌, ◌%◌, ◌^◌, ◌≤◌, ◌<◌, ◌≡◌, refl, Bool, true, false, not, ◌&&◌, ◌||◌,
  arith, ◌==◌, ==_iff, ltb, if◌then◌else◌, Bool-cases, inl, inr,
}
use Prim.Native.Nat.{bit_and, bit_or, bit_and-bitwise}

-- A test passes at each number below `n`.
abbrev pub all_below : ℕ → (ℕ → Bool) → Bool
all_below zero test = true
all_below (suc n) test = if test n then all_below n test else false

pub all_below_sound :
    (n : ℕ) (test : ℕ → Bool) → all_below n test ≡ true → (x : ℕ) → x < n → test x ≡ true
all_below_sound zero test passed x small = absurd (omega arith)
all_below_sound (suc n) test passed x small =
    ground (arith, all_below_sound n test (ground arith) x)

Bool_eq : Bool → Bool → Bool
Bool_eq true b = b
Bool_eq false b = not b

Bool_eq→eq : (a b : Bool) → Bool_eq a b ≡ true → a ≡ b
unfolding Bool_eq
Bool_eq→eq a b h = ground arith

-- `0x80 >> k`
abbrev pub bit_mask : ℕ → ℕ
bit_mask k = 0x80 / 2 ^ k

-- `byte & (0x80 >> k) != 0`
unfoldable pub test_bit : ℕ → ℕ → Bool
test_bit byte k = not (bit_and byte (bit_mask k) == 0)

-- `byte | (0x80 >> k)`
unfoldable pub set_bit : ℕ → ℕ → ℕ
set_bit byte k = bit_or byte (bit_mask k)

-- `byte & !(0x80 >> k)`
unfoldable pub clear_bit : ℕ → ℕ → ℕ
clear_bit byte k = bit_and byte (255 - bit_mask k)

-- `byte.count_ones()`, over the eight bits.
ones_loop : ℕ → ℕ → ℕ
ones_loop zero byte = 0
ones_loop (suc k) byte = byte % 2 + ones_loop k (byte / 2)

unfoldable pub count_ones : ℕ → ℕ
unfolding ones_loop
count_ones byte = ones_loop 8 byte

module _ (p : ℕ → ℕ → ℕ → Bool) (l m n : ℕ) where
  all_below₃ : Bool
  all_below₃ = all_below l (λ x. all_below m (λ y. all_below n (λ z. p x y z)))

  all_below₃_sound : all_below₃ ≡ true → (x y z : ℕ) → x < l → y < m → z < n → p x y z ≡ true
  unfolding all_below₃
  all_below₃_sound h x y z hx hy hz =
      all_below_sound n (λ z. p x y z)
        (all_below_sound m (λ y. all_below n (λ z. p x y z))
          (all_below_sound l (λ x. all_below m (λ y. all_below n (λ z. p x y z))) h x hx) y hy)
        z hz

set_table :
    all_below₃ (λ k j b. Bool_eq (test_bit (set_bit b k) j) ((k == j) || test_bit b j)) 8 8 256
    ≡ true
unfolding all_below₃ Bool_eq test_bit set_bit
set_table = refl

pub test_bit-set_bit :
    (k j b : ℕ) → k < 8 → j < 8 → b < 256 → test_bit (set_bit b k) j ≡ ((k == j) || test_bit b j)
test_bit-set_bit k j b hk hj hb = Bool_eq→eq _ _ (
    all_below₃_sound (λ k j b. Bool_eq (test_bit (set_bit b k) j) ((k == j) || test_bit b j)) 8 8
      256 set_table k j b hk hj hb)

clear_table :
    all_below₃
      (λ k j b. Bool_eq (test_bit (clear_bit b k) j) (not (k == j) && test_bit b j))
      8
      8
      256
    ≡ true
unfolding all_below₃ Bool_eq test_bit clear_bit
clear_table = refl

pub test_bit-clear_bit :
    (k j b : ℕ)
    → k < 8
    → j < 8
    → b < 256
    → test_bit (clear_bit b k) j ≡ (not (k == j) && test_bit b j)
test_bit-clear_bit k j b hk hj hb = Bool_eq→eq _ _ (
    all_below₃_sound (λ k j b. Bool_eq (test_bit (clear_bit b k) j) (not (k == j) && test_bit b j))
      8 8 256 clear_table k j b hk hj hb)

byte_table : all_below₃ (λ _ k b. ltb (set_bit b k) 256 && ltb (clear_bit b k) 256) 1 8 256 ≡ true
unfolding all_below₃ set_bit clear_bit
byte_table = refl

pub set_bit-lt : (k b : ℕ) → k < 8 → b < 256 → set_bit b k < 256
set_bit-lt k b hk hb = ground (
  arith,
  all_below₃_sound (λ _ k b. ltb (set_bit b k) 256 && ltb (clear_bit b k) 256) 1 8 256 byte_table 0
      k b (omega arith) hk hb,
)

pub clear_bit-lt : (k b : ℕ) → k < 8 → b < 256 → clear_bit b k < 256
clear_bit-lt k b hk hb = ground (
  arith,
  all_below₃_sound (λ _ k b. ltb (set_bit b k) 256 && ltb (clear_bit b k) 256) 1 8 256 byte_table 0
      k b (omega arith) hk hb,
)

-- How many of the numbers below `n` pass a test.
abbrev pub count_below : ℕ → (ℕ → Bool) → ℕ
count_below zero p = 0
count_below (suc n) p = count_below n p + (if p n then 1 else 0)

ones_table : all_below₃ (λ _ _ b. count_ones b == count_below 8 (test_bit b)) 1 1 256 ≡ true
unfolding all_below₃ count_ones test_bit
ones_table = refl

pub count_ones-test_bit : (b : ℕ) → b < 256 → count_ones b ≡ count_below 8 (test_bit b)
count_ones-test_bit b h = (==_iff _ _).0 (
    all_below₃_sound (λ _ _ b. count_ones b == count_below 8 (test_bit b)) 1 1 256 ones_table 0 0 b
      (omega arith) (omega arith) h)

-- The `s` lowest bits are clear.
unfoldable pub low_clear : ℕ → ℕ → Bool
low_clear zero b = true
low_clear (suc s) b = not (test_bit b (7 - s)) && low_clear s b

mask_table :
    all_below₃ (λ _ s b. Bool_eq (bit_and b (2 ^ s - 1) == 0) (low_clear s b)) 1 8 256 ≡ true
unfolding all_below₃ Bool_eq low_clear test_bit
mask_table = refl

-- `byte & ((1 << s) - 1) == 0`, bit by bit.
pub bit_and-low_clear : (s b : ℕ) → s < 8 → b < 256 → (bit_and b (2 ^ s - 1) == 0) ≡ low_clear s b
bit_and-low_clear s b hs hb = Bool_eq→eq _ _ (
    all_below₃_sound (λ _ s b. Bool_eq (bit_and b (2 ^ s - 1) == 0) (low_clear s b)) 1 8 256
      mask_table 0 s b (omega arith) hs hb)

pub low_clear-test_bit :
    (s b j : ℕ) → low_clear s b ≡ true → 8 ≤ j + s → j < 8 → test_bit b j ≡ false
unfolding low_clear
low_clear-test_bit zero b j h lo hi = absurd (omega arith)
low_clear-test_bit (suc s) b j h lo hi = elim (Bool-cases (j == 7 - s)) [
  | inl e ↦ rw ((==_iff j (7 - s)).0 e) (ground arith)
  | inr e ↦ low_clear-test_bit s b j (ground arith) (ground arith) hi
]

pub test_bit-low_clear :
    (s b : ℕ) → s ≤ 8 → ((j : ℕ) → 8 ≤ j + s → j < 8 → test_bit b j ≡ false) → low_clear s b ≡ true
unfolding low_clear
test_bit-low_clear zero b hs h = refl
test_bit-low_clear (suc s) b hs h = ground (
  arith,
  h (7 - s) (omega arith) (omega arith),
  test_bit-low_clear s b (omega arith) (λ j lo hi. h j (omega arith) hi),
)

-- A byte with no bit set is 0.
pub test_bit_zero : (j : ℕ) → test_bit 0 j ≡ false
unfolding test_bit
test_bit_zero j = ground (arith, bit_and-bitwise 0 (bit_mask j))
