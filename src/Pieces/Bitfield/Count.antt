-- ===== src/Pieces/Bitfield/Count.antt =====
-- The counts and the list of missing pieces of a bitfield of pieces.rs.
use btget.Prelude.{
  ℕ, zero, suc, ◌+◌, ◌-◌, ◌*◌, ◌/◌, ◌%◌, ◌≤◌, ◌<◌, ◌≡◌, refl, ap, ◌∙◌, ◌↔◌, Bool, true, false, not,
  ◌&&◌, [], ◌∷◌, ◌++◌, arith, ltb, leb, ==_iff, if◌then◌else◌, length, get_or, select, contains,
  contains-select, select-append, length-append, length-zero, Bytes, IsBytes,
}
use native.Mathlib.Nat.{add-zero, add-suc, zero-add}
use btget.Prelude.Bits.{test_bit, count_below, count_ones-test_bit}
use btget.Pieces.Bitfield.{
  Bitfield, has, sum_ones, count_set, is_complete, range, missing, bit_at, IsValid,
}
use btget.Pieces.Bitfield.Laws.{has-bit_at}

count_below-ext :
    (n : ℕ) (p q : ℕ → Bool) → ((i : ℕ) → i < n → p i ≡ q i) → count_below n p ≡ count_below n q
count_below-ext zero p q h = refl
count_below-ext (suc n) p q h =
    ground (arith, h n (omega arith), count_below-ext n p q (λ i k. h i (omega arith)))

count_below-add :
    (m n : ℕ) (p : ℕ → Bool)
    → count_below (m + n) p ≡ count_below m p + count_below n (λ i. p (m + i))
count_below-add m zero p = rw add-zero (omega arith)
count_below-add m (suc n) p = rw add-suc (omega (arith, count_below-add m n p))

count_below-none : (n : ℕ) (p : ℕ → Bool) → ((i : ℕ) → i < n → p i ≡ false) → count_below n p ≡ 0
count_below-none zero p h = refl
count_below-none (suc n) p h =
    ground (arith, h n (omega arith), count_below-none n p (λ i k. h i (omega arith)))

pub count_below-le : (n : ℕ) (p : ℕ → Bool) → count_below n p ≤ n
count_below-le zero p = omega arith
count_below-le (suc n) p = ground (arith, count_below-le n p)

get_or_next :
    (b : ℕ) (bits : Bytes) (i : ℕ) → get_or (b ∷ bits) ((8 + i) / 8) 0 ≡ get_or bits (i / 8) 0
get_or_next b bits i = let e : (8 + i) / 8 ≡ suc (i / 8) = omega arith in rw e

get_or_first : (b : ℕ) (bits : Bytes) (i : ℕ) → i < 8 → get_or (b ∷ bits) (i / 8) 0 ≡ b
get_or_first b bits i h = let e : i / 8 ≡ 0 = omega arith in rw e

sum_ones-bit_at :
    (bits : Bytes) → IsBytes bits → sum_ones bits ≡ count_below (8 * length bits) (bit_at bits)
unfolding sum_ones
sum_ones-bit_at [] h = refl
sum_ones-bit_at (b ∷ bits) h =
    let split : 8 * suc (length bits) ≡ 8 + 8 * length bits = omega arith in
    rw (split, count_below-add 8 (8 * length bits) (bit_at (b ∷ bits)))
      (omega (
        arith,
        count_ones-test_bit b h.0,
        sum_ones-bit_at bits h.1,
        count_below-ext 8 (test_bit b) (bit_at (b ∷ bits)) (λ i k. first i k),
        count_below-ext (8 * length bits) (bit_at bits) (λ i. bit_at (b ∷ bits) (8 + i))
            (λ i k. next i),
      ))
  where
    first : (i : ℕ) → i < 8 → test_bit b i ≡ bit_at (b ∷ bits) i
    first i k = let e : i % 8 ≡ i = omega arith in rw (get_or_first b bits i k, e)

    next : (i : ℕ) → bit_at bits i ≡ bit_at (b ∷ bits) (8 + i)
    next i = let e : (8 + i) % 8 ≡ i % 8 = omega arith in rw (get_or_next b bits i, e)

-- `count_set` counts the pieces that `has` finds.
pub count_set-has : (b : Bitfield) → IsValid b → count_set b ≡ count_below b.pieces (has b)
unfolding count_set
count_set-has b v =
    let rest : ℕ = 8 * length b.bits - b.pieces in
    let split : 8 * length b.bits ≡ b.pieces + rest = omega (arith, v.sized) in
    sum_ones-bit_at b.bits v.bytes
    ∙ ap (λ n. count_below n (bit_at b.bits)) split
    ∙ omega (
      arith,
      count_below-add b.pieces rest (bit_at b.bits),
      count_below-none rest (λ i. bit_at b.bits (b.pieces + i))
          (λ i _. v.spare (b.pieces + i) (omega arith)),
      count_below-ext b.pieces (has b) (bit_at b.bits) (λ i _. has-bit_at b i v),
    )

range-suc : (start n : ℕ) → range start (suc n) ≡ range start n ++ (start + n) ∷ []
unfolding range
range-suc start zero = ap (λ (k : ℕ). k ∷ []) (omega arith)
range-suc start (suc n) =
    ap (λ t. start ∷ t)
      (range-suc (suc start) n ∙ ap (λ (k : ℕ). range (suc start) n ++ k ∷ []) (omega arith))

contains-range : (start n i : ℕ) → contains i (range start n) ≡ (leb start i && ltb i (start + n))
unfolding range
contains-range start zero i = ground arith
contains-range start (suc n) i = ground (arith, contains-range (suc start) n i)

length-select-range :
    (n : ℕ) (p : ℕ → Bool) → length (select (λ i. not (p i)) (range 0 n)) + count_below n p ≡ n
length-select-range zero p = unfold range in refl
length-select-range (suc n) p =
    rw (range-suc 0 n, select-append (λ i. not (p i)) (range 0 n) ((0 + n) ∷ []))
      (omega (
        arith,
        length-append (select (λ i. not (p i)) (range 0 n))
            (select (λ i. not (p i)) ((0 + n) ∷ [])),
        length-select-range n p,
        one_more n p,
      ))
  where
    one_more :
        (n : ℕ) (p : ℕ → Bool)
        → length (select (λ i. not (p i)) ((0 + n) ∷ [])) + (if p n then 1 else 0) ≡ 1
    one_more n p = ground (arith, ap p (zero-add n))

-- The missing pieces are those in range that `has` does not find.
pub contains-missing :
    (b : Bitfield) (i : ℕ) → contains i (missing b) ≡ (ltb i b.pieces && not (has b i))
unfolding missing
contains-missing b i =
    contains-select (λ i. not (has b i)) i (range 0 b.pieces)
    ∙ ground (arith, contains-range 0 b.pieces i)

-- Missing pieces and pieces counted add up to all pieces.
pub length-missing : (b : Bitfield) → IsValid b → length (missing b) + count_set b ≡ b.pieces
unfolding missing
length-missing b v = rw (count_set-has b v) (length-select-range b.pieces (has b))

-- A bitfield is complete exactly when no piece is missing.
pub is_complete_iff : (b : Bitfield) → IsValid b → (is_complete b ≡ true) ↔ (missing b ≡ [])
unfolding is_complete
is_complete_iff b v = (
  λ e.
      length-zero (missing b)
        (omega (arith, (==_iff (count_set b) b.pieces).0 e, length-missing b v)),
  λ e. (==_iff (count_set b) b.pieces).1 (omega (arith, ap length e, length-missing b v)),
)
