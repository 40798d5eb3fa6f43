-- ===== src/Pieces/Availability/Laws.antt =====
-- What the operations of `Availability` in pieces.rs do to each count.
use btget.Prelude.{
  ℕ, zero, suc, ◌+◌, ◌-◌, ◌%◌, ◌^◌, ◌<◌, ◌≡◌, refl, ◌∙◌, Bool, true, ◌&&◌, List, [], ◌∷◌, arith,
  ltb, leb, ◌==◌, if◌then◌else◌, length, get_or, set as set_elem, length-set,
}
use btget.Pieces.Bitfield.{Bitfield, has, range}
use btget.Pieces.Availability.{
  Availability, count, add_have, remove_have, add_loop, add_bitfield, remove_loop, remove_bitfield,
}

-- One count is replaced.
get_or-set_elem :
    (xs : List ℕ) (i j v : ℕ)
    → get_or (set_elem xs i v) j 0 ≡ (if (i == j) && ltb i (length xs) then v else get_or xs j 0)
get_or-set_elem [] i j v = ground arith
get_or-set_elem (x ∷ xs) zero zero v = ground arith
get_or-set_elem (x ∷ xs) zero (suc j) v = ground arith
get_or-set_elem (x ∷ xs) (suc i) zero v = ground arith
get_or-set_elem (x ∷ xs) (suc i) (suc j) v = ground (arith, get_or-set_elem xs i j v)

pub length-add_have : (a : Availability) (i : ℕ) → length (add_have a i).counts ≡ length a.counts
unfolding add_have
length-add_have a i = length-set a.counts i _

pub length-remove_have :
    (a : Availability) (i : ℕ) → length (remove_have a i).counts ≡ length a.counts
unfolding remove_have
length-remove_have a i = length-set a.counts i _

pub count-add_have :
    (a : Availability) (i j : ℕ)
    → count (add_have a i) j
      ≡ (if (i == j) && ltb i (length a.counts) then (count a j + 1) % 2 ^ 32 else count a j)
unfolding count add_have
count-add_have a i j =
    get_or-set_elem a.counts i j ((get_or a.counts i 0 + 1) % 2 ^ 32) ∙ ground arith

pub count-remove_have :
    (a : Availability) (i j : ℕ)
    → count (remove_have a i) j
      ≡ (if (i == j) && ltb i (length a.counts) then count a j - 1 else count a j)
unfolding count remove_have
count-remove_have a i j = get_or-set_elem a.counts i j (get_or a.counts i 0 - 1) ∙ ground arith

-- The pieces from `s` on, `n` of them.
abbrev within : ℕ → ℕ → ℕ → Bool
within s n j = leb s j && ltb j (s + n)

count-add_loop :
    (b : Bitfield) (s n : ℕ) (a : Availability) (j : ℕ)
    → count (add_loop b (range s n) a) j ≡ (
        if within s n j && (has b j && ltb j (length a.counts))
        then (count a j + 1) % 2 ^ 32
        else count a j)
unfolding add_loop range
count-add_loop b s zero a j = ground arith
count-add_loop b s (suc n) a j = ground (
  arith,
  count-add_loop b (suc s) n (add_have a s) j,
  count-add_loop b (suc s) n a j,
  count-add_have a s j,
  length-add_have a s,
)

count-remove_loop :
    (b : Bitfield) (s n : ℕ) (a : Availability) (j : ℕ)
    → count (remove_loop b (range s n) a) j
      ≡ (if within s n j && (has b j && ltb j (length a.counts)) then count a j - 1 else count a j)
unfolding remove_loop range
count-remove_loop b s zero a j = ground arith
count-remove_loop b s (suc n) a j = ground (
  arith,
  count-remove_loop b (suc s) n (remove_have a s) j,
  count-remove_loop b (suc s) n a j,
  count-remove_have a s j,
  length-remove_have a s,
)

has_below : (b : Bitfield) (j : ℕ) → has b j ≡ true → ltb j b.pieces ≡ true
unfolding has
has_below b j h = ground arith

-- A bitfield that is added raises the count of each of its pieces by one.
pub count-add_bitfield :
    (a : Availability) (b : Bitfield) (j : ℕ)
    → count (add_bitfield a b) j
      ≡ (if has b j && ltb j (length a.counts) then (count a j + 1) % 2 ^ 32 else count a j)
unfolding add_bitfield
count-add_bitfield a b j = ground (arith, count-add_loop b 0 b.pieces a j, has_below b j)

-- A bitfield that is removed lowers the count of each of its pieces by one, down to 0.
pub count-remove_bitfield :
    (a : Availability) (b : Bitfield) (j : ℕ)
    → count (remove_bitfield a b) j
      ≡ (if has b j && ltb j (length a.counts) then count a j - 1 else count a j)
unfolding remove_bitfield
count-remove_bitfield a b j = ground (arith, count-remove_loop b 0 b.pieces a j, has_below b j)

length-add_loop :
    (b : Bitfield) (is : List ℕ) (a : Availability)
    → length (add_loop b is a).counts ≡ length a.counts
unfolding add_loop
length-add_loop b [] a = refl
length-add_loop b (i ∷ is) a =
    ground (arith, length-add_loop b is (add_have a i), length-add_loop b is a, length-add_have a i)

pub length-add_bitfield :
    (a : Availability) (b : Bitfield) → length (add_bitfield a b).counts ≡ length a.counts
unfolding add_bitfield
length-add_bitfield a b = length-add_loop b (range 0 b.pieces) a

length-remove_loop :
    (b : Bitfield) (is : List ℕ) (a : Availability)
    → length (remove_loop b is a).counts ≡ length a.counts
unfolding remove_loop
length-remove_loop b [] a = refl
length-remove_loop b (i ∷ is) a =
    length-remove_loop b is (if has b i then remove_have a i else a)
    ∙ ground (arith, length-remove_have a i)

pub length-remove_bitfield :
    (a : Availability) (b : Bitfield) → length (remove_bitfield a b).counts ≡ length a.counts
unfolding remove_bitfield
length-remove_bitfield a b = length-remove_loop b (range 0 b.pieces) a

-- Where no count is at its top, removing a bitfield that was added gives every count back.
pub remove_bitfield-add_bitfield :
    (a : Availability) (b : Bitfield) (j : ℕ)
    → count a j + 1 < 2 ^ 32
    → count (remove_bitfield (add_bitfield a b) b) j ≡ count a j
remove_bitfield-add_bitfield a b j h =
    count-remove_bitfield (add_bitfield a b) b j
    ∙ ground (arith, count-add_bitfield a b j, length-add_bitfield a b)
