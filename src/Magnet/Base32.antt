-- ===== src/Magnet/Base32.antt =====
-- The base 32 spelling of an info hash, for `decode_btih` of magnet.rs.
use btget.Prelude.{
  ℕ, zero, suc, ◌+◌, ◌*◌, ◌-◌, ◌/◌, ◌%◌, ◌^◌, ◌<◌, ◌≡◌, refl, sym, ap, ◌∙◌, subst, Bool, true,
  false, List, [], ◌∷◌, Option, none, some, arith, leb, ◌==◌, ==_iff, if◌then◌else◌, length, map,
  get_or, All, Bytes, ascii, Bool-cases, inl, inr, Result, ok, IsBytes,
}
use btget.Prelude.Bits.{all_below, all_below_sound}
use btget.Prelude.Words.{from_be_acc, from_be_bytes}
use btget.Magnet.{
  Error, base32_value, base32_out, base32_loop, base32_decode, twenty, or_bad_hash, decode_btih,
}

abbrev pub capitals : Bytes
capitals = ascii "ABCDEFGHIJKLMNOPQRSTUVWXYZ234567"

abbrev pub smalls : Bytes
smalls = ascii "abcdefghijklmnopqrstuvwxyz234567"

-- A digit, and whether it is spelt with a capital letter.
abbrev pub Digit : Type 0
Digit = ℕ × Bool

abbrev pub letter : Digit → ℕ
letter (v, true) = get_or capitals v 0
letter (v, false) = get_or smalls v 0

-- The number that the digits spell, behind another number.
abbrev pub number : ℕ → List Digit → ℕ
number acc [] = acc
number acc ((v, b) ∷ vs) = number (acc * 32 + v) vs

abbrev is_some : ℕ → Option ℕ → Bool
is_some v none = false
is_some v (some x) = x == v

abbrev both_letters : ℕ → Bool
both_letters v =
    if is_some v (base32_value (letter (v, true)))
    then is_some v (base32_value (letter (v, false)))
    else false

letters_table : all_below 32 both_letters ≡ true
letters_table = refl

some_back : (v : ℕ) (o : Option ℕ) → is_some v o ≡ true → o ≡ some v
some_back v none h = cc
some_back v (some x) h = ap some ((==_iff x v).0 h)

if_true : (a b : Bool) → (if a then b else false) ≡ true → (a ≡ true) × (b ≡ true)
if_true true b h = (refl, h)
if_true false b h = cc

-- What the loop makes of the digits: bytes, and fewer than eight bits that are left.
record Decoded (P n total : ℕ) (o : Option Bytes) : Type 0 where
  out : Bytes
  is : o ≡ some out
  left : ℕ
  rest : ℕ
  bits : 8 * length out + left ≡ total
  few : left < 8
  small : rest < 2 ^ left
  spelt : n ≡ from_be_acc P out * 2 ^ left + rest
  bytes : IsBytes out

kept_bits :
    (c P bits v : ℕ)
    → c < 3
    → v < 32
    → P * 2 ^ (c + 5) + (bits * 32 % 2 ^ 64 + v) % 2 ^ (c + 5) ≡ (P * 2 ^ c + bits % 2 ^ c) * 32 + v
kept_bits zero P bits v h k = omega arith
kept_bits (suc zero) P bits v h k = omega arith
kept_bits (suc (suc zero)) P bits v h k = omega arith
kept_bits (suc (suc (suc c))) P bits v h k = absurd (omega arith)

spilt_bits :
    (c P bits v : ℕ)
    → c < 5
    → v < 32
    → (P * 256 + (bits * 32 % 2 ^ 64 + v) / 2 ^ c % 256) * 2 ^ c + (bits * 32 % 2 ^ 64 + v) % 2 ^ c
      ≡ (P * 2 ^ (c + 3) + bits % 2 ^ (c + 3)) * 32 + v
spilt_bits zero P bits v h k = omega arith
spilt_bits (suc zero) P bits v h k = omega arith
spilt_bits (suc (suc zero)) P bits v h k = omega arith
spilt_bits (suc (suc (suc zero))) P bits v h k = omega arith
spilt_bits (suc (suc (suc (suc zero)))) P bits v h k = omega arith
spilt_bits (suc (suc (suc (suc (suc c))))) P bits v h k = absurd (omega arith)

letter_value : (v : ℕ) (b : Bool) → both_letters v ≡ true → base32_value (letter (v, b)) ≡ some v
letter_value v true h = some_back v (base32_value (letter (v, true))) (if_true _ _ h).0
letter_value v false h = some_back v (base32_value (letter (v, false))) (if_true _ _ h).1

base32_value-letter : (v : ℕ) (b : Bool) → v < 32 → base32_value (letter (v, b)) ≡ some v
base32_value-letter v b h = letter_value v b (all_below_sound 32 both_letters letters_table v h)

-- A byte more in front of what the rest gives.
Decoded-out :
    (P n total b : ℕ) (o : Option Bytes)
    → b < 256
    → Decoded (P * 256 + b) n total o
    → Decoded P n (total + 8) (base32_out b o)
unfolding from_be_acc
Decoded-out P n total b o h d = record {
  out = b ∷ d.out;
  is = rw d.is refl;
  left = d.left;
  rest = d.rest;
  bits = omega (arith, d.bits);
  few = d.few;
  small = d.small;
  spelt = d.spelt;
  bytes = (h, d.bytes);
}

Decoded-total : {P n t t' : ℕ} {o : Option Bytes} → t ≡ t' → Decoded P n t o → Decoded P n t' o
Decoded-total {P} {n} {t} {t'} {o} e d = subst (λ m. Decoded P n m o) e d

Decoded-value : {P n n' t : ℕ} {o : Option Bytes} → n ≡ n' → Decoded P n t o → Decoded P n' t o
Decoded-value {P} {n} {n'} {t} {o} e d = subst (λ m. Decoded P m t o) e d

abbrev pub IsDigits : List Digit → Type 0
IsDigits = All (λ d. d.0 < 32)

rest_small : (c bits : ℕ) → c < 8 → bits % 2 ^ c < 2 ^ c
rest_small zero bits h = omega arith
rest_small (suc zero) bits h = omega arith
rest_small (suc (suc zero)) bits h = omega arith
rest_small (suc (suc (suc zero))) bits h = omega arith
rest_small (suc (suc (suc (suc zero)))) bits h = omega arith
rest_small (suc (suc (suc (suc (suc zero))))) bits h = omega arith
rest_small (suc (suc (suc (suc (suc (suc zero)))))) bits h = omega arith
rest_small (suc (suc (suc (suc (suc (suc (suc zero))))))) bits h = omega arith
rest_small (suc (suc (suc (suc (suc (suc (suc (suc c)))))))) bits h = absurd (omega arith)

-- The bits that are left over stand behind the bytes that are out, which spell `P`.
base32_loop-Decoded :
    (c P bits : ℕ) (vs : List Digit)
    → c < 8
    → IsDigits vs
    → Decoded P
        (number (P * 2 ^ c + bits % 2 ^ c) vs)
        (c + 5 * length vs)
        (base32_loop bits c (map letter vs))
unfolding base32_loop from_be_acc
base32_loop-Decoded c P bits [] h k = record {
  out = [];
  is = refl;
  left = c;
  rest = bits % 2 ^ c;
  bits = omega arith;
  few = h;
  small = rest_small c bits h;
  spelt = refl;
  bytes = tt;
}
base32_loop-Decoded c P bits ((v, b) ∷ vs) h k =
    rw (base32_value-letter v b k.0) (elim (Bool-cases (leb 8 (c + 5))) [
      | inl e ↦ rw e (
          let k3 : c + 5 - 8 + 3 ≡ c = ground (arith, e) in
          let low : c + 5 - 8 < 5 = ground (arith, e, h) in
          Decoded-total (ground (arith, e)) (
            Decoded-out P _ _ _ _ (omega arith) (
              Decoded-value
                (ap (λ n. number n vs)
                  (spilt_bits (c + 5 - 8) P bits v low k.0
                    ∙ ap (λ m. (P * 2 ^ m + bits % 2 ^ m) * 32 + v) k3))
                (base32_loop-Decoded (c + 5 - 8)
                  (P * 256 + (bits * 32 % 2 ^ 64 + v) / 2 ^ (c + 5 - 8) % 256)
                  (bits * 32 % 2 ^ 64 + v) vs (omega arith) k.1))))
      | inr e ↦ rw e (
          Decoded-total (omega arith) (
            Decoded-value (ap (λ n. number n vs) (kept_bits c P bits v (ground (arith, e)) k.0))
              (base32_loop-Decoded (c + 5) P (bits * 32 % 2 ^ 64 + v) vs (ground (arith, e)) k.1)))
    ])

-- The result is a hash, and its bytes are the number that the digits spell.
pub record IsHashOf (vs : List Digit) (r : Result Bytes Error) : Type 0 where
  pub hash : Bytes
  pub is : r ≡ ok hash
  pub size : length hash ≡ 20
  pub bytes : IsBytes hash
  pub spelt : from_be_bytes hash ≡ number 0 vs

twenty_bytes : (n left : ℕ) → 8 * n + left ≡ 160 → left < 8 → (n ≡ 20) × (left ≡ 0)
twenty_bytes n left h k = (omega (arith, h), omega (arith, h))

whole : (n left rest : ℕ) → left ≡ 0 → rest < 2 ^ left → n * 2 ^ left + rest ≡ n
whole n zero rest h k = omega arith
whole n (suc left) rest h k = absurd (omega arith)

IsHashOf-Decoded :
    (vs : List Digit) (o : Option Bytes)
    → Decoded 0 (number 0 vs) 160 o
    → IsHashOf vs (or_bad_hash (twenty o))
unfolding from_be_bytes
IsHashOf-Decoded vs o d =
    let n = twenty_bytes (length d.out) d.left d.bits d.few in
    record {
      hash = d.out;
      is = rw (d.is, n.0) refl;
      size = n.0;
      bytes = d.bytes;
      spelt = sym (d.spelt ∙ whole (from_be_acc 0 d.out) d.left d.rest n.1 d.small);
    }

length-letters : (vs : List Digit) → length (map letter vs) ≡ length vs
length-letters [] = refl
length-letters (v ∷ vs) = ap suc (length-letters vs)

-- For thirty-two digits, each below 32 and spelt with a capital or a small letter of the alphabet of
-- base 32: `decode_btih` accepts the text, and the hash it gives has twenty bytes that are, the most
-- significant one first, the number that the digits spell, the most significant one first.
pub decode_btih-IsHashOf :
    (vs : List Digit) → IsDigits vs → length vs ≡ 32 → IsHashOf vs (decode_btih (map letter vs))
unfolding decode_btih base32_decode
decode_btih-IsHashOf vs h n =
    rw (length-letters vs, n)
      (IsHashOf-Decoded vs (base32_loop 0 0 (map letter vs)) (
        Decoded-total (omega (arith, n)) (
          Decoded-value (ap (λ m. number m vs) (omega arith))
            (base32_loop-Decoded 0 0 0 vs (omega arith) h))))
