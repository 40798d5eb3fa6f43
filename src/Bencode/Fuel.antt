-- ===== src/Bencode/Fuel.antt =====
-- The fuel of the decoder in bencode.rs is enough on every input.
use btget.Prelude.{
  ℕ, zero, suc, ◌+◌, ◌*◌, ◌^◌, ◌≤◌, ◌<◌, ◌≡◌, refl, ◌≢◌, Bool, true, false, not, ◌&&◌, Option, none,
  some, [], ◌∷◌, arith, leb, ◌==◌, if◌then◌else◌, length, take, drop, length-drop, is_empty, Bytes,
  bytes_eq, Result, ok, err, ◌>>◌, guard, ok_or, map_ok, Ensures, holds, rejected, Ensures-err,
  Ensures-if, Ensures-guard, Ensures-bind, Ensures-mono,
}
use btget.Prelude.Int.{ℤ, pos, neg_ℕ, fits_i64}
use btget.Prelude.Decimal.{is_digit, parse_decimal, leading_zero}
use btget.Bencode.{
  Value, Entries, Error, bytes, int, list, dict, nil, cons, no_entries, unexpected_end, bad_integer,
  bad_length, non_string_key, unsorted_or_duplicate_key, trailing_data, too_deep, out_of_fuel,
  unexpected_byte, max_depth, insert, peek, take_byte, take_digits, skip_minus, try_i64, integer,
  string, as_key, is_after, value, list_loop, dict_loop, decode_with,
}

abbrev NotFuel : Error → Type 0
NotFuel e = e ≢ out_of_fuel

-- The method does not run out of fuel, and what it leaves is shorter than its input by `n`.
abbrev Takes {ℓ} : {A : Type ℓ} → ℕ → Bytes → Result (A × Bytes) Error → Type ℓ
Takes n s = Ensures (λ (_, rest). n + length rest ≤ length s) NotFuel

peek-Ensures : (s : Bytes) → Ensures (λ _. 0 < length s) NotFuel (peek s)
unfolding peek
peek-Ensures [] = rejected (λ e. cc)
peek-Ensures (b ∷ s) = holds (omega arith)

take_byte-Takes : (s : Bytes) → Takes 1 s (take_byte s)
unfolding take_byte
take_byte-Takes [] = rejected (λ e. cc)
take_byte-Takes (b ∷ s) = holds (omega arith)

take_digits-Takes : (s : Bytes) → Takes 0 s (take_digits s)
unfolding take_digits
take_digits-Takes [] = rejected (λ e. cc)
take_digits-Takes (b ∷ s) =
    Ensures-if (is_digit b) (λ _. more (take_digits s) (take_digits-Takes s))
      (λ _. holds (omega arith))
  where
    more :
        (r : Result (Bytes × Bytes) Error)
        → Takes 0 s r
        → Takes 0 (b ∷ s) (map_ok (λ (ds, rest). (b ∷ ds, rest)) r)
    more _ (holds h) = holds (omega arith)
    more _ (rejected q) = rejected q

skip_minus-Ensures :
    (negative : Bool) (s : Bytes)
    → Ensures (λ rest. length rest ≤ length s) NotFuel (skip_minus negative s)
unfolding take_byte
skip_minus-Ensures true [] = rejected (λ e. cc)
skip_minus-Ensures true (b ∷ s) = holds (omega arith)
skip_minus-Ensures false s = holds (omega arith)

ok_or-Ensures : (o : Option ℕ) (e : Error) → NotFuel e → Ensures (λ _. Unit {0}) NotFuel (ok_or o e)
ok_or-Ensures none e h = rejected h
ok_or-Ensures (some n) e h = holds tt

try_i64-Ensures : (i : ℤ) → Ensures (λ _. Unit {0}) NotFuel (try_i64 i)
try_i64-Ensures i = Ensures-if (fits_i64 i) (λ _. holds tt) (λ _. rejected (λ e. cc))

integer-Takes : (strict : Bool) (s : Bytes) → Takes 1 s (integer strict s)
unfolding integer
integer-Takes strict s = Ensures-bind (take_byte-Takes s) λ (_, s₁) h₁.
    Ensures-bind (peek-Ensures s₁) λ b _. Ensures-bind (skip_minus-Ensures (b == b'-') s₁) λ s₂ h₂.
      Ensures-bind (take_digits-Takes s₂) λ (ds, s₃) h₃.
        Ensures-bind (take_byte-Takes s₃) λ (c, s₄) h₄.
          Ensures-guard (c == b'e') bad_integer (λ e. cc)
            λ _.
              Ensures-guard (not (is_empty ds)) bad_integer (λ e. cc)
                λ _.
                  Ensures-guard (not (strict && leading_zero ds)) bad_integer (λ e. cc)
                    λ _.
                      Ensures-guard (not (strict && (b == b'-' && bytes_eq ds (b'0' ∷ []))))
                        bad_integer (λ e. cc)
                        λ _.
                          Ensures-bind
                            (ok_or-Ensures (parse_decimal (2 ^ 127) ds) bad_integer (λ e. cc))
                            λ n _.
                              Ensures-bind (try_i64-Ensures (if b == b'-' then neg_ℕ n else pos n))
                                λ i _. holds {a = (int i, s₄)} (omega arith)

string-Takes : (strict : Bool) (s : Bytes) → Takes 1 s (string strict s)
unfolding string
string-Takes strict s = Ensures-bind (take_digits-Takes s) λ (ds, s₁) h₁.
    Ensures-bind (take_byte-Takes s₁) λ (c, s₂) h₂.
      Ensures-guard (c == b':') bad_length (λ e. cc)
        λ _.
          Ensures-guard (not (strict && leading_zero ds)) bad_length (λ e. cc)
            λ _.
              Ensures-bind (ok_or-Ensures (parse_decimal (2 ^ 64) ds) bad_length (λ e. cc)) λ n _.
                Ensures-guard (leb n (length s₂)) unexpected_end (λ e. cc)
                  λ _. holds {a = (bytes (take n s₂), drop n s₂)} (omega (arith, length-drop n s₂))

as_key-Ensures : (v : Value) → Ensures (λ k. v ≡ bytes k) NotFuel (as_key v)
as_key-Ensures (bytes k) = holds refl
as_key-Ensures _ = rejected {e = non_string_key} (λ e. cc)

-- The no_entries of a list or of a dictionary.
take_end-Takes {ℓ} :
    {A : Type ℓ} (a : A) (s : Bytes) → Takes 1 s (map_ok (λ (_, s). (a, s)) (take_byte s))
unfolding take_byte
take_end-Takes a [] = rejected (λ e. cc)
take_end-Takes a (b ∷ s) = holds (omega arith)

mutual
  unfolding value

  value-Takes :
      (f : ℕ) (strict : Bool) (depth : ℕ) (s : Bytes)
      → 2 * length s < f
      → Takes 1 s (value f strict depth s)
  value-Takes zero strict depth s h = absurd (omega arith)
  value-Takes (suc f) strict depth s h =
      Ensures-guard (leb depth max_depth) too_deep (λ e. cc)
        λ _. Ensures-bind (peek-Ensures s) λ b _.
          Ensures-if (b == b'i') (λ _. integer-Takes strict s)
            λ _.
              Ensures-if (b == b'l')
                (λ _. Ensures-bind (take_byte-Takes s) λ (_, s₁) h₁.
                  Ensures-bind (list_loop-Takes f strict depth s₁ (omega arith))
                    λ (xs, s₂) h₂. holds {a = (list xs, s₂)} (omega arith))
                λ _.
                  Ensures-if (b == b'd')
                    (λ _. Ensures-bind (take_byte-Takes s) λ (_, s₁) h₁.
                      Ensures-bind (dict_loop-Takes f strict depth no_entries none s₁ (omega arith))
                        λ (fs, s₂) h₂. holds {a = (dict fs, s₂)} (omega arith))
                    λ _.
                      Ensures-if (is_digit b) (λ _. string-Takes strict s)
                        (λ _. rejected {e = unexpected_byte b} (λ e. cc))

  list_loop-Takes :
      (f : ℕ) (strict : Bool) (depth : ℕ) (s : Bytes)
      → 2 * length s + 1 < f
      → Takes 1 s (list_loop f strict depth s)
  list_loop-Takes zero strict depth s h = absurd (omega arith)
  list_loop-Takes (suc f) strict depth s h = Ensures-bind (peek-Ensures s) λ b _.
      Ensures-if (b == b'e') (λ _. take_end-Takes nil s)
        λ _. Ensures-bind (value-Takes f strict (depth + 1) s (omega arith)) λ (v, s₁) h₁.
          Ensures-bind (list_loop-Takes f strict depth s₁ (omega arith))
            λ (xs, s₂) h₂. holds {a = (cons v xs, s₂)} (omega arith)

  dict_loop-Takes :
      (f : ℕ) (strict : Bool) (depth : ℕ) (m : Entries) (last : Option Bytes) (s : Bytes)
      → 2 * length s + 1 < f
      → Takes 1 s (dict_loop f strict depth m last s)
  dict_loop-Takes zero strict depth m last s h = absurd (omega arith)
  dict_loop-Takes (suc f) strict depth m last s h = Ensures-bind (peek-Ensures s) λ b _.
      Ensures-if (b == b'e') (λ _. take_end-Takes m s)
        λ _. Ensures-bind (value-Takes f strict (depth + 1) s (omega arith)) λ (k, s₁) h₁.
          Ensures-bind (as_key-Ensures k) λ key _.
            Ensures-guard (not (strict && not (is_after last key))) unsorted_or_duplicate_key
              (λ e. cc)
              λ _. Ensures-bind (value-Takes f strict (depth + 1) s₁ (omega arith)) λ (item, s₂) h₂.
                Ensures-mono
                  (dict_loop-Takes f strict depth (insert key item m) (some key) s₂ (omega arith))
                  λ _ h₃. omega arith

finish-NotFuel :
    (v : Value) (rest : Bytes)
    → Ensures (λ _. Unit {0}) NotFuel (guard (is_empty rest) trailing_data >> ok v)
finish-NotFuel v rest = Ensures-guard (is_empty rest) trailing_data (λ e. cc) λ _. holds tt

-- The decoder, strict or lenient, answers every input with a value or an error of the program.
pub decode_with-ne_out_of_fuel :
    (input : Bytes) (strict : Bool) → decode_with input strict ≢ err out_of_fuel
unfolding decode_with
decode_with-ne_out_of_fuel input strict e =
    Ensures-err
      (Ensures-bind (value-Takes (2 * length input + 1) strict 0 input (omega arith))
        λ (v, rest) _. finish-NotFuel v rest)
      e refl
