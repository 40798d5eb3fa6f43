-- ===== src/Prelude/Decimal.antt =====
-- Decimal text of the unsigned integers: `to_string` and `parse`.
use btget.Prelude.{
  ℕ, zero, suc, ◌+◌, ◌-◌, ◌*◌, ◌/◌, ◌%◌, ◌<◌, ◌≡◌, refl, sym, ap, ◌∙◌, Bool, true, false, ◌&&◌,
  Option, none, some, [], ◌∷◌, ◌++◌, append-nil, append_assoc, arith, ltb, leb, ◌==◌, if◌then◌else◌,
  is_empty, All, Bytes, Bool-cases, inl, inr, ◌≢◌, All-append,
}

unfoldable pub is_digit : ℕ → Bool
is_digit b = leb b'0' b && leb b b'9'

-- The digits of `n`, with fuel above `n`.
decimal : ℕ → ℕ → Bytes
decimal zero n = []
decimal (suc f) n =
    let more = decimal f (n / 10) ++ ((b'0' + n % 10) ∷ []) in
    if ltb n 10 then (b'0' + n) ∷ [] else more

-- `n.to_string()`
unfoldable pub to_string : ℕ → Bytes
unfolding decimal
to_string n = decimal (suc n) n

digits_value : ℕ → Bytes → ℕ
digits_value acc [] = acc
digits_value acc (d ∷ ds) = digits_value (acc * 10 + (d - b'0')) ds

-- `text.parse()` of a text of digits: `none` if it is empty or the number is not below `limit`.
unfoldable pub parse_decimal : ℕ → Bytes → Option ℕ
unfolding digits_value
parse_decimal limit [] = none
parse_decimal limit (d ∷ ds) =
    let v = digits_value 0 (d ∷ ds) in if ltb v limit then some v else none

-- `digits.len() > 1 && digits[0] == b'0'`
unfoldable pub leading_zero : Bytes → Bool
leading_zero [] = false
leading_zero (d ∷ []) = false
leading_zero (d ∷ e ∷ ds) = d == b'0'

abbrev pub IsDigits : Bytes → Type 0
IsDigits = All (λ d. is_digit d ≡ true)

digits_value-snoc :
    (acc : ℕ) (xs : Bytes) (d : ℕ)
    → digits_value acc (xs ++ d ∷ []) ≡ digits_value acc xs * 10 + (d - b'0')
unfolding digits_value
digits_value-snoc acc [] d = refl
digits_value-snoc acc (x ∷ xs) d = digits_value-snoc (acc * 10 + (x - b'0')) xs d

digits_value-one : (d : ℕ) → digits_value 0 (d ∷ []) ≡ d - b'0'
unfolding digits_value
digits_value-one d = omega arith

digits_value-decimal : (f n : ℕ) → n < f → digits_value 0 (decimal f n) ≡ n
unfolding decimal
digits_value-decimal zero n h = absurd (omega arith)
digits_value-decimal (suc f) n h = ground (
  arith,
  digits_value-snoc 0 (decimal f (n / 10)) (b'0' + n % 10),
  digits_value-one (b'0' + n),
  digits_value-decimal f (n / 10),
)

-- Fuel above the number is not spent.
decimal_fuel : (f g n : ℕ) → n < f → n < g → decimal f n ≡ decimal g n
unfolding decimal
decimal_fuel zero g n h k = absurd (omega arith)
decimal_fuel (suc f) zero n h k = absurd (omega arith)
decimal_fuel (suc f) (suc g) n h k = ground (arith, decimal_fuel f g (n / 10))

decimal-IsDigits : (f n : ℕ) → IsDigits (decimal f n)
unfolding decimal is_digit
decimal-IsDigits zero n = tt
decimal-IsDigits (suc f) n = elim (Bool-cases (ltb n 10)) [
  | inl e ↦ rw (e, decimal) (ground arith, tt)
  | inr e ↦
      rw (e, decimal)
        (All-append (λ d. is_digit d ≡ true) (decimal f (n / 10)) ((b'0' + n % 10) ∷ [])
          (decimal-IsDigits f (n / 10)) (ground arith, tt))
]

is_empty-snoc : (xs : Bytes) (d : ℕ) → is_empty (xs ++ d ∷ []) ≡ false
is_empty-snoc [] d = refl
is_empty-snoc (x ∷ xs) d = refl

is_empty-decimal : (f n : ℕ) → n < f → is_empty (decimal f n) ≡ false
unfolding decimal
is_empty-decimal zero n h = absurd (omega arith)
is_empty-decimal (suc f) n h = ground (arith, is_empty-snoc (decimal f (n / 10)) (b'0' + n % 10))

-- A text whose first digit, if any, is not 0.
abbrev NoZeroFirst : Bytes → Type 0
NoZeroFirst [] = Unit
NoZeroFirst (d ∷ ds) = d ≢ b'0'

NoZeroFirst-snoc :
    (xs : Bytes) (d : ℕ) → is_empty xs ≡ false → NoZeroFirst xs → NoZeroFirst (xs ++ d ∷ [])
NoZeroFirst-snoc [] d e h = cc
NoZeroFirst-snoc (x ∷ xs) d e h = h

NoZeroFirst-decimal : (f n : ℕ) → n < f → 0 < n → NoZeroFirst (decimal f n)
unfolding decimal
NoZeroFirst-decimal zero n h p = absurd (omega arith)
NoZeroFirst-decimal (suc f) n h p = elim (Bool-cases (ltb n 10)) [
  | inl e ↦ rw (e, decimal) (ground arith)
  | inr e ↦
      rw (e, decimal)
        (NoZeroFirst-snoc (decimal f (n / 10)) _ (is_empty-decimal f (n / 10) (ground arith))
          (NoZeroFirst-decimal f (n / 10) (ground arith) (ground arith)))
]

leading_zero-NoZeroFirst : (xs : Bytes) → NoZeroFirst xs → leading_zero xs ≡ false
unfolding leading_zero
leading_zero-NoZeroFirst [] h = refl
leading_zero-NoZeroFirst (x ∷ []) h = refl
leading_zero-NoZeroFirst (x ∷ y ∷ xs) h = ground arith

-- What `to_string` writes: digits, one at least, with no leading zero.
pub to_string-IsDigits : (n : ℕ) → IsDigits (to_string n)
unfolding to_string
to_string-IsDigits n = decimal-IsDigits (suc n) n

pub is_empty-to_string : (n : ℕ) → is_empty (to_string n) ≡ false
unfolding to_string
is_empty-to_string n = is_empty-decimal (suc n) n (omega arith)

pub to_string_zero : to_string 0 ≡ b'0' ∷ []
unfolding to_string
to_string_zero = refl

pub NoZeroFirst-to_string : (n : ℕ) → 0 < n → NoZeroFirst (to_string n)
unfolding to_string
NoZeroFirst-to_string n h = NoZeroFirst-decimal (suc n) n (omega arith) h

pub leading_zero-to_string : (n : ℕ) → leading_zero (to_string n) ≡ false
leading_zero-to_string zero = rw to_string_zero (unfold leading_zero in refl)
leading_zero-to_string (suc n) =
    leading_zero-NoZeroFirst (to_string (suc n)) (NoZeroFirst-to_string (suc n) (omega arith))

parse_decimal-ne_empty :
    (limit : ℕ) (ds : Bytes)
    → is_empty ds ≡ false
    → parse_decimal limit ds
      ≡ (if ltb (digits_value 0 ds) limit then some (digits_value 0 ds) else none)
unfolding parse_decimal
parse_decimal-ne_empty limit [] e = cc
parse_decimal-ne_empty limit (d ∷ ds) e = refl

digits_value-to_string : (n : ℕ) → digits_value 0 (to_string n) ≡ n
unfolding to_string
digits_value-to_string n = digits_value-decimal (suc n) n (omega arith)

-- A number below the limit is read back from its text.
pub parse_decimal-to_string : (limit n : ℕ) → n < limit → parse_decimal limit (to_string n) ≡ some n
parse_decimal-to_string limit n h =
    rw (parse_decimal-ne_empty limit (to_string n) (is_empty-to_string n), digits_value-to_string n)
      (ground arith)

to_string-shift :
    (a d : ℕ) → 0 < a → d < 10 → to_string (a * 10 + d) ≡ to_string a ++ (b'0' + d) ∷ []
unfolding to_string decimal
to_string-shift a d h k = ground (arith, decimal_fuel (a * 10 + d) (suc a) a)

to_string-digits_value :
    (acc : ℕ) (ds : Bytes)
    → 0 < acc
    → IsDigits ds
    → to_string (digits_value acc ds) ≡ to_string acc ++ ds
unfolding digits_value is_digit
to_string-digits_value acc [] h k = sym (append-nil (to_string acc))
to_string-digits_value acc (d ∷ ds) h k =
    to_string-digits_value (acc * 10 + (d - b'0')) ds (omega arith) k.1
    ∙ ap (λ t. t ++ ds) (to_string-shift acc (d - b'0') h (ground arith))
    ∙ append_assoc (to_string acc) ((b'0' + (d - b'0')) ∷ []) ds
    ∙ ap (λ t. to_string acc ++ t ∷ ds) (ground arith)

to_string_digit : (d : ℕ) → is_digit d ≡ true → to_string (d - b'0') ≡ d ∷ []
unfolding to_string decimal is_digit
to_string_digit d h = ground arith

to_string-digits_value_first :
    (d : ℕ) (ds : Bytes)
    → IsDigits (d ∷ ds)
    → d ≢ b'0'
    → to_string (digits_value 0 (d ∷ ds)) ≡ d ∷ ds
unfolding digits_value is_digit
to_string-digits_value_first d ds h z =
    to_string-digits_value (0 * 10 + (d - b'0')) ds (ground arith) h.1
    ∙ ap (λ t. to_string t ++ ds) (omega arith)
    ∙ ap (λ t. t ++ ds) (to_string_digit d h.0)

-- A text of digits with no leading zero is the text of the number that it parses to.
pub to_string-parse_decimal :
    (limit n : ℕ) (ds : Bytes)
    → IsDigits ds
    → leading_zero ds ≡ false
    → parse_decimal limit ds ≡ some n
    → (to_string n ≡ ds) × (n < limit)
unfolding parse_decimal leading_zero
to_string-parse_decimal limit n [] h z e = cc
to_string-parse_decimal limit n (d ∷ []) h z e =
    ground (arith, digits_value-one d, to_string_digit d)
to_string-parse_decimal limit n (d ∷ c ∷ ds) h z e =
    ground (arith, to_string-digits_value_first d (c ∷ ds) h (ground arith))
