-- ===== src/Extensions/Prefix.antt =====
-- The bencoded prefix of an extension message: its end lies in the message.
use btget.Prelude.{
  ℕ, zero, suc, ◌+◌, ◌-◌, ◌≤◌, ◌<◌, ◌≡◌, refl, Option, none, some, arith, length, drop, length-drop,
  Bytes, ltb, Bool-cases, inl, inr, [], ◌∷◌, ltb→le, if◌then◌else◌, ◌||◌, ◌==◌, Bool, true, false,
  take, subst,
}
use btget.Prelude.Decimal.{is_digit}
use btget.Extensions.{
  and_then, find_byte, integer_span, spanning, string_span, dict_end_loop, find_dict_end,
  parse_usize,
}

-- Nothing, or a number with the property.
data Given (P : ℕ → Type 0) : Option ℕ → Type 0 where
  nothing : Given P none
  just : (n : ℕ) → P n → Given P (some n)

Given-if :
    (P : ℕ → Type 0) (b : Bool) {x y : Option ℕ}
    → Given P x
    → Given P y
    → Given P (if b then x else y)
Given-if P true h k = h
Given-if P false h k = k

Given-mono : {P Q : ℕ → Type 0} {o : Option ℕ} → Given P o → ((n : ℕ) → P n → Q n) → Given Q o
Given-mono nothing h = nothing
Given-mono (just n p) h = just n (h n p)

Given-and_then :
    (P Q : ℕ → Type 0) {o : Option ℕ} (k : ℕ → Option ℕ)
    → Given P o
    → ((n : ℕ) → P n → Given Q (k n))
    → Given Q (and_then o k)
Given-and_then P Q k nothing h = nothing
Given-and_then P Q k (just n p) h = h n p

and_then_cong :
    (P : ℕ → Type 0) {o : Option ℕ} (k k' : ℕ → Option ℕ)
    → Given P o
    → ((n : ℕ) → P n → k n ≡ k' n)
    → and_then o k ≡ and_then o k'
and_then_cong P k k' nothing h = refl
and_then_cong P k k' (just n p) h = h n p

Given-some : {P : ℕ → Type 0} {o : Option ℕ} {n : ℕ} → Given P o → o ≡ some n → P n
Given-some nothing e = cc
Given-some {P = P} (just m p) e = subst P (cc) p

find_byte-lt : (b : ℕ) (s : Bytes) → Given (λ k. k < length s) (find_byte b s)
unfolding find_byte
find_byte-lt b [] = nothing
find_byte-lt b (x ∷ s) = Given-if _ (x == b) (just 0 (omega arith)) (
    Given-and_then (λ k. k < length s) _ (λ i. some (suc i)) (find_byte-lt b s)
      (λ i h. just (suc i) (omega arith)))

-- A span takes a byte at least, and ends with the input at the latest.
abbrev IsSpan : Bytes → ℕ → Type 0
IsSpan s n = (0 < n) × (n ≤ length s)

integer_span-IsSpan : (s : Bytes) → Given (IsSpan s) (integer_span s)
unfolding integer_span
integer_span-IsSpan s =
    Given-and_then _ _ (λ k. some (suc k)) (find_byte-lt b'e' s)
      (λ k h. just (suc k) (omega arith, omega arith))

spanning-IsSpan : (s : Bytes) (k : ℕ) (len : Option ℕ) → Given (IsSpan s) (spanning s k len)
spanning-IsSpan s k none = nothing
spanning-IsSpan s k (some len) = elim (Bool-cases (ltb (length s) (k + 1 + len))) [
  | inl e ↦ rw e nothing
  | inr e ↦ rw e (just (k + 1 + len) (omega arith, ltb→le (length s) (k + 1 + len) e))
]

string_span-IsSpan : (s : Bytes) → Given (IsSpan s) (string_span s)
unfolding string_span
string_span-IsSpan s =
    Given-and_then _ _ (λ k. spanning s k (parse_usize (take k s))) (find_byte-lt b':' s)
      (λ k h. spanning-IsSpan s k (parse_usize (take k s)))

-- Any two amounts of fuel with a unit for each byte give the same answer.
pub dict_end_loop-enough :
    (f g depth i : ℕ) (s : Bytes)
    → length s ≤ f
    → length s ≤ g
    → dict_end_loop f depth i s ≡ dict_end_loop g depth i s
unfolding dict_end_loop
dict_end_loop-enough zero zero depth i [] h k = refl
dict_end_loop-enough zero (suc g) depth i [] h k = refl
dict_end_loop-enough (suc f) zero depth i [] h k = refl
dict_end_loop-enough (suc f) (suc g) depth i [] h k = refl
dict_end_loop-enough zero g depth i (b ∷ s) h k = absurd (omega arith)
dict_end_loop-enough (suc f) zero depth i (b ∷ s) h k = absurd (omega arith)
dict_end_loop-enough (suc f) (suc g) depth i (b ∷ s) h k =
    let again : (n : ℕ)
        → IsSpan (b ∷ s) n
        → dict_end_loop f depth (i + n) (drop n (b ∷ s))
          ≡ dict_end_loop g depth (i + n) (drop n (b ∷ s)) =
      λ n p.
        dict_end_loop-enough f g depth (i + n) (drop n (b ∷ s))
          (omega (arith, length-drop n (b ∷ s))) (omega (arith, length-drop n (b ∷ s))) in
    rw
      (
        and_then_cong (IsSpan (b ∷ s)) (λ n. dict_end_loop f depth (i + n) (drop n (b ∷ s)))
            (λ n. dict_end_loop g depth (i + n) (drop n (b ∷ s))) (integer_span-IsSpan (b ∷ s))
            again,
        and_then_cong (IsSpan (b ∷ s)) (λ n. dict_end_loop f depth (i + n) (drop n (b ∷ s)))
            (λ n. dict_end_loop g depth (i + n) (drop n (b ∷ s))) (string_span-IsSpan (b ∷ s))
            again,
        dict_end_loop-enough f g (depth + 1) (i + 1) s (omega arith) (omega arith),
        dict_end_loop-enough f g (depth - 1) (i + 1) s (omega arith) (omega arith),
      )
      refl

-- The end lies behind what was read, and in the input.
abbrev EndsIn : ℕ → Bytes → ℕ → Type 0
EndsIn i s n = (i < n) × (n ≤ i + length s)

dict_end_loop-EndsIn :
    (fuel depth i : ℕ) (s : Bytes) → Given (EndsIn i s) (dict_end_loop fuel depth i s)
unfolding dict_end_loop
dict_end_loop-EndsIn zero depth i s = nothing
dict_end_loop-EndsIn (suc fuel) depth i [] = nothing
dict_end_loop-EndsIn (suc fuel) depth i (b ∷ s) =
    let again : (n : ℕ)
        → IsSpan (b ∷ s) n
        → Given (EndsIn i (b ∷ s)) (dict_end_loop fuel depth (i + n) (drop n (b ∷ s))) =
      λ n p.
        Given-mono (dict_end_loop-EndsIn fuel depth (i + n) (drop n (b ∷ s)))
          (λ m (l, r). (omega arith, omega (arith, length-drop n (b ∷ s)))) in
    Given-if _ ((b == b'd') || (b == b'l'))
      (Given-mono (dict_end_loop-EndsIn fuel (depth + 1) (i + 1) s)
        (λ m (l, r). (omega arith, omega arith)))
      (Given-if _ (b == b'i')
        (Given-and_then (IsSpan (b ∷ s)) (EndsIn i (b ∷ s)) _ (integer_span-IsSpan (b ∷ s)) again)
        (Given-if _ (is_digit b)
          (Given-and_then (IsSpan (b ∷ s)) (EndsIn i (b ∷ s)) _ (string_span-IsSpan (b ∷ s)) again)
          (Given-if _ (b == b'e')
            (Given-if _ (depth == 0) nothing (
              Given-if _ (depth == 1) (just (i + 1) (omega arith, omega arith)) (
                Given-mono (dict_end_loop-EndsIn fuel (depth - 1) (i + 1) s)
                  (λ m (l, r). (omega arith, omega arith)))))
            nothing)))

bounds_from_zero : (n : ℕ) (s : Bytes) → EndsIn 0 s n → (0 < n) × (n ≤ length s)
bounds_from_zero n s (l, r) = (l, omega arith)

-- The prefix that is found is not empty and lies in the payload, so that taking it and what follows
-- it never fails.
pub find_dict_end-le :
    (payload : Bytes) (n : ℕ) → find_dict_end payload ≡ some n → (0 < n) × (n ≤ length payload)
unfolding find_dict_end
find_dict_end-le [] n e = cc
find_dict_end-le (b ∷ s) n e = bounds_from_zero n (b ∷ s) (
    Given-some {P = EndsIn 0 (b ∷ s)}
      (Given-if (EndsIn 0 (b ∷ s)) (b == b'd') (dict_end_loop-EndsIn (length (b ∷ s)) 0 0 (b ∷ s))
        nothing)
      e)
