-- ===== src/Bencode/Sound.antt =====
-- What the strict decoder of bencode.rs accepts: the encodings of canonical values, and nothing else.
use btget.Prelude.{
  ℕ, zero, suc, ◌+◌, ◌*◌, ◌^◌, ◌≤◌, ◌<◌, ◌≡◌, refl, sym, ap, ◌∙◌, Bool, true, false, not, ◌&&◌,
  Option, none, some, [], ◌∷◌, ◌++◌, append_assoc, append-nil, arith, leb, ◌==◌, if◌then◌else◌,
  length, take, drop, is_empty, Bytes, bytes_eq, Result, ok, ok_or, map_ok, Bool-cases, inl, inr,
  subst, bytes_eq_refl, ==_iff, ◌↔◌, leb→le, tests, length-take, take-append-drop, Ensures, holds,
  rejected, Ensures-ok, Ensures-if, Ensures-guard, Ensures-bind, Ensures-mono,
}
use btget.Prelude.Int.{ℤ, pos, negsuc, neg_ℕ, fits_i64, IsI64}
use btget.Prelude.Decimal.{
  is_digit, to_string, parse_decimal, leading_zero, IsDigits, to_string-parse_decimal,
  to_string_zero,
}
use btget.Bencode.{
  Value, Items, Entries, Error, bytes, int, list, dict, nil, cons, no_entries, entry, encode,
  encode_items, encode_entries, encode_bytes, int_to_string, max_depth, insert, peek, take_byte,
  take_digits, skip_minus, try_i64, integer, string, as_key, is_after, value, list_loop, dict_loop,
  decode, trailing_data, bad_integer, bad_length, too_deep, unexpected_end,
  unsorted_or_duplicate_key, unexpected_byte, non_string_key,
}
use btget.Bencode.Map.{append, append-no_entries, append_assoc as entries_assoc, insert-append}
use btget.Bencode.RoundTrip.{EndsAt, EndsAt-AllBelow, EndsAt-append, decode_with-encode}
use btget.Bencode.Print.{IsCanonical, ItemsCanonical, EntriesCanonical}

abbrev AnyError : Error → Type 0
AnyError e = Unit

peek_sound : (s : Bytes) → Ensures (λ b. (t : Bytes) × (s ≡ b ∷ t)) AnyError (peek s)
unfolding peek
peek_sound [] = rejected tt
peek_sound (b ∷ t) = holds (t, refl)

take_byte_sound : (s : Bytes) → Ensures (λ (b, rest). s ≡ b ∷ rest) AnyError (take_byte s)
unfolding take_byte
take_byte_sound [] = rejected tt
take_byte_sound (b ∷ t) = holds refl

take_digits_sound :
    (s : Bytes) → Ensures (λ (ds, rest). IsDigits ds × (s ≡ ds ++ rest)) AnyError (take_digits s)
unfolding take_digits
take_digits_sound [] = rejected tt
take_digits_sound (b ∷ s) =
    Ensures-if (is_digit b) (λ h. more h (take_digits s) (take_digits_sound s))
      (λ _. holds (tt, refl))
  where
    more :
        is_digit b ≡ true
        → (r : Result (Bytes × Bytes) Error)
        → Ensures (λ (ds, rest). IsDigits ds × (s ≡ ds ++ rest)) AnyError r
        → Ensures
            (λ (ds, rest). IsDigits ds × (b ∷ s ≡ ds ++ rest))
            AnyError
            (map_ok (λ (ds, rest). (b ∷ ds, rest)) r)
    more h _ (holds (k, e)) = holds ((h, k), ap (λ t. b ∷ t) e)
    more h _ (rejected q) = rejected q

abbrev sign : Bool → Bytes
sign negative = if negative then b'-' ∷ [] else []

skip_minus_sound :
    (b : ℕ) (t s : Bytes)
    → s ≡ b ∷ t
    → Ensures (λ rest. s ≡ sign (b == b'-') ++ rest) AnyError (skip_minus (b == b'-') s)
unfolding take_byte
skip_minus_sound b t s h = elim (Bool-cases (b == b'-')) [
  | inl e ↦ rw (e, skip_minus, h) (holds (ground arith))
  | inr e ↦ rw (e, skip_minus) (holds refl)
]

ok_or_sound : (o : Option ℕ) (e : Error) → Ensures (λ n. o ≡ some n) AnyError (ok_or o e)
ok_or_sound none e = rejected tt
ok_or_sound (some n) e = holds refl

fits_i64-IsI64 : (i : ℤ) → fits_i64 i ≡ true → IsI64 i
fits_i64-IsI64 (pos n) h = ground arith
fits_i64-IsI64 (negsuc n) h = ground arith

try_i64_sound : (i : ℤ) → Ensures (λ j. (j ≡ i) × IsI64 j) AnyError (try_i64 i)
try_i64_sound i = Ensures-if (fits_i64 i) (λ h. holds (refl, fits_i64-IsI64 i h)) (λ _. rejected tt)

-- The text of the number that `integer` makes of a sign and a magnitude.
signed-to_string :
    (negative : Bool) (n : ℕ)
    → not (negative && bytes_eq (to_string n) (b'0' ∷ [])) ≡ true
    → int_to_string (if negative then neg_ℕ n else pos n) ≡ sign negative ++ to_string n
unfolding int_to_string
signed-to_string true zero h = cc (to_string_zero, bytes_eq_refl (b'0' ∷ []))
signed-to_string true (suc n) h = refl
signed-to_string false n h = refl

module _ (s s₂ s₃ s₄ ds : Bytes) (negative : Bool) (c n : ℕ) where
  integer-text :
      s ≡ sign negative ++ s₂
      → s₂ ≡ ds ++ s₃
      → s₃ ≡ c ∷ s₄
      → (c == b'e') ≡ true
      → IsDigits ds
      → not (true && leading_zero ds) ≡ true
      → not (true && (negative && bytes_eq ds (b'0' ∷ []))) ≡ true
      → parse_decimal (2 ^ 127) ds ≡ some n
      → b'i' ∷ s ≡ encode (int (if negative then neg_ℕ n else pos n)) ++ s₄
  unfolding encode
  integer-text e₁ e₂ e₃ at_e dig lead minus parsed =
      let text = (to_string-parse_decimal (2 ^ 127) n ds dig (ground arith) parsed).0 in
      rw (
        e₁,
        e₂,
        e₃,
        (==_iff c b'e').0 at_e,
        signed-to_string negative n (rw text minus),
        text,
        append_assoc,
        append_assoc,
      )

integer_sound :
    (s : Bytes)
    → Ensures
        (λ (v, rest). (i : ℤ) × (v ≡ int i) × IsI64 i × (b'i' ∷ s ≡ encode (int i) ++ rest))
        AnyError
        (integer true (b'i' ∷ s))
unfolding integer encode
integer_sound s = Ensures-bind (peek_sound s) λ b (t, e₁).
    Ensures-bind (skip_minus_sound b t s e₁) λ s₂ e₂.
      Ensures-bind (take_digits_sound s₂) λ (ds, s₃) (dig, e₃).
        Ensures-bind (take_byte_sound s₃) λ (c, s₄) e₄.
          Ensures-guard (c == b'e') bad_integer tt λ at_e.
            Ensures-guard (not (is_empty ds)) bad_integer tt λ _.
              Ensures-guard (not (true && leading_zero ds)) bad_integer tt λ lead.
                Ensures-guard (not (true && (b == b'-' && bytes_eq ds (b'0' ∷ [])))) bad_integer tt
                  λ minus.
                    Ensures-bind (ok_or_sound (parse_decimal (2 ^ 127) ds) bad_integer) λ n parsed.
                      Ensures-bind (try_i64_sound (if b == b'-' then neg_ℕ n else pos n))
                        λ i (e₅, fits). holds {a = (int i, s₄)} (
                          i,
                          refl,
                          fits,
                          rw e₅ (
                              integer-text s s₂ s₃ s₄ ds (b == b'-') c n e₂ e₃ e₄ at_e dig lead
                                minus parsed),
                        )

module _ (s s₁ s₂ ds : Bytes) (c n : ℕ) where
  string-text :
      s ≡ ds ++ s₁
      → s₁ ≡ c ∷ s₂
      → (c == b':') ≡ true
      → IsDigits ds
      → not (true && leading_zero ds) ≡ true
      → parse_decimal (2 ^ 64) ds ≡ some n
      → leb n (length s₂) ≡ true
      → (length (take n s₂) < 2 ^ 64) × (s ≡ encode_bytes (take n s₂) ++ drop n s₂)
  unfolding encode_bytes
  string-text e₁ e₂ colon dig lead parsed fits =
      let (text, small) = to_string-parse_decimal (2 ^ 64) n ds dig (ground arith) parsed in
      let len : length (take n s₂) ≡ n = omega (tests, length-take n s₂) in
      (
        omega arith,
        rw (e₁, e₂, (==_iff c b':').0 colon, len, text, append_assoc, take-append-drop n s₂),
      )

string_sound :
    (s : Bytes)
    → Ensures
        (λ (v, rest).
          (b : Bytes) × (v ≡ bytes b) × (length b < 2 ^ 64) × (s ≡ encode_bytes b ++ rest))
        AnyError
        (string true s)
unfolding string
string_sound s = Ensures-bind (take_digits_sound s) λ (ds, s₁) (dig, e₁).
    Ensures-bind (take_byte_sound s₁) λ (c, s₂) e₂. Ensures-guard (c == b':') bad_length tt λ colon.
      Ensures-guard (not (true && leading_zero ds)) bad_length tt λ lead.
        Ensures-bind (ok_or_sound (parse_decimal (2 ^ 64) ds) bad_length) λ n parsed.
          Ensures-guard (leb n (length s₂)) unexpected_end tt λ fits.
            let h = string-text s s₁ s₂ ds c n e₁ e₂ colon dig lead parsed fits in
            holds {a = (bytes (take n s₂), drop n s₂)} (take n s₂, refl, h.0, h.1)

-- The input behind the first byte, which the test of `value` has found.
byte_found : (s t : Bytes) (b c : ℕ) → s ≡ b ∷ t → (b == c) ≡ true → s ≡ c ∷ t
byte_found s t b c e h = ground arith

skip_sound :
    (c : ℕ) (t s : Bytes) → s ≡ c ∷ t → Ensures (λ (b, rest). rest ≡ t) AnyError (take_byte s)
unfolding take_byte
skip_sound c t s e = rw e (holds refl)

as_key_sound : (v : Value) → Ensures (λ k. v ≡ bytes k) AnyError (as_key v)
as_key_sound (bytes k) = holds refl
as_key_sound _ = rejected {e = non_string_key} tt

take_end_sound {ℓ} :
    {A : Type ℓ} (a : A) (s t : Bytes)
    → s ≡ b'e' ∷ t
    → Ensures
        (λ (x, rest). (x ≡ a) × (s ≡ b'e' ∷ rest))
        AnyError
        (map_ok (λ (_, s). (a, s)) (take_byte s))
unfolding take_byte
take_end_sound a s t e = rw e (holds (refl, refl))

abbrev SoundValue : ℕ → Bytes → Result (Value × Bytes) Error → Type 0
SoundValue d s = Ensures (λ (v, rest). (s ≡ encode v ++ rest) × IsCanonical d v) AnyError

abbrev SoundItems : ℕ → Bytes → Result (Items × Bytes) Error → Type 0
SoundItems d s =
    Ensures (λ (xs, rest). (s ≡ encode_items xs ++ b'e' ∷ rest) × ItemsCanonical d xs) AnyError

-- The entries read go behind those of the map so far.
abbrev SoundEntries : ℕ → Entries → Option Bytes → Bytes → Result (Entries × Bytes) Error → Type 0
SoundEntries d m last s =
    Ensures
      (λ (gs, rest).
        (fs : Entries) × (gs ≡ append m fs)
        × (s ≡ encode_entries fs ++ b'e' ∷ rest)
        × EntriesCanonical d last fs)
      AnyError

int_sound : (d : ℕ) (t s : Bytes) → d ≤ max_depth → s ≡ b'i' ∷ t → SoundValue d s (integer true s)
unfolding encode
int_sound d t s deep e = rw e (
    Ensures-mono (integer_sound t) λ (v, rest) (i, e₁, fits, e₂).
      subst (λ w. (b'i' ∷ t ≡ encode w ++ rest) × IsCanonical d w) (sym e₁) (e₂, (deep, fits)))

bytes_sound : (d : ℕ) (s : Bytes) → d ≤ max_depth → SoundValue d s (string true s)
unfolding encode
bytes_sound d s deep = Ensures-mono (string_sound s) λ (v, rest) (b, e₁, fits, e₂).
    subst (λ w. (s ≡ encode w ++ rest) × IsCanonical d w) (sym e₁) (e₂, (deep, fits))

-- A key that was read is a string, and came from its encoding.
key-text :
    (d : ℕ) (v : Value) (k s rest : Bytes)
    → s ≡ encode v ++ rest
    → IsCanonical d v
    → v ≡ bytes k
    → (s ≡ encode_bytes k ++ rest) × (d ≤ max_depth) × (length k < 2 ^ 64)
unfolding encode
key-text d v k s rest e c h =
    let (e', c') = subst (λ w. (s ≡ encode w ++ rest) × IsCanonical d w) h (e, c) in
    (e', c'.0, c'.1)

mutual
  unfolding value encode append

  value_sound : (f d : ℕ) (s : Bytes) → SoundValue d s (value f true d s)
  value_sound zero d s = rejected tt
  value_sound (suc f) d s = Ensures-guard (leb d max_depth) too_deep tt λ deep.
      Ensures-bind (peek_sound s) λ b (t, e).
        Ensures-if (b == b'i')
          (λ h. int_sound d t s (leb→le d max_depth deep) (byte_found s t b b'i' e h))
          λ _.
            Ensures-if (b == b'l')
              (λ h. Ensures-bind (skip_sound b'l' t s (byte_found s t b b'l' e h)) λ (_, s₁) e₁.
                Ensures-bind (list_loop_sound f d s₁) λ (xs, s₂) (e₂, c).
                  holds {a = (list xs, s₂)} (
                    rw (byte_found s t b b'l' e h, ← e₁, e₂, append_assoc),
                    (leb→le d max_depth deep, c),
                  ))
              λ _.
                Ensures-if (b == b'd')
                  (λ h. Ensures-bind (skip_sound b'd' t s (byte_found s t b b'd' e h)) λ (_, s₁) e₁.
                    Ensures-bind (dict_loop_sound f d no_entries none s₁ refl)
                      λ (gs, s₂) (fs, e₂, e₃, c). holds {a = (dict gs, s₂)} (
                        rw (byte_found s t b b'd' e h, ← e₁, e₃, e₂, append_assoc),
                        (leb→le d max_depth deep, rw e₂ c),
                      ))
                  λ _.
                    Ensures-if (is_digit b) (λ _. bytes_sound d s (leb→le d max_depth deep))
                      (λ _. rejected {e = unexpected_byte b} tt)

  list_loop_sound : (f d : ℕ) (s : Bytes) → SoundItems d s (list_loop f true d s)
  list_loop_sound zero d s = rejected tt
  list_loop_sound (suc f) d s = Ensures-bind (peek_sound s) λ b (t, e).
      Ensures-if (b == b'e')
        (λ h.
          Ensures-mono (take_end_sound nil s t (byte_found s t b b'e' e h))
            λ (xs, rest) (e₁, e₂). rw e₁ (e₂, tt))
        λ _. Ensures-bind (value_sound f (d + 1) s) λ (v, s₁) (e₁, c₁).
          Ensures-bind (list_loop_sound f d s₁)
            λ (xs, s₂) (e₂, c₂). holds {a = (cons v xs, s₂)} (rw (e₁, e₂, append_assoc), (c₁, c₂))

  dict_loop_sound :
      (f d : ℕ) (m : Entries) (last : Option Bytes) (s : Bytes)
      → EndsAt last m
      → SoundEntries d m last s (dict_loop f true d m last s)
  dict_loop_sound zero d m last s o = rejected tt
  dict_loop_sound (suc f) d m last s o = Ensures-bind (peek_sound s) λ b (t, e).
      Ensures-if (b == b'e')
        (λ h.
          Ensures-mono (take_end_sound m s t (byte_found s t b b'e' e h))
            λ (gs, rest) (e₁, e₂). (no_entries, rw (append-no_entries m) e₁, e₂, tt))
        λ _. Ensures-bind (value_sound f (d + 1) s) λ (v, s₁) (e₁, c₁).
          Ensures-bind (as_key_sound v) λ k at_key.
            Ensures-guard (not (true && not (is_after last k))) unsorted_or_duplicate_key tt
              λ sorted. Ensures-bind (value_sound f (d + 1) s₁) λ (item, s₂) (e₂, c₂).
                let above : is_after last k ≡ true = ground arith in
                let (text, deep, fits) = key-text (d + 1) v k s s₁ e₁ c₁ at_key in
                Ensures-mono
                  (dict_loop_sound f d (insert k item m) (some k) s₂ (
                    rw (insert-append k item m (EndsAt-AllBelow last m k o above))
                      (EndsAt-append last m k item o above)))
                  λ (gs, s₃) (fs, e₃, e₄, c₄). (
                    entry k item fs,
                    e₃
                        ∙ rw (
                          insert-append k item m (EndsAt-AllBelow last m k o above),
                          entries_assoc m (entry k item no_entries) fs,
                        ),
                    rw (text, e₂, e₄, append_assoc, append_assoc),
                    (deep, fits, above, c₂, c₄),
                  )

-- Whatever the strict decoder accepts is the encoding of the canonical value that it returns.
decode_sound : (s : Bytes) → Ensures (λ v. (s ≡ encode v) × IsCanonical 0 v) AnyError (decode s)
unfolding decode
decode_sound s = Ensures-bind (value_sound (2 * length s + 1) 0 s) λ (v, rest) (e, c).
    Ensures-guard (is_empty rest) trailing_data tt λ h. holds {a = v} (finish rest e h, c)
  where
    finish : (rest : Bytes) {t : Bytes} → s ≡ t ++ rest → is_empty rest ≡ true → s ≡ t
    finish [] {t} e h = e ∙ append-nil t
    finish (x ∷ rest) e h = cc

-- The strict decoder accepts a byte string with a value exactly when the value is canonical and
-- the byte string is its encoding.
pub decode-eq-ok_iff :
    (s : Bytes) (v : Value) → (decode s ≡ ok v) ↔ (IsCanonical 0 v × (s ≡ encode v))
decode-eq-ok_iff s v = (
  λ e. let h = Ensures-ok (decode_sound s) e in (h.1, h.0),
  λ (c, e). rw e (unfold decode in decode_with-encode v true c),
)
