-- ===== src/Bencode/RoundTrip.antt =====
-- decode after encode, of bencode.rs.
use btget.Prelude.{
  ℕ, zero, suc, ◌+◌, ◌*◌, ◌^◌, ◌≤◌, ◌<◌, ◌≡◌, refl, sym, Bool, true, false, Option, none, some, [],
  ◌∷◌, ◌++◌, append_assoc, append-nil, arith, ◌==◌, length, length-append, take-append, drop-append,
  Bytes, bytes_eq, bytes_eq→eq, ok, Bool-cases, inl, inr, lengths, bytes_lt, subst,
}
use btget.Prelude.Int.{ℤ, pos, negsuc, IsI64}
use btget.Prelude.Decimal.{
  is_digit, to_string, IsDigits, to_string-IsDigits, is_empty-to_string, leading_zero-to_string,
  parse_decimal-to_string, NoZeroFirst-to_string,
}
use btget.Bencode.{
  Value, Items, Entries, bytes, int, list, dict, nil, cons, no_entries, entry, encode, encode_items,
  encode_entries, encode_bytes, int_to_string, max_depth, insert, peek, take_byte, take_digits,
  integer, string, is_after, value, list_loop, dict_loop, decode_with,
}
use btget.Bencode.Map.{
  append, append-no_entries, append_assoc as entries_assoc, AllBelow, AllBelow-trans,
  AllBelow-append_one, insert-append,
}
use btget.Bencode.Print.{
  IsCanonical, ItemsCanonical, EntriesCanonical, to_string-head, encode_bytes-head, encode-head,
  length-encode_pos,
}

take_digits-append :
    (ds : Bytes) (c : ℕ) (rest : Bytes)
    → IsDigits ds
    → is_digit c ≡ false
    → take_digits (ds ++ c ∷ rest) ≡ ok (ds, c ∷ rest)
unfolding take_digits
take_digits-append [] c rest h e = rw e
take_digits-append (d ∷ ds) c rest h e = ground (arith, take_digits-append ds c rest h.1 e)

-- What `string` reads behind its digits.
string-encode_bytes :
    (strict : Bool) (b rest : Bytes)
    → length b < 2 ^ 64
    → string strict (encode_bytes b ++ rest) ≡ ok (bytes b, rest)
unfolding string encode_bytes
string-encode_bytes strict b rest h = ground (
  arith,
  append_assoc (to_string (length b)) (b':' ∷ b) rest,
  take_digits-append (to_string (length b)) b':' (b ++ rest) (to_string-IsDigits (length b))
      (colon),
  leading_zero-to_string (length b),
  parse_decimal-to_string (2 ^ 64) (length b) h,
  length-append b rest,
  take-append b rest,
  drop-append b rest,
)
  where
    colon : is_digit b':' ≡ false
    colon = unfold is_digit in refl

e_not_digit : is_digit b'e' ≡ false
unfolding is_digit
e_not_digit = refl

digit_not_minus : (d : ℕ) → is_digit d ≡ true → (d == b'-') ≡ false
unfolding is_digit
digit_not_minus d h = ground arith

nonzero_text : (n : ℕ) → bytes_eq (to_string (suc n)) (b'0' ∷ []) ≡ false
nonzero_text n = elim (Bool-cases (bytes_eq (to_string (suc n)) (b'0' ∷ []))) [
  | inl e ↦ absurd (
      rw (bytes_eq→eq (to_string (suc n)) (b'0' ∷ []) e) at
        (NoZeroFirst-to_string (suc n) (omega arith)) refl)
  | inr e ↦ e
]

integer-pos :
    (strict : Bool) (n : ℕ) (rest : Bytes)
    → n < 2 ^ 63
    → integer strict (b'i' ∷ (to_string n ++ b'e' ∷ rest)) ≡ ok (int (pos n), rest)
unfolding integer
integer-pos strict n rest h =
    let (d, ds, e, k) = to_string-head n in
    ground (
      arith,
      e,
      digit_not_minus d k,
      take_digits-append (to_string n) b'e' rest (to_string-IsDigits n) e_not_digit,
      leading_zero-to_string n,
      is_empty-to_string n,
      parse_decimal-to_string (2 ^ 127) n (omega arith),
    )

integer-negsuc :
    (strict : Bool) (n : ℕ) (rest : Bytes)
    → n < 2 ^ 63
    → integer strict (b'i' ∷ b'-' ∷ (to_string (suc n) ++ b'e' ∷ rest)) ≡ ok (int (negsuc n), rest)
unfolding integer
integer-negsuc strict n rest h = ground (
  arith,
  nonzero_text n,
  take_digits-append (to_string (suc n)) b'e' rest (to_string-IsDigits (suc n)) e_not_digit,
  leading_zero-to_string (suc n),
  is_empty-to_string (suc n),
  parse_decimal-to_string (2 ^ 127) (suc n) (omega arith),
)

-- The dispatch of `value` on the first byte.
value-string :
    (f : ℕ) (strict : Bool) (d : ℕ) (b rest : Bytes)
    → d ≤ max_depth
    → length b < 2 ^ 64
    → value (suc f) strict d (encode_bytes b ++ rest) ≡ ok (bytes b, rest)
unfolding value is_digit peek take_byte
value-string f strict d b rest h k =
    let (c, cs, e, dig) = encode_bytes-head b in
    ground (arith, e, string-encode_bytes strict b rest k)

value-int :
    (f : ℕ) (strict : Bool) (d : ℕ) (i : ℤ) (rest : Bytes)
    → d ≤ max_depth
    → IsI64 i
    → value (suc f) strict d (encode (int i) ++ rest) ≡ ok (int i, rest)
unfolding value encode int_to_string peek take_byte
value-int f strict d (pos n) rest h k =
    ground (arith, integer-pos strict n rest k, append_assoc (to_string n) (b'e' ∷ []) rest)
value-int f strict d (negsuc n) rest h k =
    ground
      (arith, integer-negsuc strict n rest k, append_assoc (to_string (suc n)) (b'e' ∷ []) rest)

value-list :
    (f : ℕ) (strict : Bool) (d : ℕ) (xs : Items) (s rest : Bytes)
    → d ≤ max_depth
    → list_loop f strict d s ≡ ok (xs, rest)
    → value (suc f) strict d (b'l' ∷ s) ≡ ok (list xs, rest)
unfolding value peek take_byte
value-list f strict d xs s rest h k = ground arith

value-dict :
    (f : ℕ) (strict : Bool) (d : ℕ) (fs : Entries) (s rest : Bytes)
    → d ≤ max_depth
    → dict_loop f strict d no_entries none s ≡ ok (fs, rest)
    → value (suc f) strict d (b'd' ∷ s) ≡ ok (dict fs, rest)
unfolding value peek take_byte
value-dict f strict d fs s rest h k = ground arith

list_loop-cons :
    (f : ℕ) (strict : Bool) (d : ℕ) (v : Value) (xs : Items) (s rest : Bytes)
    → value f strict (d + 1) (encode v ++ s) ≡ ok (v, s)
    → list_loop f strict d s ≡ ok (xs, rest)
    → list_loop (suc f) strict d (encode v ++ s) ≡ ok (cons v xs, rest)
unfolding value peek take_byte
list_loop-cons f strict d v xs s rest h k =
    let (c, cs, e, not_end) = encode-head v in ground (arith, e)

dict_loop-entry :
    (f : ℕ) (strict : Bool) (d : ℕ) (m : Entries) (last : Option Bytes) (k : Bytes) (v : Value)
    (s : Bytes)
    → value f strict (d + 1) (encode_bytes k ++ (encode v ++ s)) ≡ ok (bytes k, encode v ++ s)
    → value f strict (d + 1) (encode v ++ s) ≡ ok (v, s)
    → is_after last k ≡ true
    → dict_loop (suc f) strict d m last (encode_bytes k ++ (encode v ++ s))
      ≡ dict_loop f strict d (insert k v m) (some k) s
unfolding value is_digit peek take_byte
dict_loop-entry f strict d m last k v s h i a =
    let (c, cs, e, dig) = encode_bytes-head k in ground (arith, e)

list_loop_done :
    (f : ℕ) (strict : Bool) (d : ℕ) (rest : Bytes)
    → list_loop (suc f) strict d (b'e' ∷ rest) ≡ ok (nil, rest)
unfolding value peek take_byte
list_loop_done f strict d rest = refl

dict_loop_done :
    (f : ℕ) (strict : Bool) (d : ℕ) (m : Entries) (last : Option Bytes) (rest : Bytes)
    → dict_loop (suc f) strict d m last (b'e' ∷ rest) ≡ ok (m, rest)
unfolding value peek take_byte
dict_loop_done f strict d m last rest = refl

-- An empty map, or one whose greatest key is `last`.
abbrev pub EndsAt : Option Bytes → Entries → Type 0
EndsAt none m = m ≡ no_entries
EndsAt (some k) m = (j : Bytes) → bytes_lt k j ≡ true → AllBelow j m

pub EndsAt-AllBelow :
    (last : Option Bytes) (m : Entries) (k : Bytes)
    → EndsAt last m
    → is_after last k ≡ true
    → AllBelow k m
EndsAt-AllBelow none m k h a = subst (AllBelow k) (sym h) tt
EndsAt-AllBelow (some j) m k h a = h k a

pub EndsAt-append :
    (last : Option Bytes) (m : Entries) (k : Bytes) (v : Value)
    → EndsAt last m
    → is_after last k ≡ true
    → EndsAt (some k) (append m (entry k v no_entries))
EndsAt-append last m k v h a =
    λ j l. AllBelow-append_one j k v m (AllBelow-trans k j m l (EndsAt-AllBelow last m k h a)) l

mutual
  unfolding encode append

  value-encode :
      (v : Value) (f : ℕ) (strict : Bool) (d : ℕ) (rest : Bytes)
      → 2 * length (encode v) < f
      → IsCanonical d v
      → value f strict d (encode v ++ rest) ≡ ok (v, rest)
  value-encode v zero strict d rest h c = absurd (omega arith)
  value-encode (bytes b) (suc f) strict d rest h c = value-string f strict d b rest c.0 c.1
  value-encode (int i) (suc f) strict d rest h c = value-int f strict d i rest c.0 c.1
  value-encode (list xs) (suc f) strict d rest h c = rw append_assoc (
      value-list f strict d xs _ rest c.0 (list_loop-encode xs f strict d rest (omega lengths) c.1))
  value-encode (dict fs) (suc f) strict d rest h c = rw append_assoc (
      value-dict f strict d fs _ rest c.0
        (dict_loop-encode fs f strict d no_entries none rest (omega lengths) refl c.1))

  list_loop-encode :
      (xs : Items) (f : ℕ) (strict : Bool) (d : ℕ) (rest : Bytes)
      → 2 * length (encode_items xs) + 1 < f
      → ItemsCanonical d xs
      → list_loop f strict d (encode_items xs ++ b'e' ∷ rest) ≡ ok (xs, rest)
  list_loop-encode xs zero strict d rest h c = absurd (omega arith)
  list_loop-encode nil (suc f) strict d rest h c = list_loop_done f strict d rest
  list_loop-encode (cons v xs) (suc f) strict d rest h c = rw append_assoc (
      list_loop-cons f strict d v xs (encode_items xs ++ b'e' ∷ rest) rest
        (value-encode v f strict (d + 1) _ (omega lengths) c.0)
        (list_loop-encode xs f strict d rest (omega (lengths, length-encode_pos v)) c.1))

  dict_loop-encode :
      (fs : Entries) (f : ℕ) (strict : Bool) (d : ℕ) (m : Entries) (last : Option Bytes)
      (rest : Bytes)
      → 2 * length (encode_entries fs) + 1 < f
      → EndsAt last m
      → EntriesCanonical d last fs
      → dict_loop f strict d m last (encode_entries fs ++ b'e' ∷ rest) ≡ ok (append m fs, rest)
  dict_loop-encode fs zero strict d m last rest h o c = absurd (omega arith)
  dict_loop-encode no_entries (suc f) strict d m last rest h o c =
      rw (append-no_entries m) (dict_loop_done f strict d m last rest)
  dict_loop-encode (entry k v fs) (suc zero) strict d m last rest h o c = absurd (omega arith)
  dict_loop-encode (entry k v fs) (suc (suc f)) strict d m last rest h o c = rw (
    append_assoc,
    append_assoc,
    dict_loop-entry (suc f) strict d m last k v (encode_entries fs ++ b'e' ∷ rest)
        (value-string f strict (d + 1) k _ c.0 c.1)
        (value-encode v (suc f) strict (d + 1) _ (omega lengths) c.3) c.2,
    insert-append k v m (EndsAt-AllBelow last m k o c.2),
    dict_loop-encode fs (suc f) strict d (append m (entry k v no_entries)) (some k) rest
        (omega (lengths, length-encode_pos v)) (EndsAt-append last m k v o c.2) c.4,
    entries_assoc m (entry k v no_entries) fs,
  )

-- Decoding what was encoded gives the value back, strictly and leniently.
pub decode_with-encode :
    (v : Value) (strict : Bool) → IsCanonical 0 v → decode_with (encode v) strict ≡ ok v
unfolding decode_with
decode_with-encode v strict c =
    rw (rw append-nil at (value-encode v (2 * length (encode v) + 1) strict 0 [] (omega arith) c))
