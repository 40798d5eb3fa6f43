-- ===== src/Bencode/Print.antt =====
-- What the encoder of bencode.rs writes, and the values that it writes canonically.
use btget.Prelude.{
  ℕ, ◌+◌, ◌^◌, ◌≤◌, ◌<◌, ◌≡◌, refl, ap, true, false, Option, none, some, [], ◌∷◌, ◌++◌,
  append_assoc, arith, length, is_empty, Bytes, ◌==◌,
}
use btget.Prelude.Int.{IsI64}
use btget.Prelude.Decimal.{is_digit, to_string, to_string-IsDigits, is_empty-to_string, IsDigits}
use btget.Bencode.{
  Value, Items, Entries, bytes, int, list, dict, nil, cons, no_entries, entry, encode,
  encode_entries, encode_bytes, is_after, max_depth,
}
use btget.Bencode.Map.{append}

-- A value that a decoder can meet at this depth: keys rise, integers are i64s, lengths usizes, and
-- the nesting keeps to the limit.
abbrev mutual
  pub IsCanonical : ℕ → Value → Type 0
  IsCanonical d (bytes b) = (d ≤ max_depth) × (length b < 2 ^ 64)
  IsCanonical d (int i) = (d ≤ max_depth) × IsI64 i
  IsCanonical d (list xs) = (d ≤ max_depth) × ItemsCanonical d xs
  IsCanonical d (dict fs) = (d ≤ max_depth) × EntriesCanonical d none fs

  pub ItemsCanonical : ℕ → Items → Type 0
  ItemsCanonical d nil = Unit
  ItemsCanonical d (cons v xs) = IsCanonical (d + 1) v × ItemsCanonical d xs

  pub EntriesCanonical : ℕ → Option Bytes → Entries → Type 0
  EntriesCanonical d last no_entries = Unit
  EntriesCanonical d last (entry k v fs) =
      (d + 1 ≤ max_depth)
      × (length k < 2 ^ 64)
      × (is_after last k ≡ true)
      × IsCanonical (d + 1) v
      × EntriesCanonical d (some k) fs

-- A text of a number begins with a digit.
pub to_string-head : (n : ℕ) → (d : ℕ) × (ds : Bytes) × (to_string n ≡ d ∷ ds) × (is_digit d ≡ true)
to_string-head n = go (to_string n) (is_empty-to_string n) (to_string-IsDigits n)
  where
    go :
        (t : Bytes)
        → is_empty t ≡ false
        → IsDigits t
        → (d : ℕ) × (ds : Bytes) × (t ≡ d ∷ ds) × (is_digit d ≡ true)
    go [] e h = cc
    go (d ∷ ds) e h = (d, ds, refl, h.0)

pub encode_bytes-head :
    (b : Bytes) → (d : ℕ) × (ds : Bytes) × (encode_bytes b ≡ d ∷ ds) × (is_digit d ≡ true)
unfolding encode_bytes
encode_bytes-head b =
    let (d, ds, e, h) = to_string-head (length b) in
    (d, ds ++ b':' ∷ b, ap (λ t. t ++ b':' ∷ b) e, h)

-- No encoding begins like the no_entries of a list or of a dictionary.
pub encode-head : (v : Value) → (d : ℕ) × (ds : Bytes) × (encode v ≡ d ∷ ds) × ((d == b'e') ≡ false)
unfolding encode is_digit
encode-head (bytes b) = let (d, ds, e, h) = encode_bytes-head b in (d, ds, e, ground arith)
encode-head (int i) = (b'i', _, refl, refl)
encode-head (list xs) = (b'l', _, refl, refl)
encode-head (dict fs) = (b'd', _, refl, refl)

pub length-encode_pos : (v : Value) → 1 ≤ length (encode v)
length-encode_pos v = let (d, ds, e, h) = encode-head v in omega (arith, ap length e)

pub encode_entries-append :
    (fs gs : Entries) → encode_entries (append fs gs) ≡ encode_entries fs ++ encode_entries gs
unfolding encode append
encode_entries-append no_entries gs = refl
encode_entries-append (entry k v fs) gs = simp (encode_entries-append fs gs, append_assoc)
