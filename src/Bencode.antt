-- ===== src/Bencode.antt =====
-- bt/src/bencode.rs: bencoded values, their encoder, and the strict and the lenient decoder.
-- The parser's `input` and `pos` are the bytes that are still to be read.
pub mod Map
pub mod Fuel
pub mod Print
pub mod RoundTrip
pub mod Sound
use btget.Prelude.{
  ℕ, zero, suc, ◌+◌, ◌-◌, ◌^◌, ◌≡◌, Bool, true, false, not, ◌&&◌, ◌||◌, Option, none, some, List,
  [], ◌∷◌, ◌++◌, ltb, leb, ◌==◌, if◌then◌else◌, length, take, drop, is_empty, Bytes, bytes_eq,
  bytes_lt, Result, ok, err, ◌>>=◌, ◌>>◌, guard, ok_or, map_ok, ◌*◌,
}
use btget.Prelude.Int.{ℤ, pos, negsuc, neg_ℕ, fits_i64}
use btget.Prelude.Decimal.{is_digit, to_string, parse_decimal, leading_zero}

abbrev pub max_depth : ℕ
max_depth = 128

-- `Items` is the vector of a list, `Fields` the entries of a dictionary's BTreeMap, in key order.
mutual
  pub data Value : Type 0 where
    bytes : Bytes → Value
    int : ℤ → Value
    list : Items → Value
    dict : Entries → Value

  pub data Items : Type 0 where
    nil : Items
    cons : Value → Items → Items

  pub data Entries : Type 0 where
    no_entries : Entries
    entry : Bytes → Value → Entries → Entries

-- `out_of_fuel` is no error of the program: the model's recursion ran out of fuel.
pub data Error : Type 0 where
  unexpected_end bad_integer bad_length non_string_key : Error
  unsorted_or_duplicate_key trailing_data too_deep out_of_fuel : Error
  unexpected_byte : ℕ → Error

-- BTreeMap::get and BTreeMap::insert.
unfoldable pub get : Bytes → Entries → Option Value
get k no_entries = none
get k (entry j w fs) = if bytes_eq k j then some w else get k fs

unfoldable pub insert : Bytes → Value → Entries → Entries
insert k v no_entries = entry k v no_entries
insert k v (entry j w fs) =
    if bytes_eq k j
    then entry k v fs
    else if bytes_lt k j
    then entry k v (entry j w fs)
    else entry j w (insert k v fs)

unfoldable pub int_to_string : ℤ → Bytes
int_to_string (pos n) = to_string n
int_to_string (negsuc n) = b'-' ∷ to_string (suc n)

-- The length, a colon and the bytes.
unfoldable pub encode_bytes : Bytes → Bytes
encode_bytes b = to_string (length b) ++ b':' ∷ b

unfoldable mutual
  pub encode : Value → Bytes
  encode (bytes b) = encode_bytes b
  encode (int i) = b'i' ∷ (int_to_string i ++ b'e' ∷ [])
  encode (list xs) = b'l' ∷ (encode_items xs ++ b'e' ∷ [])
  encode (dict fs) = b'd' ∷ (encode_entries fs ++ b'e' ∷ [])

  pub encode_items : Items → Bytes
  encode_items nil = []
  encode_items (cons v xs) = encode v ++ encode_items xs

  pub encode_entries : Entries → Bytes
  encode_entries no_entries = []
  encode_entries (entry k v fs) = encode_bytes k ++ (encode v ++ encode_entries fs)

-- What a parsing method returns: its value, and the bytes behind it.
abbrev pub Parsed : Type 0 → Type 0
Parsed A = Result (A × Bytes) Error

unfoldable pub peek : Bytes → Result ℕ Error
peek [] = err unexpected_end
peek (b ∷ s) = ok b

-- `Parser::take`
unfoldable pub take_byte : Bytes → Parsed ℕ
take_byte [] = err unexpected_end
take_byte (b ∷ s) = ok (b, s)

-- `while self.peek()?.is_ascii_digit() { self.take()?; }`, and the digits passed over.
unfoldable pub take_digits : Bytes → Parsed Bytes
take_digits [] = err unexpected_end
take_digits (b ∷ s) =
    if is_digit b then map_ok (λ (ds, rest). (b ∷ ds, rest)) (take_digits s) else ok ([], b ∷ s)

abbrev skip_minus : Bool → Bytes → Result Bytes Error
skip_minus true s = map_ok (λ (b, rest). rest) (take_byte s)
skip_minus false s = ok s

-- `i64::try_from`
abbrev try_i64 : ℤ → Result ℤ Error
try_i64 i = if fits_i64 i then ok i else err bad_integer

unfoldable pub integer : Bool → Bytes → Parsed Value
unfolding peek take_byte
integer strict s = do
  (_, s) ← take_byte s
  b ← peek s
  let negative = b == b'-'
  s ← skip_minus negative s
  (digits, s) ← take_digits s
  (c, s) ← take_byte s
  guard (c == b'e') bad_integer
  guard (not (is_empty digits)) bad_integer
  guard (not (strict && leading_zero digits)) bad_integer
  guard (not (strict && (negative && bytes_eq digits (b'0' ∷ [])))) bad_integer
  magnitude ← ok_or (parse_decimal (2 ^ 127) digits) bad_integer
  i ← try_i64 (if negative then neg_ℕ magnitude else pos magnitude)
  ok (int i, s)

-- A usize is 64 bits wide.
unfoldable pub string : Bool → Bytes → Parsed Value
unfolding peek take_byte
string strict s = do
  (digits, s) ← take_digits s
  (c, s) ← take_byte s
  guard (c == b':') bad_length
  guard (not (strict && leading_zero digits)) bad_length
  len ← ok_or (parse_decimal (2 ^ 64) digits) bad_length
  guard (leb len (length s)) unexpected_end
  ok (bytes (take len s), drop len s)

abbrev as_key : Value → Result Bytes Error
as_key (bytes k) = ok k
as_key v = err non_string_key

-- The last key, if any, is below this one.
abbrev pub is_after : Option Bytes → Bytes → Bool
is_after none k = true
is_after (some prev) k = bytes_lt prev k

-- `value`, and the loops of `list` and of `dict` behind their first byte. A call costs one fuel.
unfoldable mutual
  pub value : ℕ → Bool → ℕ → Bytes → Parsed Value
  value zero strict depth s = err out_of_fuel
  value (suc f) strict depth s =
      let items = do (_, s) ← take_byte s; (xs, s) ← list_loop f strict depth s; ok (list xs, s)
      in let entries = do
        (_, s) ← take_byte s
        (fs, s) ← dict_loop f strict depth no_entries none s
        ok (dict fs, s)
        in do
          guard (leb depth max_depth) too_deep
          b ← peek s
          if b == b'i'
              then integer strict s
              else if b == b'l'
              then items
              else if b == b'd'
              then entries
              else if is_digit b
              then string strict s
              else err (unexpected_byte b)

  pub list_loop : ℕ → Bool → ℕ → Bytes → Parsed Items
  list_loop zero strict depth s = err out_of_fuel
  list_loop (suc f) strict depth s =
      let more = do
        (v, s) ← value f strict (depth + 1) s
        (xs, s) ← list_loop f strict depth s
        ok (cons v xs, s)
      in do b ← peek s; if b == b'e' then map_ok (λ (_, s). (nil, s)) (take_byte s) else more

  pub dict_loop : ℕ → Bool → ℕ → Entries → Option Bytes → Bytes → Parsed Entries
  dict_loop zero strict depth map last_key s = err out_of_fuel
  dict_loop (suc f) strict depth map last_key s =
      let more = do
        (k, s) ← value f strict (depth + 1) s
        key ← as_key k
        guard (not (strict && not (is_after last_key key))) unsorted_or_duplicate_key
        (item, s) ← value f strict (depth + 1) s
        dict_loop f strict depth (insert key item map) (some key) s
      in do b ← peek s; if b == b'e' then map_ok (λ (_, s). (map, s)) (take_byte s) else more

unfoldable pub decode_with : Bytes → Bool → Result Value Error
decode_with input strict = do
  (v, rest) ← value (2 * length input + 1) strict 0 input
  guard (is_empty rest) trailing_data
  ok v

unfoldable pub decode : Bytes → Result Value Error
unfolding decode_with
decode input = decode_with input true

unfoldable pub decode_lenient : Bytes → Result Value Error
unfolding decode_with
decode_lenient input = decode_with input false
