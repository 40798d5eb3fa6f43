-- ===== src/Extensions.antt =====
-- bt/src/extensions.rs: the messages of the extension protocol, bencoded dictionaries, the metadata
-- ones with data behind them.
pub mod Prefix
use btget.Prelude.{
  ℕ, zero, suc, ◌+◌, ◌*◌, ◌-◌, ◌/◌, ◌%◌, ◌^◌, Bool, true, false, not, ◌&&◌, ◌||◌, List, [], ◌∷◌,
  ◌++◌, Option, none, some, ltb, leb, ◌==◌, if◌then◌else◌, length, take, drop, is_empty, Bytes,
  ascii, bytes_eq, Result, ok, err, ◌>>=◌, ◌>>◌, guard, ok_or, map_ok,
}
use btget.Prelude.Int.{ℤ, pos, negsuc, u64_as_i64}
use btget.Prelude.Decimal.{is_digit, parse_decimal}
use btget.Bencode as Bencode
use btget.Bencode.{
  Value, bytes, int, list, dict, Entries, no_entries, get, insert, encode, decode_lenient,
}

abbrev pub ut_metadata_key : Bytes
ut_metadata_key = ascii "ut_metadata"

pub record ExtHandshake : Type 0 where
  pub ut_metadata : Option ℕ
  pub metadata_size : Option ℕ

pub data Error : Type 0 where
  not_a_dict bad_payload : Error

pub data MetadataMessage : Type 0 where
  request : ℕ → MetadataMessage
  data_piece : ℕ → Option ℕ → Bytes → MetadataMessage
  reject : ℕ → MetadataMessage

abbrev pub with_size : Option ℕ → Entries → Entries
with_size none top = top
with_size (some size) top = insert (ascii "metadata_size") (int (u64_as_i64 size)) top

unfoldable pub build_ext_handshake : Option ℕ → Bytes
unfolding encode insert u64_as_i64
build_ext_handshake metadata_size =
    let m = insert ut_metadata_key (int (pos 1)) no_entries in
    encode (dict (with_size metadata_size (insert (ascii "m") (dict m) no_entries)))

-- The two keys that every metadata message has.
abbrev pub metadata_entries : ℕ → ℕ → Entries
metadata_entries msg_type piece =
    insert (ascii "piece") (int (u64_as_i64 piece))
      (insert (ascii "msg_type") (int (pos msg_type)) no_entries)

unfoldable pub build_metadata_request : ℕ → Bytes
unfolding encode insert u64_as_i64
build_metadata_request piece = encode (dict (metadata_entries 0 piece))

unfoldable pub build_metadata_data : ℕ → ℕ → Bytes → Bytes
unfolding encode insert u64_as_i64
build_metadata_data piece total_size data_bytes =
    encode
      (dict (insert (ascii "total_size") (int (u64_as_i64 total_size)) (metadata_entries 1 piece)))
    ++ data_bytes

unfoldable pub build_metadata_reject : ℕ → Bytes
unfolding encode insert u64_as_i64
build_metadata_reject piece = encode (dict (metadata_entries 2 piece))

abbrev pub and_then : Option ℕ → (ℕ → Option ℕ) → Option ℕ
and_then none k = none
and_then (some n) k = k n

-- Where the byte first stands.
unfoldable pub find_byte : ℕ → Bytes → Option ℕ
find_byte b [] = none
find_byte b (x ∷ s) = if x == b then some 0 else and_then (find_byte b s) (λ i. some (suc i))

-- How many bytes an integer takes, up to its `e`.
unfoldable pub integer_span : Bytes → Option ℕ
unfolding find_byte
integer_span s = and_then (find_byte b'e' s) (λ k. some (suc k))

-- How many bytes the string of this length takes, where its colon stands at `k`.
abbrev pub spanning : Bytes → ℕ → Option ℕ → Option ℕ
spanning s k none = none
spanning s k (some len) = if ltb (length s) (k + 1 + len) then none else some (k + 1 + len)

abbrev pub all_digits : Bytes → Bool
all_digits [] = true
all_digits (b ∷ s) = is_digit b && all_digits s

-- `str::from_utf8` and `parse::<usize>` on a text that starts with a digit.
abbrev pub parse_usize : Bytes → Option ℕ
parse_usize text = if all_digits text then parse_decimal (2 ^ 64) text else none

unfoldable pub string_span : Bytes → Option ℕ
unfolding find_byte
string_span s = and_then (find_byte b':' s) (λ k. spanning s k (parse_usize (take k s)))

-- The loop of `find_dict_end`; `i` bytes are behind it. Each round takes a byte at least, so a unit of
-- fuel for each byte is enough.
unfoldable pub dict_end_loop : ℕ → ℕ → ℕ → Bytes → Option ℕ
unfolding integer_span string_span
dict_end_loop zero depth i s = none
dict_end_loop (suc fuel) depth i [] = none
dict_end_loop (suc fuel) depth i (b ∷ s) =
    let over =
      and_then (integer_span (b ∷ s)) (λ n. dict_end_loop fuel depth (i + n) (drop n (b ∷ s))) in
    let behind =
      and_then (string_span (b ∷ s)) (λ n. dict_end_loop fuel depth (i + n) (drop n (b ∷ s))) in
    let inner = dict_end_loop fuel (depth + 1) (i + 1) s in
    let outer = dict_end_loop fuel (depth - 1) (i + 1) s in
    if (b == b'd') || (b == b'l')
    then inner
    else if b == b'i'
    then over
    else if is_digit b
    then behind
    else if b == b'e'
    then (if depth == 0 then none else if depth == 1 then some (i + 1) else outer)
    else none

unfoldable pub find_dict_end : Bytes → Option ℕ
unfolding dict_end_loop
find_dict_end [] = none
find_dict_end (b ∷ s) = if b == b'd' then dict_end_loop (length (b ∷ s)) 0 0 (b ∷ s) else none

abbrev pub lenient_dict : ℕ → Result Value Bencode.Error → Result (Entries × ℕ) Error
lenient_dict consumed (ok (dict map)) = ok (map, consumed)
lenient_dict consumed (ok _) = err not_a_dict
lenient_dict consumed (err _) = err bad_payload

unfoldable pub decode_prefix_dict_with_len : Bytes → Result (Entries × ℕ) Error
unfolding find_dict_end decode_lenient
decode_prefix_dict_with_len payload = do
  consumed ← ok_or (find_dict_end payload) bad_payload
  lenient_dict consumed (decode_lenient (take consumed payload))

unfoldable pub decode_prefix_dict : Bytes → Result Entries Error
unfolding decode_prefix_dict_with_len
decode_prefix_dict payload = map_ok (λ (d, _). d) (decode_prefix_dict_with_len payload)

-- The optional fields, which are left out where their value does not fit.
abbrev pub byte_field : Option Value → Option ℕ
byte_field (some (int (pos n))) = if ltb 0 n && leb n 255 then some n else none
byte_field _ = none

abbrev pub metadata_id : Option Value → Option ℕ
unfolding get
metadata_id (some (dict m)) = byte_field (get ut_metadata_key m)
metadata_id _ = none

abbrev pub positive_field : Option Value → Option ℕ
positive_field (some (int (pos n))) = if ltb 0 n then some n else none
positive_field _ = none

unfoldable pub parse_ext_handshake : Bytes → Result ExtHandshake Error
unfolding decode_prefix_dict get
parse_ext_handshake payload = do
  top ← decode_prefix_dict payload
  ok (record {
    ut_metadata = metadata_id (get (ascii "m") top);
    metadata_size = positive_field (get (ascii "metadata_size") top);
  })

abbrev pub int_field : Option Value → Result ℤ Error
int_field (some (int n)) = ok n
int_field _ = err bad_payload

abbrev pub natural_field : Option Value → Result ℕ Error
natural_field (some (int (pos n))) = ok n
natural_field _ = err bad_payload

unfoldable pub metadata_message : ℤ → ℕ → Option ℕ → Bytes → Result MetadataMessage Error
metadata_message (negsuc n) piece total_size rest = err bad_payload
metadata_message (pos n) piece total_size rest =
    if n == 0
    then ok (request piece)
    else if n == 1
    then ok (data_piece piece total_size rest)
    else if n == 2
    then ok (reject piece)
    else err bad_payload

unfoldable pub parse_metadata_message : Bytes → Result MetadataMessage Error
unfolding decode_prefix_dict_with_len metadata_message get
parse_metadata_message payload = do
  (top, consumed) ← decode_prefix_dict_with_len payload
  msg_type ← int_field (get (ascii "msg_type") top)
  piece ← natural_field (get (ascii "piece") top)
  metadata_message msg_type piece (positive_field (get (ascii "total_size") top))
      (drop consumed payload)
