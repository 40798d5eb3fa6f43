-- ===== src/Tests/ExtensionsRuns.antt =====
-- Runs of the extension messages, and their theorems at concrete inputs.
use btget.Prelude.{
  ◌≤◌, ◌<◌, ◌≡◌, refl, arith, some, none, length, Bytes, ascii, ok, bytes_eq, bytes_lt,
}
use btget.Prelude.Decimal.{is_digit, leading_zero, parse_decimal, to_string}
use btget.Bencode.{
  get, insert, decode_lenient, value, integer, string, peek, take_digits, encode, encode_bytes,
  int_to_string,
}
use btget.Prelude.Int.{u64_as_i64}
use btget.Extensions.{
  data_piece, find_byte, integer_span, string_span, dict_end_loop, find_dict_end,
  build_metadata_data, decode_prefix_dict_with_len, metadata_message, parse_metadata_message,
}
use btget.Extensions.Prefix.{dict_end_loop-enough, find_dict_end-le}

abbrev payload : Bytes
payload = ascii "d1:ai7eeXY"

prefix_found : find_dict_end payload ≡ some 8
unfolding find_dict_end dict_end_loop integer_span string_span find_byte is_digit parse_decimal
prefix_found = refl

-- The length of a string has to be digits.
no_length : find_dict_end (ascii "d1!:aaaaaaaaaae") ≡ none
unfolding find_dict_end dict_end_loop integer_span string_span find_byte is_digit parse_decimal
no_length = refl

find_dict_end-le_example : (0 < 8) × (8 ≤ length payload)
find_dict_end-le_example = find_dict_end-le payload 8 prefix_found

dict_end_loop-enough_example : dict_end_loop 10 0 0 payload ≡ dict_end_loop 99 0 0 payload
dict_end_loop-enough_example = dict_end_loop-enough 10 99 0 0 payload (omega arith) (omega arith)

data_read_back :
    parse_metadata_message (build_metadata_data 3 70000 (ascii "de"))
    ≡ ok (data_piece 3 (some 70000) (ascii "de"))
unfolding parse_metadata_message decode_prefix_dict_with_len metadata_message find_dict_end
    dict_end_loop integer_span string_span find_byte is_digit parse_decimal decode_lenient value
    integer string peek take_digits leading_zero bytes_eq bytes_lt get insert build_metadata_data
    encode encode_bytes int_to_string to_string u64_as_i64
data_read_back = refl
