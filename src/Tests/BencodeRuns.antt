-- ===== src/Tests/BencodeRuns.antt =====
-- Runs of bencode.rs, and its theorems at concrete inputs.
use btget.Prelude.{
  ◌≡◌, ◌≢◌, ◌↔◌, refl, arith, true, false, ascii, ok, err, bytes_eq, none, bytes_lt,
}
use btget.Prelude.Int.{pos, negsuc}
use btget.Prelude.Decimal.{to_string, is_digit, leading_zero, parse_decimal}
use btget.Bencode.{
  Value, bytes, int, list, dict, nil, cons, no_entries, entry, insert, encode, decode,
  decode_lenient, decode_with, value, integer, string, peek, take_digits, encode_bytes,
  int_to_string, bad_integer, unsorted_or_duplicate_key, out_of_fuel,
}
use btget.Bencode.Map.{IsSortedAfter, insert-IsSorted}
use btget.Bencode.Fuel.{decode_with-ne_out_of_fuel}
use btget.Bencode.Print.{IsCanonical}
use btget.Bencode.RoundTrip.{decode_with-encode}
use btget.Bencode.Sound.{decode-eq-ok_iff}

-- {"cow": "moo", "spam": ["a", -42]}
abbrev sample : Value
sample = dict (
    entry (ascii "cow") (bytes (ascii "moo")) (
      entry (ascii "spam") (list (cons (bytes (ascii "a")) (cons (int (negsuc 41)) nil)))
        no_entries))

sample-IsCanonical : IsCanonical 0 sample
unfolding bytes_lt
sample-IsCanonical = ground arith

encode-sample : encode sample ≡ ascii "d3:cow3:moo4:spaml1:ai-42eee"
unfolding encode encode_bytes int_to_string to_string
encode-sample = refl

minus_zero : decode (ascii "i-0e") ≡ err bad_integer
unfolding decode value integer string peek take_digits is_digit leading_zero parse_decimal bytes_eq
    bytes_lt
minus_zero = refl

minus_zero_lenient : decode_lenient (ascii "i-0e") ≡ ok (int (pos 0))
unfolding decode_lenient value integer string peek take_digits is_digit leading_zero parse_decimal
    bytes_eq
minus_zero_lenient = refl

unsorted : decode (ascii "d1:b0:1:a0:e") ≡ err unsorted_or_duplicate_key
unfolding decode value integer string peek take_digits is_digit leading_zero parse_decimal bytes_eq
    bytes_lt
unsorted = refl

decode_with-ne_out_of_fuel_example : decode_with (ascii "lll") true ≢ err out_of_fuel
decode_with-ne_out_of_fuel_example = decode_with-ne_out_of_fuel (ascii "lll") true

decode_with-encode_example : decode_with (encode sample) false ≡ ok sample
decode_with-encode_example = decode_with-encode sample false sample-IsCanonical

decode-eq-ok_iff_example :
    (decode (encode sample) ≡ ok sample) ↔ (IsCanonical 0 sample × (encode sample ≡ encode sample))
decode-eq-ok_iff_example = decode-eq-ok_iff (encode sample) sample

insert-IsSorted_example :
    IsSortedAfter none
      (insert (ascii "b") (int (pos 1)) (entry (ascii "a") (int (pos 0)) no_entries))
insert-IsSorted_example =
    insert-IsSorted (ascii "b") (int (pos 1)) (entry (ascii "a") (int (pos 0)) no_entries)
      (refl, tt)
