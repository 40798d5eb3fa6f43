-- ===== src/Tests/TrackerRuns.antt =====
-- The theorems on the tracker's responses and on magnet links at concrete inputs.
use btget.Prelude.Text.{strip_prefix, split, split_once}
use btget.Prelude.{
  ◌≤◌, bytes_eq, ℕ, zero, suc, ◌+◌, ◌%◌, ◌==◌, ◌++◌, map, replicate, some, ◌≡◌, refl, arith, Bool,
  true, false, List, [], ◌∷◌, Bytes, ascii, ok,
}
use btget.Prelude.Address.{Address}
use btget.Tracker.{escape_bytes}
use btget.TrackerUdp.{action_announce, parse_announce}
use btget.TrackerUdp.Packets.{
  header, answer_body, IsAnswerTo, parse_announce-header, parse_announce-IsAnswerTo,
}
use btget.Magnet.{percent_decode, parse, pairs, decode_btih}
use btget.Magnet.Base32.{Digit, letter, IsDigits, IsHashOf, decode_btih-IsHashOf}
use btget.Magnet.Percent.{percent_decode-escape_bytes}

abbrev addresses : List Address
addresses =
    record { ip = 1 ∷ 2 ∷ 3 ∷ 4 ∷ []; port = 80 }
    ∷ record { ip = 9 ∷ 9 ∷ 9 ∷ 9 ∷ []; port = 6881 }
    ∷ []

abbrev as_is : Bytes → Bytes
as_is text = text

abbrev any_text : Bytes → Bool
any_text text = true

percent_decode-escape_bytes_example :
    percent_decode any_text (escape_bytes (ascii "a +%")) ≡ ok (ascii "a +%")
percent_decode-escape_bytes_example =
    percent_decode-escape_bytes any_text (ascii "a +%")
      (omega arith, (omega arith, (omega arith, (omega arith, tt)))) refl

-- The thirty-two digits in their order, every other one spelt with a capital letter.
abbrev digits_from : ℕ → ℕ → List Digit
digits_from zero v = []
digits_from (suc n) v = (v, v % 2 == 0) ∷ digits_from n (v + 1)

digits_from-IsDigits : (n v : ℕ) → n + v ≤ 32 → IsDigits (digits_from n v)
digits_from-IsDigits zero v h = tt
digits_from-IsDigits (suc n) v h = (omega arith, digits_from-IsDigits n (v + 1) (omega arith))

spelt : map letter (digits_from 32 0) ≡ ascii "AbCdEfGhIjKlMnOpQrStUvWxYz234567"
spelt = refl

decode_btih-IsHashOf_example :
    IsHashOf (digits_from 32 0) (decode_btih (ascii "AbCdEfGhIjKlMnOpQrStUvWxYz234567"))
decode_btih-IsHashOf_example =
    decode_btih-IsHashOf (digits_from 32 0) (digits_from-IsDigits 32 0 (omega arith)) refl

abbrev link : Bytes
link = ascii "magnet:?xt=urn:btih:AAAAAAAAAAAAAAAAAAAAAAAAAAAAAAA2&dn=a%20b"

link_read :
    parse any_text link
    ≡ ok (record {
      info_hash = replicate 19 0 ++ 26 ∷ [];
      display_name = some (ascii "a b");
      trackers = [];
    })
unfolding parse pairs strip_prefix split split_once bytes_eq
link_read = refl

abbrev answer : Bytes
answer = header action_announce 77 (answer_body as_is 1800 1 2 addresses)

parse_announce-header_example :
    parse_announce as_is answer 77 false ≡ ok (record { interval = 1800; peers = addresses })
parse_announce-header_example =
    parse_announce-header as_is false 77 1800 1 2 addresses (omega arith) (omega arith)
      ((refl, omega arith, omega arith), ((refl, omega arith, omega arith), tt))

parse_announce-IsAnswerTo_example : IsAnswerTo as_is action_announce 77 answer
parse_announce-IsAnswerTo_example =
    parse_announce-IsAnswerTo as_is answer 77 false (record { interval = 1800; peers = addresses })
      (parse_announce-header as_is false 77 1800 1 2 addresses (omega arith) (omega arith)
        ((refl, omega arith, omega arith), ((refl, omega arith, omega arith), tt)))
