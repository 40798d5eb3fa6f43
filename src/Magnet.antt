-- ===== src/Magnet.antt =====
-- bt/src/magnet.rs: magnet links. A text is its bytes; the test for UTF-8 is a parameter.
pub mod Percent
pub mod Base32
use btget.Prelude.{
  ℕ, zero, suc, ◌+◌, ◌-◌, ◌*◌, ◌/◌, ◌%◌, ◌^◌, Bool, true, false, not, ◌&&◌, ◌||◌, List, [], ◌∷◌,
  ◌++◌, Option, none, some, ltb, leb, ◌==◌, if◌then◌else◌, length, Bytes, ascii, bytes_eq, Result,
  ok, err, map_ok, ok_or, ◌>>=◌,
}
use btget.Prelude.Text.{starts_with, strip_prefix, split, split_once}
use btget.Metainfo.Hex.{to_digit, from_hex}

pub record Magnet : Type 0 where
  pub info_hash : Bytes
  pub display_name : Option Bytes
  pub trackers : List Bytes

pub data Error : Type 0 where
  not_magnet missing_topic unsupported_topic bad_hash bad_encoding : Error

-- The value of a character, `None` where it is none of the alphabet's.
abbrev pub base32_value : ℕ → Option ℕ
base32_value c =
    if leb b'A' c && leb c b'Z'
    then some (c - b'A')
    else if leb b'a' c && leb c b'z'
    then some (c - b'a')
    else if leb b'2' c && leb c b'7'
    then some (c - b'2' + 26)
    else none

abbrev pub base32_out : ℕ → Option Bytes → Option Bytes
base32_out b none = none
base32_out b (some out) = some (b ∷ out)

-- The last `bit_count` bits of the u64 are still to be put out.
abbrev pub base32_step : (ℕ → ℕ → Option Bytes) → ℕ → ℕ → Option ℕ → Option Bytes
base32_step continue bits bit_count none = none
base32_step continue bits bit_count (some value) =
    let bits' = bits * 32 % 2 ^ 64 + value in
    let count = bit_count + 5 in
    let rest = continue bits' (if leb 8 count then count - 8 else count) in
    if leb 8 count then base32_out (bits' / 2 ^ (count - 8) % 256) rest else rest

unfoldable pub base32_loop : ℕ → ℕ → Bytes → Option Bytes
base32_loop bits bit_count [] = some []
base32_loop bits bit_count (c ∷ cs) =
    base32_step (λ b n. base32_loop b n cs) bits bit_count (base32_value c)

abbrev pub twenty : Option Bytes → Option Bytes
twenty none = none
twenty (some out) = if length out == 20 then some out else none

unfoldable pub base32_decode : Bytes → Option Bytes
unfolding base32_loop
base32_decode text = twenty (base32_loop 0 0 text)

abbrev pub or_bad_hash : Option Bytes → Result Bytes Error
or_bad_hash none = err bad_hash
or_bad_hash (some hash) = ok hash

unfoldable pub decode_btih : Bytes → Result Bytes Error
unfolding base32_decode from_hex
decode_btih text =
    if length text == 40
    then or_bad_hash (from_hex text)
    else if length text == 32
    then or_bad_hash (base32_decode text)
    else err bad_hash

-- A byte that is not `%`.
abbrev pub plain : ℕ → ℕ
plain b = if b == b'+' then b' ' else b

abbrev pub escaped : Option ℕ → Option ℕ → Result Bytes Error → Result Bytes Error
escaped (some hi) (some lo) (ok out) = ok ((hi * 16 + lo) ∷ out)
escaped (some hi) (some lo) (err e) = err e
escaped _ _ _ = err bad_encoding

-- The loop of `percent_decode`; it has one error only.
unfoldable pub percent_loop : Bytes → Result Bytes Error
unfolding to_digit
percent_loop [] = ok []
percent_loop (b ∷ []) = if b == b'%' then err bad_encoding else ok (plain b ∷ [])
percent_loop (b ∷ h ∷ []) = elim (b == b'%') [
  | true ↦ err bad_encoding
  | false ↦ map_ok (λ out. plain b ∷ out) (percent_loop (h ∷ []))
]
percent_loop (b ∷ h ∷ l ∷ rest) = elim (b == b'%') [
  | true ↦ escaped (to_digit h) (to_digit l) (percent_loop rest)
  | false ↦ map_ok (λ out. plain b ∷ out) (percent_loop (h ∷ l ∷ rest))
]

module _ (is_utf8 : Bytes → Bool) where
  abbrev pub as_text : Result Bytes Error → Result Bytes Error
  as_text (err e) = err e
  as_text (ok out) = if is_utf8 out then ok out else err bad_encoding

  unfoldable pub percent_decode : Bytes → Result Bytes Error
  unfolding percent_loop
  percent_decode raw = as_text (percent_loop raw)

  -- What the loop over the pairs has found so far.
  pub record Found : Type 0 where
    pub info_hash : Option Bytes
    pub display_name : Option Bytes
    pub trackers : List Bytes

  abbrev pub topic_hash : Bytes → Found → Option Bytes → Result Found Error
  unfolding decode_btih
  topic_hash value found (some rest) =
      map_ok (λ hash. record found { info_hash = some hash }) (decode_btih rest)
  topic_hash value found none =
      if starts_with (ascii "urn:") value then err unsupported_topic else ok found

  abbrev pub topic : Found → Result Bytes Error → Result Found Error
  unfolding topic_hash
  topic found (err e) = err e
  topic found (ok value) = topic_hash value found (strip_prefix (ascii "urn:btih:") value)

  -- One pair of the query.
  abbrev pub pair : Found → Option (Bytes × Bytes) → Result Found Error
  unfolding topic percent_decode
  pair found none = ok found
  pair found (some (key, raw)) =
      if bytes_eq key (ascii "xt")
      then topic found (percent_decode raw)
      else if bytes_eq key (ascii "dn")
      then map_ok (λ name. record found { display_name = some name }) (percent_decode raw)
      else if bytes_eq key (ascii "tr")
      then map_ok (λ url. record found { trackers = found.trackers ++ url ∷ [] })
          (percent_decode raw)
      else ok found

  unfoldable pub pairs : Found → List Bytes → Result Found Error
  unfolding pair
  pairs found [] = ok found
  pairs found (p ∷ ps) = do found' ← pair found (split_once b'=' p); pairs found' ps

  abbrev pub magnet_of : Found → Result Magnet Error
  magnet_of found = do
    hash ← ok_or found.info_hash missing_topic
    ok (record { info_hash = hash; display_name = found.display_name; trackers = found.trackers })

  abbrev pub with_query : Option Bytes → Result Magnet Error
  unfolding pairs
  with_query none = err not_magnet
  with_query (some query) = do
    found ←
        pairs (record { info_hash = none; display_name = none; trackers = [] }) (split b'&' query)
    magnet_of found

  unfoldable pub parse : Bytes → Result Magnet Error
  unfolding with_query
  parse input = with_query (strip_prefix (ascii "magnet:?") input)
