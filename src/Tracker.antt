-- ===== src/Tracker.antt =====
-- bt/src/tracker.rs: the announce over HTTP, from its url to the response. The sockets, the resolution of
-- names, the reading of the text of an IP address and the test for UTF-8 are parameters.
pub mod Compact
use btget.Prelude.{
  ℕ, zero, suc, ◌+◌, ◌-◌, ◌/◌, ◌%◌, ◌^◌, Bool, true, false, not, ◌&&◌, ◌||◌, List, [], ◌∷◌, ◌++◌,
  Option, none, some, ltb, leb, ◌==◌, if◌then◌else◌, length, take, drop, is_empty, contains, Bytes,
  ascii, Result, ok, err, ◌>>=◌,
}
use btget.Prelude.Address.{Address}
use btget.Prelude.Text.{starts_with}
use btget.Prelude.Decimal.{to_string}
use btget.Prelude.Int.{pos}
use btget.Prelude.Words.{from_be_bytes}
use btget.Bencode
use btget.Bencode.{
  Value, bytes, int, list, dict, Items, nil, cons, Entries, no_entries, entry, get, decode_lenient,
}
use btget.Trackers.{Error, unsupported_url, bad_response, failure}

pub data AnnounceEvent : Type 0 where
  nothing started stopped completed : AnnounceEvent

pub record AnnounceRequest : Type 0 where
  pub info_hash : Bytes
  pub peer_id : Bytes
  pub port : ℕ
  pub uploaded : ℕ
  pub downloaded : ℕ
  pub left : ℕ
  pub event : AnnounceEvent

pub record AnnounceResponse : Type 0 where
  pub interval : ℕ
  pub peers : List Address

unfoldable pub url_is_printable_ascii : Bytes → Bool
url_is_printable_ascii [] = true
url_is_printable_ascii (b ∷ bs) = ltb 32 b && (ltb b 127 && url_is_printable_ascii bs)

abbrev pub is_unreserved : ℕ → Bool
is_unreserved b =
    (leb b'A' b && leb b b'Z')
    || ((leb b'a' b && leb b b'z')
        || ((leb b'0' b && leb b b'9')
            || ((b == b'-') || ((b == b'_') || ((b == b'.') || (b == b'~'))))))

-- `{:02X}`
abbrev pub upper_digit : ℕ → ℕ
upper_digit n = if ltb n 10 then b'0' + n else b'A' + (n - 10)

unfoldable pub escape_byte : ℕ → Bytes
escape_byte b =
    if is_unreserved b then b ∷ [] else b'%' ∷ upper_digit (b / 16) ∷ upper_digit (b % 16) ∷ []

unfoldable pub escape_bytes : Bytes → Bytes
unfolding escape_byte
escape_bytes [] = []
escape_bytes (b ∷ bs) = escape_byte b ++ escape_bytes bs

abbrev pub event_text : AnnounceEvent → Bytes
event_text nothing = []
event_text started = ascii "&event=started"
event_text stopped = ascii "&event=stopped"
event_text completed = ascii "&event=completed"

abbrev pub query_text : AnnounceRequest → Bytes
unfolding escape_bytes
query_text req =
    ascii "info_hash="
    ++ (escape_bytes req.info_hash
        ++ (ascii "&peer_id="
            ++ (escape_bytes req.peer_id
                ++ (ascii "&port="
                    ++ (to_string req.port
                        ++ (ascii "&uploaded="
                            ++ (to_string req.uploaded
                                ++ (ascii "&downloaded="
                                    ++ (to_string req.downloaded
                                        ++ (ascii "&left="
                                            ++ (to_string req.left
                                                ++ (ascii "&compact=1&numwant=50"
                                                    ++ event_text req.event))))))))))))

unfoldable pub build_announce_url : Bytes → AnnounceRequest → Result Bytes Error
unfolding starts_with url_is_printable_ascii query_text
build_announce_url base req =
    if not (starts_with (ascii "http://") base) || not (url_is_printable_ascii base)
    then err (unsupported_url base)
    else ok (base ++ ((if contains b'?' base then b'&' else b'?') ∷ query_text req))

-- The loop over the chunks of `width` bytes, the last two of each the port, with fuel for each chunk.
unfoldable pub compact_loop : ℕ → ℕ → Bytes → List Address
compact_loop zero width raw = []
compact_loop (suc f) width raw =
    let address : Address = record {
      ip = take (width - 2) raw;
      port = from_be_bytes (take 2 (drop (width - 2) raw));
    } in
    let rest = compact_loop f width (drop width raw) in
    if is_empty raw then [] else if address.port == 0 then rest else address ∷ rest

abbrev pub parse_compact : ℕ → Bytes → Result (List Address) Error
unfolding compact_loop
parse_compact width raw =
    if not (length raw % width == 0)
    then err bad_response
    else ok (compact_loop (length raw / width) width raw)

unfoldable pub parse_compact_peers : Bytes → Result (List Address) Error
unfolding parse_compact
parse_compact_peers raw = parse_compact 6 raw

unfoldable pub parse_compact_peers6 : Bytes → Result (List Address) Error
unfolding parse_compact
parse_compact_peers6 raw = parse_compact 18 raw

abbrev pub interval_of : Option Value → Result ℕ Error
interval_of none = ok 1800
interval_of (some (int (pos (suc n)))) = ok (suc n % 2 ^ 32)
interval_of (some _) = err bad_response

module _ (is_utf8 : Bytes → Bool) (parse_ip : Bytes → Option Bytes) where
  abbrev pub ip_text : Option Value → Option Bytes
  ip_text (some (bytes b)) = if is_utf8 b then parse_ip b else none
  ip_text _ = none

  abbrev pub port_number : Option Value → Option ℕ
  port_number (some (int (pos (suc n)))) = if leb (suc n) 65535 then some (suc n) else none
  port_number _ = none

  abbrev pub with_port : Option Bytes → Option ℕ → List Address
  with_port (some ip) (some port) = record { ip = ip; port = port } ∷ []
  with_port _ _ = []

  -- The address of an item, or nothing.
  abbrev pub dict_peer : Value → List Address
  dict_peer (dict map) =
      with_port (ip_text (get (ascii "ip") map)) (port_number (get (ascii "port") map))
  dict_peer _ = []

  unfoldable pub parse_dict_peers : Items → List Address
  parse_dict_peers nil = []
  parse_dict_peers (cons item items) = dict_peer item ++ parse_dict_peers items

  abbrev pub peers_of : Option Value → Result (List Address) Error
  unfolding parse_compact_peers parse_dict_peers
  peers_of (some (bytes raw)) = parse_compact_peers raw
  peers_of (some (list items)) = ok (parse_dict_peers items)
  peers_of (some _) = err bad_response
  peers_of none = ok []

  -- `peers6`, where the flag says whether there are `peers`.
  abbrev pub peers6_of : Bool → Option Value → Result (List Address) Error
  unfolding parse_compact_peers6
  peers6_of has_peers (some (bytes raw)) = parse_compact_peers6 raw
  peers6_of has_peers (some _) = err bad_response
  peers6_of true none = ok []
  peers6_of false none = err bad_response

  abbrev pub is_there : Option Value → Bool
  is_there none = false
  is_there (some v) = true

  abbrev pub response_fields : Entries → Result AnnounceResponse Error
  unfolding peers_of peers6_of
  response_fields top = do
    interval ← interval_of (get (ascii "interval") top)
    peers ← peers_of (get (ascii "peers") top)
    more ← peers6_of (is_there (get (ascii "peers") top)) (get (ascii "peers6") top)
    ok (record { interval = interval; peers = peers ++ more })

  module _ (lossy : Bytes → Bytes) where
    abbrev pub response_of : Option Value → Entries → Result AnnounceResponse Error
    unfolding response_fields
    response_of (some (bytes reason)) top = err (failure (lossy reason))
    response_of _ top = response_fields top

    abbrev pub response_top : Result Value Bencode.Error → Result AnnounceResponse Error
    unfolding response_of
    response_top (ok (dict top)) = response_of (get (ascii "failure reason") top) top
    response_top _ = err bad_response

    unfoldable pub parse_response : Bytes → Result AnnounceResponse Error
    unfolding response_top
    parse_response body = response_top (decode_lenient body)

-- `announce_url` of tracker_set.rs: the two announces are parameters.
unfoldable pub announce_url {ℓ} :
    {A : Type ℓ}
    → (Bytes → AnnounceRequest → A)
    → (Bytes → AnnounceRequest → A)
    → Bytes
    → AnnounceRequest
    → A
unfolding starts_with
announce_url udp_announce http_announce url request =
    if starts_with (ascii "udp://") url then udp_announce url request else http_announce url request
