-- ===== src/Tracker/Compact.antt =====
-- Compact peers: the bytes of addresses are read as those addresses.
use btget.Prelude.{
  ℕ, ◌+◌, ◌-◌, ◌*◌, ◌/◌, ◌%◌, ◌^◌, ◌≡◌, ◌<◌, refl, sym, ap, ◌∙◌, false, List, [], ◌∷◌, ◌++◌, All,
  arith, ◌==◌, length, length-append, take, drop, take-append_at, drop-append_at, drop-drop,
  is_empty, Bytes, ok,
}
use btget.Prelude.Address.{Address}
use btget.Prelude.Words.{be_bytes, length-be_bytes, from_be_bytes-be_bytes}
use btget.Tracker.{compact_loop, parse_compact, parse_compact_peers, parse_compact_peers6}

-- The compact form: for each address its IP address and the port in two bytes.
unfoldable pub compact : List Address → Bytes
compact [] = []
compact (a ∷ addresses) = a.ip ++ (be_bytes 2 a.port ++ compact addresses)

-- An address whose IP address has this many bytes, and a port that is none but 0.
abbrev pub IsPeerAddress : ℕ → Address → Type 0
IsPeerAddress n a = (length a.ip ≡ n) × (0 < a.port) × (a.port < 2 ^ 16)

pub length-compact :
    (n : ℕ) (addresses : List Address)
    → All (IsPeerAddress n) addresses
    → length (compact addresses) ≡ length addresses * (n + 2)
unfolding compact
length-compact n [] h = omega arith
length-compact n (a ∷ addresses) h = ground (
  arith,
  length-append a.ip (be_bytes 2 a.port ++ compact addresses),
  length-append (be_bytes 2 a.port) (compact addresses),
  length-be_bytes 2 a.port,
  h.0.0,
  length-compact n addresses h.1,
)

is_empty-lt : (xs : Bytes) → 0 < length xs → is_empty xs ≡ false
is_empty-lt [] h = absurd (omega arith)
is_empty-lt (x ∷ xs) h = refl

pub compact_loop-compact :
    (n : ℕ) (addresses : List Address)
    → All (IsPeerAddress n) addresses
    → compact_loop (length addresses) (n + 2) (compact addresses) ≡ addresses
unfolding compact compact_loop
compact_loop-compact n [] h = refl
compact_loop-compact n (a ∷ addresses) h =
    let rest = compact addresses in
    let port = be_bytes 2 a.port in
    let raw = a.ip ++ (port ++ rest) in
    let two = length-be_bytes 2 a.port in
    let ip_taken : take (n + 2 - 2) raw ≡ a.ip =
      take-append_at (n + 2 - 2) a.ip (port ++ rest) (omega (arith, h.0.0)) in
    let ip_dropped : drop (n + 2 - 2) raw ≡ port ++ rest =
      drop-append_at (n + 2 - 2) a.ip (port ++ rest) (omega (arith, h.0.0)) in
    let dropped : drop (n + 2) raw ≡ rest =
      sym (drop-drop n 2 (n + 2) raw refl)
      ∙ ap (drop 2) (drop-append_at n a.ip (port ++ rest) h.0.0)
      ∙ drop-append_at 2 port rest two in
    let filled : is_empty raw ≡ false =
      is_empty-lt raw
        (omega (arith, length-append a.ip (port ++ rest), length-append port rest, two)) in
    let positive : a.port == 0 ≡ false = ground (arith, h.0.1) in
    rw
      (
        filled,
        ip_taken,
        ip_dropped,
        take-append_at 2 port rest two,
        from_be_bytes-be_bytes 2 a.port (omega (arith, h.0.2)),
        positive,
        dropped,
        compact_loop-compact n addresses h.1,
      )
      refl

-- The bytes of addresses of the fourth version, each with four bytes and a port in two, are read as those
-- addresses, where no port is 0.
pub parse_compact_peers-compact :
    (addresses : List Address)
    → All (IsPeerAddress 4) addresses
    → parse_compact_peers (compact addresses) ≡ ok addresses
unfolding parse_compact_peers parse_compact
parse_compact_peers-compact addresses h =
    let len = length-compact 4 addresses h in
    let whole : length (compact addresses) % 6 ≡ 0 = omega (arith, len) in
    let count : length (compact addresses) / 6 ≡ length addresses = omega (arith, len) in
    rw (whole, count, compact_loop-compact 4 addresses h) refl

pub parse_compact_peers6-compact :
    (addresses : List Address)
    → All (IsPeerAddress 16) addresses
    → parse_compact_peers6 (compact addresses) ≡ ok addresses
unfolding parse_compact_peers6 parse_compact
parse_compact_peers6-compact addresses h =
    let len = length-compact 16 addresses h in
    let whole : length (compact addresses) % 18 ≡ 0 = omega (arith, len) in
    let count : length (compact addresses) / 18 ≡ length addresses = omega (arith, len) in
    rw (whole, count, compact_loop-compact 16 addresses h) refl
