-- ===== src/Peer.antt =====
-- bt/src/peer.rs: the peer wire protocol. An info hash and a peer id are lists of 20 bytes, and a
-- stream is the bytes that are still to come; the text of an I/O error is left out.
pub mod Frame
pub mod Sound
pub mod State
pub mod Stream
use btget.Prelude.{
  ℕ, zero, suc, ◌+◌, ◌-◌, ◌%◌, ◌^◌, ◌≡◌, Bool, true, false, not, ◌&&◌, List, [], ◌∷◌, ◌++◌, ltb,
  leb, ◌==◌, if◌then◌else◌, length, take, drop, get_or, is_empty, ◌||◌, Bytes, ascii, bytes_eq,
  Result, ok, err, ◌>>=◌, ◌>>◌, guard, map_ok,
}
use btget.Prelude.Words.{be_bytes, from_be_bytes}
use Prim.Native.Nat.{bit_and}

abbrev pub pstr : Bytes
pstr = ascii "BitTorrent protocol"

abbrev pub max_frame : ℕ
max_frame = 2 ^ 20

abbrev pub extension_bit : ℕ
extension_bit = 0x10

pub record Handshake : Type 0 where
  pub info_hash : Bytes
  pub peer_id : Bytes
  pub extensions : Bool

pub data Message : Type 0 where
  keep_alive choke unchoke interested not_interested : Message
  have : ℕ → Message
  bitfield : Bytes → Message
  request : ℕ → ℕ → ℕ → Message
  piece : ℕ → ℕ → Bytes → Message
  cancel : ℕ → ℕ → ℕ → Message
  port : ℕ → Message
  extended : ℕ → Bytes → Message

pub data Error : Type 0 where
  io bad_handshake wrong_info_hash bad_frame : Error
  unknown_id : ℕ → Error
  frame_too_long : ℕ → Error

-- The eight bytes behind the protocol's name.
abbrev pub reserved : Bool → Bytes
reserved extensions = 0 ∷ 0 ∷ 0 ∷ 0 ∷ 0 ∷ (if extensions then extension_bit else 0) ∷ 0 ∷ 0 ∷ []

unfoldable pub encode_handshake : Handshake → Bytes
encode_handshake h = 19 ∷ (pstr ++ (reserved h.extensions ++ (h.info_hash ++ h.peer_id)))

-- Of 68 bytes.
unfoldable pub decode_handshake : Bytes → Result Handshake Error
decode_handshake raw = do
  guard (get_or raw 0 0 == 19 && bytes_eq (take 19 (drop 1 raw)) pstr) bad_handshake
  ok (record {
    info_hash = take 20 (drop 28 raw);
    peer_id = take 20 (drop 48 raw);
    extensions = not (bit_and (get_or raw 25 0) extension_bit == 0);
  })

-- `Read::read_exact` of `n` bytes from a stream that ends after these.
unfoldable pub read_exact : ℕ → Bytes → Result (Bytes × Bytes) Error
read_exact n s = if leb n (length s) then ok (take n s, drop n s) else err io

-- What is written, and the answer with what is left of the stream.
unfoldable pub exchange_handshake : Handshake → Bytes → Bytes × Result (Handshake × Bytes) Error
unfolding encode_handshake decode_handshake read_exact
exchange_handshake ours s = (
  encode_handshake ours,
  do
    (raw, rest) ← read_exact 68 s
    theirs ← decode_handshake raw
    guard (bytes_eq theirs.info_hash ours.info_hash) wrong_info_hash
    ok (theirs, rest),
)

abbrev pub u32 : ℕ → Bytes
u32 = be_bytes 4

-- The frame's body, without its length.
unfoldable pub encode_body : Message → Bytes
encode_body keep_alive = []
encode_body choke = 0 ∷ []
encode_body unchoke = 1 ∷ []
encode_body interested = 2 ∷ []
encode_body not_interested = 3 ∷ []
encode_body (have index) = 4 ∷ u32 index
encode_body (bitfield bits) = 5 ∷ bits
encode_body (request index begin len) = 6 ∷ (u32 index ++ (u32 begin ++ u32 len))
encode_body (piece index begin block) = 7 ∷ (u32 index ++ (u32 begin ++ block))
encode_body (cancel index begin len) = 8 ∷ (u32 index ++ (u32 begin ++ u32 len))
encode_body (port p) = 9 ∷ be_bytes 2 p
encode_body (extended ext payload) = 20 ∷ ext ∷ payload

unfoldable pub encode_message : Message → Bytes
unfolding encode_body
encode_message m = u32 (length (encode_body m) % 2 ^ 32) ++ encode_body m

unfoldable pub expect_empty : Bytes → Message → Result Message Error
expect_empty payload m = if is_empty payload then ok m else err bad_frame

unfoldable pub read_u32 : Bytes → ℕ → Bool → Result ℕ Error
read_u32 payload offset size_ok =
    if not size_ok || ltb (length payload) (offset + 4)
    then err bad_frame
    else ok (from_be_bytes (take 4 (drop offset payload)))

unfoldable pub read_triple : Bytes → Result (ℕ × ℕ × ℕ) Error
unfolding read_u32
read_triple payload = do
  guard (length payload == 12) bad_frame
  a ← read_u32 payload 0 true
  b ← read_u32 payload 4 true
  c ← read_u32 payload 8 true
  ok (a, b, c)

unfoldable pub read_piece : Bytes → Result Message Error
unfolding read_u32
read_piece payload = do
  guard (not (ltb (length payload) 8)) bad_frame
  index ← read_u32 payload 0 true
  begin ← read_u32 payload 4 true
  ok (piece index begin (drop 8 payload))

unfoldable pub read_port : Bytes → Result Message Error
read_port payload = do
  guard (length payload == 2) bad_frame
  ok (port (from_be_bytes (take 2 payload)))

unfoldable pub read_extended : Bytes → Result Message Error
read_extended [] = err bad_frame
read_extended (ext ∷ payload) = ok (extended ext payload)

-- The match of `parse_frame` on a body's first byte.
unfoldable pub parse_id : ℕ → Bytes → Result Message Error
unfolding expect_empty read_u32 read_triple read_piece read_port read_extended
parse_id id payload =
    if id == 0
    then expect_empty payload choke
    else if id == 1
    then expect_empty payload unchoke
    else if id == 2
    then expect_empty payload interested
    else if id == 3
    then expect_empty payload not_interested
    else if id == 4
    then map_ok have (read_u32 payload 0 (length payload == 4))
    else if id == 5
    then ok (bitfield payload)
    else if id == 6
    then map_ok (λ (a, b, c). request a b c) (read_triple payload)
    else if id == 7
    then read_piece payload
    else if id == 8
    then map_ok (λ (a, b, c). cancel a b c) (read_triple payload)
    else if id == 9
    then read_port payload
    else if id == 20
    then read_extended payload
    else err (unknown_id id)

unfoldable pub parse_frame : Bytes → Result Message Error
unfolding parse_id
parse_frame [] = ok keep_alive
parse_frame (id ∷ payload) = parse_id id payload

unfoldable pub read_message : Bytes → Result (Message × Bytes) Error
unfolding read_exact parse_frame
read_message s = do
  (len_bytes, s) ← read_exact 4 s
  let len = from_be_bytes len_bytes
  guard (leb len max_frame) (frame_too_long len)
  (body, s) ← read_exact len s
  m ← parse_frame body
  ok (m, s)

-- The bytes that were written so far are `out`.
unfoldable pub write_message : Bytes → Message → Bytes
unfolding encode_message
write_message out m = out ++ encode_message m
