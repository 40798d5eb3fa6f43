-- ===== src/Peer/Frame.antt =====
-- Frames of peer.rs: `parse_frame` on what `encode_message` wrote.
use btget.Prelude.{
  ℕ, ◌+◌, ◌^◌, ◌≤◌, ◌<◌, ◌≡◌, refl, ap, false, ◌++◌, arith, ltb, ◌==◌, length, Bytes, IsBytes, ok,
  map_ok, length-append_bytes,
}
use btget.Prelude.Words.{be_bytes, from_be_bytes, length-be_bytes, from_be_bytes-be_bytes}
use btget.Peer.{
  Message, keep_alive, choke, unchoke, interested, not_interested, have, bitfield, request, piece,
  cancel, port, extended, u32, encode_body, expect_empty, read_u32, read_triple, read_piece,
  read_port, read_extended, parse_id, parse_frame,
}

-- The numbers of a message fit their words.
abbrev pub IsMessage : Message → Type 0
IsMessage (have index) = index < 2 ^ 32
IsMessage (bitfield bits) = IsBytes bits
IsMessage (request index begin len) = (index < 2 ^ 32) × (begin < 2 ^ 32) × (len < 2 ^ 32)
IsMessage (piece index begin block) = (index < 2 ^ 32) × (begin < 2 ^ 32) × IsBytes block
IsMessage (cancel index begin len) = (index < 2 ^ 32) × (begin < 2 ^ 32) × (len < 2 ^ 32)
IsMessage (port p) = p < 2 ^ 16
IsMessage (extended ext payload) = (ext < 256) × IsBytes payload
IsMessage _ = Unit

from_u32 : (n : ℕ) → n < 2 ^ 32 → from_be_bytes (u32 n) ≡ n
from_u32 n h = from_be_bytes-be_bytes 4 n (omega arith)

-- The words that an encoder wrote are read back.
read_triple_lem :
    (a b c : ℕ)
    → (a < 2 ^ 32) × (b < 2 ^ 32) × (c < 2 ^ 32)
    → read_triple (u32 a ++ (u32 b ++ u32 c)) ≡ ok (a, b, c)
unfolding read_triple read_u32 be_bytes
read_triple_lem a b c h = rw (from_u32 a h.0, from_u32 b h.1, from_u32 c h.2) refl

ltb-length_eight :
    (a b : ℕ) (block : Bytes) (k : ℕ) → k ≤ 8 → ltb (length (u32 a ++ (u32 b ++ block))) k ≡ false
ltb-length_eight a b block k h = ground (
  arith,
  length-append_bytes (u32 a) (u32 b ++ block),
  length-append_bytes (u32 b) block,
  length-be_bytes 4 a,
  length-be_bytes 4 b,
)

read_piece_lem :
    (a b : ℕ) (block : Bytes)
    → (a < 2 ^ 32) × (b < 2 ^ 32)
    → read_piece (u32 a ++ (u32 b ++ block)) ≡ ok (piece a b block)
unfolding read_piece read_u32 be_bytes
read_piece_lem a b block h =
    rw
      (
        ltb-length_eight a b block 8 (omega arith),
        ltb-length_eight a b block (0 + 4) (omega arith),
        from_u32 a h.0,
        from_u32 b h.1,
      )
      refl

read_have_lem : (a : ℕ) → a < 2 ^ 32 → read_u32 (u32 a) 0 (length (u32 a) == 4) ≡ ok a
unfolding read_u32 be_bytes
read_have_lem a h = rw (from_u32 a h) refl

read_port_lem : (p : ℕ) → p < 2 ^ 16 → read_port (be_bytes 2 p) ≡ ok (port p)
unfolding read_port be_bytes
read_port_lem p h = rw (from_be_bytes-be_bytes 2 p (omega arith)) refl

-- The frame that is written for a message whose fields fit their words is parsed as that message.
pub parse_frame-encode_body : (m : Message) → IsMessage m → parse_frame (encode_body m) ≡ ok m
unfolding parse_frame parse_id encode_body expect_empty read_extended
parse_frame-encode_body keep_alive h = refl
parse_frame-encode_body choke h = refl
parse_frame-encode_body unchoke h = refl
parse_frame-encode_body interested h = refl
parse_frame-encode_body not_interested h = refl
parse_frame-encode_body (have index) h = ap (map_ok have) (read_have_lem index h)
parse_frame-encode_body (bitfield bits) h = refl
parse_frame-encode_body (request index begin len) h = rw (read_triple_lem index begin len h) refl
parse_frame-encode_body (piece index begin block) h = read_piece_lem index begin block (h.0, h.1)
parse_frame-encode_body (cancel index begin len) h = rw (read_triple_lem index begin len h) refl
parse_frame-encode_body (port p) h = read_port_lem p h
parse_frame-encode_body (extended ext payload) h = refl
