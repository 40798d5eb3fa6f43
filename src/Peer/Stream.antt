-- ===== src/Peer/Stream.antt =====
-- The stream side of peer.rs: handshakes and messages written one behind the other and read back.
use btget.Prelude.{
  ℕ, ◌%◌, ◌^◌, ◌≤◌, ◌≡◌, refl, ap, ◌∙◌, Bool, true, false, not, ◌++◌, arith, ◌==◌, if◌then◌else◌,
  length, Bytes, ok, err, map_ok, take-append_at, drop-append_at, take_all, length-append_bytes,
  bytes_eq, append_assoc, le→leb, Result-map, guard_if,
}
use btget.Prelude.Words.{from_be_bytes, length-be_bytes, from_be_bytes-be_bytes}
use btget.Peer.{
  Message, Handshake, wrong_info_hash, max_frame, encode_handshake, decode_handshake, read_exact,
  exchange_handshake, u32, encode_body, encode_message, read_message, parse_frame,
}
use Prim.Native.Nat.{bit_and}
use btget.Peer.Frame.{IsMessage, parse_frame-encode_body}

-- The fields of a handshake are of twenty bytes.
abbrev pub IsHandshake : Handshake → Type 0
IsHandshake h = (length h.info_hash ≡ 20) × (length h.peer_id ≡ 20)

read_exact-append :
    (n : ℕ) (xs rest : Bytes) → length xs ≡ n → read_exact n (xs ++ rest) ≡ ok (xs, rest)
unfolding read_exact
read_exact-append n xs rest h =
    rw
      (
        le→leb n (length (xs ++ rest)) (omega (arith, h, length-append_bytes xs rest)),
        take-append_at n xs rest h,
        drop-append_at n xs rest h,
      )
      refl

-- A frame that is there whole is read and parsed.
read_message-frame :
    (len_bytes body rest : Bytes)
    → length len_bytes ≡ 4
    → from_be_bytes len_bytes ≡ length body
    → length body ≤ max_frame
    → read_message (len_bytes ++ (body ++ rest)) ≡ map_ok (λ m. (m, rest)) (parse_frame body)
unfolding read_message
read_message-frame len_bytes body rest h e small =
    rw
      (
        read_exact-append 4 len_bytes (body ++ rest) h,
        e,
        le→leb (length body) max_frame small,
        read_exact-append (length body) body rest refl,
      )
      (Result-map (parse_frame body) rest)

-- A message that fits a frame is read back from a stream, and nothing behind it is read.
pub read_message-encode_message :
    (m : Message) (rest : Bytes)
    → IsMessage m
    → length (encode_body m) ≤ max_frame
    → read_message (encode_message m ++ rest) ≡ ok (m, rest)
unfolding encode_message
read_message-encode_message m rest h small =
    ap read_message (append_assoc (u32 (length (encode_body m) % 2 ^ 32)) (encode_body m) rest)
    ∙ read_message-frame (u32 (length (encode_body m) % 2 ^ 32)) (encode_body m) rest
        (length-be_bytes 4 (length (encode_body m) % 2 ^ 32))
        (from_be_bytes-be_bytes 4 (length (encode_body m) % 2 ^ 32) (omega arith) ∙ omega arith)
        small
    ∙ ap (map_ok (λ t. (t, rest))) (parse_frame-encode_body m h)

length-encode_handshake : (h : Handshake) → IsHandshake h → length (encode_handshake h) ≡ 68
unfolding encode_handshake
length-encode_handshake h w = omega (arith, length-append_bytes h.info_hash h.peer_id, w.0, w.1)

-- The bit that says the peer has extensions.
extension_lem : (b : Bool) → not (bit_and (if b then 16 else 0) 16 == 0) ≡ b
extension_lem true = refl
extension_lem false = refl

-- A handshake with fields of twenty bytes is decoded from what is written for it.
pub decode_handshake-encode_handshake :
    (h : Handshake) → IsHandshake h → decode_handshake (encode_handshake h) ≡ ok h
unfolding decode_handshake encode_handshake bytes_eq
decode_handshake-encode_handshake h w =
    rw
      (
        take-append_at 20 h.info_hash h.peer_id w.0,
        drop-append_at 20 h.info_hash h.peer_id w.0,
        take_all 20 h.peer_id w.1,
        extension_lem h.extensions,
      )
      refl

-- Both sides' handshakes crossing, the fields of theirs of twenty bytes: ours is written, and theirs
-- is accepted exactly where it has our info hash.
pub exchange_handshake_lem :
    (ours theirs : Handshake) (rest : Bytes)
    → IsHandshake theirs
    → exchange_handshake ours (encode_handshake theirs ++ rest) ≡ (
      encode_handshake ours,
      if bytes_eq theirs.info_hash ours.info_hash then ok (theirs, rest) else err wrong_info_hash,
    )
unfolding exchange_handshake
exchange_handshake_lem ours theirs rest w =
    rw
      (
        read_exact-append 68 (encode_handshake theirs) rest (length-encode_handshake theirs w),
        decode_handshake-encode_handshake theirs w,
      )
      (ap (λ t. (encode_handshake ours, t))
        (guard_if (bytes_eq theirs.info_hash ours.info_hash) wrong_info_hash (ok (theirs, rest))))
