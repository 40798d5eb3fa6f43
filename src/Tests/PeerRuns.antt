-- ===== src/Tests/PeerRuns.antt =====
-- Runs of the peer wire protocol, and its theorems at concrete inputs.
use btget.Prelude.{
  ◌≡◌, refl, true, false, List, [], ◌∷◌, ◌++◌, arith, replicate, Bytes, ok, err, if◌then◌else◌,
  bytes_eq,
}
use btget.Prelude.Words.{be_bytes, from_be_bytes}
use btget.Peer.{
  Handshake, have, request, piece, unchoke, encode_handshake, exchange_handshake, encode_body,
  encode_message, parse_frame, parse_id, read_u32, read_message, wrong_info_hash,
}
use btget.Peer.Frame.{parse_frame-encode_body}
use btget.Peer.Sound.{parse_frame_sound}
use btget.Peer.Stream.{read_message-encode_message, exchange_handshake_lem}
use btget.Peer.State.{Event, received, wants, new_state, run, can_request, IsSaidBy, run-last_said}

abbrev ours : Handshake
ours = record { info_hash = replicate 20 7; peer_id = replicate 20 1; extensions = true }

abbrev theirs : Handshake
theirs = record { info_hash = replicate 20 7; peer_id = replicate 20 2; extensions = false }

parse_frame-encode_body_example :
    parse_frame (encode_body (request 1 16384 70000)) ≡ ok (request 1 16384 70000)
parse_frame-encode_body_example =
    parse_frame-encode_body (request 1 16384 70000) (omega arith, omega arith, omega arith)

abbrev have_frame : Bytes
have_frame = 4 ∷ 0 ∷ 0 ∷ 1 ∷ 2 ∷ []

have_frame_parsed : parse_frame have_frame ≡ ok (have 258)
unfolding parse_frame parse_id read_u32 from_be_bytes
have_frame_parsed = refl

parse_frame_sound_example : encode_body (have 258) ≡ have_frame
parse_frame_sound_example =
    parse_frame_sound have_frame (have 258)
      (omega arith, (omega arith, (omega arith, (omega arith, (omega arith, tt)))))
      have_frame_parsed

read_message-encode_message_example :
    read_message (encode_message (piece 3 0 (9 ∷ 8 ∷ [])) ++ 5 ∷ [])
    ≡ ok (piece 3 0 (9 ∷ 8 ∷ []), 5 ∷ [])
unfolding encode_body be_bytes
read_message-encode_message_example =
    read_message-encode_message (piece 3 0 (9 ∷ 8 ∷ [])) (5 ∷ [])
      (omega arith, omega arith, (omega arith, (omega arith, tt))) (omega arith)

exchange_handshake_lem_example : exchange_handshake ours (encode_handshake theirs ++ 0 ∷ []) ≡ (
  encode_handshake ours,
  if bytes_eq theirs.info_hash ours.info_hash then ok (theirs, 0 ∷ []) else err wrong_info_hash,
)
exchange_handshake_lem_example = exchange_handshake_lem ours theirs (0 ∷ []) (refl, refl)

abbrev history : List Event
history = wants true ∷ received unchoke ∷ []

may_request : can_request (run new_state history) ≡ true
may_request = refl

run-last_said_example : IsSaidBy new_state history (run new_state history)
run-last_said_example = run-last_said new_state history
