-- ===== src/TrackerUdp.antt =====
-- bt/src/tracker_udp.rs: the announce over UDP. The socket and the source of transaction ids are parameters
-- with a state, `S`, and so is the text of an error's bytes. The resolution of the tracker's name is left
-- out, and setting the timeout of the socket does not fail.
pub mod Packets
use btget.Prelude.{
  ℕ, ◌+◌, ◌-◌, ◌*◌, ◌/◌, ◌%◌, ◌^◌, Bool, true, false, not, List, [], ◌∷◌, ◌++◌, ltb, ◌==◌,
  if◌then◌else◌, length, take, drop, Bytes, Result, ok, err, ◌>>=◌, ◌>>◌, guard,
}
use btget.Prelude.Words.{be_bytes, from_be_bytes}
use btget.Trackers.{Error, io, bad_response, failure}
use btget.Tracker.{
  AnnounceEvent, AnnounceRequest, AnnounceResponse, nothing, started, stopped, completed,
  compact_loop,
}

-- 0x0417_2710_1980
abbrev pub protocol_id : ℕ
protocol_id = 4497486125440

abbrev pub action_connect : ℕ
action_connect = 0

abbrev pub action_announce : ℕ
action_announce = 1

abbrev pub action_error : ℕ
action_error = 3

unfoldable pub build_connect : ℕ → Bytes
build_connect transaction_id =
    be_bytes 8 protocol_id ++ (be_bytes 4 action_connect ++ be_bytes 4 transaction_id)

abbrev pub event_code : AnnounceEvent → ℕ
event_code nothing = 0
event_code completed = 1
event_code started = 2
event_code stopped = 3

-- The fields in their order, with four zero bytes for the IP address and the key each.
unfoldable pub build_announce : ℕ → ℕ → AnnounceRequest → Bytes
build_announce connection_id transaction_id request =
    be_bytes 8 connection_id
    ++ (be_bytes 4 action_announce
        ++ (be_bytes 4 transaction_id
            ++ (request.info_hash
                ++ (request.peer_id
                    ++ (be_bytes 8 request.downloaded
                        ++ (be_bytes 8 request.left
                            ++ (be_bytes 8 request.uploaded
                                ++ (be_bytes 4 (event_code request.event)
                                    ++ (be_bytes 4 0
                                        ++ (be_bytes 4 0
                                            ++ (be_bytes 4 (2 ^ 32 - 1)
                                                ++ be_bytes 2 request.port)))))))))))

module _ (lossy : Bytes → Bytes) where
  unfoldable pub check_header : Bytes → ℕ → ℕ → Result (Unit {0}) Error
  check_header raw expected_action transaction_id =
      let action = from_be_bytes (take 4 raw) in
      if ltb (length raw) 8
      then err bad_response
      else if not (from_be_bytes (take 4 (drop 4 raw)) == transaction_id)
      then err bad_response
      else if action == action_error
      then err (failure (lossy (drop 8 raw)))
      else if not (action == expected_action)
      then err bad_response
      else ok tt

  unfoldable pub parse_connect : Bytes → ℕ → Result ℕ Error
  unfolding check_header
  parse_connect raw transaction_id = do
    check_header raw action_connect transaction_id
    guard (not (ltb (length raw) 16)) bad_response
    ok (from_be_bytes (take 8 (drop 8 raw)))

  abbrev pub entry_size : Bool → ℕ
  entry_size v6 = if v6 then 18 else 6

  unfoldable pub parse_announce : Bytes → ℕ → Bool → Result AnnounceResponse Error
  unfolding check_header
  parse_announce raw transaction_id v6 =
      let peers_raw = drop 20 raw in
      do
        check_header raw action_announce transaction_id
        guard (not (ltb (length raw) 20)) bad_response
        guard (length peers_raw % entry_size v6 == 0) bad_response
        ok (record {
          interval = from_be_bytes (take 4 (drop 8 raw));
          peers = compact_loop (length peers_raw / entry_size v6) (entry_size v6) peers_raw;
        })

  module _ {ℓ} {S : Type ℓ} (send : S → Bytes → S × Result (Unit {0}) Error)
      (receive : S → ℕ → S × Result Bytes Error) (next_transaction_id : S → S × ℕ) where
    -- A packet is sent and one is received, within the timeout.
    abbrev pub answer_to : ℕ → S × Result (Unit {0}) Error → S × Result Bytes Error
    answer_to timeout (s, err e) = (s, err e)
    answer_to timeout (s, ok _) = receive s timeout

    abbrev pub exchange : S → ℕ → Bytes → S × Result Bytes Error
    exchange s timeout packet = answer_to timeout (send s packet)

    abbrev pub announced : ℕ → Bool → S × Result Bytes Error → S × Result AnnounceResponse Error
    unfolding parse_announce
    announced transaction_id v6 (s, err e) = (s, err e)
    announced transaction_id v6 (s, ok raw) = (s, parse_announce raw transaction_id v6)

    abbrev pub announce_on :
        ℕ → AnnounceRequest → Bool → S → Result ℕ Error → S × Result AnnounceResponse Error
    unfolding announced build_announce
    announce_on timeout request v6 s (err e) = (s, err e)
    announce_on timeout request v6 s (ok connection_id) =
        let (s', transaction_id) = next_transaction_id s in
        announced transaction_id v6
          (exchange s' timeout (build_announce connection_id transaction_id request))

    abbrev pub connected :
        ℕ → AnnounceRequest → Bool → ℕ → S × Result Bytes Error → S × Result AnnounceResponse Error
    unfolding announce_on parse_connect
    connected timeout request v6 transaction_id (s, err e) = (s, err e)
    connected timeout request v6 transaction_id (s, ok raw) =
        announce_on timeout request v6 s (parse_connect raw transaction_id)

    unfoldable pub udp_round : ℕ → AnnounceRequest → Bool → S → S × Result AnnounceResponse Error
    unfolding connected build_connect
    udp_round timeout request v6 s =
        let (s', transaction_id) = next_transaction_id s in
        connected timeout request v6 transaction_id
          (exchange s' timeout (build_connect transaction_id))

    abbrev pub attempted :
        (S → Error → S × Result AnnounceResponse Error)
        → S × Result AnnounceResponse Error
        → S × Result AnnounceResponse Error
    attempted continue (s, ok response) = (s, ok response)
    attempted continue (s, err e) = continue s e

    -- The loop over the timeouts of the attempts, with the error of the last.
    unfoldable pub attempts :
        List ℕ → AnnounceRequest → Bool → S → Error → S × Result AnnounceResponse Error
    unfolding udp_round
    attempts [] request v6 s last = (s, err last)
    attempts (timeout ∷ timeouts) request v6 s last =
        attempted (λ s' e. attempts timeouts request v6 s' e) (udp_round timeout request v6 s)
