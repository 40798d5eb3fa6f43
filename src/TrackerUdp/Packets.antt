-- ===== src/TrackerUdp/Packets.antt =====
-- The packets of the UDP protocol.
use btget.Prelude.{
  ℕ, ◌+◌, ◌/◌, ◌%◌, ◌^◌, ◌≡◌, ◌≤◌, ◌<◌, refl, sym, ap, ◌∙◌, Bool, true, false, List, ◌++◌, All,
  arith, ltb, if◌then◌else◌, length, length-append, take, drop, take-append_at, drop-append_at,
  drop-drop, take_all, Bytes, Result, ok, err, ◌>>◌,
}
use btget.Prelude.Words.{be_bytes, from_be_bytes, length-be_bytes, from_be_bytes-be_bytes}
use btget.Prelude.Address.{Address}
use btget.Trackers.{Error}
use btget.Tracker.{AnnounceResponse, compact_loop}
use btget.Tracker.Compact.{compact, IsPeerAddress, length-compact, compact_loop-compact}
use btget.TrackerUdp.{
  action_announce, action_connect, check_header, parse_connect, parse_announce, entry_size,
}

-- The packet with which a tracker answers.
unfoldable pub header : ℕ → ℕ → Bytes → Bytes
header action transaction_id body = be_bytes 4 action ++ (be_bytes 4 transaction_id ++ body)

module _ (lossy : Bytes → Bytes) where
  check_header-header :
      (action transaction_id : ℕ) (body : Bytes)
      → action < 2
      → transaction_id < 2 ^ 32
      → check_header lossy (header action transaction_id body) action transaction_id ≡ ok tt
  unfolding check_header header
  check_header-header action transaction_id body a t =
      let id = be_bytes 4 transaction_id in
      let first = be_bytes 4 action in
      let long : ltb (length (first ++ (id ++ body))) 8 ≡ false = ground (
        arith,
        length-append first (id ++ body),
        length-append id body,
        length-be_bytes 4 action,
        length-be_bytes 4 transaction_id,
      ) in
      rw
        (
          long,
          drop-append_at 4 first (id ++ body) (length-be_bytes 4 action),
          take-append_at 4 id body (length-be_bytes 4 transaction_id),
          take-append_at 4 first (id ++ body) (length-be_bytes 4 action),
          from_be_bytes-be_bytes 4 transaction_id (omega arith),
          from_be_bytes-be_bytes 4 action (omega arith),
        )
        (ground arith)

  drop-header :
      (action transaction_id : ℕ) (body : Bytes) → drop 8 (header action transaction_id body) ≡ body
  unfolding header
  drop-header action transaction_id body =
      let rest = be_bytes 4 transaction_id ++ body in
      sym (drop-drop 4 4 8 (be_bytes 4 action ++ rest) refl)
      ∙ ap (drop 4) (drop-append_at 4 (be_bytes 4 action) rest (length-be_bytes 4 action))
      ∙ drop-append_at 4 (be_bytes 4 transaction_id) body (length-be_bytes 4 transaction_id)

  length-header :
      (action transaction_id : ℕ) (body : Bytes)
      → length (header action transaction_id body) ≡ 8 + length body
  unfolding header
  length-header action transaction_id body = omega (
    arith,
    length-append (be_bytes 4 action) (be_bytes 4 transaction_id ++ body),
    length-append (be_bytes 4 transaction_id) body,
    length-be_bytes 4 action,
    length-be_bytes 4 transaction_id,
  )

  -- The answer to a connect with the same transaction id gives its connection id.
  pub parse_connect-header :
      (transaction_id connection_id : ℕ)
      → transaction_id < 2 ^ 32
      → connection_id < 2 ^ 64
      → parse_connect lossy
          (header action_connect transaction_id (be_bytes 8 connection_id))
          transaction_id
        ≡ ok connection_id
  unfolding parse_connect
  parse_connect-header t c ht hc =
      let raw = header action_connect t (be_bytes 8 c) in
      let long : ltb (length raw) 16 ≡ false =
        ground (arith, length-header action_connect t (be_bytes 8 c), length-be_bytes 8 c) in
      rw
        (
          check_header-header action_connect t (be_bytes 8 c) (omega arith) ht,
          long,
          drop-header action_connect t (be_bytes 8 c),
          take_all 8 (be_bytes 8 c) (length-be_bytes 8 c),
          from_be_bytes-be_bytes 8 c (omega (arith, hc)),
        )
        refl

  -- The answer to an announce: the interval, two counts that are passed over, and the peers.
  abbrev pub answer_body : ℕ → ℕ → ℕ → List Address → Bytes
  answer_body interval leechers seeders addresses =
      be_bytes 4 interval ++ (be_bytes 4 leechers ++ (be_bytes 4 seeders ++ compact addresses))

  abbrev pub ip_size : Bool → ℕ
  ip_size v6 = if v6 then 16 else 4

  drop-answer_body :
      (t i l s : ℕ) (addresses : List Address)
      → drop 20 (header action_announce t (answer_body i l s addresses)) ≡ compact addresses
  drop-answer_body t i l s addresses =
      let body = answer_body i l s addresses in
      let seeders = be_bytes 4 s ++ compact addresses in
      let leechers = be_bytes 4 l ++ seeders in
      sym (drop-drop 8 12 20 (header action_announce t body) refl)
      ∙ ap (drop 12) (drop-header action_announce t body)
      ∙ sym (drop-drop 4 8 12 body refl)
      ∙ ap (drop 8) (drop-append_at 4 (be_bytes 4 i) leechers (length-be_bytes 4 i))
      ∙ sym (drop-drop 4 4 8 leechers refl)
      ∙ ap (drop 4) (drop-append_at 4 (be_bytes 4 l) seeders (length-be_bytes 4 l))
      ∙ drop-append_at 4 (be_bytes 4 s) (compact addresses) (length-be_bytes 4 s)

  long_answer :
      (t i l s : ℕ) (addresses : List Address)
      → ltb (length (header action_announce t (answer_body i l s addresses))) 20 ≡ false
  long_answer t i l s addresses = ground (
    arith,
    length-header action_announce t (answer_body i l s addresses),
    length-append (be_bytes 4 i) (be_bytes 4 l ++ (be_bytes 4 s ++ compact addresses)),
    length-append (be_bytes 4 l) (be_bytes 4 s ++ compact addresses),
    length-append (be_bytes 4 s) (compact addresses),
    length-be_bytes 4 i,
    length-be_bytes 4 l,
    length-be_bytes 4 s,
  )

  whole_entries :
      (v6 : Bool) (addresses : List Address)
      → All (IsPeerAddress (ip_size v6)) addresses
      → (length (compact addresses) % entry_size lossy v6 ≡ 0)
        × (length (compact addresses) / entry_size lossy v6 ≡ length addresses)
  whole_entries true addresses h =
      (omega (arith, length-compact 16 addresses h), omega (arith, length-compact 16 addresses h))
  whole_entries false addresses h =
      (omega (arith, length-compact 4 addresses h), omega (arith, length-compact 4 addresses h))

  entries_read :
      (v6 : Bool) (addresses : List Address)
      → All (IsPeerAddress (ip_size v6)) addresses
      → compact_loop (length addresses) (entry_size lossy v6) (compact addresses) ≡ addresses
  entries_read true addresses h = compact_loop-compact 16 addresses h
  entries_read false addresses h = compact_loop-compact 4 addresses h

  -- The answer to an announce with the same transaction id gives its interval and its peers, those of the
  -- fourth or of the sixth version, where no port is 0.
  pub parse_announce-header :
      (v6 : Bool) (transaction_id interval leechers seeders : ℕ) (addresses : List Address)
      → transaction_id < 2 ^ 32
      → interval < 2 ^ 32
      → All (IsPeerAddress (ip_size v6)) addresses
      → parse_announce lossy
          (header action_announce transaction_id (answer_body interval leechers seeders addresses))
          transaction_id
          v6
        ≡ ok (record { interval = interval; peers = addresses })
  unfolding parse_announce
  parse_announce-header v6 t i l s addresses ht hi h =
      let body = answer_body i l s addresses in
      let whole = whole_entries v6 addresses h in
      rw
        (
          check_header-header action_announce t body (omega arith) ht,
          long_answer t i l s addresses,
          drop-answer_body t i l s addresses,
          whole.0,
          whole.1,
          entries_read v6 addresses h,
          drop-header action_announce t body,
          take-append_at 4 (be_bytes 4 i) (be_bytes 4 l ++ (be_bytes 4 s ++ compact addresses))
              (length-be_bytes 4 i),
          from_be_bytes-be_bytes 4 i (omega (arith, hi)),
        )
        refl

  -- What a packet says of itself.
  abbrev pub IsAnswerTo : ℕ → ℕ → Bytes → Type 0
  IsAnswerTo action transaction_id raw =
      (8 ≤ length raw)
      × (from_be_bytes (take 4 raw) ≡ action)
      × (from_be_bytes (take 4 (drop 4 raw)) ≡ transaction_id)

  check_header-IsAnswerTo :
      (raw : Bytes) (action t : ℕ)
      → check_header lossy raw action t ≡ ok tt
      → IsAnswerTo action t raw
  unfolding check_header
  check_header-IsAnswerTo raw action t h = ground (arith, h)

  checked_first {ℓ} :
      {A : Type ℓ} (c : Result (Unit {0}) Error) (continue : Result A Error) (r : A)
      → (c >> continue) ≡ ok r
      → c ≡ ok tt
  checked_first (ok u) continue r h = refl
  checked_first (err e) continue r h = cc

  -- A packet that is taken for the answer to an announce has the action and the transaction id of that announce.
  pub parse_announce-IsAnswerTo :
      (raw : Bytes) (transaction_id : ℕ) (v6 : Bool) (response : AnnounceResponse)
      → parse_announce lossy raw transaction_id v6 ≡ ok response
      → IsAnswerTo action_announce transaction_id raw
  unfolding parse_announce
  parse_announce-IsAnswerTo raw t v6 response h =
      check_header-IsAnswerTo raw action_announce t
        (checked_first (check_header lossy raw action_announce t) _ response h)
