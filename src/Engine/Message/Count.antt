-- ===== src/Engine/Message/Count.antt =====
-- A message keeps the counts of the engine.
use btget.Prelude.{
  ℕ, ◌+◌, ◌^◌, ◌%◌, ◌≡◌, refl, ◌∙◌, Bool, true, false, Option, none, some, arith, ◌==◌, if_either,
  length, Bool-cases, inl, inr, Bytes, IsBytes, ok, err, Result,
}
use btget.Peer.{
  Message, keep_alive, choke, unchoke, interested, not_interested, have, bitfield, request, piece,
  cancel, port, extended,
}
use btget.Peer.Frame.{IsMessage}
use btget.Peer.State.{on_message as on_state}
use btget.Storage
use btget.Storage.{read_block, write_block}
use btget.Pieces.Bitfield
use btget.Pieces.Bitfield.{Bitfield, BitfieldError, IsValid}
use btget.Pieces.Bitfield.Laws.{has-set, set-IsValid, from_bytes-IsValid}
use btget.Pieces.Availability
use btget.Pieces.Availability.Laws.{count-add_have, length-add_bitfield, length-add_have}
use btget.Requests
use btget.Requests.{BlockRequest, RequestPipeline}
use btget.Engine.State.{PieceJob, done, Peer, send_into, get_peer, Context, Engine, total_pieces}
use btget.Engine.Tally.{length-set_peer}
use btget.Engine.Counted.{
  has_one, IsPeer, IsCounted, none_held, one_held, IsFew, pieces-set, replaced-IsCounted,
  has_one-le-count, count-below, IsPeer-get_peer, count-without, length-without, count-with,
  remove_peer-IsCounted,
}
use btget.Engine.Message.{
  without, store, bitfield_read, received_bitfield, received_have, choked_job, served, serve,
  received_request, put_block, accept_block, completed, received_piece, react, message_of,
  on_message,
}
use btget.Engine.Message.Told.{
  IsLike, job_one-some, send_into-IsLike, IsLike-IsPeer, has_one-IsLike, like-IsCounted,
  get_peer-store,
}
use btget.Engine.Message.Finish.{IsKept, finish_piece-IsKept, put_block-index}

module _ (sha1 : Bytes → Bytes) (c : Context) where
  -- What holds before the reaction to a message: the peer is `peer`, in an engine that is counted.
  abbrev IsAt : ℕ → Peer → Engine → Type 0
  IsAt id peer e = IsCounted (total_pieces c) none_held e × (get_peer id e.peers ≡ some peer)

  bitfield_read-IsCounted :
      (id : ℕ) (peer : Peer) (bytes : Bytes) (e : Engine) (r : Result Bitfield BitfieldError)
      → IsAt id peer e
      → IsFew e
      → IsBytes bytes
      → Bitfield.from_bytes bytes (total_pieces c) ≡ r
      → IsCounted (total_pieces c) none_held (bitfield_read sha1 c id peer e r)
  unfolding bitfield_read
  bitfield_read-IsCounted id peer bytes e (err x) (v, g) few by h =
      remove_peer-IsCounted (total_pieces c) none_held id e v
  bitfield_read-IsCounted id peer bytes e (ok bits) (v, g) few by h =
      let n = total_pieces c in
      let read = from_bytes-IsValid bytes n bits by h in
      let was : IsPeer n peer = IsPeer-get_peer n none_held e id peer v g in
      let a = without peer.theirs_known peer.theirs e.availability in
      let q : Peer = record peer { theirs = bits; theirs_known = true } in
      let e' : Engine = store id q (record e { availability = Availability.add_bitfield a bits }) in
      let counted : (i : ℕ)
          → Availability.count a i + has_one i peer ≡ Availability.count e.availability i =
        λ i.
          count-without n peer.theirs_known peer.theirs e.availability i was.pieces v.sized
            (λ u. was.unknown u i) (has_one-le-count n none_held e id peer i v g) in
      let sized : length a.counts ≡ n =
        length-without n peer.theirs_known peer.theirs e.availability ∙ v.sized in
      replaced-IsCounted n none_held none_held e e' id peer q v g refl
        (record { valid = read.0; pieces = read.2; unknown = λ u i. cc })
        (λ i. omega (
          arith,
          counted i,
          count-with n bits a i read.2 sized
              (omega (arith, counted i, count-below n none_held e i v few)),
        ))
        (length-add_bitfield a bits ∙ length-without n peer.theirs_known peer.theirs e.availability)
        (λ i. refl) v.picker

  received_have-IsCounted :
      (id : ℕ) (peer : Peer) (index : ℕ) (e : Engine)
      → IsAt id peer e
      → IsFew e
      → IsCounted (total_pieces c) none_held (received_have sha1 c id peer index e)
  unfolding received_have
  received_have-IsCounted id peer index e (v, g) few =
      elim (Bool-cases (Bitfield.has peer.theirs index)) [
        | inl h ↦ rw h v
        | inr h ↦
            let n = total_pieces c in
            let was : IsPeer n peer = IsPeer-get_peer n none_held e id peer v g in
            let q : Peer = record peer {
              theirs = Bitfield.set peer.theirs index;
              theirs_known = true;
            } in
            rw h (
              replaced-IsCounted n none_held none_held e
                (store id q
                  (record e { availability = Availability.add_have e.availability index }))
                id peer q v g refl
                (record {
                  valid = set-IsValid peer.theirs index was.valid;
                  pieces = pieces-set peer.theirs index ∙ was.pieces;
                  unknown = λ u i. cc;
                })
                (λ i. ground (
                  arith,
                  count-add_have e.availability index i,
                  has-set peer.theirs index i was.valid,
                  count-below n none_held e i v few,
                  v.sized,
                  was.pieces,
                ))
                (length-add_have e.availability index) (λ i. refl) v.picker)
      ]

  like_at :
      (id : ℕ) (peer q : Peer) (e : Engine)
      → IsAt id peer e
      → IsLike peer q
      → IsCounted (total_pieces c) none_held (store id q e)
  like_at id peer q e (v, g) l = like-IsCounted (total_pieces c) none_held e id peer q v g l

  choked_job-IsCounted :
      (id : ℕ) (peer : Peer) (o : Option PieceJob) (e : Engine)
      → IsAt id peer e
      → peer.job ≡ o
      → IsCounted (total_pieces c) none_held (choked_job sha1 c id peer o e)
  choked_job-IsCounted id peer none e (v, g) h = v
  choked_job-IsCounted id peer (some job) e at h =
      like_at id peer _ e at
        (record { theirs = refl; known = refl; job = λ i. job_one-some i peer job job h refl })

  served-IsCounted :
      (id len : ℕ) (peer : Peer) (m : Message) (e : Engine) (b : Bool)
      → IsAt id peer e
      → IsCounted (total_pieces c) none_held (served sha1 c id len e (send_into b peer m))
  served-IsCounted id len peer m e true at =
      let v = like_at id peer (send_into true peer m).0 e at (send_into-IsLike true peer m) in
      record {
        available = v.available;
        sized = v.sized;
        active = v.active;
        picker = v.picker;
        each = v.each;
        distinct = v.distinct;
      }
  served-IsCounted id len peer m e false at =
      like_at id peer (send_into false peer m).0 e at (send_into-IsLike false peer m)

  serve-IsCounted :
      (id : ℕ) (peer : Peer) (index begin len : ℕ) (e : Engine) (r : Result Bytes Storage.Error)
      → IsAt id peer e
      → IsCounted (total_pieces c) none_held (serve sha1 c id peer index begin len e r)
  serve-IsCounted id peer index begin len e (err x) at = at.0
  serve-IsCounted id peer index begin len e (ok block) at =
      served-IsCounted id len peer (piece index begin block) e peer.tx_open at

  received_request-IsCounted :
      (id : ℕ) (peer : Peer) (index begin len : ℕ) (e : Engine)
      → IsAt id peer e
      → IsCounted (total_pieces c) none_held (received_request sha1 c id peer index begin len e)
  unfolding received_request
  received_request-IsCounted id peer index begin len e at =
      if_either (IsCounted (total_pieces c) none_held) _
        (serve-IsCounted id peer index begin len e (read_block c.storage e.disk index begin len) at)
        at.0

  accept_block-IsKept :
      (now id : ℕ) (peer₀ peer : Peer) (job : PieceJob) (begin : ℕ) (block : Bytes) (e : Engine)
      → IsAt id peer₀ e
      → peer₀.job ≡ some job
      → IsLike peer₀ peer
      → IsKept (total_pieces c) (accept_block sha1 c now id peer job begin block e)
  unfolding accept_block
  accept_block-IsKept now id peer₀ peer job begin block e (v, g) h l =
      let n = total_pieces c in
      let job' = put_block sha1 c begin block job in
      let peer' : Peer = record peer {
        downloaded_from = peer.downloaded_from + length block;
        last_useful = now;
      } in
      let idle : Peer = record peer' { job = none } in
      let busy : Peer = record peer' { job = some job' } in
      let was : IsPeer n peer =
        IsLike-IsPeer n peer₀ peer l (IsPeer-get_peer n none_held e id peer₀ v g) in
      let taken : IsCounted n (one_held job'.index) (store id idle e) =
        replaced-IsCounted n none_held (one_held job'.index) e (store id idle e) id peer₀ idle v g
          refl (record { valid = was.valid; pieces = was.pieces; unknown = was.unknown })
          (λ i. omega (arith, has_one-IsLike i peer₀ peer l)) refl
          (λ i.
            omega (arith, job_one-some i peer₀ job job' h (put_block-index sha1 c begin block job)))
          v.picker in
      if_either (IsKept n) (done job')
        (finish_piece-IsKept sha1 c id job' (store id idle e) idle taken (get_peer-store id idle e)
          refl)
        (like-IsCounted n none_held e id peer₀ busy v g (record {
          theirs = l.theirs;
          known = l.known;
          job = λ i. job_one-some i peer₀ job job' h (put_block-index sha1 c begin block job);
        }))

  completed-IsKept :
      (now id : ℕ) (peer : Peer) (job : PieceJob) (begin : ℕ) (block : Bytes) (e : Engine)
      (r : RequestPipeline × Option BlockRequest)
      → IsAt id peer e
      → peer.job ≡ some job
      → IsKept (total_pieces c) (completed sha1 c now id peer job begin block e r)
  unfolding completed
  completed-IsKept now id peer job begin block e (pipeline, none) at h =
      like_at id peer (record peer { pipeline = pipeline }) e at
        (record { theirs = refl; known = refl; job = λ i. refl })
  completed-IsKept now id peer job begin block e (pipeline, some r) at h =
      accept_block-IsKept now id peer (record peer { pipeline = pipeline }) job begin block e at h
        (record { theirs = refl; known = refl; job = λ i. refl })

  received_piece-IsKept :
      (now id : ℕ) (peer : Peer) (o : Option PieceJob) (index begin : ℕ) (block : Bytes)
      (e : Engine)
      → IsAt id peer e
      → peer.job ≡ o
      → IsKept (total_pieces c) (received_piece sha1 c now id peer o index begin block e)
  unfolding received_piece
  received_piece-IsKept now id peer none index begin block e at h = at.0
  received_piece-IsKept now id peer (some job) index begin block e at h =
      if_either (IsKept (total_pieces c)) (job.index == index)
        (completed-IsKept now id peer job begin block e
          (Requests.complete peer.pipeline index begin (length block % 2 ^ 32)) at h)
        at.0

  react-IsKept :
      (now id : ℕ) (peer : Peer) (m : Message) (e : Engine)
      → IsAt id peer e
      → IsFew e
      → IsMessage m
      → IsKept (total_pieces c) (react sha1 c now id peer m e)
  unfolding react received_bitfield
  react-IsKept now id peer keep_alive e at few h = at.0
  react-IsKept now id peer choke e at few h = choked_job-IsCounted id peer peer.job e at refl
  react-IsKept now id peer unchoke e at few h = at.0
  react-IsKept now id peer interested e at few h = at.0
  react-IsKept now id peer not_interested e at few h = at.0
  react-IsKept now id peer (have index) e at few h = received_have-IsCounted id peer index e at few
  react-IsKept now id peer (bitfield bits) e at few h =
      bitfield_read-IsCounted id peer bits e (Bitfield.from_bytes bits (total_pieces c)) at few h
        refl
  react-IsKept now id peer (request index begin len) e at few h =
      received_request-IsCounted id peer index begin len e at
  react-IsKept now id peer (piece index begin block) e at few h =
      received_piece-IsKept now id peer peer.job index begin block e at refl
  react-IsKept now id peer (cancel index begin len) e at few h = at.0
  react-IsKept now id peer (port p) e at few h = at.0
  react-IsKept now id peer (extended ext payload) e at few h = at.0

  message_of-IsKept :
      (now id : ℕ) (o : Option Peer) (m : Message) (e : Engine)
      → IsCounted (total_pieces c) none_held e
      → get_peer id e.peers ≡ o
      → IsFew e
      → IsMessage m
      → IsKept (total_pieces c) (message_of sha1 c now id o m e)
  unfolding message_of
  message_of-IsKept now id none m e v g few h = v
  message_of-IsKept now id (some peer) m e v g few h =
      let peer' : Peer = record peer { state = on_state peer.state m } in
      react-IsKept now id peer' m (store id peer' e)
        (
          like-IsCounted (total_pieces c) none_held e id peer peer' v g
              (record { theirs = refl; known = refl; job = λ i. refl }),
          get_peer-store id peer' e,
        )
        (omega (arith, few, length-set_peer id peer peer' e.peers g)) h

  -- A message keeps the counts, unless the engine stops because a piece could not be written.
  pub on_message-IsKept :
      (now id : ℕ) (m : Message) (e : Engine)
      → IsCounted (total_pieces c) none_held e
      → IsFew e
      → IsMessage m
      → IsKept (total_pieces c) (on_message sha1 c now id m e)
  unfolding on_message
  on_message-IsKept now id m e v few h =
      message_of-IsKept now id (get_peer id e.peers) m e v refl few h
