-- ===== src/Engine/Rounds.antt =====
-- What the engine does between two inputs: `housekeeping`, `rebalance_chokes` and `final_check` of
-- engine.rs.
pub mod Asks
pub mod Count
pub mod Chokes
pub mod Within
use btget.Prelude.{
  ℕ, zero, suc, ◌+◌, ◌-◌, Bool, true, false, not, ◌&&◌, ◌||◌, List, [], ◌∷◌, ◌++◌, Option, none,
  some, map, ltb, leb, ◌==◌, if◌then◌else◌, length, contains, Bytes, bytes_eq, Result, ok, err,
}
use btget.Storage
use btget.Storage.{piece_size}
use btget.Peer.{Message, choke, unchoke, interested, request}
use btget.Peer.State.{set_interested, set_choking, can_request}
use btget.Pieces.Bitfield
use btget.Picker
use btget.Requests
use btget.Requests.{BlockRequest, RequestPipeline}
use btget.Choke.{PeerRate, OptimisticRotor, select_unchoked, maybe_rotate}
use btget.Resume
use btget.Engine.State.{
  regular_unchoke_slots, choke_interval, snub_timeout, save_interval, PieceJob, start, Peer,
  send_into, send, Peers, get_peer, set_peer, Context, Engine, total_pieces,
}
use btget.Engine.Message.{remove_peer, store, block_pair, verify_piece}

abbrev pub has_job : Option PieceJob → Bool
has_job none = false
has_job (some job) = true

-- The requests that took too long go back to the blocks that the job waits for.
abbrev pub requeued : ℕ → Peer → Option PieceJob → Peer
requeued now p none = p
requeued now p (some job) =
    let (pipeline, blocks) = Requests.expired p.pipeline now in
    record p {
      pipeline = pipeline;
      job = some (record job { pending = job.pending ++ map block_pair blocks });
    }

-- `while peer.pipeline.has_slot() && !job.pending.is_empty()`: the blocks that are left, and whether the
-- peer is gone.
abbrev pub ask_next :
    (Peer → Peer × List (ℕ × ℕ) × Bool) → List (ℕ × ℕ) → Peer × Bool → Peer × List (ℕ × ℕ) × Bool
ask_next continue rest (p, true) = continue p
ask_next continue rest (p, false) = (p, rest, true)

abbrev pub issued_next :
    (Peer → Peer × List (ℕ × ℕ) × Bool)
    → List (ℕ × ℕ)
    → Peer
    → Message
    → RequestPipeline × Bool
    → Peer × List (ℕ × ℕ) × Bool
issued_next continue rest p m (pipeline, true) =
    ask_next continue rest (send (record p { pipeline = pipeline }) m)
issued_next continue rest p m (pipeline, false) = continue (record p { pipeline = pipeline })

unfoldable pub ask : ℕ → ℕ → List (ℕ × ℕ) → Peer → Peer × List (ℕ × ℕ) × Bool
ask now index [] p = (p, [], false)
ask now index ((begin, len) ∷ rest) p =
    let block : BlockRequest = record { piece = index; begin = begin; length = len } in
    let next =
      issued_next (ask now index rest) rest p (request index begin len)
        (Requests.issue p.pipeline block now) in
    if Requests.has_slot p.pipeline then next else (p, (begin, len) ∷ rest, false)

abbrev pub asked : PieceJob → Peer × List (ℕ × ℕ) × Bool → Peer × Bool
asked job (p, rest, dead) = (record p { job = some (record job { pending = rest }) }, dead)

abbrev pub ask_blocks : ℕ → PieceJob → Peer → Peer × Bool
unfolding ask
ask_blocks now job p =
    if can_request p.state then asked job (ask now job.index job.pending p) else (p, false)

-- We tell the peer that we are interested before the first request.
abbrev pub interest_sent : ℕ → PieceJob → Peer × Bool → Peer × Bool
unfolding ask_blocks
interest_sent now job (p, true) =
    ask_blocks now job (record p { state = set_interested p.state true })
interest_sent now job (p, false) = (p, true)

abbrev pub work : ℕ → Option PieceJob → Peer → Peer × Bool
unfolding interest_sent
work now none p = (p, false)
work now (some job) p =
    if p.state.am_interested
    then ask_blocks now job p
    else interest_sent now job (send p interested)

module _ (c : Context) where
  abbrev pub assigned : Peer → Picker.PiecePicker × Option ℕ → Picker.PiecePicker × Peer
  assigned p (picker, none) = (picker, p)
  assigned p (picker, some index) =
      (picker, record p { job = some (start index (piece_size c.storage index)) })

  unfoldable pub assign : Engine → Peer → Picker.PiecePicker × Peer
  assign e p =
      if not (has_job p.job) && p.theirs_known
      then assigned p (Picker.pick e.picker e.ours p.theirs e.availability)
      else (e.picker, p)

  -- A peer with a job that has sent nothing of use for too long.
  abbrev pub is_snubbing : ℕ → Engine → Peer → Bool
  is_snubbing now e p =
      has_job p.job && (ltb snub_timeout (now - p.last_useful) && not (Bitfield.is_complete e.ours))

  abbrev pub kept : ℕ → Engine → Peer × Bool → Engine × Bool
  kept id e (p, dead) = (store id p e, dead)

  abbrev pub tend_assigned : ℕ → ℕ → Engine → Picker.PiecePicker × Peer → Engine × Bool
  unfolding work
  tend_assigned now id e (picker, p) =
      let e' = record e { picker = picker } in
      if is_snubbing now e' p then (store id p e', true) else kept id e' (work now p.job p)

  -- The body of the loop over the peers: the engine, and whether the peer is gone.
  unfoldable pub tend : ℕ → ℕ → Option Peer → Engine → Engine × Bool
  unfolding assign tend_assigned
  tend now id none e = (e, false)
  tend now id (some p) e = tend_assigned now id e (assign e (requeued now p p.job))

  abbrev pub bury : List ℕ → Engine → Engine
  unfolding remove_peer
  bury [] e = e
  bury (id ∷ dead) e = bury dead (remove_peer id e)

  unfoldable pub tend_all : ℕ → List ℕ → Engine → Engine × List ℕ
  unfolding tend
  tend_all now [] e = (e, [])
  tend_all now (id ∷ ids) e =
      let (e', gone) = tend now id (get_peer id e.peers) e in
      let (e'', dead) = tend_all now ids e' in (e'', if gone then id ∷ dead else dead)

  abbrev pub ids_of : Peers → List ℕ
  ids_of [] = []
  ids_of ((j, p) ∷ ps) = j ∷ ids_of ps

  abbrev pub waiting : Peers → List ℕ
  waiting [] = []
  waiting ((j, p) ∷ ps) =
      if p.state.peer_interested && p.state.am_choking then j ∷ waiting ps else waiting ps

  abbrev pub rates : Peers → List PeerRate
  rates [] = []
  rates ((j, p) ∷ ps) =
      record {
        id = j;
        downloaded_from = p.downloaded_from;
        is_interested = p.state.peer_interested;
      }
      ∷ rates ps

  abbrev pub choking_set : Bool → Peer × Bool → Peer
  choking_set b (p, true) = record p { state = set_choking p.state b }
  choking_set b (p, false) = p

  abbrev pub rechoke : Bool → Peer → Peer
  rechoke should_unchoke p =
      if should_unchoke && p.state.am_choking
      then choking_set false (send p unchoke)
      else if not should_unchoke && not p.state.am_choking
      then choking_set true (send p choke)
      else p

  unfoldable pub rechoke_all : List ℕ → Peers → Peers
  rechoke_all unchoked [] = []
  rechoke_all unchoked ((j, p) ∷ ps) =
      (j, rechoke (contains j unchoked) p) ∷ rechoke_all unchoked ps

  unfoldable pub rebalance_chokes : ℕ → Engine → Engine
  unfolding rechoke_all
  rebalance_chokes now e =
      let (rotor, optimistic) = maybe_rotate e.rotor (waiting e.peers) now in
      let unchoked = select_unchoked (rates e.peers) regular_unchoke_slots optimistic in
      record e { rotor = rotor; peers = rechoke_all unchoked e.peers }

  abbrev pub choke_when_due : ℕ → Engine → Engine
  unfolding rebalance_chokes
  choke_when_due now e =
      if leb choke_interval (now - e.last_choke)
      then rebalance_chokes now (record e { last_choke = now })
      else e

  abbrev pub save_when_due : ℕ → Engine → Engine
  save_when_due now e =
      if leb save_interval (now - e.last_saved) && ltb 0 (Bitfield.count_set e.ours)
      then record e { last_saved = now; saved = some (Resume.save c.meta.info_hash e.ours) }
      else e

  unfoldable pub housekeeping : ℕ → Engine → Engine
  unfolding tend_all bury choke_when_due
  housekeeping now e =
      let (e', dead) = tend_all now (ids_of e.peers) e in
      save_when_due now (choke_when_due now (bury dead e'))

module _ (sha1 : Bytes → Bytes) (c : Context) where
  -- Whether the piece on the disk is good.
  unfoldable pub piece_good : ℕ → Result Bytes Storage.Error → Bool
  unfolding verify_piece
  piece_good index (ok block) = verify_piece sha1 c block index
  piece_good index (err _) = false

  unfoldable pub recheck : ℕ → Engine → Engine × ℕ
  unfolding piece_good
  recheck index e =
      if piece_good index (Storage.read_piece c.storage e.disk index) then (e, 0) else (
        record e {
          ours = Bitfield.clear e.ours index;
          downloaded = e.downloaded - piece_size c.storage index;
        },
        1,
      )

  -- The loop from a piece on, with how many there are still.
  unfoldable pub check_from : ℕ → ℕ → Engine → Engine × ℕ
  unfolding recheck
  check_from zero index e = (e, 0)
  check_from (suc n) index e =
      let (e', bad) = recheck index e in
      let (e'', more) = check_from n (index + 1) e' in (e'', bad + more)

  unfoldable pub final_check : Engine → Engine × ℕ
  unfolding check_from
  final_check e = check_from (total_pieces c) 0 e
