-- ===== src/Engine/Message.antt =====
-- What the engine does with an input: `handle` of engine.rs. SHA-1 is a parameter.
pub mod Told
pub mod Finish
pub mod Count
pub mod Inputs
pub mod Within
use btget.Prelude.{
  ℕ, zero, suc, ◌+◌, ◌-◌, ◌%◌, ◌^◌, Bool, true, false, not, ◌&&◌, ◌||◌, List, [], ◌∷◌, ◌++◌, Option,
  none, some, map, ltb, leb, ◌==◌, if◌then◌else◌, length, take, drop, get_or, Bytes, bytes_eq,
  Result, ok, err,
}
use btget.Prelude.Address.{Address}
use btget.Storage
use btget.Storage.{read_block, write_block}
use btget.Peer.{Message, choke, have, bitfield, request, piece, cancel}
use btget.Peer.State.{PeerState, new_state, on_message as on_state, may_upload}
use btget.Pieces.Bitfield
use btget.Pieces.Bitfield.{Bitfield, BitfieldError}
use btget.Pieces.Availability
use btget.Pieces.Availability.{Availability}
use btget.Picker
use btget.Requests
use btget.Requests.{BlockRequest}
use btget.Engine.State.{
  pipeline_depth, block_timeout, max_verify_failures, max_served_block, PieceJob, restart, done,
  Peer, send, Peers, get_peer, set_peer, delete_peer, Event, connected, peer_failed, piece_done,
  EngineError, io, Context, Engine, total_pieces, emit,
}

-- An engine after a call, with the error if the call failed.
abbrev pub Outcome : Type 0
Outcome = Engine × Option EngineError

abbrev pub abandon_job : Option PieceJob → Engine → Engine
abandon_job none e = e
abandon_job (some job) e = record e { picker = Picker.abandon e.picker job.index }

-- The availability without the bitfield of a peer, if it was known.
abbrev pub without : Bool → Bitfield → Availability → Availability
without true theirs a = Availability.remove_bitfield a theirs
without false theirs a = a

abbrev pub forget_peer : ℕ → Option Peer → Engine → Engine
forget_peer id none e = e
forget_peer id (some peer) e = abandon_job peer.job (record e {
  peers = delete_peer id e.peers;
  availability = without peer.theirs_known peer.theirs e.availability;
})

unfoldable pub remove_peer : ℕ → Engine → Engine
unfolding get_peer
remove_peer id e = forget_peer id (get_peer id e.peers) e

abbrev pub store : ℕ → Peer → Engine → Engine
store id peer e = record e { peers = set_peer id peer e.peers }

abbrev pub block_pair : BlockRequest → ℕ × ℕ
block_pair r = (r.begin, r.length)

abbrev pub works_on : ℕ → Option PieceJob → Bool
works_on index none = false
works_on index (some job) = job.index == index

-- The `Cancel`s that the requests under way are answered with.
unfoldable pub send_cancels : List BlockRequest → Peer → Peer
send_cancels [] p = p
send_cancels (r ∷ rs) p = send_cancels rs (send p (cancel r.piece r.begin r.length)).0

unfoldable pub drop_job : Peer → Peer
unfolding send_cancels
drop_job p =
    let (pipeline, blocks) = Requests.drain p.pipeline in
    record (send_cancels blocks (record p { pipeline = pipeline })) { job = none }

-- A peer is told that we have the piece, and stops to fetch it if it did.
unfoldable pub told : Bool → ℕ → Peer → Peer
unfolding drop_job
told stop index p = let q = (send p (have index)).0 in if stop then drop_job q else q

-- The loop of `finish_piece` over the peers.
unfoldable pub tell_have : ℕ → ℕ → Peers → Peers
unfolding told
tell_have id index [] = []
tell_have id index ((j, p) ∷ ps) =
    (j, told (not (j == id) && works_on index p.job) index p) ∷ tell_have id index ps

-- A connection comes with whether its channel is still open.
pub data Input : Type 0 where
  peer_connected : ℕ → Address → Bool → Input
  message_in : ℕ → Message → Input
  died : ℕ → Input
  connect_failed : Address → Input

module _ (sha1 : Bytes → Bytes) (c : Context) where
  unfoldable pub verify_piece : Bytes → ℕ → Bool
  verify_piece data_bytes index = bytes_eq (sha1 data_bytes) (get_or c.meta.pieces index [])

  -- A piece that was good, after its write.
  abbrev pub piece_written :
      ℕ → PieceJob → Engine → List Bytes × Result (Unit {0}) Storage.Error → Outcome
  unfolding tell_have
  piece_written id job e (disk, err _) = (record e { disk = disk }, some io)
  piece_written id job e (disk, ok _) =
      let ours = Bitfield.set e.ours job.index in
      (
        emit (piece_done job.index (Bitfield.count_set ours) (total_pieces c)) (record e {
          disk = disk;
          ours = ours;
          downloaded = e.downloaded + length job.buffer;
          picker = Picker.complete e.picker job.index;
          peers = tell_have id job.index e.peers;
        }),
        none,
      )

  unfoldable pub piece_verified : ℕ → PieceJob → Engine → Outcome
  unfolding piece_written
  piece_verified id job e =
      piece_written id job e (write_block c.refuses c.storage e.disk job.index 0 job.buffer)

  abbrev pub try_again : ℕ → PieceJob → Option Peer → Engine → Engine
  try_again id job none e = record e { picker = Picker.abandon e.picker job.index }
  try_again id job (some peer) e = store id (record peer { job = some (restart job) }) e

  unfoldable pub finish_piece : ℕ → PieceJob → Engine → Outcome
  unfolding verify_piece piece_verified remove_peer
  finish_piece id job e =
      if verify_piece job.buffer job.index
      then piece_verified id job e
      else if leb max_verify_failures (job.failures + 1)
      then (remove_peer id (record e { picker = Picker.abandon e.picker job.index }), none)
      else (try_again id job (get_peer id e.peers) e, none)

  abbrev pub bitfield_read : ℕ → Peer → Engine → Result Bitfield BitfieldError → Engine
  unfolding remove_peer
  bitfield_read id peer e (err _) = remove_peer id e
  bitfield_read id peer e (ok bits) =
      store id (record peer { theirs = bits; theirs_known = true })
        (record e {
          availability =
              Availability.add_bitfield (without peer.theirs_known peer.theirs e.availability) bits;
        })

  unfoldable pub received_bitfield : ℕ → Peer → Bytes → Engine → Engine
  unfolding bitfield_read
  received_bitfield id peer bytes e =
      bitfield_read id peer e (Bitfield.from_bytes bytes (total_pieces c))

  unfoldable pub received_have : ℕ → Peer → ℕ → Engine → Engine
  received_have id peer index e =
      if Bitfield.has peer.theirs index
      then e
      else store id (record peer { theirs = Bitfield.set peer.theirs index; theirs_known = true })
          (record e { availability = Availability.add_have e.availability index })

  -- The requests under way go back to the blocks that the job waits for.
  abbrev pub choked_job : ℕ → Peer → Option PieceJob → Engine → Engine
  choked_job id peer none e = e
  choked_job id peer (some job) e =
      let (pipeline, blocks) = Requests.drain peer.pipeline in
      store id
        (record peer {
          pipeline = pipeline;
          job = some (record job { pending = job.pending ++ map block_pair blocks });
        })
        e

  abbrev pub served : ℕ → ℕ → Engine → Peer × Bool → Engine
  served id len e (peer, true) = store id peer (record e { uploaded = e.uploaded + len })
  served id len e (peer, false) = store id peer e

  abbrev pub serve : ℕ → Peer → ℕ → ℕ → ℕ → Engine → Result Bytes Storage.Error → Engine
  serve id peer index begin len e (err _) = e
  serve id peer index begin len e (ok block) = served id len e (send peer (piece index begin block))

  unfoldable pub received_request : ℕ → Peer → ℕ → ℕ → ℕ → Engine → Engine
  received_request id peer index begin len e =
      if may_upload peer.state
        && (Bitfield.has e.ours index && (leb len max_served_block && ltb 0 len))
      then serve id peer index begin len e (read_block c.storage e.disk index begin len)
      else e

  -- `copy_from_slice` of a block that lies in the piece; one that does not is not counted.
  unfoldable pub put_block : ℕ → Bytes → PieceJob → PieceJob
  put_block begin block job =
      if leb (begin + length block) (length job.buffer)
      then record job {
        buffer = take begin job.buffer ++ (block ++ drop (begin + length block) job.buffer);
        received = job.received + length block;
      }
      else job

  -- A block that was asked for: the job is done, or goes on.
  unfoldable pub accept_block : ℕ → ℕ → Peer → PieceJob → ℕ → Bytes → Engine → Outcome
  unfolding put_block finish_piece
  accept_block now id peer job begin block e =
      let job' = put_block begin block job in
      let peer' = record peer {
        downloaded_from = peer.downloaded_from + length block;
        last_useful = now;
      } in
      if done job'
      then finish_piece id job' (store id (record peer' { job = none }) e)
      else (store id (record peer' { job = some job' }) e, none)

  abbrev pub completed :
      ℕ
      → ℕ
      → Peer
      → PieceJob
      → ℕ
      → Bytes
      → Engine
      → Requests.RequestPipeline × Option BlockRequest
      → Outcome
  unfolding accept_block
  completed now id peer job begin block e (pipeline, none) =
      (store id (record peer { pipeline = pipeline }) e, none)
  completed now id peer job begin block e (pipeline, some _) =
      accept_block now id (record peer { pipeline = pipeline }) job begin block e

  abbrev pub received_piece : ℕ → ℕ → Peer → Option PieceJob → ℕ → ℕ → Bytes → Engine → Outcome
  unfolding completed
  received_piece now id peer none index begin block e = (e, none)
  received_piece now id peer (some job) index begin block e =
      if job.index == index
      then completed now id peer job begin block e
          (Requests.complete peer.pipeline index begin (length block % 2 ^ 32))
      else (e, none)

  -- `on_message` for a peer that is there, whose state the message has changed already.
  unfoldable pub react : ℕ → ℕ → Peer → Message → Engine → Outcome
  unfolding received_bitfield received_have received_request received_piece
  react now id peer (bitfield bytes) e = (received_bitfield id peer bytes e, none)
  react now id peer (have index) e = (received_have id peer index e, none)
  react now id peer choke e = (choked_job id peer peer.job e, none)
  react now id peer (request index begin len) e = (received_request id peer index begin len e, none)
  react now id peer (piece index begin block) e =
      received_piece now id peer peer.job index begin block e
  react now id peer _ e = (e, none)

  abbrev pub message_of : ℕ → ℕ → Option Peer → Message → Engine → Outcome
  unfolding react
  message_of now id none m e = (e, none)
  message_of now id (some peer) m e =
      let peer' = record peer { state = on_state peer.state m } in
      react now id peer' m (store id peer' e)

  unfoldable pub on_message : ℕ → ℕ → Message → Engine → Outcome
  unfolding message_of
  on_message now id m e = message_of now id (get_peer id e.peers) m e

  -- A connected peer; its channel may be closed already.
  unfoldable pub new_peer : ℕ → Bool → Peer
  new_peer now tx_open = record {
    tx_open = tx_open;
    sent = [];
    state = new_state;
    theirs = Bitfield.new (total_pieces c);
    theirs_known = false;
    job = none;
    pipeline = Requests.new pipeline_depth block_timeout;
    downloaded_from = 0;
    last_useful = now;
  }

  unfoldable pub greet : Engine → Peer → Peer
  greet e peer =
      if ltb 0 (Bitfield.count_set e.ours) then (send peer (bitfield e.ours.bits)).0 else peer

  unfoldable pub handle : ℕ → Input → Engine → Outcome
  unfolding new_peer greet remove_peer on_message
  handle now (peer_connected id addr tx_open) e = (
    emit (connected addr)
        (store id (greet e (new_peer now tx_open)) (record e { connecting = e.connecting - 1 })),
    none,
  )
  handle now (connect_failed addr) e =
      (emit (peer_failed addr) (record e { connecting = e.connecting - 1 }), none)
  handle now (died id) e = (remove_peer id e, none)
  handle now (message_in id m) e = on_message now id m e
