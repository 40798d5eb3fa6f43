-- ===== src/Engine/State.antt =====
-- The state of the engine of engine.rs. `Peers` stands for the map from ids to peers, its order for
-- the order in which the map is gone through. A channel to a peer's writing thread is whether it is
-- open, and what was sent into it; a reason of a failure is left out.
use btget.Prelude.{
  ℕ, ◌+◌, ◌*◌, ◌^◌, ◌%◌, Bool, true, false, List, [], ◌∷◌, ◌++◌, Option, none, some, map, ◌==◌,
  if◌then◌else◌, length, replicate, Bytes,
}
use btget.Prelude.Address.{Address}
use btget.Metainfo.{Metainfo}
use btget.Storage.{Storage, Segment}
use btget.Peer.{Message}
use btget.Peer.State.{PeerState}
use btget.Pieces.Bitfield.{Bitfield}
use btget.Pieces.Availability.{Availability}
use btget.Picker.{PiecePicker}
use btget.Requests.{RequestPipeline, piece_blocks}
use btget.Choke.{OptimisticRotor}
use btget.Trackers.{AnnounceTimer, second}

abbrev pub pipeline_depth : ℕ
pipeline_depth = 32

abbrev pub block_timeout : ℕ
block_timeout = 30 * second

abbrev pub max_empty_rounds : ℕ
max_empty_rounds = 5

abbrev pub max_verify_failures : ℕ
max_verify_failures = 2

abbrev pub endgame_dup : ℕ
endgame_dup = 2

abbrev pub regular_unchoke_slots : ℕ
regular_unchoke_slots = 3

abbrev pub choke_interval : ℕ
choke_interval = 10 * second

abbrev pub optimistic_interval : ℕ
optimistic_interval = 30 * second

abbrev pub snub_timeout : ℕ
snub_timeout = 90 * second

abbrev pub max_served_block : ℕ
max_served_block = 2 ^ 17

abbrev pub save_interval : ℕ
save_interval = 20 * second

pub record PieceJob : Type 0 where
  pub index : ℕ
  pub buffer : Bytes
  pub received : ℕ
  pub pending : List (ℕ × ℕ)
  pub failures : ℕ

unfoldable pub start : ℕ → ℕ → PieceJob
start index size = record {
  index = index;
  buffer = replicate size 0;
  received = 0;
  pending = piece_blocks size;
  failures = 0;
}

unfoldable pub restart : PieceJob → PieceJob
restart job = record job {
  received = 0;
  pending = piece_blocks (length job.buffer);
  failures = job.failures + 1;
}

unfoldable pub done : PieceJob → Bool
done job = job.received == length job.buffer

pub record Peer : Type 0 where
  pub tx_open : Bool
  pub sent : List Message
  pub state : PeerState
  pub theirs : Bitfield
  pub theirs_known : Bool
  pub job : Option PieceJob
  pub pipeline : RequestPipeline
  pub downloaded_from : ℕ
  pub last_useful : ℕ

-- `Sender::send`: whether the message was taken.
abbrev pub send_into : Bool → Peer → Message → Peer × Bool
send_into true p m = (record p { sent = p.sent ++ m ∷ [] }, true)
send_into false p m = (p, false)

abbrev pub send : Peer → Message → Peer × Bool
send p m = send_into p.tx_open p m

abbrev pub Peers : Type 0
Peers = List (ℕ × Peer)

unfoldable pub get_peer : ℕ → Peers → Option Peer
get_peer id [] = none
get_peer id ((j, p) ∷ ps) = if j == id then some p else get_peer id ps

unfoldable pub set_peer : ℕ → Peer → Peers → Peers
set_peer id q [] = (id, q) ∷ []
set_peer id q ((j, p) ∷ ps) = if j == id then (id, q) ∷ ps else (j, p) ∷ set_peer id q ps

unfoldable pub delete_peer : ℕ → Peers → Peers
delete_peer id [] = []
delete_peer id ((j, p) ∷ ps) = if j == id then ps else (j, p) ∷ delete_peer id ps

pub data Event : Type 0 where
  announced : ℕ → Event
  announce_failed : Bytes → Event
  connected : Address → Event
  peer_failed : Address → Event
  peers_changed : ℕ → Event
  piece_done : ℕ → ℕ → ℕ → Event
  rechecking : ℕ → Event
  resumed : ℕ → ℕ → ℕ → Event
  complete : Event

pub data EngineError : Type 0 where
  no_trackers no_peers io incomplete : EngineError

-- What stays the same through a download: `meta`, the storage, which of its writes fail, and the
-- configuration.
pub record Context : Type 0 where
  pub meta : Metainfo
  pub storage : Storage
  pub refuses : List Bytes → Segment → Option ℕ
  pub max_peers : ℕ
  pub peer_id : Bytes
  pub port : ℕ
  pub bootstrap_peers : List Address

pub record Engine : Type 0 where
  pub disk : List Bytes
  pub ours : Bitfield
  pub availability : Availability
  pub picker : PiecePicker
  pub peers : Peers
  pub queue : List Address
  pub known : List Address
  pub connecting : ℕ
  pub downloaded : ℕ
  pub uploaded : ℕ
  pub trackers : List (List Bytes)
  pub timer : AnnounceTimer
  pub rotor : OptimisticRotor
  pub last_choke : ℕ
  pub empty_rounds : ℕ
  pub saved : Option Bytes
  pub last_saved : ℕ
  pub events : List Event

-- `pieces.len() as u32`.
abbrev pub total_pieces : Context → ℕ
total_pieces c = length c.meta.pieces % 2 ^ 32

-- `Storage::from_metainfo`, without the paths.
abbrev pub storage_of : Metainfo → Storage
storage_of meta = record {
  lengths = map (λ file. file.len) meta.files;
  piece_length = meta.piece_length;
  total = meta.total_length;
}

abbrev pub emit : Event → Engine → Engine
emit event e = record e { events = e.events ++ event ∷ [] }
