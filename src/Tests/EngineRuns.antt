-- ===== src/Tests/EngineRuns.antt =====
-- A download of one piece of two bytes from one peer, and the theorems on the engine at concrete inputs.
use btget.Prelude.{
  ℕ, ◌+◌, ◌^◌, ◌<◌, ◌≡◌, refl, arith, true, false, Bool, List, [], ◌∷◌, none, some, Bytes, ascii,
  replicate, length, Result, ok, err,
}
use btget.Prelude.Address.{Address, knows}
use btget.Prelude.Bits.{count_ones}
use btget.Pieces.Bitfield
use btget.Resume.{load}
use btget.Engine.Main.Sound.{dials}
use btget.Peer.{Message, unchoke, bitfield, piece}
use btget.Metainfo.{Metainfo}
use btget.Trackers
use btget.Trackers.{io}
use btget.Tracker.{AnnounceRequest, AnnounceResponse}
use btget.Engine.State.{Context, storage_of, get_peer, EngineError}
use btget.Engine.Message.{Input, peer_connected, message_in}
use btget.Peer.Frame.{IsMessage}
use btget.Engine.Main.{
  World, Turn, Progress, going, stopped, Prepared, early, listening, prepared, round, rounds,
}
use btget.Engine.Main.Inputs.{IsSoundAt}
use btget.Engine.Main.Rounds.{IsMet, IsPlayedOn, IsPlayed}
use btget.Engine.Download.{fresh_engine, begin, download, Phase, finished}
use btget.Engine.Download.Verified.{IsOk, download-IsVerified}
use btget.Engine.Download.Start.{begin-IsSound, begin-rounds-IsSound}
use btget.Engine.Counted.{IsCounted, none_held}
use btget.Engine.Message.{handle}
use btget.Engine.Message.Finish.{IsKept}
use btget.Engine.Message.Inputs.{handle-IsKept}
use btget.Engine.Rounds.{housekeeping}
use btget.Engine.Rounds.Chokes.{housekeeping-IsCounted}
use btget.Engine.Main.Starved.{IsStarved, IsEmptyHanded, rounds-IsFailed}

abbrev meta : Metainfo
meta = record {
  trackers = (ascii "t" ∷ []) ∷ [];
  info_hash = replicate 20 1;
  name = ascii "f";
  piece_length = 2;
  pieces = (7 ∷ 9 ∷ []) ∷ [];
  files = record { path = ascii "f" ∷ []; len = 2 } ∷ [];
  total_length = 2;
}

abbrev peer_address : Address
peer_address = record { ip = 1 ∷ 2 ∷ 3 ∷ 4 ∷ []; port = 80 }

abbrev context : Context
context = record {
  meta = meta;
  storage = storage_of meta;
  refuses = λ disk seg. none;
  max_peers = 1;
  peer_id = replicate 20 2;
  port = 6881;
  bootstrap_peers = peer_address ∷ [];
}

-- Every piece is its own hash.
abbrev hash : Bytes → Bytes
hash bytes = bytes

-- No tracker answers.
abbrev silent :
    AnnounceRequest → Unit {0} → Bytes → Unit {0} × Result AnnounceResponse Trackers.Error
silent request s url = (s, err (io []))

abbrev turn : ℕ → Input → Turn
turn now input = record {
  now = now;
  answered_at = now;
  input = some input;
  input_at = now;
  tended_at = now;
}

abbrev after_unchoke : List Turn
after_unchoke = turn 3 (message_in 0 (piece 0 0 (7 ∷ 9 ∷ []))) ∷ []

abbrev after_bitfield : List Turn
after_bitfield = turn 2 (message_in 0 unchoke) ∷ after_unchoke

abbrev later : List Turn
later = turn 1 (message_in 0 (bitfield (128 ∷ []))) ∷ after_bitfield

abbrev turns : List Turn
turns = turn 0 (peer_connected 0 peer_address true) ∷ later

abbrev first_world : World (Unit {0})
first_world = record {
  engine = record (fresh_engine context 0 ((0 ∷ 0 ∷ []) ∷ [])) {
    known = peer_address ∷ [];
    queue = peer_address ∷ [];
  };
  net = tt;
  next_id = 0;
  dialing = [];
}

begun : begin hash context silent 0 none tt (some ((0 ∷ 0 ∷ []) ∷ [])) ≡ ok first_world
unfolding begin knows load
begun = refl

-- A round in which nothing comes in.
abbrev quiet : Turn
quiet = record { now = 4; answered_at = 4; input = none; input_at = 4; tended_at = 4 }

abbrev whole_run : List Turn
whole_run =
    turn 0 (peer_connected 0 peer_address true)
    ∷ turn 1 (message_in 0 (bitfield (128 ∷ [])))
    ∷ turn 2 (message_in 0 unchoke)
    ∷ turn 3 (message_in 0 (piece 0 0 (7 ∷ 9 ∷ [])))
    ∷ quiet
    ∷ []

few_pieces : length context.meta.pieces < 2 ^ 32
few_pieces = omega arith

-- The run ends well, with the piece in the file.
abbrev is_ended_well : Result (Phase (Unit {0})) EngineError → Bool
is_ended_well (ok (finished w none)) = true
is_ended_well _ = false

whole_run_ended :
    is_ended_well (download hash context silent 0 none tt (some ((0 ∷ 0 ∷ []) ∷ [])) whole_run)
    ≡ true
unfolding Bitfield.from_bytes Bitfield.is_complete Bitfield.missing Bitfield.new Bitfield.set
    Trackers.after_failure Trackers.announce btget.Engine.State.done btget.Engine.State.set_peer
    btget.Engine.State.start btget.Picker.is_active btget.Picker.new btget.Picker.pick
    btget.Prelude.Bits.set_bit btget.Prelude.Bits.test_bit btget.Prelude.bytes_eq
    btget.Requests.complete btget.Requests.expired btget.Requests.issue btget.Requests.new
    btget.Requests.piece_blocks btget.Storage.read_piece btget.Storage.write_block count_ones
    download handle knows load
whole_run_ended = refl

download-IsVerified_example :
    IsOk hash context silent
      (download hash context silent 0 none tt (some ((0 ∷ 0 ∷ []) ∷ [])) whole_run)
download-IsVerified_example =
    download-IsVerified hash context silent few_pieces 0 none tt (some ((0 ∷ 0 ∷ []) ∷ []))
      whole_run

few_enough : context.max_peers + 1 < 2 ^ 32
few_enough = omega arith

-- What a peer says is possible at any time.
said_at_any :
    (now id : ℕ) (m : Message) (p : Prepared (Unit {0}))
    → IsMessage m
    → IsMet hash context silent few_enough (turn now (message_in id m)) p
said_at_any now id m (early p) h = tt
said_at_any now id m (listening w) h = h

on_any :
    (rest : List Turn) (p : Progress (Unit {0}))
    → ((w : World (Unit {0})) → IsPlayed hash context silent few_enough rest w)
    → IsPlayedOn hash context silent few_enough
        (λ w. IsPlayed hash context silent few_enough rest w)
        p
on_any rest (going w) h = h w
on_any rest (stopped w x) h = tt

said :
    (now id : ℕ) (m : Message) (rest : List Turn)
    → IsMessage m
    → ((w : World (Unit {0})) → IsPlayed hash context silent few_enough rest w)
    → (w : World (Unit {0}))
    → IsPlayed hash context silent few_enough (turn now (message_in id m) ∷ rest) w
said now id m rest h k w = (said_at_any now id m _ h, on_any rest _ k)

first_input :
    IsMet hash context silent few_enough
      (turn 0 (peer_connected 0 peer_address true))
      (prepared hash context silent (turn 0 (peer_connected 0 peer_address true)) first_world)
unfolding Trackers.announce dials Bitfield.is_complete Bitfield.new count_ones fresh_engine prepared
first_input = refl

played : IsPlayed hash context silent few_enough turns first_world
played = (
  first_input,
  on_any later (round hash context silent (turn 0 (peer_connected 0 peer_address true)) first_world)
      (said 1 0 (bitfield (128 ∷ [])) after_bitfield (omega arith, tt)
        (said 2 0 unchoke after_unchoke tt (
          said 3 0 (piece 0 0 (7 ∷ 9 ∷ [])) []
            (omega arith, omega arith, (omega arith, (omega arith, tt))) (λ w. tt)))),
)

begin-rounds-IsSound_example :
    IsSoundAt hash context silent few_enough (rounds hash context silent turns first_world)
begin-rounds-IsSound_example =
    begin-rounds-IsSound hash context silent 0 none tt (some ((0 ∷ 0 ∷ []) ∷ [])) first_world turns
      few_enough begun played

first_counted : IsCounted 1 none_held first_world.engine
first_counted =
    (begin-IsSound hash context silent 0 none tt (some ((0 ∷ 0 ∷ []) ∷ [])) first_world
      begun).counted

handle-IsKept_example :
    IsKept 1 (handle hash context 0 (peer_connected 0 peer_address true) first_world.engine)
unfolding fresh_engine get_peer
handle-IsKept_example =
    handle-IsKept hash context 0 (peer_connected 0 peer_address true) first_world.engine
      first_counted (omega arith) refl

housekeeping-IsCounted_example : IsCounted 1 none_held (housekeeping context 5 first_world.engine)
housekeeping-IsCounted_example = housekeeping-IsCounted context 5 first_world.engine first_counted

abbrev lone_world : World (Unit {0})
lone_world = record first_world { engine = record first_world.engine { queue = [] } }

silent-IsEmptyHanded : IsEmptyHanded hash context silent
silent-IsEmptyHanded request s url response h = cc

lone-IsStarved : IsStarved lone_world.engine
unfolding fresh_engine Bitfield.is_complete Bitfield.new count_ones
lone-IsStarved = record { peers = refl; connecting = refl; queue = refl; incomplete = refl }

abbrev idle : Turn
idle = record { now = 0; answered_at = 0; input = none; input_at = 0; tended_at = 0 }

abbrev five_idle : List Turn
five_idle = idle ∷ idle ∷ idle ∷ idle ∷ idle ∷ []

rounds-IsFailed_example :
    (w : World (Unit {0})) × (x : EngineError) × (rounds hash context silent five_idle lone_world
      ≡ stopped w (some x))
unfolding fresh_engine
rounds-IsFailed_example =
    rounds-IsFailed hash context silent five_idle lone_world silent-IsEmptyHanded lone-IsStarved
      (omega arith) (omega arith)
