-- ===== src/Engine/Download.antt =====
-- A whole download: `download` of engine.rs, from the first state of the engine to its end. `opened` is what
-- the allocation of the files leaves on the disk, or nothing where it failed; `stored` is the resume file.
pub mod Verified
pub mod Start
use btget.Prelude.{
  ℕ, zero, suc, ◌+◌, ◌-◌, Bool, true, false, not, ◌&&◌, List, [], ◌∷◌, ◌++◌, Option, none, some,
  ltb, leb, ◌==◌, if◌then◌else◌, length, is_empty, Bytes, Result, ok, err,
}
use btget.Storage
use btget.Storage.{piece_size}
use btget.Trackers
use btget.Trackers.{new_timer}
use btget.Tracker.{AnnounceEvent, AnnounceRequest, AnnounceResponse, stopped, completed}
use btget.Pieces.Bitfield
use btget.Pieces.Bitfield.{Bitfield}
use btget.Pieces.Availability
use btget.Picker
use btget.Choke.{new_rotor}
use btget.Resume
use btget.Engine.State.{
  endgame_dup, choke_interval, optimistic_interval, Event, resumed, rechecking, complete,
  EngineError, no_trackers, io, incomplete, Context, Engine, total_pieces, emit,
}
use btget.Engine.Message.{verify_piece}
use btget.Engine.Rounds.{final_check}
use btget.Engine.Main.{World, Turn, Progress, going, learn, announce, round}
use btget.Engine.Main as Main

-- The download with its count of rechecks, or its end.
pub data Phase {ℓ} (S : Type ℓ) : Type ℓ where
  running : ℕ → World S → Phase S
  finished : World S → Option EngineError → Phase S

unfoldable pub fresh_engine : Context → ℕ → List Bytes → Engine
fresh_engine c now disk = record {
  disk = disk;
  ours = Bitfield.new (total_pieces c);
  availability = Availability.new (total_pieces c);
  picker = Picker.new endgame_dup;
  peers = [];
  queue = [];
  known = [];
  connecting = 0;
  downloaded = 0;
  uploaded = 0;
  trackers = c.meta.trackers;
  timer = new_timer;
  rotor = new_rotor optimistic_interval;
  last_choke = now - choke_interval;
  empty_rounds = 0;
  saved = none;
  last_saved = now;
  events = [];
}

module _ {ℓ} {S : Type ℓ} (sha1 : Bytes → Bytes) (c : Context)
    (ask_tracker : AnnounceRequest → S → Bytes → S × Result AnnounceResponse Trackers.Error) where
  -- A piece of the resume file counts where it is good on the disk.
  abbrev pub resume_read : ℕ → Engine → Result Bytes Storage.Error → Engine
  unfolding verify_piece
  resume_read index e (err _) = e
  resume_read index e (ok block) =
      if verify_piece sha1 c block index
      then record e { ours = Bitfield.set e.ours index; downloaded = e.downloaded + length block }
      else e

  abbrev pub resume_piece : Bitfield → ℕ → Engine → Engine
  unfolding resume_read
  resume_piece have index e =
      if Bitfield.has have index
      then resume_read index e (Storage.read_piece c.storage e.disk index)
      else e

  unfoldable pub resume_from : Bitfield → ℕ → ℕ → Engine → Engine
  unfolding resume_piece
  resume_from have zero index e = e
  resume_from have (suc n) index e = resume_from have n (index + 1) (resume_piece have index e)

  abbrev pub told_resumed : Engine → Engine
  told_resumed e =
      if ltb 0 (Bitfield.count_set e.ours)
      then emit (resumed (Bitfield.count_set e.ours) (total_pieces c) e.downloaded) e
      else e

  abbrev pub resume : Option Bitfield → Engine → Engine
  unfolding resume_from
  resume none e = e
  resume (some have) e = told_resumed (resume_from have (total_pieces c) 0 e)

  abbrev pub begin_with : ℕ → Option Bytes → S → Option (List Bytes) → Result (World S) EngineError
  unfolding fresh_engine resume learn
  begin_with now stored net none = err io
  begin_with now stored net (some disk) =
      let e = learn c.bootstrap_peers (record (fresh_engine c now disk) { saved = stored }) in
      ok (record {
        engine = resume (Resume.load stored c.meta.info_hash (total_pieces c)) e;
        net = net;
        next_id = 0;
        dialing = [];
      })

  -- Everything before the first round.
  unfoldable pub begin : ℕ → Option Bytes → S → Option (List Bytes) → Result (World S) EngineError
  unfolding begin_with
  begin now stored net opened =
      if is_empty c.meta.trackers && is_empty c.bootstrap_peers
      then err no_trackers
      else begin_with now stored net opened

  -- Everything after the last round: the peers are let go, and the trackers are told.
  abbrev pub finish : World S → Option EngineError → Phase S
  unfolding announce
  finish w none =
      let e : Engine = record w.engine { peers = []; saved = none } in
      let w' = (announce sha1 c ask_tracker completed (record w { engine = e })).0 in
      finished (record w' { engine = emit complete w'.engine }) none
  finish w (some x) =
      let e : Engine = record w.engine {
        peers = [];
        saved = some (Resume.save c.meta.info_hash w.engine.ours);
      } in
      finished (announce sha1 c ask_tracker stopped (record w { engine = e })).0 (some x)

  -- The final check has found this many bad pieces: the loop is run again, twice at most.
  abbrev pub rechecked : ℕ → World S → Engine × ℕ → Phase S
  unfolding finish
  rechecked rechecks w (e, bad) =
      let again : World S = record w { engine = emit (rechecking bad) e } in
      if bad == 0
      then finish (record w { engine = e }) none
      else if ltb 2 (rechecks + 1)
      then finish again (some incomplete)
      else running (rechecks + 1) (record again { next_id = 0 })

  abbrev pub after_run : ℕ → World S → Option EngineError → Phase S
  unfolding rechecked final_check
  after_run rechecks w (some x) = finish w (some x)
  after_run rechecks w none = rechecked rechecks w (final_check sha1 c w.engine)

  abbrev pub after_round : ℕ → Progress S → Phase S
  unfolding after_run
  after_round rechecks (going w) = running rechecks w
  after_round rechecks (Main.stopped w x) = after_run rechecks w x

  unfoldable pub step : Turn → Phase S → Phase S
  unfolding after_round round
  step t (running rechecks w) = after_round rechecks (round sha1 c ask_tracker t w)
  step t (finished w x) = finished w x

  unfoldable pub continued : List Turn → Phase S → Phase S
  unfolding step
  continued [] p = p
  continued (t ∷ turns) p = continued turns (step t p)

  abbrev pub started : List Turn → Result (World S) EngineError → Result (Phase S) EngineError
  unfolding continued
  started turns (err x) = err x
  started turns (ok w) = ok (continued turns (running 0 w))

  -- The download over as many rounds as there are turns.
  unfoldable pub download :
      ℕ → Option Bytes → S → Option (List Bytes) → List Turn → Result (Phase S) EngineError
  unfolding begin started
  download now stored net opened turns = started turns (begin now stored net opened)
