-- ===== src/Engine/Main.antt =====
-- The main loop of the engine: `run` of engine.rs. What the trackers answer is a parameter with a state of
-- its own, `S`. A `Turn` is what one round of the loop meets: the times at which it looks at the clock, and
-- the input that comes out of the channel, or that none came in time. The channel is never disconnected:
-- the engine keeps a sender of its own. The waiting of a second before a round that starts anew is left out.
pub mod Ends
pub mod Quiet
pub mod Sound
pub mod Starved
pub mod Inputs
pub mod Rounds
use btget.Prelude.{
  ℕ, zero, suc, ◌+◌, ◌-◌, Bool, true, false, not, ◌&&◌, ◌||◌, List, [], ◌∷◌, ◌++◌, Option, none,
  some, ltb, leb, ◌==◌, if◌then◌else◌, length, is_empty, Bytes, Result, ok, err,
}
use btget.Prelude.Address.{Address, address_eq, knows}
use btget.Trackers
use btget.Trackers.{new_timer, ready, after_success, after_failure}
use btget.Tracker.{AnnounceEvent, AnnounceRequest, AnnounceResponse, nothing, started}
use btget.Pieces.Bitfield
use btget.Engine.State.{
  max_empty_rounds, Peers, Event, announced, announce_failed, peers_changed, EngineError, no_peers,
  io, Context, Engine, emit,
}
use btget.Engine.Message.{Outcome, Input, peer_connected, message_in, died, connect_failed, handle}
use btget.Engine.Rounds.{housekeeping}

-- `dialing` are the connecting threads that have not told the engine of their success or failure: the id and
-- the address of each.
pub record World {ℓ} (S : Type ℓ) : Type ℓ where
  pub engine : Engine
  pub net : S
  pub next_id : ℕ
  pub dialing : List (ℕ × Address)

pub record Turn : Type 0 where
  pub now : ℕ
  pub answered_at : ℕ
  pub input : Option Input
  pub input_at : ℕ
  pub tended_at : ℕ

-- After a round: the loop goes on, or has returned.
pub data Progress {ℓ} (S : Type ℓ) : Type ℓ where
  going : World S → Progress S
  stopped : World S → Option EngineError → Progress S

unfoldable pub starved : Engine → Bool
starved e = is_empty e.peers && ((e.connecting == 0) && is_empty e.queue)

abbrev pub announce_event : Engine → AnnounceEvent
announce_event e = if (e.downloaded == 0) && is_empty e.known then started else nothing

-- The addresses that are not known are put into the queue.
unfoldable pub learn : List Address → Engine → Engine
learn [] e = e
learn (a ∷ addresses) e =
    learn addresses
      (if knows a e.known then e else record e { known = a ∷ e.known; queue = e.queue ++ a ∷ [] })

unfoldable pub emit_failures : List Bytes → Engine → Engine
emit_failures [] e = e
emit_failures (url ∷ urls) e = emit_failures urls (emit (announce_failed url) e)

-- The first half of a round: it has ended the round, or the loop listens to the channel.
pub data Prepared {ℓ} (S : Type ℓ) : Type ℓ where
  early : Progress S → Prepared S
  listening : World S → Prepared S

module _ {ℓ} {S : Type ℓ} (sha1 : Bytes → Bytes) (c : Context)
    (ask_tracker : AnnounceRequest → S → Bytes → S × Result AnnounceResponse Trackers.Error) where
  unfoldable pub request_of : Engine → AnnounceEvent → AnnounceRequest
  request_of e event = record {
    info_hash = c.meta.info_hash;
    peer_id = c.peer_id;
    port = c.port;
    uploaded = e.uploaded;
    downloaded = e.downloaded;
    left = c.meta.total_length - e.downloaded;
    event = event;
  }

  -- The announcer of `announce` notes the trackers that failed.
  abbrev pub noted :
      List Bytes
      → Bytes
      → S × Result AnnounceResponse Trackers.Error
      → (S × List Bytes) × Result AnnounceResponse Trackers.Error
  noted failures url (s, ok response) = ((s, failures), ok response)
  noted failures url (s, err x) = ((s, failures ++ url ∷ []), err x)

  abbrev pub announcer :
      AnnounceRequest
      → S × List Bytes
      → Bytes
      → (S × List Bytes) × Result AnnounceResponse Trackers.Error
  announcer request (s, failures) url = noted failures url (ask_tracker request s url)

  abbrev pub announce_done :
      World S
      → (S × List Bytes) × List (List Bytes) × Result AnnounceResponse Trackers.Error
      → World S × Result AnnounceResponse Trackers.Error
  unfolding emit_failures
  announce_done w ((s, failures), tiers, result) = (
    record w { net = s; engine = emit_failures failures (record w.engine { trackers = tiers }) },
    result,
  )

  unfoldable pub announce :
      AnnounceEvent → World S → World S × Result AnnounceResponse Trackers.Error
  unfolding announce_done request_of
  announce event w =
      announce_done w
        (Trackers.announce (announcer (request_of w.engine event)) (w.net, []) w.engine.trackers)

  -- A starved round: the loop gives up with the error, or starts anew.
  abbrev pub empty_round : EngineError → World S → Progress S
  empty_round x w =
      let rounds = w.engine.empty_rounds + 1 in
      let e : Engine = record w.engine { empty_rounds = rounds } in
      if leb max_empty_rounds rounds
      then stopped (record w { engine = e }) (some x)
      else going (record w { engine = record e { timer = new_timer } })

  -- `spawn_connector`, with what the loop does around it.
  abbrev pub spawned : Address → List Address → World S → World S
  spawned a queue w = record w {
    engine = record w.engine { queue = queue; connecting = w.engine.connecting + 1 };
    next_id = w.next_id + 1;
    dialing = (w.next_id, a) ∷ w.dialing;
  }

  -- The loop over the queue, which is `queue` by now.
  unfoldable pub connect_all : List Address → World S → World S
  connect_all [] w = record w { engine = record w.engine { queue = [] } }
  connect_all (a ∷ queue) w =
      let next = connect_all queue (spawned a queue w) in
      if ltb (w.engine.connecting + length w.engine.peers) c.max_peers
      then next
      else record w { engine = record w.engine { queue = a ∷ queue } }

  -- The thread that the input comes from has connected or failed.
  unfoldable pub without_id : ℕ → List (ℕ × Address) → List (ℕ × Address)
  without_id id [] = []
  without_id id ((j, a) ∷ l) = if j == id then l else (j, a) ∷ without_id id l

  unfoldable pub without_address : Address → List (ℕ × Address) → List (ℕ × Address)
  unfolding address_eq
  without_address addr [] = []
  without_address addr ((j, a) ∷ l) =
      if address_eq a addr then l else (j, a) ∷ without_address addr l

  abbrev pub arrived : Input → List (ℕ × Address) → List (ℕ × Address)
  unfolding without_id without_address
  arrived (peer_connected id addr b) l = without_id id l
  arrived (connect_failed addr) l = without_address addr l
  arrived _ l = l

  abbrev pub count_told : ℕ → Engine → Engine
  count_told before e =
      if length e.peers == before then e else emit (peers_changed (length e.peers)) e

  abbrev pub tended : Turn → ℕ → World S → Outcome → Progress S
  unfolding housekeeping
  tended t before w (e, some x) = stopped (record w { engine = e }) (some x)
  tended t before w (e, none) =
      going (record w { engine = count_told before (housekeeping c t.tended_at e) })

  abbrev pub handled : Turn → Option Input → World S → Progress S
  unfolding tended
  handled t none w = tended t (length w.engine.peers) w (w.engine, none)
  handled t (some input) w =
      tended t (length w.engine.peers) (record w { dialing = arrived input w.dialing })
        (handle sha1 c t.input_at input w.engine)

  abbrev pub responded : ℕ → AnnounceResponse → Engine → Engine
  unfolding learn
  responded at response e =
      let e' = emit (announced (length response.peers)) e in
      learn response.peers (record e' { timer = after_success e'.timer response.interval at })

  -- The loop over the queue, up to the waiting for an input.
  unfoldable pub listen : World S → Prepared S
  unfolding connect_all
  listen w = listening (connect_all w.engine.queue w)

  abbrev pub answered : Turn → World S × Result AnnounceResponse Trackers.Error → Prepared S
  unfolding listen starved responded
  answered t (w, ok response) =
      let e = responded t.answered_at response w.engine in
      if starved e
      then early (empty_round no_peers (record w { engine = e }))
      else listen (record w { engine = record e { empty_rounds = 0 } })
  answered t (w, err x) =
      let w' : World S = record w {
        engine = record w.engine { timer = after_failure w.engine.timer t.answered_at };
      } in
      if starved w.engine then early (empty_round io w') else listen w'

  unfoldable pub prepared : Turn → World S → Prepared S
  unfolding answered announce
  prepared t w =
      if Bitfield.is_complete w.engine.ours
      then early (stopped w none)
      else if ready w.engine.timer t.now || starved w.engine
      then answered t (announce (announce_event w.engine) w)
      else listen w

  abbrev pub listened : Turn → Prepared S → Progress S
  unfolding handled
  listened t (early p) = p
  listened t (listening w) = handled t t.input w

  -- One round of the loop.
  unfoldable pub round : Turn → World S → Progress S
  unfolding prepared listened
  round t w = listened t (prepared t w)

  -- The loop over as many rounds as there are turns.
  abbrev pub next_round : (World S → Progress S) → Progress S → Progress S
  next_round continue (going w) = continue w
  next_round continue (stopped w x) = stopped w x

  unfoldable pub rounds : List Turn → World S → Progress S
  unfolding round
  rounds [] w = going w
  rounds (t ∷ turns) w = next_round (λ w'. rounds turns w') (round t w)

  unfoldable pub run : List Turn → World S → Progress S
  unfolding rounds
  run turns w = rounds turns (record w { next_id = 0 })
