-- ===== src/Engine/Main/Quiet.antt =====
-- What the announce leaves as it is.
use btget.Prelude.{◌≡◌, refl, List, [], ◌∷◌, Bytes, Result}
use btget.Trackers
use btget.Tracker.{AnnounceEvent, AnnounceRequest, AnnounceResponse}
use btget.Engine.State.{announce_failed, Context, Engine, emit}
use btget.Engine.Main.{World, emit_failures, announcer, request_of, announce, announce_done}

-- The same but for the trackers, the timer and the events.
pub record IsQuiet (e e' : Engine) : Type 0 where
  pub disk : e'.disk ≡ e.disk
  pub ours : e'.ours ≡ e.ours
  pub availability : e'.availability ≡ e.availability
  pub picker : e'.picker ≡ e.picker
  pub peers : e'.peers ≡ e.peers
  pub queue : e'.queue ≡ e.queue
  pub known : e'.known ≡ e.known
  pub connecting : e'.connecting ≡ e.connecting
  pub empty_rounds : e'.empty_rounds ≡ e.empty_rounds

emit_failures-IsQuiet : (urls : List Bytes) (e : Engine) → IsQuiet e (emit_failures urls e)
unfolding emit_failures
emit_failures-IsQuiet [] e = record {
  disk = refl;
  ours = refl;
  availability = refl;
  picker = refl;
  peers = refl;
  queue = refl;
  known = refl;
  connecting = refl;
  empty_rounds = refl;
}
emit_failures-IsQuiet (url ∷ urls) e =
    let q = emit_failures-IsQuiet urls (emit (announce_failed url) e) in
    record {
      disk = q.disk;
      ours = q.ours;
      availability = q.availability;
      picker = q.picker;
      peers = q.peers;
      queue = q.queue;
      known = q.known;
      connecting = q.connecting;
      empty_rounds = q.empty_rounds;
    }

module _ {ℓ} {S : Type ℓ} (sha1 : Bytes → Bytes) (c : Context)
    (ask_tracker : AnnounceRequest → S → Bytes → S × Result AnnounceResponse Trackers.Error) where
  announce_done-IsQuiet :
      (w : World S) (s : S) (failures : List Bytes) (tiers : List (List Bytes))
      (r : Result AnnounceResponse Trackers.Error)
      → IsQuiet w.engine (announce_done sha1 c ask_tracker w ((s, failures), tiers, r)).0.engine
  unfolding announce_done
  announce_done-IsQuiet w s failures tiers r =
      let q = emit_failures-IsQuiet failures (record w.engine { trackers = tiers }) in
      record {
        disk = q.disk;
        ours = q.ours;
        availability = q.availability;
        picker = q.picker;
        peers = q.peers;
        queue = q.queue;
        known = q.known;
        connecting = q.connecting;
        empty_rounds = q.empty_rounds;
      }

  pub announce-IsQuiet :
      (event : AnnounceEvent) (w : World S)
      → IsQuiet w.engine (announce sha1 c ask_tracker event w).0.engine
  unfolding announce
  announce-IsQuiet event w =
      let r =
        Trackers.announce
          (announcer sha1 c ask_tracker (request_of sha1 c ask_tracker w.engine event)) (w.net, [])
          w.engine.trackers in
      announce_done-IsQuiet w r.0.0 r.0.1 r.1 r.2

  pub next_id-announce :
      (event : AnnounceEvent) (w : World S)
      → (announce sha1 c ask_tracker event w).0.next_id ≡ w.next_id
  unfolding announce announce_done
  next_id-announce event w = refl

  pub dialing-announce :
      (event : AnnounceEvent) (w : World S)
      → (announce sha1 c ask_tracker event w).0.dialing ≡ w.dialing
  unfolding announce announce_done
  dialing-announce event w = refl
