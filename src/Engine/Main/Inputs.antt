-- ===== src/Engine/Main/Inputs.antt =====
-- An input keeps the invariant of the main loop.
use btget.Prelude.{
  ℕ, ◌+◌, ◌^◌, ◌<◌, ◌≡◌, refl, ◌∙◌, Bool, true, false, List, Option, none, some, arith, ◌==◌,
  if_either, length, Bytes, Result,
}
use btget.Prelude.Address.{Address}
use btget.Peer.Frame.{IsMessage}
use btget.Trackers
use btget.Trackers.{ready, after_failure}
use btget.Tracker.{AnnounceRequest, AnnounceResponse}
use btget.Engine.State.{Peer, get_peer, set_peer, Context, Engine, total_pieces}
use btget.Engine.Tally.{get_peer-set_peer}
use btget.Engine.Counted.{IsCounted, none_held}
use btget.Engine.Message.{
  Outcome, Input, peer_connected, message_in, died, connect_failed, remove_peer, on_message, greet,
  new_peer, handle,
}
use btget.Engine.Message.Finish.{IsKept}
use btget.Engine.Message.Inputs.{IsInput, handle-IsKept}
use btget.Engine.Message.Within.{remove_peer-IsWithin, on_message-IsWithin}
use btget.Engine.Rounds.{housekeeping}
use btget.Engine.Rounds.Chokes.{housekeeping-IsCounted}
use btget.Engine.Rounds.Within.{housekeeping-IsWithin}
use btget.Engine.Main.{World, Turn, Progress, going, stopped, arrived, count_told, tended, handled}
use btget.Engine.Main.Sound.{
  dials, dials_to, length-set_peer_new, length-without_id, dials-without_id, without_id-IsOnce,
  length-without_address, dials-without_address, without_address-IsOnce, IsSound, same-IsSound,
  within-IsSound,
}

-- An input that the threads can send: a connection or its failure comes from a thread that is connecting, and
-- the fields of a message fit their words.
abbrev pub IsPossible : Option Input → List (ℕ × Address) → Type 0
IsPossible none l = Unit
IsPossible (some (peer_connected id addr b)) l = dials id l ≡ true
IsPossible (some (connect_failed addr)) l = dials_to addr l ≡ true
IsPossible (some (message_in id m)) l = IsMessage m
IsPossible (some (died id)) l = Unit

module _ {ℓ} {S : Type ℓ} (sha1 : Bytes → Bytes) (c : Context)
    (ask_tracker : AnnounceRequest → S → Bytes → S × Result AnnounceResponse Trackers.Error)
    (few : c.max_peers + 1 < 2 ^ 32) where
  abbrev Sound : World S → Type 0
  Sound w = IsSound sha1 c ask_tracker w

  -- The world after an input.
  abbrev taken : World S → Input → Engine → World S
  taken w input e = record w { engine = e; dialing = arrived sha1 c ask_tracker input w.dialing }

  connected-IsSound :
      (now id : ℕ) (addr : Address) (b : Bool) (w : World S)
      → Sound w
      → dials id w.dialing ≡ true
      → IsCounted
          (total_pieces c)
          none_held
          (handle sha1 c now (peer_connected id addr b) w.engine).0
      → Sound (
          taken w
            (peer_connected id addr b)
            (handle sha1 c now (peer_connected id addr b) w.engine).0)
  unfolding handle arrived
  connected-IsSound now id addr b w v h n =
      let q : Peer = greet sha1 c w.engine (new_peer sha1 c now b) in
      let was = v.threads id h in
      let rest = length-without_id sha1 c ask_tracker id w.dialing h in
      let more = length-set_peer_new id q w.engine.peers was.1 in
      let other : (j : ℕ)
          → id == j ≡ false
          → get_peer j w.engine.peers ≡ none
          → get_peer j (set_peer id q w.engine.peers) ≡ none =
        λ j ne g. get_peer-set_peer id j q w.engine.peers ∙ rw ne g in
      record {
        counted = n;
        connecting = omega (arith, v.connecting, rest);
        bounded = omega (arith, v.bounded, v.connecting, rest, more);
        fresh = λ j le. other j (ground (arith, was.0, le)) (v.fresh j le);
        threads = λ j t.
            let old = dials-without_id sha1 c ask_tracker id j w.dialing v.once t in
            ((v.threads j old.0).0, other j old.1 (v.threads j old.0).1);
        once = without_id-IsOnce sha1 c ask_tracker id w.dialing v.once;
      }

  failed-IsSound :
      (now : ℕ) (addr : Address) (w : World S)
      → Sound w
      → dials_to addr w.dialing ≡ true
      → IsCounted (total_pieces c) none_held (handle sha1 c now (connect_failed addr) w.engine).0
      → Sound (taken w (connect_failed addr) (handle sha1 c now (connect_failed addr) w.engine).0)
  unfolding handle arrived
  failed-IsSound now addr w v h n =
      let rest = length-without_address sha1 c ask_tracker addr w.dialing h in
      record {
        counted = n;
        connecting = omega (arith, v.connecting, rest);
        bounded = omega (arith, v.bounded);
        fresh = v.fresh;
        threads = λ j t. v.threads j (dials-without_address sha1 c ask_tracker addr j w.dialing t);
        once = without_address-IsOnce sha1 c ask_tracker addr w.dialing v.once;
      }

  handle-IsSound :
      (now : ℕ) (input : Input) (w : World S)
      → Sound w
      → IsPossible (some input) w.dialing
      → IsCounted (total_pieces c) none_held (handle sha1 c now input w.engine).0
      → Sound (taken w input (handle sha1 c now input w.engine).0)
  unfolding handle arrived
  handle-IsSound now (peer_connected id addr b) w v h n = connected-IsSound now id addr b w v h n
  handle-IsSound now (connect_failed addr) w v h n = failed-IsSound now addr w v h n
  handle-IsSound now (died id) w v h n =
      within-IsSound sha1 c ask_tracker w (record w { engine = remove_peer id w.engine }) v n
        (remove_peer-IsWithin id w.engine) refl refl
  handle-IsSound now (message_in id m) w v h n =
      within-IsSound sha1 c ask_tracker w
        (record w { engine = (on_message sha1 c now id m w.engine).0 }) v n
        (on_message-IsWithin sha1 c now id m w.engine) refl refl

  -- The invariant after a round that goes on.
  abbrev pub IsSoundAt : Progress S → Type 0
  IsSoundAt (going w) = Sound w
  IsSoundAt (stopped w none) = Sound w
  IsSoundAt (stopped w (some x)) = Unit

  count_told-IsSound :
      (before : ℕ) (w : World S) (e : Engine)
      → Sound (record w { engine = e })
      → Sound (record w { engine = count_told sha1 c ask_tracker before e })
  count_told-IsSound before w e v =
      if_either (λ (r : Engine). Sound (record w { engine = r })) (length e.peers == before) v
        (same-IsSound sha1 c ask_tracker (record w { engine = e }) _ refl refl refl refl refl refl
          v)

  tended-IsSound :
      (t : Turn) (before : ℕ) (w : World S) (o : Outcome)
      → (o.1 ≡ none → Sound (record w { engine = o.0 }))
      → IsSoundAt (tended sha1 c ask_tracker t before w o)
  unfolding tended
  tended-IsSound t before w (e, some x) v = tt
  tended-IsSound t before w (e, none) v =
      let w' : World S = record w { engine = e } in
      let h = housekeeping c t.tended_at e in
      count_told-IsSound before w h (
        within-IsSound sha1 c ask_tracker w' (record w { engine = h }) (v refl)
          (housekeeping-IsCounted c t.tended_at e (v refl).counted)
          (housekeeping-IsWithin c t.tended_at e) refl refl)

  input_fits :
      (o : Input) (w : World S)
      → Sound w
      → IsPossible (some o) w.dialing
      → IsInput sha1 c o w.engine
  input_fits (peer_connected id addr b) w v h = (v.threads id h).1
  input_fits (connect_failed addr) w v h = tt
  input_fits (died id) w v h = tt
  input_fits (message_in id m) w v h = h

  kept :
      (o : Outcome)
      → IsKept (total_pieces c) o
      → o.1 ≡ none
      → IsCounted (total_pieces c) none_held o.0
  kept (e, none) k h = k
  kept (e, some x) k h = cc

  pub handled-IsSound :
      (t : Turn) (o : Option Input) (w : World S)
      → Sound w
      → IsPossible o w.dialing
      → IsSoundAt (handled sha1 c ask_tracker t o w)
  unfolding handled
  handled-IsSound t none w v h =
      tended-IsSound t (length w.engine.peers) w (w.engine, none) (λ _. v)
  handled-IsSound t (some input) w v h =
      let o = handle sha1 c t.input_at input w.engine in
      let k =
        handle-IsKept sha1 c t.input_at input w.engine v.counted (omega (arith, v.bounded, few))
          (input_fits input w v h) in
      tended-IsSound t (length w.engine.peers)
        (record w { dialing = arrived sha1 c ask_tracker input w.dialing }) o
        (λ e. handle-IsSound t.input_at input w v h (kept o k e))
