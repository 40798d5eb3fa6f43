-- ===== src/Engine/Main/Rounds.antt =====
-- A round of the main loop keeps the invariant.
use btget.Prelude.{
  ◌+◌, ◌^◌, ◌<◌, ◌≡◌, refl, ◌||◌, List, [], ◌∷◌, none, some, leb, if_either, Bytes, Result, ok, err,
}
use btget.Prelude.Address.{Address, knows}
use btget.Trackers
use btget.Trackers.{ready, after_failure}
use btget.Tracker.{AnnounceEvent, AnnounceRequest, AnnounceResponse}
use btget.Pieces.Bitfield
use btget.Engine.State.{max_empty_rounds, Context, Engine, EngineError, no_peers, io}
use btget.Engine.Main.{
  World, Turn, Progress, going, stopped, starved, announce_event, learn, announce, empty_round,
  responded, Prepared, early, listening, listen, answered, prepared, listened, round, next_round,
  rounds,
}
use btget.Engine.Main.Quiet.{announce-IsQuiet, next_id-announce, dialing-announce}
use btget.Engine.Main.Sound.{IsSound, same-IsSound, connect_all-IsSound}
use btget.Engine.Main.Inputs.{IsPossible, IsSoundAt, handled-IsSound}

module _ {ℓ} {S : Type ℓ} (sha1 : Bytes → Bytes) (c : Context)
    (ask_tracker : AnnounceRequest → S → Bytes → S × Result AnnounceResponse Trackers.Error)
    (few : c.max_peers + 1 < 2 ^ 32) where
  abbrev Sound : World S → Type 0
  Sound w = IsSound sha1 c ask_tracker w

  -- The invariant where the first half of a round ends, and that the input that comes is possible there.
  IsSoundEarly : Prepared S → Type 0
  IsSoundEarly (early p) = (IsSoundAt sha1 c ask_tracker few) p
  IsSoundEarly (listening w) = Sound w

  learn-IsSound :
      (w : World S) (addresses : List Address) (e : Engine)
      → Sound (record w { engine = e })
      → Sound (record w { engine = learn addresses e })
  unfolding learn
  learn-IsSound w [] e v = v
  learn-IsSound w (a ∷ addresses) e v = learn-IsSound w addresses _ (
      if_either (λ (r : Engine). Sound (record w { engine = r })) (knows a e.known) v
        (same-IsSound sha1 c ask_tracker (record w { engine = e }) _ refl refl refl refl refl refl
          v))

  announce-IsSound :
      (event : AnnounceEvent) (w : World S)
      → Sound w
      → Sound (announce sha1 c ask_tracker event w).0
  announce-IsSound event w v =
      let q = announce-IsQuiet sha1 c ask_tracker event w in
      same-IsSound sha1 c ask_tracker w (announce sha1 c ask_tracker event w).0 q.peers
        q.availability q.picker q.connecting (next_id-announce sha1 c ask_tracker event w)
        (dialing-announce sha1 c ask_tracker event w) v

  -- Changes of the engine that the invariant does not see.
  quiet-IsSound :
      (w : World S) (e : Engine)
      → e.peers ≡ w.engine.peers
      → e.availability ≡ w.engine.availability
      → e.picker ≡ w.engine.picker
      → e.connecting ≡ w.engine.connecting
      → Sound w
      → Sound (record w { engine = e })
  quiet-IsSound w e p a k n v =
      same-IsSound sha1 c ask_tracker w (record w { engine = e }) p a k n refl refl v

  empty_round-IsSound :
      (x : EngineError) (w : World S)
      → Sound w
      → (IsSoundAt sha1 c ask_tracker few) (empty_round sha1 c ask_tracker x w)
  empty_round-IsSound x w v =
      if_either (IsSoundAt sha1 c ask_tracker few)
        (leb max_empty_rounds (w.engine.empty_rounds + 1)) tt
        (same-IsSound sha1 c ask_tracker w _ refl refl refl refl refl refl v)

  listen-IsSound : (w : World S) → Sound w → IsSoundEarly (listen sha1 c ask_tracker w)
  unfolding listen IsSoundEarly
  listen-IsSound w v = connect_all-IsSound sha1 c ask_tracker w.engine.queue w v

  answered-IsSound :
      (t : Turn) (w : World S) (r : Result AnnounceResponse Trackers.Error)
      → Sound w
      → IsSoundEarly (answered sha1 c ask_tracker t (w, r))
  unfolding answered responded IsSoundEarly
  answered-IsSound t w (ok response) v =
      let e = responded sha1 c ask_tracker t.answered_at response w.engine in
      let w' : World S = record w { engine = e } in
      let v' : Sound w' =
        learn-IsSound w response.peers _
          (same-IsSound sha1 c ask_tracker w _ refl refl refl refl refl refl v) in
      if_either IsSoundEarly (starved e) (empty_round-IsSound no_peers w' v') (
        listen-IsSound (record w { engine = record e { empty_rounds = 0 } })
          (same-IsSound sha1 c ask_tracker w' _ refl refl refl refl refl refl v'))
  answered-IsSound t w (err x) v =
      let w' : World S = record w {
        engine = record w.engine { timer = after_failure w.engine.timer t.answered_at };
      } in
      let v' : Sound w' = same-IsSound sha1 c ask_tracker w w' refl refl refl refl refl refl v in
      if_either IsSoundEarly (starved w.engine) (empty_round-IsSound io w' v')
        (listen-IsSound w' v')

  prepared-IsSound :
      (t : Turn) (w : World S) → Sound w → IsSoundEarly (prepared sha1 c ask_tracker t w)
  unfolding prepared IsSoundEarly
  prepared-IsSound t w v =
      let a = announce sha1 c ask_tracker (announce_event w.engine) w in
      if_either IsSoundEarly (Bitfield.is_complete w.engine.ours) v (
        if_either IsSoundEarly (ready w.engine.timer t.now || starved w.engine)
          (answered-IsSound t a.0 a.1 (announce-IsSound (announce_event w.engine) w v))
          (listen-IsSound w v))

  -- The input that a round meets is possible where it listens.
  abbrev pub IsMet : Turn → Prepared S → Type 0
  IsMet t (early p) = Unit
  IsMet t (listening w) = IsPossible t.input w.dialing

  listened-IsSound :
      (t : Turn) (p : Prepared S)
      → IsSoundEarly p
      → IsMet t p
      → (IsSoundAt sha1 c ask_tracker few) (listened sha1 c ask_tracker t p)
  unfolding listened IsSoundEarly
  listened-IsSound t (early p) v h = v
  listened-IsSound t (listening w) v h = handled-IsSound sha1 c ask_tracker few t t.input w v h

  round-IsSound :
      (t : Turn) (w : World S)
      → Sound w
      → IsMet t (prepared sha1 c ask_tracker t w)
      → (IsSoundAt sha1 c ask_tracker few) (round sha1 c ask_tracker t w)
  unfolding round
  round-IsSound t w v h =
      listened-IsSound t (prepared sha1 c ask_tracker t w) (prepared-IsSound t w v) h

  abbrev pub IsPlayedOn : (World S → Type 0) → Progress S → Type 0
  IsPlayedOn P (going w) = P w
  IsPlayedOn P (stopped w x) = Unit

  -- The input of each round is possible where the round meets it.
  abbrev pub IsPlayed : List Turn → World S → Type 0
  IsPlayed [] w = Unit
  IsPlayed (t ∷ turns) w =
      IsMet t (prepared sha1 c ask_tracker t w)
      × IsPlayedOn (λ w'. IsPlayed turns w') (round sha1 c ask_tracker t w)

  next_round-IsSound :
      (turns : List Turn) (p : Progress S)
      → ((w : World S)
          → Sound w
          → IsPlayed turns w
          → (IsSoundAt sha1 c ask_tracker few) (rounds sha1 c ask_tracker turns w))
      → (IsSoundAt sha1 c ask_tracker few) p
      → IsPlayedOn (λ w'. IsPlayed turns w') p
      → (IsSoundAt sha1 c ask_tracker few)
          (next_round sha1 c ask_tracker (λ w'. rounds sha1 c ask_tracker turns w') p)
  next_round-IsSound turns (going w) k v h = k w v h
  next_round-IsSound turns (stopped w none) k v h = v
  next_round-IsSound turns (stopped w (some x)) k v h = tt

  -- The rounds of a run keep the invariant, whatever inputs they meet that are possible there,
  -- where the configuration allows fewer than 2^32 - 1 peers.
  pub rounds-IsSound :
      (turns : List Turn) (w : World S)
      → Sound w
      → IsPlayed turns w
      → (IsSoundAt sha1 c ask_tracker few) (rounds sha1 c ask_tracker turns w)
  unfolding rounds
  rounds-IsSound [] w v h = v
  rounds-IsSound (t ∷ turns) w v h =
      next_round-IsSound turns (round sha1 c ask_tracker t w) (rounds-IsSound turns)
        (round-IsSound t w v h.0) h.1
