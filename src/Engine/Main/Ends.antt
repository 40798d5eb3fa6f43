-- ===== src/Engine/Main/Ends.antt =====
-- How the main loop ends: `run` returns without an error only where all pieces are there.
use btget.Prelude.{
  ℕ, ◌+◌, ◌≡◌, true, ◌||◌, Option, none, some, leb, if_either, length, Bytes, Bool-cases, inl, inr,
  Result, ok, err,
}
use btget.Trackers
use btget.Trackers.{ready, after_failure}
use btget.Tracker.{AnnounceRequest, AnnounceResponse}
use btget.Pieces.Bitfield
use btget.Engine.State.{max_empty_rounds, EngineError, no_peers, io, Context}
use btget.Engine.Message.{Outcome, Input, handle}
use btget.Engine.Main.{
  World, Turn, Progress, going, stopped, starved, announce_event, announce, empty_round, arrived,
  tended, handled, responded, Prepared, early, listening, listen, listened, prepared, answered,
  round,
}

-- A property of the worlds in which the loop may return without an error.
abbrev pub IsEnd {ℓ} : {S : Type ℓ} → (World S → Type 0) → Progress S → Type 0
IsEnd P (going w) = Unit
IsEnd P (stopped w none) = P w
IsEnd P (stopped w (some x)) = Unit

module _ {ℓ} {S : Type ℓ} (sha1 : Bytes → Bytes) (c : Context)
    (ask_tracker : AnnounceRequest → S → Bytes → S × Result AnnounceResponse Trackers.Error) where
  module _ (P : World S → Type 0) where
    tended-IsEnd :
        (t : Turn) (before : ℕ) (w : World S) (o : Outcome)
        → IsEnd P (tended sha1 c ask_tracker t before w o)
    unfolding tended
    tended-IsEnd t before w (e, some x) = tt
    tended-IsEnd t before w (e, none) = tt

    handled-IsEnd :
        (t : Turn) (o : Option Input) (w : World S) → IsEnd P (handled sha1 c ask_tracker t o w)
    unfolding handled
    handled-IsEnd t none w = tended-IsEnd t (length w.engine.peers) w (w.engine, none)
    handled-IsEnd t (some input) w =
        tended-IsEnd t (length w.engine.peers)
          (record w { dialing = arrived sha1 c ask_tracker input w.dialing })
          (handle sha1 c t.input_at input w.engine)

    -- The same of the first half of a round.
    abbrev IsEarlyEnd : Prepared S → Type 0
    IsEarlyEnd (early p) = IsEnd P p
    IsEarlyEnd (listening w) = Unit

    empty_round-IsEnd :
        (x : EngineError) (w : World S) → IsEnd P (empty_round sha1 c ask_tracker x w)
    empty_round-IsEnd x w =
        if_either (IsEnd P) (leb max_empty_rounds (w.engine.empty_rounds + 1)) tt tt

    listen-IsEarlyEnd : (w : World S) → IsEarlyEnd (listen sha1 c ask_tracker w)
    unfolding listen
    listen-IsEarlyEnd w = tt

    answered-IsEarlyEnd :
        (t : Turn) (a : World S × Result AnnounceResponse Trackers.Error)
        → IsEarlyEnd (answered sha1 c ask_tracker t a)
    unfolding answered
    answered-IsEarlyEnd t (w, ok response) =
        let e = responded sha1 c ask_tracker t.answered_at response w.engine in
        if_either IsEarlyEnd (starved e) (empty_round-IsEnd no_peers (record w { engine = e }))
          (listen-IsEarlyEnd (record w { engine = record e { empty_rounds = 0 } }))
    answered-IsEarlyEnd t (w, err x) =
        let failed : World S = record w {
          engine = record w.engine { timer = after_failure w.engine.timer t.answered_at };
        } in
        if_either IsEarlyEnd (starved w.engine) (empty_round-IsEnd io failed)
          (listen-IsEarlyEnd failed)

    listened-IsEnd :
        (t : Turn) (p : Prepared S) → IsEarlyEnd p → IsEnd P (listened sha1 c ask_tracker t p)
    unfolding listened
    listened-IsEnd t (early p) h = h
    listened-IsEnd t (listening w) h = handled-IsEnd t t.input w

  prepared-IsEarlyEnd :
      (t : Turn) (w : World S)
      → IsEarlyEnd
          (λ w'. Bitfield.is_complete w'.engine.ours ≡ true)
          (prepared sha1 c ask_tracker t w)
  unfolding prepared
  prepared-IsEarlyEnd t w =
      let P : World S → Type 0 = λ w'. Bitfield.is_complete w'.engine.ours ≡ true in
      elim (Bool-cases (Bitfield.is_complete w.engine.ours)) [
        | inl h ↦ rw h h
        | inr h ↦ rw h (
            if_either (IsEarlyEnd P) (ready w.engine.timer t.now || starved w.engine)
              (answered-IsEarlyEnd P t (announce sha1 c ask_tracker (announce_event w.engine) w))
              (listen-IsEarlyEnd P w))
      ]

  -- A round returns without an error only at once, and where all pieces are there.
  pub round-IsEnd :
      (t : Turn) (w : World S)
      → IsEnd (λ w'. Bitfield.is_complete w'.engine.ours ≡ true) (round sha1 c ask_tracker t w)
  unfolding round
  round-IsEnd t w =
      listened-IsEnd (λ w'. Bitfield.is_complete w'.engine.ours ≡ true) t
        (prepared sha1 c ask_tracker t w) (prepared-IsEarlyEnd t w)
