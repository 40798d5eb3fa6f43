-- ===== src/Engine/Main/Starved.antt =====
-- A run without peers comes to an end.
use btget.Prelude.{
  ℕ, ◌+◌, ◌≤◌, ◌<◌, ◌≡◌, refl, sym, ap, ◌∙◌, subst, true, false, List, [], ◌∷◌, none, some, arith,
  leb, length, Bytes, Bool-cases, inl, inr, Result, ok, err,
}
use btget.Prelude.Address.{Address}
use btget.Trackers
use btget.Trackers.{ready, after_success, after_failure}
use btget.Trackers.Answers.{announce-answer}
use btget.Tracker.{AnnounceEvent, AnnounceRequest, AnnounceResponse}
use btget.Pieces.Bitfield
use btget.Engine.State.{
  max_empty_rounds, announced, emit, EngineError, no_peers, io, Context, Engine,
}
use btget.Engine.Main.{
  World, Turn, Progress, going, stopped, starved, announce_event, learn, request_of, announcer,
  noted, announce_done, announce, empty_round, responded, answered, prepared, listened, round,
  next_round, rounds,
}
use btget.Engine.Main.Quiet.{announce-IsQuiet}

-- No peers, nobody to connect to, and pieces missing.
pub record IsStarved (e : Engine) : Type 0 where
  pub peers : e.peers ≡ []
  pub connecting : e.connecting ≡ 0
  pub queue : e.queue ≡ []
  pub incomplete : Bitfield.is_complete e.ours ≡ false

IsStarved-starved : (e : Engine) → IsStarved e → starved e ≡ true
unfolding starved
IsStarved-starved e v = rw (v.peers, v.connecting, v.queue) refl

module _ {ℓ} {S : Type ℓ} (sha1 : Bytes → Bytes) (c : Context)
    (ask_tracker : AnnounceRequest → S → Bytes → S × Result AnnounceResponse Trackers.Error) where
  -- No tracker knows a peer.
  abbrev pub IsEmptyHanded : Type ℓ
  IsEmptyHanded =
      (request : AnnounceRequest) (s : S) (url : Bytes) (response : AnnounceResponse)
      → (ask_tracker request s url).1 ≡ ok response
      → response.peers ≡ []

  noted-answer :
      (failures : List Bytes) (url : Bytes) (a : S × Result AnnounceResponse Trackers.Error)
      → (noted sha1 c ask_tracker failures url a).1 ≡ a.1
  noted-answer failures url (s, ok response) = refl
  noted-answer failures url (s, err x) = refl

  announce-empty :
      (event : AnnounceEvent) (w : World S) (response : AnnounceResponse)
      → IsEmptyHanded
      → (announce sha1 c ask_tracker event w).1 ≡ ok response
      → response.peers ≡ []
  unfolding announce announce_done
  announce-empty event w response none_known h =
      announce-answer (announcer sha1 c ask_tracker (request_of sha1 c ask_tracker w.engine event))
        (λ (r : AnnounceResponse). r.peers ≡ [])
        (λ s url r e. none_known (request_of sha1 c ask_tracker w.engine event) s.0 url r (
          sym (
            noted-answer s.1 url
              (ask_tracker (request_of sha1 c ask_tracker w.engine event) s.0 url))
          ∙ e))
        (w.net, []) w.engine.trackers response h

  -- A round that leaves a starved engine with one empty round more and some to go, or ends the run with an
  -- error.
  abbrev IsEmptyRound : ℕ → Progress S → Type 0
  IsEmptyRound n (going w) =
      IsStarved w.engine × (w.engine.empty_rounds ≡ n + 1) × (n + 1 < max_empty_rounds)
  IsEmptyRound n (stopped w none) = ⊥
  IsEmptyRound n (stopped w (some x)) = Unit

  empty_round-IsEmptyRound :
      (x : EngineError) (w : World S)
      → IsStarved w.engine
      → IsEmptyRound w.engine.empty_rounds (empty_round sha1 c ask_tracker x w)
  empty_round-IsEmptyRound x w v =
      elim (Bool-cases (leb max_empty_rounds (w.engine.empty_rounds + 1))) [
        | inl h ↦ rw h tt
        | inr h ↦ rw h (
          record {
            peers = v.peers;
            connecting = v.connecting;
            queue = v.queue;
            incomplete = v.incomplete;
          },
          refl,
          ground (arith, h),
        )
      ]

  -- The engine after an answer, before it learns the addresses.
  abbrev after_answer : Turn → AnnounceResponse → World S → Engine
  after_answer t response w =
      let e = emit (announced (length response.peers)) w.engine in
      record e { timer = after_success e.timer response.interval t.answered_at }

  learn_none : (addresses : List Address) (e : Engine) → addresses ≡ [] → learn addresses e ≡ e
  unfolding learn
  learn_none [] e h = refl
  learn_none (a ∷ addresses) e h = cc

  answered-IsEmptyRound :
      (t : Turn) (w : World S) (r : Result AnnounceResponse Trackers.Error)
      → IsStarved w.engine
      → ((response : AnnounceResponse) → r ≡ ok response → response.peers ≡ [])
      → IsEmptyRound w.engine.empty_rounds
          (listened sha1 c ask_tracker t (answered sha1 c ask_tracker t (w, r)))
  unfolding listened answered responded learn
  answered-IsEmptyRound t w (ok response) v h =
      let e = responded sha1 c ask_tracker t.answered_at response w.engine in
      let w' : World S = record w { engine = e } in
      let same = learn_none response.peers (after_answer t response w) (h response refl) in
      let v' : IsStarved e = record {
        peers = ap (λ r. r.peers) same ∙ v.peers;
        connecting = ap (λ r. r.connecting) same ∙ v.connecting;
        queue = ap (λ r. r.queue) same ∙ v.queue;
        incomplete = ap (λ r. Bitfield.is_complete r.ours) same ∙ v.incomplete;
      } in
      rw (IsStarved-starved e v') (
        subst (λ n. IsEmptyRound n (empty_round sha1 c ask_tracker no_peers w'))
          (ap (λ r. r.empty_rounds) same) (empty_round-IsEmptyRound no_peers w' v'))
  answered-IsEmptyRound t w (err x) v h =
      let w' : World S = record w {
        engine = record w.engine { timer = after_failure w.engine.timer t.answered_at };
      } in
      rw (IsStarved-starved w.engine v) (
        empty_round-IsEmptyRound io w' (record {
          peers = v.peers;
          connecting = v.connecting;
          queue = v.queue;
          incomplete = v.incomplete;
        }))

  announced-IsStarved :
      (event : AnnounceEvent) (w : World S)
      → IsStarved w.engine
      → IsStarved (announce sha1 c ask_tracker event w).0.engine
  announced-IsStarved event w v =
      let q = announce-IsQuiet sha1 c ask_tracker event w in
      record {
        peers = q.peers ∙ v.peers;
        connecting = q.connecting ∙ v.connecting;
        queue = q.queue ∙ v.queue;
        incomplete = ap Bitfield.is_complete q.ours ∙ v.incomplete;
      }

  round-IsEmptyRound :
      (t : Turn) (w : World S)
      → IsEmptyHanded
      → IsStarved w.engine
      → IsEmptyRound w.engine.empty_rounds (round sha1 c ask_tracker t w)
  unfolding round prepared
  round-IsEmptyRound t w none_known v =
      let a = announce sha1 c ask_tracker (announce_event w.engine) w in
      let q = announce-IsQuiet sha1 c ask_tracker (announce_event w.engine) w in
      let done =
        subst
          (λ n. IsEmptyRound n (listened sha1 c ask_tracker t (answered sha1 c ask_tracker t a)))
          q.empty_rounds
          (answered-IsEmptyRound t a.0 a.1 (announced-IsStarved (announce_event w.engine) w v)
            (λ response h. announce-empty (announce_event w.engine) w response none_known h)) in
      elim (Bool-cases (ready w.engine.timer t.now)) [
        | inl h ↦ rw (v.incomplete, IsStarved-starved w.engine v, h) done
        | inr h ↦ rw (v.incomplete, IsStarved-starved w.engine v, h) done
      ]

  abbrev IsFailed : Progress S → Type ℓ
  IsFailed p = (w : World S) × (x : EngineError) × (p ≡ stopped w (some x))

  next_round-IsFailed :
      (turns : List Turn) (n : ℕ) (p : Progress S)
      → IsEmptyRound n p
      → ((w : World S)
          → IsStarved w.engine
          → (w.engine.empty_rounds ≡ n + 1) × (n + 1 < max_empty_rounds)
          → IsFailed (rounds sha1 c ask_tracker turns w))
      → IsFailed (next_round sha1 c ask_tracker (λ w'. rounds sha1 c ask_tracker turns w') p)
  next_round-IsFailed turns n (going w) h k = k w h.0 (h.1, h.2)
  next_round-IsFailed turns n (stopped w none) h k = absurd h
  next_round-IsFailed turns n (stopped w (some x)) h k = (w, x, refl)

  -- Without peers, connecting threads and addresses to connect to, with pieces missing, and with
  -- trackers that know no peer, the run gives up with an error within as many rounds as are left to
  -- the five empty ones it allows, whatever else the rounds meet.
  pub rounds-IsFailed :
      (turns : List Turn) (w : World S)
      → IsEmptyHanded
      → IsStarved w.engine
      → w.engine.empty_rounds < max_empty_rounds
      → max_empty_rounds ≤ w.engine.empty_rounds + length turns
      → (w' : World S) × (x : EngineError) × (rounds sha1 c ask_tracker turns w
          ≡ stopped w' (some x))
  unfolding rounds
  rounds-IsFailed [] w none_known v lt h = absurd (omega arith)
  rounds-IsFailed (t ∷ turns) w none_known v lt h =
      next_round-IsFailed turns w.engine.empty_rounds (round sha1 c ask_tracker t w)
        (round-IsEmptyRound t w none_known v)
        (λ w' v' n.
          rounds-IsFailed turns w' none_known v' (omega (arith, n.0, n.1)) (omega (arith, n.0, h)))
