-- ===== src/Engine/Download/Start.antt =====
-- The main loop starts in a state that keeps its invariant.
use btget.Prelude.{
  ℕ, zero, suc, ◌+◌, ◌^◌, ◌<◌, ◌≡◌, refl, ap, subst, Bool, ◌&&◌, List, [], ◌∷◌, Option, none, some,
  arith, ltb, if◌then◌else◌, if_either, is_empty, length-replicate, Bytes, Bool-cases, inl, inr,
  Result, ok, err,
}
use btget.Prelude.Address.{Address, knows}
use btget.Storage
use btget.Trackers
use btget.Tracker.{AnnounceRequest, AnnounceResponse}
use btget.Pieces.Bitfield
use btget.Pieces.Bitfield.{Bitfield}
use btget.Pieces.Bitfield.Laws.{get_or-replicate}
use btget.Pieces.Availability
use btget.Picker
use btget.Picker.{active_count}
use btget.Picker.Active as Active
use btget.Resume
use btget.Engine.State.{
  endgame_dup, no_trackers, get_peer, Context, Engine, EngineError, total_pieces,
}
use btget.Engine.Tally.{tally}
use btget.Engine.Message.{verify_piece}
use btget.Engine.Main.{World, Turn, learn, rounds}
use btget.Engine.Main.Sound.{dials, IsSound}
use btget.Engine.Main.Inputs.{IsSoundAt}
use btget.Engine.Main.Rounds.{IsPlayed, rounds-IsSound}
use btget.Engine.Download.{
  fresh_engine, resume_read, resume_piece, resume_from, resume, begin_with, begin,
}

-- No peers, no connecting threads, and nothing counted.
record IsFresh (total : ℕ) (e : Engine) : Type 0 where
  peers : e.peers ≡ []
  availability : e.availability ≡ Availability.new total
  picker : e.picker ≡ Picker.new endgame_dup
  connecting : e.connecting ≡ 0

count-new : (n i : ℕ) → Availability.count (Availability.new n) i ≡ 0
unfolding Availability.count Availability.new
count-new n i = get_or-replicate n i

learn-IsFresh :
    (total : ℕ) (addresses : List Address) (e : Engine)
    → IsFresh total e
    → IsFresh total (learn addresses e)
unfolding learn
learn-IsFresh total [] e v = v
learn-IsFresh total (a ∷ addresses) e v = learn-IsFresh total addresses _ (
    if_either (IsFresh total) (knows a e.known) v (record {
      peers = v.peers;
      availability = v.availability;
      picker = v.picker;
      connecting = v.connecting;
    }))

module _ {ℓ} {S : Type ℓ} (sha1 : Bytes → Bytes) (c : Context)
    (ask_tracker : AnnounceRequest → S → Bytes → S × Result AnnounceResponse Trackers.Error) where
  resume_read-IsFresh :
      (total index : ℕ) (e : Engine) (r : Result Bytes Storage.Error)
      → IsFresh total e
      → IsFresh total (resume_read sha1 c ask_tracker index e r)
  unfolding resume_read
  resume_read-IsFresh total index e (err x) v = v
  resume_read-IsFresh total index e (ok block) v =
      if_either (IsFresh total) (verify_piece sha1 c block index)
        (record {
          peers = v.peers;
          availability = v.availability;
          picker = v.picker;
          connecting = v.connecting;
        })
        v

  resume_from-IsFresh :
      (total : ℕ) (have : Bitfield) (n index : ℕ) (e : Engine)
      → IsFresh total e
      → IsFresh total (resume_from sha1 c ask_tracker have n index e)
  unfolding resume_from resume_piece
  resume_from-IsFresh total have zero index e v = v
  resume_from-IsFresh total have (suc n) index e v =
      resume_from-IsFresh total have n (index + 1) _ (
        if_either (IsFresh total) (Bitfield.has have index)
          (resume_read-IsFresh total index e (Storage.read_piece c.storage e.disk index) v) v)

  resume-IsFresh :
      (total : ℕ) (o : Option Bitfield) (e : Engine)
      → IsFresh total e
      → IsFresh total (resume sha1 c ask_tracker o e)
  unfolding resume
  resume-IsFresh total none e v = v
  resume-IsFresh total (some have) e v =
      let v' = resume_from-IsFresh total have (total_pieces c) 0 e v in
      if_either (IsFresh total)
        (ltb 0 (Bitfield.count_set (resume_from sha1 c ask_tracker have (total_pieces c) 0 e).ours))
        (record {
          peers = v'.peers;
          availability = v'.availability;
          picker = v'.picker;
          connecting = v'.connecting;
        })
        v'

  fresh-IsSound :
      (e : Engine) (net : S)
      → IsFresh (total_pieces c) e
      → IsSound sha1 c ask_tracker (record { engine = e; net = net; next_id = 0; dialing = [] })
  unfolding Availability.new active_count Picker.new Picker.get dials tally get_peer
  fresh-IsSound e net v = record {
    counted = record {
      available = λ i. rw (v.peers, v.availability) (count-new (total_pieces c) i);
      sized = rw v.availability (length-replicate (total_pieces c) 0);
      active = λ i. rw (v.peers, v.picker) refl;
      picker = rw v.picker (Active.new-IsValid endgame_dup (omega arith));
      each = rw v.peers tt;
      distinct = rw v.peers tt;
    };
    connecting = v.connecting;
    bounded = rw (v.peers, v.connecting) (omega arith);
    fresh = λ id le. rw v.peers refl;
    threads = λ id h. cc;
    once = tt;
  }

  stored_first :
      (now : ℕ) (stored : Option Bytes) (disk : List Bytes)
      → IsFresh (total_pieces c) (record (fresh_engine c now disk) { saved = stored })
  unfolding fresh_engine
  stored_first now stored disk = record {
    peers = refl;
    availability = refl;
    picker = refl;
    connecting = refl;
  }

  ok_inj : (v w : World S) → ◌≡◌ {A = Result (World S) EngineError} (ok v) (ok w) → v ≡ w
  ok_inj v w h = cc

  begin_with-IsSound :
      (now : ℕ) (stored : Option Bytes) (net : S) (opened : Option (List Bytes)) (w : World S)
      → begin_with sha1 c ask_tracker now stored net opened ≡ ok w
      → IsSound sha1 c ask_tracker w
  unfolding begin_with
  begin_with-IsSound now stored net none w h = cc
  begin_with-IsSound now stored net (some disk) w h =
      let e : Engine = record (fresh_engine c now disk) { saved = stored } in
      let v =
        resume-IsFresh (total_pieces c) (Resume.load stored c.meta.info_hash (total_pieces c)) _
          (learn-IsFresh (total_pieces c) c.bootstrap_peers e (stored_first now stored disk)) in
      subst (λ (w : World S). IsSound sha1 c ask_tracker w) (ok_inj _ w h) (fresh-IsSound _ net v)

  pub begin-IsSound :
      (now : ℕ) (stored : Option Bytes) (net : S) (opened : Option (List Bytes)) (w : World S)
      → begin sha1 c ask_tracker now stored net opened ≡ ok w
      → IsSound sha1 c ask_tracker w
  unfolding begin
  begin-IsSound now stored net opened w h =
      elim (Bool-cases (is_empty c.meta.trackers && is_empty c.bootstrap_peers)) [
        | inl e ↦ absurd (
            cc (
              ap
                (λ (b : Bool).
                  if b
                  then err no_trackers
                  else begin_with sha1 c ask_tracker now stored net opened)
                e))
        | inr e ↦ begin_with-IsSound now stored net opened w (ground (arith, e, h))
      ]

  -- From the start of a download on, whatever inputs the rounds of its first run meet that are
  -- possible where they meet them, and as long as the loop goes on: the availability of a piece is
  -- the number of peers that have it, its active count the number of peers whose job it is, the
  -- connecting threads are as many as the engine counts and with the peers no more than the
  -- configuration allows, and their ids are different and no peer's. The configuration is supposed
  -- to allow fewer than 2^32 - 1 peers.
  pub begin-rounds-IsSound :
      (now : ℕ) (stored : Option Bytes) (net : S) (opened : Option (List Bytes)) (w : World S)
      (turns : List Turn) (few : c.max_peers + 1 < 2 ^ 32)
      → begin sha1 c ask_tracker now stored net opened ≡ ok w
      → IsPlayed sha1 c ask_tracker few turns w
      → IsSoundAt sha1 c ask_tracker few (rounds sha1 c ask_tracker turns w)
  begin-rounds-IsSound now stored net opened w turns few h k =
      rounds-IsSound sha1 c ask_tracker few turns w (begin-IsSound now stored net opened w h) k
