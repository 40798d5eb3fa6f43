-- ===== src/Engine/Message/Inputs.antt =====
-- An input keeps the counts of the engine.
use btget.Prelude.{
  ℕ, ◌-◌, ◌≡◌, refl, sym, ap, ◌∙◌, subst, Bool, none, arith, if_either, ltb, length, Bytes,
}
use btget.Peer.{bitfield}
use btget.Prelude.Address.{Address}
use btget.Peer.Frame.{IsMessage}
use btget.Pieces.Bitfield
use btget.Pieces.Bitfield.{Bitfield, BitfieldError, IsValid}
use btget.Pieces.Bitfield.Laws.{has-new, new-IsValid}
use btget.Picker.Active as Active
use btget.Picker.Active.{
  active_count-abandon, abandon-IsValid, active_count-complete, complete-IsValid,
}
use btget.Engine.State.{Peer, get_peer, set_peer, Context, Engine, total_pieces, emit, peer_failed}
use btget.Engine.Tally.{
  IsDistinct, AllPeers, tally-set_peer_new, AllPeers-set_peer, IsDistinct-set_peer,
}
use btget.Engine.Counted.{
  has_one, job_one, IsPeer, IsCounted, none_held, IsFew, remove_peer-IsCounted,
}
use btget.Engine.Message.{
  Input, peer_connected, message_in, died, connect_failed, new_peer, greet, handle,
}
use btget.Engine.Message.Told.{IsLike, send_into-IsLike, IsLike-IsPeer, has_one-IsLike}
use btget.Engine.Message.Finish.{IsKept}
use btget.Engine.Message.Count.{on_message-IsKept}

module _ (sha1 : Bytes → Bytes) (c : Context) where
  -- What an input says of itself: a message whose fields fit, or an id that no peer has yet.
  abbrev pub IsInput : Input → Engine → Type 0
  IsInput (message_in id m) e = IsMessage m
  IsInput (peer_connected id addr tx_open) e = get_peer id e.peers ≡ none
  IsInput _ e = Unit

  greet-IsLike : (e : Engine) (p : Peer) → IsLike p (greet sha1 c e p)
  unfolding greet
  greet-IsLike e p =
      if_either (λ q. IsLike p q) (ltb 0 (Bitfield.count_set e.ours))
        (send_into-IsLike p.tx_open p (bitfield e.ours.bits))
        (record { theirs = refl; known = refl; job = λ i. refl })

  new_peer-IsPeer : (now : ℕ) (b : Bool) → IsPeer (total_pieces c) (new_peer sha1 c now b)
  unfolding new_peer Bitfield.new
  new_peer-IsPeer now b = record {
    valid = new-IsValid (total_pieces c);
    pieces = refl;
    unknown = λ u i. has-new (total_pieces c) i;
  }

  new_peer-has_one : (now : ℕ) (b : Bool) (i : ℕ) → has_one i (new_peer sha1 c now b) ≡ 0
  unfolding new_peer
  new_peer-has_one now b i = rw (has-new (total_pieces c) i) refl

  new_peer-job_one : (now : ℕ) (b : Bool) (i : ℕ) → job_one i (new_peer sha1 c now b) ≡ 0
  unfolding new_peer
  new_peer-job_one now b i = refl

  connected-IsCounted :
      (now id : ℕ) (b : Bool) (e e' : Engine)
      → IsCounted (total_pieces c) none_held e
      → get_peer id e.peers ≡ none
      → e'.peers ≡ set_peer id (greet sha1 c e (new_peer sha1 c now b)) e.peers
      → e'.availability ≡ e.availability
      → e'.picker ≡ e.picker
      → IsCounted (total_pieces c) none_held e'
  connected-IsCounted now id b e e' v g ps av pi =
      let n = total_pieces c in
      let p = new_peer sha1 c now b in
      let q = greet sha1 c e p in
      let l : IsLike p q = greet-IsLike e p in
      record {
        available = λ i.
            rw (ps, av)
              (omega (
                arith,
                v.available i,
                tally-set_peer_new (has_one i) id q e.peers g,
                has_one-IsLike i p q l,
                new_peer-has_one now b i,
              ));
        sized = ap (λ a. length a.counts) av ∙ v.sized;
        active = λ i.
            rw (ps, pi)
              (omega (
                arith,
                v.active i,
                tally-set_peer_new (job_one i) id q e.peers g,
                l.job i,
                new_peer-job_one now b i,
              ));
        picker = subst Active.IsValid (sym pi) v.picker;
        each = subst (AllPeers (IsPeer n)) (sym ps) (
            AllPeers-set_peer (IsPeer n) id q e.peers
              (IsLike-IsPeer n p q l (new_peer-IsPeer now b)) v.each);
        distinct = subst IsDistinct (sym ps) (IsDistinct-set_peer id q e.peers v.distinct);
      }

  failed-IsCounted :
      (addr : Address) (e : Engine)
      → IsCounted (total_pieces c) none_held e
      → IsCounted
          (total_pieces c)
          none_held
          (emit (peer_failed addr) (record e { connecting = e.connecting - 1 }))
  failed-IsCounted addr e v = record {
    available = v.available;
    sized = v.sized;
    active = v.active;
    picker = v.picker;
    each = v.each;
    distinct = v.distinct;
  }

  -- An input keeps the counts: the availability of a piece stays the number of peers that have it, and
  -- its active count the number of peers whose job it is, unless the engine stops because a piece
  -- could not be written. It is supposed that the peers leave room for one more in a u32, that the
  -- fields of a message fit their words, and that a connection comes with a new id.
  pub handle-IsKept :
      (now : ℕ) (input : Input) (e : Engine)
      → IsCounted (total_pieces c) none_held e
      → IsFew e
      → IsInput input e
      → IsKept (total_pieces c) (handle sha1 c now input e)
  unfolding handle
  handle-IsKept now (peer_connected id addr b) e v few g =
      connected-IsCounted now id b e (handle sha1 c now (peer_connected id addr b) e).0 v g refl
        refl refl
  handle-IsKept now (message_in id m) e v few h = on_message-IsKept sha1 c now id m e v few h
  handle-IsKept now (died id) e v few h = remove_peer-IsCounted (total_pieces c) none_held id e v
  handle-IsKept now (connect_failed addr) e v few h = failed-IsCounted addr e v
