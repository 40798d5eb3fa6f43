-- ===== src/Engine/Rounds/Chokes.antt =====
-- The choice of the unchoked peers and the saving, and so a whole `housekeeping`, keep the counts.
use btget.Prelude.{
  ℕ, ◌-◌, ◌≡◌, refl, sym, ◌∙◌, Bool, true, false, not, ◌&&◌, List, [], ◌∷◌, arith, ltb, leb,
  if_either, contains,
}
use btget.Peer.{choke, unchoke}
use btget.Pieces.Bitfield
use btget.Engine.State.{
  choke_interval, save_interval, Peer, send, Peers, Context, Engine, total_pieces,
}
use btget.Engine.Tally.{tally, IsNew, IsDistinct, AllPeers}
use btget.Engine.Counted.{has_one, job_one, IsPeer, IsCounted, none_held}
use btget.Engine.Message.Told.{
  IsLike, IsLike-refl, IsLike-trans, send_into-IsLike, IsLike-IsPeer, has_one-IsLike,
}
use btget.Engine.Rounds.{
  ids_of, tend_all, choking_set, rechoke, rechoke_all, rebalance_chokes, choke_when_due,
  save_when_due, housekeeping,
}
use btget.Engine.Rounds.Count.{tend_all-IsCounted, bury-IsCounted}

module _ (c : Context) where
  choking_set-IsLike : (b : Bool) (p : Peer) (sent : Bool) → IsLike p (choking_set c b (p, sent))
  choking_set-IsLike b p true = record { theirs = refl; known = refl; job = λ i. refl }
  choking_set-IsLike b p false = IsLike-refl p

  rechoke-IsLike : (b : Bool) (p : Peer) → IsLike p (rechoke c b p)
  rechoke-IsLike b p =
      let opened = send p unchoke in
      let shut = send p choke in
      if_either (IsLike p) (b && p.state.am_choking)
        (IsLike-trans p opened.0 _ (send_into-IsLike p.tx_open p unchoke)
          (choking_set-IsLike false opened.0 opened.1))
        (if_either (IsLike p) (not b && not p.state.am_choking)
          (IsLike-trans p shut.0 _ (send_into-IsLike p.tx_open p choke)
            (choking_set-IsLike true shut.0 shut.1))
          (IsLike-refl p))

  tally-rechoke_all :
      (f : Peer → ℕ) (unchoked : List ℕ) (ps : Peers)
      → ((p q : Peer) → IsLike p q → f q ≡ f p)
      → tally f (rechoke_all c unchoked ps) ≡ tally f ps
  unfolding tally rechoke_all
  tally-rechoke_all f unchoked [] h = refl
  tally-rechoke_all f unchoked ((j, p) ∷ ps) h = omega (
    arith,
    h p (rechoke c (contains j unchoked) p) (rechoke-IsLike (contains j unchoked) p),
    tally-rechoke_all f unchoked ps h,
  )

  AllPeers-rechoke_all :
      (total : ℕ) (unchoked : List ℕ) (ps : Peers)
      → AllPeers (IsPeer total) ps
      → AllPeers (IsPeer total) (rechoke_all c unchoked ps)
  unfolding rechoke_all
  AllPeers-rechoke_all total unchoked [] h = tt
  AllPeers-rechoke_all total unchoked ((j, p) ∷ ps) h = (
    IsLike-IsPeer total p _ (rechoke-IsLike (contains j unchoked) p) h.0,
    AllPeers-rechoke_all total unchoked ps h.1,
  )

  IsNew-rechoke_all :
      (id : ℕ) (unchoked : List ℕ) (ps : Peers) → IsNew id ps → IsNew id (rechoke_all c unchoked ps)
  unfolding rechoke_all
  IsNew-rechoke_all id unchoked [] h = tt
  IsNew-rechoke_all id unchoked ((j, p) ∷ ps) h = (h.0, IsNew-rechoke_all id unchoked ps h.1)

  IsDistinct-rechoke_all :
      (unchoked : List ℕ) (ps : Peers) → IsDistinct ps → IsDistinct (rechoke_all c unchoked ps)
  unfolding rechoke_all
  IsDistinct-rechoke_all unchoked [] h = tt
  IsDistinct-rechoke_all unchoked ((j, p) ∷ ps) h =
      (IsNew-rechoke_all j unchoked ps h.0, IsDistinct-rechoke_all unchoked ps h.1)

  -- Other peers that count the same.
  rechoked-IsCounted :
      (total : ℕ) (unchoked : List ℕ) (e e' : Engine)
      → IsCounted total none_held e
      → e'.peers ≡ rechoke_all c unchoked e.peers
      → e'.availability ≡ e.availability
      → e'.picker ≡ e.picker
      → IsCounted total none_held e'
  rechoked-IsCounted total unchoked e e' v ps av pi = record {
    available = λ i.
        rw (ps, av)
          (v.available i ∙ sym (tally-rechoke_all (has_one i) unchoked e.peers (has_one-IsLike i)));
    sized = rw av v.sized;
    active = λ i.
        rw (ps, pi)
          (omega
            (arith, v.active i, tally-rechoke_all (job_one i) unchoked e.peers (λ p q l. l.job i)));
    picker = rw pi v.picker;
    each = rw ps (AllPeers-rechoke_all total unchoked e.peers v.each);
    distinct = rw ps (IsDistinct-rechoke_all unchoked e.peers v.distinct);
  }

  choke_when_due-IsCounted :
      (total now : ℕ) (e : Engine)
      → IsCounted total none_held e
      → IsCounted total none_held (choke_when_due c now e)
  unfolding choke_when_due rebalance_chokes
  choke_when_due-IsCounted total now e v =
      if_either (IsCounted total none_held) (leb choke_interval (now - e.last_choke))
        (rechoked-IsCounted total _ e (rebalance_chokes c now (record e { last_choke = now })) v
          refl refl refl)
        v

  save_when_due-IsCounted :
      (total now : ℕ) (e : Engine)
      → IsCounted total none_held e
      → IsCounted total none_held (save_when_due c now e)
  save_when_due-IsCounted total now e v =
      if_either (IsCounted total none_held)
        (leb save_interval (now - e.last_saved) && ltb 0 (Bitfield.count_set e.ours))
        (record {
          available = v.available;
          sized = v.sized;
          active = v.active;
          picker = v.picker;
          each = v.each;
          distinct = v.distinct;
        })
        v

  -- A round of `housekeeping` keeps the counts: the availability of a piece stays the number of peers
  -- that have it, and its active count the number of peers whose job it is.
  pub housekeeping-IsCounted :
      (now : ℕ) (e : Engine)
      → IsCounted (total_pieces c) none_held e
      → IsCounted (total_pieces c) none_held (housekeeping c now e)
  unfolding housekeeping
  housekeeping-IsCounted now e v =
      let total = total_pieces c in
      let r = tend_all c now (ids_of c e.peers) e in
      let v' = bury-IsCounted c r.1 r.0 (tend_all-IsCounted c now (ids_of c e.peers) e v) in
      save_when_due-IsCounted total now _ (choke_when_due-IsCounted total now _ v')
