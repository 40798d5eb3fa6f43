-- ===== src/Engine/Rounds/Within.antt =====
-- `housekeeping` brings no new peer and no new connecting thread.
use btget.Prelude.{
  ℕ, suc, ◌-◌, ◌≡◌, refl, ap, ◌∙◌, Bool, ◌&&◌, List, [], ◌∷◌, Option, none, some, arith, ltb, leb,
  if_either, length,
}
use btget.Pieces.Bitfield
use btget.Engine.State.{choke_interval, save_interval, Peer, Peers, get_peer, Context, Engine}
use btget.Engine.Message.{store, remove_peer}
use btget.Engine.Message.Within.{
  IsWithin, IsWithin-refl, IsWithin-trans, stored-IsWithin, remove_peer-IsWithin,
}
use btget.Engine.Rounds.{
  requeued, assign, work, is_snubbing, tend_assigned, tend, bury, tend_all, ids_of, rechoke_all,
  rebalance_chokes, choke_when_due, save_when_due, housekeeping,
}

module _ (c : Context) where
  tend-IsWithin :
      (now id : ℕ) (o : Option Peer) (e : Engine)
      → get_peer id e.peers ≡ o
      → IsWithin e (tend c now id o e).0
  unfolding tend tend_assigned
  tend-IsWithin now id none e g = IsWithin-refl e
  tend-IsWithin now id (some p) e g =
      let a = assign c e (requeued now p p.job) in
      let e' : Engine = record e { picker = a.0 } in
      let q = (work now a.1.job a.1).0 in
      if_either (λ (r : Engine × Bool). IsWithin e r.0) (is_snubbing c now e' a.1)
        (stored-IsWithin e (store id a.1 e') id p a.1 g refl refl)
        (stored-IsWithin e (store id q e') id p q g refl refl)

  tend_all-IsWithin : (now : ℕ) (ids : List ℕ) (e : Engine) → IsWithin e (tend_all c now ids e).0
  unfolding tend_all
  tend_all-IsWithin now [] e = IsWithin-refl e
  tend_all-IsWithin now (id ∷ ids) e =
      let r = tend c now id (get_peer id e.peers) e in
      IsWithin-trans e r.0 _ (tend-IsWithin now id (get_peer id e.peers) e refl)
        (tend_all-IsWithin now ids r.0)

  bury-IsWithin : (dead : List ℕ) (e : Engine) → IsWithin e (bury c dead e)
  unfolding bury
  bury-IsWithin [] e = IsWithin-refl e
  bury-IsWithin (id ∷ dead) e =
      IsWithin-trans e (remove_peer id e) _ (remove_peer-IsWithin id e)
        (bury-IsWithin dead (remove_peer id e))

  length-rechoke_all :
      (unchoked : List ℕ) (ps : Peers) → length (rechoke_all c unchoked ps) ≡ length ps
  unfolding rechoke_all
  length-rechoke_all unchoked [] = refl
  length-rechoke_all unchoked ((j, p) ∷ ps) = ap suc (length-rechoke_all unchoked ps)

  get_peer-rechoke_all :
      (j : ℕ) (unchoked : List ℕ) (ps : Peers)
      → get_peer j ps ≡ none
      → get_peer j (rechoke_all c unchoked ps) ≡ none
  unfolding get_peer rechoke_all
  get_peer-rechoke_all j unchoked [] h = refl
  get_peer-rechoke_all j unchoked ((k, p) ∷ ps) h =
      ground (arith, h, get_peer-rechoke_all j unchoked ps)

  rechoked-IsWithin :
      (unchoked : List ℕ) (e e' : Engine)
      → e'.connecting ≡ e.connecting
      → e'.peers ≡ rechoke_all c unchoked e.peers
      → IsWithin e e'
  rechoked-IsWithin unchoked e e' h ps = record {
    connecting = h;
    fewer = rw ps (omega (arith, length-rechoke_all unchoked e.peers));
    gone = λ j g. ap (get_peer j) ps ∙ get_peer-rechoke_all j unchoked e.peers g;
  }

  choke_when_due-IsWithin : (now : ℕ) (e : Engine) → IsWithin e (choke_when_due c now e)
  unfolding choke_when_due rebalance_chokes
  choke_when_due-IsWithin now e =
      if_either (IsWithin e) (leb choke_interval (now - e.last_choke))
        (rechoked-IsWithin _ e (rebalance_chokes c now (record e { last_choke = now })) refl refl)
        (IsWithin-refl e)

  save_when_due-IsWithin : (now : ℕ) (e : Engine) → IsWithin e (save_when_due c now e)
  save_when_due-IsWithin now e =
      if_either (IsWithin e)
        (leb save_interval (now - e.last_saved) && ltb 0 (Bitfield.count_set e.ours))
        (record { connecting = refl; fewer = omega arith; gone = λ j g. g }) (IsWithin-refl e)

  pub housekeeping-IsWithin : (now : ℕ) (e : Engine) → IsWithin e (housekeeping c now e)
  unfolding housekeeping
  housekeeping-IsWithin now e =
      let r = tend_all c now (ids_of c e.peers) e in
      let e₁ = bury c r.1 r.0 in
      let e₂ = choke_when_due c now e₁ in
      IsWithin-trans e r.0 _ (tend_all-IsWithin now (ids_of c e.peers) e) (
        IsWithin-trans r.0 e₁ _ (bury-IsWithin r.1 r.0)
          (IsWithin-trans e₁ e₂ _ (choke_when_due-IsWithin now e₁) (save_when_due-IsWithin now e₂)))
