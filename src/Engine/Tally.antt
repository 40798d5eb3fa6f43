-- ===== src/Engine/Tally.antt =====
-- The map of the peers of engine.rs: lookup, insertion and removal, and sums over the peers.
use btget.Prelude.{
  ℕ, suc, ◌+◌, ◌≤◌, ◌≡◌, refl, ap, subst, false, [], ◌∷◌, none, some, arith, ◌==◌, ==_iff,
  if◌then◌else◌, length, Bool-cases, inl, inr,
}
use btget.Engine.State.{Peer, Peers, get_peer, set_peer, delete_peer}

unfoldable pub tally : (Peer → ℕ) → Peers → ℕ
tally f [] = 0
tally f ((j, p) ∷ ps) = f p + tally f ps

-- No peer has the id.
abbrev pub IsNew : ℕ → Peers → Type 0
IsNew id [] = Unit
IsNew id ((j, p) ∷ ps) = (j == id ≡ false) × IsNew id ps

abbrev pub IsDistinct : Peers → Type 0
IsDistinct [] = Unit
IsDistinct ((j, p) ∷ ps) = IsNew j ps × IsDistinct ps

abbrev pub AllPeers : (Peer → Type 0) → Peers → Type 0
AllPeers P [] = Unit
AllPeers P ((j, p) ∷ ps) = P p × AllPeers P ps

pub tally-set_peer :
    (f : Peer → ℕ) (id : ℕ) (p q : Peer) (ps : Peers)
    → get_peer id ps ≡ some p
    → tally f (set_peer id q ps) + f p ≡ tally f ps + f q
unfolding tally set_peer get_peer
tally-set_peer f id p q [] e = cc
tally-set_peer f id p q ((j, r) ∷ ps) e = elim (Bool-cases (j == id)) [
  | inl h ↦ let same : r ≡ p = ground (arith, h, e) in rw h (omega (arith, ap f same))
  | inr h ↦ rw h (omega (arith, tally-set_peer f id p q ps (ground (arith, h, e))))
]

pub tally-set_peer_new :
    (f : Peer → ℕ) (id : ℕ) (q : Peer) (ps : Peers)
    → get_peer id ps ≡ none
    → tally f (set_peer id q ps) ≡ tally f ps + f q
unfolding tally set_peer get_peer
tally-set_peer_new f id q [] e = omega arith
tally-set_peer_new f id q ((j, r) ∷ ps) e = elim (Bool-cases (j == id)) [
  | inl h ↦ ground (arith, h, e)
  | inr h ↦ rw h (omega (arith, tally-set_peer_new f id q ps (ground (arith, h, e))))
]

pub tally-delete_peer :
    (f : Peer → ℕ) (id : ℕ) (p : Peer) (ps : Peers)
    → get_peer id ps ≡ some p
    → tally f (delete_peer id ps) + f p ≡ tally f ps
unfolding tally delete_peer get_peer
tally-delete_peer f id p [] e = cc
tally-delete_peer f id p ((j, r) ∷ ps) e = elim (Bool-cases (j == id)) [
  | inl h ↦ let same : r ≡ p = ground (arith, h, e) in rw h (omega (arith, ap f same))
  | inr h ↦ rw h (omega (arith, tally-delete_peer f id p ps (ground (arith, h, e))))
]

pub get_peer-set_peer :
    (id j : ℕ) (q : Peer) (ps : Peers)
    → get_peer j (set_peer id q ps) ≡ (if id == j then some q else get_peer j ps)
unfolding get_peer set_peer
get_peer-set_peer id j q [] = refl
get_peer-set_peer id j q ((k, r) ∷ ps) = ground (arith, get_peer-set_peer id j q ps)

pub set_peer-set_peer :
    (id : ℕ) (p q : Peer) (ps : Peers) → set_peer id q (set_peer id p ps) ≡ set_peer id q ps
unfolding set_peer
set_peer-set_peer id p q [] = ground arith
set_peer-set_peer id p q ((k, r) ∷ ps) = ground (arith, set_peer-set_peer id p q ps)

module _ (P : Peer → Type 0) where
  pub AllPeers-get_peer :
      (id : ℕ) (p : Peer) (ps : Peers) → get_peer id ps ≡ some p → AllPeers P ps → P p
  unfolding get_peer
  AllPeers-get_peer id p [] e h = cc
  AllPeers-get_peer id p ((j, r) ∷ ps) e h = elim (Bool-cases (j == id)) [
    | inl t ↦ let same : r ≡ p = ground (arith, t, e) in subst P same h.0
    | inr t ↦ AllPeers-get_peer id p ps (ground (arith, t, e)) h.1
  ]

  pub AllPeers-set_peer :
      (id : ℕ) (q : Peer) (ps : Peers) → P q → AllPeers P ps → AllPeers P (set_peer id q ps)
  unfolding set_peer
  AllPeers-set_peer id q [] hq h = (hq, tt)
  AllPeers-set_peer id q ((j, r) ∷ ps) hq h = elim (Bool-cases (j == id)) [
    | inl t ↦ rw t (hq, h.1)
    | inr t ↦ rw t (h.0, AllPeers-set_peer id q ps hq h.1)
  ]

  pub AllPeers-delete_peer : (id : ℕ) (ps : Peers) → AllPeers P ps → AllPeers P (delete_peer id ps)
  unfolding delete_peer
  AllPeers-delete_peer id [] h = tt
  AllPeers-delete_peer id ((j, r) ∷ ps) h = elim (Bool-cases (j == id)) [
    | inl t ↦ rw t h.1
    | inr t ↦ rw t (h.0, AllPeers-delete_peer id ps h.1)
  ]

IsNew-set_peer :
    (j id : ℕ) (q : Peer) (ps : Peers) → id == j ≡ false → IsNew j ps → IsNew j (set_peer id q ps)
unfolding set_peer
IsNew-set_peer j id q [] n h = (n, tt)
IsNew-set_peer j id q ((k, r) ∷ ps) n h = elim (Bool-cases (k == id)) [
  | inl t ↦ rw t (n, h.1)
  | inr t ↦ rw t (h.0, IsNew-set_peer j id q ps n h.1)
]

IsNew-delete_peer : (j id : ℕ) (ps : Peers) → IsNew j ps → IsNew j (delete_peer id ps)
unfolding delete_peer
IsNew-delete_peer j id [] h = tt
IsNew-delete_peer j id ((k, r) ∷ ps) h = elim (Bool-cases (k == id)) [
  | inl t ↦ rw t h.1
  | inr t ↦ rw t (h.0, IsNew-delete_peer j id ps h.1)
]

sym_false : (a b : ℕ) → a == b ≡ false → b == a ≡ false
sym_false a b h = ground arith

pub IsDistinct-set_peer :
    (id : ℕ) (q : Peer) (ps : Peers) → IsDistinct ps → IsDistinct (set_peer id q ps)
unfolding set_peer
IsDistinct-set_peer id q [] h = (tt, tt)
IsDistinct-set_peer id q ((k, r) ∷ ps) h = elim (Bool-cases (k == id)) [
  | inl t ↦ rw t (subst (λ n. IsNew n ps) ((==_iff k id).0 t) h.0, h.1)
  | inr t ↦ rw t (IsNew-set_peer k id q ps (sym_false k id t) h.0, IsDistinct-set_peer id q ps h.1)
]

pub IsDistinct-delete_peer : (id : ℕ) (ps : Peers) → IsDistinct ps → IsDistinct (delete_peer id ps)
unfolding delete_peer
IsDistinct-delete_peer id [] h = tt
IsDistinct-delete_peer id ((k, r) ∷ ps) h = elim (Bool-cases (k == id)) [
  | inl t ↦ rw t h.1
  | inr t ↦ rw t (IsNew-delete_peer k id ps h.0, IsDistinct-delete_peer id ps h.1)
]

pub tally-le-length : (f : Peer → ℕ) (ps : Peers) → ((p : Peer) → f p ≤ 1) → tally f ps ≤ length ps
unfolding tally
tally-le-length f [] h = omega arith
tally-le-length f ((j, p) ∷ ps) h = omega (arith, h p, tally-le-length f ps h)

pub length-set_peer :
    (id : ℕ) (p q : Peer) (ps : Peers)
    → get_peer id ps ≡ some p
    → length (set_peer id q ps) ≡ length ps
unfolding get_peer set_peer
length-set_peer id p q [] g = cc
length-set_peer id p q ((j, r) ∷ ps) g = elim (Bool-cases (j == id)) [
  | inl t ↦ rw t refl
  | inr t ↦ rw t (ap suc (length-set_peer id p q ps (ground (arith, t, g))))
]
