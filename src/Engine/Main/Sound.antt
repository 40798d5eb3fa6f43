-- ===== src/Engine/Main/Sound.antt =====
-- The invariant of the main loop.
use btget.Prelude.{
  ℕ, ◌+◌, ◌≤◌, ◌<◌, ◌≡◌, refl, sym, ap, ◌∙◌, subst, Bool, true, false, ◌||◌, List, [], ◌∷◌, none,
  arith, ltb, ◌==◌, length, Bytes, Bool-cases, inl, inr, Result,
}
use btget.Prelude.Address.{Address, address_eq}
use btget.Trackers
use btget.Tracker.{AnnounceRequest, AnnounceResponse}
use btget.Engine.State.{Peer, Peers, get_peer, set_peer, Context, total_pieces}
use btget.Engine.Counted.{IsCounted, none_held}
use btget.Engine.Message.Within.{IsWithin}
use btget.Engine.Main.{World, spawned, connect_all, without_id, without_address}

-- A thread with this id, or to this address, is connecting.
unfoldable pub dials : ℕ → List (ℕ × Address) → Bool
dials id [] = false
dials id ((j, a) ∷ l) = (j == id) || dials id l

unfoldable pub dials_to : Address → List (ℕ × Address) → Bool
dials_to addr [] = false
dials_to addr ((j, a) ∷ l) = address_eq a addr || dials_to addr l

-- The ids of the connecting threads are different.
abbrev pub IsOnce : List (ℕ × Address) → Type 0
IsOnce [] = Unit
IsOnce ((j, a) ∷ l) = (dials j l ≡ false) × IsOnce l

pub length-set_peer_new :
    (id : ℕ) (q : Peer) (ps : Peers)
    → get_peer id ps ≡ none
    → length (set_peer id q ps) ≡ length ps + 1
unfolding get_peer set_peer
length-set_peer_new id q [] g = refl
length-set_peer_new id q ((j, p) ∷ ps) g = elim (Bool-cases (j == id)) [
  | inl h ↦ absurd (ground (arith, h, g))
  | inr h ↦ rw h (omega (arith, length-set_peer_new id q ps (ground (arith, h, g))))
]

module _ {ℓ} {S : Type ℓ} (sha1 : Bytes → Bytes) (c : Context)
    (ask_tracker : AnnounceRequest → S → Bytes → S × Result AnnounceResponse Trackers.Error) where
  pub length-without_id :
      (id : ℕ) (l : List (ℕ × Address))
      → dials id l ≡ true
      → length (without_id sha1 c ask_tracker id l) + 1 ≡ length l
  unfolding dials without_id
  length-without_id id [] h = cc
  length-without_id id ((j, a) ∷ l) h = elim (Bool-cases (j == id)) [
    | inl t ↦ rw t (omega arith)
    | inr t ↦ rw t (omega (arith, length-without_id id l (ground (arith, h, t))))
  ]

  pub dials-without_id :
      (id j : ℕ) (l : List (ℕ × Address))
      → IsOnce l
      → dials j (without_id sha1 c ask_tracker id l) ≡ true
      → (dials j l ≡ true) × (id == j ≡ false)
  unfolding dials without_id
  dials-without_id id j [] o h = cc
  dials-without_id id j ((k, a) ∷ l) o h = elim (Bool-cases (k == id)) [
    | inl t ↦ ground (arith, t, h, o.0)
    | inr t ↦ ground (arith, t, h, dials-without_id id j l o.1)
  ]

  pub without_id-IsOnce :
      (id : ℕ) (l : List (ℕ × Address)) → IsOnce l → IsOnce (without_id sha1 c ask_tracker id l)
  unfolding without_id
  without_id-IsOnce id [] o = tt
  without_id-IsOnce id ((k, a) ∷ l) o = elim (Bool-cases (k == id)) [
    | inl t ↦ rw t o.1
    | inr t ↦ rw t (ground (arith, o.0, dials-without_id id k l o.1), without_id-IsOnce id l o.1)
  ]

  pub length-without_address :
      (addr : Address) (l : List (ℕ × Address))
      → dials_to addr l ≡ true
      → length (without_address sha1 c ask_tracker addr l) + 1 ≡ length l
  unfolding dials_to without_address
  length-without_address addr [] h = cc
  length-without_address addr ((j, a) ∷ l) h = elim (Bool-cases (address_eq a addr)) [
    | inl t ↦ rw t (omega arith)
    | inr t ↦ rw t (omega (arith, length-without_address addr l (ground (arith, h, t))))
  ]

  pub dials-without_address :
      (addr : Address) (j : ℕ) (l : List (ℕ × Address))
      → dials j (without_address sha1 c ask_tracker addr l) ≡ true
      → dials j l ≡ true
  unfolding dials without_address
  dials-without_address addr j [] h = h
  dials-without_address addr j ((k, a) ∷ l) h = ground (arith, h, dials-without_address addr j l)

  pub without_address-IsOnce :
      (addr : Address) (l : List (ℕ × Address))
      → IsOnce l
      → IsOnce (without_address sha1 c ask_tracker addr l)
  unfolding without_address
  without_address-IsOnce addr [] o = tt
  without_address-IsOnce addr ((k, a) ∷ l) o = elim (Bool-cases (address_eq a addr)) [
    | inl t ↦ rw t o.1
    | inr t ↦
        rw t
          (ground (arith, o.0, dials-without_address addr k l), without_address-IsOnce addr l o.1)
  ]

  -- The counts are right; the connecting threads are as many as the engine thinks, and together with the
  -- peers no more than the configuration allows; and the ids that are still to be given out, and those of the
  -- connecting threads, are no peer's.
  pub record IsSound (w : World S) : Type 0 where
    pub counted : IsCounted (total_pieces c) none_held w.engine
    pub connecting : w.engine.connecting ≡ length w.dialing
    pub bounded : w.engine.connecting + length w.engine.peers ≤ c.max_peers
    pub fresh : (id : ℕ) → w.next_id ≤ id → get_peer id w.engine.peers ≡ none
    pub threads :
        (id : ℕ)
        → dials id w.dialing ≡ true
        → (id < w.next_id) × (get_peer id w.engine.peers ≡ none)
    pub once : IsOnce w.dialing

  -- Only parts of the engine change that the invariant is not about.
  pub same-IsSound :
      (w w' : World S)
      → w'.engine.peers ≡ w.engine.peers
      → w'.engine.availability ≡ w.engine.availability
      → w'.engine.picker ≡ w.engine.picker
      → w'.engine.connecting ≡ w.engine.connecting
      → w'.next_id ≡ w.next_id
      → w'.dialing ≡ w.dialing
      → IsSound w
      → IsSound w'
  same-IsSound w w' p a k n i d v = record {
    counted = record {
      available = λ j. rw (a, p) (v.counted.available j);
      sized = rw a v.counted.sized;
      active = λ j. rw (k, p) (v.counted.active j);
      picker = rw k v.counted.picker;
      each = rw p v.counted.each;
      distinct = rw p v.counted.distinct;
    };
    connecting = rw (n, d) v.connecting;
    bounded = rw (n, p) v.bounded;
    fresh = rw (i, p) v.fresh;
    threads = rw (d, i, p) v.threads;
    once = rw d v.once;
  }

  pub within-IsSound :
      (w w' : World S)
      → IsSound w
      → IsCounted (total_pieces c) none_held w'.engine
      → IsWithin w.engine w'.engine
      → w'.next_id ≡ w.next_id
      → w'.dialing ≡ w.dialing
      → IsSound w'
  within-IsSound w w' v n h i d = record {
    counted = n;
    connecting = h.connecting ∙ v.connecting ∙ ap length (sym d);
    bounded = omega (arith, v.bounded, h.connecting, h.fewer);
    fresh = λ id le. h.gone id (v.fresh id (omega (arith, le, i)));
    threads = λ id t.
        let was = v.threads id (ap (dials id) (sym d) ∙ t) in
        (omega (arith, was.0, i), h.gone id was.1);
    once = subst IsOnce (sym d) v.once;
  }

  spawned-IsSound :
      (a : Address) (queue : List Address) (w : World S)
      → IsSound w
      → w.engine.connecting + length w.engine.peers < c.max_peers
      → IsSound (spawned sha1 c ask_tracker a queue w)
  unfolding dials
  spawned-IsSound a queue w v room = record {
    counted = record {
      available = v.counted.available;
      sized = v.counted.sized;
      active = v.counted.active;
      picker = v.counted.picker;
      each = v.counted.each;
      distinct = v.counted.distinct;
    };
    connecting = omega (arith, v.connecting);
    bounded = omega (arith, room);
    fresh = λ id le. v.fresh id (omega (arith, le));
    threads = λ id t. elim (Bool-cases (w.next_id == id)) [
      | inl e ↦ (ground (arith, e), v.fresh id (ground (arith, e)))
      | inr e ↦ let was = v.threads id (ground (arith, e, t)) in (omega (arith, was.0), was.1)
    ];
    once = (
      elim (Bool-cases (dials w.next_id w.dialing)) [
        | inl e ↦ absurd (omega (arith, (v.threads w.next_id e).0))
        | inr e ↦ e
      ],
      v.once,
    );
  }

  pub connect_all-IsSound :
      (queue : List Address) (w : World S)
      → IsSound w
      → IsSound (connect_all sha1 c ask_tracker queue w)
  unfolding connect_all
  connect_all-IsSound [] w v = same-IsSound w _ refl refl refl refl refl refl v
  connect_all-IsSound (a ∷ queue) w v =
      elim (Bool-cases (ltb (w.engine.connecting + length w.engine.peers) c.max_peers)) [
        | inl e ↦ rw e (
            connect_all-IsSound queue (spawned sha1 c ask_tracker a queue w)
              (spawned-IsSound a queue w v (ground (arith, e))))
        | inr e ↦ rw e (same-IsSound w _ refl refl refl refl refl refl v)
      ]
