-- ===== src/Choke/Fair.antt =====
-- What `select_unchoked` of choke.rs owes to each peer, said of the set of ids that it returns.
use btget.Prelude.{
  ℕ, zero, suc, ◌+◌, ◌≤◌, ◌≡◌, ◌≢◌, refl, ◌∙◌, Bool, true, false, not, ◌&&◌, ◌||◌, List, [], ◌∷◌,
  Option, none, some, arith, ltb, leb, ◌==◌, ==_refl, ==_iff, if◌then◌else◌, length, take, select,
  any, contains, All, length-take, Bool-cases, inl, inr, All-take,
}
use btget.Prelude.Sorting.{insert_by, sort_by, All-sort_by, All-map_implied, All-pair}
use btget.Choke.{PeerRate, faster, ranked, add_id, id_set, add_optimistic, select_unchoked}
use btget.Choke.Slots.{
  IsOutranked, select_unchoked-IsOutranked, slots_unchoked, length-id_set_le, length-add_id_le,
  contains-add_id_self,
}

module _ {A : Type 0} where
  abbrev pub count_if : (A → Bool) → List A → ℕ
  count_if f [] = 0
  count_if f (x ∷ xs) = (if f x then 1 else 0) + count_if f xs

  count_if-take : (f : A → Bool) (n : ℕ) (xs : List A) → count_if f (take n xs) ≤ count_if f xs
  count_if-take f zero xs = omega arith
  count_if-take f (suc n) [] = omega arith
  count_if-take f (suc n) (x ∷ xs) = omega (arith, count_if-take f n xs)

  count_if-insert_by :
      (f : A → Bool) (before : A → A → Bool) (x : A) (xs : List A)
      → count_if f (insert_by before x xs) ≡ count_if f (x ∷ xs)
  unfolding insert_by
  count_if-insert_by f before x [] = refl
  count_if-insert_by f before x (y ∷ ys) = elim (Bool-cases (before y x)) [
    | inl e ↦ rw e (omega (arith, count_if-insert_by f before x ys))
    | inr e ↦ rw e refl
  ]

  count_if-sort_by :
      (f : A → Bool) (before : A → A → Bool) (xs : List A)
      → count_if f (sort_by before xs) ≡ count_if f xs
  unfolding sort_by
  count_if-sort_by f before [] = refl
  count_if-sort_by f before (x ∷ xs) =
      omega (arith, count_if-insert_by f before x (sort_by before xs), count_if-sort_by f before xs)

  count_if-select :
      (f p : A → Bool) (xs : List A) → count_if f (select p xs) ≡ count_if (λ a. p a && f a) xs
  count_if-select f p [] = refl
  count_if-select f p (x ∷ xs) = elim (Bool-cases (p x)) [
    | inl e ↦ rw e (omega (arith, count_if-select f p xs))
    | inr e ↦ rw e (omega (arith, count_if-select f p xs))
  ]

  count_if-All : (f : A → Bool) (xs : List A) → All (λ a. f a ≡ true) xs → count_if f xs ≡ length xs
  count_if-All f [] h = refl
  count_if-All f (x ∷ xs) h = rw h.0 (omega (arith, count_if-All f xs h.1))

  All-select :
      (P : A → Type 0) (p : A → Bool) (xs : List A)
      → All (λ a. p a ≡ true → P a) xs
      → All P (select p xs)
  All-select P p [] h = tt
  All-select P p (x ∷ xs) h = elim (Bool-cases (p x)) [
    | inl e ↦ rw e (h.0 e, All-select P p xs h.1)
    | inr e ↦ rw e (All-select P p xs h.1)
  ]

-- The first peer goes before the second one: it has sent more, or as much and has the smaller id.
abbrev pub outdoes : PeerRate → PeerRate → Bool
outdoes p q =
    ltb q.downloaded_from p.downloaded_from
    || ((p.downloaded_from == q.downloaded_from) && ltb p.id q.id)

-- The peers with a place in the set that are interested and go before this one.
abbrev pub ahead : List PeerRate → List ℕ → PeerRate → ℕ
ahead peers out q = count_if (λ p. p.is_interested && (outdoes p q && contains p.id out)) peers

abbrev pub is_given : Option ℕ → ℕ → Bool
is_given none id = false
is_given (some chosen) id = chosen == id

abbrev pub is_asking : List PeerRate → ℕ → Bool
is_asking peers id = any (λ p. p.is_interested && (p.id == id)) peers

abbrev pub extra : Option ℕ → ℕ
extra none = 0
extra (some id) = 1

pub record IsFair (peers : List PeerRate) (slots : ℕ) (optimistic : Option ℕ) (out : List ℕ)
    : Type 0 where
  -- One place for each slot, and one for the optimistic peer.
  pub few : length out ≤ slots + extra optimistic
  pub asking : All (λ id. (is_given optimistic id || is_asking peers id) ≡ true) out
  pub hopeful : All (λ p. (not (is_given optimistic p.id) || contains p.id out) ≡ true) peers
  -- An interested peer is in the set, or as many as there are slots go before it.
  pub earned :
      All
        (λ q. (not q.is_interested || (contains q.id out || leb slots (ahead peers out q))) ≡ true)
        peers

faster-outdoes : (p q : PeerRate) → faster q p ≡ false → p.id ≢ q.id → outdoes p q ≡ true
unfolding faster
faster-outdoes p q h ne = ground (arith, h, ne)

apart : (out : List ℕ) (i j : ℕ) → contains i out ≡ true → contains j out ≡ false → i ≢ j
apart out i j h k e = cc

-- An element of the sorted list that the slots went by, against a peer outside the set.
ahead-slots :
    (peers : List PeerRate) (slots : ℕ) (optimistic : Option ℕ) (q : PeerRate)
    → contains q.id (select_unchoked peers slots optimistic) ≡ false
    → IsOutranked peers slots q
    → All
        (λ p. (outdoes p q && contains p.id (select_unchoked peers slots optimistic)) ≡ true)
        (take slots (ranked peers))
ahead-slots peers slots optimistic q out o =
    let ids = select_unchoked peers slots optimistic in
    All-map_implied (λ p. (faster q p ≡ false) × (contains p.id ids ≡ true)) _
      (take slots (ranked peers))
      (λ p h. rw (faster-outdoes p q h.0 (apart ids p.id q.id h.1 out), h.1) refl)
      (All-pair _ _ (take slots (ranked peers)) o.0 (slots_unchoked peers slots optimistic))

count_if-ranked :
    (f : PeerRate → Bool) (peers : List PeerRate)
    → count_if f (ranked peers) ≡ count_if (λ p. p.is_interested && f p) peers
unfolding ranked
count_if-ranked f peers =
    count_if-sort_by f faster (select (λ p. p.is_interested) peers)
    ∙ count_if-select f (λ p. p.is_interested) peers

le-ahead :
    (peers : List PeerRate) (slots : ℕ) (optimistic : Option ℕ) (q : PeerRate)
    → contains q.id (select_unchoked peers slots optimistic) ≡ false
    → IsOutranked peers slots q
    → slots ≤ ahead peers (select_unchoked peers slots optimistic) q
le-ahead peers slots optimistic q out o =
    let f : PeerRate → Bool =
      λ p. outdoes p q && contains p.id (select_unchoked peers slots optimistic) in
    omega (
      arith,
      count_if-All f (take slots (ranked peers)) (ahead-slots peers slots optimistic q out o),
      length-take slots (ranked peers),
      o.1,
      count_if-take f slots (ranked peers),
      count_if-ranked f peers,
    )

owed : (a b : Bool) (n m : ℕ) → (a ≡ true → b ≡ false → n ≤ m) → (not a || (b || leb n m)) ≡ true
owed false b n m h = refl
owed true true n m h = refl
owed true false n m h = let l = h refl refl in ground (arith, l)

any_self :
    (peers : List PeerRate) → All (λ p. p.is_interested ≡ true → is_asking peers p.id ≡ true) peers
any_self [] = tt
any_self (p ∷ ps) = (
  λ h. rw (h, ==_refl p.id) refl,
  All-map_implied _ _ ps (λ q k h. ground (arith, k h)) (any_self ps),
)

ranked-asking : (peers : List PeerRate) → All (λ p. is_asking peers p.id ≡ true) (ranked peers)
unfolding ranked
ranked-asking peers =
    All-sort_by _ faster (select (λ p. p.is_interested) peers)
      (All-select _ (λ p. p.is_interested) peers (any_self peers))

All-add_id : (P : ℕ → Type 0) (id : ℕ) (ids : List ℕ) → P id → All P ids → All P (add_id id ids)
All-add_id P id ids h k = elim (Bool-cases (contains id ids)) [
  | inl e ↦ rw e k
  | inr e ↦ rw e (h, k)
]

All-id_set : (P : ℕ → Type 0) (ps : List PeerRate) → All (λ p. P p.id) ps → All P (id_set ps)
All-id_set P [] h = tt
All-id_set P (p ∷ ps) h = All-add_id P p.id (id_set ps) h.0 (All-id_set P ps h.1)

All-add_optimistic :
    (o : Option ℕ) (peers : List PeerRate) (out : List ℕ)
    → All (λ id. is_asking peers id ≡ true) out
    → All (λ id. (is_given o id || is_asking peers id) ≡ true) (add_optimistic o peers out)
All-add_optimistic none peers out h = h
All-add_optimistic (some chosen) peers out h =
    let kept : All (λ id. (is_given (some chosen) id || is_asking peers id) ≡ true) out =
      All-map_implied _ _ out (λ id k. ground (arith, k)) h in
    elim (Bool-cases (any (λ p. p.id == chosen) peers)) [
      | inl e ↦ rw e (All-add_id _ chosen out (ground (arith, ==_refl chosen)) kept)
      | inr e ↦ rw e kept
    ]

length-add_optimistic :
    (o : Option ℕ) (peers : List PeerRate) (out : List ℕ)
    → length (add_optimistic o peers out) ≤ length out + extra o
length-add_optimistic none peers out = omega arith
length-add_optimistic (some id) peers out = ground (arith, length-add_id_le id out)

any_id : (peers : List PeerRate) → All (λ p. any (λ r. r.id == p.id) peers ≡ true) peers
any_id [] = tt
any_id (p ∷ ps) =
    (rw (==_refl p.id) refl, All-map_implied _ _ ps (λ q k. ground (arith, k)) (any_id ps))

given_in :
    (o : Option ℕ) (peers : List PeerRate) (out : List ℕ) (id : ℕ)
    → any (λ r. r.id == id) peers ≡ true
    → (not (is_given o id) || contains id (add_optimistic o peers out)) ≡ true
given_in none peers out id h = refl
given_in (some chosen) peers out id h = elim (Bool-cases (chosen == id)) [
  | inl e ↦ rw ((==_iff chosen id).0 e, h, contains-add_id_self id out) (ground arith)
  | inr e ↦ rw e refl
]

-- For all peers, slots and optimistic choices, of the ids that `select_unchoked` returns: there are
-- at most as many as slots, and one more where an optimistic peer is given; each is the optimistic one
-- or an interested peer's; the optimistic peer is among them if it is one of the peers; and each
-- interested peer is among them, unless as many interested peers as there are slots are among them
-- that have sent more than it, or as much and have a smaller id.
pub select_unchoked-IsFair :
    (peers : List PeerRate) (slots : ℕ) (optimistic : Option ℕ)
    → IsFair peers slots optimistic (select_unchoked peers slots optimistic)
unfolding select_unchoked
select_unchoked-IsFair peers slots optimistic =
    let chosen = take slots (ranked peers) in
    record {
      few = omega (
        arith,
        length-add_optimistic optimistic peers (id_set chosen),
        length-id_set_le chosen,
        length-take slots (ranked peers),
      );
      asking =
          All-add_optimistic optimistic peers (id_set chosen)
            (All-id_set _ chosen (All-take _ slots (ranked peers) (ranked-asking peers)));
      hopeful =
          All-map_implied _ _ peers (λ p h. given_in optimistic peers (id_set chosen) p.id h)
            (any_id peers);
      earned =
          All-map_implied _ _ peers
            (λ q h.
              owed q.is_interested _ slots _ (λ a b. le-ahead peers slots optimistic q b (h a b)))
            (select_unchoked-IsOutranked peers slots optimistic);
    }
