-- ===== src/Choke/Slots.antt =====
-- The unchoke slots of choke.rs.
use btget.Prelude.{
  ℕ, zero, suc, ◌≤◌, ◌≡◌, refl, subst, true, false, List, [], ◌∷◌, Option, none, some, arith,
  ==_refl, length, take, drop, select, contains, All, Bool-cases, inl, inr, take-append-drop,
  All-append,
}
use btget.Prelude.Sorting.{
  sort_by, IsSortedBy, sort_by_back, All-map_implied, All-select_back, All-from_each, All-pair,
  sort_by-IsSortedBy, front_of_sorted,
}
use btget.Choke.{PeerRate, faster, ranked, add_id, id_set, add_optimistic, select_unchoked}

faster_asymm : (a b : PeerRate) → faster a b ≡ true → faster b a ≡ false
unfolding faster
faster_asymm a b h = ground (arith, h)

faster_back : (a b c : PeerRate) → faster a b ≡ false → faster b c ≡ false → faster a c ≡ false
unfolding faster
faster_back a b c h k = ground (arith, h, k)

pub contains-add_id_self : (i : ℕ) (ids : List ℕ) → contains i (add_id i ids) ≡ true
contains-add_id_self i ids = elim (Bool-cases (contains i ids)) [
  | inl e ↦ rw e e
  | inr e ↦ rw (e, ==_refl i) refl
]

contains-add_id_mono :
    (i j : ℕ) (ids : List ℕ) → contains i ids ≡ true → contains i (add_id j ids) ≡ true
contains-add_id_mono i j ids h = ground arith

pub length-add_id_le : (i : ℕ) (ids : List ℕ) → length (add_id i ids) ≤ suc (length ids)
length-add_id_le i ids = ground arith

pub length-id_set_le : (ps : List PeerRate) → length (id_set ps) ≤ length ps
length-id_set_le [] = omega arith
length-id_set_le (p ∷ ps) = omega (arith, length-add_id_le p.id (id_set ps), length-id_set_le ps)

pub add_optimistic_le :
    (o : Option ℕ) (peers : List PeerRate) (out : List ℕ)
    → length (add_optimistic o peers out) ≤ suc (length out)
add_optimistic_le none peers out = omega arith
add_optimistic_le (some id) peers out = ground (arith, length-add_id_le id out)

add_optimistic_mono :
    (o : Option ℕ) (peers : List PeerRate) (out : List ℕ) (i : ℕ)
    → contains i out ≡ true
    → contains i (add_optimistic o peers out) ≡ true
add_optimistic_mono none peers out i h = h
add_optimistic_mono (some id) peers out i h = ground (arith, contains-add_id_mono i id out h)

contains-id_set : (ps : List PeerRate) → All (λ p. contains p.id (id_set ps) ≡ true) ps
contains-id_set [] = tt
contains-id_set (p ∷ ps) = (
  contains-add_id_self p.id (id_set ps),
  All-map_implied _ _ ps (λ q h. contains-add_id_mono q.id p.id (id_set ps) h) (contains-id_set ps),
)

-- The peers that the slots went to are in the set.
pub slots_unchoked :
    (peers : List PeerRate) (slots : ℕ) (optimistic : Option ℕ)
    → All
        (λ p. contains p.id (select_unchoked peers slots optimistic) ≡ true)
        (take slots (ranked peers))
unfolding select_unchoked
slots_unchoked peers slots optimistic =
    All-map_implied _ _ (take slots (ranked peers))
      (λ p h. add_optimistic_mono optimistic peers (id_set (take slots (ranked peers))) p.id h)
      (contains-id_set (take slots (ranked peers)))

IsSortedBy-ranked : (peers : List PeerRate) → IsSortedBy faster (ranked peers)
unfolding ranked
IsSortedBy-ranked peers =
    sort_by-IsSortedBy faster faster_asymm faster_back (select (λ p. p.is_interested) peers)

-- What a peer that stays choked is owed: the slots are all taken, and none of those who have them
-- is slower.
abbrev pub IsOutranked : List PeerRate → ℕ → PeerRate → Type 0
IsOutranked peers slots q =
    All (λ p. faster q p ≡ false) (take slots (ranked peers)) × (slots ≤ length (ranked peers))

drop_slots : {A : Type 0} (n : ℕ) (xs : List A) → All (λ _. n ≤ length xs) (drop n xs)
drop_slots zero xs = All-from_each xs (λ _. omega arith)
drop_slots (suc n) [] = tt
drop_slots (suc n) (x ∷ xs) =
    All-map_implied _ (λ _. suc n ≤ suc (length xs)) (drop n xs) (λ _ h. omega arith)
      (drop_slots n xs)

-- Each interested peer is unchoked unless the slots are full of peers none of which is slower.
pub select_unchoked-IsOutranked :
    (peers : List PeerRate) (slots : ℕ) (optimistic : Option ℕ)
    → All
        (λ q.
          q.is_interested ≡ true
          → contains q.id (select_unchoked peers slots optimistic) ≡ false
          → IsOutranked peers slots q)
        peers
unfolding sort_by ranked
select_unchoked-IsOutranked peers slots optimistic =
    All-select_back _ (λ p. p.is_interested) peers
      (sort_by_back _ faster (select (λ p. p.is_interested) peers) (
        subst (All _) (take-append-drop slots (ranked peers)) (
          All-append _ (take slots (ranked peers)) _
            (All-map_implied _ _ (take slots (ranked peers)) (λ p h no. cc)
              (slots_unchoked peers slots optimistic))
            (All-map_implied _ _ (drop slots (ranked peers)) (λ p h no. h)
              (All-pair _ _ (drop slots (ranked peers))
                (front_of_sorted faster slots (ranked peers) (IsSortedBy-ranked peers))
                (drop_slots slots (ranked peers)))))))
