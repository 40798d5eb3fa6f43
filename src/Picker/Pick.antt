-- ===== src/Picker/Pick.antt =====
-- What `pick` of picker.rs chooses.
use btget.Prelude.{
  ℕ, ◌+◌, ◌%◌, ◌^◌, ◌≤◌, ◌<◌, ◌≡◌, refl, true, false, not, ◌&&◌, none, some, List, [], ◌∷◌, arith,
  ltb, ◌==◌, if◌then◌else◌, select, contains, contains-select, Option-cases, Bool-cases, inl, inr,
  ==_iff, ap, ◌⊎◌, subst, sym,
}
use btget.Pieces.Bitfield
use btget.Pieces.Bitfield.{Bitfield}
use btget.Pieces.Availability
use btget.Pieces.Availability.{Availability}
use btget.Picker.{
  PiecePicker, min_by_key, key_lt, active_count, is_active, candidates, fresh_key, endgame_key,
  choose, pick, put,
}
use btget.Picker.Active.{IsValid, get-put}

key_lt_irrefl : (a : ℕ × ℕ × ℕ) → key_lt a a ≡ false
key_lt_irrefl (a, b, c) = ground arith

-- Not below is transitive.
key_lt-trans_false :
    (a b c : ℕ × ℕ × ℕ) → key_lt b a ≡ false → key_lt c b ≡ false → key_lt c a ≡ false
key_lt-trans_false (a, b, c) (u, v, w) (x, y, z) h k = ground arith

key_lt_asymm : (a b : ℕ × ℕ × ℕ) → key_lt a b ≡ true → key_lt b a ≡ false
key_lt_asymm (a, b, c) (u, v, w) h = ground arith

module _ (key : ℕ → ℕ × ℕ × ℕ) where
  min_by_key-none : (xs : List ℕ) → min_by_key key xs ≡ none → xs ≡ []
  unfolding min_by_key
  min_by_key-none [] e = refl
  min_by_key-none (x ∷ xs) e = elim (Option-cases (min_by_key key xs)) [
    | inl n ↦ cc (rw (n, min_by_key) at e)
    | inr (y, s) ↦ cc (rw (s, min_by_key) at e)
  ]

  min_by_key-contains : (xs : List ℕ) (y : ℕ) → min_by_key key xs ≡ some y → contains y xs ≡ true
  unfolding min_by_key
  min_by_key-contains [] y e = cc
  min_by_key-contains (x ∷ xs) y e = elim (Option-cases (min_by_key key xs)) [
    | inl n ↦ ground (arith, rw (n, min_by_key) at e)
    | inr (z, s) ↦ ground (arith, rw (s, min_by_key) at e, min_by_key-contains xs z s)
  ]

  -- The head, or what was least in the tail.
  module _ (x : ℕ) (xs : List ℕ) where
    min_by_key_cons :
        (y z : ℕ)
        → min_by_key key xs ≡ some z
        → min_by_key key (x ∷ xs) ≡ some y
        → y ≡ (if key_lt (key z) (key x) then z else x)
    unfolding min_by_key
    min_by_key_cons y z s e = ground (arith, rw (s, min_by_key) at e)

    min_by_key_last : (y : ℕ) → min_by_key key xs ≡ none → min_by_key key (x ∷ xs) ≡ some y → y ≡ x
    unfolding min_by_key
    min_by_key_last y s e = ground (arith, rw (s, min_by_key) at e)

  -- No element's key is below that of the one chosen.
  min_by_key-least :
      (xs : List ℕ) (y w : ℕ)
      → min_by_key key xs ≡ some y
      → contains w xs ≡ true
      → key_lt (key w) (key y) ≡ false
  min_by_key-least [] y w e h = cc
  min_by_key-least (x ∷ xs) y w e h = elim (Option-cases (min_by_key key xs)) [
    | inl n ↦ rw (min_by_key_last x xs y n e, ← same n) (key_lt_irrefl (key x))
    | inr (z, s) ↦ elim (Bool-cases (x == w)) [
      | inl at_x ↦ rw (min_by_key_cons x xs y z s e, ← (==_iff x w).0 at_x) (head_least x z)
      | inr other ↦
          rw (min_by_key_cons x xs y z s e)
            (tail_least x z w (min_by_key-least xs z w s (rw other at h)))
    ]
  ]
    where
      same : min_by_key key xs ≡ none → x ≡ w
      same n = ground (arith, min_by_key-none xs n)

      head_least :
          (x z : ℕ) → key_lt (key x) (key (if key_lt (key z) (key x) then z else x)) ≡ false
      head_least x z = elim (Bool-cases (key_lt (key z) (key x))) [
        | inl t ↦ rw t (key_lt_asymm (key z) (key x) t)
        | inr t ↦ rw t (key_lt_irrefl (key x))
      ]

      tail_least :
          (x z w : ℕ)
          → key_lt (key w) (key z) ≡ false
          → key_lt (key w) (key (if key_lt (key z) (key x) then z else x)) ≡ false
      tail_least x z w k = elim (Bool-cases (key_lt (key z) (key x))) [
        | inl t ↦ rw t k
        | inr t ↦ rw t (key_lt-trans_false (key x) (key z) (key w) t k)
      ]

no_element : (i : ℕ) (xs : List ℕ) → xs ≡ [] → contains i xs ≡ true → ⊥
no_element i xs e h = cc (ap (contains i) e)

module _ (p : PiecePicker) (ours theirs : Bitfield) (availability : Availability) where
  -- A piece that we lack and the peer has.
  abbrev pub IsCandidate : ℕ → Type 0
  IsCandidate i = (contains i (Bitfield.missing ours) ≡ true) × (Bitfield.has theirs i ≡ true)

  abbrev fresh : List ℕ
  fresh = select (λ i. not (is_active p i)) (candidates ours theirs)

  abbrev below_cap : List ℕ
  below_cap = select (λ i. ltb (active_count p i) p.endgame_cap) (candidates ours theirs)

  contains-candidates :
      (i : ℕ)
      → contains i (candidates ours theirs)
        ≡ (contains i (Bitfield.missing ours) && Bitfield.has theirs i)
  unfolding candidates
  contains-candidates i = contains-select (λ i. Bitfield.has theirs i) i (Bitfield.missing ours)

  contains-fresh :
      (i : ℕ) → contains i fresh ≡ (contains i (candidates ours theirs) && not (is_active p i))
  contains-fresh i = contains-select (λ i. not (is_active p i)) i (candidates ours theirs)

  contains-below_cap :
      (i : ℕ)
      → contains i below_cap
        ≡ (contains i (candidates ours theirs) && ltb (active_count p i) p.endgame_cap)
  contains-below_cap i =
      contains-select (λ i. ltb (active_count p i) p.endgame_cap) i (candidates ours theirs)

  -- No peer has the piece of a fresh candidate less often.
  pub record IsRarest (i : ℕ) : Type 0 where
    pub candidate : IsCandidate i
    pub idle : is_active p i ≡ false
    pub rarest :
        (j : ℕ)
        → IsCandidate j
        → is_active p j ≡ false
        → Availability.count availability i ≤ Availability.count availability j

  -- Every candidate is being fetched, and this one by the fewest, and fewer than the cap.
  pub record IsDuplicate (i : ℕ) : Type 0 where
    pub candidate : IsCandidate i
    pub all_busy : (j : ℕ) → IsCandidate j → is_active p j ≡ true
    pub under_cap : active_count p i < p.endgame_cap
    pub fewest :
        (j : ℕ)
        → IsCandidate j
        → active_count p j < p.endgame_cap
        → active_count p i ≤ active_count p j

  choose-IsRarest : (i : ℕ) → min_by_key (fresh_key availability) fresh ≡ some i → IsRarest i
  choose-IsRarest i e =
      let found = min_by_key-contains (fresh_key availability) fresh i e in
      record {
        candidate = ground (arith, found, contains-fresh i, contains-candidates i);
        idle = ground (arith, found, contains-fresh i);
        rarest = λ j c idle. ground (
          arith,
          min_by_key-least (fresh_key availability) fresh i j e,
          contains-fresh j,
          contains-candidates j,
        );
      }

  choose-IsDuplicate :
      (i : ℕ)
      → min_by_key (fresh_key availability) fresh ≡ none
      → min_by_key (endgame_key p availability) below_cap ≡ some i
      → IsDuplicate i
  choose-IsDuplicate i n e =
      let found = min_by_key-contains (endgame_key p availability) below_cap i e in
      let empty = min_by_key-none (fresh_key availability) fresh n in
      record {
        candidate = ground (arith, found, contains-below_cap i, contains-candidates i);
        all_busy = λ j c.
            ground (arith, no_element j fresh empty, contains-fresh j, contains-candidates j);
        under_cap = ground (arith, found, contains-below_cap i);
        fewest = λ j c under. ground (
          arith,
          min_by_key-least (endgame_key p availability) below_cap i j e,
          contains-below_cap j,
          contains-candidates j,
        );
      }

  -- What `choose` answers.
  choose_lem :
      ((i : ℕ) × (choose p ours theirs availability ≡ some i) × (IsRarest i ⊎ IsDuplicate i))
      ⊎ ((choose p ours theirs availability ≡ none)
          × ((j : ℕ) → IsCandidate j → p.endgame_cap ≤ active_count p j))
  unfolding choose
  choose_lem = elim (Option-cases (min_by_key (fresh_key availability) fresh)) [
    | inr (i, e) ↦ inl (i, ground (arith, e), inl (choose-IsRarest i e))
    | inl n ↦ elim (Option-cases (min_by_key (endgame_key p availability) below_cap)) [
      | inr (i, e) ↦ inl (i, ground (arith, n, e), inr (choose-IsDuplicate i n e))
      | inl m ↦ inr (
        ground (arith, n, m),
        λ j c. ground (
          arith,
          no_element j below_cap (min_by_key-none (endgame_key p availability) below_cap m),
          contains-below_cap j,
          contains-candidates j,
        ),
      )
    ]
  ]

  -- A count that is to be raised is below the cap, or 0.
  chosen_below :
      (i : ℕ)
      → IsRarest i ⊎ IsDuplicate i
      → (active_count p i ≡ 0) ⊎ (active_count p i < p.endgame_cap)
  unfolding active_count is_active
  chosen_below i (inl r) = inl (ground (arith, r.idle))
  chosen_below i (inr d) = inr d.under_cap

  raised : ℕ → PiecePicker
  raised i = record p { active = put i ((active_count p i + 1) % 2 ^ 32) p.active }

  pick-some :
      (i : ℕ)
      → choose p ours theirs availability ≡ some i
      → pick p ours theirs availability ≡ (raised i, some i)
  unfolding pick raised
  pick-some i e = rw (e, pick)

  pick-none : choose p ours theirs availability ≡ none → pick p ours theirs availability ≡ (p, none)
  unfolding pick
  pick-none e = rw (e, pick)

  active_count-raised :
      (i j : ℕ)
      → IsValid p
      → IsRarest i ⊎ IsDuplicate i
      → active_count (raised i) j ≡ (if i == j then active_count p j + 1 else active_count p j)
  unfolding raised active_count
  active_count-raised i j v c =
      ground (
        arith,
        get-put i j ((active_count p i + 1) % 2 ^ 32) p.active,
        chosen_below i c,
        v.cap_fits,
      )

  raised-IsValid : (i : ℕ) → IsValid p → IsRarest i ⊎ IsDuplicate i → IsValid (raised i)
  unfolding raised active_count
  raised-IsValid i v c = record {
    positive = λ k n e. ground (
      arith,
      get-put i k ((active_count p i + 1) % 2 ^ 32) p.active,
      chosen_below i c,
      v.cap_fits,
      v.positive k n,
    );
    capped = λ k n e. ground (
      arith,
      get-put i k ((active_count p i + 1) % 2 ^ 32) p.active,
      chosen_below i c,
      v.cap_fits,
      v.capped k n,
    );
    cap_fits = v.cap_fits;
  }

  -- `pick` answers with a piece that we lack and the peer has, the rarest of those that nobody
  -- fetches, or, where all are being fetched, one that the fewest fetch, fewer than the cap. It
  -- raises that piece's count by one and changes no other. Where it answers with nothing it changes
  -- nothing, and every piece that we lack and the peer has is fetched by as many as the cap allows.
  pub pick_lem :
      IsValid p
      → ((i : ℕ) × ((pick p ours theirs availability).1 ≡ some i)
          × (IsRarest i ⊎ IsDuplicate i)
          × ((j : ℕ)
              → active_count (pick p ours theirs availability).0 j
                ≡ (if i == j then active_count p j + 1 else active_count p j)))
        ⊎ ((pick p ours theirs availability ≡ (p, none))
            × ((j : ℕ) → IsCandidate j → p.endgame_cap ≤ active_count p j))
  pick_lem v = elim choose_lem [
    | inl (i, e, c) ↦
        inl (i, rw (pick-some i e), c, λ j. rw (pick-some i e) (active_count-raised i j v c))
    | inr (e, busy) ↦ inr (pick-none e, busy)
  ]

  -- `pick` keeps the counts positive and within the cap.
  pub pick-IsValid : IsValid p → IsValid (pick p ours theirs availability).0
  pick-IsValid v = elim choose_lem [
    | inl (i, e, c) ↦ subst (λ q. IsValid q.0) (sym (pick-some i e)) (raised-IsValid i v c)
    | inr (e, busy) ↦ subst (λ q. IsValid q.0) (sym (pick-none e)) v
  ]
