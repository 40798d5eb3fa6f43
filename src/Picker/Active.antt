-- ===== src/Picker/Active.antt =====
-- The active counts of picker.rs: the map, and what `complete` and `abandon` do to a count.
use btget.Prelude.{
  ℕ, ◌+◌, ◌-◌, ◌^◌, ◌≤◌, ◌<◌, ◌≡◌, refl, none, some, [], ◌∷◌, arith, ◌==◌, if◌then◌else◌, max,
  Option-cases, inl, inr, subst, sym,
}
use btget.Picker.{
  Counts, get, put, delete, PiecePicker, new, active_count, complete, abandon, decrement,
}

pub get-put : (k j v : ℕ) (m : Counts) → get j (put k v m) ≡ (if k == j then some v else get j m)
unfolding get put
get-put k j v [] = refl
get-put k j v ((i, c) ∷ m) = ground (arith, get-put k j v m)

pub get-delete : (k j : ℕ) (m : Counts) → get j (delete k m) ≡ (if k == j then none else get j m)
unfolding get delete
get-delete k j [] = ground arith
get-delete k j ((i, c) ∷ m) = ground (arith, get-delete k j m)

-- A stored count is at least 1 and at most the cap, or 1 where the cap is 0.
pub record IsValid (p : PiecePicker) : Type 0 where
  pub positive : (k c : ℕ) → get k p.active ≡ some c → 0 < c
  pub capped : (k c : ℕ) → get k p.active ≡ some c → c ≤ max 1 p.endgame_cap
  pub cap_fits : p.endgame_cap + 1 < 2 ^ 32

pub new-IsValid : (cap : ℕ) → cap + 1 < 2 ^ 32 → IsValid (new cap)
unfolding new get
new-IsValid cap h = record { positive = λ k c e. cc; capped = λ k c e. cc; cap_fits = h }

pub complete-IsValid : (p : PiecePicker) (i : ℕ) → IsValid p → IsValid (complete p i)
unfolding complete
complete-IsValid p i v = record {
  positive = λ k c e. ground (arith, get-delete i k p.active, v.positive k c);
  capped = λ k c e. ground (arith, get-delete i k p.active, v.capped k c);
  cap_fits = v.cap_fits;
}

-- `complete` forgets the piece, and keeps the count of every other.
pub active_count-complete :
    (p : PiecePicker) (i j : ℕ)
    → active_count (complete p i) j ≡ (if i == j then 0 else active_count p j)
unfolding active_count complete
active_count-complete p i j = ground (arith, get-delete i j p.active)

-- The state after `abandon`, with the piece's count at hand.
abbrev after_abandon : PiecePicker → ℕ → ℕ → Counts
after_abandon p i c = if decrement c == 0 then delete i p.active else put i (decrement c) p.active

active-abandon-none : (p : PiecePicker) (i : ℕ) → get i p.active ≡ none → abandon p i ≡ p
unfolding abandon
active-abandon-none p i e = rw (e, abandon)

active-abandon-some :
    (p : PiecePicker) (i c : ℕ)
    → get i p.active ≡ some c
    → abandon p i ≡ record p { active = after_abandon p i c }
unfolding abandon
active-abandon-some p i c e = ground (arith, e)

get-after_abandon :
    (p : PiecePicker) (i j c : ℕ)
    → get i p.active ≡ some c
    → 0 < c
    → c < 2 ^ 32
    → get j (after_abandon p i c)
      ≡ (if i == j then (if c == 1 then none else some (c - 1)) else get j p.active)
get-after_abandon p i j c e lo hi =
    ground (arith, get-put i j (decrement c) p.active, get-delete i j p.active)

-- `abandon` takes one fetch of the piece off its count, and keeps the count of every other.
pub active_count-abandon :
    (p : PiecePicker) (i j : ℕ)
    → IsValid p
    → active_count (abandon p i) j ≡ (if i == j then active_count p j - 1 else active_count p j)
unfolding active_count
active_count-abandon p i j v = elim (Option-cases (get i p.active)) [
  | inl e ↦ ground (arith, active-abandon-none p i e)
  | inr (c, e) ↦
      rw (active-abandon-some p i c e)
        (ground (arith, get-after_abandon p i j c e, v.positive i c e, v.capped i c e, v.cap_fits))
]

pub abandon-IsValid : (p : PiecePicker) (i : ℕ) → IsValid p → IsValid (abandon p i)
abandon-IsValid p i v = elim (Option-cases (get i p.active)) [
  | inl e ↦ subst IsValid (sym (active-abandon-none p i e)) v
  | inr (c, e) ↦ subst IsValid (sym (active-abandon-some p i c e)) (record {
    positive = λ k d h. ground (
      arith,
      get-after_abandon p i k c e,
      v.positive i c e,
      v.capped i c e,
      v.cap_fits,
      v.positive k d,
    );
    capped = λ k d h. ground (
      arith,
      get-after_abandon p i k c e,
      v.positive i c e,
      v.capped i c e,
      v.cap_fits,
      v.capped k d,
    );
    cap_fits = v.cap_fits;
  })
]
