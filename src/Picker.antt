-- ===== src/Picker.antt =====
-- bt/src/picker.rs: which piece to fetch next, the rarest first. The HashMap of active pieces is an
-- association list with one entry for each key.
pub mod Active
pub mod Pick
use btget.Prelude.{
  ℕ, zero, suc, ◌+◌, ◌-◌, ◌%◌, ◌^◌, ◌≡◌, Bool, true, false, not, ◌&&◌, ◌||◌, Option, none, some,
  List, [], ◌∷◌, ltb, leb, ◌==◌, if◌then◌else◌, select,
}
use btget.Pieces.Bitfield
use btget.Pieces.Bitfield.{Bitfield}
use btget.Pieces.Availability
use btget.Pieces.Availability.{Availability}

-- HashMap<u32, u32>
abbrev pub Counts : Type 0
Counts = List (ℕ × ℕ)

unfoldable pub get : ℕ → Counts → Option ℕ
get k [] = none
get k ((j, c) ∷ m) = if j == k then some c else get k m

unfoldable pub put : ℕ → ℕ → Counts → Counts
put k v [] = (k, v) ∷ []
put k v ((j, c) ∷ m) = if j == k then (k, v) ∷ m else (j, c) ∷ put k v m

unfoldable pub delete : ℕ → Counts → Counts
delete k [] = []
delete k ((j, c) ∷ m) = if j == k then delete k m else (j, c) ∷ delete k m

abbrev pub is_some {ℓ} : {A : Type ℓ} → Option A → Bool
is_some none = false
is_some (some a) = true

abbrev pub unwrap_or_zero : Option ℕ → ℕ
unwrap_or_zero none = 0
unwrap_or_zero (some c) = c

pub record PiecePicker : Type 0 where
  pub active : Counts
  pub endgame_cap : ℕ

unfoldable pub new : ℕ → PiecePicker
new endgame_cap = record { active = []; endgame_cap = endgame_cap }

unfoldable pub active_count : PiecePicker → ℕ → ℕ
unfolding get
active_count p piece = unwrap_or_zero (get piece p.active)

unfoldable pub is_active : PiecePicker → ℕ → Bool
unfolding get
is_active p piece = is_some (get piece p.active)

-- The order of keys `(u32, u32, u32)`.
abbrev pub key_lt : ℕ × ℕ × ℕ → ℕ × ℕ × ℕ → Bool
key_lt (a, b, c) (x, y, z) = ltb a x || ((a == x) && (ltb b y || ((b == y) && ltb c z)))

-- `min_by_key`: the first element whose key is least.
unfoldable pub min_by_key : (ℕ → ℕ × ℕ × ℕ) → List ℕ → Option ℕ
min_by_key key [] = none
min_by_key key (x ∷ xs) = elim (min_by_key key xs) [
  | none ↦ some x
  | some y ↦ some (if key_lt (key y) (key x) then y else x)
]

-- The pieces that we lack and the peer has.
unfoldable pub candidates : Bitfield → Bitfield → List ℕ
candidates ours theirs = select (λ i. Bitfield.has theirs i) (Bitfield.missing ours)

-- The key `(availability, index)` of the fresh pieces has two parts: the first here is 0.
abbrev pub fresh_key : Availability → ℕ → ℕ × ℕ × ℕ
fresh_key availability i = (0, Availability.count availability i, i)

abbrev pub endgame_key : PiecePicker → Availability → ℕ → ℕ × ℕ × ℕ
endgame_key p availability i = (active_count p i, Availability.count availability i, i)

unfoldable pub choose : PiecePicker → Bitfield → Bitfield → Availability → Option ℕ
unfolding min_by_key candidates
choose p ours theirs availability =
    let all = candidates ours theirs in
    elim (min_by_key (fresh_key availability) (select (λ i. not (is_active p i)) all)) [
      | some i ↦ some i
      | none ↦
          min_by_key (endgame_key p availability)
            (select (λ i. ltb (active_count p i) p.endgame_cap) all)
    ]

unfoldable pub pick : PiecePicker → Bitfield → Bitfield → Availability → PiecePicker × Option ℕ
unfolding choose put
pick p ours theirs availability = elim (choose p ours theirs availability) [
  | none ↦ (p, none)
  | some i ↦ (record p { active = put i ((active_count p i + 1) % 2 ^ 32) p.active }, some i)
]

unfoldable pub complete : PiecePicker → ℕ → PiecePicker
unfolding delete
complete p piece = record p { active = delete piece p.active }

-- `*count -= 1`, of a u32.
abbrev pub decrement : ℕ → ℕ
decrement c = (c + 2 ^ 32 - 1) % 2 ^ 32

unfoldable pub abandon : PiecePicker → ℕ → PiecePicker
unfolding get put delete
abandon p piece = elim (get piece p.active) [
  | none ↦ p
  | some c ↦
      if decrement c == 0
      then record p { active = delete piece p.active }
      else record p { active = put piece (decrement c) p.active }
]

unfoldable pub all_active : PiecePicker → List ℕ → Bool
all_active p [] = true
all_active p (i ∷ is) = is_active p i && all_active p is

unfoldable pub in_endgame : PiecePicker → Bitfield → Bool
unfolding all_active
in_endgame p ours = all_active p (Bitfield.missing ours)
