-- ===== src/Tests/PickerRuns.antt =====
-- Runs of picker.rs, and its theorems at concrete inputs.
use btget.Prelude.{
  ℕ, ◌+◌, ◌-◌, ◌≤◌, ◌≡◌, refl, arith, ◌⊎◌, some, none, [], ◌∷◌, ◌==◌, if◌then◌else◌,
}
use btget.Prelude.Bits.{test_bit}
use btget.Pieces.Bitfield
use btget.Pieces.Bitfield.{Bitfield}
use btget.Pieces.Availability
use btget.Pieces.Availability.{Availability}
use btget.Picker.{new, active_count, is_active, pick, abandon}
use btget.Picker.Active.{IsValid, new-IsValid, active_count-abandon}
use btget.Picker.Pick.{IsCandidate, IsRarest, IsDuplicate, pick_lem, pick-IsValid}

abbrev ours : Bitfield
ours = record { bits = 0 ∷ []; pieces = 3 }

abbrev theirs : Bitfield
theirs = record { bits = 0xe0 ∷ []; pieces = 3 }

abbrev counts : Availability
counts = record { counts = 3 ∷ 1 ∷ 2 ∷ [] }

rarest_first : (pick (new 2) ours theirs counts).1 ≡ some 1
unfolding pick new Bitfield.missing Bitfield.has test_bit Availability.count active_count is_active
rarest_first = refl

fresh-IsValid : IsValid (new 2)
fresh-IsValid = new-IsValid 2 (omega arith)

pick-IsValid_example : IsValid (pick (new 2) ours theirs counts).0
pick-IsValid_example = pick-IsValid (new 2) ours theirs counts fresh-IsValid

pick_lem_example :
    ((i : ℕ) × ((pick (new 2) ours theirs counts).1 ≡ some i)
      × (IsRarest (new 2) ours theirs counts i ⊎ IsDuplicate (new 2) ours theirs counts i)
      × ((j : ℕ)
          → active_count (pick (new 2) ours theirs counts).0 j
            ≡ (if i == j then active_count (new 2) j + 1 else active_count (new 2) j)))
    ⊎ ((pick (new 2) ours theirs counts ≡ (new 2, none))
        × ((j : ℕ)
            → IsCandidate (new 2) ours theirs counts j
            → (new 2).endgame_cap ≤ active_count (new 2) j))
pick_lem_example = pick_lem (new 2) ours theirs counts fresh-IsValid

active_count-abandon_example : active_count (abandon (pick (new 2) ours theirs counts).0 1) 1 ≡ (
    if 1 == 1
    then active_count (pick (new 2) ours theirs counts).0 1 - 1
    else active_count (pick (new 2) ours theirs counts).0 1)
active_count-abandon_example =
    active_count-abandon (pick (new 2) ours theirs counts).0 1 1 pick-IsValid_example
