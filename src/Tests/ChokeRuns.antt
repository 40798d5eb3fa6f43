-- ===== src/Tests/ChokeRuns.antt =====
-- Runs of the unchoke slots, and their theorems at concrete inputs.
use btget.Prelude.{◌≡◌, refl, true, false, List, [], ◌∷◌, some, none}
use btget.Prelude.Sorting.{insert_by, sort_by}
use btget.Choke.{PeerRate, OptimisticRotor, faster, ranked, select_unchoked, maybe_rotate}
use btget.Choke.Fair.{IsFair, select_unchoked-IsFair}
use btget.Choke.Rotor.{IsAnswer, maybe_rotate-IsAnswer}

abbrev peers : List PeerRate
peers =
    record { id = 1; downloaded_from = 50; is_interested = true }
    ∷ record { id = 2; downloaded_from = 90; is_interested = true }
    ∷ record { id = 3; downloaded_from = 99; is_interested = false }
    ∷ record { id = 4; downloaded_from = 50; is_interested = true }
    ∷ []

fastest_two : select_unchoked peers 2 none ≡ 2 ∷ 1 ∷ []
unfolding select_unchoked ranked faster insert_by sort_by
fastest_two = refl

select_unchoked-IsFair_example : IsFair peers 2 (some 3) (select_unchoked peers 2 (some 3))
select_unchoked-IsFair_example = select_unchoked-IsFair peers 2 (some 3)

abbrev rotor : OptimisticRotor
rotor = record { current = some 8; rotated_at = some 100; interval = 30 }

rotated : (maybe_rotate rotor (7 ∷ 8 ∷ 9 ∷ []) 130).1 ≡ some 9
unfolding maybe_rotate
rotated = refl

kept : (maybe_rotate rotor (7 ∷ 8 ∷ 9 ∷ []) 129).1 ≡ some 8
unfolding maybe_rotate
kept = refl

maybe_rotate-IsAnswer_example :
    IsAnswer (7 ∷ 8 ∷ 9 ∷ []) (maybe_rotate rotor (7 ∷ 8 ∷ 9 ∷ []) 130).1
maybe_rotate-IsAnswer_example = maybe_rotate-IsAnswer rotor (7 ∷ 8 ∷ 9 ∷ []) 130
