-- ===== src/Tests/TrackersRuns.antt =====
-- Runs of the tracker set, and its theorems at concrete inputs.
use btget.Prelude.{
  ℕ, suc, ◌+◌, ◌≤◌, ◌≡◌, ◌↔◌, refl, true, List, [], ◌∷◌, arith, ltb, if◌then◌else◌, length, Bytes,
  Result, ok, err,
}
use btget.Trackers.{
  Error, bad_response, no_trackers, announce_tier, announce_tiers, announce, new_timer, ready,
  after_success, backoff, after_failure,
}
use btget.Trackers.Order.{join, forget, first_ok, announce-first_ok}
use btget.Trackers.Tiers.{IsAnnounced, announce-IsAnnounced}
use btget.Trackers.Timer.{fail_at, after_failure-ready}

-- An announcer that counts its calls and answers for long urls.
abbrev counting : ℕ → Bytes → ℕ × Result ℕ Error
counting calls url = (suc calls, if ltb 2 (length url) then ok (length url) else err bad_response)

abbrev times : List ℕ
times = 10 ∷ 20 ∷ []

abbrev tiers : List (List Bytes)
tiers = ((1 ∷ []) ∷ []) ∷ ((2 ∷ []) ∷ (3 ∷ 3 ∷ 3 ∷ []) ∷ (4 ∷ []) ∷ []) ∷ []

moved_to_front :
    announce counting 0 tiers
    ≡ (3, ((1 ∷ []) ∷ []) ∷ ((3 ∷ 3 ∷ 3 ∷ []) ∷ (2 ∷ []) ∷ (4 ∷ []) ∷ []) ∷ [], ok 3)
unfolding announce announce_tiers announce_tier
moved_to_front = refl

announce-first_ok_example :
    forget counting (announce counting 0 tiers) ≡ first_ok counting 0 no_trackers (join tiers)
announce-first_ok_example = announce-first_ok counting 0 tiers

announce-IsAnnounced_example : IsAnnounced counting tiers (announce counting 0 tiers)
announce-IsAnnounced_example = announce-IsAnnounced counting 0 tiers

after_failure-ready_example :
    (ready (after_failure (fail_at (after_success new_timer 1800 5) times) 30) 40 ≡ true)
    ↔ (30 + backoff (length times) ≤ 40)
after_failure-ready_example = after_failure-ready new_timer 1800 5 30 40 times (omega arith)
