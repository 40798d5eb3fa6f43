-- ===== src/Trackers/Timer.antt =====
-- The announce timer of tracker_set.rs.
use btget.Prelude.{
  ℕ, zero, suc, ◌+◌, ◌^◌, ◌≤◌, ◌≡◌, ◌↔◌, ◌∙◌, true, arith, leb→le, le→leb, List, [], ◌∷◌, length,
}
use btget.Trackers.{
  AnnounceTimer, base_backoff, max_backoff, max_u32, ready, after_success, backoff, after_failure,
}
use native.Mathlib.Nat.{pow-suc}

pow-pos : (n : ℕ) → 1 ≤ 2 ^ n
pow-pos zero = omega arith
pow-pos (suc n) = omega (arith, pow-suc 2 n, pow-pos n)

-- A failed announce is retried no sooner than after 15 seconds and no later than after 15 minutes,
-- and one failure more never makes the wait shorter.
pub backoff_lem :
    (n : ℕ) → (base_backoff ≤ backoff n) × (backoff n ≤ max_backoff) × (backoff n ≤ backoff (suc n))
unfolding backoff
backoff_lem n = (omega (arith, pow-pos n), omega arith, omega (arith, pow-suc 2 n))

-- Failed announces at these times.
abbrev pub fail_at : AnnounceTimer → List ℕ → AnnounceTimer
fail_at t [] = t
fail_at t (now ∷ times) = fail_at (after_failure t now) times

failures-fail_at :
    (t : AnnounceTimer) (times : List ℕ)
    → t.failures + length times ≤ max_u32
    → (fail_at t times).failures ≡ t.failures + length times
unfolding after_failure
failures-fail_at t [] h = omega arith
failures-fail_at t (now ∷ times) h =
    failures-fail_at (after_failure t now) times (omega arith) ∙ omega arith

failures-fail_at-after_success :
    (t : AnnounceTimer) (interval success : ℕ) (times : List ℕ)
    → length times ≤ max_u32
    → (fail_at (after_success t interval success) times).failures ≡ length times
failures-fail_at-after_success t interval success times h =
    failures-fail_at (after_success t interval success) times (omega arith) ∙ omega arith

-- After a success and failures at `times`, the last announce having failed at `now`, the next
-- announce is due exactly when the back-off of that many failures has gone by.
pub after_failure-ready :
    (t : AnnounceTimer) (interval success now later : ℕ) (times : List ℕ)
    → length times ≤ max_u32
    → (ready (after_failure (fail_at (after_success t interval success) times) now) later ≡ true)
      ↔ (now + backoff (length times) ≤ later)
unfolding after_failure
after_failure-ready t interval success now later times h =
    rw (failures-fail_at-after_success t interval success times h) (leb→le _ _, le→leb _ _)
