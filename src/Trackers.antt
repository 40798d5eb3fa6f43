-- ===== src/Trackers.antt =====
-- bt/src/tracker_set.rs: the trackers of a torrent in their tiers, and the time of the next announce.
-- What a single announce does is the `announcer`, which may keep a state; a response is whatever it
-- returns. Instants and durations are numbers of nanoseconds.
pub mod Order
pub mod Tiers
pub mod Timer
pub mod Answers
use btget.Prelude.{
  ℕ, zero, suc, ◌+◌, ◌*◌, ◌-◌, ◌^◌, min, Bool, true, false, List, [], ◌∷◌, ◌++◌, Option, none, some,
  leb, Bytes, ascii, Result, ok, err,
}

-- The errors of bt/src/tracker.rs, their texts as bytes.
pub data Error : Type 0 where
  unsupported_url : Bytes → Error
  io : Bytes → Error
  http_status : ℕ → Error
  bad_response : Error
  failure : Bytes → Error

abbrev pub no_trackers : Error
no_trackers = unsupported_url (ascii "no trackers")

module _ {ℓ κ} {S : Type ℓ} {R : Type κ} (announcer : S → Bytes → S × Result R Error) where
  -- An announce that answered ends the loop, and its tracker moves to the front of its tier;
  -- `tried` are those before it. After one that failed the loop goes on.
  abbrev pub tracker_done :
      List Bytes
      → Bytes
      → List Bytes
      → (S → Error → S × List Bytes × Result R Error)
      → S × Result R Error
      → S × List Bytes × Result R Error
  tracker_done tried url urls continue (s, ok response) = (s, url ∷ (tried ++ urls), ok response)
  tracker_done tried url urls continue (s, err e) = continue s e

  unfoldable pub announce_tier :
      S → Error → List Bytes → List Bytes → S × List Bytes × Result R Error
  announce_tier s last tried [] = (s, tried, err last)
  announce_tier s last tried (url ∷ urls) =
      tracker_done tried url urls (λ s' e. announce_tier s' e (tried ++ url ∷ []) urls)
        (announcer s url)

  abbrev pub tier_done :
      List (List Bytes)
      → (S → Error → S × List (List Bytes) × Result R Error)
      → S × List Bytes × Result R Error
      → S × List (List Bytes) × Result R Error
  tier_done tiers continue (s, tier, ok response) = (s, tier ∷ tiers, ok response)
  tier_done tiers continue (s, tier, err e) =
      let (s', tiers', result) = continue s e in (s', tier ∷ tiers', result)

  unfoldable pub announce_tiers :
      S → Error → List (List Bytes) → S × List (List Bytes) × Result R Error
  unfolding announce_tier
  announce_tiers s last [] = (s, [], err last)
  announce_tiers s last (tier ∷ tiers) =
      tier_done tiers (λ s' e. announce_tiers s' e tiers) (announce_tier s last [] tier)

  unfoldable pub announce : S → List (List Bytes) → S × List (List Bytes) × Result R Error
  unfolding announce_tiers
  announce s tiers = announce_tiers s no_trackers tiers

pub record AnnounceTimer : Type 0 where
  pub due : Option ℕ
  pub failures : ℕ

abbrev pub second : ℕ
second = 10 ^ 9

abbrev pub base_backoff : ℕ
base_backoff = 15 * second

abbrev pub max_backoff : ℕ
max_backoff = 900 * second

abbrev pub max_u32 : ℕ
max_u32 = 2 ^ 32 - 1

abbrev pub new_timer : AnnounceTimer
new_timer = record { due = none; failures = 0 }

abbrev pub is_due : Option ℕ → ℕ → Bool
is_due none now = true
is_due (some due) now = leb due now

abbrev pub ready : AnnounceTimer → ℕ → Bool
ready t now = is_due t.due now

abbrev pub after_success : AnnounceTimer → ℕ → ℕ → AnnounceTimer
after_success t interval_secs now = record {
  due = some (now + interval_secs * second);
  failures = 0;
}

-- The saturation of the product is above the least backoff that the minimum lets through.
unfoldable pub backoff : ℕ → ℕ
backoff failures = min (base_backoff * min (2 ^ failures) max_u32) max_backoff

unfoldable pub after_failure : AnnounceTimer → ℕ → AnnounceTimer
unfolding backoff
after_failure t now = record {
  due = some (now + backoff t.failures);
  failures = min (t.failures + 1) max_u32;
}
