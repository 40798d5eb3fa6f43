-- ===== src/Trackers/Order.antt =====
-- The order in which tracker_set.rs asks the trackers, and what it does to the tiers.
use btget.Prelude.{◌≡◌, refl, sym, ap, ◌∙◌, List, [], ◌∷◌, ◌++◌, Bytes, Result, ok, err}
use btget.Trackers.{
  Error, no_trackers, tracker_done, announce_tier, tier_done, announce_tiers, announce,
}

abbrev pub join {ℓ} : {A : Type ℓ} → List (List A) → List A
join [] = []
join (xs ∷ xss) = xs ++ join xss

-- The first answer in the list, else the error of the last one that was asked.
module _ {ℓ κ} {S : Type ℓ} {R : Type κ} (announcer : S → Bytes → S × Result R Error) where
  abbrev pub or_else : S × Result R Error → (S → Error → S × Result R Error) → S × Result R Error
  or_else (s, ok response) k = (s, ok response)
  or_else (s, err e) k = k s e

  unfoldable pub first_ok : S → Error → List Bytes → S × Result R Error
  first_ok s last [] = (s, err last)
  first_ok s last (url ∷ urls) = or_else (announcer s url) (λ s' e. first_ok s' e urls)

  or_else_assoc :
      (r : S × Result R Error) (k k' : S → Error → S × Result R Error)
      (m : S → Error → S × Result R Error)
      → ((s : S) (e : Error) → m s e ≡ or_else (k s e) k')
      → or_else r m ≡ or_else (or_else r k) k'
  or_else_assoc (s, ok response) k k' m h = refl
  or_else_assoc (s, err e) k k' m h = h s e

  first_ok-append :
      (s : S) (last : Error) (xs ys : List Bytes)
      → first_ok s last (xs ++ ys) ≡ or_else (first_ok s last xs) (λ s' e. first_ok s' e ys)
  unfolding first_ok
  first_ok-append s last [] ys = refl
  first_ok-append s last (x ∷ xs) ys =
      or_else_assoc (announcer s x) _ _ _ (λ s' e. first_ok-append s' e xs ys)

  -- What is left when the tiers are not looked at.
  abbrev pub forget {μ} : {T : Type μ} → S × T × Result R Error → S × Result R Error
  forget (s, tier, r) = (s, r)

  tracker_done_lem :
      (tried : List Bytes) (url : Bytes) (urls : List Bytes)
      (k : S → Error → S × List Bytes × Result R Error) (k' : S → Error → S × Result R Error)
      (r : S × Result R Error)
      → ((s : S) (e : Error) → forget (k s e) ≡ k' s e)
      → forget (tracker_done announcer tried url urls k r) ≡ or_else r k'
  tracker_done_lem tried url urls k k' (s, ok response) h = refl
  tracker_done_lem tried url urls k k' (s, err e) h = h s e

  announce_tier-first_ok :
      (s : S) (last : Error) (tried urls : List Bytes)
      → forget (announce_tier announcer s last tried urls) ≡ first_ok s last urls
  unfolding announce_tier first_ok
  announce_tier-first_ok s last tried [] = refl
  announce_tier-first_ok s last tried (url ∷ urls) =
      tracker_done_lem tried url urls
        (λ s' e. announce_tier announcer s' e (tried ++ url ∷ []) urls) (λ s' e. first_ok s' e urls)
        (announcer s url) (λ s' e. announce_tier-first_ok s' e (tried ++ url ∷ []) urls)

  tier_done_lem :
      (tiers : List (List Bytes)) (k : S → Error → S × List (List Bytes) × Result R Error)
      (k' : S → Error → S × Result R Error) (r : S × List Bytes × Result R Error)
      → ((s : S) (e : Error) → forget (k s e) ≡ k' s e)
      → forget (tier_done announcer tiers k r) ≡ or_else (forget r) k'
  tier_done_lem tiers k k' (s, tier, ok response) h = refl
  tier_done_lem tiers k k' (s, tier, err e) h = h s e

  announce_tiers-first_ok :
      (s : S) (last : Error) (tiers : List (List Bytes))
      → forget (announce_tiers announcer s last tiers) ≡ first_ok s last (join tiers)
  unfolding announce_tiers first_ok
  announce_tiers-first_ok s last [] = refl
  announce_tiers-first_ok s last (tier ∷ tiers) =
      tier_done_lem tiers (λ s' e. announce_tiers announcer s' e tiers)
        (λ s' e. first_ok s' e (join tiers)) (announce_tier announcer s last [] tier)
        (λ s' e. announce_tiers-first_ok s' e tiers)
      ∙ ap (λ r. or_else r (λ s' e. first_ok s' e (join tiers)))
          (announce_tier-first_ok s last [] tier)
      ∙ sym (first_ok-append s last tier (join tiers))

  -- The trackers are asked in the order of the tiers, each in the state that the one before left,
  -- until one answers; its response is the result, or else the last error is.
  pub announce-first_ok :
      (s : S) (tiers : List (List Bytes))
      → forget (announce announcer s tiers) ≡ first_ok s no_trackers (join tiers)
  unfolding announce
  announce-first_ok s tiers = announce_tiers-first_ok s no_trackers tiers
