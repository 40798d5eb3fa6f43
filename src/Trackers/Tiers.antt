-- ===== src/Trackers/Tiers.antt =====
-- What an announce of tracker_set.rs does to the tiers.
use btget.Prelude.{
  ◌≡◌, refl, sym, List, [], ◌∷◌, ◌++◌, append-nil, append_assoc, Bytes, Result, ok, err, subst,
}
use btget.Trackers.{
  Error, no_trackers, tracker_done, announce_tier, tier_done, announce_tiers, announce,
}

module _ {ℓ κ} {S : Type ℓ} {R : Type κ} (announcer : S → Bytes → S × Result R Error) where
  -- The tracker that gave the response moved from behind `tried` to the front of its tier.
  pub data IsFront (s : S) (response : R) : List Bytes → List Bytes → Type (ℓ ⊔ κ) where
    to_front :
        (tried : List Bytes) (url : Bytes) (urls : List Bytes) (s₀ : S)
        → announcer s₀ url ≡ (s, ok response)
        → IsFront s response (tried ++ url ∷ urls) (url ∷ (tried ++ urls))

  pub data IsMoved (s : S) (response : R)
      : List (List Bytes) → List (List Bytes) → Type (ℓ ⊔ κ) where
    here :
        {tier tier' : List Bytes} (tiers : List (List Bytes))
        → IsFront s response tier tier'
        → IsMoved s response (tier ∷ tiers) (tier' ∷ tiers)
    there :
        (tier : List Bytes) {tiers tiers' : List (List Bytes)}
        → IsMoved s response tiers tiers'
        → IsMoved s response (tier ∷ tiers) (tier ∷ tiers')

  -- A failed announce leaves the tiers as they are; one that answered moves its tracker.
  data IsTierAfter (tier : List Bytes) : S × List Bytes × Result R Error → Type (ℓ ⊔ κ) where
    tier_failed : (s : S) (e : Error) → IsTierAfter tier (s, tier, err e)
    tier_answered :
        (s : S) (response : R) (tier' : List Bytes)
        → IsFront s response tier tier'
        → IsTierAfter tier (s, tier', ok response)

  pub data IsAnnounced (tiers : List (List Bytes))
      : S × List (List Bytes) × Result R Error → Type (ℓ ⊔ κ) where
    failed : (s : S) (e : Error) → IsAnnounced tiers (s, tiers, err e)
    answered :
        (s : S) (response : R) (tiers' : List (List Bytes))
        → IsMoved s response tiers tiers'
        → IsAnnounced tiers (s, tiers', ok response)

  tracker_done-IsTierAfter :
      (tier tried : List Bytes) (url : Bytes) (urls : List Bytes)
      (k : S → Error → S × List Bytes × Result R Error) (s₀ : S) (r : S × Result R Error)
      → tier ≡ tried ++ url ∷ urls
      → announcer s₀ url ≡ r
      → ((s : S) (e : Error) → IsTierAfter tier (k s e))
      → IsTierAfter tier (tracker_done announcer tried url urls k r)
  tracker_done-IsTierAfter tier tried url urls k s₀ (s, ok response) e a h =
      tier_answered s response (url ∷ (tried ++ urls)) (
        subst (λ t. IsFront s response t (url ∷ (tried ++ urls))) (sym e)
          (to_front tried url urls s₀ a))
  tracker_done-IsTierAfter tier tried url urls k s₀ (s, err x) e a h = h s x

  announce_tier-IsTierAfter :
      (s : S) (last : Error) (tried urls : List Bytes)
      → IsTierAfter (tried ++ urls) (announce_tier announcer s last tried urls)
  unfolding announce_tier
  announce_tier-IsTierAfter s last tried [] =
      subst (λ t. IsTierAfter t (s, tried, err last)) (sym (append-nil tried)) (tier_failed s last)
  announce_tier-IsTierAfter s last tried (url ∷ urls) =
      tracker_done-IsTierAfter (tried ++ url ∷ urls) tried url urls _ s (announcer s url) refl refl
        (λ s' e.
          subst (λ t. IsTierAfter t (announce_tier announcer s' e (tried ++ url ∷ []) urls))
            (append_assoc tried (url ∷ []) urls)
            (announce_tier-IsTierAfter s' e (tried ++ url ∷ []) urls))

  cons-IsAnnounced :
      (tier : List Bytes) (tiers : List (List Bytes)) (r : S × List (List Bytes) × Result R Error)
      → IsAnnounced tiers r
      → IsAnnounced (tier ∷ tiers) (r.0, tier ∷ r.1, r.2)
  cons-IsAnnounced tier tiers r (failed s e) = failed s e
  cons-IsAnnounced tier tiers r (answered s response tiers' m) =
      answered s response (tier ∷ tiers') (there tier m)

  tier_done-IsAnnounced :
      (tier : List Bytes) (tiers : List (List Bytes))
      (k : S → Error → S × List (List Bytes) × Result R Error) (r : S × List Bytes × Result R Error)
      → IsTierAfter tier r
      → ((s : S) (e : Error) → IsAnnounced tiers (k s e))
      → IsAnnounced (tier ∷ tiers) (tier_done announcer tiers k r)
  tier_done-IsAnnounced tier tiers k r (tier_failed s e) h =
      cons-IsAnnounced tier tiers (k s e) (h s e)
  tier_done-IsAnnounced tier tiers k r (tier_answered s response tier' f) h =
      answered s response (tier' ∷ tiers) (here tiers f)

  announce_tiers-IsAnnounced :
      (s : S) (last : Error) (tiers : List (List Bytes))
      → IsAnnounced tiers (announce_tiers announcer s last tiers)
  unfolding announce_tiers
  announce_tiers-IsAnnounced s last [] = failed s last
  announce_tiers-IsAnnounced s last (tier ∷ tiers) =
      tier_done-IsAnnounced tier tiers _ (announce_tier announcer s last [] tier)
        (announce_tier-IsTierAfter s last [] tier) (λ s' e. announce_tiers-IsAnnounced s' e tiers)

  -- An announce that fails leaves the tiers as they are, and one that answers moves the tracker that
  -- gave the response to the front of its tier and changes nothing else.
  pub announce-IsAnnounced :
      (s : S) (tiers : List (List Bytes)) → IsAnnounced tiers (announce announcer s tiers)
  unfolding announce
  announce-IsAnnounced s tiers = announce_tiers-IsAnnounced s no_trackers tiers
