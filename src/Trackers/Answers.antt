-- ===== src/Trackers/Answers.antt =====
-- What holds of every answer of a tracker holds of what `announce` returns.
use btget.Prelude.{◌≡◌, refl, subst, List, [], ◌∷◌, ◌++◌, Bytes, Result, ok, err}
use btget.Trackers.{
  Error, no_trackers, tracker_done, announce_tier, tier_done, announce_tiers, announce,
}

module _ {ℓ κ μ} {S : Type ℓ} {R : Type κ} (announcer : S → Bytes → S × Result R Error)
    (P : R → Type μ) (each : (s : S) (url : Bytes) (r : R) → (announcer s url).1 ≡ ok r → P r) where
  abbrev IsAnswer : Result R Error → Type μ
  IsAnswer (ok r) = P r
  IsAnswer (err x) = Unit

  of_asked : (r : Result R Error) (s : S) (url : Bytes) → (announcer s url).1 ≡ r → IsAnswer r
  of_asked (ok r) s url h = each s url r h
  of_asked (err x) s url h = tt

  tracker_done-IsAnswer :
      (tried : List Bytes) (url : Bytes) (urls : List Bytes)
      (continue : S → Error → S × List Bytes × Result R Error) (s : S) (r : Result R Error)
      → IsAnswer r
      → ((s' : S) (x : Error) → IsAnswer (continue s' x).2)
      → IsAnswer (tracker_done announcer tried url urls continue (s, r)).2
  tracker_done-IsAnswer tried url urls continue s (ok r) h k = h
  tracker_done-IsAnswer tried url urls continue s (err x) h k = k s x

  announce_tier-IsAnswer :
      (s : S) (last : Error) (tried urls : List Bytes)
      → IsAnswer (announce_tier announcer s last tried urls).2
  unfolding announce_tier
  announce_tier-IsAnswer s last tried [] = tt
  announce_tier-IsAnswer s last tried (url ∷ urls) =
      let a = announcer s url in
      tracker_done-IsAnswer tried url urls
        (λ s' x. announce_tier announcer s' x (tried ++ url ∷ []) urls) a.0 a.1
        (of_asked a.1 s url refl) (λ s' x. announce_tier-IsAnswer s' x (tried ++ url ∷ []) urls)

  tier_done-IsAnswer :
      (tiers : List (List Bytes)) (continue : S → Error → S × List (List Bytes) × Result R Error)
      (s : S) (tier : List Bytes) (r : Result R Error)
      → IsAnswer r
      → ((s' : S) (x : Error) → IsAnswer (continue s' x).2)
      → IsAnswer (tier_done announcer tiers continue (s, tier, r)).2
  tier_done-IsAnswer tiers continue s tier (ok r) h k = h
  tier_done-IsAnswer tiers continue s tier (err x) h k = k s x

  announce_tiers-IsAnswer :
      (s : S) (last : Error) (tiers : List (List Bytes))
      → IsAnswer (announce_tiers announcer s last tiers).2
  unfolding announce_tiers
  announce_tiers-IsAnswer s last [] = tt
  announce_tiers-IsAnswer s last (tier ∷ tiers) =
      let a = announce_tier announcer s last [] tier in
      tier_done-IsAnswer tiers (λ s' x. announce_tiers announcer s' x tiers) a.0 a.1 a.2
        (announce_tier-IsAnswer s last [] tier) (λ s' x. announce_tiers-IsAnswer s' x tiers)

  ok_inj : (v w : R) → ◌≡◌ {A = Result R Error} (ok v) (ok w) → v ≡ w
  ok_inj v w h = cc

  at_ok : (r : R) (o : Result R Error) → o ≡ ok r → IsAnswer o → P r
  at_ok r (ok r') h k = subst P (ok_inj r' r h) k
  at_ok r (err x) h k = cc

  pub announce-answer :
      (s : S) (tiers : List (List Bytes)) (r : R) → (announce announcer s tiers).2 ≡ ok r → P r
  unfolding announce
  announce-answer s tiers r h =
      at_ok r (announce announcer s tiers).2 h (announce_tiers-IsAnswer s no_trackers tiers)
