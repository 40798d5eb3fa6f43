-- ===== src/Prelude/Sorting.antt =====
-- A stable sort, and the bounds that it keeps: `sort_by` of a slice.
use btget.Prelude.{
  ℕ, zero, suc, ◌≡◌, Bool, true, false, List, [], ◌∷◌, if◌then◌else◌, All, Bool-cases, inl, inr,
  take, drop, select, All-drop,
}

module _ {ℓ} {A : Type ℓ} where
  -- In front of the first element that is not before it.
  unfoldable pub insert_by : (A → A → Bool) → A → List A → List A
  insert_by before x [] = x ∷ []
  insert_by before x (y ∷ ys) = if before y x then y ∷ insert_by before x ys else x ∷ y ∷ ys

  unfoldable pub sort_by : (A → A → Bool) → List A → List A
  unfolding insert_by
  sort_by before [] = []
  sort_by before (x ∷ xs) = insert_by before x (sort_by before xs)

  -- No element is before an earlier one.
  abbrev pub IsSortedBy : (A → A → Bool) → List A → Type ℓ
  IsSortedBy before [] = Unit
  IsSortedBy before (x ∷ xs) = All (λ y. before y x ≡ false) xs × IsSortedBy before xs

  pub All-insert_by {κ} :
      (P : A → Type κ) (before : A → A → Bool) (x : A) (xs : List A)
      → P x
      → All P xs
      → All P (insert_by before x xs)
  unfolding insert_by
  All-insert_by P before x [] h k = (h, tt)
  All-insert_by P before x (y ∷ ys) h k = elim (Bool-cases (before y x)) [
    | inl e ↦ rw e (k.0, All-insert_by P before x ys h k.1)
    | inr e ↦ rw e (h, (k.0, k.1))
  ]

  if_back {κ} :
      (P : A → Type κ) (b : Bool) (x y : A) (zs ys : List A)
      → All P (if b then y ∷ zs else x ∷ y ∷ ys)
      → (All P zs → P x × All P ys)
      → P x × All P (y ∷ ys)
  if_back P true x y zs ys h k = ((k h.1).0, (h.0, (k h.1).1))
  if_back P false x y zs ys h k = h

  insert_by_back {κ} :
      (P : A → Type κ) (before : A → A → Bool) (x : A) (xs : List A)
      → All P (insert_by before x xs)
      → P x × All P xs
  unfolding insert_by
  insert_by_back P before x [] k = (k.0, tt)
  insert_by_back P before x (y ∷ ys) k =
      if_back P (before y x) x y (insert_by before x ys) ys k (insert_by_back P before x ys)

  pub All-sort_by {κ} :
      (P : A → Type κ) (before : A → A → Bool) (xs : List A) → All P xs → All P (sort_by before xs)
  unfolding sort_by
  All-sort_by P before [] h = tt
  All-sort_by P before (x ∷ xs) h =
      All-insert_by P before x (sort_by before xs) h.0 (All-sort_by P before xs h.1)

  -- What holds of the sorted list holds of the list.
  pub sort_by_back {κ} :
      (P : A → Type κ) (before : A → A → Bool) (xs : List A) → All P (sort_by before xs) → All P xs
  unfolding sort_by
  sort_by_back P before [] h = tt
  sort_by_back P before (x ∷ xs) h = (
    (insert_by_back P before x (sort_by before xs) h).0,
    sort_by_back P before xs (insert_by_back P before x (sort_by before xs) h).1,
  )

  pub All-map_implied {κ μ} :
      (P : A → Type κ) (Q : A → Type μ) (xs : List A) → ((a : A) → P a → Q a) → All P xs → All Q xs
  All-map_implied P Q [] f h = tt
  All-map_implied P Q (x ∷ xs) f h = (f x h.0, All-map_implied P Q xs f h.1)

  select_back {κ} :
      (P Q : A → Type κ) (b : Bool) (x : A) (zs xs : List A)
      → All P (if b then x ∷ zs else zs)
      → (All P zs → All Q xs)
      → (b ≡ true → P x) × All Q xs
  select_back P Q true x zs xs h k = (λ _. h.0, k h.1)
  select_back P Q false x zs xs h k = (λ e. cc, k h)

  pub All-from_each {κ} : {P : A → Type κ} (xs : List A) → ((a : A) → P a) → All P xs
  All-from_each [] f = tt
  All-from_each (x ∷ xs) f = (f x, All-from_each xs f)

  pub All-pair {κ μ} :
      (P : A → Type κ) (Q : A → Type μ) (xs : List A)
      → All P xs
      → All Q xs
      → All (λ a. P a × Q a) xs
  All-pair P Q [] h k = tt
  All-pair P Q (x ∷ xs) h k = ((h.0, k.0), All-pair P Q xs h.1 k.1)

  pub All-select_back {κ} :
      (P : A → Type κ) (p : A → Bool) (xs : List A)
      → All P (select p xs)
      → All (λ a. p a ≡ true → P a) xs
  All-select_back P p [] h = tt
  All-select_back P p (x ∷ xs) h =
      select_back P (λ a. p a ≡ true → P a) (p x) x (select p xs) xs h (All-select_back P p xs)

-- A strict weak order, given by its test.
module _ {ℓ} {A : Type ℓ} (before : A → A → Bool)
    (asymm : (a b : A) → before a b ≡ true → before b a ≡ false)
    (back : (a b c : A) → before a b ≡ false → before b c ≡ false → before a c ≡ false) where
  insert_by-IsSortedBy :
      (x : A) (xs : List A) → IsSortedBy before xs → IsSortedBy before (insert_by before x xs)
  unfolding insert_by
  insert_by-IsSortedBy x [] h = (tt, tt)
  insert_by-IsSortedBy x (y ∷ ys) h = elim (Bool-cases (before y x)) [
    | inl e ↦ rw e (
      All-insert_by (λ z. before z y ≡ false) before x ys (asymm y x e) h.0,
      insert_by-IsSortedBy x ys h.1,
    )
    | inr e ↦
        rw e ((e, All-map_implied _ (λ z. before z x ≡ false) ys (λ z hz. back z y x hz e) h.0), h)
  ]

  pub sort_by-IsSortedBy : (xs : List A) → IsSortedBy before (sort_by before xs)
  unfolding sort_by
  sort_by-IsSortedBy [] = tt
  sort_by-IsSortedBy (x ∷ xs) = insert_by-IsSortedBy x (sort_by before xs) (sort_by-IsSortedBy xs)

-- Each element of the front of a sorted list against each element behind it.
pub front_of_sorted {ℓ} :
    {A : Type ℓ} (before : A → A → Bool) (n : ℕ) (xs : List A)
    → IsSortedBy before xs
    → All (λ b. All (λ a. before b a ≡ false) (take n xs)) (drop n xs)
front_of_sorted before zero xs h = All-from_each xs (λ _. tt)
front_of_sorted before (suc n) [] h = tt
front_of_sorted before (suc n) (x ∷ xs) h =
    All-pair (λ b. before b x ≡ false) _ (drop n xs) (All-drop (λ b. before b x ≡ false) n xs h.0)
      (front_of_sorted before n xs h.1)
