-- ===== src/Requests/Pipeline.antt =====
-- The request pipeline of requests.rs: at most `capacity` requests, no two alike.
use btget.Prelude.{
  ℕ, suc, ◌+◌, ◌-◌, ◌≤◌, ◌<◌, ◌≡◌, refl, ◌∙◌, Bool, true, false, not, ◌&&◌, none, some, List, [],
  ◌∷◌, ◌++◌, arith, leb, if◌then◌else◌, length, length-append, select, length-select-le, any,
  Bool-cases, inl, inr, All, leb→lt,
}
use btget.Requests.{
  BlockRequest, RequestPipeline, new, has_slot, request_eq, flight_contains, contains, issue,
  remove_first, complete, is_dead, requests, expired,
}

abbrev Flight : Type 0
Flight = List (BlockRequest × ℕ)

-- No request stands twice.
abbrev pub Distinct : Flight → Type 0
Distinct [] = Unit
Distinct ((r, t) ∷ rest) = (flight_contains rest r ≡ false) × Distinct rest

pub record IsValid (p : RequestPipeline) : Type 0 where
  pub bounded : length p.in_flight ≤ p.capacity
  pub distinct : Distinct p.in_flight

request_eq→eq : (r s : BlockRequest) → request_eq r s ≡ true → r ≡ s
request_eq→eq r s h = ground arith

request_eq_sym : (r s : BlockRequest) → request_eq r s ≡ request_eq s r
request_eq_sym r s = ground arith

flight_contains-append :
    (xs ys : Flight) (r : BlockRequest)
    → flight_contains (xs ++ ys) r ≡ (if flight_contains xs r then true else flight_contains ys r)
flight_contains-append [] ys r = refl
flight_contains-append ((x, t) ∷ xs) ys r = ground (arith, flight_contains-append xs ys r)

Distinct-append_one :
    (xs : Flight) (r : BlockRequest) (t : ℕ)
    → Distinct xs
    → flight_contains xs r ≡ false
    → Distinct (xs ++ (r, t) ∷ [])
Distinct-append_one [] r t d h = (refl, tt)
Distinct-append_one ((x, u) ∷ xs) r t d h = (
  flight_contains-append xs ((r, t) ∷ []) x ∙ ground (arith, request_eq_sym r x),
  Distinct-append_one xs r t d.1 (ground arith),
)

pub new-IsValid : (capacity timeout : ℕ) → IsValid (new capacity timeout)
unfolding new
new-IsValid capacity timeout = record { bounded = omega arith; distinct = tt }

issued-IsValid :
    (p : RequestPipeline) (r : BlockRequest) (now : ℕ)
    → IsValid p
    → has_slot p ≡ true
    → contains p r ≡ false
    → IsValid (record p { in_flight = p.in_flight ++ (r, now) ∷ [] })
unfolding has_slot contains
issued-IsValid p r now v slot fresh = record {
  bounded = ground (arith, length-append p.in_flight ((r, now) ∷ []));
  distinct = Distinct-append_one p.in_flight r now v.distinct fresh;
}

-- `issue` keeps the pipeline valid.
pub issue-IsValid :
    (p : RequestPipeline) (r : BlockRequest) (now : ℕ) → IsValid p → IsValid (issue p r now).0
unfolding issue
issue-IsValid p r now v = elim (Bool-cases (has_slot p)) [
  | inr full ↦ rw (full, issue) v
  | inl slot ↦ elim (Bool-cases (contains p r)) [
    | inl known ↦ rw (slot, known, issue) v
    | inr fresh ↦ rw (slot, fresh, issue) (issued-IsValid p r now v slot fresh)
  ]
]

-- `issue` takes a request exactly when a slot is free and the request is not under way. It is under
-- way afterwards if it was taken or was under way before.
pub issue-contains :
    (p : RequestPipeline) (r : BlockRequest) (now : ℕ)
    → ((issue p r now).1 ≡ (has_slot p && not (contains p r)))
      × (contains (issue p r now).0 r ≡ (if contains p r then true else has_slot p))
unfolding issue contains
issue-contains p r now =
    (ground arith, ground (arith, flight_contains-append p.in_flight ((r, now) ∷ []) r, same r))
  where
    same : (r : BlockRequest) → request_eq r r ≡ true
    same r = ground arith

-- The flight without its first request that fits.
without : BlockRequest → Flight → Flight
without q [] = []
without q ((x, t) ∷ xs) = if request_eq x q then xs else (x, t) ∷ without q xs

module _ (q : BlockRequest) where
  remove_first-without :
      (xs : Flight)
      → remove_first q xs ≡ (if flight_contains xs q then some (q, without q xs) else none)
  unfolding remove_first without
  remove_first-without [] = refl
  remove_first-without ((x, t) ∷ xs) = ground (arith, remove_first-without xs, request_eq→eq x q)

  length-without :
      (xs : Flight) → flight_contains xs q ≡ true → length xs ≡ suc (length (without q xs))
  unfolding without
  length-without [] h = cc
  length-without ((x, t) ∷ xs) h = ground (arith, length-without xs)

  without-contains :
      (xs : Flight) (s : BlockRequest)
      → Distinct xs
      → flight_contains (without q xs) s ≡ (flight_contains xs s && not (request_eq q s))
  unfolding without
  without-contains [] s d = refl
  without-contains ((x, t) ∷ xs) s d =
      ground (arith, without-contains xs s d.1, request_eq→eq x q, request_eq→eq q s)

  without-Distinct : (xs : Flight) → Distinct xs → Distinct (without q xs)
  unfolding without
  without-Distinct [] d = tt
  without-Distinct ((x, t) ∷ xs) d =
      ground (arith, without-Distinct xs d.1, without-contains xs x d.1)

complete-without :
    (p : RequestPipeline) (q : BlockRequest)
    → complete p q.piece q.begin q.length ≡ (
        if contains p q
        then (record p { in_flight = without q p.in_flight }, some q)
        else (p, none))
unfolding complete contains
complete-without p q = ground (arith, remove_first-without q p.in_flight)

-- `complete` keeps the pipeline valid. It answers with the request that was asked for if that is
-- under way, and with nothing otherwise; after it exactly that request is under way no more.
pub complete_lem :
    (p : RequestPipeline) (q : BlockRequest)
    → IsValid p
    → IsValid (complete p q.piece q.begin q.length).0
      × ((complete p q.piece q.begin q.length).1 ≡ (if contains p q then some q else none))
      × ((s : BlockRequest)
          → contains (complete p q.piece q.begin q.length).0 s
            ≡ (contains p s && not (request_eq q s)))
unfolding contains
complete_lem p q v = elim (Bool-cases (contains p q)) [
  | inl e ↦
      rw (complete-without p q, e)
        (
          record {
            bounded = omega (arith, v.bounded, length-without q p.in_flight e);
            distinct = without-Distinct q p.in_flight v.distinct;
          },
          refl,
          λ s. without-contains q p.in_flight s v.distinct,
        )
  | inr e ↦ rw (complete-without p q, e) (v, refl, λ s. ground (arith, request_eq→eq q s))
]

-- Requests that are selected from a valid pipeline make a valid pipeline.
flight_contains-select :
    (f : BlockRequest × ℕ → Bool) (xs : Flight) (r : BlockRequest)
    → flight_contains xs r ≡ false
    → flight_contains (select f xs) r ≡ false
flight_contains-select f [] r h = refl
flight_contains-select f ((x, t) ∷ xs) r h = ground (arith, flight_contains-select f xs r)

Distinct-select : (f : BlockRequest × ℕ → Bool) (xs : Flight) → Distinct xs → Distinct (select f xs)
Distinct-select f [] d = tt
Distinct-select f ((x, t) ∷ xs) d =
    ground (arith, Distinct-select f xs d.1, flight_contains-select f xs x)

-- `expired` keeps the pipeline valid.
pub expired-IsValid : (p : RequestPipeline) (now : ℕ) → IsValid p → IsValid (expired p now).0
unfolding expired
expired-IsValid p now v = record {
  bounded =
      omega (arith, v.bounded, length-select-le (λ r. not (is_dead p.timeout now r)) p.in_flight);
  distinct = Distinct-select (λ r. not (is_dead p.timeout now r)) p.in_flight v.distinct;
}

abbrev pub occurs : List BlockRequest → BlockRequest → Bool
occurs rs r = any (λ s. request_eq s r) rs

split-contains :
    (f : BlockRequest × ℕ → Bool) (xs : Flight) (r : BlockRequest)
    → flight_contains xs r ≡ (
        if occurs (requests (select f xs)) r
        then true
        else flight_contains (select (λ x. not (f x)) xs) r)
split-contains f [] r = refl
split-contains f ((x, t) ∷ xs) r = ground (arith, split-contains f xs r)

split-length :
    (f : BlockRequest × ℕ → Bool) (xs : Flight)
    → length (requests (select f xs)) + length (select (λ x. not (f x)) xs) ≡ length xs
split-length f [] = refl
split-length f (x ∷ xs) = ground (arith, split-length f xs)

select-All : (f : BlockRequest × ℕ → Bool) (xs : Flight) → All (λ x. f x ≡ true) (select f xs)
select-All f [] = tt
select-All f (x ∷ xs) = ground (arith, select-All f xs)

-- `expired` splits the requests under way: each is given back or stays under way, none is lost or
-- made up, and what stays was issued within the timeout.
pub expired_lem :
    (p : RequestPipeline) (now : ℕ)
    → ((r : BlockRequest)
        → contains p r
          ≡ (if occurs (expired p now).1 r then true else contains (expired p now).0 r))
      × (length (expired p now).1 + length (expired p now).0.in_flight ≡ length p.in_flight)
      × All (λ (_, issued). now - issued < p.timeout) (expired p now).0.in_flight
unfolding expired contains
expired_lem p now = (
  λ r. split-contains (is_dead p.timeout now) p.in_flight r,
  split-length (is_dead p.timeout now) p.in_flight,
  young p.in_flight,
)
  where
    young :
        (xs : Flight)
        → All
            (λ (_, issued). now - issued < p.timeout)
            (select (λ r. not (is_dead p.timeout now r)) xs)
    young [] = tt
    young ((r, t) ∷ xs) = elim (Bool-cases (leb p.timeout (now - t))) [
      | inl e ↦ rw e (young xs)
      | inr e ↦ rw e (leb→lt p.timeout (now - t) e, young xs)
    ]
