-- ===== src/Prelude/Results.antt =====
-- Rust's Result, with `?` as the bind of a do block.
use mathlib.Core.Path.{◌≡◌, refl, subst}
use mathlib.Core.Logic.{◌⊎◌, inl, inr}
use mathlib.Core.Bool.{Bool, true, false}
use mathlib.Core.Option.{Option, none, some}
use btget.Prelude.Tests.{if◌then◌else◌}

pub data Result {ℓ κ} (A : Type ℓ) (E : Type κ) : Type (ℓ ⊔ κ) where
  ok : A → Result A E
  err : E → Result A E

infixl 5 ◌>>=◌ ◌>>◌
abbrev pub ◌>>=◌ {ℓ κ μ} :
    {A : Type ℓ} {B : Type κ} {E : Type μ} → Result A E → (A → Result B E) → Result B E
ok a >>= f = f a
err e >>= f = err e

abbrev pub ◌>>◌ {ℓ μ} : {B : Type ℓ} {E : Type μ} → Result (Unit {0}) E → Result B E → Result B E
m >> k = m >>= λ _. k

-- An early return of the error where the test fails.
abbrev pub guard {μ} : {E : Type μ} → Bool → E → Result (Unit {0}) E
guard true e = ok tt
guard false e = err e

abbrev pub ok_or {ℓ μ} : {A : Type ℓ} {E : Type μ} → Option A → E → Result A E
ok_or none e = err e
ok_or (some a) e = ok a

abbrev pub map_err {ℓ μ ν} :
    {A : Type ℓ} {E : Type μ} {F : Type ν} → (E → F) → Result A E → Result A F
map_err f (ok a) = ok a
map_err f (err e) = err (f e)

abbrev pub map_ok {ℓ κ μ} :
    {A : Type ℓ} {B : Type κ} {E : Type μ} → (A → B) → Result A E → Result B E
map_ok f (ok a) = ok (f a)
map_ok f (err e) = err e

pub guard-eq-ok {μ} : {E : Type μ} (b : Bool) (e : E) {u : Unit {0}} → guard b e ≡ ok u → b ≡ true
guard-eq-ok true e h = refl
guard-eq-ok false e h = cc

pub Result-cases {ℓ μ} :
    {A : Type ℓ} {E : Type μ} (r : Result A E) → ((a : A) × (r ≡ ok a)) ⊎ ((e : E) × (r ≡ err e))
Result-cases (ok a) = inl (a, refl)
Result-cases (err e) = inr (e, refl)

-- A do block that ends in a value beside a constant.
pub Result-map {ℓ κ μ} :
    {A : Type ℓ} {C : Type κ} {E : Type μ} (r : Result A E) (b : C)
    → ◌>>=◌ {B = A × C} r (λ a. ok (a, b)) ≡ map_ok (λ a. (a, b)) r
Result-map (ok a) b = refl
Result-map (err e) b = refl

pub guard_if {ℓ μ} :
    {A : Type ℓ} {E : Type μ} (b : Bool) (e : E) (k : Result A E)
    → (guard b e >> k) ≡ (if b then k else err e)
guard_if true e k = refl
guard_if false e k = refl

-- A postcondition: `P` of the value, or `Q` of the error.
pub data Ensures {ℓ κ μ ν} {A : Type ℓ} {E : Type κ} (P : A → Type μ) (Q : E → Type ν)
    : Result A E → Type (ℓ ⊔ κ ⊔ μ ⊔ ν) where
  holds : {a : A} → P a → Ensures P Q (ok a)
  rejected : {e : E} → Q e → Ensures P Q (err e)

module _ {ℓ κ μ ν} {A : Type ℓ} {E : Type κ} {P : A → Type μ} {Q : E → Type ν} where
  pub Ensures-ok : {r : Result A E} {a : A} → Ensures P Q r → r ≡ ok a → P a
  Ensures-ok (holds h) e = subst P (cc) h
  Ensures-ok (rejected h) e = cc

  pub Ensures-err : {r : Result A E} {x : E} → Ensures P Q r → r ≡ err x → Q x
  Ensures-err (holds h) e = cc
  Ensures-err (rejected h) e = subst Q (cc) h

  pub Ensures-if :
      (b : Bool) {x y : Result A E}
      → (b ≡ true → Ensures P Q x)
      → (b ≡ false → Ensures P Q y)
      → Ensures P Q (if b then x else y)
  Ensures-if true hx hy = hx refl
  Ensures-if false hx hy = hy refl

  pub Ensures-guard :
      (b : Bool) (e : E) {k : Result A E}
      → Q e
      → (b ≡ true → Ensures P Q k)
      → Ensures P Q (guard b e >> k)
  Ensures-guard true e q h = h refl
  Ensures-guard false e q h = rejected q

  pub Ensures-bind {ℓ' μ'} :
      {B : Type ℓ'} {R : B → Type μ'} {r : Result A E} {f : A → Result B E}
      → Ensures P Q r
      → ((a : A) → P a → Ensures R Q (f a))
      → Ensures R Q (r >>= f)
  Ensures-bind (holds {a} h) k = k a h
  Ensures-bind (rejected q) k = rejected q

  pub Ensures-mono {μ'} :
      {R : A → Type μ'} {r : Result A E} → Ensures P Q r → ((a : A) → P a → R a) → Ensures R Q r
  Ensures-mono (holds {a} h) k = holds (k a h)
  Ensures-mono (rejected q) k = rejected q

-- What holds in both branches holds of the choice.
pub if_either {ℓ κ} :
    {A : Type ℓ} (P : A → Type κ) (b : Bool) {x y : A} → P x → P y → P (if b then x else y)
if_either P true h k = h
if_either P false h k = k
