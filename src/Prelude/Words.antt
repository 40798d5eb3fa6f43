-- ===== src/Prelude/Words.antt =====
-- Unsigned words as big-endian bytes: `to_be_bytes` and `from_be_bytes`.
use btget.Prelude.{
  ℕ, zero, suc, ◌+◌, ◌*◌, ◌/◌, ◌%◌, ◌^◌, ◌<◌, ◌≡◌, refl, [], ◌∷◌, ◌++◌, arith, length,
  length-append, All-append, Bytes, IsByte, IsBytes,
}
use native.Mathlib.Nat.{pow-suc}

-- The `k` low bytes of `v`, highest first.
unfoldable pub be_bytes : ℕ → ℕ → Bytes
be_bytes zero v = []
be_bytes (suc k) v = be_bytes k (v / 256) ++ ((v % 256) ∷ [])

unfoldable pub from_be_acc : ℕ → Bytes → ℕ
from_be_acc acc [] = acc
from_be_acc acc (b ∷ bs) = from_be_acc (acc * 256 + b) bs

unfoldable pub from_be_bytes : Bytes → ℕ
unfolding from_be_acc
from_be_bytes bs = from_be_acc 0 bs

from_be_acc-snoc :
    (acc : ℕ) (bs : Bytes) (b : ℕ) → from_be_acc acc (bs ++ b ∷ []) ≡ from_be_acc acc bs * 256 + b
unfolding from_be_acc
from_be_acc-snoc acc [] b = refl
from_be_acc-snoc acc (x ∷ bs) b = from_be_acc-snoc (acc * 256 + x) bs b

pub length-be_bytes : (k v : ℕ) → length (be_bytes k v) ≡ k
unfolding be_bytes
length-be_bytes zero v = refl
length-be_bytes (suc k) v =
    omega
      (arith, length-append (be_bytes k (v / 256)) ((v % 256) ∷ []), length-be_bytes k (v / 256))

pub be_bytes-IsBytes : (k v : ℕ) → IsBytes (be_bytes k v)
unfolding be_bytes
be_bytes-IsBytes zero v = tt
be_bytes-IsBytes (suc k) v =
    All-append IsByte (be_bytes k (v / 256)) _ (be_bytes-IsBytes k (v / 256)) (omega arith)

pub from_be_bytes-be_bytes : (k v : ℕ) → v < 256 ^ k → from_be_bytes (be_bytes k v) ≡ v
unfolding be_bytes from_be_bytes
from_be_bytes-be_bytes zero v h = omega arith
from_be_bytes-be_bytes (suc k) v h = omega (
  arith,
  from_be_acc-snoc 0 (be_bytes k (v / 256)) (v % 256),
  pow-suc 256 k,
  from_be_bytes-be_bytes k (v / 256) (omega (arith, pow-suc 256 k)),
)

-- The word that four bytes stand for has these bytes.
pub be_bytes-from_be_bytes_four :
    (a b c d : ℕ)
    → IsBytes (a ∷ b ∷ c ∷ d ∷ [])
    → be_bytes 4 (from_be_bytes (a ∷ b ∷ c ∷ d ∷ [])) ≡ a ∷ b ∷ c ∷ d ∷ []
unfolding be_bytes from_be_bytes
be_bytes-from_be_bytes_four a b c d h = ground arith

pub be_bytes-from_be_bytes_two :
    (a b : ℕ) → IsBytes (a ∷ b ∷ []) → be_bytes 2 (from_be_bytes (a ∷ b ∷ [])) ≡ a ∷ b ∷ []
unfolding be_bytes from_be_bytes
be_bytes-from_be_bytes_two a b h = ground arith
