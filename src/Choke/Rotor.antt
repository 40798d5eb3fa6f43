-- ===== src/Choke/Rotor.antt =====
-- The optimistic unchoke of choke.rs.
use btget.Prelude.{
  ℕ, zero, suc, ◌+◌, ◌%◌, ◌<◌, ◌≡◌, refl, Bool, true, false, not, ◌&&◌, List, [], ◌∷◌, Option, none,
  some, arith, ==_refl, length, get_or, contains, Bool-cases, inl, inr,
}
use btget.Choke.{OptimisticRotor, position, behind, due, current_gone, following, maybe_rotate}

contains-get_or : (i : ℕ) (cs : List ℕ) → i < length cs → contains (get_or cs i 0) cs ≡ true
contains-get_or i [] h = absurd (omega arith)
contains-get_or zero (c ∷ cs) h = rw (==_refl c) refl
contains-get_or (suc i) (c ∷ cs) h = ground (arith, contains-get_or i cs (omega arith))

behind-contains :
    (o : Option ℕ) (c : ℕ) (cs : List ℕ) → contains (behind o (c ∷ cs)) (c ∷ cs) ≡ true
behind-contains none c cs = contains-get_or 0 (c ∷ cs) (omega arith)
behind-contains (some i) c cs = contains-get_or ((i + 1) % length (c ∷ cs)) (c ∷ cs) (omega arith)

following-contains :
    (o : Option ℕ) (c : ℕ) (cs : List ℕ) → contains (following o (c ∷ cs)) (c ∷ cs) ≡ true
following-contains none c cs = contains-get_or 0 (c ∷ cs) (omega arith)
following-contains (some id) c cs = behind-contains (position id (c ∷ cs)) c cs

-- The answer is a candidate, and there is one exactly where there is a candidate.
abbrev pub IsAnswer : List ℕ → Option ℕ → Type 0
IsAnswer [] o = o ≡ none
IsAnswer (c ∷ cs) none = ⊥
IsAnswer (c ∷ cs) (some id) = contains id (c ∷ cs) ≡ true

kept-IsAnswer :
    (o : Option ℕ) (c : ℕ) (cs : List ℕ) (b : Bool)
    → (b && not (current_gone o (c ∷ cs))) ≡ true
    → IsAnswer (c ∷ cs) o
kept-IsAnswer none c cs b h = absurd (ground arith)
kept-IsAnswer (some id) c cs b h = ground arith

gone_nil : (o : Option ℕ) (b : Bool) → (b && not (current_gone o [])) ≡ false
gone_nil none b = ground arith
gone_nil (some id) b = ground arith

-- Whatever the time, the unchoked peer is one of the candidates, unless there are none.
pub maybe_rotate-IsAnswer :
    (r : OptimisticRotor) (cs : List ℕ) (now : ℕ) → IsAnswer cs (maybe_rotate r cs now).1
unfolding maybe_rotate
maybe_rotate-IsAnswer r [] now =
    rw (gone_nil r.current (not (due r.rotated_at r.interval now))) refl
maybe_rotate-IsAnswer r (c ∷ cs) now =
    elim (Bool-cases
      (not (due r.rotated_at r.interval now) && not (current_gone r.current (c ∷ cs)))) [
        | inl e ↦ rw e (kept-IsAnswer r.current c cs (not (due r.rotated_at r.interval now)) e)
        | inr e ↦ rw e (following-contains r.current c cs)
      ]
