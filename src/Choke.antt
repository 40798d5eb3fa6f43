-- ===== src/Choke.antt =====
-- bt/src/choke.rs: which peers to unchoke. A set of ids is a list without repetitions that
-- `contains` answers for, and instants and durations are numbers of nanoseconds.
pub mod Slots
pub mod Fair
pub mod Rotor
use btget.Prelude.{
  ℕ, zero, suc, ◌+◌, ◌-◌, ◌%◌, ◌≡◌, Bool, true, false, not, ◌&&◌, ◌||◌, List, [], ◌∷◌, Option, none,
  some, ltb, leb, ◌==◌, if◌then◌else◌, length, take, get_or, select, any, contains, is_empty, map,
}
use btget.Prelude.Sorting.{sort_by}

pub record PeerRate : Type 0 where
  pub id : ℕ
  pub downloaded_from : ℕ
  pub is_interested : Bool

-- The order of the sort: more bytes first, then the smaller id.
unfoldable pub faster : PeerRate → PeerRate → Bool
faster a b =
    if ltb b.downloaded_from a.downloaded_from
    then true
    else if ltb a.downloaded_from b.downloaded_from
    then false
    else ltb a.id b.id

unfoldable pub ranked : List PeerRate → List PeerRate
unfolding faster
ranked peers = sort_by faster (select (λ p. p.is_interested) peers)

-- `HashSet::insert`, and `collect` into a set.
abbrev pub add_id : ℕ → List ℕ → List ℕ
add_id id ids = if contains id ids then ids else id ∷ ids

abbrev pub id_set : List PeerRate → List ℕ
id_set [] = []
id_set (p ∷ ps) = add_id p.id (id_set ps)

abbrev pub add_optimistic : Option ℕ → List PeerRate → List ℕ → List ℕ
add_optimistic none peers out = out
add_optimistic (some id) peers out = if any (λ p. p.id == id) peers then add_id id out else out

unfoldable pub select_unchoked : List PeerRate → ℕ → Option ℕ → List ℕ
unfolding ranked
select_unchoked peers regular_slots optimistic =
    add_optimistic optimistic peers (id_set (take regular_slots (ranked peers)))

pub record OptimisticRotor : Type 0 where
  pub current : Option ℕ
  pub rotated_at : Option ℕ
  pub interval : ℕ

abbrev pub new_rotor : ℕ → OptimisticRotor
new_rotor interval = record { current = none; rotated_at = none; interval = interval }

abbrev pub position : ℕ → List ℕ → Option ℕ
position id [] = none
position id (c ∷ cs) =
    if c == id then some 0 else elim (position id cs) [ none ↦ none | some i ↦ some (suc i) ]

-- `duration_since` is zero where the instant is a later one.
abbrev pub due : Option ℕ → ℕ → ℕ → Bool
due none interval now = true
due (some at) interval now = leb interval (now - at)

abbrev pub current_gone : Option ℕ → List ℕ → Bool
current_gone none candidates = true
current_gone (some id) candidates = not (contains id candidates)

-- The candidate behind a position.
abbrev pub behind : Option ℕ → List ℕ → ℕ
behind none candidates = get_or candidates 0 0
behind (some i) candidates = get_or candidates ((i + 1) % length candidates) 0

abbrev pub following : Option ℕ → List ℕ → ℕ
following none candidates = get_or candidates 0 0
following (some id) candidates = behind (position id candidates) candidates

unfoldable pub maybe_rotate : OptimisticRotor → List ℕ → ℕ → OptimisticRotor × Option ℕ
maybe_rotate r candidates now =
    if not (due r.rotated_at r.interval now) && not (current_gone r.current candidates)
    then (r, r.current)
    else if is_empty candidates
    then (record r { current = none }, none)
    else let next = following r.current candidates in
      (record r { current = some next; rotated_at = some now }, some next)
