-- ===== src/Requests.antt =====
-- bt/src/requests.rs: the blocks of a piece, and the requests that are under way to a peer. An
-- `Instant` and a `Duration` are numbers of one unit of time.
pub mod Blocks
pub mod Pipeline
use btget.Prelude.{
  ℕ, zero, suc, ◌+◌, ◌-◌, ◌%◌, ◌^◌, ◌≡◌, min, Bool, true, false, not, ◌&&◌, ◌||◌, Option, none,
  some, List, [], ◌∷◌, ◌++◌, map, ltb, leb, ◌==◌, if◌then◌else◌, length, select, any,
}

abbrev pub block_size : ℕ
block_size = 16384

pub record BlockRequest : Type 0 where
  pub piece : ℕ
  pub begin : ℕ
  pub length : ℕ

-- The loop of `piece_blocks`, from `begin` on. A round takes a byte at least: fuel for each is enough.
unfoldable pub blocks_loop : ℕ → ℕ → ℕ → List (ℕ × ℕ)
blocks_loop zero begin piece_length = []
blocks_loop (suc fuel) begin piece_length =
    let len = min block_size (piece_length - begin) in
    let rest = blocks_loop fuel (begin + len) piece_length in
    if ltb begin piece_length then (begin % 2 ^ 32, len % 2 ^ 32) ∷ rest else []

unfoldable pub piece_blocks : ℕ → List (ℕ × ℕ)
unfolding blocks_loop
piece_blocks piece_length = blocks_loop piece_length 0 piece_length

-- `in_flight` holds each request with the time when it was issued, oldest first.
pub record RequestPipeline : Type 0 where
  pub capacity : ℕ
  pub timeout : ℕ
  pub in_flight : List (BlockRequest × ℕ)

unfoldable pub new : ℕ → ℕ → RequestPipeline
new capacity timeout = record { capacity = capacity; timeout = timeout; in_flight = [] }

unfoldable pub has_slot : RequestPipeline → Bool
has_slot p = ltb (length p.in_flight) p.capacity

abbrev pub request_eq : BlockRequest → BlockRequest → Bool
request_eq r s = (r.piece == s.piece) && ((r.begin == s.begin) && (r.length == s.length))

abbrev pub flight_contains : List (BlockRequest × ℕ) → BlockRequest → Bool
flight_contains flight request = any (λ (r, _). request_eq r request) flight

unfoldable pub contains : RequestPipeline → BlockRequest → Bool
contains p request = flight_contains p.in_flight request

unfoldable pub issue : RequestPipeline → BlockRequest → ℕ → RequestPipeline × Bool
unfolding has_slot contains
issue p request now =
    if not (has_slot p) || contains p request
    then (p, false)
    else (record p { in_flight = p.in_flight ++ (request, now) ∷ [] }, true)

abbrev keep {ℓ κ} : {A : Type ℓ} {B : Type κ} → B → Option (A × List B) → Option (A × List B)
keep x none = none
keep x (some (a, rest)) = some (a, x ∷ rest)

-- The first request that fits, and the others.
unfoldable pub remove_first :
    BlockRequest → List (BlockRequest × ℕ) → Option (BlockRequest × List (BlockRequest × ℕ))
remove_first request [] = none
remove_first request ((r, t) ∷ rest) =
    if request_eq r request then some (r, rest) else keep (r, t) (remove_first request rest)

unfoldable pub complete : RequestPipeline → ℕ → ℕ → ℕ → RequestPipeline × Option BlockRequest
unfolding remove_first
complete p piece begin len =
    elim (remove_first (record { piece = piece; begin = begin; length = len }) p.in_flight) [
      | none ↦ (p, none)
      | some (r, rest) ↦ (record p { in_flight = rest }, some r)
    ]

-- `now.duration_since(issued) >= timeout`; a difference below zero counts as zero.
abbrev pub is_dead : ℕ → ℕ → BlockRequest × ℕ → Bool
is_dead timeout now (_, issued) = leb timeout (now - issued)

abbrev requests : List (BlockRequest × ℕ) → List BlockRequest
requests = map (λ (r, _). r)

unfoldable pub expired : RequestPipeline → ℕ → RequestPipeline × List BlockRequest
expired p now = (
  record p { in_flight = select (λ r. not (is_dead p.timeout now r)) p.in_flight },
  requests (select (is_dead p.timeout now) p.in_flight),
)

unfoldable pub drain : RequestPipeline → RequestPipeline × List BlockRequest
drain p = (record p { in_flight = [] }, requests p.in_flight)
