-- ===== src/Peer/State.antt =====
-- bt/src/peer_state.rs: who chokes and who is interested on one connection.
use btget.Prelude.{
  ◌≡◌, refl, sym, subst, Bool, true, false, not, ◌&&◌, List, [], ◌∷◌, Option, none, some,
}
use btget.Peer.{
  Message, keep_alive, choke, unchoke, interested, not_interested, have, bitfield, request, piece,
  cancel, port, extended,
}

pub record PeerState : Type 0 where
  pub am_choking : Bool
  pub am_interested : Bool
  pub peer_choking : Bool
  pub peer_interested : Bool

abbrev pub new_state : PeerState
new_state = record {
  am_choking = true;
  am_interested = false;
  peer_choking = true;
  peer_interested = false;
}

abbrev pub on_message : PeerState → Message → PeerState
on_message s choke = record s { peer_choking = true }
on_message s unchoke = record s { peer_choking = false }
on_message s interested = record s { peer_interested = true }
on_message s not_interested = record s { peer_interested = false }
on_message s _ = s

abbrev pub set_interested : PeerState → Bool → PeerState
set_interested s b = record s { am_interested = b }

abbrev pub set_choking : PeerState → Bool → PeerState
set_choking s b = record s { am_choking = b }

abbrev pub can_request : PeerState → Bool
can_request s = s.am_interested && not s.peer_choking

abbrev pub may_upload : PeerState → Bool
may_upload s = not s.am_choking && s.peer_interested

-- What happens to a connection's state: a message comes in, or a side of ours is set.
pub data Event : Type 0 where
  received : Message → Event
  wants : Bool → Event
  chokes : Bool → Event

abbrev pub step : PeerState → Event → PeerState
step s (received m) = on_message s m
step s (wants b) = set_interested s b
step s (chokes b) = set_choking s b

abbrev pub run : PeerState → List Event → PeerState
run s [] = s
run s (e ∷ es) = run (step s e) es

-- What one event says about each of the four bits, if it says anything.
abbrev pub peer_choking_of : Event → Option Bool
peer_choking_of (received choke) = some true
peer_choking_of (received unchoke) = some false
peer_choking_of _ = none

abbrev pub peer_interested_of : Event → Option Bool
peer_interested_of (received interested) = some true
peer_interested_of (received not_interested) = some false
peer_interested_of _ = none

abbrev pub am_choking_of : Event → Option Bool
am_choking_of (chokes b) = some b
am_choking_of _ = none

abbrev pub am_interested_of : Event → Option Bool
am_interested_of (wants b) = some b
am_interested_of _ = none

abbrev pub said_or : Option Bool → Bool → Bool
said_or none b = b
said_or (some c) b = c

-- The last word of a history on one bit.
abbrev pub last_said : (Event → Option Bool) → Bool → List Event → Bool
last_said f b [] = b
last_said f b (e ∷ es) = last_said f (said_or (f e) b) es

abbrev said : ((Event → Option Bool) → Bool → Bool) → PeerState → PeerState
said f s = record {
  am_choking = f am_choking_of s.am_choking;
  am_interested = f am_interested_of s.am_interested;
  peer_choking = f peer_choking_of s.peer_choking;
  peer_interested = f peer_interested_of s.peer_interested;
}

step_lem : (s : PeerState) (e : Event) → step s e ≡ said (λ f b. said_or (f e) b) s
step_lem s (received keep_alive) = refl
step_lem s (received choke) = refl
step_lem s (received unchoke) = refl
step_lem s (received interested) = refl
step_lem s (received not_interested) = refl
step_lem s (received (have i)) = refl
step_lem s (received (bitfield b)) = refl
step_lem s (received (request i b n)) = refl
step_lem s (received (piece i b d)) = refl
step_lem s (received (cancel i b n)) = refl
step_lem s (received (port p)) = refl
step_lem s (received (extended x d)) = refl
step_lem s (wants b) = refl
step_lem s (chokes b) = refl

abbrev pub IsSaidBy : PeerState → List Event → PeerState → Type 0
IsSaidBy s es t =
    t.am_choking ≡ last_said am_choking_of s.am_choking es
    × t.am_interested ≡ last_said am_interested_of s.am_interested es
    × t.peer_choking ≡ last_said peer_choking_of s.peer_choking es
    × t.peer_interested ≡ last_said peer_interested_of s.peer_interested es

-- After any history of messages and settings each of the four bits of a connection is what the
-- last event about it said, or what it was at the start where no event was about it.
pub run-last_said : (s : PeerState) (es : List Event) → IsSaidBy s es (run s es)
run-last_said s [] = (refl, refl, refl, refl)
run-last_said s (e ∷ es) =
    subst (λ t. IsSaidBy s (e ∷ es) (run t es)) (sym (step_lem s e))
      (run-last_said (said (λ f b. said_or (f e) b) s) es)
