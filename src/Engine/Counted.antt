-- ===== src/Engine/Counted.antt =====
-- The counts of the engine of engine.rs: the availability of a piece is the number of peers that have
-- it, and its active count the number of peers whose job it is.
use btget.Prelude.{
  ℕ, ◌+◌, ◌^◌, ◌≤◌, ◌<◌, ◌≡◌, refl, ap, ◌∙◌, Bool, true, false, Option, none, some, arith, ◌==◌,
  if◌then◌else◌, length,
}
use btget.Pieces.Bitfield
use btget.Pieces.Bitfield.{Bitfield, IsValid}
use btget.Pieces.Availability
use btget.Pieces.Availability.{Availability}
use btget.Pieces.Availability.Laws.{
  count-add_bitfield, count-remove_bitfield, length-remove_bitfield,
}
use btget.Picker.{active_count}
use btget.Picker.Active as Active
use btget.Picker.Active.{active_count-abandon, abandon-IsValid}
use btget.Engine.State.{PieceJob, Peer, get_peer, set_peer, delete_peer, Engine}
use btget.Engine.Tally.{
  tally, IsDistinct, AllPeers, tally-set_peer, tally-delete_peer, AllPeers-get_peer,
  AllPeers-set_peer, AllPeers-delete_peer, IsDistinct-set_peer, IsDistinct-delete_peer,
  tally-le-length,
}
use btget.Engine.Message.{works_on, without, remove_peer, forget_peer, abandon_job}

abbrev pub has_one : ℕ → Peer → ℕ
has_one i p = if Bitfield.has p.theirs i then 1 else 0

abbrev pub job_one : ℕ → Peer → ℕ
job_one i p = if works_on i p.job then 1 else 0

-- A peer of a torrent with this many pieces: its bitfield is valid, and empty until it is known.
pub record IsPeer (total : ℕ) (p : Peer) : Type 0 where
  pub valid : IsValid p.theirs
  pub pieces : p.theirs.pieces ≡ total
  pub unknown : p.theirs_known ≡ false → (i : ℕ) → Bitfield.has p.theirs i ≡ false

-- `held` counts the fetches of a piece that no peer has as its job for the moment.
pub record IsCounted (total : ℕ) (held : ℕ → ℕ) (e : Engine) : Type 0 where
  pub available : (i : ℕ) → Availability.count e.availability i ≡ tally (has_one i) e.peers
  pub sized : length e.availability.counts ≡ total
  pub active : (i : ℕ) → active_count e.picker i ≡ tally (job_one i) e.peers + held i
  pub picker : Active.IsValid e.picker
  pub each : AllPeers (IsPeer total) e.peers
  pub distinct : IsDistinct e.peers

abbrev pub none_held : ℕ → ℕ
none_held i = 0

abbrev pub one_held : ℕ → ℕ → ℕ
one_held index i = if index == i then 1 else 0

-- The number of peers leaves room for one more in a u32.
abbrev pub IsFew : Engine → Type 0
IsFew e = length e.peers + 1 < 2 ^ 32

pub has_below :
    (b : Bitfield) (total j : ℕ) → b.pieces ≡ total → Bitfield.has b j ≡ true → j < total
unfolding Bitfield.has
has_below b total j e h = ground (arith, h)

pub pieces-set : (b : Bitfield) (i : ℕ) → (Bitfield.set b i).pieces ≡ b.pieces
unfolding Bitfield.set
pieces-set b i = ground arith

has_one-le : (i : ℕ) (p : Peer) → has_one i p ≤ 1
has_one-le i p = ground arith

module _ (total : ℕ) where
  -- One peer is replaced, and the counts move with it.
  pub replaced-IsCounted :
      (held held' : ℕ → ℕ) (e e' : Engine) (id : ℕ) (p q : Peer)
      → IsCounted total held e
      → get_peer id e.peers ≡ some p
      → e'.peers ≡ set_peer id q e.peers
      → IsPeer total q
      → ((i : ℕ)
          → Availability.count e'.availability i + has_one i p
            ≡ Availability.count e.availability i + has_one i q)
      → length e'.availability.counts ≡ length e.availability.counts
      → ((i : ℕ)
          → active_count e'.picker i + job_one i p + held i
            ≡ active_count e.picker i + job_one i q + held' i)
      → Active.IsValid e'.picker
      → IsCounted total held' e'
  replaced-IsCounted held held' e e' id p q v g ps hq av len act pv = record {
    available = λ i.
        rw ps (omega (arith, av i, v.available i, tally-set_peer (has_one i) id p q e.peers g));
    sized = len ∙ v.sized;
    active =
        λ i. rw ps (omega (arith, act i, v.active i, tally-set_peer (job_one i) id p q e.peers g));
    picker = pv;
    each = rw ps (AllPeers-set_peer (IsPeer total) id q e.peers hq v.each);
    distinct = rw ps (IsDistinct-set_peer id q e.peers v.distinct);
  }

  pub deleted-IsCounted :
      (held held' : ℕ → ℕ) (e e' : Engine) (id : ℕ) (p : Peer)
      → IsCounted total held e
      → get_peer id e.peers ≡ some p
      → e'.peers ≡ delete_peer id e.peers
      → ((i : ℕ)
          → Availability.count e'.availability i + has_one i p
            ≡ Availability.count e.availability i)
      → length e'.availability.counts ≡ length e.availability.counts
      → ((i : ℕ)
          → active_count e'.picker i + job_one i p + held i ≡ active_count e.picker i + held' i)
      → Active.IsValid e'.picker
      → IsCounted total held' e'
  deleted-IsCounted held held' e e' id p v g ps av len act pv = record {
    available = λ i.
        rw ps (omega (arith, av i, v.available i, tally-delete_peer (has_one i) id p e.peers g));
    sized = len ∙ v.sized;
    active =
        λ i. rw ps (omega (arith, act i, v.active i, tally-delete_peer (job_one i) id p e.peers g));
    picker = pv;
    each = rw ps (AllPeers-delete_peer (IsPeer total) id e.peers v.each);
    distinct = rw ps (IsDistinct-delete_peer id e.peers v.distinct);
  }

  -- A peer is counted with what it has and what it works on.
  pub has_one-le-count :
      (held : ℕ → ℕ) (e : Engine) (id : ℕ) (p : Peer) (i : ℕ)
      → IsCounted total held e
      → get_peer id e.peers ≡ some p
      → has_one i p ≤ Availability.count e.availability i
  has_one-le-count held e id p i v g =
      omega (arith, v.available i, tally-delete_peer (has_one i) id p e.peers g)

  pub count-below :
      (held : ℕ → ℕ) (e : Engine) (i : ℕ)
      → IsCounted total held e
      → IsFew e
      → Availability.count e.availability i + 1 < 2 ^ 32
  count-below held e i v few =
      omega (arith, v.available i, tally-le-length (has_one i) e.peers (has_one-le i))

  pub IsPeer-get_peer :
      (held : ℕ → ℕ) (e : Engine) (id : ℕ) (p : Peer)
      → IsCounted total held e
      → get_peer id e.peers ≡ some p
      → IsPeer total p
  IsPeer-get_peer held e id p v g = AllPeers-get_peer (IsPeer total) id p e.peers g v.each

  -- The counts without a bitfield that was counted, and with one that was not.
  pub count-without :
      (known : Bool) (b : Bitfield) (a : Availability) (i : ℕ)
      → b.pieces ≡ total
      → length a.counts ≡ total
      → (known ≡ false → Bitfield.has b i ≡ false)
      → (if Bitfield.has b i then 1 else 0) ≤ Availability.count a i
      → Availability.count (without known b a) i + (if Bitfield.has b i then 1 else 0)
        ≡ Availability.count a i
  count-without true b a i e l u h =
      ground (arith, count-remove_bitfield a b i, has_below b total i e)
  count-without false b a i e l u h = ground (arith, u refl)

  pub length-without :
      (known : Bool) (b : Bitfield) (a : Availability)
      → length (without known b a).counts ≡ length a.counts
  length-without true b a = length-remove_bitfield a b
  length-without false b a = refl

  pub count-with :
      (b : Bitfield) (a : Availability) (i : ℕ)
      → b.pieces ≡ total
      → length a.counts ≡ total
      → Availability.count a i + 1 < 2 ^ 32
      → Availability.count (Availability.add_bitfield a b) i
        ≡ Availability.count a i + (if Bitfield.has b i then 1 else 0)
  count-with b a i e l h = ground (arith, count-add_bitfield a b i, has_below b total i e)

  -- A job that is given up is one that was counted.
  abandon_job-active :
      (o : Option PieceJob) (e : Engine) (i : ℕ)
      → Active.IsValid e.picker
      → (if works_on i o then 1 else 0) ≤ active_count e.picker i
      → active_count (abandon_job o e).picker i + (if works_on i o then 1 else 0)
        ≡ active_count e.picker i
  abandon_job-active none e i v h = omega arith
  abandon_job-active (some job) e i v h =
      ground (arith, active_count-abandon e.picker job.index i v)

  abandon_job-IsValid :
      (o : Option PieceJob) (e : Engine)
      → Active.IsValid e.picker
      → Active.IsValid (abandon_job o e).picker
  abandon_job-IsValid none e v = v
  abandon_job-IsValid (some job) e v = abandon-IsValid e.picker job.index v

  abandon_job-peers : (o : Option PieceJob) (e : Engine) → (abandon_job o e).peers ≡ e.peers
  abandon_job-peers none e = refl
  abandon_job-peers (some job) e = refl

  abandon_job-availability :
      (o : Option PieceJob) (e : Engine) → (abandon_job o e).availability ≡ e.availability
  abandon_job-availability none e = refl
  abandon_job-availability (some job) e = refl

  -- A peer that goes takes its pieces and its fetch off the counts.
  forget_peer-IsCounted :
      (held : ℕ → ℕ) (e : Engine) (id : ℕ) (o : Option Peer)
      → IsCounted total held e
      → get_peer id e.peers ≡ o
      → IsCounted total held (forget_peer id o e)
  forget_peer-IsCounted held e id none v g = v
  forget_peer-IsCounted held e id (some p) v g =
      let ok : IsPeer total p = IsPeer-get_peer held e id p v g in
      let rest : Engine = record e {
        peers = delete_peer id e.peers;
        availability = without p.theirs_known p.theirs e.availability;
      } in
      deleted-IsCounted held held e (abandon_job p.job rest) id p v g (abandon_job-peers p.job rest)
        (λ i.
          ap (λ a. Availability.count a i + has_one i p) (abandon_job-availability p.job rest)
          ∙ count-without p.theirs_known p.theirs e.availability i ok.pieces v.sized
              (λ u. ok.unknown u i) (has_one-le-count held e id p i v g))
        (ap (λ a. length a.counts) (abandon_job-availability p.job rest)
          ∙ length-without p.theirs_known p.theirs e.availability)
        (λ i. omega (
          arith,
          abandon_job-active p.job rest i v.picker
              (omega (arith, v.active i, tally-delete_peer (job_one i) id p e.peers g)),
        ))
        (abandon_job-IsValid p.job rest v.picker)

  pub remove_peer-IsCounted :
      (held : ℕ → ℕ) (id : ℕ) (e : Engine)
      → IsCounted total held e
      → IsCounted total held (remove_peer id e)
  unfolding remove_peer
  remove_peer-IsCounted held id e v = forget_peer-IsCounted held e id (get_peer id e.peers) v refl
