-- ===== src/Engine/Rounds/Count.antt =====
-- The loop over the peers of `housekeeping` keeps the counts.
use btget.Prelude.{
  ℕ, ◌+◌, ◌≡◌, refl, sym, ap, ◌∙◌, subst, Bool, false, List, [], ◌∷◌, Option, none, some, arith,
  ◌==◌, if◌then◌else◌, if_either, Bool-cases, inl, inr,
}
use btget.Storage.{piece_size}
use btget.Pieces.Bitfield
use btget.Pieces.Bitfield.{IsValid}
use btget.Picker
use btget.Picker.{active_count, PiecePicker}
use btget.Picker.Active as Active
use btget.Picker.Pick.{pick_lem, pick-IsValid}
use btget.Engine.State.{PieceJob, start, Peer, get_peer, Context, Engine, total_pieces}
use btget.Engine.Counted.{
  job_one, IsPeer, IsCounted, none_held, replaced-IsCounted, IsPeer-get_peer, remove_peer-IsCounted,
}
use btget.Engine.Message.{remove_peer, store, works_on}
use btget.Engine.Message.Told.{IsLike}
use btget.Engine.Rounds.{
  has_job, requeued, work, assigned, assign, is_snubbing, tend_assigned, tend, bury, tend_all,
}
use btget.Engine.Rounds.Asks.{requeued-IsLike, work-IsLike}

module _ (c : Context) where
  -- The state in the middle of a round for one peer: what it has is as before, and a new job is counted.
  record IsNext (e : Engine) (p : Peer) (picker : PiecePicker) (q : Peer) : Type 0 where
    theirs : q.theirs ≡ p.theirs
    known : q.theirs_known ≡ p.theirs_known
    job : (i : ℕ) → active_count picker i + job_one i p ≡ active_count e.picker i + job_one i q
    valid : Active.IsValid picker

  IsNext-IsLike :
      (e : Engine) (p : Peer) (picker : PiecePicker) (q r : Peer)
      → IsNext e p picker q
      → IsLike q r
      → IsNext e p picker r
  IsNext-IsLike e p picker q r n l = record {
    theirs = l.theirs ∙ n.theirs;
    known = l.known ∙ n.known;
    job = λ i. omega (arith, n.job i, l.job i);
    valid = n.valid;
  }

  next-IsCounted :
      (e : Engine) (id : ℕ) (p : Peer) (picker : PiecePicker) (q : Peer)
      → IsCounted (total_pieces c) none_held e
      → get_peer id e.peers ≡ some p
      → IsNext e p picker q
      → IsCounted (total_pieces c) none_held (store id q (record e { picker = picker }))
  next-IsCounted e id p picker q v g n =
      let total = total_pieces c in
      let was : IsPeer total p = IsPeer-get_peer total none_held e id p v g in
      replaced-IsCounted total none_held none_held e (store id q (record e { picker = picker })) id
        p q v g refl
        (record {
          valid = subst IsValid (sym n.theirs) was.valid;
          pieces = ap (λ b. b.pieces) n.theirs ∙ was.pieces;
          unknown = λ u i. ap (λ b. Bitfield.has b i) n.theirs ∙ was.unknown (sym n.known ∙ u) i;
        })
        (λ i.
          omega
            (arith, ap (λ b. if Bitfield.has b i then (let one : ℕ = 1 in one) else 0) n.theirs))
        refl (λ i. omega (arith, n.job i)) n.valid

  has_job-none : (i : ℕ) (p : Peer) → has_job p.job ≡ false → job_one i p ≡ 0
  has_job-none i p h = by_job p.job h
    where
      by_job :
          (o : Option PieceJob) → has_job o ≡ false → ◌≡◌ {A = ℕ} (if works_on i o then 1 else 0) 0
      by_job none h = refl
      by_job (some job) h = cc

  job_one-start :
      (i index size : ℕ)
      → ◌≡◌ {A = ℕ}
          (if works_on i (some (start index size)) then 1 else 0)
          (if index == i then 1 else 0)
  unfolding start
  job_one-start i index size = refl

  abbrev picked_one : ℕ → Option ℕ → ℕ
  picked_one i none = 0
  picked_one i (some index) = if index == i then 1 else 0

  picked-IsNext :
      (e : Engine) (p : Peer) (picker : PiecePicker) (o : Option ℕ)
      → Active.IsValid picker
      → has_job p.job ≡ false
      → ((i : ℕ) → active_count picker i ≡ active_count e.picker i + picked_one i o)
      → IsNext e p (assigned c p (picker, o)).0 (assigned c p (picker, o)).1
  picked-IsNext e p picker none v h k = record {
    theirs = refl;
    known = refl;
    job = λ i. omega (arith, k i);
    valid = v;
  }
  picked-IsNext e p picker (some index) v h k = record {
    theirs = refl;
    known = refl;
    job = λ i.
        omega (arith, k i, has_job-none i p h, job_one-start i index (piece_size c.storage index));
    valid = v;
  }

  pick-picked_one :
      (e : Engine) (p : Peer) (i : ℕ)
      → Active.IsValid e.picker
      → active_count (Picker.pick e.picker e.ours p.theirs e.availability).0 i
        ≡ active_count e.picker i
          + picked_one i (Picker.pick e.picker e.ours p.theirs e.availability).1
  pick-picked_one e p i v = elim (pick_lem e.picker e.ours p.theirs e.availability v) [
    | inl (index, h, _, k) ↦ rw h (ground (arith, k i))
    | inr (h, _) ↦ rw h (omega arith)
  ]

  unchanged-IsNext : (e : Engine) (p : Peer) → Active.IsValid e.picker → IsNext e p e.picker p
  unchanged-IsNext e p v = record { theirs = refl; known = refl; job = λ i. refl; valid = v }

  assign-IsNext :
      (e : Engine) (p : Peer)
      → Active.IsValid e.picker
      → IsNext e p (assign c e p).0 (assign c e p).1
  unfolding assign
  assign-IsNext e p v = elim (Bool-cases (has_job p.job)) [
    | inl h ↦ rw h (unchanged-IsNext e p v)
    | inr h ↦
        let r = Picker.pick e.picker e.ours p.theirs e.availability in
        rw h (
          if_either (λ (a : PiecePicker × Peer). IsNext e p a.0 a.1) p.theirs_known
            (picked-IsNext e p r.0 r.1 (pick-IsValid e.picker e.ours p.theirs e.availability v) h
              (λ i. pick-picked_one e p i v))
            (unchanged-IsNext e p v))
  ]

  tend-IsCounted :
      (now id : ℕ) (o : Option Peer) (e : Engine)
      → IsCounted (total_pieces c) none_held e
      → get_peer id e.peers ≡ o
      → IsCounted (total_pieces c) none_held (tend c now id o e).0
  unfolding tend tend_assigned
  tend-IsCounted now id none e v g = v
  tend-IsCounted now id (some p) e v g =
      let p' = requeued now p p.job in
      let a = assign c e p' in
      let l : IsLike p p' = requeued-IsLike now p p.job refl in
      let n : IsNext e p' a.0 a.1 = assign-IsNext e p' v.picker in
      let n' : IsNext e p a.0 a.1 = record {
        theirs = n.theirs ∙ l.theirs;
        known = n.known ∙ l.known;
        job = λ i. omega (arith, n.job i, l.job i);
        valid = n.valid;
      } in
      if_either (λ (r : Engine × Bool). IsCounted (total_pieces c) none_held r.0)
        (is_snubbing c now (record e { picker = a.0 }) a.1) (next-IsCounted e id p a.0 a.1 v g n')
        (next-IsCounted e id p a.0 (work now a.1.job a.1).0 v g (
          IsNext-IsLike e p a.0 a.1 (work now a.1.job a.1).0 n' (work-IsLike now a.1.job a.1 refl)))

  pub tend_all-IsCounted :
      (now : ℕ) (ids : List ℕ) (e : Engine)
      → IsCounted (total_pieces c) none_held e
      → IsCounted (total_pieces c) none_held (tend_all c now ids e).0
  unfolding tend_all
  tend_all-IsCounted now [] e v = v
  tend_all-IsCounted now (id ∷ ids) e v =
      tend_all-IsCounted now ids (tend c now id (get_peer id e.peers) e).0
        (tend-IsCounted now id (get_peer id e.peers) e v refl)

  pub bury-IsCounted :
      (dead : List ℕ) (e : Engine)
      → IsCounted (total_pieces c) none_held e
      → IsCounted (total_pieces c) none_held (bury c dead e)
  unfolding bury
  bury-IsCounted [] e v = v
  bury-IsCounted (id ∷ dead) e v =
      bury-IsCounted dead (remove_peer id e)
        (remove_peer-IsCounted (total_pieces c) none_held id e v)
