-- ===== src/Engine/Message/Finish.antt =====
-- The end of a piece job keeps the counts of the engine.
use btget.Prelude.{
  ℕ, ◌+◌, ◌≡◌, refl, sym, ap, ◌∙◌, subst, false, List, Option, none, some, arith, if◌then◌else◌,
  leb, length, Bool-cases, inl, inr, Bytes, ok, err, Result,
}
use btget.Storage
use btget.Storage.{read_block, write_block}
use btget.Picker
use btget.Picker.{active_count}
use btget.Picker.Active as Active
use btget.Picker.Active.{
  active_count-abandon, abandon-IsValid, active_count-complete, complete-IsValid,
}
use btget.Engine.State.{
  PieceJob, restart, max_verify_failures, Peer, get_peer, Context, Engine, total_pieces,
}
use btget.Engine.Tally.{IsDistinct, AllPeers}
use btget.Engine.Counted.{
  IsPeer, IsCounted, none_held, one_held, replaced-IsCounted, IsPeer-get_peer,
  remove_peer-IsCounted,
}
use btget.Engine.Message.{
  Outcome, store, works_on, tell_have, verify_piece, piece_written, piece_verified, try_again,
  finish_piece, put_block,
}
use btget.Engine.Message.Told.{
  get_peer-IsIdle, tell_have-has_one, tell_have-job_one, tell_have-IsPeer, tell_have-IsDistinct,
}

-- The counts hold where the call did not fail.
abbrev pub IsKept : ℕ → Outcome → Type 0
IsKept total (e, none) = IsCounted total none_held e
IsKept total (e, some _) = Unit

module _ (total : ℕ) where
  -- The fetch of a piece that no peer has as its job is given up.
  dropped-IsCounted :
      (index : ℕ) (e : Engine)
      → IsCounted total (one_held index) e
      → IsCounted total none_held (record e { picker = Picker.abandon e.picker index })
  dropped-IsCounted index e v = record {
    available = v.available;
    sized = v.sized;
    active = λ i. ground (arith, v.active i, active_count-abandon e.picker index i v.picker);
    picker = abandon-IsValid e.picker index v.picker;
    each = v.each;
    distinct = v.distinct;
  }

  -- The piece is there: every fetch of it ends.
  ended-IsCounted :
      (id index : ℕ) (e e' : Engine) (p : Peer)
      → IsCounted total (one_held index) e
      → get_peer id e.peers ≡ some p
      → works_on index p.job ≡ false
      → e'.availability ≡ e.availability
      → e'.picker ≡ Picker.complete e.picker index
      → e'.peers ≡ tell_have id index e.peers
      → IsCounted total none_held e'
  ended-IsCounted id index e e' p v g w av pi ps = record {
    available = λ i. rw (av, ps) (v.available i ∙ sym (tell_have-has_one id index i e.peers));
    sized = ap (λ a. length a.counts) av ∙ v.sized;
    active = λ i.
        rw (pi, ps)
          (ground (
            arith,
            v.active i,
            active_count-complete e.picker index i,
            tell_have-job_one id index i e.peers
                (get_peer-IsIdle id index p e.peers v.distinct g w),
          ));
    picker = subst Active.IsValid (sym pi) (complete-IsValid e.picker index v.picker);
    each =
        subst (AllPeers (IsPeer total)) (sym ps) (tell_have-IsPeer total id index e.peers v.each);
    distinct = subst IsDistinct (sym ps) (tell_have-IsDistinct id index e.peers v.distinct);
  }

job_one-none :
    (i : ℕ) (o : Option PieceJob) → o ≡ none → ◌≡◌ {A = ℕ} (if works_on i o then 1 else 0) 0
job_one-none i none e = refl
job_one-none i (some job) e = cc

restarted :
    (i : ℕ) (job : PieceJob)
    → (if works_on i (some (restart job)) then 1 else 0) ≡ one_held job.index i
unfolding restart
restarted i job = refl

works_on-none : (i : ℕ) (o : Option PieceJob) → o ≡ none → works_on i o ≡ false
works_on-none i none e = refl
works_on-none i (some job) e = cc

pub put_block-index :
    (sha1 : Bytes → Bytes) (c : Context) (begin : ℕ) (block : Bytes) (job : PieceJob)
    → (put_block sha1 c begin block job).index ≡ job.index
unfolding put_block
put_block-index sha1 c begin block job = ground arith

module _ (sha1 : Bytes → Bytes) (c : Context) where
  piece_written-IsKept :
      (id : ℕ) (job : PieceJob) (e : Engine) (p : Peer)
      (r : List Bytes × Result (Unit {0}) Storage.Error)
      → IsCounted (total_pieces c) (one_held job.index) e
      → get_peer id e.peers ≡ some p
      → works_on job.index p.job ≡ false
      → IsKept (total_pieces c) (piece_written sha1 c id job e r)
  unfolding piece_written
  piece_written-IsKept id job e p (disk, err x) v g w = tt
  piece_written-IsKept id job e p (disk, ok x) v g w =
      ended-IsCounted (total_pieces c) id job.index e (piece_written sha1 c id job e (disk, ok x)).0
        p v g w refl refl refl

  again-IsCounted :
      (id : ℕ) (job : PieceJob) (e : Engine) (p : Peer)
      → IsCounted (total_pieces c) (one_held job.index) e
      → get_peer id e.peers ≡ some p
      → p.job ≡ none
      → IsCounted (total_pieces c) none_held (try_again sha1 c id job (some p) e)
  again-IsCounted id job e p v g w =
      let q : Peer = record p { job = some (restart job) } in
      let ok : IsPeer (total_pieces c) p =
        IsPeer-get_peer (total_pieces c) (one_held job.index) e id p v g in
      replaced-IsCounted (total_pieces c) (one_held job.index) none_held e (store id q e) id p q v g
        refl (record { valid = ok.valid; pieces = ok.pieces; unknown = ok.unknown }) (λ i. refl)
        refl (λ i. omega (arith, job_one-none i p.job w, restarted i job)) v.picker

  pub finish_piece-IsKept :
      (id : ℕ) (job : PieceJob) (e : Engine) (p : Peer)
      → IsCounted (total_pieces c) (one_held job.index) e
      → get_peer id e.peers ≡ some p
      → p.job ≡ none
      → IsKept (total_pieces c) (finish_piece sha1 c id job e)
  unfolding finish_piece piece_verified
  finish_piece-IsKept id job e p v g w =
      elim (Bool-cases (verify_piece sha1 c job.buffer job.index)) [
        | inl h ↦
            rw (h, finish_piece)
              (piece_written-IsKept id job e p
                (write_block c.refuses c.storage e.disk job.index 0 job.buffer) v g
                (works_on-none job.index p.job w))
        | inr h ↦ elim (Bool-cases (leb max_verify_failures (job.failures + 1))) [
          | inl l ↦
              rw (h, l, finish_piece)
                (remove_peer-IsCounted (total_pieces c) none_held id _
                  (dropped-IsCounted (total_pieces c) job.index e v))
          | inr l ↦ rw (h, l, g, finish_piece) (again-IsCounted id job e p v g w)
        ]
      ]
