-- ===== src/Engine/Message/Told.antt =====
-- The peers after they were told of a piece that we have now.
use btget.Prelude.{
  ℕ, ◌≡◌, refl, sym, ap, ◌∙◌, subst, Bool, true, false, not, ◌&&◌, List, [], ◌∷◌, Option, none,
  some, arith, ◌==◌, ==_iff, if◌then◌else◌, Bool-cases, inl, inr,
}
use btget.Peer.{Message, have, cancel}
use btget.Pieces.Bitfield
use btget.Pieces.Bitfield.{Bitfield, IsValid}
use btget.Requests
use btget.Requests.{BlockRequest, RequestPipeline}
use btget.Engine.State.{PieceJob, Peer, send, send_into, Peers, get_peer, Engine}
use btget.Engine.Tally.{tally, IsNew, IsDistinct, AllPeers, get_peer-set_peer}
use btget.Engine.Counted.{has_one, job_one, IsPeer, IsCounted, replaced-IsCounted, IsPeer-get_peer}
use btget.Engine.Message.{store, works_on, send_cancels, drop_job, told, tell_have}

-- The same pieces, known to the same extent, and a job of the same piece.
pub record IsLike (p q : Peer) : Type 0 where
  pub theirs : q.theirs ≡ p.theirs
  pub known : q.theirs_known ≡ p.theirs_known
  pub job : (i : ℕ) → job_one i q ≡ job_one i p

pub IsLike-refl : (p : Peer) → IsLike p p
IsLike-refl p = record { theirs = refl; known = refl; job = λ i. refl }

pub IsLike-trans : (p q r : Peer) → IsLike p q → IsLike q r → IsLike p r
IsLike-trans p q r l m = record {
  theirs = m.theirs ∙ l.theirs;
  known = m.known ∙ l.known;
  job = λ i. m.job i ∙ l.job i;
}

-- A job of the same piece counts the same.
pub job_one-some :
    (i : ℕ) (p : Peer) (job job' : PieceJob)
    → p.job ≡ some job
    → job'.index ≡ job.index
    → ◌≡◌ {A = ℕ} (if works_on i (some job') then 1 else 0) (job_one i p)
job_one-some i p job job' h e =
    ap (λ (k : ℕ). if k == i then (let one : ℕ = 1 in one) else 0) e
    ∙ ap (λ o. if works_on i o then (let one : ℕ = 1 in one) else 0) (sym h)

pub send_into-IsLike : (b : Bool) (p : Peer) (m : Message) → IsLike p (send_into b p m).0
send_into-IsLike true p m = record { theirs = refl; known = refl; job = λ i. refl }
send_into-IsLike false p m = record { theirs = refl; known = refl; job = λ i. refl }

pub IsLike-IsPeer : (total : ℕ) (p q : Peer) → IsLike p q → IsPeer total p → IsPeer total q
IsLike-IsPeer total p q l h = record {
  valid = subst IsValid (sym l.theirs) h.valid;
  pieces = ap (λ b. b.pieces) l.theirs ∙ h.pieces;
  unknown = λ u i. ap (λ b. Bitfield.has b i) l.theirs ∙ h.unknown (sym l.known ∙ u) i;
}

pub has_one-IsLike : (i : ℕ) (p q : Peer) → IsLike p q → has_one i q ≡ has_one i p
has_one-IsLike i p q l = ap (λ b. if Bitfield.has b i then 1 else 0) l.theirs

module _ (total : ℕ) (held : ℕ → ℕ) where
  -- A peer changes in what is not counted.
  pub like-IsCounted :
      (e : Engine) (id : ℕ) (p q : Peer)
      → IsCounted total held e
      → get_peer id e.peers ≡ some p
      → IsLike p q
      → IsCounted total held (store id q e)
  like-IsCounted e id p q v g l =
      replaced-IsCounted total held held e (store id q e) id p q v g refl
        (IsLike-IsPeer total p q l (IsPeer-get_peer total held e id p v g))
        (λ i. omega (arith, has_one-IsLike i p q l)) refl (λ i. omega (arith, l.job i)) v.picker

pub get_peer-store : (id : ℕ) (q : Peer) (e : Engine) → get_peer id (store id q e).peers ≡ some q
get_peer-store id q e = get_peer-set_peer id id q e.peers ∙ ground (arith)

send_cancels-theirs : (rs : List BlockRequest) (p : Peer) → (send_cancels rs p).theirs ≡ p.theirs
unfolding send_cancels
send_cancels-theirs [] p = refl
send_cancels-theirs (r ∷ rs) p =
    send_cancels-theirs rs (send p (cancel r.piece r.begin r.length)).0
    ∙ (send_into-IsLike p.tx_open p (cancel r.piece r.begin r.length)).theirs

send_cancels-known :
    (rs : List BlockRequest) (p : Peer) → (send_cancels rs p).theirs_known ≡ p.theirs_known
unfolding send_cancels
send_cancels-known [] p = refl
send_cancels-known (r ∷ rs) p =
    send_cancels-known rs (send p (cancel r.piece r.begin r.length)).0
    ∙ (send_into-IsLike p.tx_open p (cancel r.piece r.begin r.length)).known

drop_job-IsPeer : (total : ℕ) (p : Peer) → IsPeer total p → IsPeer total (drop_job p)
unfolding drop_job
drop_job-IsPeer total p h =
    let rs = (Requests.drain p.pipeline).1 in
    let p' : Peer = record p { pipeline = (Requests.drain p.pipeline).0 } in
    record {
      valid = subst IsValid (sym (send_cancels-theirs rs p')) h.valid;
      pieces = ap (λ b. b.pieces) (send_cancels-theirs rs p') ∙ h.pieces;
      unknown = λ u i.
          ap (λ b. Bitfield.has b i) (send_cancels-theirs rs p')
          ∙ h.unknown (sym (send_cancels-known rs p') ∙ u) i;
    }

drop_job-has_one : (i : ℕ) (p : Peer) → has_one i (drop_job p) ≡ has_one i p
unfolding drop_job
drop_job-has_one i p =
    ap (λ b. if Bitfield.has b i then 1 else 0)
      (send_cancels-theirs (Requests.drain p.pipeline).1
        (record p { pipeline = (Requests.drain p.pipeline).0 }))

drop_job-job_one : (i : ℕ) (p : Peer) → job_one i (drop_job p) ≡ 0
unfolding drop_job
drop_job-job_one i p = refl

have_sent : (index : ℕ) (p : Peer) → IsLike p (send p (have index)).0
have_sent index p = send_into-IsLike p.tx_open p (have index)

told-IsPeer :
    (total : ℕ) (b : Bool) (index : ℕ) (p : Peer) → IsPeer total p → IsPeer total (told b index p)
unfolding told
told-IsPeer total true index p h =
    drop_job-IsPeer total (send p (have index)).0 (IsLike-IsPeer total p _ (have_sent index p) h)
told-IsPeer total false index p h = IsLike-IsPeer total p _ (have_sent index p) h

told-has_one : (b : Bool) (index i : ℕ) (p : Peer) → has_one i (told b index p) ≡ has_one i p
unfolding told
told-has_one true index i p =
    drop_job-has_one i (send p (have index)).0 ∙ has_one-IsLike i p _ (have_sent index p)
told-has_one false index i p = has_one-IsLike i p _ (have_sent index p)

told-job_one :
    (b : Bool) (index i : ℕ) (p : Peer)
    → job_one i (told b index p) ≡ (if b then 0 else job_one i p)
unfolding told
told-job_one true index i p = drop_job-job_one i (send p (have index)).0
told-job_one false index i p = (have_sent index p).job i

-- No entry with this id works on the piece.
abbrev pub IsIdle : ℕ → ℕ → Peers → Type 0
IsIdle id index [] = Unit
IsIdle id index ((j, p) ∷ ps) = (j == id ≡ true → works_on index p.job ≡ false) × IsIdle id index ps

IsNew-IsIdle : (id index : ℕ) (ps : Peers) → IsNew id ps → IsIdle id index ps
IsNew-IsIdle id index [] h = tt
IsNew-IsIdle id index ((j, p) ∷ ps) h = (λ e. cc, IsNew-IsIdle id index ps h.1)

pub get_peer-IsIdle :
    (id index : ℕ) (p : Peer) (ps : Peers)
    → IsDistinct ps
    → get_peer id ps ≡ some p
    → works_on index p.job ≡ false
    → IsIdle id index ps
unfolding get_peer
get_peer-IsIdle id index p [] d g w = tt
get_peer-IsIdle id index p ((j, r) ∷ ps) d g w = elim (Bool-cases (j == id)) [
  | inl t ↦
      let same : r ≡ p = ground (arith, t, g) in
      (
        λ _. ap (λ (q : Peer). works_on index q.job) same ∙ w,
        IsNew-IsIdle id index ps (subst (λ n. IsNew n ps) ((==_iff j id).0 t) d.0),
      )
  | inr t ↦ (λ e. cc, get_peer-IsIdle id index p ps d.1 (ground (arith, t, g)) w)
]

-- The job of one peer after the loop's round.
told_one :
    (index i : ℕ) (same : Bool) (o : Option PieceJob)
    → (same ≡ true → works_on index o ≡ false)
    → ◌≡◌ {A = ℕ}
        (if not same && works_on index o then 0 else (if works_on i o then 1 else 0))
        (if index == i then 0 else (if works_on i o then 1 else 0))
told_one index i true none h = ground arith
told_one index i false none h = ground arith
told_one index i true (some job) h = ground (arith, h refl)
told_one index i false (some job) h = ground arith

pub tell_have-has_one :
    (id index i : ℕ) (ps : Peers) → tally (has_one i) (tell_have id index ps) ≡ tally (has_one i) ps
unfolding tally tell_have
tell_have-has_one id index i [] = refl
tell_have-has_one id index i ((j, p) ∷ ps) = omega (
  arith,
  told-has_one (not (j == id) && works_on index p.job) index i p,
  tell_have-has_one id index i ps,
)

pub tell_have-job_one :
    (id index i : ℕ) (ps : Peers)
    → IsIdle id index ps
    → tally (job_one i) (tell_have id index ps) ≡ (if index == i then 0 else tally (job_one i) ps)
unfolding tally tell_have
tell_have-job_one id index i [] h = ground arith
tell_have-job_one id index i ((j, p) ∷ ps) h = ground (
  arith,
  told-job_one (not (j == id) && works_on index p.job) index i p,
  told_one index i (j == id) p.job h.0,
  tell_have-job_one id index i ps h.1,
)

pub tell_have-IsPeer :
    (total id index : ℕ) (ps : Peers)
    → AllPeers (IsPeer total) ps
    → AllPeers (IsPeer total) (tell_have id index ps)
unfolding tell_have
tell_have-IsPeer total id index [] h = tt
tell_have-IsPeer total id index ((j, p) ∷ ps) h = (
  told-IsPeer total (not (j == id) && works_on index p.job) index p h.0,
  tell_have-IsPeer total id index ps h.1,
)

tell_have-IsNew : (j id index : ℕ) (ps : Peers) → IsNew j ps → IsNew j (tell_have id index ps)
unfolding tell_have
tell_have-IsNew j id index [] h = tt
tell_have-IsNew j id index ((k, p) ∷ ps) h = (h.0, tell_have-IsNew j id index ps h.1)

pub tell_have-IsDistinct :
    (id index : ℕ) (ps : Peers) → IsDistinct ps → IsDistinct (tell_have id index ps)
unfolding tell_have
tell_have-IsDistinct id index [] h = tt
tell_have-IsDistinct id index ((k, p) ∷ ps) h =
    (tell_have-IsNew k id index ps h.0, tell_have-IsDistinct id index ps h.1)
