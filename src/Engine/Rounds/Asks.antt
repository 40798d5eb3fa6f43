-- ===== src/Engine/Rounds/Asks.antt =====
-- What a round asks a peer for changes nothing that is counted.
use btget.Prelude.{
  ℕ, ◌≡◌, refl, ◌∙◌, Bool, true, false, List, [], ◌∷◌, ◌++◌, Option, none, some, map, if_either,
}
use btget.Peer.{Message, interested, request}
use btget.Peer.State.{set_interested, can_request}
use btget.Requests
use btget.Requests.{BlockRequest, RequestPipeline}
use btget.Engine.State.{PieceJob, Peer, send_into, send}
use btget.Engine.Message.{block_pair}
use btget.Engine.Message.Told.{IsLike, IsLike-refl, IsLike-trans, job_one-some, send_into-IsLike}
use btget.Engine.Rounds.{
  requeued, ask_next, issued_next, ask, asked, ask_blocks, interest_sent, work,
}

pub requeued-IsLike :
    (now : ℕ) (p : Peer) (o : Option PieceJob) → p.job ≡ o → IsLike p (requeued now p o)
requeued-IsLike now p none h = IsLike-refl p
requeued-IsLike now p (some job) h = record {
  theirs = refl;
  known = refl;
  job = λ i.
      job_one-some i p job
        (record job { pending = job.pending ++ map block_pair (Requests.expired p.pipeline now).1 })
        h refl;
}

ask_next-IsLike :
    (continue : Peer → Peer × List (ℕ × ℕ) × Bool) (rest : List (ℕ × ℕ)) (p : Peer) (b : Bool)
    → ((q : Peer) → IsLike q (continue q).0)
    → IsLike p (ask_next continue rest (p, b)).0
ask_next-IsLike continue rest p true h = h p
ask_next-IsLike continue rest p false h = IsLike-refl p

with_pipeline : (p : Peer) (r : RequestPipeline) → IsLike p (record p { pipeline = r })
with_pipeline p r = record { theirs = refl; known = refl; job = λ i. refl }

issued_next-IsLike :
    (continue : Peer → Peer × List (ℕ × ℕ) × Bool) (rest : List (ℕ × ℕ)) (p : Peer) (m : Message)
    (r : RequestPipeline × Bool)
    → ((q : Peer) → IsLike q (continue q).0)
    → IsLike p (issued_next continue rest p m r).0
issued_next-IsLike continue rest p m (r, true) h =
    let p' : Peer = record p { pipeline = r } in
    IsLike-trans p p' _ (with_pipeline p r) (
      IsLike-trans p' (send p' m).0 _ (send_into-IsLike p.tx_open p' m)
        (ask_next-IsLike continue rest (send p' m).0 (send p' m).1 h))
issued_next-IsLike continue rest p m (r, false) h =
    IsLike-trans p (record p { pipeline = r }) _ (with_pipeline p r) (h (record p { pipeline = r }))

ask-IsLike : (now index : ℕ) (l : List (ℕ × ℕ)) (p : Peer) → IsLike p (ask now index l p).0
unfolding ask
ask-IsLike now index [] p = IsLike-refl p
ask-IsLike now index ((begin, len) ∷ rest) p =
    if_either (λ (r : Peer × List (ℕ × ℕ) × Bool). IsLike p r.0) (Requests.has_slot p.pipeline)
      (issued_next-IsLike (ask now index rest) rest p (request index begin len) _
        (ask-IsLike now index rest))
      (IsLike-refl p)

asked-IsLike :
    (p q : Peer) (job : PieceJob) (rest : List (ℕ × ℕ)) (dead : Bool)
    → p.job ≡ some job
    → IsLike p q
    → IsLike p (asked job (q, rest, dead)).0
asked-IsLike p q job rest dead h l = record {
  theirs = l.theirs;
  known = l.known;
  job = λ i. job_one-some i p job (record job { pending = rest }) h refl;
}

ask_blocks-IsLike :
    (now : ℕ) (job : PieceJob) (p : Peer) → p.job ≡ some job → IsLike p (ask_blocks now job p).0
unfolding ask_blocks
ask_blocks-IsLike now job p h =
    let r = ask now job.index job.pending p in
    if_either (λ (r : Peer × Bool). IsLike p r.0) (can_request p.state)
      (asked-IsLike p r.0 job r.1 r.2 h (ask-IsLike now job.index job.pending p)) (IsLike-refl p)

interest_sent-IsLike :
    (now : ℕ) (job : PieceJob) (p : Peer) (b : Bool)
    → p.job ≡ some job
    → IsLike p (interest_sent now job (p, b)).0
unfolding interest_sent
interest_sent-IsLike now job p true h =
    let p' : Peer = record p { state = set_interested p.state true } in
    IsLike-trans p p' _ (record { theirs = refl; known = refl; job = λ i. refl })
      (ask_blocks-IsLike now job p' h)
interest_sent-IsLike now job p false h = IsLike-refl p

send_into-job : (b : Bool) (p : Peer) (m : Message) → (send_into b p m).0.job ≡ p.job
send_into-job true p m = refl
send_into-job false p m = refl

pub work-IsLike : (now : ℕ) (o : Option PieceJob) (p : Peer) → p.job ≡ o → IsLike p (work now o p).0
unfolding work
work-IsLike now none p h = IsLike-refl p
work-IsLike now (some job) p h =
    let r = send p interested in
    if_either (λ (r : Peer × Bool). IsLike p r.0) p.state.am_interested
      (ask_blocks-IsLike now job p h)
      (IsLike-trans p r.0 _ (send_into-IsLike p.tx_open p interested)
        (interest_sent-IsLike now job r.0 r.1 (send_into-job p.tx_open p interested ∙ h)))
