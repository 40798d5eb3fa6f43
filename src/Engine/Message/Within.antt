-- ===== src/Engine/Message/Within.antt =====
-- A message brings no new peer and no new connecting thread.
use btget.Prelude.{
  ℕ, suc, ◌+◌, ◌≤◌, ◌≡◌, refl, ap, ◌∙◌, Bool, true, false, List, [], ◌∷◌, Option, none, some, arith,
  ◌==◌, if_either, leb, length, Bool-cases, inl, inr, Bytes, ok, err, Result, ◌%◌, ◌^◌,
}
use btget.Peer.{
  Message, keep_alive, choke, unchoke, interested, not_interested, have, bitfield, request, piece,
  cancel, port, extended,
}
use btget.Peer.State.{on_message as on_state}
use btget.Storage
use btget.Storage.{read_block, write_block}
use btget.Pieces.Bitfield
use btget.Pieces.Bitfield.{Bitfield, BitfieldError}
use btget.Picker
use btget.Requests
use btget.Requests.{BlockRequest, RequestPipeline}
use btget.Engine.State.{
  PieceJob, restart, done, max_verify_failures, Peer, send, Peers, get_peer, set_peer, delete_peer,
  Context, Engine, total_pieces,
}
use btget.Engine.Tally.{get_peer-set_peer, length-set_peer}
use btget.Engine.Message.{
  Outcome, remove_peer, forget_peer, abandon_job, without, store, tell_have, verify_piece,
  piece_written, piece_verified, try_again, finish_piece, bitfield_read, received_bitfield,
  received_have, choked_job, served, serve, received_request, put_block, accept_block, completed,
  received_piece, react, message_of, on_message,
}
use btget.Engine.Message.Told.{get_peer-store}

pub record IsWithin (e e' : Engine) : Type 0 where
  pub connecting : e'.connecting ≡ e.connecting
  pub fewer : length e'.peers ≤ length e.peers
  pub gone : (j : ℕ) → get_peer j e.peers ≡ none → get_peer j e'.peers ≡ none

pub IsWithin-refl : (e : Engine) → IsWithin e e
IsWithin-refl e = record { connecting = refl; fewer = omega arith; gone = λ j g. g }

pub IsWithin-trans : (e e' e'' : Engine) → IsWithin e e' → IsWithin e' e'' → IsWithin e e''
IsWithin-trans e e' e'' h k = record {
  connecting = k.connecting ∙ h.connecting;
  fewer = omega (arith, h.fewer, k.fewer);
  gone = λ j g. k.gone j (h.gone j g);
}

-- The peers are the same.
pub same-IsWithin :
    (e e' : Engine) → e'.connecting ≡ e.connecting → e'.peers ≡ e.peers → IsWithin e e'
same-IsWithin e e' c p = record {
  connecting = c;
  fewer = rw p (omega arith);
  gone = λ j g. ap (get_peer j) p ∙ g;
}

get_peer-set_peer-none :
    (id j : ℕ) (p q : Peer) (ps : Peers)
    → get_peer id ps ≡ some p
    → get_peer j ps ≡ none
    → get_peer j (set_peer id q ps) ≡ none
get_peer-set_peer-none id j p q ps g n = elim (Bool-cases (id == j)) [
  | inl h ↦ absurd (ground (arith, h, g, n))
  | inr h ↦ get_peer-set_peer id j q ps ∙ rw h n
]

-- One peer that is there is replaced.
pub stored-IsWithin :
    (e e' : Engine) (id : ℕ) (p q : Peer)
    → get_peer id e.peers ≡ some p
    → e'.connecting ≡ e.connecting
    → e'.peers ≡ set_peer id q e.peers
    → IsWithin e e'
stored-IsWithin e e' id p q g c ps = record {
  connecting = c;
  fewer = rw ps (omega (arith, length-set_peer id p q e.peers g));
  gone = λ j n. ap (get_peer j) ps ∙ get_peer-set_peer-none id j p q e.peers g n;
}

length-delete_peer : (id : ℕ) (ps : Peers) → length (delete_peer id ps) ≤ length ps
unfolding delete_peer
length-delete_peer id [] = omega arith
length-delete_peer id ((j, p) ∷ ps) = ground (arith, length-delete_peer id ps)

get_peer-delete_peer-none :
    (id j : ℕ) (ps : Peers) → get_peer j ps ≡ none → get_peer j (delete_peer id ps) ≡ none
unfolding get_peer delete_peer
get_peer-delete_peer-none id j [] h = refl
get_peer-delete_peer-none id j ((k, p) ∷ ps) h =
    ground (arith, h, get_peer-delete_peer-none id j ps)

abandoned-IsWithin : (o : Option PieceJob) (e : Engine) → IsWithin e (abandon_job o e)
abandoned-IsWithin none e = IsWithin-refl e
abandoned-IsWithin (some job) e = same-IsWithin e (abandon_job (some job) e) refl refl

forget_peer-IsWithin : (id : ℕ) (o : Option Peer) (e : Engine) → IsWithin e (forget_peer id o e)
forget_peer-IsWithin id none e = IsWithin-refl e
forget_peer-IsWithin id (some p) e =
    let rest : Engine = record e {
      peers = delete_peer id e.peers;
      availability = without p.theirs_known p.theirs e.availability;
    } in
    IsWithin-trans e rest (abandon_job p.job rest)
      (record {
        connecting = refl;
        fewer = length-delete_peer id e.peers;
        gone = λ j g. get_peer-delete_peer-none id j e.peers g;
      })
      (abandoned-IsWithin p.job rest)

pub remove_peer-IsWithin : (id : ℕ) (e : Engine) → IsWithin e (remove_peer id e)
unfolding remove_peer
remove_peer-IsWithin id e = forget_peer-IsWithin id (get_peer id e.peers) e

length-tell_have : (id index : ℕ) (ps : Peers) → length (tell_have id index ps) ≡ length ps
unfolding tell_have
length-tell_have id index [] = refl
length-tell_have id index ((j, p) ∷ ps) = ap suc (length-tell_have id index ps)

get_peer-tell_have :
    (id index j : ℕ) (ps : Peers) → get_peer j ps ≡ none → get_peer j (tell_have id index ps) ≡ none
unfolding get_peer tell_have
get_peer-tell_have id index j [] h = refl
get_peer-tell_have id index j ((k, p) ∷ ps) h = ground (arith, h, get_peer-tell_have id index j ps)

module _ (sha1 : Bytes → Bytes) (c : Context) where
  piece_written-IsWithin :
      (id : ℕ) (job : PieceJob) (e : Engine) (r : List Bytes × Result (Unit {0}) Storage.Error)
      → IsWithin e (piece_written sha1 c id job e r).0
  unfolding piece_written
  piece_written-IsWithin id job e (disk, err x) =
      same-IsWithin e (record e { disk = disk }) refl refl
  piece_written-IsWithin id job e (disk, ok x) = record {
    connecting = refl;
    fewer = omega (arith, length-tell_have id job.index e.peers);
    gone = λ j g. get_peer-tell_have id job.index j e.peers g;
  }

  try_again-IsWithin :
      (id : ℕ) (job : PieceJob) (o : Option Peer) (e : Engine)
      → get_peer id e.peers ≡ o
      → IsWithin e (try_again sha1 c id job o e)
  try_again-IsWithin id job none e g =
      same-IsWithin e (record e { picker = Picker.abandon e.picker job.index }) refl refl
  try_again-IsWithin id job (some p) e g =
      let q : Peer = record p { job = some (restart job) } in
      stored-IsWithin e (store id q e) id p q g refl refl

  finish_piece-IsWithin :
      (id : ℕ) (job : PieceJob) (e : Engine) → IsWithin e (finish_piece sha1 c id job e).0
  unfolding finish_piece piece_verified
  finish_piece-IsWithin id job e =
      let given : Engine = record e { picker = Picker.abandon e.picker job.index } in
      if_either (λ (o : Outcome). IsWithin e o.0) (verify_piece sha1 c job.buffer job.index)
        (piece_written-IsWithin id job e
          (write_block c.refuses c.storage e.disk job.index 0 job.buffer))
        (if_either (λ (o : Outcome). IsWithin e o.0) (leb max_verify_failures (job.failures + 1))
          (IsWithin-trans e given _ (same-IsWithin e given refl refl)
            (remove_peer-IsWithin id given))
          (try_again-IsWithin id job (get_peer id e.peers) e refl))

  module _ (id : ℕ) (peer : Peer) (e : Engine) (at : get_peer id e.peers ≡ some peer) where
    put_back :
        (q : Peer) (e' : Engine)
        → e'.connecting ≡ e.connecting
        → e'.peers ≡ e.peers
        → IsWithin e (store id q e')
    put_back q e' c p = stored-IsWithin e (store id q e') id peer q at c (ap (set_peer id q) p)

    bitfield_read-IsWithin :
        (r : Result Bitfield BitfieldError) → IsWithin e (bitfield_read sha1 c id peer e r)
    unfolding bitfield_read
    bitfield_read-IsWithin (err x) = remove_peer-IsWithin id e
    bitfield_read-IsWithin (ok bits) = put_back _ _ refl refl

    received_have-IsWithin : (index : ℕ) → IsWithin e (received_have sha1 c id peer index e)
    unfolding received_have
    received_have-IsWithin index =
        if_either (IsWithin e) (Bitfield.has peer.theirs index) (IsWithin-refl e)
          (put_back _ _ refl refl)

    choked_job-IsWithin : (o : Option PieceJob) → IsWithin e (choked_job sha1 c id peer o e)
    choked_job-IsWithin none = IsWithin-refl e
    choked_job-IsWithin (some job) = put_back _ _ refl refl

    served-IsWithin : (len : ℕ) (q : Peer) (b : Bool) → IsWithin e (served sha1 c id len e (q, b))
    served-IsWithin len q true = put_back q (record e { uploaded = e.uploaded + len }) refl refl
    served-IsWithin len q false = put_back q e refl refl

    serve-IsWithin :
        (index begin len : ℕ) (r : Result Bytes Storage.Error)
        → IsWithin e (serve sha1 c id peer index begin len e r)
    serve-IsWithin index begin len (err x) = IsWithin-refl e
    serve-IsWithin index begin len (ok block) =
        let s = send peer (piece index begin block) in served-IsWithin len s.0 s.1

    received_request-IsWithin :
        (index begin len : ℕ) → IsWithin e (received_request sha1 c id peer index begin len e)
    unfolding received_request
    received_request-IsWithin index begin len =
        if_either (IsWithin e) _
          (serve-IsWithin index begin len (read_block c.storage e.disk index begin len))
          (IsWithin-refl e)

    accept_block-IsWithin :
        (now : ℕ) (q : Peer) (job : PieceJob) (begin : ℕ) (block : Bytes)
        → IsWithin e (accept_block sha1 c now id q job begin block e).0
    unfolding accept_block
    accept_block-IsWithin now q job begin block =
        let job' = put_block sha1 c begin block job in
        let q' : Peer = record q {
          downloaded_from = q.downloaded_from + length block;
          last_useful = now;
        } in
        let idle : Engine = store id (record q' { job = none }) e in
        if_either (λ (o : Outcome). IsWithin e o.0) (done job')
          (IsWithin-trans e idle _ (put_back (record q' { job = none }) e refl refl)
            (finish_piece-IsWithin id job' idle))
          (put_back (record q' { job = some job' }) e refl refl)

    completed-IsWithin :
        (now : ℕ) (job : PieceJob) (begin : ℕ) (block : Bytes)
        (r : RequestPipeline × Option BlockRequest)
        → IsWithin e (completed sha1 c now id peer job begin block e r).0
    unfolding completed
    completed-IsWithin now job begin block (pipeline, none) =
        put_back (record peer { pipeline = pipeline }) e refl refl
    completed-IsWithin now job begin block (pipeline, some x) =
        accept_block-IsWithin now (record peer { pipeline = pipeline }) job begin block

    received_piece-IsWithin :
        (now : ℕ) (o : Option PieceJob) (index begin : ℕ) (block : Bytes)
        → IsWithin e (received_piece sha1 c now id peer o index begin block e).0
    unfolding received_piece
    received_piece-IsWithin now none index begin block = IsWithin-refl e
    received_piece-IsWithin now (some job) index begin block =
        if_either (λ (o : Outcome). IsWithin e o.0) (job.index == index)
          (completed-IsWithin now job begin block
            (Requests.complete peer.pipeline index begin (length block % 2 ^ 32)))
          (IsWithin-refl e)

    react-IsWithin : (now : ℕ) (m : Message) → IsWithin e (react sha1 c now id peer m e).0
    unfolding react received_bitfield
    react-IsWithin now (bitfield bits) =
        bitfield_read-IsWithin (Bitfield.from_bytes bits (total_pieces c))
    react-IsWithin now (have index) = received_have-IsWithin index
    react-IsWithin now choke = choked_job-IsWithin peer.job
    react-IsWithin now (request index begin len) = received_request-IsWithin index begin len
    react-IsWithin now (piece index begin block) =
        received_piece-IsWithin now peer.job index begin block
    react-IsWithin now keep_alive = IsWithin-refl e
    react-IsWithin now unchoke = IsWithin-refl e
    react-IsWithin now interested = IsWithin-refl e
    react-IsWithin now not_interested = IsWithin-refl e
    react-IsWithin now (cancel i b l) = IsWithin-refl e
    react-IsWithin now (port p) = IsWithin-refl e
    react-IsWithin now (extended i b) = IsWithin-refl e

  message_of-IsWithin :
      (now id : ℕ) (o : Option Peer) (m : Message) (e : Engine)
      → get_peer id e.peers ≡ o
      → IsWithin e (message_of sha1 c now id o m e).0
  unfolding message_of
  message_of-IsWithin now id none m e g = IsWithin-refl e
  message_of-IsWithin now id (some peer) m e g =
      let peer' : Peer = record peer { state = on_state peer.state m } in
      let e' : Engine = store id peer' e in
      IsWithin-trans e e' _ (stored-IsWithin e e' id peer peer' g refl refl)
        (react-IsWithin id peer' e' (get_peer-store id peer' e) now m)

  pub on_message-IsWithin :
      (now id : ℕ) (m : Message) (e : Engine) → IsWithin e (on_message sha1 c now id m e).0
  unfolding on_message
  on_message-IsWithin now id m e = message_of-IsWithin now id (get_peer id e.peers) m e refl
