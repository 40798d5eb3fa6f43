-- ===== src/Engine/Download/Verified.antt =====
-- A download that ends well has every piece on the disk.
use btget.Prelude.{
  ℕ, zero, suc, ◌+◌, ◌-◌, ◌≤◌, ◌<◌, ◌≡◌, refl, sym, ap, ◌∙◌, subst, Bool, true, false, List, [],
  ◌∷◌, Option, none, some, arith, ltb, ◌==◌, ==_iff, if◌then◌else◌, if_either, get_or, Bytes,
  bytes_eq→eq, length, ◌^◌, Bool-cases, Result-cases, inl, inr, Result, ok, err,
}
use btget.Storage
use btget.Storage.{piece_size}
use btget.Trackers
use btget.Tracker.{AnnounceRequest, AnnounceResponse, completed}
use btget.Pieces.Bitfield
use btget.Engine.State.{EngineError, Context, Engine, total_pieces}
use btget.Engine.Message.{verify_piece}
use btget.Engine.Rounds.{piece_good, recheck, check_from, final_check}
use btget.Engine.Main as Main
use btget.Engine.Main.{World, Turn, Progress, going, announce, round}
use btget.Engine.Main.Ends.{IsEnd, round-IsEnd}
use btget.Engine.Main.Quiet.{announce-IsQuiet}
use btget.Engine.Download.{
  Phase, running, finished, finish, rechecked, after_run, after_round, step, continued, begin,
  started, download,
}

module _ (sha1 : Bytes → Bytes) (c : Context) where
  -- The piece can be read from the disk, and has the hash that the torrent file gives for it.
  pub record IsOnDisk (disk : List Bytes) (i : ℕ) : Type 0 where
    pub block : Bytes
    pub read : Storage.read_piece c.storage disk i ≡ ok block
    pub hash : sha1 block ≡ get_or c.meta.pieces i []

  piece_good-IsOnDisk :
      (disk : List Bytes) (i : ℕ)
      → piece_good sha1 c i (Storage.read_piece c.storage disk i) ≡ true
      → IsOnDisk disk i
  unfolding piece_good verify_piece
  piece_good-IsOnDisk disk i h = elim (Result-cases (Storage.read_piece c.storage disk i)) [
    | inl (block, r) ↦ record {
      block = block;
      read = r;
      hash =
          bytes_eq→eq (sha1 block) (get_or c.meta.pieces i [])
            (ap (λ (s : Result Bytes Storage.Error). piece_good sha1 c i s) (sym r) ∙ h);
    }
    | inr (x, r) ↦
        absurd (cc (ap (λ (s : Result Bytes Storage.Error). piece_good sha1 c i s) (sym r) ∙ h))
  ]

  check_from-zero : (index : ℕ) (e : Engine) → (check_from sha1 c zero index e).0 ≡ e
  unfolding check_from
  check_from-zero index e = refl

  check_from-step :
      (n index : ℕ) (e : Engine)
      → (check_from sha1 c (suc n) index e).1 ≡ 0
      → piece_good sha1 c index (Storage.read_piece c.storage e.disk index) ≡ true
        × ((check_from sha1 c n (index + 1) e).1 ≡ 0)
        × ((check_from sha1 c (suc n) index e).0 ≡ (check_from sha1 c n (index + 1) e).0)
  unfolding check_from recheck
  check_from-step n index e h =
      by_test (piece_good sha1 c index (Storage.read_piece c.storage e.disk index)) refl h
    where
      after : Bool → Engine × ℕ
      after b = if b then (e, 0) else (
        record e {
          ours = Bitfield.clear e.ours index;
          downloaded = e.downloaded - piece_size c.storage index;
        },
        1,
      )

      by_test :
          (b : Bool)
          → piece_good sha1 c index (Storage.read_piece c.storage e.disk index) ≡ b
          → (after b).1 + (check_from sha1 c n (index + 1) (after b).0).1 ≡ 0
          → piece_good sha1 c index (Storage.read_piece c.storage e.disk index) ≡ true
            × ((check_from sha1 c n (index + 1) e).1 ≡ 0)
            × ((check_from sha1 c n
                  (index + 1)
                  (after (piece_good sha1 c index (Storage.read_piece c.storage e.disk index))).0).0
                ≡ (check_from sha1 c n (index + 1) e).0)
      by_test true g k = (g, omega (arith, k), rw g refl)
      by_test false g k = absurd (omega (arith, k))

  -- A check that counts no bad piece changes nothing, and has found each piece good.
  check_from-good :
      (n index : ℕ) (e : Engine)
      → (check_from sha1 c n index e).1 ≡ 0
      → ((check_from sha1 c n index e).0 ≡ e)
        × ((i : ℕ) → index ≤ i → i < index + n → IsOnDisk e.disk i)
  check_from-good zero index e h = (check_from-zero index e, λ i lo hi. absurd (omega arith))
  check_from-good (suc n) index e h =
      let now = check_from-step n index e h in
      let rest = check_from-good n (index + 1) e now.1 in
      (
        now.2 ∙ rest.0,
        λ i lo hi. elim (Bool-cases (i == index)) [
          | inl s ↦ rw ((==_iff i index).0 s) (piece_good-IsOnDisk e.disk index now.0)
          | inr s ↦ rest.1 i (ground (arith, s)) (omega arith)
        ],
      )

  -- The bitfield is complete, and each piece is on the disk.
  pub record IsWhole (e : Engine) : Type 0 where
    pub whole : Bitfield.is_complete e.ours ≡ true
    pub each : (i : ℕ) → i < length c.meta.pieces → IsOnDisk e.disk i

  final_check-IsWhole :
      length c.meta.pieces < 2 ^ 32
      → (e : Engine) → Bitfield.is_complete e.ours ≡ true
      → (final_check sha1 c e).1 ≡ 0
      → IsWhole (final_check sha1 c e).0
  unfolding final_check
  final_check-IsWhole few e w h =
      let r = check_from-good (total_pieces c) 0 e h in
      subst IsWhole (sym r.0)
        (record { whole = w; each = λ i lt. r.1 i (omega arith) (omega (arith, few)) })

module _ {ℓ} {S : Type ℓ} (sha1 : Bytes → Bytes) (c : Context)
    (ask_tracker : AnnounceRequest → S → Bytes → S × Result AnnounceResponse Trackers.Error) where
  -- A phase in which a download that has ended well has everything.
  abbrev pub IsVerified : Phase S → Type 0
  IsVerified (running rechecks w) = Unit
  IsVerified (finished w none) = IsWhole sha1 c w.engine
  IsVerified (finished w (some x)) = Unit

  -- What holds of a download, unless it could not begin.
  abbrev pub IsOk : Result (Phase S) EngineError → Type 0
  IsOk (ok p) = IsVerified p
  IsOk (err x) = Unit

  finish-IsVerified :
      (w : World S) → IsWhole sha1 c w.engine → IsVerified (finish sha1 c ask_tracker w none)
  unfolding finish
  finish-IsVerified w v =
      let e : Engine = record w.engine { peers = []; saved = none } in
      let w' : World S = record w { engine = e } in
      record {
        whole =
            ap Bitfield.is_complete (announce-IsQuiet sha1 c ask_tracker completed w').ours
            ∙ v.whole;
        each = λ i lt.
            subst (λ disk. IsOnDisk sha1 c disk i)
              (sym (announce-IsQuiet sha1 c ask_tracker completed w').disk) (v.each i lt);
      }

  rechecked-IsVerified :
      (rechecks : ℕ) (w : World S) (e : Engine) (bad : ℕ)
      → (bad ≡ 0 → IsWhole sha1 c e)
      → IsVerified (rechecked sha1 c ask_tracker rechecks w (e, bad))
  unfolding rechecked finish
  rechecked-IsVerified rechecks w e bad v = elim (Bool-cases (bad == 0)) [
    | inl h ↦ rw h (finish-IsVerified (record w { engine = e }) (v ((==_iff bad 0).0 h)))
    | inr h ↦ rw h (if_either IsVerified (ltb 2 (rechecks + 1)) tt tt)
  ]

module _ {ℓ} {S : Type ℓ} (sha1 : Bytes → Bytes) (c : Context)
    (ask_tracker : AnnounceRequest → S → Bytes → S × Result AnnounceResponse Trackers.Error)
    (few : length c.meta.pieces < 2 ^ 32) where
  after_round-IsVerified :
      (rechecks : ℕ) (p : Progress S)
      → IsEnd (λ w. Bitfield.is_complete w.engine.ours ≡ true) p
      → IsVerified sha1 c ask_tracker (after_round sha1 c ask_tracker rechecks p)
  unfolding after_round after_run finish
  after_round-IsVerified rechecks (going w) h = tt
  after_round-IsVerified rechecks (Main.stopped w none) h =
      let r = final_check sha1 c w.engine in
      rechecked-IsVerified sha1 c ask_tracker rechecks w r.0 r.1
        (final_check-IsWhole sha1 c few w.engine h)
  after_round-IsVerified rechecks (Main.stopped w (some x)) h = tt

  step-IsVerified :
      (t : Turn) (p : Phase S)
      → IsVerified sha1 c ask_tracker p
      → IsVerified sha1 c ask_tracker (step sha1 c ask_tracker t p)
  unfolding step
  step-IsVerified t (running rechecks w) v =
      after_round-IsVerified rechecks (round sha1 c ask_tracker t w)
        (round-IsEnd sha1 c ask_tracker t w)
  step-IsVerified t (finished w x) v = v

  all_turns-IsVerified :
      (turns : List Turn) (p : Phase S)
      → IsVerified sha1 c ask_tracker p
      → IsVerified sha1 c ask_tracker (continued sha1 c ask_tracker turns p)
  unfolding continued
  all_turns-IsVerified [] p v = v
  all_turns-IsVerified (t ∷ turns) p v =
      all_turns-IsVerified turns (step sha1 c ask_tracker t p) (step-IsVerified t p v)

  download_phase :
      (turns : List Turn) (b : Result (World S) EngineError)
      → IsOk sha1 c ask_tracker (started sha1 c ask_tracker turns b)
  unfolding started
  download_phase turns (ok w) = all_turns-IsVerified turns (running 0 w) tt
  download_phase turns (err x) = tt

  -- Where the torrent has fewer than 2^32 pieces: whatever the inputs and the answers of the trackers
  -- are, whatever the resume file and the files hold at first, and whichever writes fail, a download
  -- that has ended without an error has the bitfield complete, and each piece can be read from the
  -- files and has the hash that the torrent file gives for it. Nothing but the download writes to the
  -- files.
  pub download-IsVerified :
      (now : ℕ) (stored : Option Bytes) (net : S) (opened : Option (List Bytes)) (turns : List Turn)
      → IsOk sha1 c ask_tracker (download sha1 c ask_tracker now stored net opened turns)
  unfolding download
  download-IsVerified now stored net opened turns =
      download_phase turns (begin sha1 c ask_tracker now stored net opened)
