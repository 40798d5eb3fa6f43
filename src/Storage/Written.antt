-- ===== src/Storage/Written.antt =====
-- The disk of storage.rs as one run of bytes: a block that is written replaces that part of the run.
use btget.Prelude.{ℕ, ◌+◌, ◌*◌, ◌≤◌, ◌≡◌, List, ◌∷◌, ◌++◌, Option, none, length, Bytes, ok}
use btget.Storage.{Segment, Storage, Written, segment_loop, write_segments, read_block}
use btget.Storage.Cover.{joined, sizes}
use btget.Storage.Laid.{laid, replaced}

-- No write fails.
abbrev pub never : List Bytes → Segment → Option ℕ
never disk seg = none

-- How the files behind the first ones are written.
abbrev WritesRest : List Bytes → Bytes → List Bytes → ℕ → ℕ → Type 0
WritesRest front x files index file_start =
    (cursor c n : ℕ) (bs : Bytes)
    → length bs ≡ n
    → cursor ≡ file_start + c
    → c + n ≤ length (joined files)
    → write_segments never (front ++ x ∷ files)
        (segment_loop (sizes files) index file_start cursor n) bs
      ≡ (front ++ x ∷ laid files c bs, ok tt)

abbrev well : List Bytes → Written
well disk = (disk, ok tt)

-- The write went well, and put the bytes at this place.
pub record IsPut (s : Storage) (disk : List Bytes) (piece begin : ℕ) (bs : Bytes) (w : Written)
    : Type 0 where
  pub after : List Bytes
  pub is : w ≡ (after, ok tt)
  pub kept : sizes after ≡ sizes disk
  pub run : joined after ≡ replaced (piece * s.piece_length + begin) bs (joined disk)
  pub read : read_block s after piece begin (length bs) ≡ ok bs
