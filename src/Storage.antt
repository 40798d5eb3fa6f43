-- ===== src/Storage.antt =====
-- bt/src/storage.rs: the torrent's bytes laid out over files. A disk is the contents of the files in
-- the order of their paths; the paths are left out. A read fails where the file ends too early, and for
-- no other reason; which writes fail is a parameter. Sums of an offset and a length stay far below
-- 2^64, for an index is below 2^32 and no piece is longer than 2^25 bytes.
pub mod Cover
pub mod Laid
pub mod Written
use btget.Prelude.{
  ℕ, zero, suc, ◌+◌, ◌*◌, ◌-◌, min, Bool, true, false, List, [], ◌∷◌, ◌++◌, ltb, leb, ◌==◌,
  if◌then◌else◌, length, take, drop, get_or, set, Bytes, Result, ok, err, ◌>>=◌, Option, none, some,
  replicate, is_empty,
}

pub record Segment : Type 0 where
  pub file : ℕ
  pub offset : ℕ
  pub len : ℕ

pub record Storage : Type 0 where
  pub lengths : List ℕ
  pub piece_length : ℕ
  pub total : ℕ

unfoldable pub piece_size : Storage → ℕ → ℕ
piece_size s index = let start = index * s.piece_length in min s.piece_length (s.total - start)

-- The loop over the files, from the one with number `index`, which starts at `file_start`.
unfoldable pub segment_loop : List ℕ → ℕ → ℕ → ℕ → ℕ → List Segment
segment_loop [] index file_start cursor remaining = []
segment_loop (file_length ∷ files) index file_start cursor remaining =
    let file_end = file_start + file_length in
    let part = min remaining (file_end - cursor) in
    let taken = segment_loop files (suc index) file_end (cursor + part) (remaining - part) in
    let skipped = segment_loop files (suc index) file_end cursor remaining in
    if remaining == 0
    then []
    else if ltb cursor file_end
    then record { file = index; offset = cursor - file_start; len = part } ∷ taken
    else skipped

unfoldable pub segments : Storage → ℕ → ℕ → List Segment
unfolding segment_loop
segments s offset len = segment_loop s.lengths 0 0 offset len

pub data Error : Type 0 where
  past_end end_of_file not_found refused : Error

-- `seek` and `read_exact` in a file.
unfoldable pub read_segment : List Bytes → Segment → Result Bytes Error
read_segment disk seg =
    let file = get_or disk seg.file [] in
    if leb (seg.offset + seg.len) (length file)
    then ok (take seg.len (drop seg.offset file))
    else err end_of_file

unfoldable pub read_segments : List Bytes → List Segment → Result Bytes Error
unfolding read_segment
read_segments disk [] = ok []
read_segments disk (seg ∷ segs) = do
  part ← read_segment disk seg
  rest ← read_segments disk segs
  ok (part ++ rest)

unfoldable pub read_block : Storage → List Bytes → ℕ → ℕ → ℕ → Result Bytes Error
unfolding segments read_segments
read_block s disk piece begin len =
    let offset = piece * s.piece_length + begin in
    if ltb s.total (offset + len) then err past_end else read_segments disk (segments s offset len)

unfoldable pub read_piece : Storage → List Bytes → ℕ → Result Bytes Error
unfolding read_block piece_size
read_piece s disk piece = read_block s disk piece 0 (piece_size s piece)

-- The file with these bytes written at the offset. A hole that this leaves behind the file's end is
-- filled with zeros; a write of no bytes leaves the file as it is.
abbrev pub written_at : ℕ → Bytes → Bytes → Bytes
written_at offset data_bytes file =
    let filled = file ++ replicate (offset - length file) 0 in
    if is_empty data_bytes
    then file
    else take offset filled ++ (data_bytes ++ drop (offset + length data_bytes) filled)

abbrev pub put_at : List Bytes → Segment → Bytes → List Bytes
put_at disk seg data_bytes =
    set disk seg.file (written_at seg.offset data_bytes (get_or disk seg.file []))

-- The files after a write, and whether it went well.
abbrev pub Written : Type 0
Written = List Bytes × Result (Unit {0}) Error

-- A write that fails behind `n` bytes leaves these in the file.
abbrev pub write_until : List Bytes → Segment → Bytes → Option ℕ → Written
write_until disk seg data_bytes none = (put_at disk seg data_bytes, ok tt)
write_until disk seg data_bytes (some n) = (put_at disk seg (take n data_bytes), err refused)

-- `open`, `seek` and `write_all` in a file, which fails where `refuses` gives a number, behind so
-- many bytes.
unfoldable pub write_segment :
    (List Bytes → Segment → Option ℕ) → List Bytes → Segment → Bytes → Written
write_segment refuses disk seg data_bytes =
    if ltb seg.file (length disk)
    then write_until disk seg data_bytes (refuses disk seg)
    else (disk, err not_found)

abbrev pub and_write : Written → (List Bytes → Written) → Written
and_write (disk, ok _) k = k disk
and_write (disk, err x) k = (disk, err x)

unfoldable pub write_segments :
    (List Bytes → Segment → Option ℕ) → List Bytes → List Segment → Bytes → Written
unfolding write_segment
write_segments refuses disk [] data_bytes = (disk, ok tt)
write_segments refuses disk (seg ∷ segs) data_bytes =
    and_write (write_segment refuses disk seg (take seg.len data_bytes))
      (λ written. write_segments refuses written segs (drop seg.len data_bytes))

unfoldable pub write_block :
    (List Bytes → Segment → Option ℕ) → Storage → List Bytes → ℕ → ℕ → Bytes → Written
unfolding segments write_segments
write_block refuses s disk piece begin data_bytes =
    let offset = piece * s.piece_length + begin in
    if ltb s.total (offset + length data_bytes)
    then (disk, err past_end)
    else write_segments refuses disk (segments s offset (length data_bytes)) data_bytes
