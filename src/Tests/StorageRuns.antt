-- ===== src/Tests/StorageRuns.antt =====
-- Runs of the storage, and its theorems at concrete inputs.
use btget.Prelude.{
  ◌+◌, ◌*◌, ◌≡◌, refl, List, [], ◌∷◌, ltb, if◌then◌else◌, take, drop, Bytes, ok, err, some, none,
  ◌==◌,
}
use btget.Storage.{
  Storage, segment_loop, segments, read_segment, read_segments, read_block, write_segment,
  write_segments, write_block, past_end, refused,
}
use btget.Storage.Cover.{joined, read_block_lem}

abbrev storage : Storage
storage = record { lengths = 2 ∷ 0 ∷ 3 ∷ []; piece_length = 4; total = 5 }

abbrev disk : List Bytes
disk = (1 ∷ 2 ∷ []) ∷ [] ∷ (3 ∷ 4 ∷ 5 ∷ []) ∷ []

read_across : read_block storage disk 0 1 3 ≡ ok (2 ∷ 3 ∷ 4 ∷ [])
unfolding read_block segments segment_loop read_segment read_segments
read_across = refl

written_across :
    write_block (λ d seg. none) storage disk 0 1 (9 ∷ 8 ∷ [])
    ≡ ((1 ∷ 9 ∷ []) ∷ [] ∷ (8 ∷ 4 ∷ 5 ∷ []) ∷ [], ok tt)
unfolding write_block segments segment_loop write_segment write_segments
written_across = refl

-- The last file cannot be written, behind none of the bytes.
refused_across :
    write_block (λ d seg. if seg.file == 2 then some 0 else none) storage disk 0 1 (9 ∷ 8 ∷ [])
    ≡ ((1 ∷ 9 ∷ []) ∷ [] ∷ (3 ∷ 4 ∷ 5 ∷ []) ∷ [], err refused)
unfolding write_block segments segment_loop write_segment write_segments
refused_across = refl

-- The last file had been cut to nothing.
hole_filled :
    write_block (λ d seg. none) storage ([] ∷ [] ∷ [] ∷ []) 0 4 (9 ∷ [])
    ≡ ([] ∷ [] ∷ (0 ∷ 0 ∷ 9 ∷ []) ∷ [], ok tt)
unfolding write_block segments segment_loop write_segment write_segments
hole_filled = refl

read_block_lem_example : read_block storage disk 0 1 3 ≡ (
    if ltb storage.total (0 * storage.piece_length + 1 + 3)
    then err past_end
    else ok (take 3 (drop (0 * storage.piece_length + 1) (joined disk))))
read_block_lem_example = read_block_lem storage disk 0 1 3 (refl, refl)
