-- ===== src/Storage/Cover.antt =====
-- The disk of storage.rs as one run of bytes: a block that is read is that part of the run.
use btget.Prelude.{
  ℕ, zero, suc, ◌+◌, ◌*◌, ◌-◌, ◌≤◌, ◌<◌, ◌≡◌, refl, sym, ap, ◌∙◌, subst, min, false, List, [], ◌∷◌,
  ◌++◌, arith, ltb, leb, ltb→lt, ltb→le, le→leb, ◌==◌, if◌then◌else◌, length, take, drop, get_or,
  Bytes, ok, err, leb→le, leb→lt, ◌⊎◌, Bool-cases, inl, inr, append-nil, append_assoc,
  length-append_bytes,
}
use btget.Storage.{
  Storage, segment_loop, segments, read_segment, read_segments, read_block, past_end,
}

abbrev pub joined : List Bytes → Bytes
joined [] = []
joined (file ∷ files) = file ++ joined files

abbrev pub sizes : List Bytes → List ℕ
sizes [] = []
sizes (file ∷ files) = length file ∷ sizes files

pub get_or-append_at :
    (n : ℕ) (front rest : List Bytes) (file : Bytes)
    → length front ≡ n
    → get_or (front ++ file ∷ rest) n [] ≡ file
get_or-append_at zero [] rest file h = refl
get_or-append_at zero (x ∷ front) rest file h = absurd (omega arith)
get_or-append_at (suc n) [] rest file h = absurd (omega arith)
get_or-append_at (suc n) (x ∷ front) rest file h = get_or-append_at n front rest file (omega arith)

-- Taking across the end of the first of two runs.
pub drop-append_past :
    (c : ℕ) (xs ys : Bytes) → length xs ≤ c → drop c (xs ++ ys) ≡ drop (c - length xs) ys
drop-append_past c [] ys h = ap (λ t. drop t ys) (omega arith)
drop-append_past zero (x ∷ xs) ys h = absurd (omega arith)
drop-append_past (suc c) (x ∷ xs) ys h =
    drop-append_past c xs ys (omega arith) ∙ ap (λ t. drop t ys) (omega arith)

take-drop-append_inside :
    (c n : ℕ) (xs ys : Bytes) → c + n ≤ length xs → take n (drop c (xs ++ ys)) ≡ take n (drop c xs)
take-drop-append_inside zero zero xs ys h = refl
take-drop-append_inside zero (suc n) [] ys h = absurd (omega arith)
take-drop-append_inside zero (suc n) (x ∷ xs) ys h =
    ap (λ t. x ∷ t) (take-drop-append_inside zero n xs ys (omega arith))
take-drop-append_inside (suc c) n [] ys h = absurd (omega arith)
take-drop-append_inside (suc c) n (x ∷ xs) ys h = take-drop-append_inside c n xs ys (omega arith)

take_number : (n m : ℕ) (ys : Bytes) → n ≡ m → take n ys ≡ take m ys
take_number n m ys e = ap (λ t. take t ys) e

take-drop-append_across :
    (c k m n : ℕ) (xs ys : Bytes)
    → c + k ≡ length xs
    → k + m ≡ n
    → take n (drop c (xs ++ ys)) ≡ take k (drop c xs) ++ take m ys
take-drop-append_across zero zero m n xs ys h e = elim_nil xs h
  where
    elim_nil : (xs : Bytes) → 0 + 0 ≡ length xs → take n (xs ++ ys) ≡ take m ys
    elim_nil [] h = take_number n m ys (omega arith)
    elim_nil (x ∷ xs) h = absurd (omega arith)
take-drop-append_across zero (suc k) m n [] ys h e = absurd (omega arith)
take-drop-append_across zero (suc k) m zero (x ∷ xs) ys h e = absurd (omega arith)
take-drop-append_across zero (suc k) m (suc n) (x ∷ xs) ys h e =
    ap (λ t. x ∷ t) (take-drop-append_across zero k m n xs ys (omega arith) (omega arith))
take-drop-append_across (suc c) k m n [] ys h e = absurd (omega arith)
take-drop-append_across (suc c) k m n (x ∷ xs) ys h e =
    take-drop-append_across c k m n xs ys (omega arith) e

read_segment-file :
    (front files : List Bytes) (file : Bytes) (index cursor file_start c k : ℕ)
    → length front ≡ index
    → cursor ≡ file_start + c
    → c + k ≤ length file
    → read_segment
        (front ++ file ∷ files)
        (record { file = index; offset = cursor - file_start; len = k })
      ≡ ok (take k (drop c file))
unfolding read_segment
read_segment-file front files file index cursor file_start c k h e b =
    rw
      (
        get_or-append_at index front files file h,
        offset_lem cursor file_start c e,
        le→leb (c + k) (length file) b,
      )
      refl
  where
    offset_lem : (cursor file_start c : ℕ) → cursor ≡ file_start + c → cursor - file_start ≡ c
    offset_lem cursor file_start c e = omega arith

pub segment_loop_none :
    (files : List ℕ) (index file_start cursor : ℕ)
    → segment_loop files index file_start cursor 0 ≡ []
unfolding segment_loop
segment_loop_none [] index file_start cursor = refl
segment_loop_none (f ∷ files) index file_start cursor = refl

pub snoc_files :
    (front files : List Bytes) (file : Bytes) (index : ℕ)
    → length front ≡ index
    → length (front ++ file ∷ []) ≡ suc index
snoc_files [] files file index h = omega arith
snoc_files (x ∷ front) files file zero h = absurd (omega arith)
snoc_files (x ∷ front) files file (suc index) h =
    ap suc (snoc_files front files file index (omega arith))

pub suc-==_zero : (r : ℕ) → suc r == 0 ≡ false
suc-==_zero r = ground arith

-- How the files behind `file` are read, as `one_file` needs it.
abbrev ReadsRest : List Bytes → List Bytes → ℕ → ℕ → Type 0
ReadsRest disk files index file_start =
    (cursor remaining c : ℕ)
    → cursor ≡ file_start + c
    → c + remaining ≤ length (joined files)
    → read_segments disk (segment_loop (sizes files) index file_start cursor remaining)
      ≡ ok (take remaining (drop c (joined files)))

-- A segment of `file` and what comes behind it.
segment_then :
    (disk files : List Bytes) (file : Bytes) (index file_start cursor c k m n : ℕ)
    → read_segment disk (record { file = index; offset = cursor - file_start; len = k })
      ≡ ok (take k (drop c file))
    → c ≤ length file
    → cursor ≡ file_start + c
    → k + m ≡ n
    → ((m ≡ 0) × (c + k ≤ length file)) ⊎ (c + k ≡ length file)
    → c + n ≤ length (file ++ joined files)
    → ReadsRest disk files (suc index) (file_start + length file)
    → read_segments disk (
        record { file = index; offset = cursor - file_start; len = k }
        ∷ segment_loop (sizes files) (suc index) (file_start + length file) (cursor + k) m)
      ≡ ok (take n (drop c (file ++ joined files)))
unfolding read_segments
segment_then disk files file index file_start cursor c k m n rd l e a (inl (z, w)) b ih =
    rw (rd, z, segment_loop_none (sizes files) (suc index) (file_start + length file) (cursor + k))
      (ap ok (
        append-nil (take k (drop c file))
        ∙ sym (take-drop-append_inside c k file (joined files) w)
        ∙ take_number k n (drop c (file ++ joined files)) (omega arith)))
segment_then disk files file index file_start cursor c k m n rd l e a (inr w) b ih =
    rw
      (
        rd,
        ih (cursor + k) m 0 (omega arith) (omega (arith, length-append_bytes file (joined files))),
      )
      (ap ok (sym (take-drop-append_across c k m n file (joined files) w a)))

part_cases :
    (c n size cursor file_start : ℕ)
    → cursor ≡ file_start + c
    → c < size
    → ((n - min n (file_start + size - cursor) ≡ 0)
        × (c + min n (file_start + size - cursor) ≤ size))
      ⊎ (c + min n (file_start + size - cursor) ≡ size)
part_cases c n size cursor file_start e h = elim (Bool-cases (leb n (size - c))) [
  | inl l ↦ inl (omega (arith, leb→le n (size - c) l), omega arith)
  | inr l ↦ inr (omega (arith, leb→lt n (size - c) l))
]

-- The files from number `index` on read as one run, from place `c` in it.
read_loop :
    (front rest : List Bytes) (index file_start cursor remaining c : ℕ)
    → length front ≡ index
    → cursor ≡ file_start + c
    → c + remaining ≤ length (joined rest)
    → read_segments (front ++ rest) (segment_loop (sizes rest) index file_start cursor remaining)
      ≡ ok (take remaining (drop c (joined rest)))
unfolding read_segments segment_loop
read_loop front [] index file_start cursor zero c h e b = refl
read_loop front [] index file_start cursor (suc r) c h e b = absurd (omega arith)
read_loop front (file ∷ files) index file_start cursor zero c h e b = refl
read_loop front (file ∷ files) index file_start cursor (suc r) c h e b =
    let ih : ReadsRest (front ++ file ∷ files) files (suc index) (file_start + length file) =
      λ cursor' remaining' c' e' b'.
        subst
          (λ disk.
            read_segments disk
              (segment_loop (sizes files) (suc index) (file_start + length file) cursor' remaining')
            ≡ ok (take remaining' (drop c' (joined files))))
          (append_assoc front (file ∷ []) files)
          (read_loop (front ++ file ∷ []) files (suc index) (file_start + length file) cursor'
            remaining' c' (snoc_files front files file index h) e' b') in
    elim (Bool-cases (ltb cursor (file_start + length file))) [
      | inl l ↦
          rw (suc-==_zero r, l)
            (segment_then (front ++ file ∷ files) files file index file_start cursor c
              (min (suc r) (file_start + length file - cursor))
              (suc r - min (suc r) (file_start + length file - cursor)) (suc r)
              (read_segment-file front files file index cursor file_start c
                (min (suc r) (file_start + length file - cursor)) h e
                (omega (arith, ltb→lt cursor (file_start + length file) l)))
              (omega (arith, ltb→lt cursor (file_start + length file) l)) e (omega arith)
              (part_cases c (suc r) (length file) cursor file_start e
                (omega (arith, ltb→lt cursor (file_start + length file) l)))
              b ih)
      | inr l ↦
          rw
            (
              suc-==_zero r,
              l,
              ih cursor (suc r) (c - length file)
                  (omega (arith, ltb→le cursor (file_start + length file) l))
                  (omega (
                    arith,
                    ltb→le cursor (file_start + length file) l,
                    length-append_bytes file (joined files),
                  )),
              drop-append_past c file (joined files)
                  (omega (arith, ltb→le cursor (file_start + length file) l)),
            )
            refl
    ]

-- The storage is of these files.
abbrev pub IsOn : Storage → List Bytes → Type 0
IsOn s disk = (s.lengths ≡ sizes disk) × (s.total ≡ length (joined disk))

-- A block that lies in the torrent is read, and it is that part of the files' bytes one behind the
-- other; a block that does not is refused.
pub read_block_lem :
    (s : Storage) (disk : List Bytes) (piece begin len : ℕ)
    → IsOn s disk
    → read_block s disk piece begin len ≡ (
        if ltb s.total (piece * s.piece_length + begin + len)
        then err past_end
        else ok (take len (drop (piece * s.piece_length + begin) (joined disk))))
unfolding read_block segments
read_block_lem s disk piece begin len on =
    elim (Bool-cases (ltb s.total (piece * s.piece_length + begin + len))) [
      | inl l ↦ rw l refl
      | inr l ↦
          rw (l, on.0)
            (read_loop [] disk 0 0 (piece * s.piece_length + begin) len
              (piece * s.piece_length + begin) refl (omega arith)
              (omega (arith, on.1, ltb→le s.total (piece * s.piece_length + begin + len) l)))
    ]
