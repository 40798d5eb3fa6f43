-- ===== src/Peer/Sound.antt =====
-- Frames of peer.rs: a frame that `parse_frame` accepts is the frame that `encode_message` writes.
use btget.Prelude.{
  ℕ, ◌+◌, ◌≤◌, ◌≡◌, refl, sym, ap, ◌∙◌, Bool, true, false, not, [], ◌∷◌, ◌++◌, arith, ltb, ◌==◌,
  ==_iff, if◌then◌else◌, length, take, drop, Bytes, IsByte, IsBytes, Result, ok, err, map_ok,
  Bool-cases, inl, inr, drop-drop, Ensures, holds, rejected, Ensures-ok, Ensures-if, Ensures-guard,
  Ensures-bind, append-nil, subst, length-zero, length-drop, All-drop,
}
use btget.Prelude.Words.{from_be_bytes, be_bytes-from_be_bytes_four, be_bytes-from_be_bytes_two}
use btget.Peer.{
  Message, Error, choke, unchoke, interested, not_interested, have, request, cancel, bad_frame,
  unknown_id, u32, encode_body, expect_empty, read_u32, read_triple, read_piece, read_port,
  read_extended, parse_id, parse_frame,
}

-- Four bytes at the front, read as a word and written again.
u32_split : (p : Bytes) → IsBytes p → 4 ≤ length p → u32 (from_be_bytes (take 4 p)) ++ drop 4 p ≡ p
u32_split [] h l = absurd (omega arith)
u32_split (a ∷ []) h l = absurd (omega arith)
u32_split (a ∷ b ∷ []) h l = absurd (omega arith)
u32_split (a ∷ b ∷ c ∷ []) h l = absurd (omega arith)
u32_split (a ∷ b ∷ c ∷ d ∷ rest) h l =
    ap (λ t. t ++ rest)
      (be_bytes-from_be_bytes_four a b c d (h.0, (h.1.0, (h.1.1.0, (h.1.1.1.0, tt)))))

u32_last : (p : Bytes) → IsBytes p → length p ≡ 4 → u32 (from_be_bytes (take 4 p)) ≡ p
u32_last p h l =
    sym (append-nil (u32 (from_be_bytes (take 4 p))))
    ∙ subst (λ t. u32 (from_be_bytes (take 4 p)) ++ t ≡ p)
        (length-zero (drop 4 p) (omega (arith, length-drop 4 p))) (u32_split p h (omega arith))

-- The bytes that a triple of words was read from.
triple_split :
    (p : Bytes)
    → IsBytes p
    → length p ≡ 12
    → u32 (from_be_bytes (take 4 p))
        ++ (u32 (from_be_bytes (take 4 (drop 4 p))) ++ u32 (from_be_bytes (take 4 (drop 8 p))))
      ≡ p
triple_split p h l =
    rw
      (
        u32_last (drop 8 p) (All-drop IsByte 8 p h) (omega (arith, length-drop 8 p)),
        sym (drop-drop 4 4 8 p (omega arith)),
        u32_split (drop 4 p) (All-drop IsByte 4 p h) (omega (arith, length-drop 4 p)),
        u32_split p h (omega arith),
      )
      refl

not-ltb_le : (m n : ℕ) → not (ltb m n) ≡ true → n ≤ m
not-ltb_le m n h = ground arith

piece_split :
    (p : Bytes)
    → IsBytes p
    → 8 ≤ length p
    → u32 (from_be_bytes (take 4 p)) ++ (u32 (from_be_bytes (take 4 (drop 4 p))) ++ drop 8 p) ≡ p
piece_split p h l =
    rw
      (
        sym (drop-drop 4 4 8 p (omega arith)),
        u32_split (drop 4 p) (All-drop IsByte 4 p h) (omega (arith, length-drop 4 p)),
        u32_split p h (omega arith),
      )
      refl

abbrev IsFrameOf : Bytes → Message → Type 0
IsFrameOf b m = encode_body m ≡ b

-- A word that is read stands in its four bytes.
read_u32-ok :
    (p : Bytes) (k : ℕ)
    → Ensures (λ n. n ≡ from_be_bytes (take 4 (drop k p))) (λ _. Unit {0}) (read_u32 p k true)
unfolding read_u32
read_u32-ok p k = Ensures-if (ltb (length p) (k + 4)) (λ _. rejected tt) (λ _. holds refl)

empty_writes :
    (id : ℕ) (p : Bytes) (m : Message)
    → encode_body m ≡ id ∷ []
    → Ensures (IsFrameOf (id ∷ p)) (λ _. Unit {0}) (expect_empty p m)
unfolding expect_empty
empty_writes id [] m h = holds h
empty_writes id (x ∷ p) m h = rejected tt

-- The two branches of the reader of one word.
have_or_short :
    (n : ℕ) (b : Bytes) (short : Bool)
    → IsFrameOf b (have n)
    → Ensures (IsFrameOf b) (λ _. Unit {0}) (map_ok have (if short then err bad_frame else ok n))
unfolding encode_body
have_or_short n b true h = rejected tt
have_or_short n b false h = holds h

have_writes :
    (p : Bytes)
    → IsBytes p
    → Ensures (IsFrameOf (4 ∷ p)) (λ _. Unit {0}) (map_ok have (read_u32 p 0 (length p == 4)))
unfolding read_u32 encode_body
have_writes p h = elim (Bool-cases (length p == 4)) [
  | inl e ↦ rw e (
      have_or_short _ _ (ltb (length p) 4)
        (ap (λ t. 4 ∷ t) (u32_last p h ((==_iff (length p) 4).0 e))))
  | inr e ↦ rw e (rejected tt)
]

triple_writes :
    (p : Bytes)
    → IsBytes p
    → Ensures (λ (a, b, c). u32 a ++ (u32 b ++ u32 c) ≡ p) (λ _. Unit {0}) (read_triple p)
unfolding read_triple
triple_writes p h = Ensures-guard (length p == 12) bad_frame tt (λ l.
    Ensures-bind (read_u32-ok p 0) (λ a ha. Ensures-bind (read_u32-ok p 4) (λ b hb.
      Ensures-bind (read_u32-ok p 8)
        (λ c hc. holds (rw (ha, hb, hc) (triple_split p h ((==_iff (length p) 12).0 l)))))))

piece_writes : (p : Bytes) → IsBytes p → Ensures (IsFrameOf (7 ∷ p)) (λ _. Unit {0}) (read_piece p)
unfolding read_piece encode_body
piece_writes p h = Ensures-guard (not (ltb (length p) 8)) bad_frame tt (λ l.
    Ensures-bind (read_u32-ok p 0) (λ a ha. Ensures-bind (read_u32-ok p 4) (λ b hb.
      holds (rw (ha, hb) (ap (λ t. 7 ∷ t) (piece_split p h (not-ltb_le (length p) 8 l)))))))

port_writes : (p : Bytes) → IsBytes p → Ensures (IsFrameOf (9 ∷ p)) (λ _. Unit {0}) (read_port p)
unfolding read_port encode_body
port_writes [] h = rejected tt
port_writes (a ∷ []) h = rejected tt
port_writes (a ∷ b ∷ []) h = holds (ap (λ t. 9 ∷ t) (be_bytes-from_be_bytes_two a b h))
port_writes (a ∷ b ∷ c ∷ p) h =
    Ensures-guard (length (a ∷ b ∷ c ∷ p) == 2) bad_frame tt (λ l. absurd (ground arith))

extended_writes : (p : Bytes) → Ensures (IsFrameOf (20 ∷ p)) (λ _. Unit {0}) (read_extended p)
unfolding read_extended encode_body
extended_writes [] = rejected tt
extended_writes (ext ∷ p) = holds refl

-- A rule for the number that the first byte was compared with.
at_id :
    (id k : ℕ) (p : Bytes) (r : Result Message Error)
    → id == k ≡ true
    → Ensures (IsFrameOf (k ∷ p)) (λ _. Unit {0}) r
    → Ensures (IsFrameOf (id ∷ p)) (λ _. Unit {0}) r
at_id id k p r e h =
    subst (λ t. Ensures (IsFrameOf (t ∷ p)) (λ _. Unit {0}) r) (sym ((==_iff id k).0 e)) h

triple_map_writes :
    (id : ℕ) (p : Bytes) (f : ℕ → ℕ → ℕ → Message) {r : Result (ℕ × ℕ × ℕ) Error}
    → ((a b c : ℕ) → encode_body (f a b c) ≡ id ∷ (u32 a ++ (u32 b ++ u32 c)))
    → Ensures (λ (a, b, c). u32 a ++ (u32 b ++ u32 c) ≡ p) (λ _. Unit {0}) r
    → Ensures (IsFrameOf (id ∷ p)) (λ _. Unit {0}) (map_ok (λ (a, b, c). f a b c) r)
triple_map_writes id p f w (holds {a = t} h) = holds (w t.0 t.1 t.2 ∙ ap (λ q. id ∷ q) h)
triple_map_writes id p f w (rejected h) = rejected tt

-- The first byte is none of 0 to 5.
later_writes :
    (id : ℕ) (p : Bytes)
    → IsBytes p
    → Ensures
        (IsFrameOf (id ∷ p))
        (λ _. Unit {0})
        (if id == 6
          then map_ok (λ (a, b, c). request a b c) (read_triple p)
          else if id == 7
          then read_piece p
          else if id == 8
          then map_ok (λ (a, b, c). cancel a b c) (read_triple p)
          else if id == 9
          then read_port p
          else if id == 20
          then read_extended p
          else err (unknown_id id))
unfolding encode_body
later_writes id p h =
    Ensures-if (id == 6)
      (λ e. at_id id 6 p _ e (triple_map_writes 6 p request (λ _ _ _. refl) (triple_writes p h)))
      (λ _.
        Ensures-if (id == 7) (λ e. at_id id 7 p _ e (piece_writes p h))
          (λ _.
            Ensures-if (id == 8)
              (λ e.
                at_id id 8 p _ e (triple_map_writes 8 p cancel (λ _ _ _. refl) (triple_writes p h)))
              (λ _.
                Ensures-if (id == 9) (λ e. at_id id 9 p _ e (port_writes p h))
                  (λ _.
                    Ensures-if (id == 20) (λ e. at_id id 20 p _ e (extended_writes p))
                      (λ _. rejected tt)))))

id_writes :
    (id : ℕ) (p : Bytes) → IsBytes p → Ensures (IsFrameOf (id ∷ p)) (λ _. Unit {0}) (parse_id id p)
unfolding parse_id encode_body
id_writes id p h =
    Ensures-if (id == 0) (λ e. at_id id 0 p _ e (empty_writes 0 p choke refl))
      (λ _.
        Ensures-if (id == 1) (λ e. at_id id 1 p _ e (empty_writes 1 p unchoke refl))
          (λ _.
            Ensures-if (id == 2) (λ e. at_id id 2 p _ e (empty_writes 2 p interested refl))
              (λ _.
                Ensures-if (id == 3) (λ e. at_id id 3 p _ e (empty_writes 3 p not_interested refl))
                  (λ _.
                    Ensures-if (id == 4) (λ e. at_id id 4 p _ e (have_writes p h))
                      (λ _.
                        Ensures-if (id == 5) (λ e. at_id id 5 p _ e (holds refl))
                          (λ _. later_writes id p h))))))

-- A frame of bytes that is accepted with a message is the frame that is written for it.
pub parse_frame_sound :
    (b : Bytes) (m : Message) → IsBytes b → parse_frame b ≡ ok m → encode_body m ≡ b
unfolding parse_frame encode_body
parse_frame_sound [] m h e = Ensures-ok {P = IsFrameOf []} {Q = λ _. Unit {0}} (holds refl) e
parse_frame_sound (id ∷ p) m h e = Ensures-ok (id_writes id p h.1) e
