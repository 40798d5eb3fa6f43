-- ===== src/Magnet/Percent.antt =====
-- What the announce url escapes is what a magnet link's values are decoded from.
use btget.Prelude.{
  ℕ, ◌/◌, ◌%◌, ◌≡◌, ◌<◌, refl, ap, ◌∙◌, Bool, true, false, [], ◌∷◌, ◌++◌, some, arith, ◌==◌, Bytes,
  IsBytes, Bool-cases, inl, inr, Result, ok, err, map_ok,
}
use btget.Metainfo.Hex.{to_digit}
use btget.Tracker.{is_unreserved, upper_digit, escape_byte, escape_bytes}
use btget.Magnet.{Error, escaped, percent_loop, percent_decode}

to_digit-upper_digit : (n : ℕ) → n < 16 → to_digit (upper_digit n) ≡ some n
unfolding to_digit
to_digit-upper_digit n h = ground arith

-- A byte that is neither `%` nor `+` stands for itself.
percent_loop-plain :
    (b : ℕ) (s : Bytes)
    → b == b'%' ≡ false
    → b == b'+' ≡ false
    → percent_loop (b ∷ s) ≡ map_ok (λ out. b ∷ out) (percent_loop s)
unfolding percent_loop
percent_loop-plain b [] p q = rw (p, q, percent_loop) refl
percent_loop-plain b (h ∷ []) p q = rw (p, q, percent_loop) refl
percent_loop-plain b (h ∷ l ∷ rest) p q = rw (p, q, percent_loop) refl

escaped_lem :
    (b : ℕ) (r : Result Bytes Error)
    → escaped (some (b / 16)) (some (b % 16)) r ≡ map_ok (λ out. b ∷ out) r
escaped_lem b (ok out) = ap (λ n. ok (n ∷ out)) (omega arith)
escaped_lem b (err e) = refl

percent_loop-escape_byte :
    (b : ℕ) (s : Bytes)
    → b < 256
    → percent_loop (escape_byte b ++ s) ≡ map_ok (λ out. b ∷ out) (percent_loop s)
unfolding escape_byte percent_loop
percent_loop-escape_byte b s h = elim (Bool-cases (is_unreserved b)) [
  | inl u ↦ rw u (percent_loop-plain b s (ground (arith, u)) (ground (arith, u)))
  | inr u ↦
      rw
        (
          u,
          to_digit-upper_digit (b / 16) (omega (arith, h)),
          to_digit-upper_digit (b % 16) (omega arith),
        )
        (escaped_lem b (percent_loop s))
]

percent_loop-escape_bytes : (bs : Bytes) → IsBytes bs → percent_loop (escape_bytes bs) ≡ ok bs
unfolding escape_bytes percent_loop
percent_loop-escape_bytes [] h = refl
percent_loop-escape_bytes (b ∷ bs) h =
    percent_loop-escape_byte b (escape_bytes bs) h.0
    ∙ ap (map_ok (λ out. b ∷ out)) (percent_loop-escape_bytes bs h.1)

-- What escape_bytes writes for the bytes of a text is decoded by percent_decode as that text.
pub percent_decode-escape_bytes :
    (is_utf8 : Bytes → Bool) (text : Bytes)
    → IsBytes text
    → is_utf8 text ≡ true
    → percent_decode is_utf8 (escape_bytes text) ≡ ok text
unfolding percent_decode
percent_decode-escape_bytes is_utf8 text h u = rw (percent_loop-escape_bytes text h, u) refl
