-- ===== src/Requests/Blocks.antt =====
-- The blocks of `piece_blocks` in requests.rs tile the piece.
use btget.Prelude.{
  ℕ, zero, suc, ◌+◌, ◌-◌, ◌^◌, ◌≤◌, ◌<◌, ◌≡◌, min, List, [], ◌∷◌, arith, ltb, Bool-cases, inl, inr,
  subst,
}
use btget.Requests.{block_size, blocks_loop, piece_blocks}

-- The blocks follow one another from `begin` on, up to `end`, and none is empty or too large.
abbrev pub Tiles : ℕ → ℕ → List (ℕ × ℕ) → Type 0
Tiles begin end [] = begin ≡ end
Tiles begin end ((b, len) ∷ rest) =
    (b ≡ begin) × (0 < len) × (len ≤ block_size) × Tiles (begin + len) end rest

blocks_loop-Tiles :
    (fuel begin piece_length : ℕ)
    → begin ≤ piece_length
    → piece_length ≤ begin + fuel
    → piece_length < 2 ^ 32
    → Tiles begin piece_length (blocks_loop fuel begin piece_length)
unfolding blocks_loop
blocks_loop-Tiles zero begin piece_length lo hi fits = omega arith
blocks_loop-Tiles (suc fuel) begin piece_length lo hi fits =
    let len = min block_size (piece_length - begin) in
    elim (Bool-cases (ltb begin piece_length)) [
      | inl e ↦
          rw (e, blocks_loop)
            (
              ground arith,
              ground arith,
              ground arith,
              subst
                  (λ k.
                    Tiles (begin + k) piece_length (blocks_loop fuel (begin + len) piece_length))
                  (ground arith)
                  (blocks_loop-Tiles fuel (begin + len) piece_length (ground arith) (ground arith)
                    fits),
            )
      | inr e ↦ rw (e, blocks_loop) (ground arith)
    ]

-- The blocks of a piece begin at 0, follow one another without gap or overlap to the piece's end,
-- and each holds 1 to 16384 bytes.
pub piece_blocks-Tiles :
    (piece_length : ℕ) → piece_length < 2 ^ 32 → Tiles 0 piece_length (piece_blocks piece_length)
unfolding piece_blocks
piece_blocks-Tiles piece_length h =
    blocks_loop-Tiles piece_length 0 piece_length (omega arith) (omega arith) h
