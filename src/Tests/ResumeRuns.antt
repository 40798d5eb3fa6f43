-- ===== src/Tests/ResumeRuns.antt =====
-- Runs of the resume file, and its theorem at a concrete input.
use btget.Prelude.{◌≡◌, refl, arith, some, replicate}
use btget.Pieces.Bitfield
use btget.Pieces.Bitfield.{Bitfield, IsValid}
use btget.Pieces.Bitfield.Laws.{new-IsValid, set-IsValid}
use btget.Resume.{load, save}
use btget.Resume.Saved.{load-save}

abbrev half : Bitfield
half = Bitfield.set (Bitfield.new 12) 3

half-IsValid : IsValid half
half-IsValid = set-IsValid (Bitfield.new 12) 3 (new-IsValid 12)

load-save_example :
    load (some (save (replicate 20 5) half)) (replicate 20 5) half.pieces ≡ some half
unfolding Bitfield.set Bitfield.new
load-save_example = load-save (replicate 20 5) half refl (omega arith) half-IsValid
