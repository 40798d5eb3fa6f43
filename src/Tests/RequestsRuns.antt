-- ===== src/Tests/RequestsRuns.antt =====
-- Runs of requests.rs, and its theorems at concrete inputs.
use btget.Prelude.{
  ◌+◌, ◌-◌, ◌<◌, ◌≡◌, refl, arith, true, not, ◌&&◌, some, none, [], ◌∷◌, length, if◌then◌else◌, All,
}
use btget.Requests.{
  BlockRequest, RequestPipeline, piece_blocks, new, contains, issue, complete, expired, request_eq,
}
use btget.Requests.Blocks.{Tiles, piece_blocks-Tiles}
use btget.Requests.Pipeline.{
  IsValid, new-IsValid, issue-IsValid, complete_lem, expired-IsValid, expired_lem, occurs,
}

two_blocks : piece_blocks 20000 ≡ (0, 16384) ∷ (16384, 3616) ∷ []
unfolding piece_blocks
two_blocks = refl

piece_blocks-Tiles_example : Tiles 0 20000 (piece_blocks 20000)
piece_blocks-Tiles_example = piece_blocks-Tiles 20000 (omega arith)

abbrev first : BlockRequest
first = record { piece = 3; begin = 0; length = 16384 }

abbrev busy : RequestPipeline
busy = (issue (new 2 30) first 5).0

busy-IsValid : IsValid busy
busy-IsValid = issue-IsValid (new 2 30) first 5 (new-IsValid 2 30)

complete_lem_example :
    IsValid (complete busy 3 0 16384).0
    × ((complete busy 3 0 16384).1 ≡ (if contains busy first then some first else none))
    × ((s : BlockRequest)
        → contains (complete busy 3 0 16384).0 s ≡ (contains busy s && not (request_eq first s)))
complete_lem_example = complete_lem busy first busy-IsValid

expired-IsValid_example : IsValid (expired busy 35).0
expired-IsValid_example = expired-IsValid busy 35 busy-IsValid

expired_lem_example :
    ((r : BlockRequest)
      → contains busy r
        ≡ (if occurs (expired busy 35).1 r then true else contains (expired busy 35).0 r))
    × (length (expired busy 35).1 + length (expired busy 35).0.in_flight ≡ length busy.in_flight)
    × All (λ (_, issued). 35 - issued < busy.timeout) (expired busy 35).0.in_flight
expired_lem_example = expired_lem busy 35
