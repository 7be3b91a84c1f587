-- ===== src/Verify/Examples.antt =====
-- The theorems on runs at a checkered mask.
use open_litho_hub.Base.{
  ℕ, ◌+◌, ◌%◌, ◌≡◌, Bool, ◌&&◌, List, [], ◌∷◌, ok, ◌==◌, if◌then◌else◌, tally,
}
use open_litho_hub.Base.Int.{pos}
use open_litho_hub.Streaming.Geometry.Pixels.{in_span}
use open_litho_hub.Streaming.OwnedRuns.{HorizontalRun}
use open_litho_hub.Verify.InterfaceRuns.{encode_binary_row_runs, split_runs_outside_chebyshev}
use open_litho_hub.Verify.InterfaceRuns.Encode.{encode_binary_row_runs-points}
use open_litho_hub.Verify.InterfaceRuns.Split.{
  run_points, is_far, split_runs_outside_chebyshev-points,
}

abbrev checkered : (y x : ℕ) → Bool
checkered y x = (x + y) % 2 == 0

encode_binary_row_runs-points_example :
    (runs : List HorizontalRun) × (encode_binary_row_runs 3 4 checkered ≡ ok runs)
    × ((px py : ℕ)
        → run_points runs px py ≡ tally (in_span 0 3 py && (in_span 0 4 px && checkered py px)))
encode_binary_row_runs-points_example = encode_binary_row_runs-points 3 4 checkered

abbrev bars : List HorizontalRun
bars = record { y = 5; x0 = 0; x1 = 20 } ∷ record { y = 9; x0 = 3; x1 = 4 } ∷ []

split_runs_outside_chebyshev-points_example :
    (parts : List HorizontalRun) × (split_runs_outside_chebyshev bars 6 10 (pos 2) ≡ ok parts)
    × ((x y : ℕ) → run_points parts x y ≡ (if is_far 6 10 2 x y then run_points bars x y else 0))
split_runs_outside_chebyshev-points_example = split_runs_outside_chebyshev-points bars 6 10 2
