-- ===== src/Streaming/OwnedRuns/Examples.antt =====
-- The theorem on the slices of canonical runs at a layout with one run in each row.
use open_litho_hub.Base.{ℕ, ◌≡◌, refl, ◌&&◌, List, [], ◌∷◌, ok, if◌then◌else◌, arith}
use open_litho_hub.Streaming.Geometry.{BoundingBox}
use open_litho_hub.Streaming.Geometry.Pixels.{in_span}
use open_litho_hub.Streaming.OwnedRuns.{OwnedRun, OwnedRunSlice, iter_owned_runs_for_bbox}
use open_litho_hub.Streaming.OwnedRuns.Slices.{
  slice_owners, run_owners, iter_owned_runs_for_bbox-owners,
}

abbrev bar : ℕ → List OwnedRun
bar y = record { run_id = "bar"; y = y; x0 = 2; x1 = 9; contributor_object_ids = "a" ∷ [] } ∷ []

abbrev window : BoundingBox
window = record { x0 = 4; y0 = 1; x1 = 8; y1 = 3 }

iter_owned_runs_for_bbox-owners_example :
    (slices : List OwnedRunSlice) × (iter_owned_runs_for_bbox 5 10 bar window "tile" "INTERFACE"
      ≡ ok slices)
    × ((x y : ℕ)
        → slice_owners slices x y
          ≡ (if in_span 1 3 y && in_span 4 8 x then run_owners (bar y) x else 0))
iter_owned_runs_for_bbox-owners_example =
    iter_owned_runs_for_bbox-owners 5 10 bar window "tile" "INTERFACE" (omega arith) (omega arith)
      (omega arith) (λ y. (refl, tt))
