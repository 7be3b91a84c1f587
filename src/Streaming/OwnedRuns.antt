-- ===== src/Streaming/OwnedRuns.antt =====
-- src/openlithohub/streaming/vector_runs.py: the slices of the canonical runs in the window of a tile.
-- The canonical runs of a row, _global_owned_row, are the argument `rows`. The slices keep their
-- defaults: no analytic shift and no error budget charge.
pub mod Slices
pub mod Examples
use open_litho_hub.Base.{
  ℕ, zero, suc, ◌+◌, ◌-◌, Bool, true, false, ◌&&◌, ◌||◌, List, [], ◌∷◌, ◌++◌, map, String, Outcome,
  ok, raise, ◌>>=◌, ◌>>◌, require, ltb, leb, min, max, if◌then◌else◌,
}
use open_litho_hub.Streaming.Faults.{Error, slice_escapes, bbox_escapes}
use open_litho_hub.Streaming.Geometry.{BoundingBox, arith_seq}

pub record OwnedRun : Type 0 where
  pub run_id : String
  pub y : ℕ
  pub x0 : ℕ
  pub x1 : ℕ
  pub contributor_object_ids : List String

pub record OwnedRunSlice : Type 0 where
  pub parent : OwnedRun
  pub x0 : ℕ
  pub x1 : ℕ
  pub tile_id : String
  pub role : String

-- OwnedRunSlice(...), with its __post_init__
unfoldable pub owned_run_slice :
    OwnedRun → (x0 x1 : ℕ) (tile_id role : String) → Outcome Error OwnedRunSlice
owned_run_slice p a b tile role =
    if leb p.x0 a && ltb a b && leb b p.x1
    then ok (record { parent = p; x0 = a; x1 = b; tile_id = tile; role = role })
    else raise slice_escapes

-- The inner loop of iter_owned_runs_for_bbox.
unfoldable pub clip_runs :
    BoundingBox → (tile_id role : String) → List OwnedRun → Outcome Error (List OwnedRunSlice)
unfolding owned_run_slice
clip_runs b tile role [] = ok []
clip_runs b tile role (p ∷ runs) =
    let rest = clip_runs b tile role runs in
    if ltb (max p.x0 b.x0) (min p.x1 b.x1)
    then (do
      slice ← owned_run_slice p (max p.x0 b.x0) (min p.x1 b.x1) tile role
      slices ← rest
      ok (slice ∷ slices))
    else rest

-- The outer loop, over `ys`.
unfoldable pub clip_rows :
    (rows : ℕ → List OwnedRun)
    → BoundingBox
    → (tile_id role : String) → (ys : List ℕ) → Outcome Error (List OwnedRunSlice)
unfolding clip_runs
clip_rows rows b tile role [] = ok []
clip_rows rows b tile role (y ∷ ys) = do
  row ← clip_runs b tile role (rows y)
  rest ← clip_rows rows b tile role ys
  ok (row ++ rest)

unfoldable pub iter_owned_runs_for_bbox :
    (h w : ℕ) (rows : ℕ → List OwnedRun)
    → BoundingBox
    → (tile_id role : String) → Outcome Error (List OwnedRunSlice)
unfolding clip_rows arith_seq
iter_owned_runs_for_bbox h w rows b tile role = do
  require (leb b.x1 w && leb b.y1 h) bbox_escapes
  clip_rows rows b tile role (arith_seq (b.y1 - b.y0) b.y0 1)

-- HorizontalRun(y, x0, x1)
pub record HorizontalRun : Type 0 where
  pub y : ℕ
  pub x0 : ℕ
  pub x1 : ℕ

unfoldable pub iter_runs_for_bbox :
    (h w : ℕ) (rows : ℕ → List OwnedRun) → BoundingBox → Outcome Error (List HorizontalRun)
unfolding iter_owned_runs_for_bbox
iter_runs_for_bbox h w rows b = do
  slices ← iter_owned_runs_for_bbox h w rows b "tile" "INTERFACE"
  ok (map (λ s. record { y = s.parent.y; x0 = s.x0; x1 = s.x1 }) slices)
