-- ===== src/Streaming/CoreHalo.antt =====
-- src/openlithohub/streaming/core_halo.py: tile requests, their planning and the scheduler.
-- A tile id is kept as the format string that built it and its arguments. Bytes per pixel are a
-- natural number (the source's default is 4.0).
pub mod Plan
pub mod Subdivide
pub mod Scheduler
pub mod Budget
use open_litho_hub.Base.{
  ℕ, zero, suc, ◌+◌, ◌-◌, ◌*◌, ◌/◌, ◌≤◌, ◌≡◌, Bool, true, false, ◌&&◌, ◌||◌, Option, none, some,
  List, [], ◌∷◌, ◌++◌, String, Outcome, ok, raise, ◌>>=◌, ◌>>◌, require, leb, ltb, min, max,
  if◌then◌else◌,
}
use open_litho_hub.Base.Int.{ℤ, pos, ◌+ℤ◌, max_ℤ, ltb_ℤ}
use open_litho_hub.Streaming.Faults.{
  Error, unknown_action, nonpositive_extra_halo, subdivision_below_two, stop_iteration,
  nonpositive_budget, invalid_core_bounds, zero_division,
}
use open_litho_hub.Streaming.Geometry.{
  BoundingBox, HaloSpec, bounding_box, width, height, uniform, range, core_grid_boxes,
  read_bbox_for, halo_actual,
}

-- f"{prefix}_{idx}", f"{tile_id}_s{idx}" and f"{tile_id}#q{idx}"
pub data TileId : Type 0 where
  planned : (prefix : String) (idx : ℕ) → TileId
  sub_tile : (parent : TileId) (idx : ℕ) → TileId
  quarter : (parent : TileId) (idx : ℕ) → TileId

pub record TileRequest : Type 0 where
  pub core_bbox : BoundingBox
  pub read_bbox : BoundingBox
  pub halo : HaloSpec
  pub tile_id : TileId

pub data Action : Type 0 where
  increase_halo do_subdivide : Action

pub record RefinementRequest : Type 0 where
  pub tile_id : TileId
  pub action : Action
  pub extra_halo_px : ℤ
  pub subdivision : ℕ

-- RefinementRequest(...), with its __post_init__. The action is `none` for any other string.
unfoldable pub refinement_request :
    TileId → Option Action → (extra : ℤ) (subdivision : ℕ) → Outcome Error RefinementRequest
refinement_request i none extra n = raise unknown_action
refinement_request i (some increase_halo) extra n = do
  require (ltb_ℤ (pos 0) extra) nonpositive_extra_halo
  ok (record { tile_id = i; action = increase_halo; extra_halo_px = extra; subdivision = n })
refinement_request i (some do_subdivide) extra n = do
  require (leb 2 n) subdivision_below_two
  ok (record { tile_id = i; action = do_subdivide; extra_halo_px = extra; subdivision = n })

-- The argument `halo_px: int | HaloSpec`.
pub data HaloArg : Type 0 where
  px : ℤ → HaloArg
  spec : HaloSpec → HaloArg

unfoldable pub halo_of : HaloArg → Outcome Error HaloSpec
unfolding uniform
halo_of (px n) = uniform n
halo_of (spec s) = ok s

-- One request of a plan.
unfoldable pub plan_core : (h w : ℕ) → HaloSpec → TileId → BoundingBox → Outcome Error TileRequest
plan_core h w halo i core = do
  read ← read_bbox_for core halo w h
  ok (record { core_bbox = core; read_bbox = read; halo = halo_actual core read; tile_id = i })

-- The loop of plan_tile_requests, from the index `idx` on.
pub plan_cores :
    (h w : ℕ)
    → HaloSpec
    → (prefix : String) (idx : ℕ) → List BoundingBox
    → Outcome Error (List TileRequest)
unfolding plan_core
plan_cores h w halo prefix idx [] = ok []
plan_cores h w halo prefix idx (core ∷ cores) = do
  request ← plan_core h w halo (planned prefix idx) core
  requests ← plan_cores h w halo prefix (idx + 1) cores
  ok (request ∷ requests)

unfoldable pub plan_tile_requests :
    (h w core_size : ℕ) → HaloArg → Option ℕ → (prefix : String) → Outcome Error (List TileRequest)
unfolding plan_cores halo_of
plan_tile_requests h w core_size halo_px core_stride prefix = do
  halo ← halo_of halo_px
  cores ← core_grid_boxes h w core_size core_stride
  plan_cores h w halo prefix 0 cores

-- max(halo.left, halo.top, halo.right, halo.bottom)
unfoldable pub widest : HaloSpec → ℤ
widest halo = max_ℤ (max_ℤ (max_ℤ halo.left halo.top) halo.right) halo.bottom

-- One child of subdivide_request. A box that is not degenerate is never skipped.
unfoldable pub sub_request : TileRequest → (sub_h sub_w idx x0 y0 : ℕ) → Outcome Error TileRequest
sub_request request sub_h sub_w idx x0 y0 = do
  let core = request.core_bbox
  sub_core ← bounding_box x0 y0 (min (x0 + sub_w) core.x1) (min (y0 + sub_h) core.y1)
  extra ← uniform (widest request.halo)
  read ←
      read_bbox_for sub_core extra (max request.read_bbox.x1 sub_core.x1)
        (max request.read_bbox.y1 sub_core.y1)
  ok (record {
    core_bbox = sub_core;
    read_bbox = read;
    halo = halo_actual sub_core read;
    tile_id = sub_tile request.tile_id idx;
  })

-- The inner loop, over `xs`, and the outer loop; `idx` counts the children.
unfoldable pub sub_row :
    TileRequest → (sub_h sub_w idx y0 : ℕ) → List ℕ → Outcome Error (List TileRequest × ℕ)
unfolding sub_request
sub_row request sub_h sub_w idx y0 [] = ok ([], idx)
sub_row request sub_h sub_w idx y0 (x0 ∷ xs) = do
  child ← sub_request request sub_h sub_w idx x0 y0
  (row, next) ← sub_row request sub_h sub_w (idx + 1) y0 xs
  ok (child ∷ row, next)

unfoldable pub sub_rows :
    TileRequest → (sub_h sub_w idx : ℕ) (xs ys : List ℕ) → Outcome Error (List TileRequest)
unfolding sub_row
sub_rows request sub_h sub_w idx xs [] = ok []
sub_rows request sub_h sub_w idx xs (y0 ∷ ys) = do
  (row, next) ← sub_row request sub_h sub_w idx y0 xs
  rows ← sub_rows request sub_h sub_w next xs ys
  ok (row ++ rows)

unfoldable pub subdivide_request :
    TileRequest → (subdivision : ℕ) → Outcome Error (List TileRequest)
unfolding sub_rows
subdivide_request request zero = raise zero_division
subdivide_request request (suc m) =
    let core = request.core_bbox in
    let sub_h = max 1 (height core / suc m) in
    let sub_w = max 1 (width core / suc m) in
    sub_rows request sub_h sub_w 0 (range core.x0 core.x1 sub_w) (range core.y0 core.y1 sub_h)

-- TileScheduler. `domain` is (H, W), as its documentation says.
pub record TileScheduler : Type 0 where
  pub requests : List TileRequest
  pub domain : Option (ℕ × ℕ)
  pub pending : List TileRequest

abbrev pub tile_scheduler : List TileRequest → Option (ℕ × ℕ) → TileScheduler
tile_scheduler requests domain = record { requests = requests; domain = domain; pending = requests }

-- __next__
unfoldable pub next_request : TileScheduler → Outcome Error TileRequest × TileScheduler
next_request s = elim s.pending [
  | [] ↦ (raise stop_iteration, s)
  | r ∷ rest ↦ (ok r, record s { pending = rest })
]

unfoldable pub enqueue : List TileRequest → TileScheduler → TileScheduler
enqueue requests s = record s { pending = s.pending ++ requests }

-- `clip_w, clip_h = self.domain`, or the read extent where there is no domain.
unfoldable pub clip_of : TileRequest → Option (ℕ × ℕ) → ℕ × ℕ
clip_of r (some (a, b)) = (a, b)
clip_of r none = (max r.read_bbox.x1 r.core_bbox.x1, max r.read_bbox.y1 r.core_bbox.y1)

-- The re-planned tile of an increase_halo refinement.
unfoldable pub grow_request :
    TileRequest → (extra_halo_px : ℤ) → Option (ℕ × ℕ) → Outcome Error TileRequest
unfolding clip_of
grow_request r extra domain = do
  grown ← uniform (widest r.halo +ℤ extra)
  let (clip_w, clip_h) = clip_of r domain
  read ← read_bbox_for r.core_bbox grown clip_w clip_h
  ok (record {
    core_bbox = r.core_bbox;
    read_bbox = read;
    halo = halo_actual r.core_bbox read;
    tile_id = r.tile_id;
  })

unfoldable pub refine :
    TileRequest → RefinementRequest → Option (ℕ × ℕ) → Outcome Error (List TileRequest)
unfolding subdivide_request grow_request
refine r refinement domain = elim refinement.action [
  | do_subdivide ↦ subdivide_request r refinement.subdivision
  | increase_halo ↦ do grown ← grow_request r refinement.extra_halo_px domain; ok (grown ∷ [])
]

unfoldable pub enqueue_refinement :
    TileRequest
    → RefinementRequest
    → TileScheduler
    → Outcome Error (List TileRequest) × TileScheduler
unfolding refine enqueue
enqueue_refinement r refinement s = elim (refine r refinement s.domain) [
  | raise x ↦ (raise x, s)
  | ok refined ↦ (ok refined, enqueue refined s)
]

-- The loop of plan_tiling over the core sizes of range(min, max + 1, 8), from the best so far.
unfoldable pub best_core_from : (budget bytes_per_pixel halo_px batch best : ℕ) → List ℕ → ℕ
best_core_from budget bytes halo batch best [] = best
best_core_from budget bytes halo batch best (core ∷ cores) =
    let read = core + 2 * halo in
    best_core_from budget bytes halo batch
      (if leb (bytes * read * read * batch) budget then core else best) cores

unfoldable pub best_core : (budget bytes halo batch min_core max_core : ℕ) → ℕ
unfolding best_core_from
best_core budget bytes halo batch lo hi =
    best_core_from budget bytes halo batch lo (range lo (hi + 1) 8)

unfoldable pub plan_tiling :
    (h w budget bytes_per_pixel halo_px min_core max_core batch : ℕ)
    → Outcome Error (List TileRequest)
unfolding best_core plan_tile_requests
plan_tiling h w budget bytes halo lo hi batch = do
  require (ltb 0 budget) nonpositive_budget
  require (ltb 0 lo && leb lo hi) invalid_core_bounds
  let best = best_core budget bytes halo batch lo hi
  if leb (min h w) best
      then (do
        none_ ← uniform (pos 0)
        plan_tile_requests h w (max (min h w) lo) (spec none_) none "tile")
      else (do around ← uniform (pos halo); plan_tile_requests h w best (spec around) none "tile")
