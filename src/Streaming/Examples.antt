-- ===== src/Streaming/Examples.antt =====
-- The theorems on the streaming planner at concrete layouts.
use open_litho_hub.Base.{
  ◌≤◌, ◌≡◌, refl, ◌⊎◌, false, none, some, List, [], ◌∷◌, ◌++◌, ok, raise, All, arith, min,
}
use open_litho_hub.Base.{◌&&◌, not}
use open_litho_hub.Streaming.VectorRuns.{Span, polygon_row_spans}
use open_litho_hub.Streaming.VectorRuns.Cuts.{covers, any_covers, polygon_row_spans-covers}
use open_litho_hub.Base.Int.{pos}
use open_litho_hub.Base.Dict.{nat_eq}
use open_litho_hub.Streaming.Faults.{Error}
use open_litho_hub.Streaming.Geometry.{
  BoundingBox, HaloSpec, core_grid_boxes, read_bbox_for, contains, range, arith_seq,
}
use open_litho_hub.Streaming.Geometry.Pixels.{Tiles}
use open_litho_hub.Streaming.Geometry.Grid.{IsCore, core_grid_boxes-Tiles}
use open_litho_hub.Streaming.Geometry.Read.{IsReadOf, read_bbox_for-IsReadOf}
use open_litho_hub.Streaming.CoreHalo.{
  planned, TileRequest, TileScheduler, tile_scheduler, RefinementRequest, increase_halo,
  refinement_request, clip_of, best_core_from, spec, plan_tile_requests, subdivide_request, enqueue,
  enqueue_refinement, best_core, plan_tiling,
}
use open_litho_hub.Streaming.CoreHalo.Plan.{ArePlanned, cores_of, plan_tile_requests-ArePlanned}
use open_litho_hub.Streaming.CoreHalo.Subdivide.{IsChild, subdivide_request-Tiles}
use open_litho_hub.Streaming.CoreHalo.Scheduler.{
  AreRefined, enqueue_refinement-AreRefined, enqueue_refinement-transposed,
}
use open_litho_hub.Streaming.CoreHalo.Budget.{
  IsWithin, IsBare, plan_tiling-IsWithin, plan_tiling-strips,
}

core_grid_boxes-Tiles_example :
    (boxes : List BoundingBox) × (core_grid_boxes 5 7 3 none ≡ ok boxes)
    × Tiles boxes 0 7 0 5
    × All (IsCore 7 5 3) boxes
core_grid_boxes-Tiles_example = core_grid_boxes-Tiles 5 7 3 (omega arith)

abbrev middle : BoundingBox
middle = record { x0 = 3; y0 = 1; x1 = 6; y1 = 4 }

abbrev halo_two : HaloSpec
halo_two = record { left = pos 2; top = pos 2; right = pos 2; bottom = pos 2 }

read_bbox_for-IsReadOf_example :
    (read : BoundingBox) × (read_bbox_for middle halo_two 7 5 ≡ ok read)
    × IsReadOf middle halo_two 7 5 read
read_bbox_for-IsReadOf_example =
    read_bbox_for-IsReadOf middle halo_two 7 5 (omega arith) (omega arith) (omega arith)

abbrev two_boxes : List BoundingBox
two_boxes = middle ∷ record { x0 = 0; y0 = 0; x1 = 4; y1 = 2 } ∷ []

plan_tile_requests-ArePlanned_example :
    (requests : List TileRequest) × (plan_tile_requests 5 7 3 (spec halo_two) none "tile"
      ≡ ok requests)
    × Tiles (cores_of requests) 0 7 0 5
    × ArePlanned 5 7 halo_two "tile" 0 requests
    × All (λ r. IsCore 7 5 3 r.core_bbox) requests
plan_tile_requests-ArePlanned_example =
    plan_tile_requests-ArePlanned 5 7 3 halo_two "tile" (omega arith) (omega arith)

abbrev request : TileRequest
request = record {
  core_bbox = middle;
  read_bbox = record { x0 = 1; y0 = 0; x1 = 7; y1 = 5 };
  halo = record { left = pos 2; top = pos 1; right = pos 1; bottom = pos 1 };
  tile_id = planned "tile" 1;
}

subdivide_request-Tiles_example :
    (children : List TileRequest) × (subdivide_request request 2 ≡ ok children)
    × Tiles (cores_of children) 3 6 1 4
    × All (IsChild request) children
subdivide_request-Tiles_example =
    subdivide_request-Tiles request 2 (omega arith) (omega arith) (omega arith)

abbrev grow : RefinementRequest
grow = record {
  tile_id = planned "tile" 1;
  action = increase_halo;
  extra_halo_px = pos 4;
  subdivision = 2;
}

abbrev free_scheduler : TileScheduler
free_scheduler = tile_scheduler (request ∷ []) none

grow_accepted : refinement_request (planned "tile" 1) (some increase_halo) (pos 4) 2 ≡ ok grow
unfolding refinement_request
grow_accepted = refl

enqueue_refinement-AreRefined_example :
    (refined : List TileRequest) × (enqueue_refinement request grow free_scheduler ≡ (
      ok refined,
      record { requests = request ∷ []; domain = none; pending = (request ∷ []) ++ refined },
    ))
    × AreRefined request refined
enqueue_refinement-AreRefined_example =
    enqueue_refinement-AreRefined request (planned "tile" 1) (some increase_halo) (pos 4) 2 grow
      free_scheduler grow_accepted (omega arith) (omega arith) (unfold clip_of in omega arith)

-- The layout has 5 rows and 7 columns.
abbrev chip_scheduler : TileScheduler
chip_scheduler = tile_scheduler (request ∷ []) (some (5, 7))

enqueue_refinement-transposed_example :
    ((x : Error) × (enqueue_refinement request grow chip_scheduler ≡ (raise x, chip_scheduler)))
    ⊎ ((r' : TileRequest) × (enqueue_refinement request grow chip_scheduler
          ≡ (ok (r' ∷ []), enqueue (r' ∷ []) chip_scheduler))
        × (contains r'.read_bbox r'.core_bbox ≡ false))
enqueue_refinement-transposed_example =
    enqueue_refinement-transposed request grow chip_scheduler 5 7 refl refl (omega arith)

plan_tiling-IsWithin_example :
    (requests : List TileRequest) × (plan_tiling 40 100 10000 4 2 8 64 1 ≡ ok requests)
    × Tiles (cores_of requests) 0 100 0 40
    × All (IsWithin 10000 4 1) requests
plan_tiling-IsWithin_example =
    plan_tiling-IsWithin 40 100 10000 4 2 8 64 1 (omega arith) (omega arith) (omega arith) refl

strip_fits : min 40 100 ≤ best_core 10000 4 2 1 8 64
unfolding best_core best_core_from range arith_seq
strip_fits = omega arith

plan_tiling-strips_example :
    (requests : List TileRequest) × (plan_tiling 40 100 10000 4 2 8 64 1 ≡ ok requests)
    × Tiles (cores_of requests) 0 100 0 40
    × All (IsBare 40 100) requests
plan_tiling-strips_example =
    plan_tiling-strips 40 100 10000 4 2 8 64 1 (omega arith) (omega arith) (omega arith)
      (omega arith) strip_fits

abbrev outer_spans : List Span
outer_spans = (2, 9) ∷ []

abbrev hole_spans : List (List Span)
hole_spans = ((4, 6) ∷ []) ∷ ((8, 12) ∷ []) ∷ []

polygon_row_spans-covers_example :
    covers (polygon_row_spans outer_spans hole_spans) 5
    ≡ (covers outer_spans 5 && not (any_covers hole_spans 5))
polygon_row_spans-covers_example = polygon_row_spans-covers outer_spans hole_spans 5
