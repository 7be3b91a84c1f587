-- ===== src/Streaming/Pipeline.antt =====
-- src/openlithohub/streaming/pipeline.py: the re-planning of a tile and the slices of its core in
-- run_streaming.
pub mod Window
pub mod Examples
use open_litho_hub.Base.{ℕ, ◌+◌, Bool, Option, none, some, Outcome, ok, raise, ◌>>=◌, ◌>>◌}
use open_litho_hub.Base.Int.{ℤ, pos, ◌+ℤ◌, ◌-ℤ◌, max_ℤ}
use open_litho_hub.Streaming.Faults.{Error}
use open_litho_hub.Streaming.Geometry.{
  BoundingBox, HaloSpec, width, height, uniform, read_bbox_for, halo_actual,
}
use open_litho_hub.Streaming.CoreHalo.{
  TileRequest, RefinementRequest, increase_halo, refinement_request, widest,
}

-- `advice` is what the plugin's refine returns, `none` where it has no such method.
unfoldable pub default_refinement :
    TileRequest → (advice : Option RefinementRequest) → Outcome Error RefinementRequest
unfolding refinement_request widest
default_refinement request (some advice) = ok advice
default_refinement request none =
    refinement_request request.tile_id (some increase_halo) (max_ℤ (pos 8) (widest request.halo)) 2

-- `domain` is (h, w).
unfoldable pub grown_request :
    TileRequest → RefinementRequest → (h w : ℕ) → Outcome Error TileRequest
unfolding widest uniform read_bbox_for ◌+ℤ◌
grown_request request refinement h w = do
  let max_px = max_ℤ (pos 1) refinement.extra_halo_px
  grown ← uniform (widest request.halo +ℤ max_px)
  read ← read_bbox_for request.core_bbox grown w h
  ok (record {
    core_bbox = request.core_bbox;
    read_bbox = read;
    halo = halo_actual request.core_bbox read;
    tile_id = request.tile_id;
  })

-- slice(start, stop)
pub record Slice : Type 0 where
  pub slice_start : ℤ
  pub slice_stop : ℤ

-- The slices of the rows and of the columns.
unfoldable pub core_slices : TileRequest → Slice × Slice
unfolding ◌-ℤ◌ ◌+ℤ◌
core_slices request =
    let core = request.core_bbox in
    let y0 = pos core.y0 -ℤ pos request.read_bbox.y0 in
    let x0 = pos core.x0 -ℤ pos request.read_bbox.x0 in
    (
      record { slice_start = y0; slice_stop = y0 +ℤ pos (height core) },
      record { slice_start = x0; slice_stop = x0 +ℤ pos (width core) },
    )
