-- ===== src/Streaming/Pipeline/Examples.antt =====
-- The theorem on re-planned tiles at a core of a layout of 40 by 60 pixels.
use open_litho_hub.Base.{◌≡◌, refl, ok, arith}
use open_litho_hub.Base.Int.{pos}
use open_litho_hub.Streaming.Geometry.{BoundingBox, contains, halo_actual}
use open_litho_hub.Streaming.CoreHalo.{TileRequest, RefinementRequest, planned, increase_halo}
use open_litho_hub.Streaming.Pipeline.{grown_request}
use open_litho_hub.Streaming.Pipeline.Window.{IsPlannedIn, IsGrown, grown_request-IsGrown}

abbrev core : BoundingBox
core = record { x0 = 50; y0 = 10; x1 = 60; y1 = 20 }

abbrev read : BoundingBox
read = record { x0 = 46; y0 = 6; x1 = 60; y1 = 24 }

abbrev request : TileRequest
request = record {
  core_bbox = core;
  read_bbox = read;
  halo = halo_actual core read;
  tile_id = planned "tile" 3;
}

request-IsPlannedIn : IsPlannedIn request 40 60
unfolding contains
request-IsPlannedIn = record {
  box = omega arith;
  core_in = omega arith;
  read_in = omega arith;
  reads = refl;
  realised = refl;
}

abbrev advice : RefinementRequest
advice = record {
  tile_id = planned "tile" 3;
  action = increase_halo;
  extra_halo_px = pos 8;
  subdivision = 2;
}

grown_request-IsGrown_example :
    (r' : TileRequest) × (grown_request request advice 40 60 ≡ ok r') × IsGrown request r' 40 60
grown_request-IsGrown_example = grown_request-IsGrown request advice 40 60 request-IsPlannedIn
