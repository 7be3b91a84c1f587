-- ===== src/Streaming/CoreHalo/Plan.antt =====
-- plan_tile_requests: the plan of a layout.
use open_litho_hub.Base.{
  ℕ, ◌+◌, ◌<◌, ◌≡◌, refl, none, List, [], ◌∷◌, ◌++◌, String, ok, All, map, ap,
}
use open_litho_hub.Streaming.Geometry.{BoundingBox, HaloSpec, halo_actual}
use open_litho_hub.Streaming.Geometry.Pixels.{Tiles}
use open_litho_hub.Streaming.Geometry.Grid.{Inside, IsCore, core_grid_boxes-Tiles}
use open_litho_hub.Streaming.Geometry.Read.{IsNonneg, IsReadOf, read_bbox_for-IsReadOf}
use open_litho_hub.Streaming.CoreHalo.{
  TileId, planned, TileRequest, spec, plan_core, plan_cores, plan_tile_requests,
}

-- A request whose read window is the clipped core with its halo, with the halo that this realises.
pub record IsRequest (h w : ℕ) (halo : HaloSpec) (i : TileId) (r : TileRequest) : Type 0 where
  pub tile_id : r.tile_id ≡ i
  pub window : IsReadOf r.core_bbox halo w h r.read_bbox
  pub realised : r.halo ≡ halo_actual r.core_bbox r.read_bbox

-- The requests are such, and their ids count up from `idx`.
abbrev pub ArePlanned : (h w : ℕ) → HaloSpec → String → (idx : ℕ) → List TileRequest → Type 0
ArePlanned h w halo prefix idx [] = Unit
ArePlanned h w halo prefix idx (r ∷ rs) =
    IsRequest h w halo (planned prefix idx) r × ArePlanned h w halo prefix (idx + 1) rs

abbrev pub cores_of : List TileRequest → List BoundingBox
cores_of requests = map (λ r. r.core_bbox) requests

pub plan_core-IsRequest :
    (h w : ℕ) (halo : HaloSpec) (i : TileId) (core : BoundingBox)
    → Inside w h core
    → IsNonneg halo
    → (r : TileRequest) × (plan_core h w halo i core ≡ ok r)
      × (r.core_bbox ≡ core)
      × IsRequest h w halo i r
unfolding plan_core
plan_core-IsRequest h w halo i core inside n =
    let (read, e, p) = read_bbox_for-IsReadOf core halo w h inside.0 inside.1 n in
    (
      record { core_bbox = core; read_bbox = read; halo = halo_actual core read; tile_id = i },
      rw e refl,
      refl,
      record { tile_id = refl; window = p; realised = refl },
    )

plan_cores-ArePlanned :
    (h w : ℕ) (halo : HaloSpec) (prefix : String) (c idx : ℕ) (cores : List BoundingBox)
    → All (IsCore w h c) cores
    → IsNonneg halo
    → (requests : List TileRequest) × (plan_cores h w halo prefix idx cores ≡ ok requests)
      × (cores_of requests ≡ cores)
      × ArePlanned h w halo prefix idx requests
      × All (λ r. IsCore w h c r.core_bbox) requests
unfolding plan_cores
plan_cores-ArePlanned h w halo prefix c idx [] inside n = ([], refl, refl, tt, tt)
plan_cores-ArePlanned h w halo prefix c idx (core ∷ cores) inside n =
    let (r, er, same, p) = plan_core-IsRequest h w halo (planned prefix idx) core inside.0.0 n in
    let (rs, e, sames, ps, bs) =
      plan_cores-ArePlanned h w halo prefix c (idx + 1) cores inside.1 n in
    (r ∷ rs, rw (er, e) refl, cc (same, sames), (p, ps), (rw same inside.0, bs))

-- For every shape, every positive core size and every halo that is not negative, the plan with the
-- default stride exists. Its cores own each pixel of the layout exactly once and no other pixel, each
-- read window exceeds its core on each side by the halo or by the way to the edge of the layout,
-- whichever is less, the ids are numbered in order from 0, and each core is a nonempty box of the layout
-- with at most the core size on each side.
pub plan_tile_requests-ArePlanned :
    (h w core_size : ℕ) (halo : HaloSpec) (prefix : String)
    → 0 < core_size
    → IsNonneg halo
    → (requests : List TileRequest) × (plan_tile_requests h w core_size (spec halo) none prefix
        ≡ ok requests)
      × Tiles (cores_of requests) 0 w 0 h
      × ArePlanned h w halo prefix 0 requests
      × All (λ r. IsCore w h core_size r.core_bbox) requests
unfolding plan_tile_requests
plan_tile_requests-ArePlanned h w c halo prefix hc n =
    let (boxes, e, tiles, inside) = core_grid_boxes-Tiles h w c hc in
    let (rs, er, same, p, cores) = plan_cores-ArePlanned h w halo prefix c 0 boxes inside n in
    (rs, rw (e, er) refl, rw same tiles, p, cores)

pub cores_of-append : (rs ss : List TileRequest) → cores_of (rs ++ ss) ≡ cores_of rs ++ cores_of ss
cores_of-append [] ss = refl
cores_of-append (r ∷ rs) ss = ap (λ out. r.core_bbox ∷ out) (cores_of-append rs ss)
