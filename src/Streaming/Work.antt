-- ===== src/Streaming/Work.antt =====
-- src/openlithohub/streaming/work_accounting.py: the historical work ledger, which counts the area
-- that a forward model ever ran on, and the counters of repeated work. The fractions of the summary
-- are floating point and are left out.
pub mod Union
pub mod History
pub mod Tiles
pub mod Examples
use open_litho_hub.Base.{
  ℕ, zero, suc, ◌+◌, ◌-◌, ◌*◌, ◌≤◌, ◌≡◌, Bool, true, false, not, ◌&&◌, ◌||◌, List, [], ◌∷◌, ◌++◌,
  String, leb, ◌==◌, if◌then◌else◌, length,
}
use open_litho_hub.Base.Dict.{Eq, Dict, lookup, insert, mem, add, has_key}
use open_litho_hub.Streaming.Geometry.{BoundingBox, area}

-- The dataclass equality of BoundingBox.
same_box : BoundingBox → BoundingBox → Bool
same_box a b = a.x0 == b.x0 && a.y0 == b.y0 && a.x1 == b.x1 && a.y1 == b.y1

pub record Work (K : Type 0) : Type 0 where
  pub full_chip_pixels : ℕ
  pub reused_work_units : ℕ
  pub forward_simulator_calls : ℕ
  pub forward_simulator_input_pixels : ℕ
  pub read_window_calls : ℕ
  pub read_window_pixels : ℕ
  pub screen_queries : ℕ
  pub tiles_skipped : ℕ
  pub tiles_refined : ℕ
  pub tiles_screened_out : ℕ
  pub dense_allocation_events : ℕ
  pub n_subdivisions : ℕ
  pub forward_union : List BoundingBox
  pub unique_forward_pixels : ℕ
  pub tile_areas : Dict K ℕ
  pub screened_tiles : List K

-- _contains
unfoldable pub contains : (outer inner : BoundingBox) → Bool
contains o i = leb o.x0 i.x0 && leb o.y0 i.y0 && leb i.x1 o.x1 && leb i.y1 o.y1

-- any(_contains(cover, core) for cover in union)
pub any_contains : List BoundingBox → BoundingBox → Bool
unfolding contains
any_contains [] core = false
any_contains (cover ∷ covers) core = contains cover core || any_contains covers core

-- [cover for cover in union if _contains(core, cover)]
pub absorbed : BoundingBox → List BoundingBox → List BoundingBox
unfolding contains
absorbed core [] = []
absorbed core (cover ∷ covers) =
    let rest = absorbed core covers in if contains core cover then cover ∷ rest else rest

-- list.remove: the first equal item.
pub remove_first : BoundingBox → List BoundingBox → List BoundingBox
unfolding same_box
remove_first b [] = []
remove_first b (a ∷ as_) = if same_box a b then as_ else a ∷ remove_first b as_

-- The loop over the absorbed covers: the pixels left and the union left.
pub drop_covers : List BoundingBox → (pixels : ℕ) → List BoundingBox → ℕ × List BoundingBox
unfolding remove_first
drop_covers [] pixels union = (pixels, union)
drop_covers (cover ∷ covers) pixels union =
    drop_covers covers (pixels - area cover) (remove_first cover union)

module _ {K : Type 0} where
  unfoldable pub record_forward_core : BoundingBox → Work K → Work K
  unfolding any_contains absorbed drop_covers
  record_forward_core core w =
      if any_contains w.forward_union core
      then w
      else let (pixels, union) =
          drop_covers (absorbed core w.forward_union) w.unique_forward_pixels w.forward_union in
        record w { forward_union = union ++ core ∷ []; unique_forward_pixels = pixels + area core }

  -- `max(0, full - unique)`, which is the difference on ℕ.
  unfoldable pub pre_forward_avoided_pixels : Work K → ℕ
  pre_forward_avoided_pixels w =
      if leb w.full_chip_pixels 0 then 0 else w.full_chip_pixels - w.unique_forward_pixels

  unfoldable pub record_read_window : ℕ → Work K → Work K
  record_read_window pixels w = record w {
    read_window_calls = w.read_window_calls + 1;
    read_window_pixels = w.read_window_pixels + pixels;
  }

  unfoldable pub record_forward : ℕ → Work K → Work K
  record_forward input_pixels w = record w {
    forward_simulator_calls = w.forward_simulator_calls + 1;
    forward_simulator_input_pixels = w.forward_simulator_input_pixels + input_pixels;
  }

  unfoldable pub record_screen_query : Work K → Work K
  record_screen_query w = record w { screen_queries = w.screen_queries + 1 }

  unfoldable pub record_subdivision : Work K → Work K
  record_subdivision w = record w { n_subdivisions = w.n_subdivisions + 1 }

  unfoldable pub record_refinement : (area : ℕ) → Work K → Work K
  record_refinement a w = record w {
    tiles_refined = w.tiles_refined + 1;
    reused_work_units = w.reused_work_units + a;
  }

  unfoldable pub record_dense_allocation : Work K → Work K
  record_dense_allocation w = record w { dense_allocation_events = w.dense_allocation_events + 1 }

module _ {K : Type 0} ⦃e : Eq K⦄ where
  unfoldable pub record_active_core : K → BoundingBox → Work K → Work K
  unfolding has_key mem
  record_active_core tile_id core w =
      if not (has_key tile_id w.tile_areas) && not (mem tile_id w.screened_tiles)
      then record w { tile_areas = insert tile_id (area core) w.tile_areas }
      else w

  unfoldable pub record_tile : K → BoundingBox → (simulator_called : Bool) → Work K → Work K
  unfolding record_active_core record_forward record_forward_core
  record_tile tile_id core called w =
      let active = record_active_core tile_id core w in
      if called then record_forward_core core (record_forward (area core) active) else active

  unfoldable pub record_screened_out : K → Work K → Work K
  unfolding has_key mem
  record_screened_out tile_id w =
      if has_key tile_id w.tile_areas || mem tile_id w.screened_tiles then w else record w {
        screened_tiles = add tile_id w.screened_tiles;
        tiles_skipped = w.tiles_skipped + 1;
        tiles_screened_out = w.tiles_screened_out + 1;
      }

  unfoldable pub n_tiles : Work K → ℕ
  n_tiles w = length w.tile_areas + length w.screened_tiles
