-- ===== src/Streaming/Geometry.antt =====
-- src/openlithohub/streaming/geometry.py: boxes, halos and the core grid.
-- Pixel coordinates are natural numbers, since every box of the package lies in the positive
-- quadrant. Halo widths are integers: a halo recovered from a clipped box may be negative.
pub mod Pixels
pub mod Census
pub mod Grid
pub mod Read
use open_litho_hub.Base.{
  ℕ, zero, suc, ◌+◌, ◌-◌, ◌*◌, ◌/◌, min, ◌≡◌, Bool, true, false, ◌&&◌, ◌||◌, Option, none, some,
  List, [], ◌∷◌, ◌++◌, Outcome, ok, raise, ◌>>=◌, ◌>>◌, require, ltb, leb, ◌==◌, if◌then◌else◌,
}
use open_litho_hub.Streaming.Faults.{
  Error, degenerate_bbox, negative_halo, nonpositive_core_size, nonpositive_core_stride,
}
use open_litho_hub.Base.Int.{ℤ, pos, pos_part, neg_part, ◌+ℤ◌, ◌-ℤ◌, ltb_ℤ}

-- The half-open rectangle [x0, x1) x [y0, y1).
pub record BoundingBox : Type 0 where
  pub x0 : ℕ
  pub y0 : ℕ
  pub x1 : ℕ
  pub y1 : ℕ

-- BoundingBox(...), with its __post_init__
unfoldable pub bounding_box : (x0 y0 x1 y1 : ℕ) → Outcome Error BoundingBox
bounding_box x0 y0 x1 y1 =
    if leb x1 x0 || leb y1 y0
    then raise degenerate_bbox
    else ok (record { x0 = x0; y0 = y0; x1 = x1; y1 = y1 })

abbrev pub width : BoundingBox → ℕ
width b = b.x1 - b.x0

abbrev pub height : BoundingBox → ℕ
height b = b.y1 - b.y0

abbrev pub area : BoundingBox → ℕ
area b = width b * height b

unfoldable pub clipped_to : BoundingBox → (width height : ℕ) → Outcome Error BoundingBox
unfolding bounding_box
clipped_to b w h = bounding_box b.x0 b.y0 (min w b.x1) (min h b.y1)

unfoldable pub contains : BoundingBox → BoundingBox → Bool
contains a b = leb a.x0 b.x0 && leb a.y0 b.y0 && leb b.x1 a.x1 && leb b.y1 a.y1

pub record HaloSpec : Type 0 where
  pub left : ℤ
  pub top : ℤ
  pub right : ℤ
  pub bottom : ℤ

unfoldable pub uniform : ℤ → Outcome Error HaloSpec
uniform px =
    if ltb_ℤ px (pos 0)
    then raise negative_halo
    else ok (record { left = px; top = px; right = px; bottom = px })

-- The list of `range(start, stop, step)`, by the number of its items.
unfoldable pub arith_seq : (count start step : ℕ) → List ℕ
arith_seq zero start step = []
arith_seq (suc n) start step = start ∷ arith_seq n (start + step) step

unfoldable pub range : (start stop step : ℕ) → List ℕ
unfolding arith_seq
range start stop step = arith_seq ((stop - start + (step - 1)) / step) start step

-- One core of the grid, pulled back to the domain edge.
unfoldable pub core_box : (w h core_size x y : ℕ) → Outcome Error BoundingBox
unfolding bounding_box
core_box w h c x y =
    bounding_box x y (if ltb w (x + c) then min (x + c) w else x + c)
      (if ltb h (y + c) then min (y + c) h else y + c)

-- The inner loop of core_grid_boxes, over `xs`.
pub core_row : (w h core_size y : ℕ) → List ℕ → Outcome Error (List BoundingBox)
unfolding core_box
core_row w h c y [] = ok []
core_row w h c y (x ∷ xs) = do
  box ← core_box w h c x y
  boxes ← core_row w h c y xs
  ok (box ∷ boxes)

-- The outer loop, over `ys`.
pub core_rows : (w h core_size : ℕ) (xs ys : List ℕ) → Outcome Error (List BoundingBox)
unfolding core_row
core_rows w h c xs [] = ok []
core_rows w h c xs (y ∷ ys) = do
  row ← core_row w h c y xs
  rows ← core_rows w h c xs ys
  ok (row ++ rows)

abbrev stride_of : ℕ → Option ℕ → ℕ
stride_of c none = c
stride_of c (some s) = s

-- `shape` is (h, w).
unfoldable pub core_grid_boxes : (h w core_size : ℕ) → Option ℕ → Outcome Error (List BoundingBox)
unfolding core_rows range
core_grid_boxes h w c core_stride = do
  require (ltb 0 c) nonpositive_core_size
  let stride = stride_of c core_stride
  require (ltb 0 stride) nonpositive_core_stride
  core_rows w h c (range 0 w stride) (range 0 h stride)

-- `max(0, a - halo)`
unfoldable pub minus_halo : ℕ → ℤ → ℕ
unfolding ◌-ℤ◌
minus_halo a halo = pos_part (pos a -ℤ halo)

-- `min(limit, a + halo)`. Below 0 the box is degenerate, as it is at 0.
unfoldable pub plus_halo : (limit a : ℕ) → ℤ → ℕ
unfolding ◌+ℤ◌
plus_halo limit a halo = min limit (pos_part (pos a +ℤ halo))

unfoldable pub read_bbox_for :
    BoundingBox → HaloSpec → (width height : ℕ) → Outcome Error BoundingBox
read_bbox_for core halo w h =
    bounding_box (minus_halo core.x0 halo.left) (minus_halo core.y0 halo.top)
      (plus_halo w core.x1 halo.right) (plus_halo h core.y1 halo.bottom)

unfoldable pub halo_actual : BoundingBox → BoundingBox → HaloSpec
halo_actual core read = record {
  left = pos core.x0 -ℤ pos read.x0;
  top = pos core.y0 -ℤ pos read.y0;
  right = pos read.x1 -ℤ pos core.x1;
  bottom = pos read.y1 -ℤ pos core.y1;
}
