-- ===== src/Streaming/Geometry/Grid.antt =====
-- core_grid_boxes: with the stride at its default the cores tile the domain.
use native.Mathlib.Nat.{mod-add-mod, mod_self}
use open_litho_hub.Base.{
  ◌%◌, All, All-append, ℕ, zero, suc, ◌+◌, ◌-◌, ◌*◌, ◌/◌, ◌≤◌, ◌<◌, min, ◌≡◌, refl, none, List, [],
  ◌∷◌, ◌++◌, ok, arith,
}
use open_litho_hub.Streaming.Geometry.{
  BoundingBox, width, height, core_box, core_row, core_rows, core_grid_boxes, arith_seq,
}
use open_litho_hub.Streaming.Geometry.Read.{IsBox, InDomain}
use open_litho_hub.Streaming.Geometry.Pixels.{Tiles, owners-append}

-- A nonempty box of the domain [0, w) x [0, h).
abbrev pub Inside : (w h : ℕ) → BoundingBox → Type 0
Inside w h b = IsBox b × InDomain b w h

-- A box that starts on the grid of step `c` and ends after one step, or at the edge of the domain.
pub record IsOnGrid (w h c : ℕ) (b : BoundingBox) : Type 0 where
  pub column : b.x0 % c ≡ 0
  pub row : b.y0 % c ≡ 0
  pub right : b.x1 ≡ min (b.x0 + c) w
  pub bottom : b.y1 ≡ min (b.y0 + c) h

-- A core of the grid: it has at most `c` columns and `c` rows.
abbrev pub IsCore : (w h c : ℕ) → BoundingBox → Type 0
IsCore w h c b = Inside w h b × (width b ≤ c) × (height b ≤ c) × IsOnGrid w h c b

mod_zero : (c : ℕ) → 0 % c ≡ 0
mod_zero c = omega arith

-- One step further is on the grid again.
step_mod : (s c : ℕ) → s % c ≡ 0 → (s + c) % c ≡ 0
step_mod s c h =
    let split = mod-add-mod s c c in
    let self = mod_self c in let same : s % c + c ≡ c = omega arith in cc

abbrev box_at : (w h c x y : ℕ) → BoundingBox
box_at w h c x y = record { x0 = x; y0 = y; x1 = min (x + c) w; y1 = min (y + c) h }

core_box-in_domain :
    (w h c x y : ℕ) → 0 < c → x < w → y < h → core_box w h c x y ≡ ok (box_at w h c x y)
unfolding core_box
core_box-in_domain w h c x y hc hx hy = ground arith

-- A row of cores from the column `s` on.
module _ (w h c y : ℕ) (hc : 0 < c) (hy : y < h) (gy : y % c ≡ 0) where
  abbrev RowTiles : (n s : ℕ) → List BoundingBox → Type 0
  RowTiles n s boxes = Tiles boxes s (min (s + n * c) w) y (min (y + c) h)

  core_row-Tiles :
      (n s : ℕ)
      → s % c ≡ 0
      → s + n * c < w + c
      → (boxes : List BoundingBox) × (core_row w h c y (arith_seq n s c) ≡ ok boxes)
        × RowTiles n s boxes
        × All (IsCore w h c) boxes
  unfolding core_row arith_seq
  core_row-Tiles zero s gs hs = ([], refl, (λ px py. ground arith), tt)
  core_row-Tiles (suc n) s gs hs =
      let (rest, e, tiles, inside) = core_row-Tiles n (s + c) (step_mod s c gs) (omega arith) in
      (
        box_at w h c s y ∷ rest,
        rw (core_box-in_domain w h c s y hc (omega arith) hy, e),
        (λ px py. ground (arith, tiles px py)),
        (
          (
            omega arith,
            omega arith,
            omega arith,
            record { column = gs; row = gy; right = refl; bottom = refl },
          ),
          inside,
        ),
      )

module _ (w h c : ℕ) (hc : 0 < c) where
  -- The rows of cores from the row `s` on, in a domain whose columns `xs` tile a row.
  core_rows-Tiles :
      (m n s : ℕ)
      → s % c ≡ 0
      → m * c < w + c
      → w ≤ m * c
      → s + n * c < h + c
      → (boxes : List BoundingBox) × (core_rows w h c (arith_seq m 0 c) (arith_seq n s c)
          ≡ ok boxes)
        × Tiles boxes 0 w s (min (s + n * c) h)
        × All (IsCore w h c) boxes
  unfolding core_rows arith_seq
  core_rows-Tiles m zero s gs hm hw hs = ([], refl, (λ px py. ground arith), tt)
  core_rows-Tiles m (suc n) s gs hm hw hs =
      let (row, er, row_tiles, row_inside) =
        core_row-Tiles w h c s hc (omega arith) gs m 0 (mod_zero c) (omega arith) in
      let (rest, e, tiles, inside) =
        core_rows-Tiles m n (s + c) (step_mod s c gs) hm hw (omega arith) in
      (
        row ++ rest,
        rw (er, e),
        (λ px py. ground (arith, tiles px py, row_tiles px py, owners-append row rest px py)),
        All-append (IsCore w h c) row rest row_inside inside,
      )

-- The number of items of `range(0, n, c)` is the least whose steps reach `n`.
range_bounds :
    (n c : ℕ) → 0 < c → (n ≤ (n - 0 + (c - 1)) / c * c) × (0 + (n - 0 + (c - 1)) / c * c < n + c)
range_bounds n c hc = grind arith

-- For every shape and every positive core size the planner succeeds with the default stride, and
-- its cores own each pixel of the domain exactly once and no pixel outside; each core is a nonempty
-- box inside the domain that starts at multiples of the core size and is as wide and as high as the
-- core size, or ends at the edge of the domain where that comes first.
pub core_grid_boxes-Tiles :
    (h w c : ℕ)
    → 0 < c
    → (boxes : List BoundingBox) × (core_grid_boxes h w c none ≡ ok boxes)
      × Tiles boxes 0 w 0 h
      × All (IsCore w h c) boxes
unfolding core_grid_boxes
core_grid_boxes-Tiles h w c hc =
    let (w_reached, w_within) = range_bounds w c hc in
    let (h_reached, h_within) = range_bounds h c hc in
    let (boxes, e, tiles, inside) =
      core_rows-Tiles w h c hc ((w - 0 + (c - 1)) / c) ((h - 0 + (c - 1)) / c) 0 (mod_zero c)
        (omega arith) w_reached h_within in
    (boxes, ground (arith, e), (λ x y. ground (arith, tiles x y)), inside)
