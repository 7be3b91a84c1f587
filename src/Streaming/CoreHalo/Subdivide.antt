-- ===== src/Streaming/CoreHalo/Subdivide.antt =====
-- subdivide_request: the children tile the core of the request.
use open_litho_hub.Base.{
  ℕ, zero, suc, ◌+◌, ◌-◌, ◌*◌, ◌/◌, ◌≤◌, ◌<◌, ◌≡◌, refl, min, max, List, [], ◌∷◌, ◌++◌, ok, All,
  All-append, arith, true,
}
use open_litho_hub.Base.Int.{ℤ, pos, negsuc, ◌≤ℤ◌}
use open_litho_hub.Streaming.Geometry.{
  BoundingBox, HaloSpec, width, height, uniform, range, arith_seq, halo_actual, contains,
}
use open_litho_hub.Streaming.Geometry.Pixels.{Tiles, owners-append}
use open_litho_hub.Streaming.Geometry.Read.{
  IsBox, IsNonneg, read_bbox_for-IsReadOf, bounding_box-IsBox,
}
use open_litho_hub.Streaming.CoreHalo.{
  sub_tile, TileRequest, widest, sub_request, sub_row, sub_rows, subdivide_request,
}
use open_litho_hub.Streaming.CoreHalo.Plan.{cores_of, cores_of-append}

pub uniform-IsNonneg :
    (e : ℤ)
    → pos 0 ≤ℤ e
    → (halo : HaloSpec) × (uniform e ≡ ok halo) × IsNonneg halo × (halo.left ≡ e)
unfolding uniform
uniform-IsNonneg (pos n) h = (
  record { left = pos n; top = pos n; right = pos n; bottom = pos n },
  ground arith,
  omega arith,
  refl,
)
uniform-IsNonneg (negsuc n) h = absurd (omega arith)

pub widest_nonneg : (halo : HaloSpec) → IsNonneg halo → pos 0 ≤ℤ widest halo
unfolding widest
widest_nonneg halo n = ground arith

abbrev pub sub_box : BoundingBox → (sub_h sub_w x0 y0 : ℕ) → BoundingBox
sub_box core sub_h sub_w x0 y0 = record {
  x0 = x0;
  y0 = y0;
  x1 = min (x0 + sub_w) core.x1;
  y1 = min (y0 + sub_h) core.y1;
}

-- A child reads its own core, and lies in the core of the parent.
pub record IsChild (r c : TileRequest) : Type 0 where
  pub box : IsBox c.core_bbox
  pub inside : contains r.core_bbox c.core_bbox ≡ true
  pub reads : contains c.read_bbox c.core_bbox ≡ true

module _ (r : TileRequest) (sub_h sub_w : ℕ) (hh : 0 < sub_h) (hw : 0 < sub_w)
    (n : IsNonneg r.halo) where
  sub_request-IsChild :
      (idx x0 y0 : ℕ)
      → r.core_bbox.x0 ≤ x0
      → x0 < r.core_bbox.x1
      → r.core_bbox.y0 ≤ y0
      → y0 < r.core_bbox.y1
      → (c : TileRequest) × (sub_request r sub_h sub_w idx x0 y0 ≡ ok c)
        × (c.core_bbox ≡ sub_box r.core_bbox sub_h sub_w x0 y0)
        × IsChild r c
  unfolding sub_request
  sub_request-IsChild idx x0 y0 ax bx ay by_ =
      let box = sub_box r.core_bbox sub_h sub_w x0 y0 in
      let is_box : IsBox box = omega arith in
      let (halo, e_halo, nonneg, _) = uniform-IsNonneg (widest r.halo) (widest_nonneg r.halo n) in
      let (read, e_read, p) =
        read_bbox_for-IsReadOf box halo (max r.read_bbox.x1 box.x1) (max r.read_bbox.y1 box.y1)
          is_box (omega arith) nonneg in
      (
        record {
          core_bbox = box;
          read_bbox = read;
          halo = halo_actual box read;
          tile_id = sub_tile r.tile_id idx;
        },
        rw (bounding_box-IsBox box is_box, e_halo, e_read) refl,
        refl,
        record { box = is_box; inside = unfold contains in ground arith; reads = p.covers },
      )

  sub_row-Tiles :
      (count s idx y0 : ℕ)
      → r.core_bbox.x0 ≤ s
      → s + count * sub_w < r.core_bbox.x1 + sub_w
      → r.core_bbox.y0 ≤ y0
      → y0 < r.core_bbox.y1
      → (out : List TileRequest × ℕ) × (sub_row r sub_h sub_w idx y0 (arith_seq count s sub_w)
          ≡ ok out)
        × Tiles
            (cores_of out.0)
            s
            (min (s + count * sub_w) r.core_bbox.x1)
            y0
            (min (y0 + sub_h) r.core_bbox.y1)
        × All (IsChild r) out.0
  unfolding sub_row arith_seq
  sub_row-Tiles zero s idx y0 ax bx ay by_ = (([], idx), refl, (λ px py. ground arith), tt)
  sub_row-Tiles (suc count) s idx y0 ax bx ay by_ =
      let (c, ec, same, p) = sub_request-IsChild idx s y0 ax (omega arith) ay by_ in
      let (out, e, tiles, ps) =
        sub_row-Tiles count (s + sub_w) (idx + 1) y0 (omega arith) (omega arith) ay by_ in
      (
        (c ∷ out.0, out.1),
        rw (ec, e) refl,
        (λ px py. rw same (ground (arith, tiles px py))),
        (p, ps),
      )

  sub_rows-Tiles :
      (m count s idx : ℕ)
      → m * sub_w + r.core_bbox.x0 < r.core_bbox.x1 + sub_w
      → r.core_bbox.x1 ≤ r.core_bbox.x0 + m * sub_w
      → r.core_bbox.y0 ≤ s
      → s + count * sub_h < r.core_bbox.y1 + sub_h
      → (out : List TileRequest) × (sub_rows r sub_h sub_w idx
            (arith_seq m r.core_bbox.x0 sub_w)
            (arith_seq count s sub_h)
          ≡ ok out)
        × Tiles
            (cores_of out)
            r.core_bbox.x0
            r.core_bbox.x1
            s
            (min (s + count * sub_h) r.core_bbox.y1)
        × All (IsChild r) out
  unfolding sub_rows arith_seq
  sub_rows-Tiles m zero s idx hm hr ay by_ = ([], refl, (λ px py. ground arith), tt)
  sub_rows-Tiles m (suc count) s idx hm hr ay by_ =
      let (row, er, row_tiles, row_ok) =
        sub_row-Tiles m r.core_bbox.x0 idx s (omega arith) (omega arith) ay (omega arith) in
      let (rest, e, tiles, rest_ok) =
        sub_rows-Tiles m count (s + sub_h) row.1 hm hr (omega arith) (omega arith) in
      (
        row.0 ++ rest,
        rw (er, e) refl,
        (λ px py. ground (
          arith,
          tiles px py,
          row_tiles px py,
          cores_of-append row.0 rest,
          owners-append (cores_of row.0) (cores_of rest) px py,
        )),
        All-append (IsChild r) row.0 rest row_ok rest_ok,
      )

-- The number of items of `range(a, b, s)` is the least whose steps reach `b`.
range_bounds :
    (a b s : ℕ)
    → 0 < s
    → a ≤ b
    → (b ≤ a + (b - a + (s - 1)) / s * s) × (a + (b - a + (s - 1)) / s * s < b + s)
range_bounds a b s hs hab = grind arith

-- For a request whose core is a box and whose halo is nowhere negative, and for every positive
-- subdivision, subdivide_request succeeds: the cores of the children own each pixel of the core of
-- the request exactly once and no other pixel, and each child has a nonempty core inside the core of
-- the request and a read window that contains its own core.
pub subdivide_request-Tiles :
    (r : TileRequest) (n : ℕ)
    → 0 < n
    → IsBox r.core_bbox
    → IsNonneg r.halo
    → (children : List TileRequest) × (subdivide_request r n ≡ ok children)
      × Tiles (cores_of children) r.core_bbox.x0 r.core_bbox.x1 r.core_bbox.y0 r.core_bbox.y1
      × All (IsChild r) children
unfolding subdivide_request range
subdivide_request-Tiles r zero hn b n = absurd (omega arith)
subdivide_request-Tiles r (suc m) hn b n =
    let sub_h = max 1 (height r.core_bbox / suc m) in
    let sub_w = max 1 (width r.core_bbox / suc m) in
    let (x_reached, x_within) =
      range_bounds r.core_bbox.x0 r.core_bbox.x1 sub_w (omega arith) (omega arith) in
    let (y_reached, y_within) =
      range_bounds r.core_bbox.y0 r.core_bbox.y1 sub_h (omega arith) (omega arith) in
    let count_x = (r.core_bbox.x1 - r.core_bbox.x0 + (sub_w - 1)) / sub_w in
    let count_y = (r.core_bbox.y1 - r.core_bbox.y0 + (sub_h - 1)) / sub_h in
    let (children, e, tiles, all_ok) =
      sub_rows-Tiles r sub_h sub_w (omega arith) (omega arith) n count_x count_y r.core_bbox.y0 0
        (omega arith) x_reached (omega arith) y_within in
    (children, e, (λ x y. ground (arith, tiles x y)), all_ok)
