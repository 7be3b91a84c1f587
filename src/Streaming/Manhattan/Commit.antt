-- ===== src/Streaming/Manhattan/Commit.antt =====
-- write_core of the Manhattan sink in database units: the y axis points up and each pixel is a square of
-- `pixels_per_dbu` units.
use open_litho_hub.Base.{
  ℕ, ◌+◌, ◌*◌, ◌≤◌, ◌<◌, ◌≡◌, ◌⊎◌, ◌∙◌, refl, ap, Bool, true, false, not, ◌&&◌, List, [], ◌∷◌, ok,
  ltb, leb, ◌==◌, tally, arith, Bool-cases, inl, inr, count_by, count_by-append, ==_iff,
}
use open_litho_hub.Base.Dict.{Eq, mem}
use open_litho_hub.Base.Int.{pos, sub_ℕ, ltb_ℤ}
use open_litho_hub.Streaming.Geometry.{BoundingBox, width, height}
use open_litho_hub.Streaming.Geometry.Pixels.{in_span, has_pixel, owners}
use open_litho_hub.Streaming.Sinks.{Entry, Tensor}
use open_litho_hub.Streaming.Manhattan.{
  DbuBox, ManhattanSink, insert_box, insert_boxes, binary_rows, core_boxes, manhattan_write_core,
}
use open_litho_hub.Streaming.Manhattan.Owners.{is_foreground, core_boxes-owners}

-- The unit square [u, u + 1) x [v, v + 1) lies in the box.
abbrev pub has_unit : DbuBox → (u v : ℕ) → Bool
has_unit d u v = in_span d.left d.right u && (not (ltb_ℤ (pos v) d.bottom) && ltb_ℤ (pos v) d.top)

abbrev pub unit_owners : List DbuBox → (u v : ℕ) → ℕ
unit_owners shapes u v = count_by (λ d. has_unit d u v) shapes

scale-le : (a b p : ℕ) → a ≤ b → a * p ≤ b * p
scale-le a b p h = grind arith

add_scale : (a p : ℕ) → (a + 1) * p ≡ a * p + p
add_scale a p = grind arith

-- Pixels are apart by at least `p` units.
scale-cases : (a x p : ℕ) → (a ≤ x) × (a * p ≤ x * p) ⊎ (x < a) × (x * p + p ≤ a * p)
scale-cases a x p = elim (Bool-cases (leb a x)) [
  | inl t ↦ let h : a ≤ x = ground arith in inl (h, scale-le a x p h)
  | inr f ↦
      let h : x + 1 ≤ a = ground arith in
      inr (omega arith, omega (arith, scale-le (x + 1) a p h, add_scale x p))
]

-- A unit of pixel `x` is right of the edge `a` exactly if the pixel is.
at_edge : (a x i p : ℕ) → i < p → leb (a * p) (x * p + i) ≡ leb a x
at_edge a x i p h = elim (scale-cases a x p) [
  | inl (le, scaled) ↦ ground arith
  | inr (lt, scaled) ↦ ground arith
]

below_edge : (b x i p : ℕ) → i < p → ltb (x * p + i) (b * p) ≡ ltb x b
below_edge b x i p h = elim (scale-cases b x p) [
  | inl (le, scaled) ↦ ground arith
  | inr (lt, scaled) ↦ ground arith
]

height_scale : (q y p : ℕ) → (q + 1 + y) * p ≡ q * p + p + y * p
height_scale q y p = grind arith

-- The same, upside down: `q` rows of the layout are below row `y`.
above_bottom :
    (q y j p bottom : ℕ)
    → j < p
    → not (ltb_ℤ (pos (q * p + j)) (sub_ℕ ((q + 1 + y) * p) (bottom * p))) ≡ ltb y bottom
above_bottom q y j p bottom h =
    let total = height_scale q y p in
    elim (scale-cases bottom y p) [
      | inl (le, scaled) ↦ ground arith
      | inr (lt, scaled) ↦ ground arith
    ]

under_top :
    (q y j p top : ℕ)
    → j < p
    → ltb_ℤ (pos (q * p + j)) (sub_ℕ ((q + 1 + y) * p) (top * p)) ≡ leb top y
under_top q y j p top h =
    let total = height_scale q y p in
    elim (scale-cases top y p) [ inl (le, scaled) ↦ ground arith | inr (lt, scaled) ↦ ground arith ]

regroup : (c r f : Bool) → tally (c && r && f) ≡ tally ((c && r) && f)
regroup c r f = ground arith

swap_rows : (c b t : Bool) → tally (c && (b && t)) + 0 ≡ tally (c && (t && b))
swap_rows c b t = ground arith

-- Unit (i, j) of the pixel in column `x` and row `y`, which is row `q` from the bottom.
module _ {K : Type 0} (x y q i j : ℕ) where
  pub inserted_unit :
      (b : BoundingBox) (sink : ManhattanSink K)
      → sink.layout_height ≡ q + 1 + y
      → i < sink.pixels_per_dbu
      → j < sink.pixels_per_dbu
      → let p = sink.pixels_per_dbu in
        unit_owners (insert_box b sink).shapes (x * p + i) (q * p + j)
        ≡ unit_owners sink.shapes (x * p + i) (q * p + j) + tally (has_pixel b x y)
  unfolding insert_box
  inserted_unit b sink tall hi hj =
      let p = sink.pixels_per_dbu in
      count_by-append (λ d. has_unit d (x * p + i) (q * p + j)) sink.shapes _
      ∙ rw
          (
            tall,
            at_edge b.x0 x i p hi,
            below_edge b.x1 x i p hi,
            above_bottom q y j p b.y1 hj,
            under_top q y j p b.y0 hj,
            swap_rows (in_span b.x0 b.x1 x) (ltb y b.y1) (leb b.y0 y),
          )
          refl

  insert_boxes-units :
      (boxes : List BoundingBox) (sink : ManhattanSink K)
      → sink.layout_height ≡ q + 1 + y
      → i < sink.pixels_per_dbu
      → j < sink.pixels_per_dbu
      → let p = sink.pixels_per_dbu in
        unit_owners (insert_boxes boxes sink).shapes (x * p + i) (q * p + j)
        ≡ unit_owners sink.shapes (x * p + i) (q * p + j) + owners boxes x y
  unfolding insert_boxes insert_box
  insert_boxes-units [] sink tall hi hj = omega arith
  insert_boxes-units (b ∷ boxes) sink tall hi hj =
      let ih = insert_boxes-units boxes (insert_box b sink) tall hi hj in
      omega (arith, ih, inserted_unit b sink tall hi hj)

module _ {F K : Type 0} ⦃s : Entry F⦄ ⦃e : Eq K⦄ where
  -- A core that the sink accepts: a new id, the shape of its box, and values that are 0.0 or 1.0.
  abbrev pub IsWritable : K → BoundingBox → Tensor F → ManhattanSink K → Type 0
  IsWritable tile_id b t sink =
      (mem tile_id sink.written_cores ≡ false)
      × (t.rows ≡ height b)
      × (t.cols ≡ width b)
      × (binary_rows t.at t.cols t.rows ≡ true)

  write_accepts :
      (tile_id : K) (b : BoundingBox) (t : Tensor F) (sink : ManhattanSink K)
      → IsWritable tile_id b t sink
      → manhattan_write_core tile_id b t sink ≡ (
        ok tt,
        insert_boxes
            (core_boxes b t)
            (record sink { written_cores = tile_id ∷ sink.written_cores }),
      )
  unfolding manhattan_write_core
  write_accepts tile_id b t sink (new, rows, cols, binary) =
      let same_rows : (t.rows == height b) ≡ true = (==_iff t.rows (height b)).1 rows in
      let same_cols : (t.cols == width b) ≡ true = (==_iff t.cols (width b)).1 cols in
      rw (new, same_rows, same_cols, binary) refl

  -- A write that the sink accepts returns, and adds to the cell exactly the units of the foreground
  -- pixels of the core, each once: for every pixel of the layout and every database unit inside it, the
  -- number of boxes with the unit grows by 1 if the pixel is in the core and foreground, and stays otherwise.
  pub manhattan_write_core-units :
      (tile_id : K) (b : BoundingBox) (t : Tensor F) (sink : ManhattanSink K)
      → IsWritable tile_id b t sink
      → b.x0 ≤ b.x1
      → b.y0 ≤ b.y1
      → let (result, after) = manhattan_write_core tile_id b t sink in
        let p = sink.pixels_per_dbu in
        (result ≡ ok tt)
        × ((x y q i j : ℕ)
            → sink.layout_height ≡ q + 1 + y
            → i < p
            → j < p
            → unit_owners after.shapes (x * p + i) (q * p + j)
              ≡ unit_owners sink.shapes (x * p + i) (q * p + j)
                + tally (has_pixel b x y && is_foreground b t x y))
  manhattan_write_core-units tile_id b t sink writable hx hy =
      let marked : ManhattanSink K = record sink { written_cores = tile_id ∷ sink.written_cores } in
      let right : b.x0 + t.cols ≡ b.x1 = omega (arith, writable) in
      let lower : b.y0 + t.rows ≡ b.y1 = omega (arith, writable) in
      rw (write_accepts tile_id b t sink writable) (
        refl,
        λ x y q i j tall hi hj.
            insert_boxes-units x y q i j (core_boxes b t) marked tall hi hj
            ∙ ap
                (λ n.
                  unit_owners sink.shapes (x * sink.pixels_per_dbu + i)
                    (q * sink.pixels_per_dbu + j)
                  + n)
                (rw (right, lower) at (core_boxes-owners b t x y)
                  ∙ regroup (in_span b.x0 b.x1 x) (in_span b.y0 b.y1 y) (is_foreground b t x y)),
      )
