-- ===== src/Streaming/Sinks/Assemble.antt =====
-- Writing the cores of a grid: TensorTileSink puts the crops of an image together again.
use open_litho_hub.Base.{
  ℕ, ◌+◌, ◌-◌, ◌≤◌, ◌<◌, ◌≡◌, ◌∙◌, refl, ap, subst, Bool, true, false, ◌&&◌, List, [], ◌∷◌, none,
  Outcome, ok, raise, ltb, leb, ◌==◌, if◌then◌else◌, tally, arith, All, Bool-cases, inl, inr,
  ==_iff,
}
use open_litho_hub.Base.Dict.{Eq, mem}
use open_litho_hub.Streaming.Geometry.{BoundingBox, width, height, core_grid_boxes}
use open_litho_hub.Streaming.Geometry.Pixels.{in_span, has_pixel, owners, Tiles}
use open_litho_hub.Streaming.Geometry.Grid.{IsCore, core_grid_boxes-Tiles}
use open_litho_hub.Streaming.Ownership.Ledger.{Distinct}
use open_litho_hub.Streaming.Sinks.{
  Entry, Tensor, SinkError, TensorTileSink, tensor_tile_sink, assign, fits_dim, tensor_write_core,
}

-- The tensor of a core of an image.
abbrev pub crop : {F : Type 0} → (image : (row col : ℕ) → F) → BoundingBox → Tensor F
crop image b = record {
  rows = height b;
  cols = width b;
  at = λ row col. image (b.y0 + row) (b.x0 + col);
}

abbrev pub boxes_of : {K : Type 0} → List (K × BoundingBox) → List BoundingBox
boxes_of [] = []
boxes_of ((_, b) ∷ tiles) = b ∷ boxes_of tiles

abbrev pub ids_of : {K : Type 0} → List (K × BoundingBox) → List K
ids_of [] = []
ids_of ((i, _) ∷ tiles) = i ∷ ids_of tiles

-- A box that lies in a shape.
abbrev InShape : (h w : ℕ) → BoundingBox → Type 0
InShape h w b = (b.x1 ≤ w) × (b.y1 ≤ h) × (b.x0 ≤ b.x1) × (b.y0 ≤ b.y1)

written_entry :
    {F : Type 0} (here : Bool) (n : ℕ) (new after before : F)
    → after ≡ (if here then new else before)
    → (if ltb 0 n then new else after) ≡ (if ltb 0 (tally here + n) then new else before)
written_entry true n new after before e = ground (arith, e)
written_entry false n new after before e = ground (arith, e)

-- The test of an assignment, and the entry of the crop.
crop_entry :
    {F : Type 0} (image : (row col : ℕ) → F) (b : BoundingBox) (h w row col : ℕ) (old : F)
    → row < h
    → col < w
    → (if (leb b.y0 row && ltb row b.y1)
          && (leb b.x0 col && ltb col b.x1)
          && (ltb row h && ltb col w)
        then image (b.y0 + (row - b.y0)) (b.x0 + (col - b.x0))
        else old)
      ≡ (if has_pixel b col row then image row col else old)
crop_entry image b h w row col old hr hc =
    let guard =
      (leb b.y0 row && ltb row b.y1)
      && (leb b.x0 col && ltb col b.x1)
      && (ltb row h && ltb col w) in
    elim (Bool-cases (has_pixel b col row)) [
      | inl t ↦
          let r : b.y0 + (row - b.y0) ≡ row = ground arith in
          let c : b.x0 + (col - b.x0) ≡ col = ground arith in
          let g : guard ≡ true = ground arith in rw (g, t, r, c) refl
      | inr f ↦ let g : guard ≡ false = ground arith in rw (g, f) refl
    ]

inside_shape :
    (h w c : ℕ) (boxes : List BoundingBox) → All (IsCore w h c) boxes → All (InShape h w) boxes
inside_shape h w c [] inside = tt
inside_shape h w c (b ∷ boxes) inside = (omega (arith, inside.0), inside_shape h w c boxes inside.1)

owned_entry :
    {F : Type 0} (n : ℕ) (col_in row_in : Bool) (new old : F)
    → n ≡ tally (col_in && row_in)
    → col_in ≡ true
    → row_in ≡ true
    → (if ltb 0 n then new else old) ≡ new
owned_entry n col_in row_in new old e c r = ground (arith, e, c, r)

module _ {F K : Type 0} ⦃s : Entry F⦄ ⦃e : Eq K⦄ (image : (row col : ℕ) → F) where
  -- The writes of the tiles, in order, up to the first that raises.
  abbrev pub write_tiles :
      List (K × BoundingBox)
      → TensorTileSink F K
      → Outcome SinkError (Unit {0}) × TensorTileSink F K
  write_tiles [] sink = (ok tt, sink)
  write_tiles ((tile_id, b) ∷ tiles) sink =
      let (result, after) = tensor_write_core tile_id b (crop image b) sink in
      let rest = write_tiles tiles after in elim result [ raise x ↦ (raise x, after) | ok _ ↦ rest ]

  -- What one write leaves.
  abbrev write_one : K → BoundingBox → TensorTileSink F K → TensorTileSink F K
  write_one tile_id b sink =
      assign b (crop image b) (record sink { written = tile_id ∷ sink.written })

  write_accepted :
      (tile_id : K) (b : BoundingBox) (sink : TensorTileSink F K)
      → mem tile_id sink.written ≡ false
      → InShape sink.shape_h sink.shape_w b
      → tensor_write_core tile_id b (crop image b) sink ≡ (ok tt, write_one tile_id b sink)
  unfolding tensor_write_core
  write_accepted tile_id b sink new inside =
      let rows : (height b == height b) ≡ true = (==_iff (height b) (height b)).1 refl in
      let cols : (width b == width b) ≡ true = (==_iff (width b) (width b)).1 refl in
      let fits_h : fits_dim b.y0 b.y1 sink.shape_h ≡ true = ground arith in
      let fits_w : fits_dim b.x0 b.x1 sink.shape_w ≡ true = ground arith in
      rw (new, rows, cols, fits_h, fits_w) refl

  write_tiles_step :
      (i : K) (b : BoundingBox) (tiles : List (K × BoundingBox)) (sink : TensorTileSink F K)
      → tensor_write_core i b (crop image b) sink ≡ (ok tt, write_one i b sink)
      → write_tiles ((i, b) ∷ tiles) sink ≡ write_tiles tiles (write_one i b sink)
  write_tiles_step i b tiles sink accepted =
      ap
        (λ (step : Outcome SinkError (Unit {0}) × TensorTileSink F K). elim step.0 [
          | raise x ↦ (raise x, step.1)
          | ok _ ↦ write_tiles tiles step.1
        ])
        accepted

  -- No tile of the list has an id that is in use.
  abbrev AreNew : List K → List K → Type 0
  AreNew ids written = All (λ i. mem i written ≡ false) ids

  others_new :
      (i : K) (ids written : List K)
      → mem i ids ≡ false
      → AreNew ids written
      → AreNew ids (i ∷ written)
  unfolding mem
  others_new i [] written fresh new = tt
  others_new i (j ∷ ids) written fresh new = (
    ground (arith, fresh, new.0, e.beq_iff i j, e.beq_iff j i),
    others_new i ids written (ground (arith, fresh)) new.1,
  )

  -- An entry after the writes: that of the image where a core has it, and the old one elsewhere.
  write_tiles-output :
      (tiles : List (K × BoundingBox)) (sink : TensorTileSink F K)
      → Distinct (ids_of tiles)
      → AreNew (ids_of tiles) sink.written
      → All (InShape sink.shape_h sink.shape_w) (boxes_of tiles)
      → let (result, after) = write_tiles tiles sink in
        (result ≡ ok tt)
        × ((row col : ℕ)
            → row < sink.shape_h
            → col < sink.shape_w
            → after.output row col ≡ (
                if ltb 0 (owners (boxes_of tiles) col row)
                then image row col
                else sink.output row col))
  write_tiles-output [] sink distinct new inside = (refl, λ row col hr hc. refl)
  write_tiles-output ((i, b) ∷ tiles) sink distinct new inside =
      let accepted = write_accepted i b sink new.0 inside.0 in
      let (done, outputs) =
        write_tiles-output tiles (write_one i b sink) distinct.1
          (others_new i (ids_of tiles) sink.written distinct.0 new.1) inside.1 in
      rw (write_tiles_step i b tiles sink accepted) (
        done,
        λ row col hr hc.
            outputs row col hr hc
            ∙ written_entry (has_pixel b col row) (owners (boxes_of tiles) col row) (image row col)
                ((write_one i b sink).output row col) (sink.output row col)
                (crop_entry image b sink.shape_h sink.shape_w row col (sink.output row col) hr hc),
      )

  none_written : (ids : List K) → AreNew ids []
  unfolding mem
  none_written [] = tt
  none_written (i ∷ ids) = (refl, none_written ids)

  -- Writing back gives the image: for every shape and positive core size, the tiles of the core grid
  -- with ids that differ are all accepted by a new sink of the shape, and every entry of the output is
  -- the entry of the image that the tiles were cut from.
  pub write_tiles-crop :
      (h w c : ℕ) (tiles : List (K × BoundingBox))
      → 0 < c
      → Distinct (ids_of tiles)
      → core_grid_boxes h w c none ≡ ok (boxes_of tiles)
      → let (result, after) = write_tiles tiles (tensor_tile_sink h w) in
        (result ≡ ok tt)
        × ((row col : ℕ) → row < h → col < w → after.output row col ≡ image row col)
  write_tiles-crop h w c tiles hc distinct planned =
      let (boxes, e, cover, inside) = core_grid_boxes-Tiles h w c hc in
      let same : boxes ≡ boxes_of tiles = cc in
      let start : TensorTileSink F K = tensor_tile_sink h w in
      let (done, outputs) =
        write_tiles-output tiles start distinct (none_written (ids_of tiles))
          (inside_shape h w c (boxes_of tiles) (subst (All (IsCore w h c)) same inside)) in
      (
        done,
        λ row col hr hcol.
            outputs row col hr hcol
            ∙ owned_entry (owners (boxes_of tiles) col row) (in_span 0 w col) (in_span 0 h row)
                (image row col) (start.output row col)
                (subst (λ (bs : List BoundingBox). Tiles bs 0 w 0 h) same cover col row)
                (ground arith) (ground arith),
      )
