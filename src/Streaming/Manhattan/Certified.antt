-- ===== src/Streaming/Manhattan/Certified.antt =====
-- record_certified_core of the Manhattan sink against write_core of the constant core.
use open_litho_hub.Base.{
  ℕ, zero, suc, ◌+◌, ◌*◌, ◌≤◌, ◌<◌, ◌≡◌, ◌⊎◌, ◌∙◌, sym, refl, ap, Bool, true, false, not, ◌&&◌,
  ◌||◌, some, ok, tally, arith, inl, inr, ◌∷◌,
}
use open_litho_hub.Base.Dict.{Eq, mem}
use open_litho_hub.Streaming.Geometry.{BoundingBox, width, height}
use open_litho_hub.Streaming.Geometry.Pixels.{has_pixel}
use open_litho_hub.Streaming.Sinks.{Entry, full}
use open_litho_hub.Streaming.Manhattan.{
  ManhattanSink, binary_row, binary_rows, manhattan_write_core, manhattan_record_certified_core,
}
use open_litho_hub.Streaming.Manhattan.Commit.{
  unit_owners, inserted_unit, IsWritable, manhattan_write_core-units,
}

module _ {F : Type 0} ⦃s : Entry F⦄ (value : F)
    (binary : (s.is_zero value || s.is_one value) ≡ true) where
  constant_row : (n : ℕ) → binary_row (λ col. value) n ≡ true
  unfolding binary_row
  constant_row zero = refl
  constant_row (suc n) = rw (binary, constant_row n) refl

  constant_rows : (cols n : ℕ) → binary_rows (λ row col. value) cols n ≡ true
  unfolding binary_rows
  constant_rows cols zero = refl
  constant_rows cols (suc n) = rw (constant_row cols, constant_rows cols n) refl

full_core : (here is_zero : Bool) → is_zero ≡ false → tally here ≡ tally (here && not is_zero)
full_core here is_zero h = ground (arith, h)

empty_core : (here is_zero : Bool) (n : ℕ) → is_zero ≡ true → n ≡ n + tally (here && not is_zero)
empty_core here is_zero n h = ground (arith, h)

module _ {F K : Type 0} ⦃s : Entry F⦄ ⦃e : Eq K⦄ where
  -- A certified constant core, 0.0 or 1.0, is the write of the constant tensor: both return, and leave every
  -- database unit of the layout in as many boxes.
  pub manhattan_record_certified_core-write :
      (tile_id : K) (b : BoundingBox) (value : F) (sink : ManhattanSink K)
      → mem tile_id sink.written_cores ≡ false
      → b.x0 ≤ b.x1
      → b.y0 ≤ b.y1
      → (s.is_one value ≡ true) × (s.is_zero value ≡ false)
        ⊎ (s.is_one value ≡ false) × (s.is_zero value ≡ true)
      → let (certified, recorded) = manhattan_record_certified_core tile_id b (some value) sink in
        let (result, written) = manhattan_write_core tile_id b (full b value) sink in
        let p = sink.pixels_per_dbu in
        (certified ≡ ok tt)
        × (result ≡ ok tt)
        × ((x y q i j : ℕ)
            → sink.layout_height ≡ q + 1 + y
            → i < p
            → j < p
            → unit_owners recorded.shapes (x * p + i) (q * p + j)
              ≡ unit_owners written.shapes (x * p + i) (q * p + j))
  unfolding manhattan_record_certified_core
  manhattan_record_certified_core-write tile_id b value sink new hx hy (inl (one, nonzero)) =
      let writable : IsWritable tile_id b (full b value) sink =
        (new, refl, refl, constant_rows value (ground (arith, one)) (width b) (height b)) in
      let (returns, units) =
        manhattan_write_core-units tile_id b (full b value) sink writable hx hy in
      let marked : ManhattanSink K = record sink { written_cores = tile_id ∷ sink.written_cores } in
      rw (new, one)
        (
          refl,
          returns,
          λ x y q i j tall hi hj.
              inserted_unit x y q i j b marked tall hi hj
              ∙ ap
                  (λ n.
                    unit_owners sink.shapes (x * sink.pixels_per_dbu + i)
                      (q * sink.pixels_per_dbu + j)
                    + n)
                  (full_core (has_pixel b x y) (s.is_zero value) nonzero)
              ∙ sym (units x y q i j tall hi hj),
        )
  manhattan_record_certified_core-write tile_id b value sink new hx hy (inr (other, zero_value)) =
      let writable : IsWritable tile_id b (full b value) sink =
        (new, refl, refl, constant_rows value (ground (arith, zero_value)) (width b) (height b)) in
      let (returns, units) =
        manhattan_write_core-units tile_id b (full b value) sink writable hx hy in
      rw (new, other, zero_value)
        (
          refl,
          returns,
          λ x y q i j tall hi hj.
              empty_core (has_pixel b x y) (s.is_zero value) _ zero_value
              ∙ sym (units x y q i j tall hi hj),
        )
