-- ===== src/Streaming/Work/Tiles.antt =====
-- record_active_core and record_screened_out: every tile has one disposition, the first one.
use open_litho_hub.Base.{◌≡◌, false, ◌&&◌, ◌||◌, not, length, arith}
use open_litho_hub.Base.Dict.{Eq, has_key, mem, add, has_key-insert, mem-add}
use open_litho_hub.Streaming.Geometry.{BoundingBox, area}
use open_litho_hub.Streaming.Work.{Work, record_active_core, record_screened_out}

module _ {K : Type 0} ⦃e : Eq K⦄ where
  -- No tile is both active and screened out, and the two counters count the screened tiles.
  pub record IsDisposed (w : Work K) : Type 0 where
    pub apart : (i : K) → (has_key i w.tile_areas && mem i w.screened_tiles) ≡ false
    pub screened : w.tiles_screened_out ≡ length w.screened_tiles
    pub skipped : w.tiles_skipped ≡ length w.screened_tiles

  -- After record_active_core a tile is active exactly if it was, or if it is the tile of the call and
  -- was not screened out; the screened tiles are as they were.
  pub record_active_core_tiles :
      (i j : K) (core : BoundingBox) (w : Work K)
      → (has_key j (record_active_core i core w).tile_areas
          ≡ (has_key j w.tile_areas || (e.beq i j && not (mem j w.screened_tiles))))
        × (mem j (record_active_core i core w).screened_tiles ≡ mem j w.screened_tiles)
  unfolding record_active_core
  record_active_core_tiles i j core w =
      ground (arith, has_key-insert i j (area core) w.tile_areas, e.beq_iff i j)

  -- After record_screened_out a tile is screened out exactly if it was, or if it is the tile of the call
  -- and was not active; the active tiles are as they were.
  pub record_screened_out_tiles :
      (i j : K) (w : Work K)
      → (mem j (record_screened_out i w).screened_tiles
          ≡ (mem j w.screened_tiles || (e.beq i j && not (has_key j w.tile_areas))))
        × (has_key j (record_screened_out i w).tile_areas ≡ has_key j w.tile_areas)
  unfolding record_screened_out
  record_screened_out_tiles i j w = ground (arith, mem-add i j w.screened_tiles, e.beq_iff i j)

  record_active_core-IsDisposed :
      (i : K) (core : BoundingBox) (w : Work K)
      → IsDisposed w
      → IsDisposed (record_active_core i core w)
  unfolding record_active_core
  record_active_core-IsDisposed i core w d = record {
    apart = λ j. ground (arith, record_active_core_tiles i j core w, d.apart j);
    screened = ground (arith, d.screened);
    skipped = ground (arith, d.skipped);
  }

  record_screened_out-IsDisposed :
      (i : K) (w : Work K) → IsDisposed w → IsDisposed (record_screened_out i w)
  unfolding record_screened_out add
  record_screened_out-IsDisposed i w d = record {
    apart = λ j. ground (arith, record_screened_out_tiles i j w, d.apart j);
    screened = ground (arith, d.screened);
    skipped = ground (arith, d.skipped);
  }
