-- ===== src/Streaming/Manhattan/Examples.antt =====
-- The theorems on the Manhattan sink at a core of four pixels.
use open_litho_hub.Base.{
  ℕ, ◌+◌, ◌*◌, ◌<◌, ◌≡◌, refl, false, ◌&&◌, inl, some, [], ok, ◌==◌, if◌then◌else◌, tally, arith,
}
use open_litho_hub.Base.Dict.{nat_eq, mem}
use open_litho_hub.Streaming.Geometry.{BoundingBox}
use open_litho_hub.Streaming.Geometry.Pixels.{has_pixel}
use open_litho_hub.Streaming.Sinks.{Tensor, full}
use open_litho_hub.Streaming.Sinks.Examples.{entry}
use open_litho_hub.Streaming.Manhattan.{
  ManhattanSink, binary_rows, manhattan_write_core, manhattan_record_certified_core,
}
use open_litho_hub.Streaming.Manhattan.Owners.{is_foreground}
use open_litho_hub.Streaming.Manhattan.Commit.{unit_owners, IsWritable, manhattan_write_core-units}
use open_litho_hub.Streaming.Manhattan.Certified.{manhattan_record_certified_core-write}

abbrev square : BoundingBox
square = record { x0 = 1; y0 = 0; x1 = 3; y1 = 2 }

-- 1 0
-- 1 1
abbrev corner : Tensor ℕ
corner = record { rows = 2; cols = 2; at = λ row col. if (row == 0) && (col == 1) then 0 else 1 }

abbrev cell : ManhattanSink ℕ
cell = record {
  layout_height = 4;
  pixels_per_dbu = 10;
  shapes = [];
  n_rectangles = 0;
  written_cores = [];
}

corner-IsWritable : IsWritable 5 square corner cell
unfolding mem binary_rows
corner-IsWritable = (refl, refl, refl, refl)

manhattan_write_core-units_example :
    let (result, after) = manhattan_write_core 5 square corner cell in
    (result ≡ ok tt)
    × ((x y q i j : ℕ)
        → 4 ≡ q + 1 + y
        → i < 10
        → j < 10
        → unit_owners after.shapes (x * 10 + i) (q * 10 + j)
          ≡ unit_owners cell.shapes (x * 10 + i) (q * 10 + j)
            + tally (has_pixel square x y && is_foreground square corner x y))
manhattan_write_core-units_example =
    manhattan_write_core-units 5 square corner cell corner-IsWritable (omega arith) (omega arith)

new_to_cell : mem 5 cell.written_cores ≡ false
unfolding mem
new_to_cell = refl

manhattan_record_certified_core-write_example :
    let (certified, recorded) = manhattan_record_certified_core {F = ℕ} 5 square (some 1) cell in
    let (result, written) = manhattan_write_core {F = ℕ} 5 square (full square 1) cell in
    (certified ≡ ok tt)
    × (result ≡ ok tt)
    × ((x y q i j : ℕ)
        → 4 ≡ q + 1 + y
        → i < 10
        → j < 10
        → unit_owners recorded.shapes (x * 10 + i) (q * 10 + j)
          ≡ unit_owners written.shapes (x * 10 + i) (q * 10 + j))
manhattan_record_certified_core-write_example =
    manhattan_record_certified_core-write 5 square 1 cell new_to_cell (omega arith) (omega arith)
      (inl (refl, refl))
