-- ===== src/Streaming/Manhattan.antt =====
-- src/openlithohub/streaming/sinks.py: StreamingManhattanTileSink, which turns binary cores into boxes. The
-- cell of the sink is the list of the boxes that were inserted, in their order.
pub mod Runs
pub mod OpenRuns
pub mod Boxes
pub mod Owners
pub mod Commit
pub mod Certified
pub mod Examples
use open_litho_hub.Base.{
  ◌≡◌, ◌↔◌, ap, arith, ℕ, zero, suc, ◌+◌, ◌-◌, ◌*◌, Bool, true, false, not, ◌&&◌, ◌||◌, Option,
  none, some, List, [], ◌∷◌, ◌++◌, Outcome, ok, raise, ◌==◌, if◌then◌else◌,
}
use open_litho_hub.Base.Dict.{Eq, Dict, insert, mem, has_key}
use open_litho_hub.Base.Int.{ℤ, sub_ℕ}
use open_litho_hub.Streaming.Geometry.{BoundingBox, width, height}
use open_litho_hub.Streaming.Sinks.{
  Entry, Tensor, SinkError, duplicate_core, shape_mismatch, not_binarised, not_representable,
}

-- A run [x0, x1) of one row.
abbrev pub Run : Type 0
Run = ℕ × ℕ

-- np.flatnonzero of `n` entries from index `i` on.
pub flatnonzero : (foreground : ℕ → Bool) (n i : ℕ) → List ℕ
flatnonzero foreground zero i = []
flatnonzero foreground (suc n) i =
    let rest = flatnonzero foreground n (i + 1) in if foreground i then i ∷ rest else rest

-- The loop over idx[1:], with the locals `start` and `prev`.
pub runs_from : (start prev : ℕ) → List ℕ → List Run
runs_from start prev [] = (start, prev + 1) ∷ []
runs_from start prev (i ∷ idx) =
    let rest = runs_from (if i == prev + 1 then start else i) i idx in
    if i == prev + 1 then rest else (start, prev + 1) ∷ rest

unfoldable pub row_runs : List ℕ → List Run
unfolding runs_from
row_runs [] = []
row_runs (i ∷ idx) = runs_from i i idx

abbrev pub same_run : Run → Run → Bool
same_run (a, b) (c, d) = (a == c) && (b == d)

pub same_run_iff : (r q : Run) → (same_run r q ≡ true) ↔ (r ≡ q)
same_run_iff (a, b) (c, d) = (
  λ h.
      let first : a ≡ c = ground arith in
      let second : b ≡ d = ground arith in λ i. (first i, second i),
  λ p. let first = ap (λ (r : Run). r.0) p in let second = ap (λ (r : Run). r.1) p in ground arith,
)

instance abbrev pub run_eq : Eq Run
run_eq = record { beq = same_run; beq_iff = same_run_iff }

-- The open boxes: the first row of the box of each run, by the run.
abbrev pub OpenRuns : Type 0
OpenRuns = Dict Run ℕ

-- A box of the raster, [x0, x1) x [y_start, y_end), as it is passed to _insert_box.
abbrev pub raster_box : (x0 : ℕ) → Run → (y_start y_end : ℕ) → BoundingBox
raster_box x0 (a, b) y_start y_end = record { x0 = x0 + a; y0 = y_start; x1 = x0 + b; y1 = y_end }

-- The loop over list(open_runs): the boxes of the runs that are not in the row, and the runs that stay.
pub close_runs : (x0 y_end : ℕ) → List Run → OpenRuns → List BoundingBox × OpenRuns
unfolding mem
close_runs x0 y_end runs [] = ([], [])
close_runs x0 y_end runs ((key, y_start) ∷ open_runs) =
    let (boxes, kept) = close_runs x0 y_end runs open_runs in
    if mem key runs
    then (boxes, (key, y_start) ∷ kept)
    else (raster_box x0 key y_start y_end ∷ boxes, kept)

-- The loop over the runs of the row.
pub open_new : (y : ℕ) → List Run → OpenRuns → OpenRuns
unfolding has_key insert
open_new y [] open_runs = open_runs
open_new y (key ∷ runs) open_runs =
    open_new y runs (if has_key key open_runs then open_runs else insert key y open_runs)

-- The loop over the rows of a core, `n` of them from row `y` on; `runs_of` are the runs of a row.
pub merge_rows :
    (runs_of : ℕ → List Run) (x0 : ℕ)
    → (n y : ℕ) → OpenRuns
    → List BoundingBox
    → List BoundingBox × OpenRuns
unfolding close_runs open_new
merge_rows runs_of x0 zero y open_runs inserted = (inserted, open_runs)
merge_rows runs_of x0 (suc n) y open_runs inserted =
    let (boxes, kept) = close_runs x0 y (runs_of y) open_runs in
    merge_rows runs_of x0 n (y + 1) (open_new y (runs_of y) kept) (inserted ++ boxes)

-- The loop that flushes the open runs.
pub flush_runs : (x0 y_end : ℕ) → OpenRuns → List BoundingBox
flush_runs x0 y_end [] = []
flush_runs x0 y_end ((key, y_start) ∷ open_runs) =
    raster_box x0 key y_start y_end ∷ flush_runs x0 y_end open_runs

-- Box(left, bottom, right, top) in database units.
pub record DbuBox : Type 0 where
  pub left : ℕ
  pub bottom : ℤ
  pub right : ℕ
  pub top : ℤ

pub record ManhattanSink (K : Type 0) : Type 0 where
  pub layout_height : ℕ
  pub pixels_per_dbu : ℕ
  pub shapes : List DbuBox
  pub n_rectangles : ℕ
  pub written_cores : List K

module _ {K : Type 0} where
  unfoldable pub insert_box : BoundingBox → ManhattanSink K → ManhattanSink K
  insert_box b sink = record sink {
    shapes =
        sink.shapes
        ++ record {
          left = b.x0 * sink.pixels_per_dbu;
          bottom = sub_ℕ (sink.layout_height * sink.pixels_per_dbu) (b.y1 * sink.pixels_per_dbu);
          right = b.x1 * sink.pixels_per_dbu;
          top = sub_ℕ (sink.layout_height * sink.pixels_per_dbu) (b.y0 * sink.pixels_per_dbu);
        }
          ∷ [];
    n_rectangles = sink.n_rectangles + 1;
  }

  pub insert_boxes : List BoundingBox → ManhattanSink K → ManhattanSink K
  unfolding insert_box
  insert_boxes [] sink = sink
  insert_boxes (b ∷ boxes) sink = insert_boxes boxes (insert_box b sink)

-- np.isin(vals, (0.0, 1.0)).all() over `n` entries of a row, and over the rows.
module _ {F : Type 0} ⦃s : Entry F⦄ where
  pub binary_row : (row : ℕ → F) (n : ℕ) → Bool
  binary_row row zero = true
  binary_row row (suc n) = (s.is_zero (row n) || s.is_one (row n)) && binary_row row n

  pub binary_rows : (at : ℕ → ℕ → F) (cols n : ℕ) → Bool
  unfolding binary_row
  binary_rows at cols zero = true
  binary_rows at cols (suc n) = binary_row (at n) cols && binary_rows at cols n

  -- The runs of row `y` of the layout in the core.
  unfoldable pub core_runs : BoundingBox → Tensor F → (y : ℕ) → List Run
  unfolding row_runs flatnonzero
  core_runs b t y = row_runs (flatnonzero (λ col. not (s.is_zero (t.at (y - b.y0) col))) t.cols 0)

  -- The boxes of a core, in the order in which they are inserted.
  unfoldable pub core_boxes : BoundingBox → Tensor F → List BoundingBox
  unfolding merge_rows flush_runs core_runs
  core_boxes b t =
      let (boxes, open_runs) = merge_rows (core_runs b t) b.x0 t.rows b.y0 [] [] in
      boxes ++ flush_runs b.x0 (b.y0 + t.rows) open_runs

module _ {F K : Type 0} ⦃s : Entry F⦄ ⦃e : Eq K⦄ where
  unfoldable pub manhattan_write_core :
      K → BoundingBox → Tensor F → ManhattanSink K → Outcome SinkError (Unit {0}) × ManhattanSink K
  unfolding mem binary_rows insert_boxes core_boxes
  manhattan_write_core tile_id b t sink =
      if mem tile_id sink.written_cores
      then (raise duplicate_core, sink)
      else let marked = record sink { written_cores = tile_id ∷ sink.written_cores } in
        if not ((t.rows == height b) && (t.cols == width b))
        then (raise shape_mismatch, marked)
        else if not (binary_rows t.at t.cols t.rows)
        then (raise not_binarised, marked)
        else (ok tt, insert_boxes (core_boxes b t) marked)

  unfoldable pub manhattan_record_certified_core :
      K
      → BoundingBox
      → (exact_fill : Option F) → ManhattanSink K
      → Outcome SinkError (Unit {0}) × ManhattanSink K
  unfolding mem insert_box
  manhattan_record_certified_core tile_id b fill sink =
      if mem tile_id sink.written_cores
      then (raise duplicate_core, sink)
      else let marked = record sink { written_cores = tile_id ∷ sink.written_cores } in
        elim fill [
          | none ↦ (raise not_representable, marked)
          | some value ↦
              if s.is_one value
              then (ok tt, insert_box b marked)
              else if s.is_zero value
              then (ok tt, marked)
              else (raise not_representable, marked)
        ]
