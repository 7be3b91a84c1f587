-- ===== src/Verify/InterfaceRuns.antt =====
-- src/openlithohub/verify/interface_runs.py: binary rasters as runs of rows, and the runs far from a point.
-- Centres are pixels of the raster. `center_x - halo_px` stops at 0: no run begins below either.
pub mod Encode
pub mod Split
use open_litho_hub.Base.{
  ℕ, zero, suc, ◌+◌, ◌-◌, ◌*◌, min, max, Bool, true, false, ◌||◌, Option, none, some, List, [], ◌∷◌,
  ◌++◌, Outcome, ok, raise, ◌>>=◌, ◌>>◌, require, ltb, leb, not, if◌then◌else◌, sum_by, length,
}
use open_litho_hub.Base.Int.{ℤ, pos, pos_part, neg_part, ltb_ℤ}
use open_litho_hub.Streaming.OwnedRuns.{HorizontalRun}

pub data RunError : Type 0 where
  invalid_run negative_halo_px : RunError

-- HorizontalRun(...), with its __post_init__
unfoldable pub horizontal_run : (y x0 x1 : ℕ) → Outcome RunError HorizontalRun
horizontal_run y x0 x1 =
    if leb x1 x0 then raise invalid_run else ok (record { y = y; x0 = x0; x1 = x1 })

abbrev pub run_length : HorizontalRun → ℕ
run_length r = r.x1 - r.x0

-- The loops over x on one row, with `n` columns left: `start` is the x0 of the run that is being read,
-- `none` while the columns are background.
unfoldable pub scan_row :
    (binary : ℕ → Bool) (y n x : ℕ) (start : Option ℕ) → Outcome RunError (List HorizontalRun)
unfolding horizontal_run
scan_row binary y zero x none = ok []
scan_row binary y zero x (some x0) = do run ← horizontal_run y x0 x; ok (run ∷ [])
scan_row binary y (suc n) x none = scan_row binary y n (x + 1) (if binary x then some x else none)
scan_row binary y (suc n) x (some x0) =
    let rest = scan_row binary y n (x + 1) (if binary x then some x0 else none) in
    if binary x then rest else (do run ← horizontal_run y x0 x; runs ← rest; ok (run ∷ runs))

-- The loop over the rows, with `n` rows left.
unfoldable pub scan_rows :
    (binary : (y x : ℕ) → Bool) (w n y : ℕ) → Outcome RunError (List HorizontalRun)
unfolding scan_row
scan_rows binary w zero y = ok []
scan_rows binary w (suc n) y = do
  row ← scan_row (binary y) y w 0 none
  rows ← scan_rows binary w n (y + 1)
  ok (row ++ rows)

-- `binary` is the test `mask != 0` on a mask of shape (h, w).
unfoldable pub encode_binary_row_runs :
    (h w : ℕ) (binary : (y x : ℕ) → Bool) → Outcome RunError (List HorizontalRun)
unfolding scan_rows
encode_binary_row_runs h w binary = scan_rows binary w h 0

pub record RunCompressionStats : Type 0 where
  pub occupied_pixels : ℕ
  pub horizontal_runs : ℕ

unfoldable pub run_compression_stats : List HorizontalRun → RunCompressionStats
run_compression_stats runs = record {
  occupied_pixels = sum_by run_length runs;
  horizontal_runs = length runs;
}

unfoldable pub zero_padded_horizontal_variation : List HorizontalRun → ℕ
zero_padded_horizontal_variation runs = 2 * length runs

-- abs(a - b)
abbrev pub distance : (a b : ℕ) → ℕ
distance a b = (a - b) + (b - a)

-- `if x0 < x1: out.append(HorizontalRun(y, x0, x1))`
abbrev pub keep_part : (y x0 x1 : ℕ) → Outcome RunError (List HorizontalRun)
keep_part y x0 x1 = if ltb x0 x1 then (do run ← horizontal_run y x0 x1; ok (run ∷ [])) else ok []

-- One turn of the loop.
unfoldable pub split_run :
    (center_y center_x halo : ℕ) → HorizontalRun → Outcome RunError (List HorizontalRun)
unfolding horizontal_run
split_run cy cx halo run = if ltb halo (distance run.y cy) then ok (run ∷ []) else (do
  left ← keep_part run.y run.x0 (min run.x1 (cx - halo))
  right ← keep_part run.y (max run.x0 (cx + halo + 1)) run.x1
  ok (left ++ right))

unfoldable pub split_runs :
    (center_y center_x halo : ℕ) → List HorizontalRun → Outcome RunError (List HorizontalRun)
unfolding split_run
split_runs cy cx halo [] = ok []
split_runs cy cx halo (run ∷ runs) = do
  parts ← split_run cy cx halo run
  rest ← split_runs cy cx halo runs
  ok (parts ++ rest)

unfoldable pub split_runs_outside_chebyshev :
    List HorizontalRun
    → (center_y center_x : ℕ) (halo_px : ℤ) → Outcome RunError (List HorizontalRun)
unfolding split_runs
split_runs_outside_chebyshev runs cy cx halo_px = do
  require (not (ltb_ℤ halo_px (pos 0))) negative_halo_px
  split_runs cy cx (pos_part halo_px) runs
