-- ===== src/Streaming/Manhattan/Owners.antt =====
-- write_core of the Manhattan sink: the loop over the rows, and the boxes of a core.
use open_litho_hub.Base.{
  ℕ, zero, suc, ◌+◌, ◌-◌, ◌≤◌, ◌≡◌, ◌∙◌, sym, ap, subst, Bool, true, not, ◌&&◌, List, [], ◌∷◌, ◌++◌,
  leb, ◌==◌, if◌then◌else◌, tally, arith, Bool-cases, inl, inr, sum_by, ==_iff,
}
use open_litho_hub.Base.Keys.{HasKeys}
use open_litho_hub.Streaming.Geometry.{BoundingBox}
use open_litho_hub.Streaming.Geometry.Pixels.{in_span, owners, owners-append}
use open_litho_hub.Streaming.Ownership.Ledger.{Distinct}
use open_litho_hub.Streaming.Sinks.{Entry, Tensor}
use open_litho_hub.Streaming.Manhattan.{
  Run, run_eq, OpenRuns, close_runs, open_new, merge_rows, flush_runs, core_runs, core_boxes,
}
use open_litho_hub.Streaming.Manhattan.Runs.{run_count, row_runs-count, row_runs-Distinct}
use open_litho_hub.Streaming.Manhattan.OpenRuns.{
  sum_keys, sum_keys-members, close_runs-has_key, close_runs-HasKeys, open_new-has_key,
  open_new-HasKeys,
}
use open_litho_hub.Streaming.Manhattan.Boxes.{
  span, StartBy, close_runs-owners, flush_runs-next, open_new-owners, open_new-StartBy,
  close_runs-StartBy, next-StartBy,
}

-- How often the runs of row `y` have the column `x` of the layout.
abbrev row_owners : (runs_of : ℕ → List Run) (x0 x y : ℕ) → ℕ
row_owners runs_of x0 x y = sum_by (span x0 x) (runs_of y)

-- The rows from y0 to y are done: boxes and open boxes own each of their pixels as often as its row's runs.
record IsMerged (runs_of : ℕ → List Run) (x0 y0 y : ℕ) (inserted : List BoundingBox)
    (open_runs : OpenRuns) : Type 0 where
  keys : HasKeys open_runs
  begun : StartBy y open_runs
  owned :
      (px py : ℕ)
      → owners inserted px py + owners (flush_runs x0 y open_runs) px py
        ≡ (if in_span y0 y py then row_owners runs_of x0 px py else 0)

row_more :
    (y0 y py total row now next : ℕ)
    → y0 ≤ y
    → now ≡ (if in_span y0 y py then row else 0)
    → next ≡ now + (if py == y then total else 0)
    → ((py == y) ≡ true → total ≡ row)
    → next ≡ (if in_span y0 (y + 1) py then row else 0)
row_more y0 y py total row now next h p q same = elim (Bool-cases (py == y)) [
  | inl t ↦ let e = same t in ground (arith, p, q, e, t)
  | inr f ↦ ground (arith, p, q, f)
]

module _ (runs_of : ℕ → List Run) (distinct : (y : ℕ) → Distinct (runs_of y)) (x0 y0 : ℕ) where
  -- The keys of the open boxes after row `y` are the runs of row `y`.
  open_keys :
      (y : ℕ) (open_runs : OpenRuns)
      → HasKeys open_runs
      → (x : ℕ)
      → let kept = (close_runs x0 y (runs_of y) open_runs).1 in
        sum_keys (span x0 x) (open_new y (runs_of y) kept) ≡ row_owners runs_of x0 x y
  open_keys y open_runs keys x =
      let runs = runs_of y in
      let kept = (close_runs x0 y runs open_runs).1 in
      sum_keys-members (span x0 x) runs (open_new y runs kept)
        (open_new-HasKeys y runs kept (close_runs-HasKeys x0 y runs open_runs keys)) (distinct y)
        (λ k.
          ground (arith, open_new-has_key y runs kept k, close_runs-has_key x0 y runs open_runs k))

  merge_row :
      (y : ℕ) (inserted : List BoundingBox) (open_runs : OpenRuns)
      → y0 ≤ y
      → IsMerged runs_of x0 y0 y inserted open_runs
      → let (boxes, kept) = close_runs x0 y (runs_of y) open_runs in
        IsMerged runs_of x0 y0 (y + 1) (inserted ++ boxes) (open_new y (runs_of y) kept)
  merge_row y inserted open_runs h before =
      let runs = runs_of y in
      let boxes = (close_runs x0 y runs open_runs).0 in
      let kept = (close_runs x0 y runs open_runs).1 in
      let opened = open_new y runs kept in
      let begun =
        open_new-StartBy y runs kept (close_runs-StartBy x0 y runs open_runs before.begun) in
      record {
        keys = open_new-HasKeys y runs kept (close_runs-HasKeys x0 y runs open_runs before.keys);
        begun = next-StartBy y opened begun;
        owned = λ px py.
            let split = close_runs-owners x0 px py y runs open_runs in
            let fresh = open_new-owners x0 px py y runs kept in
            let next = flush_runs-next x0 px py y opened begun in
            let joined = owners-append inserted boxes px py in
            row_more y0 y py (sum_keys (span x0 px) opened) (row_owners runs_of x0 px py)
              (owners inserted px py + owners (flush_runs x0 y open_runs) px py)
              (owners (inserted ++ boxes) px py + owners (flush_runs x0 (y + 1) opened) px py) h
              (before.owned px py) (omega (arith, split, fresh, next, joined))
              (λ here.
                open_keys y open_runs before.keys px
                ∙ ap (λ row. row_owners runs_of x0 px row) (sym ((==_iff py y).0 here)));
      }

  merge_rows-IsMerged :
      (n y : ℕ) (inserted : List BoundingBox) (open_runs : OpenRuns)
      → y0 ≤ y
      → IsMerged runs_of x0 y0 y inserted open_runs
      → let (boxes, kept) = merge_rows runs_of x0 n y open_runs inserted in
        IsMerged runs_of x0 y0 (y + n) boxes kept
  unfolding merge_rows
  merge_rows-IsMerged zero y inserted open_runs h before =
      let e : y ≡ y + 0 = omega arith in
      subst (λ end. IsMerged runs_of x0 y0 end inserted open_runs) e before
  merge_rows-IsMerged (suc n) y inserted open_runs h before =
      let runs = runs_of y in
      let boxes = (close_runs x0 y runs open_runs).0 in
      let kept = (close_runs x0 y runs open_runs).1 in
      let e : y + 1 + n ≡ y + suc n = omega arith in
      let after =
        merge_rows-IsMerged n (y + 1) (inserted ++ boxes) (open_new y runs kept) (omega arith)
          (merge_row y inserted open_runs h before) in
      subst
        (λ end.
          let (all, left) =
            merge_rows runs_of x0 n (y + 1) (open_new y runs kept) (inserted ++ boxes) in
          IsMerged runs_of x0 y0 end all left)
        e after

  IsMerged-from_start : IsMerged runs_of x0 y0 y0 [] []
  IsMerged-from_start = record {
    keys = tt;
    begun = tt;
    owned = λ px py. unfold flush_runs in ground arith;
  }

shift_count :
    (x0 x : ℕ) (runs : List Run)
    → sum_by (span x0 x) runs ≡ (if leb x0 x then run_count runs (x - x0) else 0)
shift_count x0 x [] = ground arith
shift_count x0 x ((a, b) ∷ runs) = ground (arith, shift_count x0 x runs)

module _ {F : Type 0} ⦃s : Entry F⦄ where
  -- The pixel (x, y) of the layout is foreground in the core.
  abbrev pub is_foreground : BoundingBox → Tensor F → (x y : ℕ) → Bool
  is_foreground b t x y = not (s.is_zero (t.at (y - b.y0) (x - b.x0)))

  core_runs-Distinct : (b : BoundingBox) (t : Tensor F) (y : ℕ) → Distinct (core_runs b t y)
  unfolding core_runs
  core_runs-Distinct b t y =
      row_runs-Distinct (λ col. not (s.is_zero (t.at (y - b.y0) col))) t.cols 0

  core_runs-owners :
      (b : BoundingBox) (t : Tensor F) (x y : ℕ)
      → sum_by (span b.x0 x) (core_runs b t y)
        ≡ tally (in_span b.x0 (b.x0 + t.cols) x && is_foreground b t x y)
  unfolding core_runs
  core_runs-owners b t x y =
      shift_count b.x0 x (core_runs b t y)
      ∙ ground
          (arith, row_runs-count (λ col. not (s.is_zero (t.at (y - b.y0) col))) t.cols 0 (x - b.x0))

  -- The boxes of a core own each foreground pixel of the core once, and no other pixel.
  pub core_boxes-owners :
      (b : BoundingBox) (t : Tensor F) (x y : ℕ)
      → owners (core_boxes b t) x y
        ≡ tally (
            in_span b.x0 (b.x0 + t.cols) x
            && in_span b.y0 (b.y0 + t.rows) y
            && is_foreground b t x y)
  unfolding core_boxes
  core_boxes-owners b t x y =
      let runs_of = core_runs b t in
      let merged =
        merge_rows-IsMerged runs_of (core_runs-Distinct b t) b.x0 b.y0 t.rows b.y0 [] []
          (omega arith) (IsMerged-from_start runs_of (core_runs-Distinct b t) b.x0 b.y0) in
      let all = merge_rows runs_of b.x0 t.rows b.y0 [] [] in
      owners-append all.0 (flush_runs b.x0 (b.y0 + t.rows) all.1) x y
      ∙ merged.owned x y
      ∙ rw (core_runs-owners b t x y) (ground arith)
