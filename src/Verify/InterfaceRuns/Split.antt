-- ===== src/Verify/InterfaceRuns/Split.antt =====
-- split_runs_outside_chebyshev: exactly the pixels outside the square around the centre are left.
use open_litho_hub.Base.{
  ℕ, ◌+◌, ◌-◌, ◌≡◌, ◌∙◌, refl, min, max, Bool, true, false, ◌&&◌, ◌||◌, List, [], ◌∷◌, ◌++◌, ok,
  ltb, leb, ◌==◌, if◌then◌else◌, tally, arith, Bool-cases, inl, inr, count_by, count_by-append,
  ==_iff,
}
use open_litho_hub.Base.Int.{pos}
use open_litho_hub.Streaming.Geometry.Pixels.{in_span}
use open_litho_hub.Streaming.OwnedRuns.{HorizontalRun}
use open_litho_hub.Verify.InterfaceRuns.{
  horizontal_run, distance, keep_part, split_run, split_runs, split_runs_outside_chebyshev,
}

-- How many of the runs have the pixel.
abbrev pub has_point : HorizontalRun → (x y : ℕ) → Bool
has_point r x y = in_span r.x0 r.x1 x && (r.y == y)

abbrev pub run_points : List HorizontalRun → (x y : ℕ) → ℕ
run_points runs x y = count_by (λ r. has_point r x y) runs

-- The pixel is further than `halo` from the centre, on one of the axes.
abbrev pub is_far : (cy cx halo x y : ℕ) → Bool
is_far cy cx halo x y = ltb halo (distance y cy) || ltb halo (distance x cx)

keep_part-points :
    (row x0 x1 : ℕ)
    → (kept : List HorizontalRun) × (keep_part row x0 x1 ≡ ok kept)
      × ((x y : ℕ) → run_points kept x y ≡ tally (in_span x0 x1 x && (row == y)))
unfolding horizontal_run
keep_part-points row x0 x1 = elim (Bool-cases (ltb x0 x1)) [
  | inl t ↦ (record { y = row; x0 = x0; x1 = x1 } ∷ [], ground (arith, t), λ x y. ground arith)
  | inr f ↦ ([], rw f refl, λ x y. ground (arith, f))
]

-- A column is far exactly if it is left or right of the square.
far_column : (c halo x : ℕ) → ltb halo (distance x c) ≡ (ltb x (c - halo) || leb (c + halo + 1) x)
far_column c halo x = ground arith

left_part : (a b e x : ℕ) → in_span a (min b e) x ≡ (in_span a b x && ltb x e)
left_part a b e x = ground arith

right_part : (a b e x : ℕ) → in_span (max a e) b x ≡ (in_span a b x && leb e x)
right_part a b e x = ground arith

one_side : (c halo x : ℕ) → (ltb x (c - halo) && leb (c + halo + 1) x) ≡ false
one_side c halo x = ground arith

parts_add :
    (inside row left right : Bool)
    → (left && right) ≡ false
    → tally ((inside && left) && row) + tally ((inside && right) && row)
      ≡ (if left || right then tally (inside && row) else 0)
parts_add inside row left right apart = ground (arith, apart)

-- Of a run in a near row the columns left and right of the square are left.
near_row :
    (a b cy cx halo row x y : ℕ)
    → ltb halo (distance row cy) ≡ false
    → tally (in_span a (min b (cx - halo)) x && (row == y))
        + tally (in_span (max a (cx + halo + 1)) b x && (row == y))
      ≡ (if is_far cy cx halo x y then tally (in_span a b x && (row == y)) else 0)
near_row a b cy cx halo row x y near =
    let parts =
      parts_add (in_span a b x) (row == y) (ltb x (cx - halo)) (leb (cx + halo + 1) x)
        (one_side cx halo x) in
    rw (left_part a b (cx - halo) x, right_part a b (cx + halo + 1) x)
      (parts
        ∙ same_row (row == y) (ltb x (cx - halo) || leb (cx + halo + 1) x)
            (ltb halo (distance y cy)) (ltb halo (distance x cx)) (in_span a b x)
            (far_column cx halo x) (λ here. rw (← (==_iff row y).0 here) near))
  where
    same_row :
        (here side far_y far_x inside : Bool)
        → far_x ≡ side
        → (here ≡ true → far_y ≡ false)
        → (if side then tally (inside && here) else 0)
          ≡ (if far_y || far_x then tally (inside && here) else 0)
    same_row here side far_y far_x inside e h = elim (Bool-cases here) [
      | inl t ↦ let f = h t in ground (arith, e, f)
      | inr f ↦ ground (arith, e, f)
    ]

far_row :
    (inside row far_y far_x : Bool)
    → (row ≡ true → far_y ≡ true)
    → tally (inside && row) + 0 ≡ (if far_y || far_x then tally (inside && row) else 0)
far_row inside row far_y far_x h = elim (Bool-cases row) [
  | inl t ↦ let f = h t in ground (arith, f)
  | inr f ↦ ground (arith, f)
]

module _ (cy cx halo : ℕ) where
  split_run-points :
      (run : HorizontalRun)
      → (parts : List HorizontalRun) × (split_run cy cx halo run ≡ ok parts)
        × ((x y : ℕ)
            → run_points parts x y
              ≡ (if is_far cy cx halo x y then tally (has_point run x y) else 0))
  unfolding split_run
  split_run-points run = elim (Bool-cases (ltb halo (distance run.y cy))) [
    | inl far ↦ (
      run ∷ [],
      rw far refl,
      λ x y.
          far_row (in_span run.x0 run.x1 x) (run.y == y) (ltb halo (distance y cy))
            (ltb halo (distance x cx)) (λ here. rw (← (==_iff run.y y).0 here) far),
    )
    | inr near ↦
        let (left, el, pl) = keep_part-points run.y run.x0 (min run.x1 (cx - halo)) in
        let (right, er, pr) = keep_part-points run.y (max run.x0 (cx + halo + 1)) run.x1 in
        (
          left ++ right,
          rw (near, el, er) refl,
          λ x y.
              count_by-append (λ r. has_point r x y) left right
              ∙ rw (pl x y, pr x y) (near_row run.x0 run.x1 cy cx halo run.y x y near),
        )
  ]

  split_runs-points :
      (runs : List HorizontalRun)
      → (parts : List HorizontalRun) × (split_runs cy cx halo runs ≡ ok parts)
        × ((x y : ℕ)
            → run_points parts x y ≡ (if is_far cy cx halo x y then run_points runs x y else 0))
  unfolding split_runs
  split_runs-points [] = ([], refl, λ x y. ground arith)
  split_runs-points (run ∷ runs) =
      let (parts, e, p) = split_run-points run in
      let (rest, er, pr) = split_runs-points runs in
      (
        parts ++ rest,
        rw (e, er) refl,
        λ x y.
            count_by-append (λ r. has_point r x y) parts rest
            ∙ rw (p x y, pr x y)
                (sum_far (is_far cy cx halo x y) (tally (has_point run x y)) (run_points runs x y)),
      )
    where
      sum_far :
          (far : Bool) (a b : ℕ)
          → (if far then a else 0) + (if far then b else 0) ≡ (if far then a + b else 0)
      sum_far far a b = ground arith

-- For every list of runs, centre and halo that is not negative the split returns runs that have each
-- pixel outside the square of the halo around the centre as often as the given runs, and no pixel of
-- the square.
pub split_runs_outside_chebyshev-points :
    (runs : List HorizontalRun) (cy cx halo : ℕ)
    → (parts : List HorizontalRun) × (split_runs_outside_chebyshev runs cy cx (pos halo) ≡ ok parts)
      × ((x y : ℕ)
          → run_points parts x y ≡ (if is_far cy cx halo x y then run_points runs x y else 0))
unfolding split_runs_outside_chebyshev
split_runs_outside_chebyshev-points runs cy cx halo =
    let (parts, e, p) = split_runs-points cy cx halo runs in (parts, ground (arith, e), p)
