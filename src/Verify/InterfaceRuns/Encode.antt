-- ===== src/Verify/InterfaceRuns/Encode.antt =====
-- encode_binary_row_runs: the runs of a mask have its foreground, each pixel once.
use open_litho_hub.Base.{
  ℕ, zero, suc, ◌+◌, ◌<◌, ◌≡◌, ◌∙◌, refl, ap, Bool, true, false, ◌&&◌, ◌||◌, Option, none, some,
  List, [], ◌∷◌, ◌++◌, ok, ◌==◌, tally, arith, Bool-cases, inl, inr, count_by-append, ==_iff,
}
use open_litho_hub.Streaming.Geometry.Pixels.{in_span}
use open_litho_hub.Streaming.OwnedRuns.{HorizontalRun}
use open_litho_hub.Verify.InterfaceRuns.{
  horizontal_run, scan_row, scan_rows, encode_binary_row_runs,
}
use open_litho_hub.Verify.InterfaceRuns.Split.{has_point, run_points}

horizontal_run-ok :
    (y x0 x1 : ℕ) → x0 < x1 → horizontal_run y x0 x1 ≡ ok (record { y = y; x0 = x0; x1 = x1 })
unfolding horizontal_run
horizontal_run-ok y x0 x1 h = ground arith

-- The columns of the run that is being read.
abbrev in_open_run : (start : Option ℕ) (x px : ℕ) → Bool
in_open_run none x px = false
in_open_run (some x0) x px = in_span x0 x px

-- The run that is being read began to the left.
abbrev IsBegun : (start : Option ℕ) (x : ℕ) → Type 0
IsBegun none x = Unit
IsBegun (some x0) x = x0 < x

-- One column of the scan: a run begins, the background goes on, a run goes on, a run ends.
begin_run :
    (n x px : ℕ) (fx : Bool)
    → ((x == px) ≡ true → fx ≡ true)
    → (in_span x (x + 1) px || (in_span (x + 1) (x + 1 + n) px && fx))
      ≡ (in_span x (x + suc n) px && fx)
begin_run n x px fx here = elim (Bool-cases (x == px)) [
  | inl t ↦ let h = here t in ground (arith, h)
  | inr f ↦ ground (arith, f)
]

skip_column :
    (n x px : ℕ) (fx : Bool)
    → ((x == px) ≡ true → fx ≡ false)
    → (in_span (x + 1) (x + 1 + n) px && fx) ≡ (in_span x (x + suc n) px && fx)
skip_column n x px fx here = elim (Bool-cases (x == px)) [
  | inl t ↦ let h = here t in ground (arith, h)
  | inr f ↦ ground (arith, f)
]

extend_run :
    (n x0 x px : ℕ) (fx : Bool)
    → x0 < x
    → ((x == px) ≡ true → fx ≡ true)
    → (in_span x0 (x + 1) px || (in_span (x + 1) (x + 1 + n) px && fx))
      ≡ (in_span x0 x px || (in_span x (x + suc n) px && fx))
extend_run n x0 x px fx h here = elim (Bool-cases (x == px)) [
  | inl t ↦ let k = here t in ground (arith, k)
  | inr f ↦ ground (arith, f)
]

end_run :
    (n x0 x px : ℕ) (fx row : Bool)
    → x0 < x
    → ((x == px) ≡ true → fx ≡ false)
    → tally (in_span x0 x px && row) + tally ((in_span (x + 1) (x + 1 + n) px && fx) && row)
      ≡ tally ((in_span x0 x px || (in_span x (x + suc n) px && fx)) && row)
end_run n x0 x px fx row h here = elim (Bool-cases (x == px)) [
  | inl t ↦ let k = here t in ground (arith, k)
  | inr f ↦ ground (arith, f)
]

module _ (binary : ℕ → Bool) (y : ℕ) where
  binary_here : (x px : ℕ) (v : Bool) → binary x ≡ v → (x == px) ≡ true → binary px ≡ v
  binary_here x px v h e = rw (← (==_iff x px).0 e) h

  scan_row-points :
      (n x : ℕ) (start : Option ℕ)
      → IsBegun start x
      → (runs : List HorizontalRun) × (scan_row binary y n x start ≡ ok runs)
        × ((px py : ℕ)
            → run_points runs px py
              ≡ tally
                  ((in_open_run start x px || (in_span x (x + n) px && binary px)) && (y == py)))
  unfolding scan_row
  scan_row-points zero x none h = ([], refl, λ px py. ground arith)
  scan_row-points zero x (some x0) h = (
    record { y = y; x0 = x0; x1 = x } ∷ [],
    rw (horizontal_run-ok y x0 x h) refl,
    λ px py. ground arith,
  )
  scan_row-points (suc n) x none h = elim (Bool-cases (binary x)) [
    | inl t ↦
        let (runs, e, p) = scan_row-points n (x + 1) (some x) (omega arith) in
        (
          runs,
          rw t e,
          λ px py.
              p px py
              ∙ ap (λ b. tally (b && (y == py)))
                  (begin_run n x px (binary px) (binary_here x px true t)),
        )
    | inr f ↦
        let (runs, e, p) = scan_row-points n (x + 1) none tt in
        (
          runs,
          rw f e,
          λ px py.
              p px py
              ∙ ap (λ b. tally (b && (y == py)))
                  (skip_column n x px (binary px) (binary_here x px false f)),
        )
  ]
  scan_row-points (suc n) x (some x0) h = elim (Bool-cases (binary x)) [
    | inl t ↦
        let (runs, e, p) = scan_row-points n (x + 1) (some x0) (omega arith) in
        (
          runs,
          rw t e,
          λ px py.
              p px py
              ∙ ap (λ b. tally (b && (y == py)))
                  (extend_run n x0 x px (binary px) h (binary_here x px true t)),
        )
    | inr f ↦
        let (runs, e, p) = scan_row-points n (x + 1) none tt in
        (
          record { y = y; x0 = x0; x1 = x } ∷ runs,
          rw (f, horizontal_run-ok y x0 x h, e) refl,
          λ px py.
              rw (p px py) (end_run n x0 x px (binary px) (y == py) h (binary_here x px false f)),
        )
  ]

zero_add : (n : ℕ) → 0 + n ≡ n
zero_add n = omega arith

row_or_later :
    (n y py : ℕ) (in_w here there : Bool)
    → ((y == py) ≡ true → here ≡ there)
    → tally ((in_w && here) && (y == py))
        + tally (in_span (y + 1) (y + 1 + n) py && (in_w && there))
      ≡ tally (in_span y (y + suc n) py && (in_w && there))
row_or_later n y py in_w here there same = elim (Bool-cases (y == py)) [
  | inl t ↦ let e = same t in ground (arith, e)
  | inr f ↦ ground (arith, f)
]

scan_rows-points :
    (binary : (y x : ℕ) → Bool) (w n y : ℕ)
    → (runs : List HorizontalRun) × (scan_rows binary w n y ≡ ok runs)
      × ((px py : ℕ)
          → run_points runs px py
            ≡ tally (in_span y (y + n) py && (in_span 0 w px && binary py px)))
unfolding scan_rows
scan_rows-points binary w zero y = ([], refl, λ px py. ground arith)
scan_rows-points binary w (suc n) y =
    let (row, e, p) = scan_row-points (binary y) y w 0 none tt in
    let (rows, er, pr) = scan_rows-points binary w n (y + 1) in
    (
      row ++ rows,
      rw (e, er) refl,
      λ px py.
          count_by-append (λ r. has_point r px py) row rows
          ∙ rw (p px py, pr px py, zero_add w)
              (row_or_later n y py (in_span 0 w px) (binary y px) (binary py px)
                (λ here. ap (λ k. binary k px) ((==_iff y py).0 here))),
    )

-- For every mask the encoding returns runs that have each foreground pixel of the mask once and no other
-- pixel.
pub encode_binary_row_runs-points :
    (h w : ℕ) (binary : (y x : ℕ) → Bool)
    → (runs : List HorizontalRun) × (encode_binary_row_runs h w binary ≡ ok runs)
      × ((px py : ℕ)
          → run_points runs px py ≡ tally (in_span 0 h py && (in_span 0 w px && binary py px)))
unfolding encode_binary_row_runs
encode_binary_row_runs-points h w binary =
    let (runs, e, p) = scan_rows-points binary w h 0 in (runs, e, rw (zero_add h) at p)
