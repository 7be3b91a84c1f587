-- ===== src/Streaming/Manhattan/Runs.antt =====
-- _row_runs: the runs of a row own its foreground once, and no run comes twice.
use open_litho_hub.Base.{
  ℕ, zero, suc, ◌+◌, ◌≤◌, ◌<◌, ◌≡◌, ◌∙◌, refl, Bool, true, false, ◌&&◌, ◌||◌, List, [], ◌∷◌, ◌==◌,
  tally, arith, Bool-cases, ==_iff, inl, inr,
}
use open_litho_hub.Base.Dict.{mem}
use open_litho_hub.Streaming.Geometry.Pixels.{in_span}
use open_litho_hub.Streaming.Ownership.Ledger.{Distinct}
use open_litho_hub.Streaming.Manhattan.{Run, run_eq, flatnonzero, runs_from, row_runs}

-- How many of the runs have the column.
abbrev pub run_count : List Run → (x : ℕ) → ℕ
run_count [] x = 0
run_count ((a, b) ∷ runs) x = tally (in_span a b x) + run_count runs x

-- The foreground from column `i` on, of `n` columns.
abbrev pub in_row : (foreground : ℕ → Bool) (n i x : ℕ) → Bool
in_row foreground n i x = in_span i (i + n) x && foreground x

extend_run :
    (start i n x : ℕ) (fx : Bool)
    → start ≤ i
    → ((i == x) ≡ true → fx ≡ true)
    → tally (in_span start (i + 1) x) + tally (in_span (i + 1) (i + 1 + n) x && fx)
      ≡ tally (in_span start i x) + tally (in_span i (i + suc n) x && fx)
extend_run start i n x fx h here = ground (arith, here)

skip_column :
    (i n x : ℕ) (fx : Bool)
    → ((i == x) ≡ true → fx ≡ false)
    → (in_span (i + 1) (i + 1 + n) x && fx) ≡ (in_span i (i + suc n) x && fx)
skip_column i n x fx here = ground (arith, here)

empty_span : (i x : ℕ) → tally (in_span i i x) ≡ 0
empty_span i x = ground arith

module _ (foreground : ℕ → Bool) where
  here_true : (i x : ℕ) → foreground i ≡ true → (i == x) ≡ true → foreground x ≡ true
  here_true i x h e = rw (← (==_iff i x).0 e) h

  here_false : (i x : ℕ) → foreground i ≡ false → (i == x) ≡ true → foreground x ≡ false
  here_false i x h e = rw (← (==_iff i x).0 e) h

  runs_from-count :
      (n i start prev x : ℕ)
      → start ≤ prev
      → prev < i
      → run_count (runs_from start prev (flatnonzero foreground n i)) x
        ≡ tally (in_span start (prev + 1) x) + tally (in_row foreground n i x)
  unfolding runs_from flatnonzero
  runs_from-count zero i start prev x h k = ground arith
  runs_from-count (suc n) i start prev x h k = elim (Bool-cases (foreground i)) [
    | inr f ↦
        rw (f, ← skip_column i n x (foreground x) (here_false i x f))
          (runs_from-count n (i + 1) start prev x h (omega arith))
    | inl t ↦
        let extend = λ (first : ℕ) (le : first ≤ i).
          extend_run first i n x (foreground x) le (here_true i x t) in
        elim (Bool-cases (i == prev + 1)) [
          | inl joined ↦
              let same : i ≡ prev + 1 = ground arith in
              rw (t, joined, ← same)
                (runs_from-count n (i + 1) start i x (omega arith) (omega arith)
                  ∙ extend start (omega arith))
          | inr apart ↦
              rw (t, apart)
                (omega (
                  arith,
                  runs_from-count n (i + 1) i i x (omega arith) (omega arith),
                  extend i (omega arith),
                  empty_span i x,
                ))
        ]
  ]

  -- The runs of a row have each foreground column once, and no other column.
  pub row_runs-count :
      (n i x : ℕ)
      → run_count (row_runs (flatnonzero foreground n i)) x ≡ tally (in_row foreground n i x)
  unfolding row_runs flatnonzero
  row_runs-count zero i x = ground arith
  row_runs-count (suc n) i x = elim (Bool-cases (foreground i)) [
    | inr f ↦
        rw (f, ← skip_column i n x (foreground x) (here_false i x f)) (row_runs-count n (i + 1) x)
    | inl t ↦ rw t (
        omega (
          arith,
          runs_from-count n (i + 1) i i x (omega arith) (omega arith),
          extend_run i i n x (foreground x) (omega arith) (here_true i x t),
          empty_span i x,
        ))
  ]

  -- Every run starts at the first or behind the last column that is in a run already.
  runs_from-start :
      (n i start prev a b : ℕ)
      → start < i
      → mem (a, b) (runs_from start prev (flatnonzero foreground n i)) ≡ true
      → start ≤ a
  unfolding runs_from flatnonzero mem
  runs_from-start zero i start prev a b h found = ground (arith, found)
  runs_from-start (suc n) i start prev a b h found = elim (Bool-cases (foreground i)) [
    | inr f ↦ runs_from-start n (i + 1) start prev a b (omega arith) (rw f at found)
    | inl t ↦ elim (Bool-cases (i == prev + 1)) [
      | inl joined ↦ runs_from-start n (i + 1) start i a b (omega arith) (rw (t, joined) at found)
      | inr apart ↦
          let rest = runs_from i i (flatnonzero foreground n (i + 1)) in
          let either : (((start == a) && (prev + 1 == b)) || mem (a, b) rest) ≡ true =
            rw (t, apart) at found in
          elim (Bool-cases (mem (a, b) rest)) [
            | inl later ↦
                let bound = runs_from-start n (i + 1) i i a b (omega arith) later in omega arith
            | inr new ↦ ground arith
          ]
    ]
  ]

  fresh_run :
      (n i start prev : ℕ)
      → start < i
      → mem (start, prev + 1) (runs_from i i (flatnonzero foreground n (i + 1))) ≡ false
  fresh_run n i start prev h =
      let rest = runs_from i i (flatnonzero foreground n (i + 1)) in
      elim (Bool-cases (mem (start, prev + 1) rest)) [
        | inl found ↦
            let bound = runs_from-start n (i + 1) i i start (prev + 1) (omega arith) found in
            absurd (omega arith)
        | inr f ↦ f
      ]

  runs_from-Distinct :
      (n i start prev : ℕ)
      → start < i
      → Distinct (runs_from start prev (flatnonzero foreground n i))
  unfolding runs_from flatnonzero
  runs_from-Distinct zero i start prev h = (unfold mem in refl, tt)
  runs_from-Distinct (suc n) i start prev h = elim (Bool-cases (foreground i)) [
    | inr f ↦ rw f (runs_from-Distinct n (i + 1) start prev (omega arith))
    | inl t ↦ elim (Bool-cases (i == prev + 1)) [
      | inl joined ↦ rw (t, joined) (runs_from-Distinct n (i + 1) start i (omega arith))
      | inr apart ↦
          rw (t, apart) (fresh_run n i start prev h, runs_from-Distinct n (i + 1) i i (omega arith))
    ]
  ]

  pub row_runs-Distinct : (n i : ℕ) → Distinct (row_runs (flatnonzero foreground n i))
  unfolding row_runs flatnonzero
  row_runs-Distinct zero i = tt
  row_runs-Distinct (suc n) i = elim (Bool-cases (foreground i)) [
    | inr f ↦ rw f (row_runs-Distinct n (i + 1))
    | inl t ↦ rw t (runs_from-Distinct n (i + 1) i i (omega arith))
  ]
