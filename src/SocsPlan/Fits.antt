-- ===== src/SocsPlan/Fits.antt =====
-- plan_socs_decomposition on a CUDA device: the decision, and the largest chunk.
use open_litho_hub.Base.{
  ℕ, zero, suc, ◌+◌, ◌-◌, ◌*◌, ◌/◌, ◌≤◌, ◌<◌, ◌≡◌, ◌⊎◌, refl, inl, inr, min, Bool, true, false,
  Option, String, ltb, arith, Bool-cases,
}
use open_litho_hub.Base.Int.{ℤ, pos, ◌≤ℤ◌, ltb_ℤ}
use open_litho_hub.SocsPlan.{
  Problem, DeviceMemoryFacts, SocsMemoryPlan, common, fixed_eig, fixed_fft, aligned_columns,
  is_cuda, select_chunk, check_fixed_phases, phase_new_peak, phases_of, budget_of, decide, chunks,
  plan_body, plan_socs_decomposition,
}
use open_litho_hub.SocsPlan.Chunks.{
  IsLegalChunk, aligned_columns-IsLegalChunk, aligned_columns-aligned, aligned_columns-le,
}

-- The phases whose peak is the same at every chunk fit the budget.
pub record FixedPhasesFit (budget : ℤ) (p : Problem) : Type 0 where
  pub eig_fits : pos (common p + fixed_eig p) ≤ℤ budget
  pub fft_fits : pos (common p + fixed_fft p) ≤ℤ budget

-- What a plan promises: a feasible plan has the largest legal chunk and phases that fit, and an
-- infeasible one selects nothing and has no legal chunk or a phase that fits at no chunk.
pub record IsCapacityOptimal (budget : ℤ) (p : Problem) (feasible : Bool) (selected : ℕ)
    : Type 0 where
  pub chosen :
      feasible ≡ true
      → (p.n_freq ≡ 0) × (selected ≡ 0) ⊎ (0 < selected) × IsLegalChunk budget p selected
  pub largest :
      feasible ≡ true
      → (columns : ℕ) → 0 < columns
      → IsLegalChunk budget p columns
      → columns ≤ selected
  pub phases_fit : feasible ≡ true → FixedPhasesFit budget p
  pub refused :
      feasible ≡ false
      → (selected ≡ 0)
        × ((0 < p.n_freq) × ((columns : ℕ) → 0 < columns → ¬ IsLegalChunk budget p columns)
            ⊎ ¬ FixedPhasesFit budget p)

optimal_of_none :
    (budget : ℤ) (p : Problem)
    → aligned_columns budget p < min 1024 p.n_freq
    → IsCapacityOptimal budget p false 0
optimal_of_none budget p h = record {
  chosen = λ e. cc;
  largest = λ e. cc;
  phases_fit = λ e. cc;
  refused = λ e. (
    refl,
    inl (
      omega arith,
      λ c hc legal. omega (
        arith,
        (aligned_columns-IsLegalChunk budget p c hc legal.aligned).1 legal,
        aligned_columns-aligned budget p,
        legal.aligned,
      ),
    ),
  );
}

optimal_of_unfit :
    (budget : ℤ) (p : Problem) → ¬ FixedPhasesFit budget p → IsCapacityOptimal budget p false 0
optimal_of_unfit budget p h = record {
  chosen = λ e. cc;
  largest = λ e. cc;
  phases_fit = λ e. cc;
  refused = λ e. (refl, inr h);
}

optimal_of_fit :
    (budget : ℤ) (p : Problem)
    → ¬ (aligned_columns budget p < min 1024 p.n_freq)
    → FixedPhasesFit budget p
    → IsCapacityOptimal budget p true (aligned_columns budget p)
optimal_of_fit budget p h fit =
    let a = aligned_columns budget p in
    let whole = aligned_columns-aligned budget p in
    let bound = aligned_columns-le budget p in
    let cases : (p.n_freq ≡ 0) × (a ≡ 0) ⊎ (0 < a) = ground arith in
    record {
      chosen = λ e. elim cases [
        | inl none ↦ inl none
        | inr some ↦
            inr (some, (aligned_columns-IsLegalChunk budget p a some whole).0 (omega arith))
      ];
      largest = λ e c hc legal. (aligned_columns-IsLegalChunk budget p c hc legal.aligned).1 legal;
      phases_fit = λ e. fit;
      refused = λ e. cc;
    }

decide-IsCapacityOptimal :
    (budget : ℤ) (p : Problem) (columns : ℕ)
    → let s =
        check_fixed_phases true budget (phase_new_peak p columns) (select_chunk true budget p) in
      IsCapacityOptimal budget p s.feasible s.selected
unfolding check_fixed_phases select_chunk phase_new_peak
decide-IsCapacityOptimal budget p columns =
    elim (Bool-cases (ltb (aligned_columns budget p) (min 1024 p.n_freq))) [
      | inl t ↦ rw t (optimal_of_none budget p (ground arith))
      | inr f ↦ elim (Bool-cases (ltb_ℤ budget (pos (common p + fixed_eig p)))) [
        | inl eig ↦ rw (f, eig) (optimal_of_unfit budget p (λ fit. ground (arith, fit.eig_fits)))
        | inr eig ↦ elim (Bool-cases (ltb_ℤ budget (pos (common p + fixed_fft p)))) [
          | inl fft ↦
              rw (f, eig, fft) (optimal_of_unfit budget p (λ fit. ground (arith, fit.fft_fits)))
          | inr fft ↦
              rw (f, eig, fft)
                (optimal_of_fit budget p (λ lt. ground arith)
                  (record { eig_fits = ground arith; fft_fits = ground arith }))
        ]
      ]
    ]

decided :
    (cuda : Bool) (budget : ℤ) (p : Problem) (columns : ℕ)
    → cuda ≡ true
    → let s =
        check_fixed_phases cuda budget (phase_new_peak p columns) (select_chunk cuda budget p) in
      IsCapacityOptimal budget p s.feasible s.selected
decided true budget p columns h = decide-IsCapacityOptimal budget p columns
decided false budget p columns h = cc

-- On a CUDA device whose facts are known, a plan is feasible exactly if the phases without a chunk fit
-- the budget and there is a positive legal chunk or nothing to cut; it then selects the largest legal
-- chunk, and an infeasible plan selects no column.
pub plan_socs_decomposition-IsCapacityOptimal :
    (fraction_of : ℕ → ℕ) (sha256 : SocsMemoryPlan → String) (p : Problem)
    (facts : Option DeviceMemoryFacts)
    → is_cuda p facts ≡ true
    → let plan = plan_socs_decomposition fraction_of sha256 p facts in
      IsCapacityOptimal
        (budget_of fraction_of p facts)
        p
        plan.memory_feasible
        plan.selected_chunk_columns
unfolding plan_socs_decomposition plan_body decide phases_of
plan_socs_decomposition-IsCapacityOptimal fraction_of sha256 p facts h =
    let budget = budget_of fraction_of p facts in
    decided (is_cuda p facts) budget p (select_chunk (is_cuda p facts) budget p).selected h

chosen_positive :
    (cuda : Bool) (budget : ℤ) (p : Problem) (columns : ℕ)
    → 0 < p.n_freq
    → let s =
        check_fixed_phases cuda budget (phase_new_peak p columns) (select_chunk cuda budget p) in
      s.feasible ≡ true → 0 < s.selected
chosen_positive true budget p columns h e =
    elim ((decide-IsCapacityOptimal budget p columns).chosen e) [
      | inl (empty, _) ↦ omega arith
      | inr (positive, _) ↦ positive
    ]
chosen_positive false budget p columns h e =
    unfold check_fixed_phases in unfold select_chunk in omega arith

ceil_bounds : (n s : ℕ) → 0 < s → (n ≤ (n + (s - 1)) / s * s) × ((n + (s - 1)) / s * s < n + s)
ceil_bounds n s h = grind arith

last_chunk : (n s q : ℕ) → q * s < n + s → 0 < q → (q - 1) * s < n
last_chunk n s zero h some_chunk = omega arith
last_chunk n s (suc q) h some_chunk = grind arith

some_chunk_of_columns : (n s q : ℕ) → n ≤ q * s → 0 < n → 0 < q
some_chunk_of_columns n s zero h k = omega arith
some_chunk_of_columns n s (suc q) h k = omega arith

chunks-cover :
    (n selected : ℕ)
    → (0 < n → 0 < selected)
    → (n ≤ chunks n selected * selected)
      × (0 < chunks n selected → (chunks n selected - 1) * selected < n)
unfolding chunks
chunks-cover n selected h = elim (Bool-cases (ltb 0 selected)) [
  | inl t ↦
      let (enough, within) = ceil_bounds n selected (ground arith) in
      rw t (enough, last_chunk n selected ((n + (selected - 1)) / selected) within)
  | inr f ↦ rw f (ground (arith, h), λ some_chunk. omega arith)
]

-- A feasible plan, on any device, cuts its columns into chunks that cover all of them, and no chunk
-- is left without a column.
pub chunk_count-covers :
    (fraction_of : ℕ → ℕ) (sha256 : SocsMemoryPlan → String) (p : Problem)
    (facts : Option DeviceMemoryFacts)
    → let plan = plan_socs_decomposition fraction_of sha256 p facts in
      plan.memory_feasible ≡ true
      → (p.n_freq ≤ plan.chunk_count * plan.selected_chunk_columns)
        × (0 < plan.chunk_count → (plan.chunk_count - 1) * plan.selected_chunk_columns < p.n_freq)
        × (0 < p.n_freq → (0 < plan.selected_chunk_columns) × (0 < plan.chunk_count))
unfolding plan_socs_decomposition plan_body decide phases_of
chunk_count-covers fraction_of sha256 p facts h =
    let s = decide fraction_of p facts in
    let cuda = is_cuda p facts in
    let budget = budget_of fraction_of p facts in
    let positive : 0 < p.n_freq → 0 < s.selected = λ some_columns.
      chosen_positive cuda budget p (select_chunk cuda budget p).selected some_columns h in
    let (enough, used) = chunks-cover p.n_freq s.selected positive in
    (
      enough,
      used,
      λ some_columns. (
        positive some_columns,
        some_chunk_of_columns p.n_freq s.selected (chunks p.n_freq s.selected) enough some_columns,
      ),
    )

-- On a CUDA device with known facts, no problem with 1 to 1023 frequency columns has a feasible plan,
-- however much memory is free: the aligned chunk is 0, below the least chunk min(1024, n_freq).
pub plan_socs_decomposition-small :
    (fraction_of : ℕ → ℕ) (sha256 : SocsMemoryPlan → String) (p : Problem)
    (facts : Option DeviceMemoryFacts)
    → is_cuda p facts ≡ true
    → 0 < p.n_freq
    → p.n_freq < 1024
    → (plan_socs_decomposition fraction_of sha256 p facts).memory_feasible ≡ false
plan_socs_decomposition-small fraction_of sha256 p facts h some_columns few =
    let plan = plan_socs_decomposition fraction_of sha256 p facts in
    let spec = plan_socs_decomposition-IsCapacityOptimal fraction_of sha256 p facts h in
    elim (Bool-cases plan.memory_feasible) [
      | inr f ↦ f
      | inl t ↦ elim (spec.chosen t) [
        | inl (empty, _) ↦ absurd (omega arith)
        | inr (positive, legal) ↦ absurd (omega (arith, legal.aligned, legal.in_range))
      ]
    ]
