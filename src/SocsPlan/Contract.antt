-- ===== src/SocsPlan/Contract.antt =====
-- validate_worker_plan: a worker runs the plan of its own inputs only.
use text.Mathlib.Text.{◌==◌ as str_eq}
use text.Mathlib.TextEquality.{eq_iff}
use open_litho_hub.Base.{
  ℕ, ◌<◌, ◌≡◌, ◌↔◌, refl, true, not, ◌||◌, Option, String, Outcome, ok, ◌>>◌, require, leb, ◌==◌,
  arith,
}
use open_litho_hub.SocsPlan.Fits.{chunk_count-covers}
use open_litho_hub.SocsPlan.{
  Problem, DeviceMemoryFacts, SocsMemoryPlan, plan_sha256_excluding_self, plan_socs_decomposition,
}

-- The fields that the worker compares, in the order of the loop.
pub data Field : Type 0 where
  grid_size_field n_src_field n_freq_field k_field dtype_field device_field : Field

pub data ContractViolation : Type 0 where
  hash_mismatch : ContractViolation
  mismatch : Field → ContractViolation
  infeasible_plan no_chunk_columns : ContractViolation

-- The worker's inputs `w`; its complex_bytes is not compared.
unfoldable pub compare_inputs :
    SocsMemoryPlan → (w : Problem) → Outcome ContractViolation (Unit {0})
compare_inputs plan w = do
  require (plan.problem.grid_size == w.grid_size) (mismatch grid_size_field)
  require (plan.problem.n_src == w.n_src) (mismatch n_src_field)
  require (plan.problem.n_freq == w.n_freq) (mismatch n_freq_field)
  require (plan.problem.k == w.k) (mismatch k_field)
  require (str_eq plan.problem.dtype w.dtype) (mismatch dtype_field)
  require (str_eq plan.problem.device w.device) (mismatch device_field)
  ok tt

unfoldable pub validate_worker_plan :
    (sha256 : SocsMemoryPlan → String)
    → SocsMemoryPlan
    → (w : Problem) → Outcome ContractViolation (Unit {0})
unfolding compare_inputs
validate_worker_plan sha256 plan w = do
  require (str_eq (plan_sha256_excluding_self sha256 plan) plan.plan_sha256) hash_mismatch
  compare_inputs plan w
  require plan.memory_feasible infeasible_plan
  require (not (leb plan.selected_chunk_columns 0 || leb plan.chunk_count 0)) no_chunk_columns
  ok tt

-- The inputs that a worker compares are the plan's.
pub record IsFor (plan : SocsMemoryPlan) (w : Problem) : Type 0 where
  pub same_grid : plan.problem.grid_size ≡ w.grid_size
  pub same_n_src : plan.problem.n_src ≡ w.n_src
  pub same_n_freq : plan.problem.n_freq ≡ w.n_freq
  pub same_k : plan.problem.k ≡ w.k
  pub same_dtype : plan.problem.dtype ≡ w.dtype
  pub same_device : plan.problem.device ≡ w.device

compare_inputs-IsFor :
    (plan : SocsMemoryPlan) (w : Problem) → (compare_inputs plan w ≡ ok tt) ↔ IsFor plan w
unfolding compare_inputs
compare_inputs-IsFor plan w =
    let dtypes = eq_iff plan.problem.dtype w.dtype in
    let devices = eq_iff plan.problem.device w.device in
    (
      λ e. record {
        same_grid = ground (arith, e);
        same_n_src = ground (arith, e);
        same_n_freq = ground (arith, e);
        same_k = ground (arith, e);
        same_dtype = ground (arith, e, dtypes);
        same_device = ground (arith, e, devices);
      },
      λ s. ground (
        arith, s.same_grid, s.same_n_src, s.same_n_freq, s.same_k, s.same_dtype, s.same_device,
        dtypes, devices,
      ),
    )

validate_iff :
    (sha256 : SocsMemoryPlan → String) (plan : SocsMemoryPlan) (w : Problem)
    → plan_sha256_excluding_self sha256 plan ≡ plan.plan_sha256
    → (validate_worker_plan sha256 plan w ≡ ok tt)
      ↔ (compare_inputs plan w ≡ ok tt)
        × (plan.memory_feasible ≡ true)
        × (0 < plan.selected_chunk_columns)
        × (0 < plan.chunk_count)
unfolding validate_worker_plan
validate_iff sha256 plan w same =
    let hashes = eq_iff (plan_sha256_excluding_self sha256 plan) plan.plan_sha256 in
    (λ e. ground (arith, e, hashes, same), λ e. ground (arith, e, hashes, same))

-- A worker accepts a plan of the planner exactly if the inputs it compares are those of the plan, the
-- plan is feasible, and there are columns to cut; otherwise the validation raises.
pub validate_worker_plan-plan :
    (fraction_of : ℕ → ℕ) (sha256 : SocsMemoryPlan → String) (p : Problem)
    (facts : Option DeviceMemoryFacts) (w : Problem)
    → let plan = plan_socs_decomposition fraction_of sha256 p facts in
      (validate_worker_plan sha256 plan w ≡ ok tt)
      ↔ IsFor plan w × (plan.memory_feasible ≡ true) × (0 < p.n_freq)
validate_worker_plan-plan fraction_of sha256 p facts w =
    let plan = plan_socs_decomposition fraction_of sha256 p facts in
    let (to, from) = validate_iff sha256 plan w (unfold plan_socs_decomposition in refl) in
    let (same, back) = compare_inputs-IsFor plan w in
    let cover = chunk_count-covers fraction_of sha256 p facts in
    (
      λ e.
          let (inputs, feasible, selected, count) = to e in
          let (_, used, _) = cover feasible in (same inputs, feasible, omega (arith, used count)),
      λ e.
          let (inputs, feasible, columns) = e in
          let (_, _, positive) = cover feasible in
          let (selected, count) = positive columns in from (back inputs, feasible, selected, count),
    )
