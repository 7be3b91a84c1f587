-- ===== src/SocsPlan.antt =====
-- src/openlithohub/_utils/socs_memory_plan.py: the memory plan of the bounded SOCS decomposition. The
-- plan is integer arithmetic on bytes; the product FRACTIONAL_HEADROOM * total in floating point and the
-- hash of a plan are parameters, and a reason is which text the code makes, without its numbers.
-- The quotient of n_freq and the chunk is rounded up on numbers, as the floating-point quotient is
-- below 2 ** 53 columns.
pub mod Chunks
pub mod Fits
pub mod Guard
pub mod Contract
pub mod Examples
use text.Mathlib.Text.{starts_with}
use open_litho_hub.Base.{
  ℕ, ◌+◌, ◌-◌, ◌*◌, ◌/◌, min, max, Bool, true, false, ◌&&◌, Option, none, some, String, ltb, leb,
  if◌then◌else◌,
}
use open_litho_hub.Base.Int.{ℤ, pos, pos_part, neg_part, ◌-ℤ◌, ltb_ℤ}

abbrev pub absolute_headroom_bytes : ℕ
absolute_headroom_bytes = 536_870_912

abbrev pub backend_workspace_reserve_bytes : ℕ
backend_workspace_reserve_bytes = 268_435_456

abbrev pub emergency_headroom_bytes : ℕ
emergency_headroom_bytes = 268_435_456

abbrev pub min_chunk_columns : ℕ
min_chunk_columns = 1024

abbrev pub chunk_alignment : ℕ
chunk_alignment = 1024

abbrev pub max_operational_h_chunk_bytes : ℕ
max_operational_h_chunk_bytes = 2_147_483_648

abbrev pub cpu_default_chunk_columns : ℕ
cpu_default_chunk_columns = 65_536

pub data Phase : Type 0 where
  eigendecomposition fft : Phase

pub data Reason : Type 0 where
  infeasible : Reason
  infeasible_fixed_phase : Phase → Reason
  capacity_optimal bounded_default : Reason

pub record DeviceMemoryFacts : Type 0 where
  pub device : String
  pub device_total_bytes : ℕ
  pub device_free_bytes : ℕ
  pub allocated_bytes : ℕ
  pub reserved_bytes : ℕ

-- The keyword arguments of plan_socs_decomposition but the facts.
pub record Problem : Type 0 where
  pub grid_size : ℕ
  pub n_src : ℕ
  pub n_freq : ℕ
  pub k : ℕ
  pub dtype : String
  pub complex_bytes : ℕ
  pub device : String

pub record PhasePeaks : Type 0 where
  pub pass1 : ℕ
  pub eig : ℕ
  pub pass2 : ℕ
  pub fft_peak : ℕ

pub record SocsMemoryPlan : Type 0 where
  pub problem : Problem
  pub device_total_bytes : ℕ
  pub device_free_bytes_at_plan : ℕ
  pub allocated_bytes_at_plan : ℕ
  pub reserved_bytes_at_plan : ℕ
  pub absolute_headroom : ℕ
  pub fractional_headroom : ℕ
  pub workspace_reserve : ℕ
  pub emergency_headroom : ℕ
  pub physical_free_floor_bytes : ℕ
  pub fixed_peak_estimate_bytes : ℕ
  pub phase_peaks : PhasePeaks
  pub bytes_per_chunk_column : ℕ
  pub selected_chunk_columns : ℕ
  pub chunk_count : ℕ
  pub estimated_peak_bytes : ℕ
  pub estimated_headroom_bytes : ℕ
  pub required_free_floor_bytes : ℕ
  pub memory_feasible : Bool
  pub reason : Reason
  pub plan_sha256 : String

-- What each phase holds, whatever the chunk.
unfoldable pub gram : Problem → ℕ
gram p = p.n_src * p.n_src * 16

unfoldable pub topk : Problem → ℕ
topk p = p.k * p.n_src * 16 + p.k * 8 + p.k * 8

unfoldable pub final_freq : Problem → ℕ
final_freq p = p.k * p.n_freq * p.complex_bytes

unfoldable pub common : Problem → ℕ
common p = 3 * p.n_freq * p.complex_bytes + p.k * 4

unfoldable pub slope_pass1 : Problem → ℕ
slope_pass1 p = 24 * p.n_src + 6 * 8 + 2 * 8

unfoldable pub slope_pass2 : Problem → ℕ
slope_pass2 p = slope_pass1 p + 16 * p.k + 8 * p.k

unfoldable pub fixed_pass2 : Problem → ℕ
fixed_pass2 p = topk p + final_freq p

unfoldable pub fixed_eig : Problem → ℕ
fixed_eig p = 6 * gram p

unfoldable pub fixed_fft : Problem → ℕ
fixed_fft p = topk p + 3 * final_freq p

unfoldable pub phase_new_peak : Problem → (selected_columns : ℕ) → PhasePeaks
phase_new_peak p columns = record {
  pass1 = common p + gram p + slope_pass1 p * columns;
  eig = common p + fixed_eig p;
  pass2 = common p + fixed_pass2 p + slope_pass2 p * columns;
  fft_peak = common p + fixed_fft p;
}

-- max(phases.values())
unfoldable pub peak_new_max : PhasePeaks → ℕ
peak_new_max f = max (max (max f.pass1 f.eig) f.pass2) f.fft_peak

-- The three reserves that the plan holds back: `absolute`, `fractional`, `workspace`.
pub record Reserves : Type 0 where
  pub absolute : ℕ
  pub fractional : ℕ
  pub workspace : ℕ

unfoldable pub is_cuda_device : String → Bool
is_cuda_device device = starts_with device "cuda"

-- free - absolute - fractional - workspace, which may be negative.
unfoldable pub budget_new : (free : ℕ) → Reserves → ℤ
unfolding ◌-ℤ◌
budget_new free r = pos free -ℤ pos r.absolute -ℤ pos r.fractional -ℤ pos r.workspace

-- One turn of the loop that makes `limits`.
unfoldable pub chunk_limit : (budget : ℤ) (slope fixed : ℕ) → ℕ
unfolding ◌-ℤ◌
chunk_limit budget slope fixed =
    if ltb_ℤ (pos fixed) budget then pos_part (budget -ℤ pos fixed) / slope else 0

unfoldable pub aligned_columns : (budget : ℤ) → Problem → ℕ
unfolding chunk_limit
aligned_columns budget p =
    let max_by_budget =
      min (chunk_limit budget (slope_pass1 p) (common p + gram p))
        (chunk_limit budget (slope_pass2 p) (common p + fixed_pass2 p)) in
    let cap_columns = max_operational_h_chunk_bytes / max 1 (p.n_src * p.complex_bytes) in
    min (min max_by_budget cap_columns) p.n_freq / chunk_alignment * chunk_alignment

-- `feasible`, `selected` and `reason`.
pub record Selection : Type 0 where
  pub feasible : Bool
  pub selected : ℕ
  pub why : Reason

unfoldable pub select_chunk : (is_cuda : Bool) (budget : ℤ) → Problem → Selection
unfolding aligned_columns
select_chunk true budget p =
    let aligned = aligned_columns budget p in
    if ltb aligned (min min_chunk_columns p.n_freq)
    then record { feasible = false; selected = 0; why = infeasible }
    else record { feasible = true; selected = aligned; why = capacity_optimal }
select_chunk false budget p = record {
  feasible = true;
  selected = min cpu_default_chunk_columns p.n_freq;
  why = bounded_default;
}

-- The loop over the phases whose peak does not depend on the chunk.
unfoldable pub check_fixed_phases :
    (is_cuda : Bool) (budget : ℤ) → PhasePeaks → Selection → Selection
check_fixed_phases is_cuda budget f s =
    if is_cuda && s.feasible
    then if ltb_ℤ budget (pos f.eig)
      then record {
        feasible = false;
        selected = 0;
        why = infeasible_fixed_phase eigendecomposition;
      }
      else if ltb_ℤ budget (pos f.fft_peak)
      then record { feasible = false; selected = 0; why = infeasible_fixed_phase fft }
      else s
    else s

-- ceil(n_freq / selected)
unfoldable pub chunks : (n_freq selected : ℕ) → ℕ
chunks n selected = if ltb 0 selected then (n + (selected - 1)) / selected else 0

-- `facts.x if facts is not None else 0`
abbrev pub or_no_facts : Option DeviceMemoryFacts → DeviceMemoryFacts
or_no_facts none = record {
  device = "";
  device_total_bytes = 0;
  device_free_bytes = 0;
  allocated_bytes = 0;
  reserved_bytes = 0;
}
or_no_facts (some f) = f

abbrev pub has_facts : Option DeviceMemoryFacts → Bool
has_facts none = false
has_facts (some _) = true

unfoldable pub is_cuda : Problem → Option DeviceMemoryFacts → Bool
unfolding is_cuda_device
is_cuda p facts = is_cuda_device p.device && has_facts facts

module _ (fraction_of : ℕ → ℕ) where
  unfoldable pub reserves_of : Problem → Option DeviceMemoryFacts → Reserves
  unfolding is_cuda
  reserves_of p facts =
      if is_cuda p facts
      then record {
        absolute = absolute_headroom_bytes;
        fractional = fraction_of (or_no_facts facts).device_total_bytes;
        workspace = backend_workspace_reserve_bytes;
      }
      else record { absolute = 0; fractional = 0; workspace = 0 }

  -- The decision, from the budget to the fixed phases, with the phases at the chunk chosen first.
  unfoldable pub budget_of : Problem → Option DeviceMemoryFacts → ℤ
  unfolding budget_new reserves_of
  budget_of p facts = budget_new (or_no_facts facts).device_free_bytes (reserves_of p facts)

  unfoldable pub phases_of : Problem → Option DeviceMemoryFacts → PhasePeaks
  unfolding phase_new_peak select_chunk budget_of is_cuda
  phases_of p facts =
      phase_new_peak p (select_chunk (is_cuda p facts) (budget_of p facts) p).selected

  unfoldable pub decide : Problem → Option DeviceMemoryFacts → Selection
  unfolding check_fixed_phases phases_of select_chunk budget_of is_cuda
  decide p facts =
      let budget = budget_of p facts in
      check_fixed_phases (is_cuda p facts) budget (phases_of p facts)
        (select_chunk (is_cuda p facts) budget p)

  unfoldable pub plan_body : Problem → Option DeviceMemoryFacts → SocsMemoryPlan
  unfolding decide peak_new_max chunks reserves_of phases_of is_cuda ◌-ℤ◌
  plan_body p facts =
      let f = or_no_facts facts in
      let r = reserves_of p facts in
      let cuda = is_cuda p facts in
      let phases = phases_of p facts in
      let peak = peak_new_max phases in
      let s = decide p facts in
      let emergency = if cuda then emergency_headroom_bytes else 0 in
      record {
        problem = p;
        device_total_bytes = f.device_total_bytes;
        device_free_bytes_at_plan = f.device_free_bytes;
        allocated_bytes_at_plan = f.allocated_bytes;
        reserved_bytes_at_plan = f.reserved_bytes;
        absolute_headroom = r.absolute;
        fractional_headroom = r.fractional;
        workspace_reserve = r.workspace;
        emergency_headroom = emergency;
        physical_free_floor_bytes = r.workspace + emergency;
        fixed_peak_estimate_bytes = max (common p + fixed_eig p) (common p + fixed_fft p);
        phase_peaks = phases;
        bytes_per_chunk_column = slope_pass2 p;
        selected_chunk_columns = s.selected;
        chunk_count = chunks p.n_freq s.selected;
        estimated_peak_bytes = f.reserved_bytes + peak;
        estimated_headroom_bytes = if cuda then pos_part (budget_of p facts -ℤ pos peak) else 0;
        required_free_floor_bytes = r.absolute + r.fractional + r.workspace + peak;
        memory_feasible = s.feasible;
        reason = s.why;
        plan_sha256 = "";
      }

unfoldable pub plan_sha256_excluding_self :
    (sha256 : SocsMemoryPlan → String) → SocsMemoryPlan → String
plan_sha256_excluding_self sha256 plan = sha256 (record plan { plan_sha256 = "" })

unfoldable pub plan_socs_decomposition :
    (fraction_of : ℕ → ℕ) (sha256 : SocsMemoryPlan → String)
    → Problem
    → Option DeviceMemoryFacts
    → SocsMemoryPlan
unfolding plan_body plan_sha256_excluding_self
plan_socs_decomposition fraction_of sha256 p facts =
    let plan = plan_body fraction_of p facts in
    record plan { plan_sha256 = plan_sha256_excluding_self sha256 plan }
