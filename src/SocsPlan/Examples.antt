-- ===== src/SocsPlan/Examples.antt =====
-- The theorems on memory plans at a device of 8 GB, and at one that reports no facts.
use open_litho_hub.Base.{
  ℕ, ◌+◌, ◌/◌, ◌≤◌, ◌<◌, ◌↔◌, ok, ◌≡◌, refl, true, false, Option, some, String, arith,
}
use open_litho_hub.SocsPlan.{
  Problem, DeviceMemoryFacts, SocsMemoryPlan, is_cuda, is_cuda_device, plan_socs_decomposition,
  common, gram, slope_pass1, fixed_pass2, topk, final_freq, slope_pass2, fixed_eig, fixed_fft,
  budget_of, reserves_of, backend_workspace_reserve_bytes, emergency_headroom_bytes,
}
use open_litho_hub.SocsPlan.Fits.{
  IsCapacityOptimal, plan_socs_decomposition-IsCapacityOptimal, plan_socs_decomposition-small,
}
use open_litho_hub.SocsPlan.Guard.{
  MemoryReadings, HeadroomObservation, assert_headroom, assert_headroom-plan,
  assert_headroom-AllFit, AllFit,
}
use open_litho_hub.SocsPlan.Contract.{validate_worker_plan, validate_worker_plan-plan, IsFor}
use open_litho_hub.Base.Int.{pos}

abbrev tenth : ℕ → ℕ
tenth total = total / 10

abbrev no_hash : SocsMemoryPlan → String
no_hash plan = "0"

abbrev small : Problem
small = record {
  grid_size = 64;
  n_src = 100;
  n_freq = 4096;
  k = 8;
  dtype = "complex64";
  complex_bytes = 8;
  device = "cuda:0";
}

abbrev card : Option DeviceMemoryFacts
card = some (record {
  device = "cuda:0";
  device_total_bytes = 8_000_000_000;
  device_free_bytes = 7_000_000_000;
  allocated_bytes = 0;
  reserved_bytes = 0;
})

small_on_card : is_cuda small card ≡ true
unfolding is_cuda is_cuda_device
small_on_card = refl

abbrev plan : SocsMemoryPlan
plan = plan_socs_decomposition tenth no_hash small card

abbrev after_plan : MemoryReadings
after_plan = record { free = 7_000_000_000; allocated = 1000; reserved = 2000 }

is_chosen : plan.selected_chunk_columns ≡ 4096
unfolding plan_socs_decomposition common gram slope_pass1 fixed_pass2 topk final_freq slope_pass2
    fixed_eig fixed_fft
is_chosen = refl

is_feasible : plan.memory_feasible ≡ true
unfolding plan_socs_decomposition common gram slope_pass1 fixed_pass2 topk final_freq slope_pass2
    fixed_eig fixed_fft
is_feasible = refl

plan_socs_decomposition-IsCapacityOptimal_example :
    IsCapacityOptimal
      (budget_of tenth small card)
      small
      plan.memory_feasible
      plan.selected_chunk_columns
plan_socs_decomposition-IsCapacityOptimal_example =
    plan_socs_decomposition-IsCapacityOptimal tenth no_hash small card small_on_card

assert_headroom-plan_example :
    (seen : HeadroomObservation) × (assert_headroom plan "cuda:0" after_plan ≡ ok seen)
assert_headroom-plan_example =
    assert_headroom-plan tenth no_hash small card small_on_card after_plan (omega arith) is_feasible

abbrev observed : HeadroomObservation
observed = record {
  physical_free_bytes = pos 7_000_000_000;
  allocator_reusable_bytes = pos 1000;
  effective_reusable_bytes = pos 7_000_001_000;
}

is_observed : assert_headroom plan "cuda:0" after_plan ≡ ok observed
unfolding plan_socs_decomposition common gram slope_pass1 fixed_pass2 topk final_freq slope_pass2
    fixed_eig fixed_fft assert_headroom is_cuda_device
is_observed = refl

assert_headroom-AllFit_example :
    (backend_workspace_reserve_bytes + emergency_headroom_bytes ≤ 7_000_000_000)
    × AllFit (7_000_000_000 + 1000) (reserves_of tenth small card) plan.phase_peaks
assert_headroom-AllFit_example =
    assert_headroom-AllFit tenth no_hash small card small_on_card (omega arith) after_plan observed
      is_observed

validate_worker_plan-plan_example :
    (validate_worker_plan no_hash plan small ≡ ok tt)
    ↔ IsFor plan small × (plan.memory_feasible ≡ true) × (0 < 4096)
validate_worker_plan-plan_example = validate_worker_plan-plan tenth no_hash small card small

abbrev few : Problem
few = record small { n_freq = 900 }

few_on_card : is_cuda few card ≡ true
unfolding is_cuda is_cuda_device
few_on_card = refl

plan_socs_decomposition-small_example :
    (plan_socs_decomposition tenth no_hash few card).memory_feasible ≡ false
plan_socs_decomposition-small_example =
    plan_socs_decomposition-small tenth no_hash few card few_on_card (omega arith) (omega arith)
