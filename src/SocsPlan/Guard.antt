-- ===== src/SocsPlan/Guard.antt =====
-- observe_headroom and assert_headroom: the guard in front of each chunk. What the driver and the
-- allocator report is an argument.
use open_litho_hub.Base.{
  ℕ, ◌+◌, ◌-◌, ◌*◌, ◌≤◌, ◌<◌, ◌≡◌, sym, ◌∙◌, subst, ◌⊎◌, inl, inr, Bool, true, not, ◌||◌, Option,
  String, Outcome, ok, raise, ◌>>◌, require, Outcome-cases, ◌==◌, if◌then◌else◌, arith,
}
use open_litho_hub.Base.Int.{ℤ, pos, negsuc, ◌-ℤ◌, -ℤ_parts, ◌≤ℤ◌, ltb_ℤ}
use open_litho_hub.SocsPlan.{
  Problem, DeviceMemoryFacts, SocsMemoryPlan, Reserves, PhasePeaks, common, gram, fixed_eig,
  fixed_fft, fixed_pass2, slope_pass1, slope_pass2, is_cuda, is_cuda_device, or_no_facts,
  select_chunk, check_fixed_phases, phase_new_peak, peak_new_max, phases_of, budget_new, budget_of,
  reserves_of, decide, plan_body, plan_socs_decomposition, emergency_headroom_bytes,
  absolute_headroom_bytes, backend_workspace_reserve_bytes,
}
use open_litho_hub.SocsPlan.Fits.{plan_socs_decomposition-IsCapacityOptimal}

-- mem_get_info, memory_allocated and memory_reserved.
pub record MemoryReadings : Type 0 where
  pub free : ℕ
  pub allocated : ℕ
  pub reserved : ℕ

pub record HeadroomObservation : Type 0 where
  pub physical_free_bytes : ℤ
  pub allocator_reusable_bytes : ℤ
  pub effective_reusable_bytes : ℤ

pub data HeadroomViolation : Type 0 where
  below_physical_floor below_effective_floor : HeadroomViolation

-- `max(reserved - allocated, 0)`, which is the difference on ℕ.
abbrev pub reusable : MemoryReadings → ℕ
reusable now = now.reserved - now.allocated

unfoldable pub observe_headroom : MemoryReadings → HeadroomObservation
observe_headroom now = record {
  physical_free_bytes = pos now.free;
  allocator_reusable_bytes = pos (reusable now);
  effective_reusable_bytes = pos (now.free + reusable now);
}

unfoldable pub assert_headroom :
    SocsMemoryPlan
    → (device : String) → MemoryReadings
    → Outcome HeadroomViolation HeadroomObservation
unfolding observe_headroom
assert_headroom plan device now =
    if not (is_cuda_device device) || (plan.device_total_bytes == 0)
    then ok (record {
      physical_free_bytes = negsuc 0;
      allocator_reusable_bytes = negsuc 0;
      effective_reusable_bytes = negsuc 0;
    })
    else (do
      let observation = observe_headroom now
      let physical_floor = plan.workspace_reserve + emergency_headroom_bytes
      require (not (ltb_ℤ observation.physical_free_bytes (pos physical_floor)))
          below_physical_floor
      require
          (not (ltb_ℤ observation.effective_reusable_bytes (pos plan.required_free_floor_bytes)))
          below_effective_floor
      ok observation)

-- A need and the reserves together are within the free bytes.
abbrev Fits : (free : ℕ) → Reserves → (need : ℕ) → Type 0
Fits free r need = need + r.absolute + r.fractional + r.workspace ≤ free

Fits-of_budget :
    (free : ℕ) (r : Reserves) (need : ℕ) → pos need ≤ℤ budget_new free r → Fits free r need
unfolding budget_new
Fits-of_budget free r need h = omega (
  arith,
  h,
  -ℤ_parts (pos free) (pos r.absolute),
  -ℤ_parts (pos free -ℤ pos r.absolute) (pos r.fractional),
  -ℤ_parts (pos free -ℤ pos r.absolute -ℤ pos r.fractional) (pos r.workspace),
)

peaks_fit :
    (free : ℕ) (r : Reserves) (p : Problem) (columns : ℕ)
    → Fits free r (common p + fixed_eig p)
    → Fits free r (common p + fixed_fft p)
    → (columns ≡ 0)
      ⊎ Fits free r (common p + gram p + slope_pass1 p * columns)
        × Fits free r (common p + fixed_pass2 p + slope_pass2 p * columns)
    → r.absolute + r.fractional + r.workspace + peak_new_max (phase_new_peak p columns) ≤ free
unfolding peak_new_max phase_new_peak fixed_eig fixed_pass2 fixed_fft
peaks_fit free r p columns eig fft (inl empty) = rw empty (omega arith)
peaks_fit free r p columns eig fft (inr passes) = omega arith

same_selected :
    (cuda : Bool) (budget : ℤ) (f : PhasePeaks) (p : Problem)
    → (check_fixed_phases cuda budget f (select_chunk cuda budget p)).feasible ≡ true
    → (check_fixed_phases cuda budget f (select_chunk cuda budget p)).selected
      ≡ (select_chunk cuda budget p).selected
unfolding check_fixed_phases
same_selected cuda budget f p h = ground arith

-- Every phase fits, with the reserves.
abbrev pub AllFit : (free : ℕ) → Reserves → PhasePeaks → Type 0
AllFit free r f =
    Fits free r f.pass1 × Fits free r f.eig × Fits free r f.pass2 × Fits free r f.fft_peak

all_fit :
    (free : ℕ) (r : Reserves) (f : PhasePeaks)
    → r.absolute + r.fractional + r.workspace + peak_new_max f ≤ free
    → AllFit free r f
unfolding peak_new_max
all_fit free r f h = omega arith

guard_passes :
    (plan : SocsMemoryPlan) (device : String) (now : MemoryReadings)
    → plan.workspace_reserve + emergency_headroom_bytes ≤ now.free
    → plan.required_free_floor_bytes ≤ now.free
    → (seen : HeadroomObservation) × (assert_headroom plan device now ≡ ok seen)
guard_passes plan device now h k = elim (Outcome-cases (assert_headroom plan device now)) [
  | inl (seen, e) ↦ (seen, e)
  | inr (x, e) ↦ absurd (refused x e)
]
  where
    refused : (x : HeadroomViolation) → assert_headroom plan device now ≡ raise x → ⊥
    refused x e = unfold assert_headroom in ground arith

guard_bounds :
    (plan : SocsMemoryPlan) (device : String) (now : MemoryReadings) (seen : HeadroomObservation)
    → is_cuda_device device ≡ true
    → 0 < plan.device_total_bytes
    → assert_headroom plan device now ≡ ok seen
    → (plan.workspace_reserve + emergency_headroom_bytes ≤ now.free)
      × (plan.required_free_floor_bytes ≤ now.free + reusable now)
unfolding assert_headroom
guard_bounds plan device now seen cuda h e = ground arith

reserves_on_cuda :
    (fraction_of : ℕ → ℕ) (p : Problem) (facts : Option DeviceMemoryFacts)
    → is_cuda p facts ≡ true
    → let r = reserves_of fraction_of p facts in
      (r.absolute ≡ absolute_headroom_bytes) × (r.workspace ≡ backend_workspace_reserve_bytes)
unfolding reserves_of
reserves_on_cuda fraction_of p facts h = ground arith

device_on_cuda :
    (p : Problem) (facts : Option DeviceMemoryFacts)
    → is_cuda p facts ≡ true
    → is_cuda_device p.device ≡ true
unfolding is_cuda
device_on_cuda p facts h = ground arith

module _ (fraction_of : ℕ → ℕ) (sha256 : SocsMemoryPlan → String) (p : Problem)
    (facts : Option DeviceMemoryFacts) where
  floor_fits :
      is_cuda p facts ≡ true
      → let plan = plan_socs_decomposition fraction_of sha256 p facts in
        plan.memory_feasible ≡ true
        → plan.required_free_floor_bytes ≤ (or_no_facts facts).device_free_bytes
  unfolding plan_socs_decomposition plan_body decide phases_of budget_of
  floor_fits cuda h =
      let spec = plan_socs_decomposition-IsCapacityOptimal fraction_of sha256 p facts cuda in
      let r = reserves_of fraction_of p facts in
      let free = (or_no_facts facts).device_free_bytes in
      let fixed = spec.phases_fit h in
      let chunk = (select_chunk (is_cuda p facts) (budget_new free r) p).selected in
      let same = same_selected (is_cuda p facts) (budget_new free r) (phase_new_peak p chunk) p h in
      peaks_fit free r p chunk (Fits-of_budget free r _ fixed.eig_fits)
        (Fits-of_budget free r _ fixed.fft_fits)
        (elim (spec.chosen h) [
          | inl empty ↦ inl (sym same ∙ empty.1)
          | inr (_, legal) ↦ inr (
            Fits-of_budget free r _ (
                subst (λ c. pos (common p + gram p + slope_pass1 p * c) ≤ℤ budget_new free r) same
                  legal.pass1_fits),
            Fits-of_budget free r _ (
                subst (λ c. pos (common p + fixed_pass2 p + slope_pass2 p * c) ≤ℤ budget_new free r)
                  same legal.pass2_fits),
          )
        ])

  -- Right after a feasible plan the guard passes: whatever the allocator holds, when the driver reports
  -- at least the free bytes of the plan, assert_headroom raises no violation.
  pub assert_headroom-plan :
      is_cuda p facts ≡ true
      → (now : MemoryReadings) → (or_no_facts facts).device_free_bytes ≤ now.free
      → let plan = plan_socs_decomposition fraction_of sha256 p facts in
        plan.memory_feasible ≡ true
        → (seen : HeadroomObservation) × (assert_headroom plan p.device now ≡ ok seen)
  unfolding plan_socs_decomposition plan_body
  assert_headroom-plan cuda now more h =
      let r = reserves_of fraction_of p facts in
      let floor : r.absolute
            + r.fractional
            + r.workspace
            + peak_new_max (phases_of fraction_of p facts)
          ≤ (or_no_facts facts).device_free_bytes =
        floor_fits cuda h in
      let same = reserves_on_cuda fraction_of p facts cuda in
      guard_passes (plan_socs_decomposition fraction_of sha256 p facts) p.device now (omega arith)
        (omega arith)

  -- What the guard lets through fits: where assert_headroom returns on a CUDA device with a plan of
  -- plan_socs_decomposition, the driver's free bytes hold the hard floor, and free bytes and reusable
  -- cache together hold the reserves and the peak of every phase of the plan.
  pub assert_headroom-AllFit :
      is_cuda p facts ≡ true
      → 0 < (or_no_facts facts).device_total_bytes
      → (now : MemoryReadings) (seen : HeadroomObservation)
      → let plan = plan_socs_decomposition fraction_of sha256 p facts in
        assert_headroom plan p.device now ≡ ok seen
        → (backend_workspace_reserve_bytes + emergency_headroom_bytes ≤ now.free)
          × AllFit (now.free + reusable now) (reserves_of fraction_of p facts) plan.phase_peaks
  unfolding plan_socs_decomposition plan_body
  assert_headroom-AllFit cuda total now seen e =
      let r = reserves_of fraction_of p facts in
      let (hard, floor) =
        guard_bounds (plan_socs_decomposition fraction_of sha256 p facts) p.device now seen
          (device_on_cuda p facts cuda) total e in
      let same = reserves_on_cuda fraction_of p facts cuda in
      (omega arith, all_fit (now.free + reusable now) r (phases_of fraction_of p facts) floor)
