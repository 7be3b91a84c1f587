-- ===== src/Server/Worker/Sync.antt =====
-- run_admitted: a synchronous run gives its admission back.
use open_litho_hub.Base.{
  ◌+◌, ◌-◌, ◌≡◌, refl, inl, inr, false, Outcome, raise, leb, if◌then◌else◌, arith, Bool-cases,
}
use open_litho_hub.Server.Schemas.{ServerError, admission_denied, not_accepting}
use open_litho_hub.Server.Runtime.{Runtime, is_accepting, try_acquire_admission, release_admission}
use open_litho_hub.Server.Worker.{run_admitted}

-- A synchronous run leaves the runtime as it was, whether the run returns or raises. A runtime that
-- accepts work and has a permit returns what the run returned; one without a permit denies admission,
-- and one that does not accept work says so.
pub run_admitted-releases {ℓ} :
    {A : Type ℓ} (result : Outcome ServerError A) (rt : Runtime)
    → run_admitted result rt ≡ (
      (if is_accepting rt.state
          then (if leb rt.permits 0 then raise admission_denied else result)
          else raise not_accepting),
      rt,
    )
unfolding run_admitted try_acquire_admission release_admission
run_admitted-releases result rt = elim (Bool-cases (is_accepting rt.state)) [
  | inr f ↦ rw (f, run_admitted) refl
  | inl t ↦ elim (Bool-cases (leb rt.permits 0)) [
    | inl none_ ↦ rw (t, run_admitted, none_, try_acquire_admission) refl
    | inr some_ ↦
        let held : leb (rt.admission_in_use + 1) 0 ≡ false = ground arith in
        let back : rt.permits - 1 + 1 ≡ rt.permits = ground (arith, some_) in
        let free : rt.admission_in_use + 1 - 1 ≡ rt.admission_in_use = omega arith in
        rw (t, run_admitted, some_, try_acquire_admission, held, release_admission, back, free) refl
  ]
]
