-- ===== src/Server/Worker/Claims.antt =====
-- What the worker does with an admission that it won.
use open_litho_hub.Base.{
  ℕ, ◌+◌, ◌-◌, ◌==◌, ◌<◌, ◌≡◌, refl, inl, inr, true, false, some, ok, raise, Outcome, Outcome-cases,
  arith, leb, ap,
}
use open_litho_hub.Base.Dict.{nat_eq, lookup, insert, lookup-insert}
use open_litho_hub.Server.Schemas.{
  ServerError, unhandled, running, succeeded, failed, transition_job_status, job_transitions,
}
use open_litho_hub.Server.JobStore.{
  JobRecord, Jobs, Clock, peek_next_queued, claim_next, transition, transitioned, or_old,
}
use open_litho_hub.Server.JobStore.Queue.{IsStore, IsClaim, claim_next-IsClaim}
use open_litho_hub.Server.Runtime.{Runtime, release_admission, error_only}
use open_litho_hub.Server.Worker.{
  WorkerState, idle, executing, worker_claim, RunOutcome, finished, failed_with, escaped, leave,
  store_or_old, worker_finish,
}

-- For a well-formed store whose first QUEUED record is still the one that the worker peeked, a claim
-- that does not raise makes the worker execute this job: its record is RUNNING, and the admission is
-- kept for the run.
pub worker_claim-executes :
    (now : Clock) (id : ℕ) (rt : Runtime)
    → IsStore rt.store
    → peek_next_queued rt.store ≡ some id
    → (m : Jobs) × (r : JobRecord) × (worker_claim now false id rt
        ≡ ok (executing id, record rt { store = m }))
      × IsClaim rt.store id r m
unfolding worker_claim
worker_claim-executes now id rt s first = elim (claim_next-IsClaim now rt.store s) [
  | inl (e, _) ↦ absurd (ground (arith, e, first))
  | inr (j, r, m, e, e', p) ↦
      let same : j ≡ id = ground (arith, e, first) in
      let t : (r.job_id == id) ≡ true = ground (arith, p.same_id, same) in
      let who : (claim_next now rt.store).0 ≡ some r = ap (λ p. p.0) e' in
      let left : (claim_next now rt.store).1 ≡ m = ap (λ p. p.1) e' in
      (m, r, rw (who, left, worker_claim, t) refl, rw same at p)
]

-- When the job that the worker peeked has left the queue before the claim and another job is now
-- first, the claim makes that other job RUNNING, but the worker gives its admission back and goes idle
-- without executing it: the job stays RUNNING.
pub worker_claim-strands :
    (now : Clock) (id j : ℕ) (rt : Runtime)
    → IsStore rt.store
    → 0 < rt.admission_in_use
    → peek_next_queued rt.store ≡ some j
    → (j == id) ≡ false
    → (m : Jobs) × (r : JobRecord) × (worker_claim now false id rt
        ≡ ok (
          idle,
          record rt {
            store = m;
            permits = rt.permits + 1;
            admission_in_use = rt.admission_in_use - 1;
          },
        ))
      × (lookup j m ≡ some r)
      × (r.status ≡ running)
unfolding worker_claim release_admission
worker_claim-strands now id j rt s held first other = elim (claim_next-IsClaim now rt.store s) [
  | inl (e, _) ↦ absurd (ground (arith, e, first))
  | inr (k, r, m, e, e', p) ↦
      let same : k ≡ j = ground (arith, e, first) in
      let f : (r.job_id == id) ≡ false = ground (arith, p.same_id, same, other) in
      let held' : leb rt.admission_in_use 0 ≡ false = ground arith in
      let who : (claim_next now rt.store).0 ≡ some r = ap (λ p. p.0) e' in
      let left : (claim_next now rt.store).1 ≡ m = ap (λ p. p.1) e' in
      (m, r, rw (who, left, worker_claim, f, held') refl, ground (arith, p.filed, same), p.runs)
]

-- How the call ended, and the record of the job, which ran.
abbrev pub Settles : RunOutcome → ℕ → JobRecord → Outcome ServerError WorkerState × Runtime → Type 0
Settles (finished c) id r (result, rt') =
    (result ≡ ok idle)
    × (r' : JobRecord) × (lookup id rt'.store ≡ some r')
    × (r'.status ≡ succeeded)
    × (r'.output_path ≡ or_old c.output_path r.output_path)
Settles (failed_with e) id r (result, rt') =
    (result ≡ ok idle)
    × (r' : JobRecord) × (lookup id rt'.store ≡ some r')
    × (r'.status ≡ failed)
    × (r'.error ≡ some e)
Settles escaped id r (result, rt') = (result ≡ raise unhandled) × (lookup id rt'.store ≡ some r)

-- The runtime after an admission was given back.
abbrev given_back : Runtime → Runtime
given_back rt = record rt { permits = rt.permits + 1; admission_in_use = rt.admission_in_use - 1 }

leave_held :
    (result : Outcome ServerError WorkerState) (rt : Runtime)
    → 0 < rt.admission_in_use
    → leave result rt ≡ (result, given_back rt)
unfolding leave release_admission
leave_held result rt held =
    let held' : leb rt.admission_in_use 0 ≡ false = ground arith in rw (leave, held') refl

-- Whatever the store holds, and also when the transition raises, the admission is given back.
worker_finish-gives_back :
    (now : Clock) (end_ : RunOutcome) (id : ℕ) (rt : Runtime)
    → 0 < rt.admission_in_use
    → ((worker_finish now end_ id rt).1.admission_in_use + 1 ≡ rt.admission_in_use)
      × ((worker_finish now end_ id rt).1.permits ≡ rt.permits + 1)
unfolding worker_finish
worker_finish-gives_back now (finished c) id rt held =
    elim (Outcome-cases (transition now id succeeded c rt.store)) [
      | inl ((_, m), e) ↦
          rw (worker_finish, e, leave_held (ok idle) (record rt { store = m }) held)
            (omega arith, refl)
      | inr (x, e) ↦ rw (worker_finish, e, leave_held (raise x) rt held) (omega arith, refl)
    ]
worker_finish-gives_back now (failed_with e) id rt held =
    let m = store_or_old (transition now id failed (error_only e) rt.store) rt.store in
    rw (leave_held (ok idle) (record rt { store = m }) held) (omega arith, refl)
worker_finish-gives_back now escaped id rt held =
    rw (leave_held (raise unhandled) rt held) (omega arith, refl)

-- When the worker ends the run of a RUNNING job under an admission, the admission is given back, however
-- the run ended. After a summary the worker is idle and the record has SUCCEEDED with that output; after
-- a failure that is handled it is idle and the record has FAILED with that error; an exception that is
-- not handled goes on, which ends the worker, and the record stays as it was, RUNNING.
pub worker_finish-Settles :
    (now : Clock) (end_ : RunOutcome) (id : ℕ) (rt : Runtime) (r : JobRecord)
    → 0 < rt.admission_in_use
    → lookup id rt.store ≡ some r
    → r.status ≡ running
    → ((worker_finish now end_ id rt).1.admission_in_use + 1 ≡ rt.admission_in_use)
      × ((worker_finish now end_ id rt).1.permits ≡ rt.permits + 1)
      × Settles end_ id r (worker_finish now end_ id rt)
unfolding worker_finish transition transition_job_status job_transitions
worker_finish-Settles now (finished c) id rt r held found runs =
    let (in_use, permits) = worker_finish-gives_back now (finished c) id rt held in
    let r' = transitioned now succeeded c r in
    let m = insert id r' rt.store in
    let moved : transition now id succeeded c rt.store ≡ ok (r', m) = ground (arith, found, runs) in
    let left : worker_finish now (finished c) id rt
        ≡ (ok idle, given_back (record rt { store = m })) =
      rw (worker_finish, moved) (leave_held (ok idle) (record rt { store = m }) held) in
    (
      in_use,
      permits,
      rw left (
        refl,
        r',
        rw (lookup-insert id id r' rt.store) (ground arith),
        unfold transitioned in refl,
        unfold transitioned in refl,
      ),
    )
worker_finish-Settles now (failed_with e) id rt r held found runs =
    let (in_use, permits) = worker_finish-gives_back now (failed_with e) id rt held in
    let r' = transitioned now failed (error_only e) r in
    let m = insert id r' rt.store in
    let moved : transition now id failed (error_only e) rt.store ≡ ok (r', m) =
      ground (arith, found, runs) in
    let left : worker_finish now (failed_with e) id rt
        ≡ (ok idle, given_back (record rt { store = m })) =
      rw (worker_finish, moved) (leave_held (ok idle) (record rt { store = m }) held) in
    (
      in_use,
      permits,
      rw left (
        refl,
        r',
        rw (lookup-insert id id r' rt.store) (ground arith),
        unfold transitioned in refl,
        unfold transitioned in refl,
      ),
    )
worker_finish-Settles now escaped id rt r held found runs =
    let (in_use, permits) = worker_finish-gives_back now escaped id rt held in
    (in_use, permits, rw (leave_held (raise unhandled) rt held) (refl, found))
