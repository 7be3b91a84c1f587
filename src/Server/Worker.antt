-- ===== src/Server/Worker.antt =====
-- src/openlithohub/server/runtime.py: the job worker, between its peek and the end of the job.
-- A run of the optimiser is its outcome, an argument of the step: a summary with the artifact, the
-- text of a failure, or an exception that nothing handles.
pub mod Claims
pub mod Sync
use open_litho_hub.Base.{
  ℕ, ◌==◌, Bool, true, false, Option, none, some, List, [], ◌∷◌, String, Outcome, ok, raise, ◌>>=◌,
  if◌then◌else◌,
}
use open_litho_hub.Base.Dict.{nat_eq, lookup}
use open_litho_hub.Server.Schemas.{
  JobStatus, running, succeeded, failed, cancelled, ServerError, not_accepting, admission_denied,
  unhandled, is_queued,
}
use open_litho_hub.Server.JobStore.{
  JobRecord, Jobs, Clock, Changes, peek_next_queued, claim_next, transition,
}
use open_litho_hub.Server.Runtime.{
  Runtime, RuntimeState, is_accepting, try_acquire_admission, release_admission, error_only,
}

pub data WorkerState : Type 0 where
  idle : WorkerState
  waiting : (job_id : ℕ) → WorkerState
  admitted : (job_id : ℕ) → WorkerState
  executing : (job_id : ℕ) → WorkerState

-- job_id = self._store.peek_next_queued()
unfoldable pub worker_peek : Runtime → WorkerState
worker_peek rt = elim (peek_next_queued rt.store) [ none ↦ idle | some id ↦ waiting id ]

-- `except (KeyError, RuntimeError): pass`
abbrev pub store_or_old : Outcome ServerError (JobRecord × Jobs) → Jobs → Jobs
store_or_old (ok (_, m)) old = m
store_or_old (raise _) old = old

-- A job that was dequeued but not admitted before the runtime left RUNNING.
unfoldable pub cancel_waiting : Clock → ℕ → Runtime → Runtime
cancel_waiting now id rt = elim (lookup id rt.store) [
  | none ↦ rt
  | some r ↦
      if is_queued r.status
      then record rt {
        store =
            store_or_old
              (transition now id cancelled
                (error_only "server shutdown while waiting for admission") rt.store)
              rt.store;
      }
      else rt
]

-- One poll of wait_for_admission.
unfoldable pub worker_admit : Clock → ℕ → Runtime → WorkerState × Runtime
unfolding cancel_waiting
worker_admit now id rt =
    if is_accepting rt.state
    then (let (won, rt') = try_acquire_admission rt in
        if won then (admitted id, rt') else (waiting id, rt'))
    else (idle, cancel_waiting now id rt)

-- claim_next and the branches after it. `claim_raises` tells that the store raised.
unfoldable pub worker_claim :
    Clock → (claim_raises : Bool) → ℕ → Runtime → Outcome ServerError (WorkerState × Runtime)
worker_claim now true id rt = ok (idle, rt)
worker_claim now false id rt =
    let (claimed, m) = claim_next now rt.store in
    elim claimed [
      | none ↦ do rt' ← release_admission (record rt { store = m }); ok (idle, rt')
      | some r ↦
          if r.job_id == id
          then ok (executing id, record rt { store = m })
          else (do rt' ← release_admission (record rt { store = m }); ok (idle, rt'))
    ]

-- How the execution of a claimed job ends: with the columns that a success writes; with the text of a
-- failure, from the parameters, the runner or a missing artifact; or, before the transition, with an
-- exception that nothing handles, as from os.replace or the digest when the artifact is published.
pub data RunOutcome : Type 0 where
  finished : Changes → RunOutcome
  failed_with : String → RunOutcome
  escaped : RunOutcome

-- `finally: self.release_admission()`, whose exception replaces the one on its way.
unfoldable pub leave :
    Outcome ServerError WorkerState → Runtime → Outcome ServerError WorkerState × Runtime
leave result rt = elim (release_admission rt) [ raise x ↦ (raise x, rt) | ok rt' ↦ (result, rt') ]

-- The end of _execute_job: the terminal transition and the `finally`. An exception ends the worker loop.
unfoldable pub worker_finish :
    Clock → RunOutcome → ℕ → Runtime → Outcome ServerError WorkerState × Runtime
unfolding leave
worker_finish now (finished c) id rt = elim (transition now id succeeded c rt.store) [
  | raise x ↦ leave (raise x) rt
  | ok (_, m) ↦ leave (ok idle) (record rt { store = m })
]
worker_finish now (failed_with e) id rt =
    leave (ok idle) (record rt {
      store = store_or_old (transition now id failed (error_only e) rt.store) rt.store;
    })
worker_finish now escaped id rt = leave (raise unhandled) rt

-- run_admitted: a synchronous run, whose result or exception is the argument.
unfoldable pub run_admitted {ℓ} :
    {A : Type ℓ} → Outcome ServerError A → Runtime → Outcome ServerError A × Runtime
unfolding release_admission
run_admitted result rt =
    if is_accepting rt.state
    then (let (won, rt') = try_acquire_admission rt in
        if won
        then elim (release_admission rt') [ raise x ↦ (raise x, rt') | ok rt'' ↦ (result, rt'') ]
        else (raise admission_denied, rt'))
    else (raise not_accepting, rt)
