-- ===== src/Server/Runtime.antt =====
-- src/openlithohub/server/runtime.py: admission, reservations of queue slots, and the worker.
-- An operation under the runtime's locks is one function. The store is the process-local one.
pub mod Queued
pub mod Capacity
pub mod Leases
use open_litho_hub.Base.{
  ℕ, zero, suc, ◌+◌, ◌-◌, ◌==◌, Bool, true, false, not, ◌&&◌, ◌||◌, Option, none, some, List, [],
  ◌∷◌, String, Outcome, ok, raise, ◌>>=◌, ◌>>◌, require, ltb, leb, if◌then◌else◌, map,
}
use open_litho_hub.Base.Dict.{Dict, nat_eq, lookup, insert, remove}
use open_litho_hub.Server.Schemas.{
  JobStatus, queued, running, succeeded, failed, cancelled, ServerError, not_accepting, queue_full,
  reservation_underflow, enqueue_without_reservation, already_committed, already_released,
  release_of_committed, admission_underflow, unknown_job, job_running, is_queued, is_running,
  artifact_unavailable,
}
use open_litho_hub.Server.JobStore.{
  JobRecord, Jobs, Clock, Changes, create_queued, count_queued, peek_next_queued, claim_next,
  transition, touch_artifact, delete, evict_terminal,
}

pub data RuntimeState : Type 0 where
  new_ running_ draining stopped : RuntimeState

abbrev pub is_accepting : RuntimeState → Bool
is_accepting running_ = true
is_accepting _ = false

-- The semaphore's permits are `permits`; `leases` counts the downloads of a job.
pub record Runtime : Type 0 where
  pub state : RuntimeState
  pub permits : ℕ
  pub admission_in_use : ℕ
  pub slots_reserved : ℕ
  pub store : Jobs
  pub leases : Dict ℕ ℕ
  pub job_queue_depth : ℕ
  pub job_ttl_seconds : ℕ
  pub job_history_cap : ℕ

unfoldable pub try_acquire_admission : Runtime → Bool × Runtime
try_acquire_admission rt =
    if leb rt.permits 0
    then (false, rt)
    else (true, record rt { permits = rt.permits - 1; admission_in_use = rt.admission_in_use + 1 })

unfoldable pub release_admission : Runtime → Outcome ServerError Runtime
release_admission rt =
    if leb rt.admission_in_use 0
    then raise admission_underflow
    else ok (record rt { permits = rt.permits + 1; admission_in_use = rt.admission_in_use - 1 })

pub data ReservationState : Type 0 where
  active committed released : ReservationState

abbrev pub is_active : ReservationState → Bool
is_active active = true
is_active _ = false

-- The new reservation is ACTIVE.
unfoldable pub try_reserve_job_slot : Runtime → Outcome ServerError (ReservationState × Runtime)
try_reserve_job_slot rt = do
  require (is_accepting rt.state) not_accepting
  require (ltb (count_queued rt.store + rt.slots_reserved) rt.job_queue_depth) queue_full
  ok (active, record rt { slots_reserved = rt.slots_reserved + 1 })

unfoldable pub release_reserved_slot : Runtime → Outcome ServerError Runtime
release_reserved_slot rt = do
  require (ltb 0 rt.slots_reserved) reservation_underflow
  ok (record rt { slots_reserved = rt.slots_reserved - 1 })

unfoldable pub enqueue_reserved : JobRecord → Runtime → Outcome ServerError Runtime
enqueue_reserved r rt = do
  require (is_accepting rt.state) not_accepting
  require (ltb 0 rt.slots_reserved) enqueue_without_reservation
  ok (record rt { store = create_queued r rt.store; slots_reserved = rt.slots_reserved - 1 })

-- QueueReservation.commit. An exception leaves the reservation as it is, one of `release` may not.
unfoldable pub commit :
    JobRecord → ReservationState → Runtime → Outcome ServerError (ReservationState × Runtime)
unfolding enqueue_reserved
commit r committed rt = raise already_committed
commit r released rt = raise already_released
commit r active rt = do rt' ← enqueue_reserved r rt; ok (committed, rt')

unfoldable pub release : ReservationState → Runtime → Outcome ServerError Runtime × ReservationState
unfolding release_reserved_slot
release committed rt = (raise release_of_committed, committed)
release released rt = (raise already_released, released)
release active rt = (release_reserved_slot rt, released)

unfoldable pub release_if_active :
    ReservationState → Runtime → Outcome ServerError Runtime × ReservationState
unfolding release_reserved_slot
release_if_active committed rt = (ok rt, committed)
release_if_active released rt = (ok rt, released)
release_if_active active rt = (release_reserved_slot rt, released)

abbrev pub error_only : String → Changes
error_only e = record {
  error = some e;
  summary = none;
  output_path = none;
  artifact_sha256 = none;
  artifact_bytes = none;
}

unfoldable pub delete_job : Clock → ℕ → Runtime → Outcome ServerError (JobRecord × Runtime)
delete_job now id rt = elim (lookup id rt.store) [
  | none ↦ raise unknown_job
  | some r ↦ if is_running r.status then raise job_running else (do
    (_, store) ←
        if is_queued r.status
        then transition now id cancelled (error_only "deleted while queued") rt.store
        else ok (r, rt.store)
    (gone, store') ← delete id store
    ok (gone, record rt { store = store' }))
]

unfoldable pub sweep : (now : ℕ) → Runtime → List JobRecord × Runtime
sweep now rt =
    let (gone, kept) =
      evict_terminal now rt.job_ttl_seconds rt.job_history_cap (map (λ (id, _). id) rt.leases)
        rt.store in
    (gone, record rt { store = kept })

abbrev pub or_none : Option ℕ → ℕ
or_none none = 0
or_none (some n) = n

-- `record.status is SUCCEEDED`, and its output path.
abbrev pub artifact_of : JobRecord → Option String
artifact_of r = elim r.status [ succeeded ↦ r.output_path | _ ↦ none ]

unfoldable pub acquire_artifact_lease :
    (is_file : String → Bool) (now : ℕ) → ℕ → Runtime → Outcome ServerError (String × Runtime)
unfolding sweep
acquire_artifact_lease is_file now id rt = elim (lookup id rt.store) [
  | none ↦ raise unknown_job
  | some r ↦ elim (artifact_of r) [
    | none ↦ raise artifact_unavailable
    | some path ↦ do
      require (is_file path) artifact_unavailable
      let leases = insert id (or_none (lookup id rt.leases) + 1) rt.leases
      ok (path, (sweep now (record rt { leases = leases })).1)
  ]
]

unfoldable pub release_artifact_lease : ℕ → Runtime → Runtime
release_artifact_lease id rt =
    let count = or_none (lookup id rt.leases) - 1 in
    if ltb 0 count
    then record rt { leases = insert id count rt.leases }
    else record rt { leases = remove id rt.leases }

-- The lease comes after the touch, which raises for no job.
unfoldable pub get_job_artifact_path :
    (is_file : String → Bool) → Clock → ℕ → Runtime → Outcome ServerError (String × Runtime)
unfolding acquire_artifact_lease
get_job_artifact_path is_file now id rt =
    acquire_artifact_lease is_file now.unix id
      (record rt { store = touch_artifact now id rt.store })
