-- ===== src/Server/Examples.antt =====
-- The theorems on the server at a store of a finished, a waiting and a running job.
use open_litho_hub.Base.{
  ◌==◌, ℕ, ◌+◌, ◌<◌, ◌≡◌, refl, ◌⊎◌, Bool, true, false, none, some, List, [], ◌∷◌, String, ok, All,
  length, arith,
}
use open_litho_hub.Base.Dict.{nat_eq, lookup, insert, mem, has_key}
use open_litho_hub.Server.Schemas.{JobStatus, queued, running, succeeded}
use open_litho_hub.Server.JobStore.{
  JobRecord, Jobs, Clock, claim_next, peek_next_queued, evict_terminal, evict_from, is_doomed,
  recover, count_running,
}
use open_litho_hub.Server.JobStore.Queue.{IsStore, IsClaim, claim_next-IsClaim}
use open_litho_hub.Server.JobStore.Retention.{
  is_evictable, IsRecovery, IsSweep, evict_terminal-IsSweep, recover-IsRecovery,
}
use open_litho_hub.Server.JobStore.Lifecycle.{Run, done, then_}
use open_litho_hub.Server.Runtime.{
  Runtime, running_, active, acquire_artifact_lease, sweep, try_acquire_admission,
  try_reserve_job_slot,
}
use open_litho_hub.Server.Runtime.Capacity
use open_litho_hub.Server.Runtime.Capacity.{IsBounded, Reservations, Run-IsBounded}
use open_litho_hub.Server.Runtime.Leases.{acquire_artifact_lease-keeps}
use open_litho_hub.Base.{raise, leb, if◌then◌else◌}
use open_litho_hub.Server.Schemas.{admission_denied, not_accepting}
use open_litho_hub.Server.SqliteStore.{sqlite_claim_next, sqlite_peek_next_queued}
use open_litho_hub.Server.SqliteStore.Oldest.{NoneQueued, IsOldest, sqlite_claim_next-IsOldest}
use open_litho_hub.Server.Worker.Sync.{run_admitted-releases}
use open_litho_hub.Server.Worker.{run_admitted, idle, worker_claim, failed_with, worker_finish}
use open_litho_hub.Server.Worker.Claims.{Settles, worker_claim-strands, worker_finish-Settles}

abbrev job : ℕ → JobStatus → JobRecord
job id status = record {
  job_id = id;
  status = status;
  created_utc = "2026-01-01T00:00:00Z";
  started_utc = none;
  completed_utc = none;
  input_path = some "input.gds";
  output_path = some "mask.oas";
  input_format = none;
  params_json = none;
  summary = none;
  error = none;
  artifact_sha256 = none;
  artifact_bytes = none;
  last_access_unix = 10;
  created_unix = 10;
  completed_unix = none;
}

abbrev now : Clock
now = record { utc = "2026-01-02T00:00:00Z"; unix = 100 }

abbrev jobs : Jobs
jobs = (1, job 1 succeeded) ∷ (2, job 2 queued) ∷ (3, job 3 running) ∷ []

abbrev every_file : String → Bool
every_file path = true

jobs-IsStore : IsStore jobs
unfolding has_key
jobs-IsStore = (refl, refl, (refl, refl, (refl, refl, tt)))

claim_next-IsClaim_example :
    ((peek_next_queued jobs ≡ none) × (claim_next now jobs ≡ (none, jobs)))
    ⊎ ((id : ℕ) × (r : JobRecord) × (jobs' : Jobs) × (peek_next_queued jobs ≡ some id)
        × (claim_next now jobs ≡ (some r, jobs'))
        × IsClaim jobs id r jobs')
claim_next-IsClaim_example = claim_next-IsClaim now jobs jobs-IsStore

abbrev later : Jobs
later = recover every_file now (claim_next now jobs).1

evict_terminal-IsSweep_example :
    (gone : List JobRecord) × (kept : Jobs) × (evict_terminal 100 50 2 (3 ∷ []) jobs ≡ (gone, kept))
    × IsSweep 100 50 2 (3 ∷ []) (length jobs) jobs gone kept
    × (2 < length kept → All (λ (_, r). is_evictable (3 ∷ []) r ≡ false) kept)
evict_terminal-IsSweep_example = evict_terminal-IsSweep 100 50 2 (3 ∷ []) jobs jobs-IsStore

recover-IsRecovery_example :
    (count_running (recover every_file now jobs) ≡ 0)
    × ((j : ℕ) (r : JobRecord)
        → lookup j jobs ≡ some r
        → (r' : JobRecord) × (lookup j (recover every_file now jobs) ≡ some r')
          × IsRecovery every_file r r')
recover-IsRecovery_example = recover-IsRecovery every_file now jobs

abbrev runtime : Runtime
runtime = record {
  state = running_;
  permits = 1;
  admission_in_use = 1;
  slots_reserved = 0;
  store = jobs;
  leases = [];
  job_queue_depth = 4;
  job_ttl_seconds = 50;
  job_history_cap = 2;
}

runtime-IsBounded : IsBounded 2 runtime []
runtime-IsBounded = record { slots = refl; depth = omega arith; admissions = refl }

abbrev reserved_runtime : Runtime
reserved_runtime = record runtime { slots_reserved = 1 }

abbrev busy : Runtime
busy = (try_acquire_admission reserved_runtime).1

two_calls : Capacity.Run runtime [] busy ((7, active) ∷ [])
unfolding try_reserve_job_slot lookup insert
two_calls =
    Capacity.then_ _ _ _ _ _ _ (Capacity.reserved 7 runtime reserved_runtime [] active refl refl) (
      Capacity.then_ _ _ _ _ _ _ (Capacity.acquired reserved_runtime ((7, active) ∷ []))
        (Capacity.done _ _))

Run-IsBounded_example : IsBounded 2 busy ((7, active) ∷ [])
Run-IsBounded_example =
    Run-IsBounded 2 runtime busy [] ((7, active) ∷ []) runtime-IsBounded two_calls

abbrev leased : Runtime
leased = record runtime { leases = (1, 1) ∷ [] }

lease_granted : acquire_artifact_lease every_file 100 1 runtime ≡ ok ("mask.oas", leased)
unfolding acquire_artifact_lease sweep evict_terminal evict_from is_doomed lookup insert mem
lease_granted = refl

acquire_artifact_lease-keeps_example :
    (every_file "mask.oas" ≡ true)
    × (r : JobRecord) × (lookup 1 jobs ≡ some r)
    × (r.status ≡ succeeded)
    × (r.output_path ≡ some "mask.oas")
    × (lookup 1 jobs ≡ some r)
acquire_artifact_lease-keeps_example =
    acquire_artifact_lease-keeps every_file 100 1 runtime leased "mask.oas" lease_granted

-- The worker peeked the job 1, which was deleted before the claim.
worker_claim-strands_example :
    (m : Jobs) × (r : JobRecord) × (worker_claim now false 1 runtime
      ≡ ok (idle, record runtime { store = m; permits = 2; admission_in_use = 0 }))
    × (lookup 2 m ≡ some r)
    × (r.status ≡ running)
worker_claim-strands_example =
    worker_claim-strands now 1 2 runtime jobs-IsStore (omega arith)
      (unfold peek_next_queued in refl) refl

worker_finish-Settles_example :
    ((worker_finish now (failed_with "out of memory") 3 runtime).1.admission_in_use + 1 ≡ 1)
    × ((worker_finish now (failed_with "out of memory") 3 runtime).1.permits ≡ 2)
    × Settles
        (failed_with "out of memory")
        3
        (job 3 running)
        (worker_finish now (failed_with "out of memory") 3 runtime)
worker_finish-Settles_example =
    worker_finish-Settles now (failed_with "out of memory") 3 runtime (job 3 running) (omega arith)
      (unfold lookup in refl) refl

run_admitted-releases_example : run_admitted {A = String} (ok "mask.oas") runtime ≡ (
  (if true
      then (if leb 1 0 then raise admission_denied else ok "mask.oas")
      else raise not_accepting),
  runtime,
)
run_admitted-releases_example = run_admitted-releases {A = String} (ok "mask.oas") runtime

sqlite_claim_next-IsOldest_example :
    ((sqlite_claim_next now jobs ≡ (none, jobs)) × NoneQueued jobs)
    ⊎ ((r : JobRecord) × (r' : JobRecord) × (rows' : Jobs) × (sqlite_claim_next now jobs
          ≡ (some r', rows'))
        × (sqlite_peek_next_queued jobs ≡ some r.job_id)
        × IsOldest jobs r
        × (r'.status ≡ running)
        × ((j : ℕ) → lookup j rows' ≡ (if r.job_id == j then some r' else lookup j jobs))
        × IsStore rows')
sqlite_claim_next-IsOldest_example = sqlite_claim_next-IsOldest now jobs jobs-IsStore
