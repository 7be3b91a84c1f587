-- ===== src/Server/JobStore.antt =====
-- src/openlithohub/server/job_store.py: the process-local store, and the recovery of the durable one.
-- Job ids are only compared, so they are numbers, as are times; a summary is its JSON text. The clock
-- readings of an operation are its arguments.
pub mod Queue
pub mod Lifecycle
pub mod Retention
use open_litho_hub.Base.{
  ℕ, ◌+◌, ◌-◌, Bool, true, false, not, ◌&&◌, ◌||◌, Option, none, some, List, [], ◌∷◌, ◌++◌, String,
  Outcome, ok, raise, ◌>>=◌, ltb, leb, max, if◌then◌else◌, length, count_by,
}
use open_litho_hub.Base.Dict.{Dict, nat_eq, lookup, insert, remove, mem}
use open_litho_hub.Server.Schemas.{
  JobStatus, queued, running, succeeded, failed, cancelled, ServerError, unknown_job,
  transition_job_status, is_queued, is_running, is_terminal,
}

pub record JobRecord : Type 0 where
  pub job_id : ℕ
  pub status : JobStatus
  pub created_utc : String
  pub started_utc : Option String
  pub completed_utc : Option String
  pub input_path : Option String
  pub output_path : Option String
  pub input_format : Option String
  pub params_json : Option String
  pub summary : Option String
  pub error : Option String
  pub artifact_sha256 : Option String
  pub artifact_bytes : Option ℕ
  pub last_access_unix : ℕ
  pub created_unix : ℕ
  pub completed_unix : Option ℕ

abbrev pub Jobs : Type 0
Jobs = Dict ℕ JobRecord

-- The clock: utc_now() and unix_now().
pub record Clock : Type 0 where
  pub utc : String
  pub unix : ℕ

unfoldable pub create_queued : JobRecord → Jobs → Jobs
create_queued r jobs = insert r.job_id (record r { status = queued }) jobs

abbrev pub get : ℕ → Jobs → Option JobRecord
get job_id jobs = lookup job_id jobs

abbrev pub count_queued : Jobs → ℕ
count_queued jobs = count_by (λ (_, r). is_queued r.status) jobs

abbrev pub count_running : Jobs → ℕ
count_running jobs = count_by (λ (_, r). is_running r.status) jobs

abbrev pub count_tracked : Jobs → ℕ
count_tracked jobs = length jobs

unfoldable pub peek_next_queued : Jobs → Option ℕ
peek_next_queued [] = none
peek_next_queued ((_, r) ∷ jobs) =
    if is_queued r.status then some r.job_id else peek_next_queued jobs

abbrev claim : Clock → JobRecord → JobRecord
claim now r = record r { status = running; started_utc = some now.utc }

-- A QUEUED record may become RUNNING, so that its transition does not raise.
unfoldable pub claim_next : Clock → Jobs → Option JobRecord × Jobs
claim_next now [] = (none, [])
claim_next now ((k, r) ∷ jobs) =
    let (claimed, rest) = claim_next now jobs in
    if is_queued r.status
    then (some (claim now r), (k, claim now r) ∷ jobs)
    else (claimed, (k, r) ∷ rest)

-- The keyword arguments of `transition`.
pub record Changes : Type 0 where
  pub error : Option String
  pub summary : Option String
  pub output_path : Option String
  pub artifact_sha256 : Option String
  pub artifact_bytes : Option ℕ

-- `if new is not None: old = new`
abbrev pub or_old {ℓ} : {A : Type ℓ} → Option A → Option A → Option A
or_old none old = old
or_old (some a) old = some a

abbrev started : Clock → JobStatus → Option String → Option String
started now running none = some now.utc
started now _ old = old

unfoldable pub transitioned : Clock → JobStatus → Changes → JobRecord → JobRecord
transitioned now new c r = record r {
  status = new;
  started_utc = started now new r.started_utc;
  completed_utc = if is_terminal new then some now.utc else r.completed_utc;
  completed_unix = if is_terminal new then some now.unix else r.completed_unix;
  error = or_old c.error r.error;
  summary = or_old c.summary r.summary;
  output_path = or_old c.output_path r.output_path;
  artifact_sha256 = or_old c.artifact_sha256 r.artifact_sha256;
  artifact_bytes = or_old c.artifact_bytes r.artifact_bytes;
}

unfoldable pub transition :
    Clock → ℕ → JobStatus → Changes → Jobs → Outcome ServerError (JobRecord × Jobs)
unfolding transition_job_status transitioned
transition now job_id new c jobs = elim (lookup job_id jobs) [
  | none ↦ raise unknown_job
  | some r ↦ do
    status ← transition_job_status r.status new
    let r' = transitioned now status c r
    ok (r', insert job_id r' jobs)
]

unfoldable pub touch_artifact : Clock → ℕ → Jobs → Jobs
touch_artifact now job_id jobs = elim (lookup job_id jobs) [
  | none ↦ jobs
  | some r ↦ insert job_id (record r { last_access_unix = now.unix }) jobs
]

unfoldable pub delete : ℕ → Jobs → Outcome ServerError (JobRecord × Jobs)
delete job_id jobs = elim (lookup job_id jobs) [
  | none ↦ raise unknown_job
  | some r ↦ ok (r, remove job_id jobs)
]

abbrev pub or_zero : Option ℕ → ℕ
or_zero none = 0
or_zero (some n) = n

-- max(completed or 0, last access or 0, created)
abbrev pub reference_of : JobRecord → ℕ
reference_of r = max (max (or_zero r.completed_unix) r.last_access_unix) r.created_unix

-- The two conditions of evict_terminal on a record, where `tracked` records are left in the store.
unfoldable pub is_doomed :
    (now ttl_seconds history_cap : ℕ) (skip_job_ids : List ℕ) (tracked job_id : ℕ)
    → JobRecord
    → Bool
is_doomed now ttl cap skip tracked job_id r =
    if not (is_terminal r.status) || mem job_id skip
    then false
    else ltb cap tracked || ltb (reference_of r + ttl) now

-- The loop of evict_terminal over the records: the doomed ones and those that stay.
unfoldable pub evict_from :
    (now ttl_seconds history_cap : ℕ) (skip_job_ids : List ℕ) (tracked : ℕ)
    → Jobs
    → List JobRecord × Jobs
unfolding is_doomed
evict_from now ttl cap skip tracked [] = ([], [])
evict_from now ttl cap skip tracked ((k, r) ∷ jobs) =
    let (doomed_after, kept_after) = evict_from now ttl cap skip (tracked - 1) jobs in
    let (doomed, kept) = evict_from now ttl cap skip tracked jobs in
    if is_doomed now ttl cap skip tracked k r
    then (r ∷ doomed_after, kept_after)
    else (doomed, (k, r) ∷ kept)

unfoldable pub evict_terminal :
    (now ttl_seconds history_cap : ℕ) (skip_job_ids : List ℕ) → Jobs → List JobRecord × Jobs
unfolding evict_from
evict_terminal now ttl cap skip jobs = evict_from now ttl cap skip (length jobs) jobs

-- A QUEUED row whose input is gone.
abbrev missing : Clock → JobRecord → JobRecord
missing now r = record r {
  status = cancelled;
  completed_utc = some now.utc;
  completed_unix = some now.unix;
  error = some "durable input is missing after restart; job cannot run";
}

-- SQLiteJobStore.recover, row by row. `is_file` tells whether a path names a file.
unfoldable pub recover_row : (is_file : String → Bool) → Clock → JobRecord → JobRecord
recover_row is_file now r = elim r.status [
  | running ↦ record r {
    status = failed;
    completed_utc = some now.utc;
    completed_unix = some now.unix;
    error = some "server restarted while job execution was in progress; outcome was not committed";
  }
  | queued ↦ elim r.input_path [
    | none ↦ missing now r
    | some path ↦ if is_file path then r else missing now r
  ]
  | _ ↦ r
]

unfoldable pub recover : (is_file : String → Bool) → Clock → Jobs → Jobs
unfolding recover_row
recover is_file now [] = []
recover is_file now ((k, r) ∷ jobs) = (k, recover_row is_file now r) ∷ recover is_file now jobs

pub record SnapshotCounts : Type 0 where
  pub jobs_queued : ℕ
  pub jobs_running : ℕ
  pub jobs_tracked : ℕ

abbrev pub snapshot_counts : Jobs → SnapshotCounts
snapshot_counts jobs = record {
  jobs_queued = count_queued jobs;
  jobs_running = count_running jobs;
  jobs_tracked = length jobs;
}
