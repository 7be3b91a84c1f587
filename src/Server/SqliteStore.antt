-- ===== src/Server/SqliteStore.antt =====
-- src/openlithohub/server/job_store.py: SQLiteJobStore, whose rows are the queue.
-- The table is a list of rows by id. Each method is one transaction; of two rows with the same
-- created_unix the first one of the table counts as the older.
pub mod Oldest
use open_litho_hub.Base.{
  ℕ, ◌+◌, ◌-◌, Bool, true, false, Option, none, some, List, [], ◌∷◌, ◌++◌, String, Outcome, ok,
  raise, ◌>>=◌, ◌>>◌, require, leb, not, if◌then◌else◌, length, count_by,
}
use open_litho_hub.Base.Dict.{nat_eq, lookup, insert, remove, has_key}
use open_litho_hub.Server.Schemas.{
  JobStatus, queued, running, ServerError, unknown_job, duplicate_job, transition_job_status,
  is_queued, is_running, is_terminal,
}
use open_litho_hub.Server.JobStore.{JobRecord, Jobs, Clock, Changes, transitioned, is_doomed}

-- INSERT, which the primary key refuses for an id that is there.
unfoldable pub sqlite_create_queued : JobRecord → Jobs → Outcome ServerError Jobs
sqlite_create_queued r rows = do
  require (not (has_key r.job_id rows)) duplicate_job
  let r' = record r { status = queued; completed_utc = none; completed_unix = none }
  ok (rows ++ (r.job_id, r') ∷ [])

abbrev pub older : JobRecord → Option JobRecord → JobRecord
older r none = r
older r (some q) = if leb r.created_unix q.created_unix then r else q

-- SELECT ... WHERE status = 'queued' ORDER BY created_unix ASC LIMIT 1
unfoldable pub oldest_queued : Jobs → Option JobRecord
oldest_queued [] = none
oldest_queued ((_, r) ∷ rows) =
    let rest = oldest_queued rows in if is_queued r.status then some (older r rest) else rest

abbrev pub id_of : Option JobRecord → Option ℕ
id_of none = none
id_of (some r) = some r.job_id

unfoldable pub sqlite_peek_next_queued : Jobs → Option ℕ
unfolding oldest_queued
sqlite_peek_next_queued rows = id_of (oldest_queued rows)

-- The UPDATE is guarded by the status that was just read in the same transaction.
unfoldable pub sqlite_claim_next : Clock → Jobs → Option JobRecord × Jobs
unfolding oldest_queued
sqlite_claim_next now rows = elim (oldest_queued rows) [
  | none ↦ (none, rows)
  | some r ↦
      let r' = record r { status = running; started_utc = some now.utc } in
      (some r', insert r.job_id r' rows)
]

unfoldable pub sqlite_transition :
    Clock → ℕ → JobStatus → Changes → Jobs → Outcome ServerError (JobRecord × Jobs)
unfolding transition_job_status transitioned
sqlite_transition now job_id new c rows = elim (lookup job_id rows) [
  | none ↦ raise unknown_job
  | some r ↦ do
    status ← transition_job_status r.status new
    let r' = transitioned now status c r
    ok (r', insert job_id r' rows)
]

unfoldable pub sqlite_touch_artifact : Clock → ℕ → Jobs → Jobs
sqlite_touch_artifact now job_id rows = elim (lookup job_id rows) [
  | none ↦ rows
  | some r ↦ insert job_id (record r { last_access_unix = now.unix }) rows
]

unfoldable pub sqlite_delete : ℕ → Jobs → Outcome ServerError (JobRecord × Jobs)
sqlite_delete job_id rows = elim (lookup job_id rows) [
  | none ↦ raise unknown_job
  | some r ↦ ok (r, remove job_id rows)
]

abbrev pub sqlite_count_queued : Jobs → ℕ
sqlite_count_queued rows = count_by (λ (_, r). is_queued r.status) rows

abbrev pub sqlite_count_running : Jobs → ℕ
sqlite_count_running rows = count_by (λ (_, r). is_running r.status) rows

-- ORDER BY created_unix ASC, of the rows in a terminal state.
unfoldable pub by_age : JobRecord → List JobRecord → List JobRecord
by_age r [] = r ∷ []
by_age r (q ∷ qs) = if leb r.created_unix q.created_unix then r ∷ q ∷ qs else q ∷ by_age r qs

unfoldable pub terminal_rows : Jobs → List JobRecord
unfolding by_age
terminal_rows [] = []
terminal_rows ((_, r) ∷ rows) =
    let rest = terminal_rows rows in if is_terminal r.status then by_age r rest else rest

-- The loop of evict_terminal over the terminal rows, oldest first: the doomed ones and the table.
unfoldable pub sqlite_evict_from :
    (now ttl_seconds history_cap : ℕ) (skip_job_ids : List ℕ) (tracked : ℕ)
    → List JobRecord
    → Jobs
    → List JobRecord × Jobs
unfolding is_doomed
sqlite_evict_from now ttl cap skip tracked [] rows = ([], rows)
sqlite_evict_from now ttl cap skip tracked (r ∷ rs) rows =
    let (gone, left) = sqlite_evict_from now ttl cap skip (tracked - 1) rs (remove r.job_id rows) in
    let rest = sqlite_evict_from now ttl cap skip tracked rs rows in
    if is_doomed now ttl cap skip tracked r.job_id r then (r ∷ gone, left) else rest

unfoldable pub sqlite_evict_terminal :
    (now ttl_seconds history_cap : ℕ) (skip_job_ids : List ℕ) → Jobs → List JobRecord × Jobs
unfolding sqlite_evict_from terminal_rows
sqlite_evict_terminal now ttl cap skip rows =
    sqlite_evict_from now ttl cap skip (length rows) (terminal_rows rows) rows
