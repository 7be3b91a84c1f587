-- ===== src/Server/Lifecycle.antt =====
-- src/openlithohub/server/runtime.py: start, stop and the drain of the queue.
-- `worker_alive` tells whether the worker thread outlived the grace period; the reaper makes the same
-- decision later.
pub mod Drain
use open_litho_hub.Base.{
  ℕ, zero, suc, ◌+◌, ◌==◌, Bool, true, false, not, ◌&&◌, Option, none, some, String, Outcome, ok,
  raise, ◌>>=◌, ◌>>◌, require, if◌then◌else◌,
}
use open_litho_hub.Server.Schemas.{JobStatus, cancelled, ServerError, not_new}
use open_litho_hub.Server.JobStore.{
  JobRecord, Jobs, Clock, count_queued, peek_next_queued, transition, recover,
}
use open_litho_hub.Server.Runtime.{
  Runtime, RuntimeState, new_, running_, draining, stopped, error_only,
}
use open_litho_hub.Server.Worker.{store_or_old}

abbrev is_new : RuntimeState → Bool
is_new new_ = true
is_new _ = false

-- Only the durable store recovers rows; that of InMemoryJobStore does nothing.
unfoldable pub start :
    (durable : Bool) (is_file : String → Bool) → Clock → Runtime → Outcome ServerError Runtime
start durable is_file now rt = do
  require (is_new rt.state) not_new
  ok (record rt {
    store = if durable then recover is_file now rt.store else rt.store;
    state = running_;
  })

-- The loop of _drain_queued_jobs, for at most `fuel` jobs.
pub drain_from : (fuel : ℕ) → Clock → Jobs → Jobs
drain_from zero now jobs = jobs
drain_from (suc fuel) now jobs = elim (peek_next_queued jobs) [
  | none ↦ jobs
  | some id ↦ drain_from fuel now (
      store_or_old (transition now id cancelled (error_only "server shutdown while queued") jobs)
        jobs)
]

unfoldable pub drain_queued_jobs : Clock → Jobs → Jobs
unfolding drain_from
drain_queued_jobs now jobs = drain_from (count_queued jobs) now jobs

unfoldable pub owns_no_execution : (worker_alive : Bool) → Runtime → Bool
owns_no_execution alive rt = not alive && (rt.admission_in_use == 0)

-- The end of `stop`, and of _reap_until_stopped: the new runtime and `stop_forced`.
unfoldable pub settle : (worker_alive : Bool) → Runtime → Runtime × Bool
unfolding owns_no_execution
settle alive rt =
    if owns_no_execution alive rt then (record rt { state = stopped }, false) else (rt, true)

unfoldable pub stop : (worker_alive : Bool) → Clock → Runtime → Runtime × Bool
unfolding settle drain_queued_jobs
stop alive now rt = elim rt.state [
  | stopped ↦ (rt, false)
  | draining ↦ settle alive rt
  | _ ↦ settle alive (record rt { state = draining; store = drain_queued_jobs now rt.store })
]
