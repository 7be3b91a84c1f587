-- ===== src/Server/Schemas.antt =====
-- src/openlithohub/server/schemas.py: the job states and their legal transitions.
use open_litho_hub.Base.{
  ◌⊎◌, inl, inr, Bool, true, false, ◌≡◌, refl, ok, raise, Outcome, if◌then◌else◌,
}

pub data JobStatus : Type 0 where
  queued running succeeded failed cancelled : JobStatus

-- The exceptions of the server.
pub data ServerError : Type 0 where
  illegal_job_transition unknown_job job_running artifact_unavailable not_new duplicate_job
        admission_denied unhandled :
      ServerError
  not_accepting queue_full reservation_underflow enqueue_without_reservation : ServerError
  already_committed already_released release_of_committed admission_underflow : ServerError

-- `new in JOB_TRANSITIONS[current]`
unfoldable pub job_transitions : JobStatus → JobStatus → Bool
job_transitions queued running = true
job_transitions queued cancelled = true
job_transitions running succeeded = true
job_transitions running failed = true
job_transitions _ _ = false

unfoldable pub transition_job_status : JobStatus → JobStatus → Outcome ServerError JobStatus
unfolding job_transitions
transition_job_status current new =
    if job_transitions current new then ok new else raise illegal_job_transition

abbrev pub is_queued : JobStatus → Bool
is_queued queued = true
is_queued _ = false

abbrev pub is_running : JobStatus → Bool
is_running running = true
is_running _ = false

-- `status in (SUCCEEDED, FAILED, CANCELLED)`
abbrev pub is_terminal : JobStatus → Bool
is_terminal succeeded = true
is_terminal failed = true
is_terminal cancelled = true
is_terminal _ = false

pub JobStatus-cases :
    (s : JobStatus)
    → (s ≡ queued) ⊎ ((s ≡ running) ⊎ ((s ≡ succeeded) ⊎ ((s ≡ failed) ⊎ (s ≡ cancelled))))
JobStatus-cases queued = inl refl
JobStatus-cases running = inr (inl refl)
JobStatus-cases succeeded = inr (inr (inl refl))
JobStatus-cases failed = inr (inr (inr (inl refl)))
JobStatus-cases cancelled = inr (inr (inr (inr refl)))
