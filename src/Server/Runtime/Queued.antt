-- ===== src/Server/Runtime/Queued.antt =====
-- Only create_queued adds to the queue of the store.
use open_litho_hub.Base.{
  ℕ, suc, ◌-◌, ◌≤◌, ◌≡◌, refl, inl, inr, true, false, List, [], ◌∷◌, ok, arith, Bool-cases,
  Option-cases,
}
use open_litho_hub.Base.Dict.{
  nat_eq, lookup, insert, remove, count_values-insert_new, count_values-insert_old,
  count_values-remove,
}
use open_litho_hub.Server.Schemas.{
  JobStatus, queued, running, succeeded, failed, cancelled, job_transitions, transition_job_status,
  is_queued, JobStatus-cases,
}
use open_litho_hub.Server.JobStore.{
  JobRecord, Jobs, Clock, Changes, create_queued, count_queued, claim_next, transition,
  transitioned, touch_artifact, delete, evict_from,
}

queued_of_legal : (a b : JobStatus) → job_transitions a b ≡ true → is_queued b ≡ false
unfolding job_transitions
queued_of_legal a queued h = elim (JobStatus-cases a) [
  | inl e ↦ absurd (ground (arith, h, e))
  | inr (inl e) ↦ absurd (ground (arith, h, e))
  | inr (inr (inl e)) ↦ absurd (ground (arith, h, e))
  | inr (inr (inr (inl e))) ↦ absurd (ground (arith, h, e))
  | inr (inr (inr (inr e))) ↦ absurd (ground (arith, h, e))
]
queued_of_legal a running h = refl
queued_of_legal a succeeded h = refl
queued_of_legal a failed h = refl
queued_of_legal a cancelled h = refl

-- No operation but create_queued adds to the queue.
pub claim_next-queued :
    (now : Clock) (m : Jobs) → count_queued (claim_next now m).1 ≤ count_queued m
unfolding claim_next
claim_next-queued now [] = omega arith
claim_next-queued now ((k, r) ∷ m) = ground (arith, claim_next-queued now m)

pub transition-queued :
    (now : Clock) (j : ℕ) (new : JobStatus) (c : Changes) (r : JobRecord) (m m' : Jobs)
    → transition now j new c m ≡ ok (r, m')
    → count_queued m' ≤ count_queued m
unfolding transition transition_job_status transitioned
transition-queued now j new c r m m' e = elim (Option-cases (lookup j m)) [
  | inl none_ ↦ absurd (ground (arith, none_, e))
  | inr (old, found) ↦ elim (Bool-cases (job_transitions old.status new)) [
    | inr f ↦ absurd (ground (arith, found, f, e))
    | inl t ↦
        let r' = transitioned now new c old in
        let same : m' ≡ insert j r' m = ground (arith, found, t, e) in
        let count = count_values-insert_old (λ q. is_queued q.status) j r' old m found in
        rw same (ground (arith, count, queued_of_legal old.status new t))
  ]
]

pub evict_from-queued :
    (now ttl cap : ℕ) (skip : List ℕ) (tracked : ℕ) (m : Jobs)
    → count_queued (evict_from now ttl cap skip tracked m).1 ≤ count_queued m
unfolding evict_from
evict_from-queued now ttl cap skip tracked [] = omega arith
evict_from-queued now ttl cap skip tracked ((k, r) ∷ m) = ground (
  arith,
  evict_from-queued now ttl cap skip (tracked - 1) m,
  evict_from-queued now ttl cap skip tracked m,
)

pub delete-queued :
    (j : ℕ) (r : JobRecord) (m m' : Jobs)
    → delete j m ≡ ok (r, m')
    → count_queued m' ≤ count_queued m
unfolding delete
delete-queued j r m m' e = elim (Option-cases (lookup j m)) [
  | inl none_ ↦ absurd (ground (arith, none_, e))
  | inr (old, found) ↦
      let same : m' ≡ remove j m = ground (arith, found, e) in
      rw same (count_values-remove (λ q. is_queued q.status) j m)
]

pub touch-queued :
    (now : Clock) (j : ℕ) (m : Jobs) → count_queued (touch_artifact now j m) ≤ count_queued m
unfolding touch_artifact
touch-queued now j m = elim (Option-cases (lookup j m)) [
  | inl none_ ↦ ground (arith, none_)
  | inr (old, found) ↦
      let r = record old { last_access_unix = now.unix } in
      let count = count_values-insert_old (λ q. is_queued q.status) j r old m found in
      ground (arith, found, count)
]

pub create_queued-queued :
    (r : JobRecord) (m : Jobs) → count_queued (create_queued r m) ≤ suc (count_queued m)
unfolding create_queued
create_queued-queued r m =
    let r' = record r { status = queued } in
    elim (Option-cases (lookup r.job_id m)) [
      | inl none_ ↦
          ground (arith, count_values-insert_new (λ q. is_queued q.status) r.job_id r' m none_)
      | inr (old, found) ↦
          ground (arith, count_values-insert_old (λ q. is_queued q.status) r.job_id r' old m found)
    ]
