-- ===== src/Server/JobStore/Lifecycle.antt =====
-- The life of a job under every operation of the store.
use open_litho_hub.Base.{
  ℕ, ◌==◌, ◌≡◌, refl, inl, inr, Bool, true, false, Option, none, some, List, [], ◌∷◌, String, ok,
  arith, Bool-cases, ==_iff,
}
use open_litho_hub.Base.Dict.{nat_eq, lookup, insert, has_key, has_key-insert}
use open_litho_hub.Server.Schemas.{JobStatus, queued, running, succeeded, failed, cancelled}
use open_litho_hub.Server.JobStore.{
  JobRecord, Jobs, Clock, Changes, create_queued, claim_next, transition, touch_artifact, delete,
  evict_terminal, recover,
}
use open_litho_hub.Server.JobStore.Queue.{IsStore}

-- The states that a job may have later, and which record may later stand where one stood: a job may
-- go, but none comes.
abbrev pub leads : JobStatus → JobStatus → Bool
leads queued _ = true
leads running queued = false
leads running cancelled = false
leads running _ = true
leads succeeded succeeded = true
leads failed failed = true
leads cancelled cancelled = true
leads _ _ = false

abbrev pub continues : Option JobRecord → Option JobRecord → Bool
continues _ none = true
continues none (some _) = false
continues (some r) (some r') = leads r.status r'.status

-- One operation of the store. The ones that raise leave it as it was.
pub data Step (is_file : String → Bool) : Jobs → Jobs → Type 0 where
  created : (r : JobRecord) (jobs : Jobs) → Step is_file jobs (create_queued r jobs)
  claimed : (now : Clock) (jobs : Jobs) → Step is_file jobs (claim_next now jobs).1
  changed :
      (now : Clock) (j : ℕ) (new : JobStatus) (c : Changes) (r : JobRecord) (jobs jobs' : Jobs)
      → transition now j new c jobs ≡ ok (r, jobs')
      → Step is_file jobs jobs'
  touched : (now : Clock) (j : ℕ) (jobs : Jobs) → Step is_file jobs (touch_artifact now j jobs)
  deleted :
      (j : ℕ) (r : JobRecord) (jobs jobs' : Jobs)
      → delete j jobs ≡ ok (r, jobs')
      → Step is_file jobs jobs'
  evicted :
      (now ttl cap : ℕ) (skip : List ℕ) (jobs : Jobs)
      → Step is_file jobs (evict_terminal now ttl cap skip jobs).1
  recovered : (now : Clock) (jobs : Jobs) → Step is_file jobs (recover is_file now jobs)

pub lookup_job_id :
    (j : ℕ) (r : JobRecord) (m : Jobs) → IsStore m → lookup j m ≡ some r → r.job_id ≡ j
unfolding lookup
lookup_job_id j r [] s h = absurd cc
lookup_job_id j r ((k, q) ∷ m) s h = ground (arith, lookup_job_id j r m s.2, ==_iff k j, s.0)

pub insert-IsStore :
    (k : ℕ) (r : JobRecord) (m : Jobs) → r.job_id ≡ k → IsStore m → IsStore (insert k r m)
unfolding insert has_key
insert-IsStore k r [] e s = (e, refl, tt)
insert-IsStore k r ((j, q) ∷ m) e s = elim (Bool-cases (j == k)) [
  | inl t ↦ rw t (ground (arith, ==_iff j k, s.0), s.1, s.2)
  | inr f ↦ rw f (
    s.0,
    ground (arith, has_key-insert k j r m, ==_iff k j, ==_iff j k, s.1),
    insert-IsStore k r m e s.2,
  )
]

-- An operation keeps the store well-formed, and carries on the record of `id`.
abbrev Keeps : (id : ℕ) → Jobs → Jobs → Type 0
Keeps id m m' = IsStore m' × (continues (lookup id m) (lookup id m') ≡ true)

-- The operation files the job `id` anew.
abbrev Files : (id : ℕ) → Jobs → Jobs → Type 0
Files id m m' = (r : JobRecord) × (r.job_id ≡ id) × (m' ≡ create_queued r m)

-- A run: any sequence of operations.
pub data Run (is_file : String → Bool) : Jobs → Jobs → Type 0 where
  done : (m : Jobs) → Run is_file m m
  then_ : (m m' m'' : Jobs) → Step is_file m m' → Run is_file m' m'' → Run is_file m m''

-- The run up to a creation of the job `id`, which carries on the record that was there, and the rest.
pub record Refiled (is_file : String → Bool) (id : ℕ) (m m' : Jobs) : Type 0 where
  pub old : Jobs
  pub filed : JobRecord
  pub earlier : Run is_file m old
  pub carried : continues (lookup id m) (lookup id old) ≡ true
  pub same_id : filed.job_id ≡ id
  pub later : Run is_file (create_queued filed old) m'
