-- ===== src/Server/JobStore/Queue.antt =====
-- The queue of the store: the well-formed stores, and the claim of the first QUEUED record.
use open_litho_hub.Base.{
  ℕ, suc, ◌==◌, ◌≡◌, refl, true, false, none, some, [], ◌∷◌, ◌⊎◌, arith, Bool-cases, ==_iff, inl,
  inr,
}
use open_litho_hub.Base.Dict.{nat_eq, lookup, has_key}
use open_litho_hub.Server.Schemas.{
  JobStatus, queued, running, succeeded, failed, cancelled, is_queued, is_running,
}
use open_litho_hub.Server.JobStore.{
  JobRecord, Jobs, Clock, claim_next, peek_next_queued, count_queued, count_running,
}

-- Each record is filed under its id, and once.
abbrev pub IsStore : Jobs → Type 0
IsStore [] = Unit
IsStore ((k, r) ∷ jobs) = (r.job_id ≡ k) × (has_key k jobs ≡ false) × IsStore jobs

-- What a claim does to the store: the record with the id runs, all others are as before.
pub record IsClaim (jobs : Jobs) (job_id : ℕ) (r : JobRecord) (jobs' : Jobs) : Type 0 where
  pub same_id : r.job_id ≡ job_id
  pub waited : (old : JobRecord) × (lookup job_id jobs ≡ some old) × (is_queued old.status ≡ true)
  pub runs : r.status ≡ running
  pub filed : lookup job_id jobs' ≡ some r
  pub others : (j : ℕ) → (j == job_id) ≡ false → lookup j jobs' ≡ lookup j jobs
  pub one_less : count_queued jobs ≡ suc (count_queued jobs')
  pub one_more : count_running jobs' ≡ suc (count_running jobs)
  pub store : IsStore jobs'
  pub keys : (j : ℕ) → has_key j jobs' ≡ has_key j jobs

claim_next-absent :
    (now : Clock) (jobs : Jobs)
    → peek_next_queued jobs ≡ none
    → (claim_next now jobs ≡ (none, jobs)) × (count_queued jobs ≡ 0)
unfolding claim_next peek_next_queued
claim_next-absent now [] h = (refl, refl)
claim_next-absent now ((k, r) ∷ jobs) h = ground (arith, claim_next-absent now jobs)

peek_has_key :
    (jobs : Jobs) (id : ℕ) → IsStore jobs → peek_next_queued jobs ≡ some id → has_key id jobs ≡ true
unfolding peek_next_queued has_key
peek_has_key [] id s h = absurd cc
peek_has_key ((k, r) ∷ jobs) id s h = ground (arith, peek_has_key jobs id s.2, ==_iff k id)

queued_idle : (s : JobStatus) → is_queued s ≡ true → is_running s ≡ false
queued_idle queued h = refl
queued_idle running h = absurd cc
queued_idle succeeded h = refl
queued_idle failed h = refl
queued_idle cancelled h = refl

-- For a store that files each record once and under its id: when no record is QUEUED, claim_next
-- returns none and changes nothing; else it returns the record that peek_next_queued names, which was QUEUED and is now
-- RUNNING and filed under its id, every other record is as it was, one record less is QUEUED and one
-- more RUNNING, and the store is again such a store with the same ids.
pub claim_next-IsClaim :
    (now : Clock) (jobs : Jobs)
    → IsStore jobs
    → ((peek_next_queued jobs ≡ none) × (claim_next now jobs ≡ (none, jobs)))
      ⊎ ((id : ℕ) × (r : JobRecord) × (jobs' : Jobs) × (peek_next_queued jobs ≡ some id)
          × (claim_next now jobs ≡ (some r, jobs'))
          × IsClaim jobs id r jobs')
unfolding claim_next peek_next_queued lookup has_key
claim_next-IsClaim now [] s = inl (refl, refl)
claim_next-IsClaim now ((k, r) ∷ jobs) s = elim (Bool-cases (is_queued r.status)) [
  | inl q ↦ inr (
    k,
    record r { status = running; started_utc = some now.utc },
    (k, record r { status = running; started_utc = some now.utc }) ∷ jobs,
    ground (arith, s.0),
    rw q refl,
    record {
      same_id = s.0;
      waited = (r, ground arith, q);
      runs = refl;
      filed = ground arith;
      others = (λ j ne. ground (arith, ==_iff k j));
      one_less = ground arith;
      one_more = ground (arith, queued_idle r.status q);
      store = s;
      keys = (λ j. refl);
    },
  )
  | inr q ↦ elim (claim_next-IsClaim now jobs s.2) [
    | inl (e, e') ↦ inl (rw q e, rw (q, e') refl)
    | inr (id, r', jobs', e, e', p) ↦ inr (
      id,
      r',
      (k, r) ∷ jobs',
      rw q e,
      rw (q, e') refl,
      record {
        same_id = p.same_id;
        waited = (
          p.waited.0,
          ground (arith, p.waited.1, peek_has_key jobs id s.2 e, ==_iff k id, s.1),
          p.waited.2,
        );
        runs = p.runs;
        filed = ground (arith, peek_has_key jobs id s.2 e, p.filed, ==_iff k id, s.1);
        others = (λ j ne. ground (arith, p.others j ne));
        one_less = omega (arith, p.one_less);
        one_more = omega (arith, p.one_more);
        store = (s.0, rw (p.keys k) (s.1), p.store);
        keys = (λ j. rw (p.keys j) refl);
      },
    )
  ]
]
