-- ===== src/Server/JobStore/Retention.antt =====
-- The retention sweep, and the recovery after a restart.
use open_litho_hub.Base.{
  tally, ltb, count_by, ◌++◌, none, ◌⊎◌, ap, ==_iff, ℕ, ◌+◌, ◌-◌, ◌≤◌, ◌<◌, ◌≡◌, refl, inl, inr,
  Bool, true, false, not, ◌&&◌, some, List, [], ◌∷◌, String, arith, Bool-cases, length, All,
  Option-cases, ◌==◌, subst,
}
use open_litho_hub.Base.Dict.{nat_eq, mem, lookup, has_key, has_key-lookup}
use open_litho_hub.Server.Schemas.{
  JobStatus, queued, running, succeeded, failed, cancelled, is_terminal, is_running, is_queued,
  JobStatus-cases,
}
use open_litho_hub.Server.JobStore.{
  JobRecord, Jobs, Clock, reference_of, is_doomed, evict_from, evict_terminal, recover_row, recover,
  count_running,
}
use open_litho_hub.Server.JobStore.Queue.{IsStore}

-- A finished job that no download holds.
abbrev pub is_evictable : (skip : List ℕ) → JobRecord → Bool
is_evictable skip r = is_terminal r.status && not (mem r.job_id skip)

-- The last use of the job is longer ago than the time to live.
abbrev pub is_expired : (now ttl : ℕ) → JobRecord → Bool
is_expired now ttl r = ltb (reference_of r + ttl) now

-- The record stands in the list.
abbrev pub Among : JobRecord → List JobRecord → Type 0
Among r gone = (before : List JobRecord) × (after : List JobRecord) × (gone ≡ before ++ r ∷ after)

module _ (now ttl cap : ℕ) (skip : List ℕ) where
  -- What a sweep that starts with `tracked` records does: the records that go, and those that stay.
  pub record IsSweep (tracked : ℕ) (jobs : Jobs) (gone : List JobRecord) (kept : Jobs)
      : Type 0 where
    pub finished_go : All (λ r. is_evictable skip r ≡ true) gone
    pub counted : length gone + length kept ≡ length jobs
    pub accounted :
        (j : ℕ) (r : JobRecord)
        → lookup j jobs ≡ some r
        → (lookup j kept ≡ some r) ⊎ ((lookup j kept ≡ none) × Among r gone)
    pub none_new : (j : ℕ) → has_key j jobs ≡ false → has_key j kept ≡ false
    pub few_fresh : count_by (λ r. not (is_expired now ttl r)) gone ≤ tracked - cap
    pub fresh_stay : All (λ (_, r). (is_evictable skip r && is_expired now ttl r) ≡ false) kept
    pub over : cap < tracked - length gone → All (λ (_, r). is_evictable skip r ≡ false) kept

  doomed_evictable :
      (tracked k : ℕ) (r : JobRecord)
      → r.job_id ≡ k
      → is_doomed now ttl cap skip tracked k r ≡ true
      → (is_evictable skip r ≡ true)
        × (tally (not (is_expired now ttl r)) + ((tracked - 1) - cap) ≤ tracked - cap)
  unfolding is_doomed
  doomed_evictable tracked k r same d = (ground (arith, same, d), ground (arith, d))

  spared :
      (tracked k : ℕ) (r : JobRecord)
      → r.job_id ≡ k
      → is_doomed now ttl cap skip tracked k r ≡ false
      → ((is_evictable skip r && is_expired now ttl r) ≡ false)
        × (cap < tracked → is_evictable skip r ≡ false)
  unfolding is_doomed
  spared tracked k r same d = (ground (arith, same, d), (λ big. ground (arith, same, d, big)))

  doomed_accounted :
      {tracked : ℕ} {gone : List JobRecord} {kept : Jobs} (k : ℕ) (r : JobRecord) (jobs : Jobs)
      → has_key k jobs ≡ false
      → IsSweep tracked jobs gone kept
      → (j : ℕ) (x : JobRecord) → lookup j ((k, r) ∷ jobs) ≡ some x
      → (lookup j kept ≡ some x) ⊎ ((lookup j kept ≡ none) × Among x (r ∷ gone))
  unfolding lookup
  doomed_accounted {gone = gone} {kept = kept} k r jobs once p j x e = elim (Bool-cases (k == j)) [
    | inl t ↦
        let same : k ≡ j = (==_iff k j).0 t in
        let left = has_key-lookup k kept (p.none_new k once) in
        let here : r ≡ x = ground (arith, t, e) in
        inr (rw same at left, ([], gone, ap (λ y. y ∷ gone) here))
    | inr f ↦ elim (p.accounted j x (ground (arith, f, e))) [
      | inl stays ↦ inl stays
      | inr (left, (before, after, split)) ↦
          inr (left, (r ∷ before, after, ap (λ rest. r ∷ rest) split))
    ]
  ]

  spared_accounted :
      {tracked : ℕ} {gone : List JobRecord} {kept : Jobs} (k : ℕ) (r : JobRecord) (jobs : Jobs)
      → IsSweep tracked jobs gone kept
      → (j : ℕ) (x : JobRecord) → lookup j ((k, r) ∷ jobs) ≡ some x
      → (lookup j ((k, r) ∷ kept) ≡ some x) ⊎ ((lookup j ((k, r) ∷ kept) ≡ none) × Among x gone)
  unfolding lookup
  spared_accounted k r jobs p j x e = elim (Bool-cases (k == j)) [
    | inl t ↦ inl (ground (arith, t, e))
    | inr f ↦ elim (p.accounted j x (ground (arith, f, e))) [
      | inl stays ↦ inl (ground (arith, f, stays))
      | inr (left, among) ↦ inr (ground (arith, f, left), among)
    ]
  ]

  evict_from-IsSweep :
      (tracked : ℕ) (jobs : Jobs)
      → IsStore jobs
      → length jobs ≤ tracked
      → IsSweep tracked jobs
          (evict_from now ttl cap skip tracked jobs).0
          (evict_from now ttl cap skip tracked jobs).1
  unfolding evict_from lookup has_key
  evict_from-IsSweep tracked [] s h = record {
    finished_go = tt;
    counted = refl;
    accounted = λ j r e. absurd (cc);
    none_new = λ j e. refl;
    few_fresh = omega arith;
    fresh_stay = tt;
    over = λ big. tt;
  }
  evict_from-IsSweep tracked ((k, r) ∷ jobs) s h =
      elim (Bool-cases (is_doomed now ttl cap skip tracked k r)) [
        | inl d ↦
            let p = evict_from-IsSweep (tracked - 1) jobs s.2 (omega arith) in
            let q = doomed_evictable tracked k r s.0 d in
            rw d (record {
              finished_go = (q.0, p.finished_go);
              counted = omega (arith, p.counted);
              accounted = λ j x e. doomed_accounted k r jobs (s.1) p j x e;
              none_new = λ j e. p.none_new j (ground (arith, e));
              few_fresh = omega (arith, q.1, p.few_fresh);
              fresh_stay = p.fresh_stay;
              over = λ big. p.over (omega arith);
            })
        | inr d ↦
            let p = evict_from-IsSweep tracked jobs s.2 (omega arith) in
            let q = spared tracked k r s.0 d in
            rw d (record {
              finished_go = p.finished_go;
              counted = omega (arith, p.counted);
              accounted = λ j x e. spared_accounted k r jobs p j x e;
              none_new = λ j e. ground (arith, p.none_new j, e);
              few_fresh = p.few_fresh;
              fresh_stay = (q.0, p.fresh_stay);
              over = λ big. (q.1 (omega arith), p.over big);
            })
      ]

-- For a store that files each record once and under its id, a sweep dooms only finished jobs outside
-- `skip_job_ids`. Each record of the store is doomed, or is kept as it was under its id; no other is kept.
-- No expired job of this kind is kept, and none at all if more than `history_cap` records are kept; and of
-- jobs that are not expired no more are doomed than the store had records above the cap.
pub evict_terminal-IsSweep :
    (now ttl cap : ℕ) (skip : List ℕ) (jobs : Jobs)
    → IsStore jobs
    → (gone : List JobRecord) × (kept : Jobs) × (evict_terminal now ttl cap skip jobs
        ≡ (gone, kept))
      × IsSweep now ttl cap skip (length jobs) jobs gone kept
      × (cap < length kept → All (λ (_, r). is_evictable skip r ≡ false) kept)
unfolding evict_terminal
evict_terminal-IsSweep now ttl cap skip jobs s =
    let p = evict_from-IsSweep now ttl cap skip (length jobs) jobs s (omega arith) in
    let swept = evict_from now ttl cap skip (length jobs) jobs in
    (swept.0, swept.1, refl, p, (λ big. p.over (omega (arith, p.counted))))

-- A recovered row: it does not run, a finished job is as it was, one that ran has failed, and one that
-- is still QUEUED is as it was and its input is there.
abbrev pub IsRecovery : (is_file : String → Bool) → (r r' : JobRecord) → Type 0
IsRecovery is_file r r' =
    (is_running r'.status ≡ false)
    × (is_terminal r.status ≡ true → r' ≡ r)
    × (is_running r.status ≡ true → r'.status ≡ failed)
    × (is_queued r'.status ≡ true
        → (r' ≡ r) × ((path : String) × (r.input_path ≡ some path) × (is_file path ≡ true)))

idle_when_terminal :
    (s : JobStatus) → is_terminal s ≡ true → (is_running s ≡ false) × (is_queued s ≡ false)
idle_when_terminal queued h = absurd cc
idle_when_terminal running h = absurd cc
idle_when_terminal succeeded h = (refl, refl)
idle_when_terminal failed h = (refl, refl)
idle_when_terminal cancelled h = (refl, refl)

finished :
    (is_file : String → Bool) (r r' : JobRecord)
    → is_terminal r.status ≡ true
    → r' ≡ r
    → IsRecovery is_file r r'
finished is_file r r' t same =
    let (no_run, no_wait) = idle_when_terminal r.status t in
    (
      ground (arith, same, no_run),
      (λ h. same),
      (λ h. absurd (ground (arith, h, no_run))),
      (λ h. absurd (ground (arith, same, h, no_wait))),
    )

recover_row-IsRecovery :
    (is_file : String → Bool) (now : Clock) (r : JobRecord)
    → IsRecovery is_file r (recover_row is_file now r)
unfolding recover_row
recover_row-IsRecovery is_file now r =
    let r' = recover_row is_file now r in
    elim (JobStatus-cases r.status) [
      | inl q ↦ elim (Option-cases r.input_path) [
        | inl e ↦
            let c : r'.status ≡ cancelled = ground (arith, q, e) in
            (
              ground (arith, c),
              (λ h. absurd (ground (arith, q, h))),
              (λ h. absurd (ground (arith, q, h))),
              (λ h. absurd (ground (arith, c, h))),
            )
        | inr (path, e) ↦ elim (Bool-cases (is_file path)) [
          | inl t ↦
              let same : r' ≡ r = ground (arith, q, e, t) in
              (
                ground (arith, same, q),
                (λ h. same),
                (λ h. absurd (ground (arith, q, h))),
                (λ h. (same, (path, e, t))),
              )
          | inr f ↦
              let c : r'.status ≡ cancelled = ground (arith, q, e, f) in
              (
                ground (arith, c),
                (λ h. absurd (ground (arith, q, h))),
                (λ h. absurd (ground (arith, q, h))),
                (λ h. absurd (ground (arith, c, h))),
              )
        ]
      ]
      | inr (inl t) ↦
          let c : r'.status ≡ failed = ground (arith, t) in
          (
            ground (arith, c),
            (λ h. absurd (ground (arith, t, h))),
            (λ h. c),
            (λ h. absurd (ground (arith, c, h))),
          )
      | inr (inr (inl t)) ↦ finished is_file r r' (ground (arith, t)) (ground (arith, t))
      | inr (inr (inr (inl t))) ↦ finished is_file r r' (ground (arith, t)) (ground (arith, t))
      | inr (inr (inr (inr t))) ↦ finished is_file r r' (ground (arith, t)) (ground (arith, t))
    ]

-- After a restart, for every record of the store: the record with its id is RUNNING no more, is as it
-- was if it had finished, has failed if it ran, and is QUEUED only if it was and its input is a file;
-- no record is RUNNING.
pub recover-IsRecovery :
    (is_file : String → Bool) (now : Clock) (jobs : Jobs)
    → (count_running (recover is_file now jobs) ≡ 0)
      × ((j : ℕ) (r : JobRecord)
          → lookup j jobs ≡ some r
          → (r' : JobRecord) × (lookup j (recover is_file now jobs) ≡ some r')
            × IsRecovery is_file r r')
unfolding recover lookup
recover-IsRecovery is_file now [] = (refl, (λ j r h. absurd cc))
recover-IsRecovery is_file now ((k, r) ∷ jobs) =
    let (none_run, found) = recover-IsRecovery is_file now jobs in
    let p = recover_row-IsRecovery is_file now r in
    (
      ground (arith, none_run, p.0),
      (λ j q h. elim (Bool-cases (k == j)) [
        | inl t ↦
            let same : r ≡ q = ground arith in
            (
              recover_row is_file now r,
              rw t refl,
              subst (λ x. IsRecovery is_file x (recover_row is_file now r)) same p,
            )
        | inr f ↦ let (q', e, p') = found j q (ground arith) in (q', rw f e, p')
      ]),
    )
