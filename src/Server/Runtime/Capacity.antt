-- ===== src/Server/Runtime/Capacity.antt =====
-- The bounds of the runtime: queued work and uploads within the depth, admissions within the permits.
use open_litho_hub.Base.{
  ℕ, ◌+◌, ◌-◌, ◌≤◌, ◌<◌, ◌≡◌, inl, inr, none, some, map, ok, ltb, leb, arith, Bool-cases,
  Option-cases, Outcome-cases, length, sym,
}
use open_litho_hub.Base.Dict.{
  Dict, nat_eq, lookup, insert, count_values, count_values-insert_new, count_values-insert_old,
}
use open_litho_hub.Server.Schemas.{JobStatus, cancelled, is_queued, is_running}
use open_litho_hub.Server.JobStore.{
  JobRecord, Jobs, Clock, Changes, create_queued, count_queued, claim_next, transition,
  touch_artifact, delete, evict_terminal,
}
use open_litho_hub.Server.Runtime.{
  RuntimeState, Runtime, ReservationState, active, committed, released, is_active, is_accepting,
  try_acquire_admission, release_admission, try_reserve_job_slot, release_reserved_slot,
  enqueue_reserved, commit, release, release_if_active, error_only, delete_job, sweep,
}
use open_litho_hub.Server.Runtime.Queued.{
  claim_next-queued, transition-queued, evict_from-queued, delete-queued, touch-queued,
  create_queued-queued,
}

-- The reservations that were handed out, by a number for each.
abbrev pub Reservations : Type 0
Reservations = Dict ℕ ReservationState

-- The slots of the ACTIVE reservations and the queued records are within the depth, and every permit
-- of the semaphore is there or in use.
pub record IsBounded (capacity : ℕ) (rt : Runtime) (rs : Reservations) : Type 0 where
  pub slots : rt.slots_reserved ≡ count_values is_active rs
  pub depth : count_queued rt.store + rt.slots_reserved ≤ rt.job_queue_depth
  pub admissions : rt.permits + rt.admission_in_use ≡ capacity

-- One operation of the runtime on behalf of any thread.
pub data Step : Runtime → Reservations → Runtime → Reservations → Type 0 where
  reserved :
      (id : ℕ) (rt rt' : Runtime) (rs : Reservations) (s : ReservationState)
      → lookup id rs ≡ none
      → try_reserve_job_slot rt ≡ ok (s, rt')
      → Step rt rs rt' (insert id s rs)
  committed_ :
      (id : ℕ) (r : JobRecord) (rt rt' : Runtime) (rs : Reservations) (s s' : ReservationState)
      → lookup id rs ≡ some s
      → commit r s rt ≡ ok (s', rt')
      → Step rt rs rt' (insert id s' rs)
  released_ :
      (id : ℕ) (rt rt' : Runtime) (rs : Reservations) (s s' : ReservationState)
      → lookup id rs ≡ some s
      → release s rt ≡ (ok rt', s')
      → Step rt rs rt' (insert id s' rs)
  left :
      (id : ℕ) (rt rt' : Runtime) (rs : Reservations) (s s' : ReservationState)
      → lookup id rs ≡ some s
      → release_if_active s rt ≡ (ok rt', s')
      → Step rt rs rt' (insert id s' rs)
  acquired : (rt : Runtime) (rs : Reservations) → Step rt rs (try_acquire_admission rt).1 rs
  gave_back :
      (rt rt' : Runtime) (rs : Reservations) → release_admission rt ≡ ok rt' → Step rt rs rt' rs
  claimed :
      (now : Clock) (rt : Runtime) (rs : Reservations)
      → Step rt rs (record rt { store = (claim_next now rt.store).1 }) rs
  changed :
      (now : Clock) (j : ℕ) (new : JobStatus) (c : Changes) (r : JobRecord) (m : Jobs)
      (rt : Runtime) (rs : Reservations)
      → transition now j new c rt.store ≡ ok (r, m)
      → Step rt rs (record rt { store = m }) rs
  touched :
      (now : Clock) (j : ℕ) (rt : Runtime) (rs : Reservations)
      → Step rt rs (record rt { store = touch_artifact now j rt.store }) rs
  deleted :
      (now : Clock) (j : ℕ) (r : JobRecord) (rt rt' : Runtime) (rs : Reservations)
      → delete_job now j rt ≡ ok (r, rt')
      → Step rt rs rt' rs
  swept : (now : ℕ) (rt : Runtime) (rs : Reservations) → Step rt rs (sweep now rt).1 rs
  turned :
      (state : RuntimeState) (rt : Runtime) (rs : Reservations)
      → Step rt rs (record rt { state = state }) rs

delete_job-bounded :
    (now : Clock) (j : ℕ) (r : JobRecord) (rt rt' : Runtime)
    → delete_job now j rt ≡ ok (r, rt')
    → (m : Jobs) × (rt' ≡ record rt { store = m }) × (count_queued m ≤ count_queued rt.store)
unfolding delete_job
delete_job-bounded now j r rt rt' e = elim (Option-cases (lookup j rt.store)) [
  | inl none_ ↦ absurd (ground (arith, e, none_))
  | inr (old, found) ↦ elim (Bool-cases (is_running old.status)) [
    | inl t ↦ absurd (ground (arith, e, found, t))
    | inr f ↦ elim (Bool-cases (is_queued old.status)) [
      | inr idle ↦ elim (Outcome-cases (delete j rt.store)) [
        | inr (x, gone) ↦ absurd (ground (arith, e, found, f, idle, gone))
        | inl ((q, m), gone) ↦
            (m, ground (arith, e, found, f, idle, gone), delete-queued j q rt.store m gone)
      ]
      | inl wait ↦
          elim (Outcome-cases
            (transition now j cancelled (error_only "deleted while queued") rt.store)) [
              | inr (x, stop) ↦ absurd (ground (arith, e, found, f, wait, stop))
              | inl ((q, m), turn) ↦ elim (Outcome-cases (delete j m)) [
                | inr (x, gone) ↦ absurd (ground (arith, e, found, f, wait, turn, gone))
                | inl ((q', m'), gone) ↦
                    let first =
                      transition-queued now j cancelled (error_only "deleted while queued") q
                        rt.store m turn in
                    let second = delete-queued j q' m m' gone in
                    (m', ground (arith, e, found, f, wait, turn, gone), omega arith)
              ]
            ]
    ]
  ]
]

module _ (capacity : ℕ) where
  step_reserved :
      (id : ℕ) (rt rt' : Runtime) (rs : Reservations) (s : ReservationState)
      → lookup id rs ≡ none
      → try_reserve_job_slot rt ≡ ok (s, rt')
      → IsBounded capacity rt rs
      → IsBounded capacity rt' (insert id s rs)
  unfolding try_reserve_job_slot
  step_reserved id rt rt' rs s free e b =
      let count = count_values-insert_new is_active id s rs free in
      elim (Bool-cases (is_accepting rt.state)) [
        | inr f ↦ absurd (ground (arith, e, f))
        | inl t ↦
            elim (Bool-cases (ltb (count_queued rt.store + rt.slots_reserved) rt.job_queue_depth)) [
              | inr f ↦ absurd (ground (arith, e, t, f))
              | inl room ↦
                  let same : rt' ≡ record rt { slots_reserved = rt.slots_reserved + 1 } =
                    ground (arith, e, t, room) in
                  let fresh : s ≡ active = ground (arith, e, t, room) in
                  rw same (record {
                    slots = ground (arith, count, fresh, b.slots);
                    depth = ground (arith, room);
                    admissions = b.admissions;
                  })
            ]
      ]

  step_committed :
      (id : ℕ) (r : JobRecord) (rt rt' : Runtime) (rs : Reservations) (s s' : ReservationState)
      → lookup id rs ≡ some s
      → commit r s rt ≡ ok (s', rt')
      → IsBounded capacity rt rs
      → IsBounded capacity rt' (insert id s' rs)
  unfolding commit enqueue_reserved
  step_committed id r rt rt' rs committed s' held e b = absurd (ground (arith, e))
  step_committed id r rt rt' rs released s' held e b = absurd (ground (arith, e))
  step_committed id r rt rt' rs active s' held e b =
      let count = count_values-insert_old is_active id s' active rs held in
      let more = create_queued-queued r rt.store in
      elim (Bool-cases (is_accepting rt.state)) [
        | inr f ↦ absurd (ground (arith, e, f))
        | inl t ↦ elim (Bool-cases (ltb 0 rt.slots_reserved)) [
          | inr f ↦ absurd (ground (arith, e, t, f))
          | inl room ↦
              let same : rt' ≡ record rt {
                store = create_queued r rt.store;
                slots_reserved = rt.slots_reserved - 1;
              } =
                ground (arith, e, t, room) in
              let ended : s' ≡ committed = ground (arith, e, t, room) in
              let positive : 0 < rt.slots_reserved = ground (arith, room) in
              let within : count_queued (create_queued r rt.store) + (rt.slots_reserved - 1)
                  ≤ rt.job_queue_depth =
                omega (arith, b.depth) in
              rw same (record {
                slots = ground (arith, count, ended, b.slots);
                depth = within;
                admissions = b.admissions;
              })
        ]
      ]

  step_released :
      (id : ℕ) (rt rt' : Runtime) (rs : Reservations) (s s' : ReservationState)
      → lookup id rs ≡ some s
      → release_if_active s rt ≡ (ok rt', s')
      → IsBounded capacity rt rs
      → IsBounded capacity rt' (insert id s' rs)
  unfolding release_if_active release_reserved_slot
  step_released id rt rt' rs committed s' held e b =
      let count = count_values-insert_old is_active id s' committed rs held in
      let same : rt ≡ rt' = ground (arith, e) in
      let ended : s' ≡ committed = ground (arith, e) in
      rw (sym same) (record {
        slots = ground (arith, count, ended, b.slots);
        depth = b.depth;
        admissions = b.admissions;
      })
  step_released id rt rt' rs released s' held e b =
      let count = count_values-insert_old is_active id s' released rs held in
      let same : rt ≡ rt' = ground (arith, e) in
      let ended : s' ≡ released = ground (arith, e) in
      rw (sym same) (record {
        slots = ground (arith, count, ended, b.slots);
        depth = b.depth;
        admissions = b.admissions;
      })
  step_released id rt rt' rs active s' held e b =
      let count = count_values-insert_old is_active id s' active rs held in
      elim (Bool-cases (ltb 0 rt.slots_reserved)) [
        | inr f ↦ absurd (ground (arith, e, f))
        | inl room ↦
            let same : rt' ≡ record rt { slots_reserved = rt.slots_reserved - 1 } =
              ground (arith, e, room) in
            let ended : s' ≡ released = ground (arith, e, room) in
            let within : count_queued rt.store + (rt.slots_reserved - 1) ≤ rt.job_queue_depth =
              omega (arith, b.depth) in
            rw same (record {
              slots = ground (arith, count, ended, b.slots);
              depth = within;
              admissions = b.admissions;
            })
      ]

  -- release is release_if_active where it does not raise.
  released_if_active :
      (s s' : ReservationState) (rt rt' : Runtime)
      → release s rt ≡ (ok rt', s')
      → release_if_active s rt ≡ (ok rt', s')
  unfolding release release_if_active
  released_if_active active s' rt rt' e = e
  released_if_active committed s' rt rt' e = absurd (ground (arith, e))
  released_if_active released s' rt rt' e = absurd (ground (arith, e))

  step_acquired :
      (rt : Runtime) (rs : Reservations)
      → IsBounded capacity rt rs
      → IsBounded capacity (try_acquire_admission rt).1 rs
  unfolding try_acquire_admission
  step_acquired rt rs b = elim (Bool-cases (leb rt.permits 0)) [
    | inl f ↦ rw (f, try_acquire_admission) b
    | inr t ↦
        rw (t, try_acquire_admission)
          (record {
            slots = b.slots;
            depth = b.depth;
            admissions = ground (arith, t, b.admissions);
          })
  ]

  step_gave_back :
      (rt rt' : Runtime) (rs : Reservations)
      → release_admission rt ≡ ok rt'
      → IsBounded capacity rt rs
      → IsBounded capacity rt' rs
  unfolding release_admission
  step_gave_back rt rt' rs e b = elim (Bool-cases (leb rt.admission_in_use 0)) [
    | inl f ↦ absurd (ground (arith, e, f))
    | inr t ↦
        let same : rt'
            ≡ record rt { permits = rt.permits + 1; admission_in_use = rt.admission_in_use - 1 } =
          ground (arith, e, t) in
        rw same (record {
          slots = b.slots;
          depth = b.depth;
          admissions = ground (arith, t, b.admissions);
        })
  ]

  step_store :
      (m : Jobs) (rt : Runtime) (rs : Reservations)
      → count_queued m ≤ count_queued rt.store
      → IsBounded capacity rt rs
      → IsBounded capacity (record rt { store = m }) rs
  step_store m rt rs h b = record {
    slots = b.slots;
    depth = omega (arith, b.depth);
    admissions = b.admissions;
  }

  Step-IsBounded :
      (rt rt' : Runtime) (rs rs' : Reservations)
      → IsBounded capacity rt rs
      → Step rt rs rt' rs'
      → IsBounded capacity rt' rs'
  unfolding sweep evict_terminal
  Step-IsBounded rt rt' rs _ b (reserved id _ _ _ s free e) = step_reserved id rt rt' rs s free e b
  Step-IsBounded rt rt' rs _ b (committed_ id r _ _ _ s s' held e) =
      step_committed id r rt rt' rs s s' held e b
  Step-IsBounded rt rt' rs _ b (released_ id _ _ _ s s' held e) =
      step_released id rt rt' rs s s' held (released_if_active s s' rt rt' e) b
  Step-IsBounded rt rt' rs _ b (left id _ _ _ s s' held e) =
      step_released id rt rt' rs s s' held e b
  Step-IsBounded rt _ rs _ b (acquired _ _) = step_acquired rt rs b
  Step-IsBounded rt rt' rs _ b (gave_back _ _ _ e) = step_gave_back rt rt' rs e b
  Step-IsBounded rt _ rs _ b (claimed now _ _) =
      step_store (claim_next now rt.store).1 rt rs (claim_next-queued now rt.store) b
  Step-IsBounded rt _ rs _ b (changed now j new c r m _ _ e) =
      step_store m rt rs (transition-queued now j new c r rt.store m e) b
  Step-IsBounded rt _ rs _ b (touched now j _ _) =
      step_store (touch_artifact now j rt.store) rt rs (touch-queued now j rt.store) b
  Step-IsBounded rt rt' rs _ b (deleted now j r _ _ _ e) =
      let (m, same, less) = delete_job-bounded now j r rt rt' e in
      rw same (step_store m rt rs less b)
  Step-IsBounded rt _ rs _ b (swept now _ _) =
      step_store _ rt rs
        (evict_from-queued now rt.job_ttl_seconds rt.job_history_cap (map (λ (id, _). id) rt.leases)
          (length rt.store) rt.store)
        b
  Step-IsBounded rt _ rs _ b (turned state _ _) = record {
    slots = b.slots;
    depth = b.depth;
    admissions = b.admissions;
  }

pub data Run : Runtime → Reservations → Runtime → Reservations → Type 0 where
  done : (rt : Runtime) (rs : Reservations) → Run rt rs rt rs
  then_ :
      (rt rt' rt'' : Runtime) (rs rs' rs'' : Reservations)
      → Step rt rs rt' rs'
      → Run rt' rs' rt'' rs''
      → Run rt rs rt'' rs''

-- From a runtime in which the reserved slots are those of the ACTIVE reservations, QUEUED records and
-- reserved slots are within the queue depth, and permits and admissions add up to the capacity, every
-- sequence of operations, in any order, leads to such a runtime: persisted work and uploads in flight
-- never overbook the queue, and no more runs are admitted than the capacity.
pub Run-IsBounded :
    (capacity : ℕ) (rt rt' : Runtime) (rs rs' : Reservations)
    → IsBounded capacity rt rs
    → Run rt rs rt' rs'
    → IsBounded capacity rt' rs'
Run-IsBounded capacity rt _ rs _ b (done _ _) = b
Run-IsBounded capacity rt rt' rs rs' b (then_ _ rt1 _ _ rs1 _ step run) =
    Run-IsBounded capacity rt1 rt' rs1 rs' (Step-IsBounded capacity rt rt1 rs rs1 b step) run
