-- ===== src/Server/SqliteStore/Oldest.antt =====
-- claim_next of the durable store claims an oldest job of the queue.
use open_litho_hub.Base.{
  ℕ, ◌==◌, ◌≤◌, ◌≡◌, refl, ◌⊎◌, inl, inr, true, false, none, some, [], ◌∷◌, leb, if◌then◌else◌,
  arith, Bool-cases, ==_iff,
}
use open_litho_hub.Base.Dict.{nat_eq, lookup, insert, has_key, lookup-insert, has_key-lookup}
use open_litho_hub.Server.Schemas.{running, is_queued}
use open_litho_hub.Server.JobStore.{JobRecord, Jobs, Clock}
use open_litho_hub.Server.JobStore.Queue.{IsStore}
use open_litho_hub.Server.JobStore.Lifecycle.{insert-IsStore}
use open_litho_hub.Server.SqliteStore.{oldest_queued, sqlite_peek_next_queued, sqlite_claim_next}

-- The row is QUEUED and filed under its id, and no QUEUED row is older.
pub record IsOldest (rows : Jobs) (r : JobRecord) : Type 0 where
  pub waits : is_queued r.status ≡ true
  pub filed : lookup r.job_id rows ≡ some r
  pub first :
      (j : ℕ) (q : JobRecord)
      → lookup j rows ≡ some q
      → is_queued q.status ≡ true
      → r.created_unix ≤ q.created_unix

-- No row is QUEUED.
abbrev pub NoneQueued : Jobs → Type 0
NoneQueued rows = (j : ℕ) (q : JobRecord) → lookup j rows ≡ some q → is_queued q.status ≡ false

lookup_cons :
    (j k : ℕ) (r q : JobRecord) (rows : Jobs)
    → lookup j ((k, r) ∷ rows) ≡ some q
    → (r ≡ q) ⊎ (lookup j rows ≡ some q)
unfolding lookup
lookup_cons j k r q rows h = elim (Bool-cases (k == j)) [
  | inl t ↦ inl (ground (arith, h, t))
  | inr f ↦ inr (ground (arith, h, f))
]

filed_cons :
    (j k : ℕ) (r o : JobRecord) (rows : Jobs)
    → has_key k rows ≡ false
    → lookup j rows ≡ some o
    → lookup j ((k, r) ∷ rows) ≡ some o
unfolding lookup
filed_cons j k r o rows new found =
    let absent = has_key-lookup k rows new in
    elim (Bool-cases (k == j)) [
      | inl t ↦
          let same : k ≡ j = ground (arith, ==_iff k j, t) in
          let gone : lookup j rows ≡ none = rw same at absent in
          absurd (ground (arith, gone, found))
      | inr f ↦ rw f found
    ]

oldest_queued-IsOldest :
    (rows : Jobs)
    → IsStore rows
    → ((oldest_queued rows ≡ none) × NoneQueued rows)
      ⊎ ((r : JobRecord) × (oldest_queued rows ≡ some r) × IsOldest rows r)
unfolding oldest_queued lookup has_key
oldest_queued-IsOldest [] s = inl (refl, (λ j q h. absurd cc))
oldest_queued-IsOldest ((k, r) ∷ rows) s = elim (oldest_queued-IsOldest rows s.2) [
  | inl (e, empty) ↦ elim (Bool-cases (is_queued r.status)) [
    | inr idle ↦ inl (
      rw idle e,
      (λ j q h. elim (lookup_cons j k r q rows h) [
        | inl e1 ↦ ground (arith, e1, idle)
        | inr h1 ↦ empty j q h1
      ]),
    )
    | inl wait ↦ inr (
      r,
      rw (wait, e) refl,
      record {
        waits = wait;
        filed = ground (arith, s.0);
        first = (λ j q h w. elim (lookup_cons j k r q rows h) [
          | inl e1 ↦ ground (arith, e1)
          | inr h1 ↦ absurd (ground (arith, empty j q h1, w))
        ]);
      },
    )
  ]
  | inr (o, e, p) ↦ elim (Bool-cases (is_queued r.status)) [
    | inr idle ↦ inr (
      o,
      rw idle e,
      record {
        waits = p.waits;
        filed = filed_cons o.job_id k r o rows s.1 p.filed;
        first = (λ j q h w. elim (lookup_cons j k r q rows h) [
          | inl e1 ↦ absurd (ground (arith, e1, idle, w))
          | inr h1 ↦ p.first j q h1 w
        ]);
      },
    )
    | inl wait ↦ elim (Bool-cases (leb r.created_unix o.created_unix)) [
      | inl le ↦ inr (
        r,
        rw (wait, e, le) refl,
        record {
          waits = wait;
          filed = ground (arith, s.0);
          first = (λ j q h w. elim (lookup_cons j k r q rows h) [
            | inl e1 ↦ ground (arith, e1)
            | inr h1 ↦ ground (arith, le, p.first j q h1 w)
          ]);
        },
      )
      | inr gt ↦ inr (
        o,
        rw (wait, e, gt) refl,
        record {
          waits = p.waits;
          filed = filed_cons o.job_id k r o rows s.1 p.filed;
          first = (λ j q h w. elim (lookup_cons j k r q rows h) [
            | inl e1 ↦ ground (arith, gt, e1)
            | inr h1 ↦ p.first j q h1 w
          ]);
        },
      )
    ]
  ]
]

-- For a table that holds each row once and under its id: when no row is QUEUED, the durable claim_next
-- returns none and changes nothing; else it returns a row that was QUEUED and of which no QUEUED row is
-- older, the one that peek_next_queued names; this row is now RUNNING, and the others are as they were.
pub sqlite_claim_next-IsOldest :
    (now : Clock) (rows : Jobs)
    → IsStore rows
    → ((sqlite_claim_next now rows ≡ (none, rows)) × NoneQueued rows)
      ⊎ ((r : JobRecord) × (r' : JobRecord) × (rows' : Jobs) × (sqlite_claim_next now rows
            ≡ (some r', rows'))
          × (sqlite_peek_next_queued rows ≡ some r.job_id)
          × IsOldest rows r
          × (r'.status ≡ running)
          × ((j : ℕ) → lookup j rows' ≡ (if r.job_id == j then some r' else lookup j rows))
          × IsStore rows')
unfolding sqlite_claim_next sqlite_peek_next_queued
sqlite_claim_next-IsOldest now rows s = elim (oldest_queued-IsOldest rows s) [
  | inl (e, empty) ↦ inl (rw (e, sqlite_claim_next) refl, empty)
  | inr (r, e, p) ↦
      let r' = record r { status = running; started_utc = some now.utc } in
      inr (
        r,
        r',
        insert r.job_id r' rows,
        rw (e, sqlite_claim_next) refl,
        rw e refl,
        p,
        refl,
        (λ j. lookup-insert r.job_id j r' rows),
        insert-IsStore r.job_id r' rows refl s,
      )
]
