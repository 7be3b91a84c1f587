-- ===== src/Server/Runtime/Leases.antt =====
-- acquire_artifact_lease: the sweep that it triggers spares the leased job.
use open_litho_hub.Base.{
  ℕ, ◌+◌, ◌-◌, ◌≡◌, refl, inl, inr, Bool, true, some, List, [], ◌∷◌, String, ok, map, arith,
  Bool-cases, Option-cases, ==_iff, length,
}
use open_litho_hub.Base.Dict.{Dict, nat_eq, lookup, insert, mem}
use open_litho_hub.Server.Schemas.{succeeded, JobStatus-cases}
use open_litho_hub.Server.JobStore.{JobRecord, Jobs, is_doomed, evict_from, evict_terminal}
use open_litho_hub.Server.Runtime.{Runtime, sweep, artifact_of, or_none, acquire_artifact_lease}

-- A record outside the reach of a sweep.
evict_from-skipped :
    (now ttl cap : ℕ) (skip : List ℕ) (id tracked : ℕ) (m : Jobs)
    → mem id skip ≡ true
    → lookup id (evict_from now ttl cap skip tracked m).1 ≡ lookup id m
unfolding evict_from is_doomed lookup
evict_from-skipped now ttl cap skip id tracked [] h = refl
evict_from-skipped now ttl cap skip id tracked ((k, r) ∷ m) h = ground (
  arith,
  evict_from-skipped now ttl cap skip id (tracked - 1) m h,
  evict_from-skipped now ttl cap skip id tracked m h,
  ==_iff k id,
)

mem-insert : (id n : ℕ) (m : Dict ℕ ℕ) → mem id (map (λ (j, _). j) (insert id n m)) ≡ true
unfolding mem insert
mem-insert id n [] = ground arith
mem-insert id n ((j, k) ∷ m) = ground (arith, mem-insert id n m)

artifact_of-eq-some :
    (r : JobRecord) (path : String)
    → artifact_of r ≡ some path
    → (r.status ≡ succeeded) × (r.output_path ≡ some path)
artifact_of-eq-some r path h = elim (JobStatus-cases r.status) [
  | inl e ↦ absurd (ground (arith, h, e))
  | inr (inl e) ↦ absurd (ground (arith, h, e))
  | inr (inr (inl e)) ↦ (e, ground (arith, h, e))
  | inr (inr (inr (inl e))) ↦ absurd (ground (arith, h, e))
  | inr (inr (inr (inr e))) ↦ absurd (ground (arith, h, e))
]

-- When acquire_artifact_lease succeeds, the job had SUCCEEDED with the returned output path, which is
-- a file, and its record is still in the store after the sweep that the call triggers, as it was.
pub acquire_artifact_lease-keeps :
    (is_file : String → Bool) (now id : ℕ) (rt rt' : Runtime) (path : String)
    → acquire_artifact_lease is_file now id rt ≡ ok (path, rt')
    → (is_file path ≡ true)
      × (r : JobRecord) × (lookup id rt.store ≡ some r)
      × (r.status ≡ succeeded)
      × (r.output_path ≡ some path)
      × (lookup id rt'.store ≡ some r)
unfolding acquire_artifact_lease sweep evict_terminal
acquire_artifact_lease-keeps is_file now id rt rt' path e =
    elim (Option-cases (lookup id rt.store)) [
      | inl none_ ↦ absurd (ground (arith, e, none_))
      | inr (r, found) ↦ elim (Option-cases (artifact_of r)) [
        | inl none_ ↦ absurd (ground (arith, e, found, none_))
        | inr (p, a) ↦ elim (Bool-cases (is_file p)) [
          | inr f ↦ absurd (ground (arith, e, found, a, f))
          | inl t ↦
              let (done, out) = artifact_of-eq-some r p a in
              let leases = insert id (or_none (lookup id rt.leases) + 1) rt.leases in
              let spared =
                evict_from-skipped now rt.job_ttl_seconds rt.job_history_cap
                  (map (λ (j, _). j) leases) id (length rt.store) rt.store
                  (mem-insert id (or_none (lookup id rt.leases) + 1) rt.leases) in
              let same : p ≡ path = ground (arith, e, found, a, t) in
              let same' : rt' ≡ (sweep now (record rt { leases = leases })).1 =
                ground (arith, e, found, a, t) in
              (
                ground (arith, t, same),
                r,
                found,
                done,
                ground (arith, out, same),
                rw same' (ground (arith, spared, found)),
              )
        ]
      ]
    ]
