-- ===== src/Streaming/Verification/Counts.antt =====
-- Counts of statuses over a dict, read as statements on the values that the dict finds.
use open_litho_hub.Base.{
  ◌+◌, ◌<◌, ◌≡◌, ◌↔◌, refl, inl, inr, Bool, true, false, Option, some, [], ◌∷◌, arith, length, ltb,
  Bool-cases,
}
use open_litho_hub.Base.Dict.{Eq, Dict, lookup, count_values}
use open_litho_hub.Base.Keys.{HasKeys, count_values-found, found-count_values}
use open_litho_hub.Streaming.Verification.{Status, is_passed, is_failed, is_inconclusive}

module _ {K V : Type 0} where
  -- Some value of the map passes the test; every value of the map does.
  abbrev pub Some : (K → Option V) → (V → Bool) → Type 0
  Some final p = (k : K) × (v : V) × (final k ≡ some v) × (p v ≡ true)

  abbrev pub Every : (K → Option V) → (V → Bool) → Type 0
  Every final p = (k : K) (v : V) → final k ≡ some v → p v ≡ true

  pub statuses_add :
      (status_of : V → Status) (m : Dict K V)
      → length m
        ≡ count_values (λ v. is_passed (status_of v)) m
          + count_values (λ v. is_failed (status_of v)) m
          + count_values (λ v. is_inconclusive (status_of v)) m
  statuses_add status_of [] = omega arith
  statuses_add status_of ((k, v) ∷ m) = ground (arith, statuses_add status_of m)

passed_otherwise :
    (status : Status)
    → is_failed status ≡ false
    → is_inconclusive status ≡ false
    → is_passed status ≡ true
passed_otherwise Status.passed f i = refl
passed_otherwise Status.failed f i = cc
passed_otherwise Status.inconclusive f i = cc

only_passed :
    (status : Status)
    → is_passed status ≡ true
    → (is_failed status ≡ false) × (is_inconclusive status ≡ false)
only_passed Status.passed h = (refl, refl)
only_passed Status.failed h = cc
only_passed Status.inconclusive h = cc

module _ {K V : Type 0} ⦃e : Eq K⦄ (m : Dict K V) (keys : HasKeys m) where
  pub count_values-Some : (p : V → Bool) → (0 < count_values p m) ↔ Some (λ (k : K). lookup k m) p
  count_values-Some p = (
    λ h. count_values-found p m keys h,
    λ (k, v, found, passes). found-count_values p m k v found passes,
  )

  -- No value passes the test exactly if every value fails it.
  pub count_values-none :
      (p : V → Bool) → ((k : K) (v : V) → lookup k m ≡ some v → p v ≡ false) → count_values p m ≡ 0
  count_values-none p h = elim (Bool-cases (ltb 0 (count_values p m))) [
    | inl t ↦
        let (k, v, found, passes) = count_values-found p m keys (ground arith) in
        absurd (let fails = h k v found in cc)
    | inr f ↦ ground arith
  ]

  pub all_passed :
      (status_of : V → Status)
      → (0 < count_values (λ v. is_passed (status_of v)) m)
          × (count_values (λ v. is_failed (status_of v)) m ≡ 0)
          × (count_values (λ v. is_inconclusive (status_of v)) m ≡ 0)
        ↔ Some (λ (k : K). lookup k m) (λ v. is_passed (status_of v))
          × Every (λ (k : K). lookup k m) (λ v. is_passed (status_of v))
  all_passed status_of =
      let (to, from) = count_values-Some (λ v. is_passed (status_of v)) in
      let failed_counts = found-count_values (λ v. is_failed (status_of v)) m in
      let open_counts = found-count_values (λ v. is_inconclusive (status_of v)) m in
      (
        λ (some_passed, no_failed, no_open). (
          to some_passed,
          λ k v found.
              passed_otherwise (status_of v)
                (elim (Bool-cases (is_failed (status_of v))) [
                  | inl t ↦ absurd (omega (arith, failed_counts k v found t))
                  | inr f ↦ f
                ])
                (elim (Bool-cases (is_inconclusive (status_of v))) [
                  | inl t ↦ absurd (omega (arith, open_counts k v found t))
                  | inr f ↦ f
                ]),
        ),
        λ (some_passed, every). (
          from some_passed,
          count_values-none (λ v. is_failed (status_of v))
              (λ k v found. (only_passed (status_of v) (every k v found)).0),
          count_values-none (λ v. is_inconclusive (status_of v))
              (λ k v found. (only_passed (status_of v) (every k v found)).1),
        ),
      )
