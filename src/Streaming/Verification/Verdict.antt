-- ===== src/Streaming/Verification/Verdict.antt =====
-- finalize: when the reducer says FAIL and when it says PASS.
use mathlib.Core.Path.{fun_ext}
use open_litho_hub.Base.{
  ℕ, ◌+◌, ◌<◌, ◌≡◌, ◌↔◌, refl, ◌∙◌, ap, subst, inl, inr, Bool, true, false, not, ◌&&◌, Option, none,
  List, [], ◌∷◌, ltb, arith, Bool-cases,
}
use open_litho_hub.Base.Dict.{Eq, Dict, lookup, count_values}
use open_litho_hub.Base.Keys.{HasKeys}
use open_litho_hub.Streaming.Verification.{
  Scalar, Status, Coverage, TileVerificationResult, Reducer, Folded, is_passed, is_failed,
  is_inconclusive, is_covered, is_partial, applies, fold_tile, fold_tiles, first_status,
  coverage_of, exceeds, demoted, total_error, finalize, no_tiles,
}
use open_litho_hub.Streaming.Verification.Counts.{
  Some, Every, statuses_add, count_values-Some, all_passed,
}
use open_litho_hub.Streaming.Verification.Latest.{
  Event, apply_all, last_verdict, apply_all-HasKeys, lookup-apply_all,
}

coverage_of-partial :
    (covered uncovered : ℕ)
    → is_partial (coverage_of (covered + uncovered) covered) ≡ (ltb 0 covered && ltb 0 uncovered)
unfolding coverage_of
coverage_of-partial covered uncovered = ground arith

-- The status from the counts of the verdicts and of the covered and uncovered tiles.
status_fails :
    {F : Type 0} ⦃s : Scalar F⦄ (n_pass n_fail n_inconclusive : ℕ) (c : Coverage)
    (tolerance : Option F) (total : F)
    → (demoted
          (first_status (n_pass + n_fail + n_inconclusive) n_fail n_inconclusive)
          c
          tolerance
          total
        ≡ Status.failed)
      ↔ (0 < n_fail)
unfolding demoted first_status
status_fails p f i c tolerance total = ground arith

status_passes :
    {F : Type 0} ⦃s : Scalar F⦄ (n_pass n_fail n_inconclusive : ℕ) (c : Coverage)
    (tolerance : Option F) (total : F)
    → (demoted
          (first_status (n_pass + n_fail + n_inconclusive) n_fail n_inconclusive)
          c
          tolerance
          total
        ≡ Status.passed)
      ↔ (0 < n_pass)
        × (n_fail ≡ 0)
        × (n_inconclusive ≡ 0)
        × (is_partial c ≡ false)
        × (exceeds tolerance total ≡ false)
unfolding demoted first_status
status_passes p f i c tolerance total = ground arith

module _ {F K : Type 0} where
  -- The verdict covers all components of its theorem, or some are left.
  abbrev pub covers_components : TileVerificationResult F K → Bool
  covers_components v = applies v.component_coverage && is_covered v.component_coverage

  abbrev pub leaves_components : TileVerificationResult F K → Bool
  leaves_components v = applies v.component_coverage && not (is_covered v.component_coverage)

module _ {F K : Type 0} ⦃s : Scalar F⦄ where
  fold_tiles-components :
      (m : Dict K (TileVerificationResult F K)) (f : Folded F)
      → ((fold_tiles m f).coverage_components
          ≡ f.coverage_components
            + count_values covers_components m
            + count_values leaves_components m)
        × ((fold_tiles m f).coverage_covered
            ≡ f.coverage_covered + count_values covers_components m)
  unfolding fold_tiles fold_tile
  fold_tiles-components [] f = omega arith
  fold_tiles-components ((k, v) ∷ m) f = ground (arith, fold_tiles-components m (fold_tile v f))

-- What a status says of the last verdicts `final` of the tiles.
pub record IsVerdict {F K : Type 0} (final : K → Option (TileVerificationResult F K))
    (within_budget : Bool) (status : Status) : Type 0 where
  pub fails : (status ≡ Status.failed) ↔ Some final (λ v. is_failed v.status)
  pub passes :
      (status ≡ Status.passed)
      ↔ Some final (λ v. is_passed v.status)
        × Every final (λ v. is_passed v.status)
        × ¬ (Some final covers_components × Some final leaves_components)
        × (within_budget ≡ true)

module _ {F K : Type 0} ⦃e : Eq K⦄ ⦃s : Scalar F⦄ where
  coverage_mixed :
      (m : Dict K (TileVerificationResult F K))
      → HasKeys m
      → let f = fold_tiles m no_tiles in
        (is_partial (coverage_of f.coverage_components f.coverage_covered) ≡ false)
        ↔ ¬ (
            Some (λ (k : K). lookup k m) covers_components
            × Some (λ (k : K). lookup k m) leaves_components)
  coverage_mixed m keys =
      let (components, covered) = fold_tiles-components m no_tiles in
      let c = count_values covers_components m in
      let u = count_values leaves_components m in
      let all : (fold_tiles m no_tiles).coverage_components ≡ c + u = omega arith in
      let some_of : (fold_tiles m no_tiles).coverage_covered ≡ c = omega arith in
      let (c_to, c_from) = count_values-Some m keys covers_components in
      let (u_to, u_from) = count_values-Some m keys leaves_components in
      rw (all, some_of, coverage_of-partial c u)
        (
          λ h (some_covered, some_left).
              let a = c_from some_covered in let b = u_from some_left in ground arith,
          λ apart. elim (Bool-cases (ltb 0 c && ltb 0 u)) [
            | inl both ↦ absurd (apart (c_to (ground arith), u_to (ground arith)))
            | inr f ↦ f
          ],
        )

  found_in_empty : (k : K) → lookup {V = TileVerificationResult F K} k [] ≡ none
  unfolding lookup
  found_in_empty k = refl

  latest-IsVerdict :
      (r : Reducer F K)
      → HasKeys r.latest
      → IsVerdict
          (λ (k : K). lookup k r.latest)
          (not (exceeds r.tolerance (total_error r).0))
          (finalize r).0.global_status
  unfolding finalize
  latest-IsVerdict r keys =
      let m = r.latest in
      let f = fold_tiles m no_tiles in
      let c = coverage_of f.coverage_components f.coverage_covered in
      let n_pass = count_values (λ v. is_passed v.status) m in
      let n_fail = count_values (λ v. is_failed v.status) m in
      let n_inconclusive = count_values (λ v. is_inconclusive v.status) m in
      let fail_counts = count_values-Some m keys (λ v. is_failed v.status) in
      let pass_counts = all_passed m keys (λ v. v.status) in
      let mixed = coverage_mixed m keys in
      let total = (total_error r).0 in
      let fails = status_fails n_pass n_fail n_inconclusive c r.tolerance total in
      let passes = status_passes n_pass n_fail n_inconclusive c r.tolerance total in
      rw (statuses_add (λ v. v.status) m) (record {
        fails = (λ h. fail_counts.0 (fails.0 h), λ h. fails.1 (fail_counts.1 h));
        passes = (
          λ h.
              let (p, q, i, part, within) = passes.0 h in
              let (some_passed, every) = pass_counts.0 (p, q, i) in
              (some_passed, every, mixed.0 part, ground arith),
          λ (some_passed, every, apart, within).
              let (p, q, i) = pass_counts.1 (some_passed, every) in
              passes.1 (p, q, i, mixed.1 apart, ground arith),
        );
      })

  -- For a reducer that starts empty and any sequence of add and retire: finalize says FAIL exactly if the
  -- last verdict of some tile is FAIL, and PASS exactly if some tile has a verdict, each last verdict is
  -- PASS, no tile with all its components covered stands beside one with components left, and the total
  -- error does not exceed the tolerance.
  pub finalize-IsVerdict :
      (events : List (Event F K)) (r : Reducer F K)
      → r.latest ≡ []
      → let seen = apply_all events r in
        let (report, _) = finalize seen in
        let (total, _) = total_error seen in
        IsVerdict
          (λ (k : K). last_verdict events k none)
          (not (exceeds seen.tolerance total))
          report.global_status
  finalize-IsVerdict events r empty =
      let seen = apply_all events r in
      let same : (λ (k : K). lookup k seen.latest) ≡ (λ (k : K). last_verdict events k none) =
        fun_ext (λ k.
          lookup-apply_all events r k
          ∙ ap (λ (m : Dict K (TileVerificationResult F K)). last_verdict events k (lookup k m))
              empty
          ∙ ap (last_verdict events k) (found_in_empty k)) in
      let keys : HasKeys seen.latest = apply_all-HasKeys events r (rw empty tt) in
      subst
        (λ (final : K → Option (TileVerificationResult F K)).
          IsVerdict final (not (exceeds seen.tolerance (total_error seen).0))
            (finalize seen).0.global_status)
        same (latest-IsVerdict seen keys)
