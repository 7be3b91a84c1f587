-- ===== src/Streaming/Verification/Firewall.antt =====
-- fold_global: the firewall across verifiers.
use open_litho_hub.Base.{◌≡◌, ◌↔◌, arith}
use open_litho_hub.Base.Dict.{Eq, Dict, lookup}
use open_litho_hub.Base.Keys.{HasKeys}
use open_litho_hub.Streaming.Verification.{
  Status, GlobalVerificationResult, is_passed, is_failed, fold_global,
}
use open_litho_hub.Streaming.Verification.Counts.{
  Some, Every, statuses_add, count_values-Some, all_passed,
}

module _ {F I : Type 0} ⦃e : Eq I⦄ where
  -- For reports of different verifiers the summary is FAIL exactly if some verifier's report is, and PASS
  -- exactly if there is a report and every report is PASS.
  pub fold_global-verdict :
      (results : Dict I (GlobalVerificationResult F))
      → HasKeys results
      → let summary = fold_global results in
        ((summary.summary_status ≡ Status.failed)
          ↔ Some (λ (i : I). lookup i results) (λ g. is_failed g.global_status))
        × ((summary.summary_status ≡ Status.passed)
            ↔ Some (λ (i : I). lookup i results) (λ g. is_passed g.global_status)
              × Every (λ (i : I). lookup i results) (λ g. is_passed g.global_status))
  unfolding fold_global
  fold_global-verdict results keys =
      let all = statuses_add (λ g. g.global_status) results in
      let fails = count_values-Some results keys (λ g. is_failed g.global_status) in
      let passes = all_passed results keys (λ g. g.global_status) in
      (
        (λ h. fails.0 (ground arith), λ h. let some_failed = fails.1 h in ground arith),
        (
          λ h. passes.0 (ground arith, ground arith, ground arith),
          λ h. let (p, q, i) = passes.1 h in ground arith,
        ),
      )
