-- ===== src/Streaming/Verification/Examples.antt =====
-- The theorems on verdicts at two tiles, one refined after an inconclusive verdict.
use open_litho_hub.Base.{ℕ, ◌≡◌, refl, ◌↔◌, not, none, some, List, [], ◌∷◌, ◌+◌, ltb, ◌==◌}
use open_litho_hub.Base.Dict.{Dict, lookup, has_key, nat_eq}
use open_litho_hub.Streaming.Verification.{
  Scalar, Status, Coverage, TileVerificationResult, GlobalVerificationResult, Reducer, is_passed,
  is_failed, exceeds, total_error, finalize, fold_global,
}
use open_litho_hub.Streaming.Verification.Latest.{
  Event, added, retired, apply_all, last_verdict, lookup-apply_all,
}
use open_litho_hub.Streaming.Verification.Counts.{Some, Every}
use open_litho_hub.Streaming.Verification.Verdict.{IsVerdict, finalize-IsVerdict}
use open_litho_hub.Streaming.Verification.Firewall.{fold_global-verdict}

-- Bounds that are whole numbers, with 0 for the least.
instance abbrev whole : Scalar ℕ
whole = record { zero_f = 0; neg_inf = 0; plus = ◌+◌; less = ltb; is_zero = λ x. x == 0 }

abbrev verdict : (tile : ℕ) → Status → TileVerificationResult ℕ ℕ
verdict tile status = record {
  tile_id = tile;
  status = status;
  upper_bound = some 3;
  lower_bound = none;
  halo_provenance = "physical";
  certificate_ref = none;
  metrics = ("halo_error_bound", 2) ∷ [];
  component_coverage = Coverage.not_applicable;
}

abbrev events : List (Event ℕ ℕ)
events =
    added (verdict 1 Status.inconclusive)
    ∷ added (verdict 2 Status.passed)
    ∷ added (verdict 1 Status.passed)
    ∷ retired 2
    ∷ []

abbrev fresh : Reducer ℕ ℕ
fresh = record {
  error_budget = record { process = 1; spatial = 0; halo = 0; raster_bridge = 0; other = 0 };
  tolerance = some 4;
  latest = [];
}

finalize-IsVerdict_example :
    IsVerdict
      (λ (k : ℕ). last_verdict events k none)
      (not (exceeds (apply_all events fresh).tolerance (total_error (apply_all events fresh)).0))
      (finalize (apply_all events fresh)).0.global_status
finalize-IsVerdict_example = finalize-IsVerdict events fresh refl

lookup-apply_all_example :
    lookup 1 (apply_all events fresh).latest ≡ last_verdict events 1 (lookup 1 fresh.latest)
lookup-apply_all_example = lookup-apply_all events fresh 1

abbrev reports : Dict ℕ (GlobalVerificationResult ℕ)
reports = (7, (finalize (apply_all events fresh)).0) ∷ []

fold_global-verdict_example :
    ((fold_global reports).summary_status ≡ Status.failed
      ↔ Some (λ (i : ℕ). lookup i reports) (λ g. is_failed g.global_status))
    × ((fold_global reports).summary_status ≡ Status.passed
        ↔ Some (λ (i : ℕ). lookup i reports) (λ g. is_passed g.global_status)
          × Every (λ (i : ℕ). lookup i reports) (λ g. is_passed g.global_status))
fold_global-verdict_example = fold_global-verdict reports (unfold has_key in (refl, tt))
