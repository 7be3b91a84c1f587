-- ===== src/Streaming/Verification.antt =====
-- src/openlithohub/streaming/verification.py: the reducer of tile verdicts, and the fold over verifiers.
-- Floating-point numbers are a type with the operations that the reducer uses, without laws. The fields
-- of a verdict that the reducer never reads are left out.
pub mod Latest
pub mod Counts
pub mod Verdict
pub mod Firewall
pub mod Examples
use text.Mathlib.Text.{◌==◌ as str_eq}
use Prim.Native.String.{◌++◌ as str_append}
use open_litho_hub.Base.{
  ℕ, zero, suc, ◌+◌, Bool, true, false, not, ◌&&◌, ◌||◌, Option, none, some, List, [], ◌∷◌, ◌++◌,
  String, Outcome, ok, raise, ltb, ◌==◌, if◌then◌else◌, length,
}
use open_litho_hub.Base.Dict.{Eq, Dict, lookup, insert, remove, has_key, count_values}
use open_litho_hub.Base.Text.{string_eq}

-- What the reducer does with floats: 0.0, float("-inf"), `+`, `<` and `x == 0.0`.
pub record Scalar (F : Type 0) : Type 0 where
  pub zero_f : F
  pub neg_inf : F
  pub plus : F → F → F
  pub less : F → F → Bool
  pub is_zero : F → Bool

pub data Status : Type 0 where
  passed failed inconclusive : Status

pub data Coverage : Type 0 where
  all_components_covered partial_cover coverage_inconclusive not_applicable : Coverage

abbrev pub is_passed : Status → Bool
is_passed Status.passed = true
is_passed _ = false

abbrev pub is_failed : Status → Bool
is_failed Status.failed = true
is_failed _ = false

abbrev pub is_inconclusive : Status → Bool
is_inconclusive Status.inconclusive = true
is_inconclusive _ = false

-- component_coverage != "NOT_APPLICABLE"
abbrev pub applies : Coverage → Bool
applies Coverage.not_applicable = false
applies _ = true

abbrev pub is_covered : Coverage → Bool
is_covered Coverage.all_components_covered = true
is_covered _ = false

abbrev pub is_partial : Coverage → Bool
is_partial Coverage.partial_cover = true
is_partial _ = false

pub record TileVerificationResult (F K : Type 0) : Type 0 where
  pub tile_id : K
  pub status : Status
  pub upper_bound : Option F
  pub lower_bound : Option F
  pub halo_provenance : String
  pub certificate_ref : Option String
  pub metrics : Dict String F
  pub component_coverage : Coverage

pub record ErrorBudget (F : Type 0) : Type 0 where
  pub process : F
  pub spatial : F
  pub halo : F
  pub raster_bridge : F
  pub other : F

pub record Reducer (F K : Type 0) : Type 0 where
  pub error_budget : ErrorBudget F
  pub tolerance : Option F
  pub latest : Dict K (TileVerificationResult F K)

pub record GlobalVerificationResult (F : Type 0) : Type 0 where
  pub global_status : Status
  pub worst_upper_bound : Option F
  pub worst_lower_bound : Option F
  pub tile_count : ℕ
  pub n_pass : ℕ
  pub n_fail : ℕ
  pub n_inconclusive : ℕ
  pub coverage : Coverage
  pub halo_error_budget : F
  pub budget : ErrorBudget F
  pub certificate_refs : List String
  pub global_metrics : Dict String F

-- The locals of the loop of finalize.
pub record Folded (F : Type 0) : Type 0 where
  pub worst_upper : Option F
  pub worst_lower : Option F
  pub refs : List String
  pub folded_metrics : Dict String F
  pub coverage_components : ℕ
  pub coverage_covered : ℕ

module _ {F K : Type 0} ⦃e : Eq K⦄ where
  unfoldable pub add : TileVerificationResult F K → Reducer F K → Reducer F K
  unfolding insert
  add result r = record r { latest = insert result.tile_id result r.latest }

  unfoldable pub retire : K → Reducer F K → Reducer F K
  unfolding remove
  retire tile_id r = record r { latest = remove tile_id r.latest }

abbrev pub fold_ref : Option String → List String → List String
fold_ref none refs = refs
fold_ref (some ref) refs = if str_eq ref "" then refs else refs ++ ref ∷ []

unfoldable pub first_status : (n n_fail n_inconclusive : ℕ) → Status
first_status n n_fail n_inconclusive =
    if n == 0
    then Status.inconclusive
    else if ltb 0 n_fail
    then Status.failed
    else if ltb 0 n_inconclusive
    then Status.inconclusive
    else Status.passed

unfoldable pub coverage_of : (components covered : ℕ) → Coverage
coverage_of components covered =
    if components == 0
    then Coverage.not_applicable
    else if covered == components
    then Coverage.all_components_covered
    else if ltb 0 covered
    then Coverage.partial_cover
    else Coverage.coverage_inconclusive

module _ {F : Type 0} ⦃s : Scalar F⦄ where
  -- max(a, b): b only if a < b
  abbrev pub max_f : F → F → F
  max_f a b = if s.less a b then b else a

  -- `x or float("-inf")`
  abbrev pub or_neg_inf : Option F → F
  or_neg_inf none = s.neg_inf
  or_neg_inf (some x) = if s.is_zero x then s.neg_inf else x

  unfoldable pub worst : Option F → Option F → Option F
  worst before none = before
  worst before (some bound) = some (max_f (or_neg_inf before) bound)

  -- d.get(key, float("-inf"))
  abbrev pub get_or_neg_inf : Option F → F
  get_or_neg_inf none = s.neg_inf
  get_or_neg_inf (some x) = x

  pub fold_metrics : Dict String F → Dict String F → Dict String F
  unfolding lookup insert
  fold_metrics [] metrics = metrics
  fold_metrics ((key, value) ∷ rest) metrics =
      let name = str_append "max_" key in
      fold_metrics rest (insert name (max_f (get_or_neg_inf (lookup name metrics)) value) metrics)

  -- One turn of the loop.
  unfoldable pub fold_tile : {K : Type 0} → TileVerificationResult F K → Folded F → Folded F
  unfolding worst fold_metrics
  fold_tile result f = record {
    worst_upper = worst f.worst_upper result.upper_bound;
    worst_lower = worst f.worst_lower result.lower_bound;
    refs = fold_ref result.certificate_ref f.refs;
    folded_metrics = fold_metrics result.metrics f.folded_metrics;
    coverage_components =
        if applies result.component_coverage
        then f.coverage_components + 1
        else f.coverage_components;
    coverage_covered =
        if applies result.component_coverage && is_covered result.component_coverage
        then f.coverage_covered + 1
        else f.coverage_covered;
  }

  pub fold_tiles : {K : Type 0} → Dict K (TileVerificationResult F K) → Folded F → Folded F
  unfolding fold_tile
  fold_tiles [] f = f
  fold_tiles ((_, result) ∷ rest) f = fold_tiles rest (fold_tile result f)

  -- The loop of total_error.
  unfoldable pub halo_step : {K : Type 0} → TileVerificationResult F K → F → F
  unfolding lookup
  halo_step result halo = elim (lookup "halo_error_bound" result.metrics) [
    | none ↦ halo
    | some bound ↦ if not (str_eq result.halo_provenance "none") then max_f halo bound else halo
  ]

  pub halo_from : {K : Type 0} → Dict K (TileVerificationResult F K) → F → F
  unfolding halo_step
  halo_from [] halo = halo
  halo_from ((_, result) ∷ rest) halo = halo_from rest (halo_step result halo)

  unfoldable pub sum_budget : ErrorBudget F → F
  sum_budget b =
      s.plus (s.plus (s.plus (s.plus (s.plus s.zero_f b.process) b.spatial) b.halo) b.raster_bridge)
        b.other

  -- The sum, and the reducer with the halo budget that total_error stores.
  unfoldable pub total_error : {K : Type 0} → Reducer F K → F × Reducer F K
  unfolding halo_from sum_budget
  total_error r =
      let b = record r.error_budget { halo = halo_from r.latest s.zero_f } in
      (sum_budget b, record r { error_budget = b })

  abbrev pub no_tiles : Folded F
  no_tiles = record {
    worst_upper = none;
    worst_lower = none;
    refs = [];
    folded_metrics = [];
    coverage_components = 0;
    coverage_covered = 0;
  }

  abbrev pub exceeds : Option F → F → Bool
  exceeds none total = false
  exceeds (some tolerance) total = s.less tolerance total

  -- The two demotions of a PASS.
  unfoldable pub demoted : Status → Coverage → Option F → F → Status
  demoted status coverage tolerance total =
      let covered =
        if is_passed status && is_partial coverage then Status.inconclusive else status in
      if is_passed covered && exceeds tolerance total then Status.inconclusive else covered

  unfoldable pub finalize : {K : Type 0} → Reducer F K → GlobalVerificationResult F × Reducer F K
  unfolding fold_tiles first_status coverage_of demoted total_error
  finalize r =
      let n = length r.latest in
      let n_pass = count_values (λ v. is_passed v.status) r.latest in
      let n_fail = count_values (λ v. is_failed v.status) r.latest in
      let n_inconclusive = count_values (λ v. is_inconclusive v.status) r.latest in
      let f = fold_tiles r.latest no_tiles in
      let coverage = coverage_of f.coverage_components f.coverage_covered in
      let (total, spent) = total_error r in
      (
        record {
          global_status = demoted (first_status n n_fail n_inconclusive) coverage r.tolerance total;
          worst_upper_bound = f.worst_upper;
          worst_lower_bound = f.worst_lower;
          tile_count = n;
          n_pass = n_pass;
          n_fail = n_fail;
          n_inconclusive = n_inconclusive;
          coverage = coverage;
          halo_error_budget = spent.error_budget.halo;
          budget = spent.error_budget;
          certificate_refs = f.refs;
          global_metrics = f.folded_metrics;
        },
        spent,
      )

pub record MultiVerifierSummary : Type 0 where
  pub summary_status : Status
  pub n_verifiers : ℕ
  pub verifiers_pass : ℕ
  pub verifiers_fail : ℕ
  pub verifiers_inconclusive : ℕ

unfoldable pub fold_global :
    {F I : Type 0} → Dict I (GlobalVerificationResult F) → MultiVerifierSummary
fold_global results =
    let n_fail = count_values (λ g. is_failed g.global_status) results in
    let n_inconclusive = count_values (λ g. is_inconclusive g.global_status) results in
    record {
      summary_status =
          if ltb 0 n_fail
          then Status.failed
          else if ltb 0 n_inconclusive || (length results == 0)
          then Status.inconclusive
          else Status.passed;
      n_verifiers = length results;
      verifiers_pass = count_values (λ g. is_passed g.global_status) results;
      verifiers_fail = n_fail;
      verifiers_inconclusive = n_inconclusive;
    }
