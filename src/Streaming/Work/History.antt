-- ===== src/Streaming/Work/History.antt =====
-- The historical ledger over a whole run: every forwarded core recorded in turn.
use open_litho_hub.Base.{
  ℕ, ◌+◌, ◌-◌, ◌*◌, ◌≡◌, refl, List, [], ◌∷◌, min, All, All-append, arith, Bool-cases, inl, inr,
  ◌∙◌, sym, ltb, if◌then◌else◌,
}
use open_litho_hub.Streaming.Geometry.{BoundingBox, area}
use open_litho_hub.Streaming.Geometry.Pixels.{owners}
use open_litho_hub.Streaming.Geometry.Read.{IsBox, InDomain}
use open_litho_hub.Streaming.Geometry.Census.{
  pixel_sum, pixel_sum_eq, pixel_sum-add, pixel_sum-const, pixel_sum-owners,
}
use open_litho_hub.Streaming.Work.{
  Work, any_contains, absorbed, remove_first, drop_covers, record_forward_core,
  pre_forward_avoided_pixels,
}
use open_litho_hub.Streaming.Work.Union.{NestedOrDisjoint, IsLedger, record_forward_core-IsRecorded}

-- What holds of the union and of the core holds of the union after.
module _ (P : BoundingBox → Type 0) where
  remove_first-All : (b : BoundingBox) (l : List BoundingBox) → All P l → All P (remove_first b l)
  unfolding remove_first
  remove_first-All b [] p = tt
  remove_first-All b (a ∷ l) p = ground (arith, remove_first-All b l p.1)

  drop_covers-All :
      (covers : List BoundingBox) (pixels : ℕ) (l : List BoundingBox)
      → All P l
      → All P (drop_covers covers pixels l).1
  unfolding drop_covers
  drop_covers-All [] pixels l p = p
  drop_covers-All (c ∷ covers) pixels l p =
      drop_covers-All covers (pixels - area c) (remove_first c l) (remove_first-All c l p)

  record_forward_core-All :
      {K : Type 0} (core : BoundingBox) (w : Work K)
      → All P w.forward_union
      → P core
      → All P (record_forward_core core w).forward_union
  unfolding record_forward_core
  record_forward_core-All core w p q = elim (Bool-cases (any_contains w.forward_union core)) [
    | inl c ↦ rw c p
    | inr c ↦ rw c (
        All-append P _ (core ∷ [])
          (drop_covers-All (absorbed core w.forward_union) w.unique_forward_pixels w.forward_union
            p)
          (q, tt))
  ]

-- Cores recorded one after another, the first of the list first.
pub record_all : {K : Type 0} → List BoundingBox → Work K → Work K
record_all [] w = w
record_all (core ∷ cores) w = record_all cores (record_forward_core core w)

-- Each core is nested with or disjoint from every core after it.
abbrev pub Laminar : List BoundingBox → Type 0
Laminar [] = Unit
Laminar (core ∷ cores) = All (λ c. NestedOrDisjoint c core) cores × Laminar cores

-- WorkAccounting(full_chip_pixels=full)
abbrev pub fresh_work : {K : Type 0} → ℕ → Work K
fresh_work full = record {
  full_chip_pixels = full;
  reused_work_units = 0;
  forward_simulator_calls = 0;
  forward_simulator_input_pixels = 0;
  read_window_calls = 0;
  read_window_pixels = 0;
  screen_queries = 0;
  tiles_skipped = 0;
  tiles_refined = 0;
  tiles_screened_out = 0;
  dense_allocation_events = 0;
  n_subdivisions = 0;
  forward_union = [];
  unique_forward_pixels = 0;
  tile_areas = [];
  screened_tiles = [];
}

module _ {K : Type 0} where
  abbrev Apart : Work K → List BoundingBox → Type 0
  Apart w cores = All (λ c. All (NestedOrDisjoint c) w.forward_union) cores

  record_forward_core-Apart :
      (core : BoundingBox) (w : Work K) (cores : List BoundingBox)
      → Apart w cores
      → All (λ c. NestedOrDisjoint c core) cores
      → Apart (record_forward_core core w) cores
  record_forward_core-Apart core w [] a n = tt
  record_forward_core-Apart core w (c ∷ cores) a n = (
    record_forward_core-All (NestedOrDisjoint c) core w a.0 n.0,
    record_forward_core-Apart core w cores a.1 n.1,
  )

  -- After the cores the union owns each pixel of a core once, and the others as before.
  record_all-IsLedger :
      (cores : List BoundingBox) (w : Work K)
      → IsLedger w
      → Laminar cores
      → Apart w cores
      → IsLedger (record_all cores w)
        × ((x y : ℕ)
            → owners (record_all cores w).forward_union x y
              ≡ (if ltb 0 (owners cores x y) then 1 else owners w.forward_union x y))
  unfolding record_all
  record_all-IsLedger [] w l n a = (l, λ x y. refl)
  record_all-IsLedger (core ∷ cores) w l n a =
      let step = record_forward_core-IsRecorded core w l a.0 in
      let (ledger, pixels) =
        record_all-IsLedger cores (record_forward_core core w) step.ledger n.1
          (record_forward_core-Apart core w cores a.1 n.0) in
      (ledger, λ x y. ground (arith, pixels x y, step.pixels x y))

  record_all-All :
      (P : BoundingBox → Type 0) (cores : List BoundingBox) (w : Work K)
      → All P w.forward_union
      → All P cores
      → All P (record_all cores w).forward_union
  unfolding record_all
  record_all-All P [] w p q = p
  record_all-All P (core ∷ cores) w p q =
      record_all-All P cores (record_forward_core core w) (record_forward_core-All P core w p q.0)
        q.1

  record_all-full :
      (cores : List BoundingBox) (w : Work K)
      → (record_all cores w).full_chip_pixels ≡ w.full_chip_pixels
  unfolding record_all record_forward_core
  record_all-full [] w = refl
  record_all-full (core ∷ cores) w =
      record_all-full cores (record_forward_core core w) ∙ ground arith

Apart-fresh :
    (K : Type 0) (full : ℕ) (cores : List BoundingBox) → Apart {K = K} (fresh_work full) cores
Apart-fresh K full [] = tt
Apart-fresh K full (c ∷ cores) = (tt, Apart-fresh K full cores)

module _ (K : Type 0) (w h : ℕ) (cores : List BoundingBox) where
  -- The ledger of a chip of w by h pixels after the cores.
  abbrev pub final_work : Work K
  final_work = record_all cores (fresh_work (h * w))

  -- Record, in any order, cores inside the chip of which any two are nested or disjoint. Then the
  -- ledger's unique pixels are the pixels of the chip that some core owns, counted one by one, and
  -- its avoided pixels are those that no core owns.
  pub historical_ledger :
      All (λ b. IsBox b × InDomain b w h) cores
      → Laminar cores
      → (final_work.unique_forward_pixels ≡ pixel_sum w h (λ x y. min 1 (owners cores x y)))
        × (pre_forward_avoided_pixels final_work ≡ pixel_sum w h (λ x y. 1 - owners cores x y))
  unfolding pre_forward_avoided_pixels
  historical_ledger d n =
      let (ledger, pixels) =
        record_all-IsLedger cores start (record { counted = refl; once = λ x y. ground arith }) n
          (Apart-fresh K (h * w) cores) in
      let inside = record_all-All (λ b. IsBox b × InDomain b w h) cores start tt d in
      let seen : (x y : ℕ) → owners final_work.forward_union x y ≡ min 1 (owners cores x y) =
        λ x y. ground (arith, pixels x y) in
      let unique : final_work.unique_forward_pixels
          ≡ pixel_sum w h (λ x y. min 1 (owners cores x y)) =
        ledger.counted
        ∙ sym (pixel_sum-owners w h final_work.forward_union inside)
        ∙ pixel_sum_eq w h _ _ seen in
      let both : pixel_sum w h (λ x y. min 1 (owners cores x y))
            + pixel_sum w h (λ x y. 1 - owners cores x y)
          ≡ h * (w * 1) =
        sym (pixel_sum-add w h (λ x y. min 1 (owners cores x y)) (λ x y. 1 - owners cores x y))
        ∙ pixel_sum_eq w h _ _ (λ x y. omega arith)
        ∙ pixel_sum-const w h 1 in
      (unique, ground (arith, unique, both, record_all-full cores start))
    where
      start : Work K
      start = fresh_work (h * w)
