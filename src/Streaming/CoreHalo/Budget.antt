-- ===== src/Streaming/CoreHalo/Budget.antt =====
-- plan_tiling: the core size under a memory budget.
use native.Mathlib.Nat.{mod-eq_of_lt}
use open_litho_hub.Base.{
  ℕ, zero, suc, ◌+◌, ◌-◌, ◌*◌, ◌/◌, ◌%◌, ◌≤◌, ◌<◌, ◌≡◌, refl, sym, subst, All, String, true, List,
  [], ◌∷◌, leb, arith, Bool-cases, ◌⊎◌, inl, inr, ok, min, max,
}
use open_litho_hub.Base.Int.{pos, ◌-ℤ◌, ◌≤ℤ◌}
use open_litho_hub.Streaming.Geometry.{
  HaloSpec, uniform, halo_actual, contains, width, height, range, arith_seq,
}
use open_litho_hub.Streaming.Geometry.Pixels.{Tiles}
use open_litho_hub.Streaming.Geometry.Grid.{IsCore}
use open_litho_hub.Streaming.Geometry.Read.{IsNonneg}
use open_litho_hub.Streaming.CoreHalo.Plan.{
  IsRequest, ArePlanned, cores_of, plan_tile_requests-ArePlanned,
}
use open_litho_hub.Streaming.CoreHalo.{
  TileId, planned, TileRequest, plan_tiling, best_core_from, best_core,
}

-- The memory of a tile whose core has this size is within the budget.
abbrev pub Fits : (budget bytes halo batch core : ℕ) → Type 0
Fits budget bytes halo batch core =
    leb (bytes * (core + 2 * halo) * (core + 2 * halo) * batch) budget ≡ true

-- A value of the range of `count` items from `start` by steps of 8.
abbrev Candidate : (count start core : ℕ) → Type 0
Candidate count start core = (k : ℕ) × (k < count) × (core ≡ start + k * 8)

next-Candidate :
    (n start core : ℕ)
    → Candidate (suc n) start core
    → (core ≡ start) ⊎ Candidate n (start + 8) core
next-Candidate n start core (zero, lt, e) = inl (omega arith)
next-Candidate n start core (suc k, lt, e) = inr (k, omega arith, omega arith)

later-Candidate : (n start core : ℕ) → Candidate n (start + 8) core → Candidate (suc n) start core
later-Candidate n start core (k, lt, e) = (suc k, omega arith, omega arith)

module _ (budget bytes halo batch : ℕ) where
  abbrev IsLargest : (best : ℕ) (IsCandidate : ℕ → Type 0) (result : ℕ) → Type 0
  IsLargest best IsCandidate result =
      (best ≤ result)
      × ((result ≡ best) ⊎ (IsCandidate result × Fits budget bytes halo batch result))
      × ((core : ℕ) → IsCandidate core → Fits budget bytes halo batch core → core ≤ result)

  -- The candidates from `start` on leave the best so far, or take the largest that fits.
  best_core_from-IsLargest :
      (count best start : ℕ)
      → best ≤ start
      → IsLargest best
          (Candidate count start)
          (best_core_from budget bytes halo batch best (arith_seq count start 8))
  unfolding best_core_from arith_seq
  best_core_from-IsLargest zero best start h =
      (omega arith, inl refl, λ core (k, lt, e) fits. absurd (omega arith))
  best_core_from-IsLargest (suc n) best start h =
      elim (Bool-cases (leb (bytes * (start + 2 * halo) * (start + 2 * halo) * batch) budget)) [
        | inl t ↦
            let (ge, which, all_fit) = best_core_from-IsLargest n start (start + 8) (omega arith) in
            rw (t, best_core_from)
              (
                omega arith,
                elim which [
                  | inl same ↦ inr ((0, omega arith, omega arith), rw same t)
                  | inr (c, fits) ↦ inr (later-Candidate n start _ c, fits)
                ],
                λ core c fits. elim (next-Candidate n start core c) [
                  | inl same ↦ omega arith
                  | inr c' ↦ all_fit core c' fits
                ],
              )
        | inr f ↦
            let (ge, which, all_fit) = best_core_from-IsLargest n best (start + 8) (omega arith) in
            rw (f, best_core_from)
              (
                ge,
                elim which [
                  | inl same ↦ inl same
                  | inr (c, fits) ↦ inr (later-Candidate n start _ c, fits)
                ],
                λ core c fits. elim (next-Candidate n start core c) [
                  | inl same ↦
                      let bad : Fits budget bytes halo batch start = rw (sym same) fits in absurd cc
                  | inr c' ↦ all_fit core c' fits
                ],
              )
      ]

abbrev around : ℕ → HaloSpec
around e = record { left = pos e; top = pos e; right = pos e; bottom = pos e }

-- One axis of a window that exceeds a core by at most e on each side.
axis_at_most :
    (a b x y e : ℕ) → pos a -ℤ pos x ≤ℤ pos e → pos y -ℤ pos b ≤ℤ pos e → y - x ≤ b - a + 2 * e
unfolding ◌-ℤ◌
axis_at_most a b x y e h k = ground arith

read_at_most :
    (h w c e : ℕ) (i : TileId) (r : TileRequest)
    → IsCore w h c r.core_bbox
    → IsRequest h w (around e) i r
    → (width r.read_bbox ≤ c + 2 * e) × (height r.read_bbox ≤ c + 2 * e)
unfolding halo_actual
read_at_most h w c e i r (_, narrow, low, _) req =
    let m = req.window.at_most in
    let x =
      axis_at_most r.core_bbox.x0 r.core_bbox.x1 r.read_bbox.x0 r.read_bbox.x1 e m.left m.right in
    let y =
      axis_at_most r.core_bbox.y0 r.core_bbox.y1 r.read_bbox.y0 r.read_bbox.y1 e m.top m.bottom in
    (omega arith, omega arith)

mul_grows : (a d b e : ℕ) → a * b ≤ (a + d) * (b + e)
mul_grows a d b e = omega arith

mul-le-mul : (a b c d : ℕ) → a ≤ c → b ≤ d → a * b ≤ c * d
mul-le-mul a b c d h k =
    let hc : c ≡ a + (c - a) = omega arith in
    let hd : d ≡ b + (d - b) = omega arith in rw (hc, hd) (mul_grows a (c - a) b (d - b))

-- Memory grows with the window.
bytes_le : (bytes batch a b c d : ℕ) → a ≤ c → b ≤ d → bytes * a * b * batch ≤ bytes * c * d * batch
bytes_le bytes batch a b c d h k =
    let first = mul-le-mul bytes a bytes c (omega arith) h in
    let second = mul-le-mul (bytes * a) b (bytes * c) d first k in
    mul-le-mul (bytes * a * b) batch (bytes * c * d) batch second (omega arith)

-- The window of the request, times the bytes per pixel and the batch, is within the budget.
abbrev pub IsWithin : (budget bytes batch : ℕ) → TileRequest → Type 0
IsWithin budget bytes batch r = bytes * width r.read_bbox * height r.read_bbox * batch ≤ budget

best_core-Fits :
    (budget bytes halo batch lo hi : ℕ)
    → Fits budget bytes halo batch lo
    → (lo ≤ best_core budget bytes halo batch lo hi)
      × Fits budget bytes halo batch (best_core budget bytes halo batch lo hi)
unfolding best_core range
best_core-Fits budget bytes halo batch lo hi fits =
    let (ge, which, _) =
      best_core_from-IsLargest budget bytes halo batch ((hi + 1 - lo + (8 - 1)) / 8) lo lo
        (omega arith) in
    (ge, elim which [ inl same ↦ rw same fits | inr (_, p) ↦ p ])

module _ (h w budget bytes batch c e best halo : ℕ) where
  planned-IsWithin :
      c + 2 * e ≤ best + 2 * halo
      → Fits budget bytes halo batch best
      → (prefix : String) (idx : ℕ) (rs : List TileRequest)
      → ArePlanned h w (around e) prefix idx rs
      → All (λ r. IsCore w h c r.core_bbox) rs
      → All (IsWithin budget bytes batch) rs
  planned-IsWithin small fits prefix idx [] ps cs = tt
  planned-IsWithin small fits prefix idx (r ∷ rs) (p, ps) (core, cs) =
      let (narrow, low) = read_at_most h w c e (planned prefix idx) r core p in
      let grown =
        bytes_le bytes batch (width r.read_bbox) (height r.read_bbox) (best + 2 * halo)
          (best + 2 * halo) (omega arith) (omega arith) in
      (ground (arith, grown, fits), planned-IsWithin small fits prefix (idx + 1) rs ps cs)

around-IsNonneg : (e : ℕ) → IsNonneg (around e)
around-IsNonneg e = omega arith

-- For a positive budget and core bounds with 0 < min_core <= max_core, when a tile of the smallest
-- core fits the budget, plan_tiling succeeds for every shape: the cores of the plan own each pixel of
-- the layout exactly once and no other pixel, and every read window, times the bytes per pixel and
-- the batch, is within the budget.
pub plan_tiling-IsWithin :
    (h w budget bytes halo lo hi batch : ℕ)
    → 0 < budget
    → 0 < lo
    → lo ≤ hi
    → Fits budget bytes halo batch lo
    → (requests : List TileRequest) × (plan_tiling h w budget bytes halo lo hi batch ≡ ok requests)
      × Tiles (cores_of requests) 0 w 0 h
      × All (IsWithin budget bytes batch) requests
unfolding plan_tiling uniform
plan_tiling-IsWithin h w budget bytes halo lo hi batch hb hl hh fits =
    let best = best_core budget bytes halo batch lo hi in
    let (ge, best_fits) = best_core-Fits budget bytes halo batch lo hi fits in
    elim (Bool-cases (leb (min h w) best)) [
      | inl t ↦
          let (rs, e, tiles, ps, cs) =
            plan_tile_requests-ArePlanned h w (max (min h w) lo) (around 0) "tile" (omega arith)
              (around-IsNonneg 0) in
          (
            rs,
            ground (arith, e),
            tiles,
            planned-IsWithin h w budget bytes batch (max (min h w) lo) 0 best halo (ground arith)
                best_fits "tile" 0 rs ps cs,
          )
      | inr f ↦
          let (rs, e, tiles, ps, cs) =
            plan_tile_requests-ArePlanned h w best (around halo) "tile" (omega arith)
              (around-IsNonneg halo) in
          (
            rs,
            ground (arith, e),
            tiles,
            planned-IsWithin h w budget bytes batch best halo best halo (omega arith) best_fits
                "tile" 0 rs ps cs,
          )
    ]

-- When the smallest core fits the budget and min_core <= max_core, best_core is the largest core size
-- that fits among min_core, min_core + 8, ... up to max_core: it is one of these, it fits, and every
-- one of these that fits is at most as large.
pub best_core-largest :
    (budget bytes halo batch lo hi : ℕ)
    → lo ≤ hi
    → Fits budget bytes halo batch lo
    → ((k : ℕ) × (lo + k * 8 ≤ hi) × (best_core budget bytes halo batch lo hi ≡ lo + k * 8))
      × Fits budget bytes halo batch (best_core budget bytes halo batch lo hi)
      × ((k : ℕ)
          → lo + k * 8 ≤ hi
          → Fits budget bytes halo batch (lo + k * 8)
          → lo + k * 8 ≤ best_core budget bytes halo batch lo hi)
unfolding best_core range
best_core-largest budget bytes halo batch lo hi hh fits =
    let count = (hi + 1 - lo + (8 - 1)) / 8 in
    let (_, which, all_fit) =
      best_core_from-IsLargest budget bytes halo batch count lo lo (omega arith) in
    (
      elim which [
        | inl same ↦ (0, omega arith, omega arith)
        | inr ((k, lt, e), _) ↦ (k, omega arith, e)
      ],
      (best_core-Fits budget bytes halo batch lo hi fits).1,
      (λ k le p. all_fit (lo + k * 8) (k, omega arith, refl) p),
    )

-- A window without halo, of a core that spans the shorter side, and is as long on the other or ends at
-- the edge of the layout.
pub record IsBare (h w : ℕ) (r : TileRequest) : Type 0 where
  pub bare : r.read_bbox ≡ r.core_bbox
  pub spans_rows : h ≤ w → (r.core_bbox.y0 ≡ 0) × (r.core_bbox.y1 ≡ h)
  pub spans_columns : w ≤ h → (r.core_bbox.x0 ≡ 0) × (r.core_bbox.x1 ≡ w)
  pub wide : (width r.core_bbox ≡ min h w) ⊎ (r.core_bbox.x1 ≡ w)
  pub high : (height r.core_bbox ≡ min h w) ⊎ (r.core_bbox.y1 ≡ h)

first_step : (a c : ℕ) → a < c → a % c ≡ 0 → a ≡ 0
first_step a c lt h = let same = mod-eq_of_lt lt in cc

tile-IsBare :
    (h w : ℕ) (i : TileId) (r : TileRequest)
    → IsCore w h (min h w) r.core_bbox
    → IsRequest h w (around 0) i r
    → IsBare h w r
unfolding halo_actual contains ◌-ℤ◌
tile-IsBare h w i r (inside, narrow, low, grid) req =
    let m = req.window.at_most in
    let covers = req.window.covers in
    let x = first_step r.core_bbox.x0 (min h w) in
    let y = first_step r.core_bbox.y0 (min h w) in
    record {
      bare = ground (arith, covers, m.left, m.right, m.top, m.bottom);
      spans_rows =
          λ le. let zero_ : r.core_bbox.y0 ≡ 0 = y (omega arith) grid.row in (zero_, omega arith);
      spans_columns = λ le.
          let zero_ : r.core_bbox.x0 ≡ 0 = x (omega arith) grid.column in (zero_, omega arith);
      wide = ground (arith, inside.0, inside.1, grid.right);
      high = ground (arith, inside.0, inside.1, grid.bottom);
    }

planned-IsBare :
    (h w : ℕ) (prefix : String) (idx : ℕ) (rs : List TileRequest)
    → ArePlanned h w (around 0) prefix idx rs
    → All (λ r. IsCore w h (min h w) r.core_bbox) rs
    → All (IsBare h w) rs
planned-IsBare h w prefix idx [] ps cs = tt
planned-IsBare h w prefix idx (r ∷ rs) (p, ps) (core, cs) =
    (tile-IsBare h w (planned prefix idx) r core p, planned-IsBare h w prefix (idx + 1) rs ps cs)

-- For a layout whose shorter side is at least min_core and at most the best core, plan_tiling takes
-- cores of the shorter side, and none of them has a halo: whatever halo is asked for, every read
-- window is its core, and every core spans the shorter side of the layout and is as long on the other
-- side, or ends at the edge of the layout. The cores own each pixel of the layout once.
pub plan_tiling-strips :
    (h w budget bytes halo lo hi batch : ℕ)
    → 0 < budget
    → 0 < lo
    → lo ≤ hi
    → lo ≤ min h w
    → min h w ≤ best_core budget bytes halo batch lo hi
    → (requests : List TileRequest) × (plan_tiling h w budget bytes halo lo hi batch ≡ ok requests)
      × Tiles (cores_of requests) 0 w 0 h
      × All (IsBare h w) requests
unfolding plan_tiling uniform
plan_tiling-strips h w budget bytes halo lo hi batch hb hl hh hs small =
    let t : leb (min h w) (best_core budget bytes halo batch lo hi) ≡ true = ground arith in
    let c = max (min h w) lo in
    let same : c ≡ min h w = omega arith in
    let (rs, e, tiles, ps, cs) =
      plan_tile_requests-ArePlanned h w c (around 0) "tile" (omega arith) (around-IsNonneg 0) in
    let cores : All (λ r. IsCore w h (min h w) r.core_bbox) rs =
      subst (λ n. All (λ r. IsCore w h n r.core_bbox) rs) same cs in
    (rs, ground (arith, e), tiles, planned-IsBare h w "tile" 0 rs ps cores)
