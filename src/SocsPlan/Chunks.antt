-- ===== src/SocsPlan/Chunks.antt =====
-- aligned_columns: the greatest chunk that the budget, the cap on a block and the columns allow.
use native.Mathlib.Nat.{le-div_iff_mul-le}
use open_litho_hub.Base.{
  ℕ, ◌+◌, ◌-◌, ◌*◌, ◌/◌, ◌%◌, ◌≤◌, ◌<◌, ◌≡◌, ◌↔◌, min, max, ltb, if◌then◌else◌, arith,
}
use open_litho_hub.Base.Int.{ℤ, pos, pos_part, neg_part, ◌-ℤ◌, ◌≤ℤ◌}
use open_litho_hub.SocsPlan.{
  Problem, common, gram, slope_pass1, slope_pass2, fixed_pass2, chunk_limit, aligned_columns,
  max_operational_h_chunk_bytes,
}

-- The part of the budget that a fixed need leaves.
budget_left :
    (budget : ℤ) (fixed : ℕ)
    → pos_part (budget -ℤ pos fixed) ≡ pos_part budget - (neg_part budget + fixed)
unfolding ◌-ℤ◌
budget_left budget fixed = ground arith

limit_arith :
    (p n fixed slope c q : ℕ)
    → 0 < slope
    → 0 < c
    → ((c ≤ q) ↔ (c * slope ≤ p - (n + fixed)))
    → (c ≤ (if ltb (fixed + n) (p + 0) then q else 0)) ↔ (fixed + slope * c + n ≤ p + 0)
limit_arith p n fixed slope c q hs hc (to, from) = grind arith

-- Within a positive chunk's limit, the phase fits the budget, and only there.
chunk_limit-fits :
    (budget : ℤ) (slope fixed c : ℕ)
    → 0 < slope
    → 0 < c
    → (c ≤ chunk_limit budget slope fixed) ↔ (pos (fixed + slope * c) ≤ℤ budget)
unfolding chunk_limit
chunk_limit-fits budget slope fixed c hs hc =
    rw (budget_left budget fixed)
      (limit_arith (pos_part budget) (neg_part budget) fixed slope c _ hs hc (le-div_iff_mul-le hs))

-- A chunk that a pass may use: aligned, no larger than the spectrum, its block under the cap, and
-- either pass with it within the budget.
pub record IsLegalChunk (budget : ℤ) (p : Problem) (columns : ℕ) : Type 0 where
  pub aligned : columns % 1024 ≡ 0
  pub in_range : columns ≤ p.n_freq
  pub capped : columns * max 1 (p.n_src * p.complex_bytes) ≤ max_operational_h_chunk_bytes
  pub pass1_fits : pos (common p + gram p + slope_pass1 p * columns) ≤ℤ budget
  pub pass2_fits : pos (common p + fixed_pass2 p + slope_pass2 p * columns) ≤ℤ budget

slope_pass1-pos : (p : Problem) → 0 < slope_pass1 p
unfolding slope_pass1
slope_pass1-pos p = omega arith

slope_pass2-pos : (p : Problem) → 0 < slope_pass2 p
unfolding slope_pass2
slope_pass2-pos p = omega (arith, slope_pass1-pos p)

align_arith :
    (c a b m n : ℕ)
    → c % 1024 ≡ 0
    → (c ≤ min (min (min a b) m) n / 1024 * 1024) ↔ (c ≤ a) × (c ≤ b) × (c ≤ m) × (c ≤ n)
align_arith c a b m n h = (λ le. omega arith, λ le. omega arith)

-- The aligned columns bound exactly the legal chunks.
pub aligned_columns-IsLegalChunk :
    (budget : ℤ) (p : Problem) (c : ℕ)
    → 0 < c
    → c % 1024 ≡ 0
    → (c ≤ aligned_columns budget p) ↔ IsLegalChunk budget p c
unfolding aligned_columns
aligned_columns-IsLegalChunk budget p c hc ha =
    let l1 = chunk_limit budget (slope_pass1 p) (common p + gram p) in
    let l2 = chunk_limit budget (slope_pass2 p) (common p + fixed_pass2 p) in
    let unit = max 1 (p.n_src * p.complex_bytes) in
    let cap = max_operational_h_chunk_bytes / unit in
    let (split, join) = align_arith c l1 l2 cap p.n_freq ha in
    let first =
      chunk_limit-fits budget (slope_pass1 p) (common p + gram p) c (slope_pass1-pos p) hc in
    let second =
      chunk_limit-fits budget (slope_pass2 p) (common p + fixed_pass2 p) c (slope_pass2-pos p) hc in
    let block : (c ≤ cap) ↔ (c * unit ≤ max_operational_h_chunk_bytes) =
      le-div_iff_mul-le (omega arith) in
    (
      λ le.
          let (a, b, m, n) = split le in
          record {
            aligned = ha;
            in_range = n;
            capped = block.0 m;
            pass1_fits = first.0 a;
            pass2_fits = second.0 b;
          },
      λ legal. join (
        first.1 legal.pass1_fits,
        second.1 legal.pass2_fits,
        block.1 legal.capped,
        legal.in_range,
      ),
    )

pub aligned_columns-aligned : (budget : ℤ) (p : Problem) → aligned_columns budget p % 1024 ≡ 0
unfolding aligned_columns
aligned_columns-aligned budget p = omega arith

pub aligned_columns-le : (budget : ℤ) (p : Problem) → aligned_columns budget p ≤ p.n_freq
unfolding aligned_columns
aligned_columns-le budget p = omega arith
