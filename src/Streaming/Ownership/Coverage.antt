-- ===== src/Streaming/Ownership/Coverage.antt =====
-- terminal_pixel_counts and verify_total_coverage, after any number of steps of the tree.
use open_litho_hub.Base.{
  ℕ, ◌+◌, ◌≡◌, refl, some, List, [], ◌∷◌, ok, sum_by, All, arith, Option-cases, inl, inr, >>=-eq-ok,
}
use open_litho_hub.Base.Dict.{Eq, Dict, lookup}
use open_litho_hub.Streaming.Geometry.{area}
use open_litho_hub.Streaming.Ownership.{
  Disposition, active, exact_skip, verify_skip, Leaf, Tree, Counts, total_pixels, zero_counts,
  count_area, count_leaves, terminal_pixel_counts, verify_total_coverage,
}
use open_litho_hub.Streaming.Ownership.Ledger.{area_of, owned}

count_area-total :
    (d : Disposition) (n : ℕ) (c : Counts) → total_pixels (count_area d n c) ≡ total_pixels c + n
unfolding count_area
count_area-total active n c = omega arith
count_area-total exact_skip n c = omega arith
count_area-total verify_skip n c = omega arith

module _ {K : Type 0} ⦃e : Eq K⦄ where
  -- The leaf is there and has a terminal disposition.
  abbrev pub IsTerminated : Dict K (Leaf K) → K → Type 0
  IsTerminated leaves i =
      (l : Leaf K) × (d : Disposition) × (lookup i leaves ≡ some l) × (l.terminal ≡ some d)

  count_leaves-eq-ok :
      (t : Tree K) (is : List K) (c : Counts) {out : Counts}
      → count_leaves t is c ≡ ok out
      → (total_pixels out ≡ total_pixels c + sum_by (area_of t.leaves) is)
        × All (IsTerminated t.leaves) is
  unfolding count_leaves
  count_leaves-eq-ok t [] c h = (ground arith, tt)
  count_leaves-eq-ok t (i ∷ is) c {out} h = elim (Option-cases (lookup i t.leaves)) [
    | inl absent ↦ absurd (ground arith)
    | inr (l, found) ↦ elim (Option-cases l.terminal) [
      | inl open_ ↦ absurd (ground arith)
      | inr (d, closed) ↦
          let (sum, rest) =
            count_leaves-eq-ok t is (count_area d (area l.core_bbox) c) {out = out}
              (ground (arith, h)) in
          (
            ground (arith, sum, count_area-total d (area l.core_bbox) c),
            ((l, d, found, closed), rest),
          )
    ]
  ]

  count_leaves_total :
      (t : Tree K) (is : List K) (c : Counts)
      → All (IsTerminated t.leaves) is
      → (out : Counts) × (count_leaves t is c ≡ ok out)
  unfolding count_leaves
  count_leaves_total t [] c h = (c, refl)
  count_leaves_total t (i ∷ is) c ((l, d, found, closed), h) =
      let (out, q) = count_leaves_total t is (count_area d (area l.core_bbox) c) h in
      (out, ground (arith, q))

  -- If the coverage check returns, every final leaf has a disposition, the final leaves own as many
  -- pixels as the chip has, and the returned counts add up to the chip.
  pub verify_total_coverage-eq-ok :
      (t : Tree K) (full : ℕ) (counts : Counts)
      → verify_total_coverage t full ≡ ok counts
      → All (IsTerminated t.leaves) t.final × (owned t ≡ full) × (total_pixels counts ≡ full)
  unfolding verify_total_coverage
  verify_total_coverage-eq-ok t full counts h =
      let (found, e_found, e_rest) = >>=-eq-ok (terminal_pixel_counts t) _ h in
      let (sum, ended) = count_leaves-eq-ok t t.final zero_counts e_found in
      (ended, ground (arith, sum, e_rest), ground (arith, sum, e_rest))

  -- The coverage check returns whenever every final leaf has a disposition and the final leaves own as
  -- many pixels as the chip has.
  pub verify_total_coverage_total :
      (t : Tree K) (full : ℕ)
      → All (IsTerminated t.leaves) t.final
      → owned t ≡ full
      → (counts : Counts) × (verify_total_coverage t full ≡ ok counts)
  unfolding verify_total_coverage
  verify_total_coverage_total t full ended h =
      let (counts, found) = count_leaves_total t t.final zero_counts ended in
      let (sum, _) = count_leaves-eq-ok t t.final zero_counts found in
      (counts, ground (arith, found, sum))
