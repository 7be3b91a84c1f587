-- ===== src/Streaming/Ownership/Runs.antt =====
-- The ownership tree through a whole run: the coverage ledger counts the planned area.
use open_litho_hub.Base.{
  ℕ, ◌+◌, ◌≡◌, ◌≢◌, refl, Option, none, some, List, [], ◌∷◌, Outcome, Outcome-cases, ok, raise,
  sum_by, All, arith, Option-cases, inl, inr, ◌∙◌, sym,
}
use open_litho_hub.Base.Dict.{Eq, lookup, insert, mem, lookup-insert}
use open_litho_hub.Streaming.Faults.{Error, leaf_exists}
use open_litho_hub.Streaming.Geometry.{BoundingBox, area}
use open_litho_hub.Streaming.Ownership.{
  Disposition, Leaf, Tree, Counts, total_pixels, empty_tree, add_root, install_leaf, subdivide,
  mark_forward, set_terminal, verify_total_coverage,
}
use open_litho_hub.Streaming.Ownership.Ledger.{
  IsSound, area_of, owned, install_leaf-IsSound, owned-install_leaf,
}
use open_litho_hub.Streaming.Ownership.Subdivide.{
  subdivide-IsSubdivision, subdivide-absent, subdivide-raised,
}
use open_litho_hub.Streaming.Ownership.Coverage.{
  IsTerminated, verify_total_coverage-eq-ok, verify_total_coverage_total,
}

module _ {K : Type 0} ⦃e : Eq K⦄ where
  -- The pixels that a call of add_root takes into the tree: none if it raises.
  abbrev pub rooted_pixels : Outcome Error (Leaf K) → ℕ
  rooted_pixels (raise _) = 0
  rooted_pixels (ok l) = area l.core_bbox

  -- The trees that calls of the methods reach from the empty tree, whether they return or raise, with
  -- the pixels of the roots. The one call that is left out is a subdivide that raises because the id of
  -- a child is in use: it has retired the parent by then.
  pub data Run : ℕ → Tree K → Type 0 where
    fresh : Run 0 empty_tree
    rooted :
        {n : ℕ} {t : Tree K} (i : K) (core : BoundingBox)
        → Run n t
        → Run (n + rooted_pixels (add_root i core t).0) (add_root i core t).1
    divided :
        {n : ℕ} {t : Tree K} (i : K) (cores : List (K × BoundingBox))
        → Run n t
        → (subdivide i cores t).0 ≢ raise leaf_exists
        → Run n (subdivide i cores t).1
    forwarded : {n : ℕ} {t : Tree K} (i : K) → Run n t → Run n (mark_forward i t).1
    terminated :
        {n : ℕ} {t : Tree K} (i : K) (d : Option Disposition)
        → Run n t
        → Run n (set_terminal i d t).1

  -- An operation that stores a leaf with the box that it had.
  record Keeps (t t' : Tree K) : Type 0 where
    final : t'.final ≡ t.final
    known : (j : K) → lookup j t.leaves ≢ none → lookup j t'.leaves ≢ none
    sizes : (j : K) → area_of t'.leaves j ≡ area_of t.leaves j

  Keeps-self : (t : Tree K) → Keeps t t
  Keeps-self t = record { final = refl; known = λ j h. h; sizes = λ j. refl }

  Keeps-store :
      (t : Tree K) (i : K) (l l' : Leaf K)
      → lookup i t.leaves ≡ some l
      → l'.core_bbox ≡ l.core_bbox
      → Keeps t (record t { leaves = insert i l' t.leaves })
  Keeps-store t i l l' h same = record {
    final = refl;
    known = λ j k. ground (arith, k, lookup-insert i j l' t.leaves);
    sizes = λ j. ground (arith, lookup-insert i j l' t.leaves, h, e.beq_iff i j);
  }

  mark_forward-Keeps : (i : K) (t : Tree K) → Keeps t (mark_forward i t).1
  unfolding mark_forward
  mark_forward-Keeps i t = elim (Option-cases (lookup i t.leaves)) [
    | inl absent ↦ rw (absent, mark_forward) (Keeps-self t)
    | inr (l, found) ↦ rw (found, mark_forward) (Keeps-store t i l _ found refl)
  ]

  set_terminal-Keeps :
      (i : K) (d : Option Disposition) (t : Tree K) → Keeps t (set_terminal i d t).1
  unfolding set_terminal
  set_terminal-Keeps i none t = Keeps-self t
  set_terminal-Keeps i (some d) t = elim (Option-cases (lookup i t.leaves)) [
    | inl absent ↦ rw (absent, set_terminal) (Keeps-self t)
    | inr (l, found) ↦ elim (Option-cases l.terminal) [
      | inl open_ ↦ rw (found, set_terminal, open_) (Keeps-store t i l _ found refl)
      | inr (d', closed) ↦ rw (found, set_terminal, closed) (Keeps-self t)
    ]
  ]

  Keeps-sum :
      (t t' : Tree K) (is : List K)
      → Keeps t t'
      → sum_by (area_of t'.leaves) is ≡ sum_by (area_of t.leaves) is
  Keeps-sum t t' [] k = refl
  Keeps-sum t t' (i ∷ is) k = omega (arith, k.sizes i, Keeps-sum t t' is k)

  abbrev Holds : ℕ → Tree K → Type 0
  Holds n t = IsSound t × (owned t ≡ n)

  Keeps-Holds : (n : ℕ) (t t' : Tree K) → Keeps t t' → Holds n t → Holds n t'
  Keeps-Holds n t t' k (s, h) = (
    record {
      known = λ j m. k.known j (s.known j (rw k.final at m));
      distinct = rw k.final s.distinct;
    },
    rw k.final (Keeps-sum t t' t.final k ∙ h),
  )

  -- A returning add_root stored and made final a leaf under a fresh id.
  add_root-eq-ok :
      (i : K) (core : BoundingBox) (t : Tree K) {l : Leaf K}
      → (add_root i core t).0 ≡ ok l
      → (lookup i t.leaves ≡ none)
        × (l.leaf_id ≡ i)
        × (l.core_bbox ≡ core)
        × ((add_root i core t).1 ≡ install_leaf l t)
  unfolding add_root
  add_root-eq-ok i core t h = ground (arith, h)

  add_root-eq-raise :
      (i : K) (core : BoundingBox) (t : Tree K) {x : Error}
      → (add_root i core t).0 ≡ raise x
      → (add_root i core t).1 ≡ t
  unfolding add_root
  add_root-eq-raise i core t h = ground (arith, h)

  add_root-Holds :
      (n : ℕ) (i : K) (core : BoundingBox) (t : Tree K)
      → Holds n t
      → Holds (n + rooted_pixels (add_root i core t).0) (add_root i core t).1
  add_root-Holds n i core t (s, h) = elim (Outcome-cases (add_root i core t).0) [
    | inl (l, e_ok) ↦
        let (absent, named, sized, built) = add_root-eq-ok i core t e_ok in
        let fresh : lookup l.leaf_id t.leaves ≡ none = rw named absent in
        let grown : owned (install_leaf l t) ≡ n + area l.core_bbox =
          owned-install_leaf t l s fresh ∙ cc h in
        rw (e_ok, built) (install_leaf-IsSound t l s fresh, grown)
    | inr (x, e_raise) ↦ rw (e_raise, add_root-eq-raise i core t e_raise) (s, omega (arith, h))
  ]

  subdivide-Holds :
      (n : ℕ) (i : K) (cores : List (K × BoundingBox)) (t : Tree K)
      → (subdivide i cores t).0 ≢ raise leaf_exists
      → Holds n t
      → Holds n (subdivide i cores t).1
  subdivide-Holds n i cores t new (s, h) = elim (Option-cases (lookup i t.leaves)) [
    | inl absent ↦ rw (subdivide-absent t i cores absent) (s, h)
    | inr (parent, found) ↦ elim (Outcome-cases (subdivide i cores t).0) [
      | inl (ls, e_ok) ↦
          let d = subdivide-IsSubdivision t i parent cores ls s found e_ok in
          (d.sound, d.conserved ∙ h)
      | inr (x, e_raise) ↦ elim (subdivide-raised i cores t parent found e_raise) [
        | inl same ↦ rw same (s, h)
        | inr used ↦ absurd (new (rw used at e_raise))
      ]
    ]
  ]

  Run-Holds : {n : ℕ} {t : Tree K} → Run n t → Holds n t
  Run-Holds fresh = (unfold mem in record { known = λ i h. cc; distinct = tt }, refl)
  Run-Holds (rooted {n = n} {t = t} i core r) = add_root-Holds n i core t (Run-Holds r)
  Run-Holds (divided {n = n} {t = t} i cores r new) = subdivide-Holds n i cores t new (Run-Holds r)
  Run-Holds (forwarded {n = n} {t = t} i r) =
      Keeps-Holds n t _ (mark_forward-Keeps i t) (Run-Holds r)
  Run-Holds (terminated {n = n} {t = t} i d r) =
      Keeps-Holds n t _ (set_terminal-Keeps i d t) (Run-Holds r)

  -- After any such run, if the coverage check returns then the pixels that it was asked for, and the sum
  -- of the three counts, are the pixels of the roots; and every final leaf has a disposition.
  pub Run-coverage :
      {n : ℕ} {t : Tree K} (full : ℕ) (counts : Counts)
      → Run n t
      → verify_total_coverage t full ≡ ok counts
      → (full ≡ n) × (total_pixels counts ≡ n) × All (IsTerminated t.leaves) t.final
  Run-coverage {t = t} full counts r h =
      let (ended, size, total) = verify_total_coverage-eq-ok t full counts h in
      let owns = (Run-Holds r).1 in (sym size ∙ owns, total ∙ sym size ∙ owns, ended)

  -- After any such run whose final leaves all have a disposition, the coverage check for the pixels of
  -- the roots returns.
  pub Run-coverage_total :
      {n : ℕ} {t : Tree K}
      → Run n t
      → All (IsTerminated t.leaves) t.final
      → (counts : Counts) × (verify_total_coverage t n ≡ ok counts)
  Run-coverage_total {n} {t} r ended = verify_total_coverage_total t n ended (Run-Holds r).1
