-- ===== src/Streaming/Ownership/Subdivide.antt =====
-- OwnershipTree.subdivide: what it keeps, and what it raises.
use open_litho_hub.Base.{
  ℕ, ◌+◌, ◌≡◌, refl, true, false, none, some, List, [], ◌∷◌, ok, raise, All, >>=-eq-ok, ◌⊎◌, arith,
  Bool-cases, Outcome-cases, inl, inr,
}
use open_litho_hub.Base.Dict.{Eq, lookup, mem, discard, mem-discard}
use open_litho_hub.Streaming.Faults.{Error, not_a_final_leaf, key_error, leaf_exists}
use open_litho_hub.Streaming.Geometry.{BoundingBox, area}
use open_litho_hub.Streaming.Ownership.{
  Leaf, Tree, install_leaf, install_children, retire_and_install, subdivide, check_partition,
  check_children,
}
use open_litho_hub.Streaming.Ownership.Ledger.{
  IsSound, area_of, owned, cores_area, discard-Distinct, sum_by-discard,
  install_children-IsInstalled,
}

module _ {K : Type 0} ⦃e : Eq K⦄ where
  -- The tree after the parent is retired, and before its children are installed.
  retire-IsSound :
      (t : Tree K) (i : K) → IsSound t → IsSound (record t { final = discard i t.final })
  retire-IsSound t i s = record {
    known = λ j final. ground (arith, s.known j, mem-discard i j t.final);
    distinct = discard-Distinct i t.final s.distinct;
  }

  -- What a subdivision of the leaf `i`, with record `parent`, makes of the tree.
  pub record IsSubdivision (i : K) (parent : Leaf K) (t t' : Tree K) (leaves : List (Leaf K))
      : Type 0 where
    pub was_final : mem i t.final ≡ true
    pub sound : IsSound t'
    pub conserved : owned t' ≡ owned t
    pub retired : mem i t'.final ≡ false
    pub inherited : All (λ l. l.forward_seen ≡ parent.forward_seen) leaves

  pub check_children-eq-ok :
      (parent : BoundingBox) (seen : List BoundingBox) (total : ℕ) (cores : List (K × BoundingBox))
      {n : ℕ}
      → check_children parent seen total cores ≡ ok n
      → n ≡ total + cores_area cores
  unfolding check_children
  check_children-eq-ok parent seen total [] {n} h = ground arith
  check_children-eq-ok parent seen total ((i, core) ∷ cores) {n} h =
      ground (arith, check_children-eq-ok parent (core ∷ seen) (total + area core) cores {n = n})

  pub check_partition-area :
      (parent : BoundingBox) (cores : List (K × BoundingBox))
      → check_partition parent cores ≡ ok tt
      → cores_area cores ≡ area parent
  unfolding check_partition
  check_partition-area parent [] h = cc
  check_partition-area parent (c ∷ cs) h =
      let (total, e_total, e_eq) = >>=-eq-ok (check_children parent [] 0 (c ∷ cs)) _ h in
      ground (arith, check_children-eq-ok parent [] 0 (c ∷ cs) e_total, e_eq)

  pub subdivide-absent :
      (t : Tree K) (i : K) (cores : List (K × BoundingBox))
      → lookup i t.leaves ≡ none
      → subdivide i cores t ≡ (raise key_error, t)
  unfolding subdivide
  subdivide-absent t i cores h = rw (h, subdivide)

  -- `subdivide` on a leaf that is there, final and validated, and otherwise.
  subdivide-valid :
      (i : K) (cores : List (K × BoundingBox)) (t : Tree K) (parent : Leaf K)
      → lookup i t.leaves ≡ some parent
      → ((mem i t.final ≡ true)
          × (check_partition parent.core_bbox cores ≡ ok tt)
          × (subdivide i cores t ≡ retire_and_install i parent cores t))
        ⊎ ((x : Error) × (subdivide i cores t ≡ (raise x, t)))
  unfolding subdivide
  subdivide-valid i cores t parent h = elim (Bool-cases (mem i t.final)) [
    | inr retired ↦ inr (not_a_final_leaf, rw (h, retired, subdivide))
    | inl final ↦ elim (Outcome-cases (check_partition parent.core_bbox cores)) [
      | inr (x, bad) ↦ inr (x, rw (h, final, bad, subdivide))
      | inl (_, fits) ↦ inl (final, fits, rw (h, final, fits, subdivide))
    ]
  ]

  retire_and_install-eq-ok :
      (i : K) (parent : Leaf K) (cores : List (K × BoundingBox)) (t : Tree K)
      {leaves : List (Leaf K)}
      → (retire_and_install i parent cores t).0 ≡ ok leaves
      → ((install_children parent cores (record t { final = discard i t.final })).0 ≡ ok leaves)
        × ((retire_and_install i parent cores t).1.final
            ≡ (install_children parent cores (record t { final = discard i t.final })).1.final)
        × ((retire_and_install i parent cores t).1.leaves
            ≡ (install_children parent cores (record t { final = discard i t.final })).1.leaves)
  unfolding retire_and_install
  retire_and_install-eq-ok i parent cores t h = ground (arith, h)

  -- The one exception of the installation is that of an id in use.
  install_children-raised :
      (parent : Leaf K) (cores : List (K × BoundingBox)) (t : Tree K) {x : Error}
      → (install_children parent cores t).0 ≡ raise x
      → x ≡ leaf_exists
  unfolding install_children
  install_children-raised parent [] t h = absurd (cc)
  install_children-raised parent ((i, core) ∷ cores) t {x} h =
      let leaf : Leaf K = record {
        leaf_id = i;
        core_bbox = core;
        parent_id = some parent.leaf_id;
        forward_seen = parent.forward_seen;
        terminal = none;
      } in
      let ih = install_children-raised parent cores (install_leaf leaf t) {x = x} in
      ground (arith, h, ih)

  -- A subdivide that raises leaves the tree as it was, unless the id of a child is in use.
  pub subdivide-raised :
      (i : K) (cores : List (K × BoundingBox)) (t : Tree K) (parent : Leaf K) {x : Error}
      → lookup i t.leaves ≡ some parent
      → (subdivide i cores t).0 ≡ raise x
      → ((subdivide i cores t).1 ≡ t) ⊎ (x ≡ leaf_exists)
  unfolding retire_and_install
  subdivide-raised i cores t parent {x} known h = elim (subdivide-valid i cores t parent known) [
    | inr (y, raised) ↦ inl (rw raised refl)
    | inl (final, fits, step) ↦
        let bare : Tree K = record t { final = discard i t.final } in
        let h' : (retire_and_install i parent cores t).0 ≡ raise x = rw step at h in
        inr (install_children-raised parent cores bare (ground (arith, h')))
  ]

  -- A subdivision that returns keeps the tree sound and the owned area the same, it happens only to
  -- a final leaf, which is final no more, and every child has the parent's forward history.
  pub subdivide-IsSubdivision :
      (t : Tree K) (i : K) (parent : Leaf K) (cores : List (K × BoundingBox))
      (leaves : List (Leaf K))
      → IsSound t
      → lookup i t.leaves ≡ some parent
      → (subdivide i cores t).0 ≡ ok leaves
      → IsSubdivision i parent t (subdivide i cores t).1 leaves
  subdivide-IsSubdivision t i parent cores leaves s known h =
      elim (subdivide-valid i cores t parent known) [
        | inr (x, raised) ↦ absurd (cc (h, raised))
        | inl (final, fits, step) ↦
            let bare : Tree K = record t { final = discard i t.final } in
            let (e_ok, e_final, e_leaves) =
              retire_and_install-eq-ok i parent cores t (rw step at h) in
            let p = install_children-IsInstalled parent cores bare (retire-IsSound t i s) e_ok in
            let size : area_of t.leaves i ≡ area parent.core_bbox = rw (known, area_of) in
            rw step (record {
              was_final = final;
              sound = record {
                known = λ j. rw (e_final, e_leaves) (p.sound.known j);
                distinct = rw e_final p.sound.distinct;
              };
              conserved =
                  rw (e_final, e_leaves)
                    (omega (
                      arith,
                      p.grown,
                      check_partition-area parent.core_bbox cores fits,
                      sum_by-discard (area_of t.leaves) i t.final s.distinct final,
                      size,
                    ));
              retired =
                  ground
                    (arith, p.others i, mem-discard i i t.final, e.beq_iff i i, e_final, known);
              inherited = p.inherited;
            })
      ]
