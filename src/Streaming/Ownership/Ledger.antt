-- ===== src/Streaming/Ownership/Ledger.antt =====
-- The area that the final leaves own: what a subdivision keeps, and what the coverage check finds.
use open_litho_hub.Base.{
  ℕ, ◌+◌, ◌≡◌, ◌≢◌, refl, true, false, none, some, List, [], ◌∷◌, ok, raise, sum_by, All, ◌>>=◌,
  >>=-eq-ok, Option-cases, arith, Bool-cases, inl, inr,
}
use open_litho_hub.Base.Dict.{
  Eq, Dict, lookup, insert, mem, add, discard, mem-discard, mem-add, lookup-insert,
}
use open_litho_hub.Streaming.Faults.{leaf_exists}
use open_litho_hub.Streaming.Geometry.{BoundingBox, area}
use open_litho_hub.Streaming.Ownership.{Leaf, Tree, install_leaf, install_children}

module _ {K : Type 0} ⦃e : Eq K⦄ where
  abbrev pub Distinct : List K → Type 0
  Distinct [] = Unit
  Distinct (i ∷ is) = (mem i is ≡ false) × Distinct is

  -- Every final id names a leaf, and no id is there twice.
  pub record IsSound (t : Tree K) : Type 0 where
    pub known : (i : K) → mem i t.final ≡ true → lookup i t.leaves ≢ none
    pub distinct : Distinct t.final

  abbrev pub area_of : Dict K (Leaf K) → K → ℕ
  area_of leaves i = elim (lookup i leaves) [ none ↦ 0 | some l ↦ area l.core_bbox ]

  -- The area that the final leaves own.
  abbrev pub owned : Tree K → ℕ
  owned t = sum_by (area_of t.leaves) t.final

  pub discard-Distinct : (i : K) (is : List K) → Distinct is → Distinct (discard i is)
  unfolding discard
  discard-Distinct i [] d = tt
  discard-Distinct i (j ∷ is) d = ground (arith, discard-Distinct i is d.1, mem-discard i j is)

  pub discard-absent : (i : K) (is : List K) → mem i is ≡ false → discard i is ≡ is
  unfolding discard mem
  discard-absent i [] h = refl
  discard-absent i (j ∷ is) h = ground (arith, discard-absent i is)

  pub sum_by-discard :
      (f : K → ℕ) (i : K) (is : List K)
      → Distinct is
      → mem i is ≡ true
      → sum_by f (discard i is) + f i ≡ sum_by f is
  unfolding discard mem
  sum_by-discard f i [] d h = cc
  sum_by-discard f i (j ∷ is) d h =
      ground (arith, sum_by-discard f i is d.1, discard-absent i is, e.beq_iff j i)

  -- A leaf under a new id leaves the area of the other ids as it was.
  sum_by-insert :
      (i : K) (l : Leaf K) (leaves : Dict K (Leaf K)) (is : List K)
      → mem i is ≡ false
      → sum_by (area_of (insert i l leaves)) is ≡ sum_by (area_of leaves) is
  unfolding mem
  sum_by-insert i l leaves [] h = refl
  sum_by-insert i l leaves (j ∷ is) h =
      ground (
        arith,
        sum_by-insert i l leaves is,
        lookup-insert i j l leaves,
        e.beq_iff i j,
        e.beq_iff j i,
      )

  -- An id that names no leaf is not final in a sound tree.
  absent-not_final :
      (t : Tree K) (i : K) → IsSound t → lookup i t.leaves ≡ none → mem i t.final ≡ false
  absent-not_final t i s h = elim (Bool-cases (mem i t.final)) [
    | inl final ↦ absurd (s.known i final h)
    | inr other ↦ other
  ]

  pub install_leaf-IsSound :
      (t : Tree K) (l : Leaf K)
      → IsSound t
      → lookup l.leaf_id t.leaves ≡ none
      → IsSound (install_leaf l t)
  unfolding add
  install_leaf-IsSound t l s h =
      let fresh = absent-not_final t l.leaf_id s h in
      record {
        known = λ i final. ground (
          arith,
          s.known i,
          lookup-insert l.leaf_id i l t.leaves,
          fresh,
          mem-add l.leaf_id i t.final,
        );
        distinct = ground (arith, fresh, s.distinct);
      }

  pub owned-install_leaf :
      (t : Tree K) (l : Leaf K)
      → IsSound t
      → lookup l.leaf_id t.leaves ≡ none
      → owned (install_leaf l t) ≡ owned t + area l.core_bbox
  unfolding add
  owned-install_leaf t l s h =
      let fresh = absent-not_final t l.leaf_id s h in
      ground (
        arith,
        fresh,
        sum_by-insert l.leaf_id l t.leaves t.final fresh,
        lookup-insert l.leaf_id l.leaf_id l t.leaves,
        e.beq_iff l.leaf_id l.leaf_id,
      )

  abbrev pub cores_area : List (K × BoundingBox) → ℕ
  cores_area cores = sum_by (λ c. area c.1) cores

  -- From `t` to `t'` the children were installed.
  pub record IsInstalled (parent : Leaf K) (cores : List (K × BoundingBox)) (t t' : Tree K)
      (leaves : List (Leaf K)) : Type 0 where
    pub sound : IsSound t'
    pub grown : owned t' ≡ owned t + cores_area cores
    pub inherited : All (λ l. l.forward_seen ≡ parent.forward_seen) leaves
    pub others : (j : K) → lookup j t.leaves ≢ none → mem j t'.final ≡ mem j t.final

  abbrev child_leaf : Leaf K → K → BoundingBox → Leaf K
  child_leaf parent i core = record {
    leaf_id = i;
    core_bbox = core;
    parent_id = some parent.leaf_id;
    forward_seen = parent.forward_seen;
    terminal = none;
  }

  -- One step of the loop: an id that is taken raises, a fresh one becomes a leaf.
  install_children-taken :
      (parent : Leaf K) (i : K) (core : BoundingBox) (cores : List (K × BoundingBox)) (t : Tree K)
      {l : Leaf K}
      → lookup i t.leaves ≡ some l
      → install_children parent ((i, core) ∷ cores) t ≡ (raise leaf_exists, t)
  unfolding install_children
  install_children-taken parent i core cores t h = rw (h, install_children)

  install_children-fresh :
      (parent : Leaf K) (i : K) (core : BoundingBox) (cores : List (K × BoundingBox)) (t : Tree K)
      → lookup i t.leaves ≡ none
      → install_children parent ((i, core) ∷ cores) t ≡ (
        (install_children parent cores (install_leaf (child_leaf parent i core) t)).0
            >>= (λ ls. ok (child_leaf parent i core ∷ ls)),
        (install_children parent cores (install_leaf (child_leaf parent i core) t)).1,
      )
  unfolding install_children
  install_children-fresh parent i core cores t h = rw (h, install_children)

  pub install_children-IsInstalled :
      (parent : Leaf K) (cores : List (K × BoundingBox)) (t : Tree K) {leaves : List (Leaf K)}
      → IsSound t
      → (install_children parent cores t).0 ≡ ok leaves
      → IsInstalled parent cores t (install_children parent cores t).1 leaves
  install_children-IsInstalled parent [] t {leaves} s h =
      unfold install_children in
      record { sound = s; grown = omega arith; inherited = ground (arith, h); others = λ j _. refl }
  install_children-IsInstalled parent ((i, core) ∷ cores) t {leaves} s h =
      elim (Option-cases (lookup i t.leaves)) [
        | inr (l, taken) ↦ absurd (cc (h, install_children-taken parent i core cores t taken))
        | inl fresh ↦
            let leaf = child_leaf parent i core in
            let t1 = install_leaf leaf t in
            let step = install_children-fresh parent i core cores t fresh in
            let (more, e_more, e_leaves) =
              >>=-eq-ok (install_children parent cores t1).0 (λ ls. ok (leaf ∷ ls)) {out = leaves}
                (rw step at h) in
            let rest =
              install_children-IsInstalled parent cores t1 (install_leaf-IsSound t leaf s fresh)
                e_more in
            let grown = owned-install_leaf t leaf s fresh in
            rw step (record {
              sound = rest.sound;
              grown = omega (arith, rest.grown, grown);
              inherited = ground (arith, rest.inherited, e_leaves);
              others = λ j known. ground (
                arith,
                rest.others j,
                lookup-insert i j leaf t.leaves,
                mem-add i j t.final,
                e.beq_iff i j,
              );
            })
      ]
