-- ===== src/Streaming/Ownership/Check.antt =====
-- _check_partition: it accepts what partition_core makes, and some lists that overlap.
use open_litho_hub.Base.{
  ℕ, ◌+◌, ◌-◌, ◌*◌, ◌≤◌, ◌<◌, ◌≡◌, true, List, [], ◌∷◌, ok, sum_by, All, arith, map, Bool-cases,
  inl, inr,
}
use open_litho_hub.Streaming.Geometry.{BoundingBox, area}
use open_litho_hub.Streaming.Geometry.Pixels.{owners}
use open_litho_hub.Streaming.Geometry.Read.{IsBox}
use open_litho_hub.Streaming.Ownership.{seen_box, check_children, check_partition}
use open_litho_hub.Streaming.Ownership.Partition.{Within, IsPartition}

-- A box that was seen shares its first pixel with one of the seen boxes.
seen_box-owners :
    (seen : List BoundingBox) (b : BoundingBox)
    → IsBox b
    → seen_box seen b ≡ true
    → 0 < owners seen b.x0 b.y0
unfolding seen_box
seen_box-owners [] b box h = cc
seen_box-owners (a ∷ seen) b box h = ground (arith, seen_box-owners seen b box)

abbrev pub square : (side : ℕ) → BoundingBox
square s = record { x0 = 0; y0 = 0; x1 = s; y1 = s }

halves_area : (k : ℕ) → (k - 0) * (k + k - 0) + (k + k - 0) * (k - 0) ≡ (k + k - 0) * (k + k - 0)
halves_area k =
    let one : k - 0 ≡ k = omega arith in
    let two : k + k - 0 ≡ k + k = omega arith in rw (one, two) (omega arith)

module _ {K : Type 0} where
  -- The boxes of a list of children.
  abbrev pub boxes_of : List (K × BoundingBox) → List BoundingBox
  boxes_of cores = map (λ c. c.1) cores

  check_children-accepts :
      (parent : BoundingBox) (seen : List BoundingBox) (total : ℕ) (cores : List (K × BoundingBox))
      → All (Within parent.x0 parent.x1 parent.y0 parent.y1) (boxes_of cores)
      → ((x y : ℕ) → owners seen x y + owners (boxes_of cores) x y ≤ 1)
      → check_children parent seen total cores ≡ ok (total + sum_by area (boxes_of cores))
  unfolding check_children
  check_children-accepts parent seen total [] w once = ground arith
  check_children-accepts parent seen total ((i, core) ∷ cores) w once =
      let rest =
        check_children-accepts parent (core ∷ seen) (total + area core) cores w.1
          (λ x y. omega (arith, once x y)) in
      elim (Bool-cases (seen_box seen core)) [
        | inl dup ↦
            absurd (ground (arith, seen_box-owners seen core w.0.0 dup, once core.x0 core.y0))
        | inr new ↦ ground (arith, rest, new, w.0)
      ]

  -- For every nonempty parent the check accepts every list of children whose boxes partition it:
  -- boxes inside the parent that own each of its pixels once and have its area together.
  pub check_partition-accepts :
      (parent : BoundingBox) (cores : List (K × BoundingBox))
      → IsBox parent
      → IsPartition (boxes_of cores) parent.x0 parent.x1 parent.y0 parent.y1
      → check_partition parent cores ≡ ok tt
  unfolding check_partition
  check_partition-accepts parent [] b p = absurd (ground (arith, p.tiles parent.x0 parent.y0))
  check_partition-accepts parent (c ∷ cs) b p =
      let counted =
        check_children-accepts parent [] 0 (c ∷ cs) p.within (λ x y. ground (arith, p.tiles x y)) in
      rw counted (ground (arith, p.conserved))

  -- Two halves of a square that cross.
  abbrev pub crossing : (i j : K) (k : ℕ) → List (K × BoundingBox)
  crossing i j k =
      (i, record { x0 = 0; y0 = 0; x1 = k; y1 = k + k })
      ∷ (j, record { x0 = 0; y0 = 0; x1 = k + k; y1 = k })
      ∷ []

  -- For every positive k the check accepts, as children of the square of side 2k, its left half and
  -- its upper half, although both own the pixel (0, 0) and neither owns the pixel (k, k).
  pub check_partition-crossing :
      (i j : K) (k : ℕ)
      → 0 < k
      → (check_partition (square (k + k)) (crossing i j k) ≡ ok tt)
        × (owners (boxes_of (crossing i j k)) 0 0 ≡ 2)
        × (owners (boxes_of (crossing i j k)) k k ≡ 0)
  unfolding check_partition check_children
  check_partition-crossing i j k h = (ground (arith, halves_area k), ground arith, ground arith)
