-- ===== src/Streaming/Ownership/Examples.antt =====
-- The theorems on the ownership tree at a square that is split into two halves.
use open_litho_hub.Base.{
  ℕ, ◌≡◌, refl, true, false, Option, none, some, List, [], ◌∷◌, ok, All, arith,
}
use open_litho_hub.Base.Dict.{nat_eq, lookup, insert, mem, add, discard}
use open_litho_hub.Streaming.Geometry.{BoundingBox}
use open_litho_hub.Streaming.Ownership.{
  Disposition, active, exact_skip, Leaf, Tree, Counts, total_pixels, empty_tree, add_root,
  partition_core, check_partition, subdivide, retire_and_install, check_children, install_children,
  seen_box, escapes, same_box, count_leaves, count_area, terminal_pixel_counts, set_terminal,
  mark_forward, verify_total_coverage,
}
use open_litho_hub.Streaming.Ownership.Partition.{IsPartition, partition_core-IsPartition}
use open_litho_hub.Streaming.Ownership.Check.{square, boxes_of}
use open_litho_hub.Streaming.Ownership.Ledger.{IsSound, owned}
use open_litho_hub.Streaming.Ownership.Subdivide.{IsSubdivision, subdivide-IsSubdivision}
use open_litho_hub.Streaming.Ownership.Coverage.{IsTerminated}
use open_litho_hub.Streaming.Ownership.Runs.{
  Run, fresh, rooted, divided, forwarded, terminated, Run-coverage, Run-coverage_total,
}

partition_core-IsPartition_example :
    (boxes : List BoundingBox) × (partition_core (square 5) 2 ≡ ok boxes)
    × IsPartition boxes 0 5 0 5
partition_core-IsPartition_example =
    partition_core-IsPartition (square 5) 2 (omega arith) (omega arith)

abbrev halves : List (ℕ × BoundingBox)
halves =
    (2, record { x0 = 0; y0 = 0; x1 = 2; y1 = 4 })
    ∷ (3, record { x0 = 2; y0 = 0; x1 = 4; y1 = 4 })
    ∷ []

halves-IsPartition : IsPartition (boxes_of halves) 0 4 0 4
halves-IsPartition = record { within = omega arith; tiles = λ x y. ground arith; conserved = refl }

abbrev root : Leaf ℕ
root = record {
  leaf_id = 1;
  core_bbox = square 4;
  parent_id = none;
  forward_seen = false;
  terminal = none;
}

abbrev planted : Tree ℕ
planted = record { leaves = (1, root) ∷ []; children = []; final = 1 ∷ [] }

planted-IsSound : IsSound planted
unfolding mem lookup
planted-IsSound = record { known = λ i h. ground arith; distinct = (refl, tt) }

abbrev half_leaf : ℕ → BoundingBox → Option Disposition → Leaf ℕ
half_leaf i core d = record {
  leaf_id = i;
  core_bbox = core;
  parent_id = some 1;
  forward_seen = false;
  terminal = d;
}

abbrev left : BoundingBox
left = record { x0 = 0; y0 = 0; x1 = 2; y1 = 4 }

abbrev right : BoundingBox
right = record { x0 = 2; y0 = 0; x1 = 4; y1 = 4 }

abbrev split_leaves : List (Leaf ℕ)
split_leaves = half_leaf 2 left none ∷ half_leaf 3 right none ∷ []

split_ok : (subdivide 1 halves planted).0 ≡ ok split_leaves
unfolding add_root subdivide check_partition retire_and_install install_children check_children
    lookup insert mem add discard set_terminal mark_forward verify_total_coverage
    terminal_pixel_counts count_leaves count_area seen_box escapes same_box
split_ok = refl

subdivide-IsSubdivision_example :
    IsSubdivision 1 root planted (subdivide 1 halves planted).1 split_leaves
subdivide-IsSubdivision_example =
    subdivide-IsSubdivision planted 1 root halves split_leaves planted-IsSound
      (unfold lookup in refl) split_ok

-- The tree after the split, and after both halves have their dispositions.
abbrev grown : Tree ℕ
grown = (subdivide 1 halves (add_root 1 (square 4) empty_tree).1).1

abbrev ended : Tree ℕ
ended =
    (set_terminal 3 (some exact_skip) (set_terminal 2 (some active) (mark_forward 2 grown).1).1).1

ended-Run : Run {K = ℕ} 16 ended
unfolding add_root subdivide check_partition retire_and_install install_children check_children
    lookup insert mem add discard set_terminal mark_forward verify_total_coverage
    terminal_pixel_counts count_leaves count_area seen_box escapes same_box
ended-Run = terminated 3 (some exact_skip) (
    terminated 2 (some active)
      (forwarded 2 (divided 1 halves (rooted 1 (square 4) fresh) (λ h. absurd (cc)))))

abbrev eight_each : Counts
eight_each = record { active_pixels = 8; exact_pixels = 8; verify_pixels = 0 }

ended-ended : All (IsTerminated ended.leaves) ended.final
unfolding add_root subdivide check_partition retire_and_install install_children check_children
    lookup insert mem add discard set_terminal mark_forward verify_total_coverage
    terminal_pixel_counts count_leaves count_area seen_box escapes same_box
ended-ended = (
  (half_leaf 3 right (some exact_skip), exact_skip, refl, refl),
  ((record (half_leaf 2 left (some active)) { forward_seen = true }, active, refl, refl), tt),
)

ended_covers : verify_total_coverage ended 16 ≡ ok eight_each
unfolding add_root subdivide check_partition retire_and_install install_children check_children
    lookup insert mem add discard set_terminal mark_forward verify_total_coverage
    terminal_pixel_counts count_leaves count_area seen_box escapes same_box
ended_covers = refl

Run-coverage_example :
    (total_pixels eight_each ≡ total_pixels eight_each)
    × (total_pixels eight_each ≡ 16)
    × All (IsTerminated ended.leaves) ended.final
Run-coverage_example = Run-coverage 16 eight_each ended-Run ended_covers

Run-coverage_total_example : (counts : Counts) × (verify_total_coverage ended 16 ≡ ok counts)
Run-coverage_total_example = Run-coverage_total ended-Run ended-ended

ended-owned : owned ended ≡ 16
unfolding add_root subdivide check_partition retire_and_install install_children check_children
    lookup insert mem add discard set_terminal mark_forward verify_total_coverage
    terminal_pixel_counts count_leaves count_area seen_box escapes same_box
ended-owned = refl
