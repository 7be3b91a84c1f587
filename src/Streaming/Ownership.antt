-- ===== src/Streaming/Ownership.antt =====
-- src/openlithohub/streaming/ownership.py: which leaf owns which physical area.
-- The dictionaries are association lists in insertion order and `_final`, a set, is a list without
-- repetitions. A method returns what it returned or raised beside the tree, which keeps what was
-- written before an exception. Leaf ids are any type with an equality.
pub mod Split
pub mod Partition
pub mod Check
pub mod Ledger
pub mod Subdivide
pub mod Coverage
pub mod Runs
pub mod Examples
use open_litho_hub.Base.{
  ℕ, zero, suc, ◌+◌, ◌-◌, ◌*◌, ◌/◌, ◌%◌, ◌≡◌, Bool, true, false, not, ◌&&◌, ◌||◌, Option, none,
  some, List, [], ◌∷◌, ◌++◌, map, Outcome, ok, raise, ◌>>=◌, ◌>>◌, require, ltb, leb, ◌==◌,
  if◌then◌else◌, sum_by,
}
use open_litho_hub.Base.Dict.{Eq, Dict, lookup, insert, mem, add, discard}
use open_litho_hub.Streaming.Faults.{
  Error, subdivision_below_two, leaf_exists, not_a_final_leaf, no_children, child_escapes,
  duplicate_child, not_area_conserving, unknown_disposition, already_terminal, not_terminated,
  coverage_mismatch, key_error,
}
use open_litho_hub.Streaming.Geometry.{BoundingBox, bounding_box, area}

-- The edges of `_split_axis`, one pixel more for each of the first `rem` parts; `edge` is `edges[-1]`.
pub split_from : (left i rem base edge : ℕ) → List (ℕ × ℕ)
split_from zero i rem base edge = []
split_from (suc left) i rem base edge =
    let next = edge + base + (if ltb i rem then 1 else 0) in
    (edge, next) ∷ split_from left (i + 1) rem base next

unfoldable pub split_axis : (lo hi parts : ℕ) → List (ℕ × ℕ)
unfolding split_from
split_axis lo hi parts = let span = hi - lo in split_from parts 0 (span % parts) (span / parts) lo

-- The inner loop of partition_core; empty parts are left out.
pub partition_row : (y0 y1 : ℕ) → List (ℕ × ℕ) → Outcome Error (List BoundingBox)
unfolding bounding_box
partition_row y0 y1 [] = ok []
partition_row y0 y1 ((x0, x1) ∷ xs) =
    let rest = partition_row y0 y1 xs in
    if ltb x0 x1 && ltb y0 y1
    then (do box ← bounding_box x0 y0 x1 y1; boxes ← rest; ok (box ∷ boxes))
    else rest

-- The outer loop, over `ys`.
pub partition_rows : (xs ys : List (ℕ × ℕ)) → Outcome Error (List BoundingBox)
unfolding partition_row
partition_rows xs [] = ok []
partition_rows xs ((y0, y1) ∷ ys) = do
  row ← partition_row y0 y1 xs
  rows ← partition_rows xs ys
  ok (row ++ rows)

unfoldable pub partition_core : BoundingBox → (subdivision : ℕ) → Outcome Error (List BoundingBox)
unfolding partition_rows split_axis
partition_core parent n = do
  require (leb 2 n) subdivision_below_two
  partition_rows (split_axis parent.x0 parent.x1 n) (split_axis parent.y0 parent.y1 n)

pub data Disposition : Type 0 where
  active exact_skip verify_skip : Disposition

pub record Leaf (K : Type 0) : Type 0 where
  pub leaf_id : K
  pub core_bbox : BoundingBox
  pub parent_id : Option K
  pub forward_seen : Bool
  pub terminal : Option Disposition

pub record Tree (K : Type 0) : Type 0 where
  pub leaves : Dict K (Leaf K)
  pub children : Dict K (List K)
  pub final : List K

-- The loop of `_check_partition`. `seen` holds the keys of the children so far.
same_box : BoundingBox → BoundingBox → Bool
same_box a b = a.x0 == b.x0 && a.y0 == b.y0 && a.x1 == b.x1 && a.y1 == b.y1

seen_box : List BoundingBox → BoundingBox → Bool
unfolding same_box
seen_box [] b = false
seen_box (a ∷ as_) b = same_box a b || seen_box as_ b

escapes : (parent core : BoundingBox) → Bool
escapes p c = ltb c.x0 p.x0 || ltb c.y0 p.y0 || ltb p.x1 c.x1 || ltb p.y1 c.y1

module _ {K : Type 0} where
  pub check_children :
      (parent : BoundingBox) (seen : List BoundingBox) (total : ℕ)
      → List (K × BoundingBox)
      → Outcome Error ℕ
  unfolding escapes seen_box
  check_children parent seen total [] = ok total
  check_children parent seen total ((_, core) ∷ rest) =
      let more = check_children parent (core ∷ seen) (total + area core) rest in
      if escapes parent core
      then raise child_escapes
      else if seen_box seen core
      then raise duplicate_child
      else more

  pub check_partition : BoundingBox → List (K × BoundingBox) → Outcome Error (Unit {0})
  unfolding check_children
  check_partition parent [] = raise no_children
  check_partition parent (c ∷ cs) = do
    total ← check_children parent [] 0 (c ∷ cs)
    require (total == area parent) not_area_conserving

-- OwnershipTree()
abbrev pub empty_tree : {K : Type 0} → Tree K
empty_tree = record { leaves = []; children = []; final = [] }

-- The methods. `Act` is a method that mutates the tree and may raise.
abbrev pub Act : Type 0 → Type 0 → Type 0
Act K A = Tree K → Outcome Error A × Tree K

module _ {K : Type 0} ⦃e : Eq K⦄ where
  abbrev get_leaf : Tree K → K → Outcome Error (Leaf K)
  get_leaf t i = elim (lookup i t.leaves) [ none ↦ raise key_error | some l ↦ ok l ]

  -- OwnershipLeaf(...) with its defaults, stored and made final
  abbrev pub install_leaf : Leaf K → Tree K → Tree K
  install_leaf l t = record t {
    leaves = insert l.leaf_id l t.leaves;
    final = add l.leaf_id t.final;
  }

  unfoldable pub add_root : K → BoundingBox → Act K (Leaf K)
  add_root i core t = elim (lookup i t.leaves) [
    | some _ ↦ (raise leaf_exists, t)
    | none ↦
        let leaf : Leaf K = record {
          leaf_id = i;
          core_bbox = core;
          parent_id = none;
          forward_seen = false;
          terminal = none;
        } in
        (ok leaf, install_leaf leaf t)
  ]

  -- The loop of `subdivide` that installs the children, from the tree without the parent.
  pub install_children : (parent : Leaf K) → List (K × BoundingBox) → Act K (List (Leaf K))
  install_children parent [] t = (ok [], t)
  install_children parent ((i, core) ∷ rest) t = elim (lookup i t.leaves) [
    | some _ ↦ (raise leaf_exists, t)
    | none ↦
        let leaf : Leaf K = record {
          leaf_id = i;
          core_bbox = core;
          parent_id = some parent.leaf_id;
          forward_seen = parent.forward_seen;
          terminal = none;
        } in
        let (r, t') = install_children parent rest (install_leaf leaf t) in
        ((do leaves ← r; ok (leaf ∷ leaves)), t')
  ]

  -- What `subdivide` does once its arguments are validated.
  pub retire_and_install : (parent_id : K) → Leaf K → List (K × BoundingBox) → Act K (List (Leaf K))
  unfolding install_children
  retire_and_install i parent cores t =
      let (r, t') = install_children parent cores (record t { final = discard i t.final }) in
      elim r [
        | raise x ↦ (raise x, t')
        | ok leaves ↦
            (ok leaves, record t' { children = insert i (map (λ l. l.leaf_id) leaves) t'.children })
      ]

  unfoldable pub subdivide : K → List (K × BoundingBox) → Act K (List (Leaf K))
  unfolding retire_and_install
  subdivide i cores t = elim (lookup i t.leaves) [
    | none ↦ (raise key_error, t)
    | some parent ↦
        if mem i t.final
        then elim (check_partition parent.core_bbox cores) [
          | raise x ↦ (raise x, t)
          | ok _ ↦ retire_and_install i parent cores t
        ]
        else (raise not_a_final_leaf, t)
  ]

  unfoldable pub mark_forward : K → Act K (Unit {0})
  mark_forward i t = elim (lookup i t.leaves) [
    | none ↦ (raise key_error, t)
    | some l ↦ (ok tt, record t { leaves = insert i (record l { forward_seen = true }) t.leaves })
  ]

  -- The argument is `none` for a string that is none of the three dispositions.
  unfoldable pub set_terminal : K → Option Disposition → Act K (Unit {0})
  set_terminal i none t = (raise unknown_disposition, t)
  set_terminal i (some d) t = elim (lookup i t.leaves) [
    | none ↦ (raise key_error, t)
    | some l ↦ elim l.terminal [
      | some _ ↦ (raise already_terminal, t)
      | none ↦ (ok tt, record t { leaves = insert i (record l { terminal = some d }) t.leaves })
    ]
  ]

  unfoldable pub is_final : Tree K → K → Bool
  is_final t i = mem i t.final

-- The dictionary of terminal_pixel_counts.
pub record Counts : Type 0 where
  pub active_pixels : ℕ
  pub exact_pixels : ℕ
  pub verify_pixels : ℕ

unfoldable pub count_area : Disposition → ℕ → Counts → Counts
count_area active n c = record c { active_pixels = c.active_pixels + n }
count_area exact_skip n c = record c { exact_pixels = c.exact_pixels + n }
count_area verify_skip n c = record c { verify_pixels = c.verify_pixels + n }

abbrev pub zero_counts : Counts
zero_counts = record { active_pixels = 0; exact_pixels = 0; verify_pixels = 0 }

abbrev pub total_pixels : Counts → ℕ
total_pixels c = c.active_pixels + c.exact_pixels + c.verify_pixels

module _ {K : Type 0} ⦃e : Eq K⦄ where
  -- The loop over the final leaves.
  pub count_leaves : Tree K → List K → Counts → Outcome Error Counts
  unfolding count_area
  count_leaves t [] c = ok c
  count_leaves t (i ∷ is) c = elim (lookup i t.leaves) [
    | none ↦ raise key_error
    | some l ↦ elim l.terminal [
      | none ↦ raise not_terminated
      | some d ↦ count_leaves t is (count_area d (area l.core_bbox) c)
    ]
  ]

  unfoldable pub terminal_pixel_counts : Tree K → Outcome Error Counts
  unfolding count_leaves
  terminal_pixel_counts t = count_leaves t t.final zero_counts

  unfoldable pub verify_total_coverage : Tree K → (full_chip_pixels : ℕ) → Outcome Error Counts
  unfolding terminal_pixel_counts
  verify_total_coverage t full = do
    counts ← terminal_pixel_counts t
    require (total_pixels counts == full) coverage_mismatch
    ok counts
