-- ===== src/Streaming/Ownership/Partition.antt =====
-- partition_core: the children tile the parent.
use open_litho_hub.Base.{
  ◌⊎◌, Bool-cases, inl, inr, false, ℕ, ◌+◌, ◌-◌, ◌*◌, ◌≤◌, ◌≡◌, refl, ◌&&◌, List, [], ◌∷◌, ◌++◌, ok,
  ltb, sum_by, All, arith, sum_by-append, All-append,
}
use open_litho_hub.Streaming.Geometry.{BoundingBox, area}
use open_litho_hub.Streaming.Geometry.Pixels.{Tiles, owners-append}
use open_litho_hub.Streaming.Geometry.Read.{IsBox, bounding_box-IsBox}
use open_litho_hub.Streaming.Ownership.{partition_row, partition_rows, partition_core}
use open_litho_hub.Streaming.Ownership.Split.{Chain, split_axis-Chain}

-- A box of the rectangle [x0, x1) x [y0, y1).
abbrev pub Within : (x0 x1 y0 y1 : ℕ) → BoundingBox → Type 0
Within x0 x1 y0 y1 b = IsBox b × (x0 ≤ b.x0) × (b.x1 ≤ x1) × (y0 ≤ b.y0) × (b.y1 ≤ y1)

-- What a list of boxes is that partitions a rectangle.
pub record IsPartition (boxes : List BoundingBox) (x0 x1 y0 y1 : ℕ) : Type 0 where
  pub within : All (Within x0 x1 y0 y1) boxes
  pub tiles : Tiles boxes x0 x1 y0 y1
  pub conserved : sum_by area boxes ≡ (x1 - x0) * (y1 - y0)

Chain-le : (a b : ℕ) (xs : List (ℕ × ℕ)) → Chain a xs b → a ≤ b
Chain-le a b [] c = omega arith
Chain-le a b ((x0, x1) ∷ xs) c = omega (arith, Chain-le x1 b xs c.2)

Within-widen :
    (x0 x1 y0 y1 a b c d : ℕ) (boxes : List BoundingBox)
    → a ≤ x0
    → x1 ≤ b
    → c ≤ y0
    → y1 ≤ d
    → All (Within x0 x1 y0 y1) boxes
    → All (Within a b c d) boxes
Within-widen x0 x1 y0 y1 a b c d [] h0 h1 h2 h3 w = tt
Within-widen x0 x1 y0 y1 a b c d (box ∷ boxes) h0 h1 h2 h3 w = (
  (w.0.0, omega arith, omega arith, omega arith, omega arith),
  Within-widen x0 x1 y0 y1 a b c d boxes h0 h1 h2 h3 w.1,
)

span_split : (a m b k : ℕ) → a ≤ m → m ≤ b → (b - a) * k ≡ (m - a) * k + (b - m) * k
span_split a m b k h h' = let e : b - a ≡ (m - a) + (b - m) = omega arith in rw e (omega arith)

zero_product : (m n : ℕ) → (m ≡ 0) ⊎ (n ≡ 0) → m * n ≡ 0
zero_product m n (inl h) = rw h (omega arith)
zero_product m n (inr h) = rw h (omega arith)

empty_area : (x0 x1 y0 y1 : ℕ) → (ltb x0 x1 && ltb y0 y1) ≡ false → (x1 - x0) * (y1 - y0) ≡ 0
empty_area x0 x1 y0 y1 h = zero_product (x1 - x0) (y1 - y0) (ground arith)

partition_row-IsPartition :
    (y0 y1 a b : ℕ) (xs : List (ℕ × ℕ))
    → y0 ≤ y1
    → Chain a xs b
    → (boxes : List BoundingBox) × (partition_row y0 y1 xs ≡ ok boxes) × IsPartition boxes a b y0 y1
unfolding partition_row
partition_row-IsPartition y0 y1 a b [] hy c =
    ([], refl, record { within = tt; tiles = λ px py. ground arith; conserved = ground arith })
partition_row-IsPartition y0 y1 a b ((x0, x1) ∷ xs) hy c =
    let (rest, e, p) = partition_row-IsPartition y0 y1 x1 b xs hy c.2 in
    let reach : x1 ≤ b = Chain-le x1 b xs c.2 in
    let wider =
      Within-widen x1 b y0 y1 a b y0 y1 rest (omega arith) (omega arith) (omega arith) (omega arith)
        p.within in
    let split : (b - a) * (y1 - y0) ≡ (x1 - x0) * (y1 - y0) + (b - x1) * (y1 - y0) =
      rw (← c.0) (span_split x0 x1 b (y1 - y0) c.1 reach) in
    elim (Bool-cases (ltb x0 x1 && ltb y0 y1)) [
      | inl full ↦
          let box : BoundingBox = record { x0 = x0; y0 = y0; x1 = x1; y1 = y1 } in
          let is_box : IsBox box = ground arith in
          (
            box ∷ rest,
            rw (full, bounding_box-IsBox box is_box, e),
            record {
              within = ((is_box, omega arith, reach, omega arith, omega arith), wider);
              tiles = λ px py. ground (arith, p.tiles px py);
              conserved = omega (arith, split, p.conserved);
            },
          )
      | inr empty ↦ (
        rest,
        rw (empty, e),
        record {
          within = wider;
          tiles = λ px py. ground (arith, p.tiles px py);
          conserved = omega (arith, split, p.conserved, empty_area x0 x1 y0 y1 empty);
        },
      )
    ]

partition_rows-IsPartition :
    (a b c d : ℕ) (xs ys : List (ℕ × ℕ))
    → Chain a xs b
    → Chain c ys d
    → (boxes : List BoundingBox) × (partition_rows xs ys ≡ ok boxes) × IsPartition boxes a b c d
unfolding partition_rows
partition_rows-IsPartition a b c d xs [] hx hy =
    ([], refl, record { within = tt; tiles = λ px py. ground arith; conserved = ground arith })
partition_rows-IsPartition a b c d xs ((y0, y1) ∷ ys) hx hy =
    let wide : a ≤ b = Chain-le a b xs hx in
    let reach : y1 ≤ d = Chain-le y1 d ys hy.2 in
    let (row, er, r) = partition_row-IsPartition y0 y1 a b xs hy.1 hx in
    let (rest, e, p) = partition_rows-IsPartition a b y1 d xs ys hx hy.2 in
    let split : (d - c) * (b - a) ≡ (y1 - y0) * (b - a) + (d - y1) * (b - a) =
      rw (← hy.0) (span_split y0 y1 d (b - a) hy.1 reach) in
    (
      row ++ rest,
      rw (er, e),
      record {
        within =
            All-append (Within a b c d) row rest
              (Within-widen a b y0 y1 a b c d row (omega arith) (omega arith) (omega arith)
                (omega arith) r.within)
              (Within-widen a b y1 d a b c d rest (omega arith) (omega arith) (omega arith)
                (omega arith) p.within);
        tiles = λ px py. ground (arith, p.tiles px py, r.tiles px py, owners-append row rest px py);
        conserved = omega (arith, split, p.conserved, r.conserved, sum_by-append area row rest);
      },
    )

-- For every box and every subdivision of at least 2 the children exist: each is a nonempty box
-- inside the parent, they own each pixel of the parent exactly once and no other pixel, and their
-- areas add up to the parent's.
pub partition_core-IsPartition :
    (parent : BoundingBox) (subdivision : ℕ)
    → IsBox parent
    → 2 ≤ subdivision
    → (boxes : List BoundingBox) × (partition_core parent subdivision ≡ ok boxes)
      × IsPartition boxes parent.x0 parent.x1 parent.y0 parent.y1
unfolding partition_core
partition_core-IsPartition parent n b h =
    let xs = split_axis-Chain parent.x0 parent.x1 n (omega arith) (omega arith) in
    let ys = split_axis-Chain parent.y0 parent.y1 n (omega arith) (omega arith) in
    let (boxes, e, p) =
      partition_rows-IsPartition parent.x0 parent.x1 parent.y0 parent.y1 _ _ xs ys in
    (boxes, ground (arith, e), p)
