-- ===== src/Streaming/Geometry/Pixels.antt =====
-- The pixels of a box, and how many boxes of a list own a pixel: the independent description by
-- which covers and partitions are stated.
use open_litho_hub.Base.{
  ℕ, ◌+◌, ◌≡◌, Bool, ◌&&◌, List, ◌++◌, leb, ltb, tally, count_by, count_by-append,
}
use open_litho_hub.Streaming.Geometry.{BoundingBox}

abbrev pub in_span : (a b p : ℕ) → Bool
in_span a b p = leb a p && ltb p b

abbrev pub has_pixel : BoundingBox → (x y : ℕ) → Bool
has_pixel b x y = in_span b.x0 b.x1 x && in_span b.y0 b.y1 y

-- How many boxes own the pixel.
abbrev pub owners : List BoundingBox → (x y : ℕ) → ℕ
owners boxes x y = count_by (λ b. has_pixel b x y) boxes

-- The boxes own each pixel of [x0, x1) x [y0, y1) once, and no other pixel.
abbrev pub Tiles : List BoundingBox → (x0 x1 y0 y1 : ℕ) → Type 0
Tiles boxes x0 x1 y0 y1 = (x y : ℕ) → owners boxes x y ≡ tally (in_span x0 x1 x && in_span y0 y1 y)

pub owners-append :
    (xs ys : List BoundingBox) (x y : ℕ) → owners (xs ++ ys) x y ≡ owners xs x y + owners ys x y
owners-append xs ys x y = count_by-append (λ b. has_pixel b x y) xs ys
