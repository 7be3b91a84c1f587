-- ===== src/Streaming/Geometry/Census.antt =====
-- Counting pixels one by one: the area of boxes against a sum over all pixels of the domain.
use open_litho_hub.Base.{
  ℕ, zero, suc, ◌+◌, ◌-◌, ◌*◌, ◌≤◌, ◌<◌, ◌≡◌, refl, ◌&&◌, List, [], ◌∷◌, min, sum_by, All, arith,
  tally, ◌∙◌,
}
use open_litho_hub.Streaming.Geometry.{BoundingBox, area}
use open_litho_hub.Streaming.Geometry.Read.{IsBox, InDomain}
use open_litho_hub.Streaming.Geometry.Pixels.{in_span, has_pixel, owners}

-- f 0 + ... + f (n - 1)
abbrev pub total_below : ℕ → (ℕ → ℕ) → ℕ
total_below zero f = 0
total_below (suc n) f = f n + total_below n f

-- The sum over the pixels of [0, w) x [0, h).
abbrev pub pixel_sum : (w h : ℕ) → (ℕ → ℕ → ℕ) → ℕ
pixel_sum w h f = total_below h (λ y. total_below w (λ x. f x y))

pub total_below_eq :
    (n : ℕ) (f g : ℕ → ℕ) → ((i : ℕ) → f i ≡ g i) → total_below n f ≡ total_below n g
total_below_eq zero f g h = refl
total_below_eq (suc n) f g h = omega (arith, h n, total_below_eq n f g h)

total_below-zero : (n : ℕ) → total_below n (λ i. 0) ≡ 0
total_below-zero zero = refl
total_below-zero (suc n) = omega (arith, total_below-zero n)

total_below-const : (n c : ℕ) → total_below n (λ i. c) ≡ n * c
total_below-const zero c = omega arith
total_below-const (suc n) c = omega (arith, total_below-const n c)

total_below-add :
    (n : ℕ) (f g : ℕ → ℕ) → total_below n (λ i. f i + g i) ≡ total_below n f + total_below n g
total_below-add zero f g = omega arith
total_below-add (suc n) f g = omega (arith, total_below-add n f g)

total_below-span :
    (n a b c : ℕ) → a ≤ b → total_below n (λ i. tally (in_span a b i) * c) ≡ (min b n - min a n) * c
total_below-span zero a b c h = ground arith
total_below-span (suc n) a b c h =
    let one : min b (suc n) - min a (suc n) ≡ tally (in_span a b n) + (min b n - min a n) =
      ground arith in
    rw one (omega (arith, total_below-span n a b c h))

pub pixel_sum_eq :
    (w h : ℕ) (f g : ℕ → ℕ → ℕ) → ((x y : ℕ) → f x y ≡ g x y) → pixel_sum w h f ≡ pixel_sum w h g
pixel_sum_eq w h f g e = total_below_eq h _ _ (λ y. total_below_eq w _ _ (λ x. e x y))

pub pixel_sum-const : (w h c : ℕ) → pixel_sum w h (λ x y. c) ≡ h * (w * c)
pixel_sum-const w h c =
    total_below_eq h _ _ (λ y. total_below-const w c) ∙ total_below-const h (w * c)

pub pixel_sum-add :
    (w h : ℕ) (f g : ℕ → ℕ → ℕ)
    → pixel_sum w h (λ x y. f x y + g x y) ≡ pixel_sum w h f + pixel_sum w h g
pixel_sum-add w h f g =
    total_below_eq h _ _ (λ y. total_below-add w (λ x. f x y) (λ x. g x y)) ∙ total_below-add h _ _

tally-and :
    (x0 x1 y0 y1 x y : ℕ)
    → tally (in_span x0 x1 x && in_span y0 y1 y) ≡ tally (in_span x0 x1 x) * tally (in_span y0 y1 y)
tally-and x0 x1 y0 y1 x y = ground arith

-- The pixels of a box inside the domain are as many as its area.
pixel_sum-has_pixel :
    (w h : ℕ) (b : BoundingBox)
    → IsBox b
    → InDomain b w h
    → pixel_sum w h (λ x y. tally (has_pixel b x y)) ≡ area b
pixel_sum-has_pixel w h b box d =
    let row : (y : ℕ)
        → total_below w (λ x. tally (has_pixel b x y))
          ≡ tally (in_span b.y0 b.y1 y) * (b.x1 - b.x0) =
      λ y.
        total_below_eq w _ _ (λ x. tally-and b.x0 b.x1 b.y0 b.y1 x y)
        ∙ total_below-span w b.x0 b.x1 (tally (in_span b.y0 b.y1 y)) (omega arith)
        ∙ clipped b.x0 b.x1 w (tally (in_span b.y0 b.y1 y)) box.wide d.left_of in
    total_below_eq h _ _ row
    ∙ total_below-span h b.y0 b.y1 (b.x1 - b.x0) (omega arith)
    ∙ clipped b.y0 b.y1 h (b.x1 - b.x0) box.tall d.above
  where
    clipped : (a b n c : ℕ) → a < b → b ≤ n → (min b n - min a n) * c ≡ c * (b - a)
    clipped a b n c h k = let e : min b n - min a n ≡ b - a = ground arith in rw e (omega arith)

-- The pixels of the domain, each counted once for every box that owns it, are as many as the
-- areas of the boxes together.
pub pixel_sum-owners :
    (w h : ℕ) (boxes : List BoundingBox)
    → All (λ b. IsBox b × InDomain b w h) boxes
    → pixel_sum w h (owners boxes) ≡ sum_by area boxes
pixel_sum-owners w h [] d = pixel_sum-const w h 0 ∙ ground arith
pixel_sum-owners w h (b ∷ boxes) d =
    pixel_sum-add w h (λ x y. tally (has_pixel b x y)) (owners boxes)
    ∙ omega (arith, pixel_sum-has_pixel w h b d.0.0 d.0.1, pixel_sum-owners w h boxes d.1)
