-- ===== src/Streaming/Geometry/Read.antt =====
-- read_bbox_for and halo_actual: the read window of a core.
use open_litho_hub.Base.{ℕ, ◌-◌, ◌≤◌, ◌<◌, ◌≡◌, true, ok, arith}
use open_litho_hub.Base.Int.{ℤ, pos, negsuc, ◌-ℤ◌, ◌≤ℤ◌, min_ℤ}
use open_litho_hub.Streaming.Geometry.{
  BoundingBox, HaloSpec, bounding_box, contains, minus_halo, plus_halo, read_bbox_for, halo_actual,
}

pub record IsBox (b : BoundingBox) : Type 0 where
  pub wide : b.x0 < b.x1
  pub tall : b.y0 < b.y1

pub record InDomain (b : BoundingBox) (w h : ℕ) : Type 0 where
  pub left_of : b.x1 ≤ w
  pub above : b.y1 ≤ h

pub record IsNonneg (halo : HaloSpec) : Type 0 where
  pub left : pos 0 ≤ℤ halo.left
  pub top : pos 0 ≤ℤ halo.top
  pub right : pos 0 ≤ℤ halo.right
  pub bottom : pos 0 ≤ℤ halo.bottom

pub record IsAtMost (a b : HaloSpec) : Type 0 where
  pub left : a.left ≤ℤ b.left
  pub top : a.top ≤ℤ b.top
  pub right : a.right ≤ℤ b.right
  pub bottom : a.bottom ≤ℤ b.bottom

pub bounding_box-IsBox : (b : BoundingBox) → IsBox b → bounding_box b.x0 b.y0 b.x1 b.y1 ≡ ok b
unfolding bounding_box
bounding_box-IsBox b h = ground arith

pub bounding_box-eq-ok :
    (x0 y0 x1 y1 : ℕ) {b : BoundingBox}
    → bounding_box x0 y0 x1 y1 ≡ ok b
    → IsBox b × (b ≡ record { x0 = x0; y0 = y0; x1 = x1; y1 = y1 })
unfolding bounding_box
bounding_box-eq-ok x0 y0 x1 y1 h = ground arith

-- One side of the window, at the lower edge and at the upper edge.
abbrev LowerSide : (a : ℕ) (e : ℤ) (r : ℕ) → Type 0
LowerSide a e r =
    (r ≤ a)
    × (pos 0 ≤ℤ pos a -ℤ pos r)
    × (pos a -ℤ pos r ≤ℤ e)
    × (minus_halo a (pos a -ℤ pos r) ≡ r)

abbrev UpperSide : (limit a : ℕ) (e : ℤ) (r : ℕ) → Type 0
UpperSide limit a e r =
    (a ≤ r)
    × (r ≤ limit)
    × (pos 0 ≤ℤ pos r -ℤ pos a)
    × (pos r -ℤ pos a ≤ℤ e)
    × (plus_halo limit a (pos r -ℤ pos a) ≡ r)

minus_halo-LowerSide : (a : ℕ) (e : ℤ) → pos 0 ≤ℤ e → LowerSide a e (minus_halo a e)
unfolding minus_halo
minus_halo-LowerSide a (negsuc n) h = absurd (omega arith)
minus_halo-LowerSide a (pos n) h = (ground arith, ground arith, ground arith, ground arith)

plus_halo-UpperSide :
    (limit a : ℕ) (e : ℤ) → pos 0 ≤ℤ e → a ≤ limit → UpperSide limit a e (plus_halo limit a e)
unfolding plus_halo ◌-ℤ◌
plus_halo-UpperSide limit a (negsuc n) h k = absurd (omega arith)
plus_halo-UpperSide limit a (pos n) h k =
    (ground arith, ground arith, ground arith, ground arith, ground arith)

left_realised : (a : ℕ) (e : ℤ) → pos 0 ≤ℤ e → (pos a -ℤ pos (minus_halo a e)) ≡ min_ℤ e (pos a)
unfolding minus_halo ◌-ℤ◌
left_realised a (negsuc n) h = absurd (omega arith)
left_realised a (pos n) h = ground arith

right_realised :
    (limit a : ℕ) (e : ℤ)
    → pos 0 ≤ℤ e
    → a ≤ limit
    → (pos (plus_halo limit a e) -ℤ pos a) ≡ min_ℤ e (pos (limit - a))
unfolding plus_halo ◌-ℤ◌
right_realised limit a (negsuc n) h k = absurd (omega arith)
right_realised limit a (pos n) h k = ground arith

-- The halo that a window has: on each side the requested one, or the way to the edge of the domain where
-- that is shorter.
pub record IsClipped (core : BoundingBox) (asked : HaloSpec) (w h : ℕ) (had : HaloSpec)
    : Type 0 where
  pub left : had.left ≡ min_ℤ asked.left (pos core.x0)
  pub top : had.top ≡ min_ℤ asked.top (pos core.y0)
  pub right : had.right ≡ min_ℤ asked.right (pos (w - core.x1))
  pub bottom : had.bottom ≡ min_ℤ asked.bottom (pos (h - core.y1))

-- What the read window of a core guarantees.
pub record IsReadOf (core : BoundingBox) (halo : HaloSpec) (w h : ℕ) (read : BoundingBox)
    : Type 0 where
  pub box : IsBox read
  pub domain : InDomain read w h
  pub covers : contains read core ≡ true
  pub realised : IsNonneg (halo_actual core read)
  pub at_most : IsAtMost (halo_actual core read) halo
  pub clipped : IsClipped core halo w h (halo_actual core read)
  pub again : read_bbox_for core (halo_actual core read) w h ≡ ok read

-- For a core inside the domain and a halo that is not negative on any side, the read window exists;
-- it is a box inside the domain that contains the core, the realised halo is on each side the requested
-- one or the distance of the core from the edge of the domain, whichever is less, and planning with the
-- realised halo gives the same window again.
pub read_bbox_for-IsReadOf :
    (core : BoundingBox) (halo : HaloSpec) (w h : ℕ)
    → IsBox core
    → InDomain core w h
    → IsNonneg halo
    → (read : BoundingBox) × (read_bbox_for core halo w h ≡ ok read) × IsReadOf core halo w h read
unfolding read_bbox_for contains halo_actual
read_bbox_for-IsReadOf core halo w h b d n =
    let l = minus_halo-LowerSide core.x0 halo.left n.left in
    let t = minus_halo-LowerSide core.y0 halo.top n.top in
    let r = plus_halo-UpperSide w core.x1 halo.right n.right d.left_of in
    let u = plus_halo-UpperSide h core.y1 halo.bottom n.bottom d.above in
    let read : BoundingBox = record {
      x0 = minus_halo core.x0 halo.left;
      y0 = minus_halo core.y0 halo.top;
      x1 = plus_halo w core.x1 halo.right;
      y1 = plus_halo h core.y1 halo.bottom;
    } in
    let box : IsBox read = omega arith in
    (
      read,
      bounding_box-IsBox read box,
      record {
        box = box;
        domain = omega arith;
        covers = ground arith;
        realised = record { left = l.1; top = t.1; right = r.2; bottom = u.2 };
        at_most = record { left = l.2; top = t.2; right = r.3; bottom = u.3 };
        clipped = record {
          left = left_realised core.x0 halo.left n.left;
          top = left_realised core.y0 halo.top n.top;
          right = right_realised w core.x1 halo.right n.right d.left_of;
          bottom = right_realised h core.y1 halo.bottom n.bottom d.above;
        };
        again = rw (l.3, t.3, r.4, u.4) (bounding_box-IsBox read box);
      },
    )
