-- ===== src/Streaming/Pipeline/Window.antt =====
-- _grown_request and _core_slices: the window of a re-planned tile, and where its core lies in it.
use open_litho_hub.Base.{ℕ, ◌+◌, ◌-◌, ◌≤◌, ◌<◌, ◌≡◌, ◌⊎◌, min, ◌∙◌, refl, true, ok, arith}
use open_litho_hub.Base.Int.{ℤ, pos, pos_part, ◌+ℤ◌, ◌-ℤ◌, max_ℤ}
use open_litho_hub.Streaming.Geometry.{
  BoundingBox, HaloSpec, width, height, contains, minus_halo, plus_halo, uniform, bounding_box,
  read_bbox_for, halo_actual,
}
use open_litho_hub.Streaming.Geometry.Read.{IsBox, InDomain}
use open_litho_hub.Streaming.CoreHalo.{TileRequest, RefinementRequest, widest}
use open_litho_hub.Streaming.Pipeline.{Slice, grown_request, core_slices}

-- A request whose window reads its core inside the domain, as planning makes it.
pub record IsPlannedIn (r : TileRequest) (h w : ℕ) : Type 0 where
  pub box : IsBox r.core_bbox
  pub core_in : InDomain r.core_bbox w h
  pub read_in : InDomain r.read_bbox w h
  pub reads : contains r.read_bbox r.core_bbox ≡ true
  pub realised : r.halo ≡ halo_actual r.core_bbox r.read_bbox

-- The slices of a request that reads its core are the place of the core in the window: from the offset
-- of the core, inside the window, and as large as the core.
pub record AreInWindow (rows cols : Slice) (r : TileRequest) : Type 0 where
  pub top : rows.slice_start ≡ pos (r.core_bbox.y0 - r.read_bbox.y0)
  pub left : cols.slice_start ≡ pos (r.core_bbox.x0 - r.read_bbox.x0)
  pub bottom : rows.slice_stop ≡ pos (r.core_bbox.y1 - r.read_bbox.y0)
  pub right : cols.slice_stop ≡ pos (r.core_bbox.x1 - r.read_bbox.x0)
  pub within_h : r.core_bbox.y1 - r.read_bbox.y0 ≤ height r.read_bbox
  pub within_w : r.core_bbox.x1 - r.read_bbox.x0 ≤ width r.read_bbox

offset : (a b : ℕ) → b ≤ a → pos a -ℤ pos b ≡ pos (a - b)
unfolding ◌-ℤ◌
offset a b h = ground arith

reach : (a b c : ℕ) → c ≤ a → a < b → pos a -ℤ pos c +ℤ pos (b - a) ≡ pos (b - c)
unfolding ◌-ℤ◌ ◌+ℤ◌
reach a b c h k = ground arith

contains-sides :
    (a b : BoundingBox)
    → contains a b ≡ true
    → (a.x0 ≤ b.x0) × (a.y0 ≤ b.y0) × (b.x1 ≤ a.x1) × (b.y1 ≤ a.y1)
unfolding contains
contains-sides a b h = ground (arith, h)

core_slices-AreInWindow :
    (r : TileRequest)
    → IsBox r.core_bbox
    → contains r.read_bbox r.core_bbox ≡ true
    → AreInWindow (core_slices r).0 (core_slices r).1 r
unfolding core_slices
core_slices-AreInWindow r b reads =
    let (left, top, right, bottom) = contains-sides r.read_bbox r.core_bbox reads in
    record {
      top = offset r.core_bbox.y0 r.read_bbox.y0 top;
      left = offset r.core_bbox.x0 r.read_bbox.x0 left;
      bottom = reach r.core_bbox.y0 r.core_bbox.y1 r.read_bbox.y0 top b.tall;
      right = reach r.core_bbox.x0 r.core_bbox.x1 r.read_bbox.x0 left b.wide;
      within_h = omega arith;
      within_w = omega arith;
    }

-- The re-planned request keeps core and id, is planned in the domain, its window contains the old one
-- and moves out on every side that is not at the edge of the domain.
pub record IsGrown (old new : TileRequest) (h w : ℕ) : Type 0 where
  pub same_core : new.core_bbox ≡ old.core_bbox
  pub same_id : new.tile_id ≡ old.tile_id
  pub planned : IsPlannedIn new h w
  pub keeps : contains new.read_bbox old.read_bbox ≡ true
  pub left : (new.read_bbox.x0 ≡ 0) ⊎ (new.read_bbox.x0 < old.read_bbox.x0)
  pub top : (new.read_bbox.y0 ≡ 0) ⊎ (new.read_bbox.y0 < old.read_bbox.y0)
  pub right : (new.read_bbox.x1 ≡ w) ⊎ (old.read_bbox.x1 < new.read_bbox.x1)
  pub bottom : (new.read_bbox.y1 ≡ h) ⊎ (old.read_bbox.y1 < new.read_bbox.y1)
  pub slices : AreInWindow (core_slices new).0 (core_slices new).1 new

-- The new halo is wider than the old one on every side.
wider :
    (l t r b : ℕ) (extra : ℤ)
    → let old : HaloSpec = record { left = pos l; top = pos t; right = pos r; bottom = pos b } in
      (n : ℕ) × (widest old +ℤ max_ℤ (pos 1) extra ≡ pos n) × (l < n) × (t < n) × (r < n) × (b < n)
unfolding widest ◌+ℤ◌
wider l t r b extra =
    let old : HaloSpec = record { left = pos l; top = pos t; right = pos r; bottom = pos b } in
    (
      pos_part (widest old +ℤ max_ℤ (pos 1) extra),
      ground arith,
      ground arith,
      ground arith,
      ground arith,
      ground arith,
    )

uniform_pos :
    (n : ℕ)
    → uniform (pos n) ≡ ok (record { left = pos n; top = pos n; right = pos n; bottom = pos n })
unfolding uniform
uniform_pos n = ground arith

-- The window of a core with `n` pixels on each side.
abbrev window : BoundingBox → (n h w : ℕ) → BoundingBox
window core n h w = record {
  x0 = core.x0 - n;
  y0 = core.y0 - n;
  x1 = min w (core.x1 + n);
  y1 = min h (core.y1 + n);
}

read_window :
    (core : BoundingBox) (n h w : ℕ)
    → IsBox core
    → InDomain core w h
    → read_bbox_for core (record { left = pos n; top = pos n; right = pos n; bottom = pos n }) w h
      ≡ ok (window core n h w)
unfolding read_bbox_for minus_halo plus_halo ◌-ℤ◌ ◌+ℤ◌ bounding_box
read_window core n h w b d = ground arith

actual_sides :
    (core read : BoundingBox)
    → contains read core ≡ true
    → halo_actual core read ≡ record {
      left = pos (core.x0 - read.x0);
      top = pos (core.y0 - read.y0);
      right = pos (read.x1 - core.x1);
      bottom = pos (read.y1 - core.y1);
    }
unfolding halo_actual
actual_sides core read reads =
    let (left, top, right, bottom) = contains-sides read core reads in
    rw
      (
        offset core.x0 read.x0 left,
        offset core.y0 read.y0 top,
        offset read.x1 core.x1 right,
        offset read.y1 core.y1 bottom,
      )
      refl

contains_of_sides :
    (a b : BoundingBox)
    → a.x0 ≤ b.x0
    → a.y0 ≤ b.y0
    → b.x1 ≤ a.x1
    → b.y1 ≤ a.y1
    → contains a b ≡ true
unfolding contains
contains_of_sides a b l t r u = ground arith

window-contains :
    (core read : BoundingBox) (n h w : ℕ)
    → InDomain read w h
    → contains read core ≡ true
    → core.x0 - read.x0 < n
    → core.y0 - read.y0 < n
    → read.x1 - core.x1 < n
    → read.y1 - core.y1 < n
    → contains (window core n h w) read ≡ true
window-contains core read n h w d reads left top right bottom =
    let (l, t, r, b) = contains-sides read core reads in
    contains_of_sides (window core n h w) read (omega arith) (omega arith) (omega arith)
      (omega arith)

window-reads :
    (core : BoundingBox) (n h w : ℕ) → InDomain core w h → contains (window core n h w) core ≡ true
unfolding contains
window-reads core n h w d = ground arith

-- A request that is planned in the domain is re-planned whatever the refinement asks for: the new request
-- keeps its core and id and reads its core, and its window contains the old one and moves out on every
-- side that is not at the edge of the domain.
pub grown_request-IsGrown :
    (r : TileRequest) (refinement : RefinementRequest) (h w : ℕ)
    → IsPlannedIn r h w
    → (r' : TileRequest) × (grown_request r refinement h w ≡ ok r') × IsGrown r r' h w
unfolding grown_request
grown_request-IsGrown r refinement h w p =
    let core = r.core_bbox in
    let read = r.read_bbox in
    let (left, top, right, bottom) = contains-sides read core p.reads in
    let (n, e, hl, ht, hr, hb) =
      wider (core.x0 - read.x0) (core.y0 - read.y0) (read.x1 - core.x1) (read.y1 - core.y1)
        refinement.extra_halo_px in
    let halo = p.realised ∙ actual_sides core read p.reads in
    let new : TileRequest = record {
      core_bbox = core;
      read_bbox = window core n h w;
      halo = halo_actual core (window core n h w);
      tile_id = r.tile_id;
    } in
    let reads = window-reads core n h w p.core_in in
    (
      new,
      rw (halo, e, uniform_pos n, read_window core n h w p.box p.core_in) refl,
      record {
        same_core = refl;
        same_id = refl;
        planned = record {
          box = p.box;
          core_in = p.core_in;
          read_in = omega arith;
          reads = reads;
          realised = refl;
        };
        keeps = window-contains core read n h w p.read_in p.reads hl ht hr hb;
        left = ground arith;
        top = ground arith;
        right = ground arith;
        bottom = ground arith;
        slices = core_slices-AreInWindow new p.box reads;
      },
    )
