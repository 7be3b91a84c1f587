-- ===== src/Streaming/CoreHalo/Scheduler.antt =====
-- TileScheduler: refinement requests re-enter the queue.
use open_litho_hub.Base.{
  ℕ, ◌⊎◌, inl, inr, ◌≤◌, ◌<◌, ◌≡◌, refl, true, false, Option, none, some, List, [], ◌∷◌, ◌++◌, ok,
  raise, All, arith, Outcome-cases,
}
use open_litho_hub.Base.Int.{ℤ, pos, negsuc, ◌≤ℤ◌, ◌+ℤ◌, ltb_ℤ}
use open_litho_hub.Streaming.Faults.{Error}
use open_litho_hub.Streaming.Geometry.{
  BoundingBox, HaloSpec, uniform, read_bbox_for, halo_actual, contains, plus_halo,
}
use open_litho_hub.Streaming.Geometry.Pixels.{Tiles}
use open_litho_hub.Streaming.Geometry.Read.{
  IsBox, InDomain, IsNonneg, read_bbox_for-IsReadOf, bounding_box-eq-ok,
}
use open_litho_hub.Streaming.CoreHalo.{
  TileId, TileRequest, TileScheduler, Action, increase_halo, do_subdivide, RefinementRequest,
  refinement_request, widest, clip_of, grow_request, refine, enqueue, enqueue_refinement,
}
use open_litho_hub.Streaming.CoreHalo.Plan.{cores_of}
use open_litho_hub.Streaming.CoreHalo.Subdivide.{
  IsChild, uniform-IsNonneg, widest_nonneg, subdivide_request-Tiles,
}

-- The refined requests own the core of the request, and each reads its own core.
abbrev pub AreRefined : TileRequest → List TileRequest → Type 0
AreRefined r refined =
    Tiles (cores_of refined) r.core_bbox.x0 r.core_bbox.x1 r.core_bbox.y0 r.core_bbox.y1
    × All (IsChild r) refined

plus_nonneg : (a e : ℤ) → pos 0 ≤ℤ a → ltb_ℤ (pos 0) e ≡ true → pos 0 ≤ℤ a +ℤ e
unfolding ◌+ℤ◌
plus_nonneg (pos a) (pos e) h k = ground arith
plus_nonneg (negsuc a) e h k = absurd (omega arith)
plus_nonneg a (negsuc e) h k = ground arith

module _ (r : TileRequest) (domain : Option (ℕ × ℕ)) (b : IsBox r.core_bbox)
    (n : IsNonneg r.halo) where
  grow_request-IsChild :
      (extra : ℤ)
      → ltb_ℤ (pos 0) extra ≡ true
      → InDomain r.core_bbox (clip_of r domain).0 (clip_of r domain).1
      → (r' : TileRequest) × (grow_request r extra domain ≡ ok r')
        × (r'.core_bbox ≡ r.core_bbox)
        × IsChild r r'
  unfolding grow_request
  grow_request-IsChild extra he d =
      let (halo, eh, nh, _) =
        uniform-IsNonneg (widest r.halo +ℤ extra)
          (plus_nonneg (widest r.halo) extra (widest_nonneg r.halo n) he) in
      let (read, er, p) =
        read_bbox_for-IsReadOf r.core_bbox halo (clip_of r domain).0 (clip_of r domain).1 b d nh in
      (
        record {
          core_bbox = r.core_bbox;
          read_bbox = read;
          halo = halo_actual r.core_bbox read;
          tile_id = r.tile_id;
        },
        rw (eh, er) refl,
        refl,
        record { box = b; inside = unfold contains in ground arith; reads = p.covers },
      )

  refine-AreRefined :
      (i : TileId) (action : Option Action) (extra : ℤ) (m : ℕ) {q : RefinementRequest}
      → refinement_request i action extra m ≡ ok q
      → InDomain r.core_bbox (clip_of r domain).0 (clip_of r domain).1
      → (refined : List TileRequest) × (refine r q domain ≡ ok refined) × AreRefined r refined
  unfolding refinement_request refine
  refine-AreRefined i none extra m h d = absurd (ground arith)
  refine-AreRefined i (some increase_halo) extra m h d =
      let he : ltb_ℤ (pos 0) extra ≡ true = ground arith in
      let (r', e, same, p) = grow_request-IsChild extra he d in
      (r' ∷ [], ground (arith, e), ((λ x y. rw same (ground arith)), (p, tt)))
  refine-AreRefined i (some do_subdivide) extra m h d =
      let (children, e, tiles, p) = subdivide_request-Tiles r m (ground arith) b n in
      (children, ground (arith, e), (tiles, p))

-- For a request whose core is a nonempty box inside the clip bounds and whose halo is nowhere
-- negative, and for every refinement that its constructor accepts, enqueue_refinement succeeds: it
-- returns the refined requests and puts them, in order, behind the pending ones; their cores own each
-- pixel of the core of the request exactly once and no other, and each reads its own core.
pub enqueue_refinement-AreRefined :
    (r : TileRequest) (i : TileId) (action : Option Action) (extra : ℤ) (m : ℕ)
    (q : RefinementRequest) (s : TileScheduler)
    → refinement_request i action extra m ≡ ok q
    → IsBox r.core_bbox
    → IsNonneg r.halo
    → InDomain r.core_bbox (clip_of r s.domain).0 (clip_of r s.domain).1
    → (refined : List TileRequest) × (enqueue_refinement r q s ≡ (
      ok refined,
      record { requests = s.requests; domain = s.domain; pending = s.pending ++ refined },
    ))
      × AreRefined r refined
unfolding enqueue_refinement enqueue
enqueue_refinement-AreRefined r i action extra m q s h b n d =
    let (refined, e, p) = refine-AreRefined r s.domain b n i action extra m h d in
    (refined, rw (e, enqueue_refinement) refl, p)

read_within :
    (core : BoundingBox) (halo : HaloSpec) (w h : ℕ) {read : BoundingBox}
    → read_bbox_for core halo w h ≡ ok read
    → read.x1 ≤ w
unfolding read_bbox_for plus_halo
read_within core halo w h e = let (b, same) = bounding_box-eq-ok _ _ _ _ e in rw same omega arith

refine-transposed :
    (r : TileRequest) (q : RefinementRequest) (h w : ℕ)
    → q.action ≡ increase_halo
    → h < r.core_bbox.x1
    → ((x : Error) × (refine r q (some (h, w)) ≡ raise x))
      ⊎ ((r' : TileRequest) × (refine r q (some (h, w)) ≡ ok (r' ∷ []))
          × (contains r'.read_bbox r'.core_bbox ≡ false))
unfolding refine grow_request contains
refine-transposed r q h w ea lt =
    elim (Outcome-cases (uniform (widest r.halo +ℤ q.extra_halo_px))) [
      | inr (x, e) ↦ inl (x, rw (ea, e) refl)
      | inl (grown, e) ↦ elim (Outcome-cases (read_bbox_for r.core_bbox grown h w)) [
        | inr (x, e') ↦ inl (x, rw (ea, e, e') refl)
        | inl (read, e') ↦
            let le : read.x1 ≤ h = read_within r.core_bbox grown h w e' in
            inr (
              record {
                core_bbox = r.core_bbox;
                read_bbox = read;
                halo = halo_actual r.core_bbox read;
                tile_id = r.tile_id;
              },
              rw (ea, e, e') refl,
              ground arith,
            )
      ]
    ]

-- In a scheduler whose domain is (H, W), as documented, a grown halo is clipped to H on the x axis.
-- So for a request whose core reaches to the right of the column H, enqueue_refinement with a larger
-- halo either raises, with the queue as it was, or appends one request that does not read its core.
pub enqueue_refinement-transposed :
    (r : TileRequest) (q : RefinementRequest) (s : TileScheduler) (h w : ℕ)
    → s.domain ≡ some (h, w)
    → q.action ≡ increase_halo
    → h < r.core_bbox.x1
    → ((x : Error) × (enqueue_refinement r q s ≡ (raise x, s)))
      ⊎ ((r' : TileRequest) × (enqueue_refinement r q s ≡ (ok (r' ∷ []), enqueue (r' ∷ []) s))
          × (contains r'.read_bbox r'.core_bbox ≡ false))
unfolding enqueue_refinement
enqueue_refinement-transposed r q s h w ed ea lt = elim (refine-transposed r q h w ea lt) [
  | inl (x, e) ↦
      let e' : refine r q s.domain ≡ raise x = rw ed e in inl (x, rw (e', enqueue_refinement) refl)
  | inr (r', e, p) ↦
      let e' : refine r q s.domain ≡ ok (r' ∷ []) = rw ed e in
      inr (r', rw (e', enqueue_refinement) refl, p)
]
