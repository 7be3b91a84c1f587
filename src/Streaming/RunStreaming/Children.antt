-- ===== src/Streaming/RunStreaming/Children.antt =====
-- src/openlithohub/streaming/pipeline.py: the requests that take the place of a tile in run_streaming.
use open_litho_hub.Base.{
  ℕ, ◌+◌, ◌≤◌, ◌≡◌, ◌∙◌, sym, refl, ap, List, [], ◌∷◌, ok, raise, Outcome-cases, leb, tally, arith,
  All, Bool-cases, inl, inr,
}
use open_litho_hub.Base.Int.{pos, ◌+ℤ◌, max_ℤ}
use open_litho_hub.Streaming.Geometry.{BoundingBox, read_bbox_for, halo_actual, uniform}
use open_litho_hub.Streaming.Geometry.Pixels.{has_pixel, owners}
use open_litho_hub.Streaming.Geometry.Read.{IsBox}
use open_litho_hub.Streaming.CoreHalo.{quarter, widest, TileRequest, RefinementRequest}
use open_litho_hub.Streaming.CoreHalo.Plan.{cores_of}
use open_litho_hub.Streaming.Ownership.{partition_core}
use open_litho_hub.Streaming.Ownership.Partition.{Within, partition_core-IsPartition}
use open_litho_hub.Streaming.Pipeline.{grown_request}
use open_litho_hub.Streaming.RunStreaming.{child_requests}

-- The cores of requests are nonempty boxes.
abbrev pub AreBoxes : List TileRequest → Type 0
AreBoxes requests = All (λ r. IsBox r.core_bbox) requests

-- Requests that take the place of a tile: their cores own its pixels once.
pub record Replaces (r : TileRequest) (new : List TileRequest) : Type 0 where
  pub boxes : AreBoxes new
  pub cover : (x y : ℕ) → owners (cores_of new) x y ≡ tally (has_pixel r.core_bbox x y)

pub child_requests-cores :
    (h w : ℕ) (r : TileRequest) (idx : ℕ) (cores : List BoundingBox) (requests : List TileRequest)
    → child_requests h w r idx cores ≡ ok requests
    → cores_of requests ≡ cores
unfolding child_requests
child_requests-cores h w r idx [] requests e = let same : [] ≡ requests = cc in rw (← same) refl
child_requests-cores h w r idx (core ∷ cores) requests e =
    elim (Outcome-cases (read_bbox_for core r.halo w h)) [
      | inr (x, er) ↦ let bad : raise x ≡ ok requests = rw er at e in absurd (cc)
      | inl (read, er) ↦ elim (Outcome-cases (child_requests h w r (idx + 1) cores)) [
        | inr (x, es) ↦ let bad : raise x ≡ ok requests = rw (er, es) at e in absurd (cc)
        | inl (rest, es) ↦
            let ih = child_requests-cores h w r (idx + 1) cores rest es in
            let child : TileRequest = record {
              core_bbox = core;
              read_bbox = read;
              halo = halo_actual core read;
              tile_id = quarter r.tile_id idx;
            } in
            let made : ok (child ∷ rest) ≡ ok requests = rw (er, es) at e in
            let same : child ∷ rest ≡ requests = cc in rw (← same) (ap (λ bs. core ∷ bs) ih)
      ]
    ]

pub grown_request-core :
    (r : TileRequest) (q : RefinementRequest) (h w : ℕ) (r' : TileRequest)
    → grown_request r q h w ≡ ok r'
    → r'.core_bbox ≡ r.core_bbox
unfolding grown_request
grown_request-core r q h w r' e =
    elim (Outcome-cases (uniform (widest r.halo +ℤ max_ℤ (pos 1) q.extra_halo_px))) [
      | inr (x, eg) ↦ let bad : raise x ≡ ok r' = rw eg at e in absurd (cc)
      | inl (grown, eg) ↦ elim (Outcome-cases (read_bbox_for r.core_bbox grown w h)) [
        | inr (x, er) ↦ let bad : raise x ≡ ok r' = rw (eg, er) at e in absurd (cc)
        | inl (read, er) ↦
            let new : TileRequest = record {
              core_bbox = r.core_bbox;
              read_bbox = read;
              halo = halo_actual r.core_bbox read;
              tile_id = r.tile_id;
            } in
            let made : ok new ≡ ok r' = rw (eg, er) at e in
            let same : new ≡ r' = cc in rw (← same) refl
      ]
    ]

boxes-Within :
    (x0 x1 y0 y1 : ℕ) (requests : List TileRequest)
    → All (Within x0 x1 y0 y1) (cores_of requests)
    → AreBoxes requests
boxes-Within x0 x1 y0 y1 [] h = tt
boxes-Within x0 x1 y0 y1 (r ∷ requests) h =
    (omega (arith, h.0), boxes-Within x0 x1 y0 y1 requests h.1)

partition_core-enough :
    (parent : BoundingBox) (n : ℕ) (boxes : List BoundingBox)
    → partition_core parent n ≡ ok boxes
    → 2 ≤ n
unfolding partition_core
partition_core-enough parent n boxes e = elim (Bool-cases (leb 2 n)) [
  | inl t ↦ ground (arith, t)
  | inr f ↦ absurd (ground (arith, e, f))
]

-- The children of a box tile take its place.
pub children-Replaces :
    (h w : ℕ) (r : TileRequest) (n : ℕ) (boxes : List BoundingBox) (requests : List TileRequest)
    → IsBox r.core_bbox
    → partition_core r.core_bbox n ≡ ok boxes
    → child_requests h w r 0 boxes ≡ ok requests
    → Replaces r requests
children-Replaces h w r n boxes requests b e children =
    let core = r.core_bbox in
    let (made, em, p) =
      partition_core-IsPartition core n b (partition_core-enough core n boxes e) in
    let same : made ≡ boxes = cc in
    let cores : cores_of requests ≡ made =
      child_requests-cores h w r 0 boxes requests children ∙ sym same in
    record {
      boxes = boxes-Within core.x0 core.x1 core.y0 core.y1 requests (rw cores p.within);
      cover = λ x y. rw cores (p.tiles x y);
    }

pub grown-Replaces :
    (h w : ℕ) (r : TileRequest) (q : RefinementRequest) (new : TileRequest)
    → IsBox r.core_bbox
    → grown_request r q h w ≡ ok new
    → Replaces r (new ∷ [])
grown-Replaces h w r q new b e =
    let same = grown_request-core r q h w new e in
    record { boxes = (rw same b, tt); cover = λ x y. rw same (omega arith) }
