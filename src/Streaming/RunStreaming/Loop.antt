-- ===== src/Streaming/RunStreaming/Loop.antt =====
-- src/openlithohub/streaming/pipeline.py: the commits of the loop of run_streaming.
use open_litho_hub.Base.{
  ℕ, zero, suc, ◌+◌, ◌*◌, ◌≤◌, ◌<◌, ◌≡◌, ◌∙◌, refl, Bool, ◌&&◌, Option, none, some, List, [], ◌∷◌,
  ◌++◌, String, Outcome, ok, raise, Outcome-cases, tally, arith, All, inl, inr,
}
use open_litho_hub.Base.Dict.{Eq}
use open_litho_hub.Base.Int.{pos}
use open_litho_hub.Streaming.Faults.{Error}
use open_litho_hub.Streaming.Geometry.{BoundingBox, HaloSpec, uniform}
use open_litho_hub.Streaming.Geometry.Grid.{IsCore}
use open_litho_hub.Streaming.Geometry.Pixels.{in_span, has_pixel, owners, owners-append, Tiles}
use open_litho_hub.Streaming.CoreHalo.{TileId, TileRequest, px, spec, halo_of, plan_tile_requests}
use open_litho_hub.Streaming.CoreHalo.Plan.{cores_of, plan_tile_requests-ArePlanned}
use open_litho_hub.Streaming.Work.{Work}
use open_litho_hub.Streaming.Ownership.{Counts, Leaf, add_root}
use open_litho_hub.Streaming.RunStreaming.{
  RunState, Advice, push, visit, drain, run_pending, run_bases, run_streaming, new_run,
  claim_domain,
}
use open_litho_hub.Streaming.RunStreaming.Children.{AreBoxes, Replaces}
use open_litho_hub.Streaming.RunStreaming.Commits.{Turns, visit-Turns}

-- What a run of the loop does to the pixels of the requests that it was given: with no exception each
-- is committed as often as the requests own it, and with one no more often.
pub Conserves :
    {A : Type 0} → List TileRequest → List BoundingBox → Outcome Error A × RunState → Type 0
Conserves requests before (ok _, after) =
    (x y : ℕ) → owners after.committed x y ≡ owners before x y + owners (cores_of requests) x y
Conserves requests before (raise _, after) =
    (x y : ℕ) → owners after.committed x y ≤ owners before x y + owners (cores_of requests) x y

push-owners :
    (new pending : List TileRequest) (x y : ℕ)
    → owners (cores_of (push new pending)) x y
      ≡ owners (cores_of new) x y + owners (cores_of pending) x y
unfolding push
push-owners [] pending x y = omega arith
push-owners (r ∷ new) pending x y = let ih = push-owners new (r ∷ pending) x y in omega arith

push-AreBoxes :
    (new pending : List TileRequest) → AreBoxes new → AreBoxes pending → AreBoxes (push new pending)
unfolding push
push-AreBoxes [] pending bs ps = ps
push-AreBoxes (r ∷ new) pending bs ps = push-AreBoxes new (r ∷ pending) bs.1 (bs.0, ps)

committed_one :
    (before after : List BoundingBox) (core : BoundingBox)
    → after ≡ before ++ core ∷ []
    → (x y : ℕ) → owners after x y ≡ owners before x y + tally (has_pixel core x y)
committed_one before after core e x y =
    let split = owners-append before (core ∷ []) x y in rw e (omega arith)

Conserves-commit :
    {A : Type 0}
    → (pending : List TileRequest) (before after : List BoundingBox) (r : TileRequest)
    → after ≡ before ++ r.core_bbox ∷ []
    → (out : Outcome Error A × RunState) → Conserves pending after out
    → Conserves (r ∷ pending) before out
unfolding Conserves
Conserves-commit pending before after r same (ok a, st) c = λ x y.
    let one = committed_one before after r.core_bbox same x y in let rest = c x y in omega arith
Conserves-commit pending before after r same (raise a, st) c = λ x y.
    let one = committed_one before after r.core_bbox same x y in let rest = c x y in omega arith

Conserves-refined :
    {A : Type 0}
    → (new pending : List TileRequest) (before after : List BoundingBox) (r : TileRequest)
    → after ≡ before
    → Replaces r new
    → (out : Outcome Error A × RunState) → Conserves (push new pending) after out
    → Conserves (r ∷ pending) before out
unfolding Conserves
Conserves-refined new pending before after r same p (ok a, st) c = λ x y.
    let pushed = push-owners new pending x y in
    let cover = p.cover x y in
    let kept : owners after x y ≡ owners before x y = rw same refl in
    let rest = c x y in omega arith
Conserves-refined new pending before after r same p (raise a, st) c = λ x y.
    let pushed = push-owners new pending x y in
    let cover = p.cover x y in
    let kept : owners after x y ≡ owners before x y = rw same refl in
    let rest = c x y in omega arith

Conserves-base :
    {A : Type 0}
    → (base : TileRequest) (bases : List TileRequest) (before after : List BoundingBox)
    → ((x y : ℕ) → owners after x y ≡ owners before x y + owners (cores_of (base ∷ [])) x y)
    → (out : Outcome Error A × RunState) → Conserves bases after out
    → Conserves (base ∷ bases) before out
unfolding Conserves
Conserves-base base bases before after first (ok a, st) c =
    λ x y. let one = first x y in let rest = c x y in omega arith
Conserves-base base bases before after first (raise a, st) c =
    λ x y. let one = first x y in let rest = c x y in omega arith

module _ ⦃e : Eq TileId⦄ (h w : ℕ) (screens : Bool) (advise : TileRequest → RunState → Advice) where
  drain-Conserves :
      (refined : List TileRequest → RunState → Outcome Error (Unit {0}) × RunState)
      → (left : ℕ)
      → ((requests : List TileRequest) (st : RunState)
          → 0 < left
          → AreBoxes requests
          → Conserves requests st.committed (refined requests st))
      → (requests : List TileRequest) (st : RunState) → AreBoxes requests
      → Conserves requests st.committed (drain h w screens advise refined left requests st)
  unfolding drain Conserves Turns
  drain-Conserves refined left kept [] st bs = λ x y. omega arith
  drain-Conserves refined left kept (r ∷ pending) st bs =
      by_result turn.0 refl (visit-Turns h w screens left r (advise r st) st bs.0)
        (drain-Conserves refined left kept pending turn.1 bs.1)
    where
      turn : Outcome Error (Option (List TileRequest)) × RunState
      turn = visit h w screens left r (advise r st) st

      by_result :
          (result : Outcome Error (Option (List TileRequest)))
          → turn.0 ≡ result
          → Turns left r st.committed (result, turn.1)
          → Conserves pending turn.1.committed
              (drain h w screens advise refined left pending turn.1)
          → Conserves
              (r ∷ pending)
              st.committed
              (drain h w screens advise refined left (r ∷ pending) st)
      by_result (raise x) ev (inl same) rest =
          rw (drain, ev, Conserves) (λ x y. rw same (omega arith))
      by_result (raise x) ev (inr same) rest =
          rw (drain, ev, Conserves)
            (λ x y.
              let one = committed_one st.committed turn.1.committed r.core_bbox same x y in
              omega arith)
      by_result (ok none) ev same rest =
          rw (drain, ev)
            (Conserves-commit pending st.committed turn.1.committed r same
              (drain h w screens advise refined left pending turn.1) rest)
      by_result (ok (some new)) ev (positive, same, p) rest =
          rw (drain, ev)
            (Conserves-refined new pending st.committed turn.1.committed r same p
              (refined (push new pending) turn.1)
              (kept (push new pending) turn.1 positive (push-AreBoxes new pending p.boxes bs.1)))

  run_pending-Conserves :
      (left : ℕ) (requests : List TileRequest) (st : RunState)
      → AreBoxes requests
      → Conserves requests st.committed (run_pending h w screens advise left requests st)
  unfolding run_pending Conserves
  run_pending-Conserves zero requests st bs =
      drain-Conserves (λ _ after. (ok tt, after)) 0 (λ _ _ p. absurd (omega (arith, p))) requests st
        bs
  run_pending-Conserves (suc left) requests st bs =
      drain-Conserves (run_pending h w screens advise left) (suc left)
        (λ requests st _ bs. run_pending-Conserves left requests st bs) requests st bs

  run_bases-Conserves :
      (requeues : ℕ) (bases : List TileRequest) (st : RunState)
      → AreBoxes bases
      → Conserves bases st.committed (run_bases h w screens advise requeues bases st)
  unfolding run_bases Conserves
  run_bases-Conserves requeues [] st bs = λ x y. omega arith
  run_bases-Conserves requeues (base ∷ bases) st bs =
      by_root (λ after. run_bases-Conserves requeues bases after bs.1)
        (add_root base.tile_id base.core_bbox st.tree).0 refl
    where
      planted : RunState
      planted = record st { tree = (add_root base.tile_id base.core_bbox st.tree).1 }

      run : Outcome Error (Unit {0}) × RunState
      run = run_pending h w screens advise requeues (base ∷ []) planted

      by_run :
          ((after : RunState)
            → Conserves bases after.committed (run_bases h w screens advise requeues bases after))
          → (leaf : Leaf TileId) → (add_root base.tile_id base.core_bbox st.tree).0 ≡ ok leaf
          → (result : Outcome Error (Unit {0})) → run.0 ≡ result
          → Conserves (base ∷ []) st.committed (result, run.1)
          → Conserves
              (base ∷ bases)
              st.committed
              (run_bases h w screens advise requeues (base ∷ bases) st)
      by_run rest leaf ea (raise x) er c =
          rw (run_bases, ea, er, Conserves) (λ x y. let one = c x y in omega arith)
      by_run rest leaf ea (ok u) er c =
          rw (run_bases, ea, er)
            (Conserves-base base bases st.committed run.1.committed c
              (run_bases h w screens advise requeues bases run.1) (rest run.1))

      by_root :
          ((after : RunState)
            → Conserves bases after.committed (run_bases h w screens advise requeues bases after))
          → (added : Outcome Error (Leaf TileId))
          → (add_root base.tile_id base.core_bbox st.tree).0 ≡ added
          → Conserves
              (base ∷ bases)
              st.committed
              (run_bases h w screens advise requeues (base ∷ bases) st)
      by_root rest (raise x) ea = rw (run_bases, ea, Conserves) (λ x y. omega arith)
      by_root rest (ok leaf) ea =
          by_run rest leaf ea run.0 refl
            (run_pending-Conserves requeues (base ∷ []) planted (bs.0, tt))

AreBoxes-cores :
    (w h c : ℕ) (requests : List TileRequest)
    → All (λ r. IsCore w h c r.core_bbox) requests
    → AreBoxes requests
AreBoxes-cores w h c [] cores = tt
AreBoxes-cores w h c (r ∷ requests) cores =
    (grind (arith, cores.0), AreBoxes-cores w h c requests cores.1)

abbrev pub CommitsOnce : (h w : ℕ) → Outcome Error Counts × RunState → Type 0
CommitsOnce h w (result, after) =
    ((x y : ℕ) → owners after.committed x y ≤ tally (in_span 0 w x && in_span 0 h y))
    × ((counts : Counts) → result ≡ ok counts → Tiles after.committed 0 w 0 h)

abbrev around : ℕ → HaloSpec
around n = record { left = pos n; top = pos n; right = pos n; bottom = pos n }

plan_px :
    (h w c n : ℕ) (prefix : String)
    → plan_tile_requests h w c (px (pos n)) none prefix
      ≡ plan_tile_requests h w c (spec (around n)) none prefix
unfolding plan_tile_requests halo_of uniform
plan_px h w c n prefix =
    let same : halo_of (px (pos n)) ≡ ok (around n) = ground arith in rw same refl

-- For every layout, positive core size, halo and number of requeues, whatever the screen and the verifiers
-- advise and whatever the ledger holds, a run commits no pixel twice and none outside the layout, also when
-- it raises; when it returns, it has committed each pixel of the layout exactly once.
pub run_streaming-CommitsOnce :
    ⦃e : Eq TileId⦄
    → (h w : ℕ) (screens : Bool) (advise : TileRequest → RunState → Advice)
      (core_size halo_px requeues : ℕ) (work : Work TileId)
    → 0 < core_size
    → CommitsOnce h w (run_streaming h w screens advise core_size halo_px requeues work)
unfolding run_streaming Conserves
run_streaming-CommitsOnce h w screens advise c n requeues work hc =
    let (bases, ep, tiles, planned, cores) =
      plan_tile_requests-ArePlanned h w c (around n) "tile" hc (omega arith) in
    elim (Outcome-cases (claim_domain (h * w) work)) [
      | inr (x, ec) ↦ rw (run_streaming, ec) ((λ x y. omega arith), λ counts made. absurd (cc))
      | inl (claimed, ec) ↦
          let out = run_bases h w screens advise requeues bases (new_run claimed) in
          let boxes = AreBoxes-cores w h c bases cores in
          by_result claimed ec bases (plan_px h w c n "tile" ∙ ep) tiles out.0 refl
            (run_bases-Conserves h w screens advise requeues bases (new_run claimed) boxes)
    ]
  where
    by_result :
        (claimed : Work TileId)
        → claim_domain (h * w) work ≡ ok claimed
        → (bases : List TileRequest) → plan_tile_requests h w c (px (pos n)) none "tile" ≡ ok bases
        → Tiles (cores_of bases) 0 w 0 h
        → (result : Outcome Error (Unit {0}))
        → (run_bases h w screens advise requeues bases (new_run claimed)).0 ≡ result
        → Conserves bases []
            (result, (run_bases h w screens advise requeues bases (new_run claimed)).1)
        → CommitsOnce h w (run_streaming h w screens advise c n requeues work)
    by_result claimed ec bases ep tiles (raise x) er kept =
        rw (run_streaming, ec, ep, er)
          (λ x y. omega (arith, tiles x y, kept x y), λ counts made. absurd (cc))
    by_result claimed ec bases ep tiles (ok u) er kept =
        rw (run_streaming, ec, ep, er)
          (
            λ x y. omega (arith, tiles x y, kept x y),
            λ counts made x y. omega (arith, tiles x y, kept x y),
          )
