-- ===== src/Streaming/RunStreaming.antt =====
-- src/openlithohub/streaming/pipeline.py: the loop of run_streaming without batches, with the ownership
-- tree and the work ledger. The screen and the verifiers are plugins: what they decide on a tile, which may
-- depend on all that happened before, is the argument `advise`, and `screens` tells whether there is a
-- screening policy. The sink takes every core; it is the list of the cores that it was given, in order.
pub mod Children
pub mod Commits
pub mod Loop
pub mod Ids
pub mod Examples
use open_litho_hub.Base.{
  ℕ, zero, suc, ◌+◌, ◌*◌, Bool, true, false, Option, none, some, List, [], ◌∷◌, ◌++◌, Outcome, ok,
  raise, ◌>>=◌, ◌==◌, if◌then◌else◌,
}
use open_litho_hub.Base.Dict.{Eq}
use open_litho_hub.Base.Int.{pos}
use open_litho_hub.Streaming.Faults.{Error, domain_mismatch}
use open_litho_hub.Streaming.Geometry.{BoundingBox, HaloSpec, area, read_bbox_for, halo_actual}
use open_litho_hub.Streaming.CoreHalo.{
  TileId, quarter, TileRequest, RefinementRequest, increase_halo, do_subdivide, px,
  plan_tile_requests,
}
use open_litho_hub.Streaming.Ownership.{
  Tree, Disposition, active, exact_skip, Counts, empty_tree, add_root, subdivide, mark_forward,
  set_terminal, partition_core, verify_total_coverage,
}
use open_litho_hub.Streaming.Work.{
  Work, record_screen_query, record_screened_out, record_active_core, record_read_window,
  record_forward, record_forward_core, record_refinement, record_subdivision,
}
use open_litho_hub.Streaming.Pipeline.{default_refinement, grown_request}

pub record RunState : Type 0 where
  pub tree : Tree TileId
  pub work : Work TileId
  pub committed : List BoundingBox
  pub committed_tiles : ℕ
  pub n_requeued : ℕ
  pub forward_batches : ℕ

abbrev pub new_run : Work TileId → RunState
new_run work = record {
  tree = empty_tree;
  work = work;
  committed = [];
  committed_tiles = 0;
  n_requeued = 0;
  forward_batches = 0;
}

-- The ledger takes the pixels of the source, or has them already.
pub claim_domain : (full_pixels : ℕ) → Work TileId → Outcome Error (Work TileId)
claim_domain full_pixels work =
    if work.full_chip_pixels == 0
    then ok (record work { full_chip_pixels = full_pixels })
    else if work.full_chip_pixels == full_pixels
    then ok work
    else raise domain_mismatch

-- What the plugins say of a tile: the screen's facts are accepted by every verifier; no verifier is
-- inconclusive; or one is, and its plugin advises a refinement, `none` for no advice.
pub data Advice : Type 0 where
  discharged settled : Advice
  inconclusive : Option RefinementRequest → Advice

-- The stack after `pending.append` of each request; the top comes first.
pub push : List TileRequest → List TileRequest → List TileRequest
push [] pending = pending
push (r ∷ requests) pending = push requests (r ∷ pending)

-- The requests of the children of a tile, and the pairs for the tree, from the index `idx` on.
pub child_requests :
    (h w : ℕ) → TileRequest → (idx : ℕ) → List BoundingBox → Outcome Error (List TileRequest)
unfolding read_bbox_for
child_requests h w r idx [] = ok []
child_requests h w r idx (core ∷ cores) = do
  read ← read_bbox_for core r.halo w h
  requests ← child_requests h w r (idx + 1) cores
  ok (
      record {
        core_bbox = core;
        read_bbox = read;
        halo = halo_actual core read;
        tile_id = quarter r.tile_id idx;
      }
      ∷ requests)

abbrev pub child_cores : TileRequest → (idx : ℕ) → List BoundingBox → List (TileId × BoundingBox)
child_cores r idx [] = []
child_cores r idx (core ∷ cores) = (quarter r.tile_id idx, core) ∷ child_cores r (idx + 1) cores

abbrev pub screen_queried : (screens : Bool) → RunState → RunState
screen_queried true st = record st { work = record_screen_query st.work }
screen_queried false st = st

module _ ⦃e : Eq TileId⦄ where
  -- The certified commit of a tile that was screened out.
  unfoldable pub commit_skip : TileRequest → RunState → Outcome Error (Unit {0}) × RunState
  commit_skip r st =
      let (result, tree) = set_terminal r.tile_id (some exact_skip) st.tree in
      (
        result,
        record st {
          tree = tree;
          work = record_screened_out r.tile_id st.work;
          committed = st.committed ++ r.core_bbox ∷ [];
          committed_tiles = elim result [
            | raise _ ↦ st.committed_tiles
            | ok _ ↦ st.committed_tiles + 1
          ];
        },
      )

  -- The read and the forward of a tile.
  unfoldable pub forward_tile : TileRequest → RunState → Outcome Error (Unit {0}) × RunState
  forward_tile r st =
      let read =
        record_read_window (area r.read_bbox) (record_active_core r.tile_id r.core_bbox st.work) in
      let (result, tree) = mark_forward r.tile_id st.tree in
      (
        result,
        record st {
          tree = tree;
          work = record_forward_core r.core_bbox (record_forward (area r.read_bbox) read);
          forward_batches = st.forward_batches + 1;
        },
      )

  -- The commit of a tile that is not refined.
  unfoldable pub commit_active : TileRequest → RunState → Outcome Error (Unit {0}) × RunState
  commit_active r st =
      let (result, tree) = set_terminal r.tile_id (some active) st.tree in
      let marked : RunState = record st { tree = tree } in
      elim result [
        | raise x ↦ (raise x, marked)
        | ok _ ↦ (
          ok tt,
          record marked {
            committed = st.committed ++ r.core_bbox ∷ [];
            committed_tiles = st.committed_tiles + 1;
          },
        )
      ]

  -- The children of a tile, after the parent is retired.
  unfoldable pub subdivide_tile :
      (h w : ℕ)
      → TileRequest
      → (subdivision : ℕ) → RunState
      → Outcome Error (List TileRequest) × RunState
  unfolding child_requests
  subdivide_tile h w r n st = elim (partition_core r.core_bbox n) [
    | raise x ↦ (raise x, st)
    | ok cores ↦
        let (result, tree) = subdivide r.tile_id (child_cores r 0 cores) st.tree in
        elim result [
          | raise x ↦ (raise x, record st { tree = tree })
          | ok _ ↦ (
            child_requests h w r 0 cores,
            record st { tree = tree; work = record_subdivision st.work },
          )
        ]
  ]

  unfoldable pub refine_tile :
      (h w : ℕ)
      → TileRequest
      → RefinementRequest
      → RunState
      → Outcome Error (List TileRequest) × RunState
  unfolding subdivide_tile
  refine_tile h w r q st =
      let counted : RunState = record st {
        n_requeued = st.n_requeued + 1;
        work = record_refinement (area r.core_bbox) st.work;
      } in
      elim q.action [
        | do_subdivide ↦ subdivide_tile h w r q.subdivision counted
        | increase_halo ↦ ((do grown ← grown_request r q h w; ok (grown ∷ [])), counted)
      ]

  -- After the forward: the commit, with `none`, or the requests that take the tile's place. `left` is
  -- refinements_left.
  unfoldable pub settle_tile :
      (h w left : ℕ)
      → TileRequest
      → Advice
      → RunState
      → Outcome Error (Option (List TileRequest)) × RunState
  unfolding commit_active refine_tile default_refinement
  settle_tile h w (suc left) r (inconclusive advice) st = elim (default_refinement r advice) [
    | raise x ↦ (raise x, st)
    | ok q ↦
        let (result, after) = refine_tile h w r q st in ((do new ← result; ok (some new)), after)
  ]
  settle_tile h w left r advice st =
      let (result, after) = commit_active r st in ((do _ ← result; ok none), after)

  -- One turn of `while pending`, for the request that was popped.
  unfoldable pub visit :
      (h w : ℕ)
      → (screens : Bool) → (left : ℕ) → TileRequest
      → Advice
      → RunState
      → Outcome Error (Option (List TileRequest)) × RunState
  unfolding commit_skip forward_tile settle_tile
  visit h w screens left r discharged st =
      let (result, after) = commit_skip r (screen_queried screens st) in
      ((do _ ← result; ok none), after)
  visit h w screens left r advice st =
      let (result, after) = forward_tile r (screen_queried screens st) in
      elim result [ raise x ↦ (raise x, after) | ok _ ↦ settle_tile h w left r advice after ]

  module _ (h w : ℕ) (screens : Bool) (advise : TileRequest → RunState → Advice) where
    -- `while pending`, where `refined` goes on with one refinement less.
    pub drain :
        (refined : List TileRequest → RunState → Outcome Error (Unit {0}) × RunState) (left : ℕ)
        → List TileRequest
        → RunState
        → Outcome Error (Unit {0}) × RunState
    unfolding visit push
    drain refined left [] st = (ok tt, st)
    drain refined left (r ∷ pending) st =
        let (result, after) = visit h w screens left r (advise r st) st in
        let rest = drain refined left pending after in
        elim result [
          | raise x ↦ (raise x, after)
          | ok next ↦ elim next [ none ↦ rest | some new ↦ refined (push new pending) after ]
        ]

    pub run_pending : (left : ℕ) → List TileRequest → RunState → Outcome Error (Unit {0}) × RunState
    unfolding drain
    run_pending zero pending st = drain (λ _ after. (ok tt, after)) zero pending st
    run_pending (suc left) pending st = drain (run_pending left) (suc left) pending st

    -- The loop over the planned tiles.
    pub run_bases :
        (max_requeues : ℕ) → List TileRequest → RunState → Outcome Error (Unit {0}) × RunState
    unfolding run_pending add_root
    run_bases requeues [] st = (ok tt, st)
    run_bases requeues (base ∷ bases) st =
        let (added, tree) = add_root base.tile_id base.core_bbox st.tree in
        let planted : RunState = record st { tree = tree } in
        let (result, after) = run_pending requeues (base ∷ []) planted in
        let rest = run_bases requeues bases after in
        elim added [
          | raise x ↦ (raise x, planted)
          | ok _ ↦ elim result [ raise x ↦ (raise x, after) | ok _ ↦ rest ]
        ]

    -- From the domain check of the ledger to the check of the coverage.
    unfoldable pub run_streaming :
        (core_size halo_px max_requeues : ℕ) → Work TileId → Outcome Error Counts × RunState
    unfolding run_bases verify_total_coverage claim_domain
    run_streaming core_size halo_px requeues work = elim (claim_domain (h * w) work) [
      | raise x ↦ (raise x, new_run work)
      | ok claimed ↦ elim (plan_tile_requests h w core_size (px (pos halo_px)) none "tile") [
        | raise x ↦ (raise x, new_run claimed)
        | ok bases ↦
            let (result, after) = run_bases requeues bases (new_run claimed) in
            elim result [
              | raise x ↦ (raise x, after)
              | ok _ ↦ (verify_total_coverage after.tree (h * w), after)
            ]
      ]
    ]
