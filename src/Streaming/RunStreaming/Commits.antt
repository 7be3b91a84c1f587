-- ===== src/Streaming/RunStreaming/Commits.antt =====
-- One turn of the loop of run_streaming: what it commits and what it leaves to do.
use open_litho_hub.Base.{
  ℕ, zero, suc, ◌+◌, ◌<◌, ◌≡◌, refl, Bool, true, false, Option, none, some, List, [], ◌∷◌, ◌++◌,
  Outcome, ok, raise, ◌⊎◌, ◌>>=◌, Outcome-cases, arith, inl, inr,
}
use open_litho_hub.Base.Dict.{Eq}
use open_litho_hub.Streaming.Faults.{Error}
use open_litho_hub.Streaming.Geometry.{BoundingBox}
use open_litho_hub.Streaming.Geometry.Read.{IsBox}
use open_litho_hub.Streaming.CoreHalo.{
  TileId, Action, TileRequest, RefinementRequest, increase_halo, do_subdivide,
}
use open_litho_hub.Streaming.Ownership.{
  Leaf, Tree, active, set_terminal, mark_forward, exact_skip, subdivide, partition_core,
}
use open_litho_hub.Streaming.Work.{record_refinement}
use open_litho_hub.Streaming.Geometry.{area}
use open_litho_hub.Streaming.Pipeline.{default_refinement, grown_request}
use open_litho_hub.Streaming.RunStreaming.{
  RunState, Advice, discharged, settled, inconclusive, child_cores, screen_queried, commit_skip,
  forward_tile, commit_active, subdivide_tile, refine_tile, settle_tile, visit,
}
use open_litho_hub.Streaming.RunStreaming.Children.{Replaces, children-Replaces, grown-Replaces}

module _ ⦃e : Eq TileId⦄ where
  -- A refinement commits nothing, and what it returns takes the tile's place.
  abbrev Refines : TileRequest → RunState → Outcome Error (List TileRequest) × RunState → Type 0
  Refines r st out =
      (out.1.committed ≡ st.committed)
      × ((new : List TileRequest) → out.0 ≡ ok new → Replaces r new)

  subdivide_tile-Refines :
      (h w : ℕ) (r : TileRequest) (n : ℕ) (st : RunState)
      → IsBox r.core_bbox
      → Refines r st (subdivide_tile h w r n st)
  unfolding subdivide_tile
  subdivide_tile-Refines h w r n st b = elim (Outcome-cases (partition_core r.core_bbox n)) [
    | inr (x, ep) ↦ rw (subdivide_tile, ep) (refl, λ new made. absurd (cc))
    | inl (cores, ep) ↦
        by_result cores ep (subdivide r.tile_id (child_cores r 0 cores) st.tree) refl
  ]
    where
      by_result :
          (cores : List BoundingBox)
          → partition_core r.core_bbox n ≡ ok cores
          → (out : Outcome Error (List (Leaf TileId)) × Tree TileId)
          → subdivide r.tile_id (child_cores r 0 cores) st.tree ≡ out
          → Refines r st (subdivide_tile h w r n st)
      by_result cores ep (raise x, tree) es =
          rw (subdivide_tile, ep, es) (refl, λ new made. absurd (cc))
      by_result cores ep (ok leaves, tree) es =
          rw (subdivide_tile, ep, es)
            (refl, λ new made. children-Replaces h w r n cores new b ep made)

  refine_tile-Refines :
      (h w : ℕ) (r : TileRequest) (q : RefinementRequest) (st : RunState)
      → IsBox r.core_bbox
      → Refines r st (refine_tile h w r q st)
  unfolding refine_tile grown_request
  refine_tile-Refines h w r q st b = by_action q.action refl
    where
      counted : RunState
      counted = record st {
        n_requeued = st.n_requeued + 1;
        work = record_refinement (area r.core_bbox) st.work;
      }

      by_action : (a : Action) → q.action ≡ a → Refines r st (refine_tile h w r q st)
      by_action do_subdivide ea = rw ea (subdivide_tile-Refines h w r q.subdivision counted b)
      by_action increase_halo ea = elim (Outcome-cases (grown_request r q h w)) [
        | inr (x, eg) ↦ rw (ea, eg) (refl, λ new made. absurd (cc))
        | inl (grown, eg) ↦
            rw (ea, eg)
              (
                refl,
                λ new made.
                    let same : grown ∷ [] ≡ new = cc in
                    rw (← same) (grown-Replaces h w r q grown b eg),
              )
      ]

  -- A turn that raises commits the tile's core at most once; one that commits it does so once; one that
  -- refines the tile commits nothing and leaves requests that take its place.
  unfoldable pub Turns :
      ℕ
      → TileRequest
      → List BoundingBox
      → Outcome Error (Option (List TileRequest)) × RunState
      → Type 0
  Turns left r before (raise x, after) =
      (after.committed ≡ before) ⊎ (after.committed ≡ before ++ r.core_bbox ∷ [])
  Turns left r before (ok none, after) = after.committed ≡ before ++ r.core_bbox ∷ []
  Turns left r before (ok (some new), after) =
      (0 < left) × (after.committed ≡ before) × Replaces r new

  commit_active-Turns :
      (left : ℕ) (r : TileRequest) (st : RunState)
      → (let (result, after) = commit_active r st in
          Turns left r st.committed ((do _ ← result; ok none), after))
  unfolding commit_active Turns
  commit_active-Turns left r st = by_result (set_terminal r.tile_id (some active) st.tree) refl
    where
      by_result :
          (out : Outcome Error (Unit {0}) × Tree TileId)
          → set_terminal r.tile_id (some active) st.tree ≡ out
          → (let (result, after) = commit_active r st in
              Turns left r st.committed ((do _ ← result; ok none), after))
      by_result (raise x, tree) es = rw (commit_active, es, Turns) (inl refl)
      by_result (ok u, tree) es = rw (commit_active, es, Turns) refl

  settle_tile-Turns :
      (h w left : ℕ) (r : TileRequest) (advice : Advice) (st : RunState)
      → IsBox r.core_bbox
      → Turns left r st.committed (settle_tile h w left r advice st)
  unfolding settle_tile Turns
  settle_tile-Turns h w zero r advice st b = commit_active-Turns 0 r st
  settle_tile-Turns h w (suc left) r discharged st b = commit_active-Turns (suc left) r st
  settle_tile-Turns h w (suc left) r settled st b = commit_active-Turns (suc left) r st
  settle_tile-Turns h w (suc left) r (inconclusive advice) st b =
      elim (Outcome-cases (default_refinement r advice)) [
        | inr (x, ed) ↦ rw (settle_tile, ed, Turns) (inl refl)
        | inl (q, ed) ↦ by_result q ed (refine_tile h w r q st) refl
      ]
    where
      by_result :
          (q : RefinementRequest)
          → default_refinement r advice ≡ ok q
          → (out : Outcome Error (List TileRequest) × RunState) → refine_tile h w r q st ≡ out
          → Turns (suc left) r st.committed (settle_tile h w (suc left) r (inconclusive advice) st)
      by_result q ed (raise x, after) er =
          let kept = refine_tile-Refines h w r q st b in
          let same : after.committed ≡ st.committed = rw er at kept.0 in
          rw (settle_tile, ed, er) (inl same)
      by_result q ed (ok new, after) er =
          let kept : Refines r st (ok new, after) = rw er at (refine_tile-Refines h w r q st b) in
          rw (settle_tile, ed, er) (omega arith, kept.0, kept.1 new refl)

  commit_skip-Turns :
      (left : ℕ) (r : TileRequest) (st : RunState)
      → (let (result, after) = commit_skip r st in
          Turns left r st.committed ((do _ ← result; ok none), after))
  unfolding commit_skip Turns
  commit_skip-Turns left r st = by_result (set_terminal r.tile_id (some exact_skip) st.tree) refl
    where
      by_result :
          (out : Outcome Error (Unit {0}) × Tree TileId)
          → set_terminal r.tile_id (some exact_skip) st.tree ≡ out
          → (let (result, after) = commit_skip r st in
              Turns left r st.committed ((do _ ← result; ok none), after))
      by_result (raise x, tree) es = rw es (inr refl)
      by_result (ok u, tree) es = rw es refl

  -- A tile that goes through the forward.
  worked-Turns :
      (h w left : ℕ) (r : TileRequest) (advice : Advice) (st : RunState)
      → IsBox r.core_bbox
      → Turns left r st.committed (
          let (result, after) = forward_tile r st in
          elim result [ raise x ↦ (raise x, after) | ok _ ↦ settle_tile h w left r advice after ])
  unfolding forward_tile Turns
  worked-Turns h w left r advice st b = by_result (mark_forward r.tile_id st.tree) refl
    where
      by_result :
          (out : Outcome Error (Unit {0}) × Tree TileId)
          → mark_forward r.tile_id st.tree ≡ out
          → Turns left r st.committed (
              let (result, after) = forward_tile r st in
              elim result [
                | raise x ↦ (raise x, after)
                | ok _ ↦ settle_tile h w left r advice after
              ])
      by_result (raise x, tree) es = rw es (inl refl)
      by_result (ok u, tree) es =
          rw es (settle_tile-Turns h w left r advice (forward_tile r st).1 b)

  pub visit-Turns :
      (h w : ℕ) (screens : Bool) (left : ℕ) (r : TileRequest) (advice : Advice) (st : RunState)
      → IsBox r.core_bbox
      → Turns left r st.committed (visit h w screens left r advice st)
  unfolding visit Turns commit_skip forward_tile
  visit-Turns h w screens left r discharged st b =
      elim screens as (λ q. Turns left r st.committed (visit h w q left r discharged st)) [
        | true ↦ commit_skip-Turns left r (screen_queried true st)
        | false ↦ commit_skip-Turns left r st
      ]
  visit-Turns h w screens left r settled st b =
      elim screens as (λ q. Turns left r st.committed (visit h w q left r settled st)) [
        | true ↦ worked-Turns h w left r settled (screen_queried true st) b
        | false ↦ worked-Turns h w left r settled st b
      ]
  visit-Turns h w screens left r (inconclusive a) st b =
      elim screens as (λ q. Turns left r st.committed (visit h w q left r (inconclusive a) st)) [
        | true ↦ worked-Turns h w left r (inconclusive a) (screen_queried true st) b
        | false ↦ worked-Turns h w left r (inconclusive a) st b
      ]
