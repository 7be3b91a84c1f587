-- ===== src/Streaming/Work/Examples.antt =====
-- The theorems on the work ledger at a core, its left half and a core beside it.
use open_litho_hub.Base.{ℕ, ◌-◌, ◌≡◌, refl, inl, inr, List, [], ◌∷◌, arith, min}
use open_litho_hub.Base.Dict.{nat_eq}
use open_litho_hub.Streaming.Geometry.{BoundingBox}
use open_litho_hub.Streaming.Geometry.Pixels.{owners}
use open_litho_hub.Streaming.Geometry.Census.{pixel_sum}
use open_litho_hub.Streaming.Work.{Work, contains, pre_forward_avoided_pixels}
use open_litho_hub.Streaming.Work.Union.{NestedOrDisjoint}
use open_litho_hub.Streaming.Work.History.{fresh_work, final_work, historical_ledger}

abbrev half : BoundingBox
half = record { x0 = 0; y0 = 0; x1 = 2; y1 = 4 }

abbrev whole : BoundingBox
whole = record { x0 = 0; y0 = 0; x1 = 4; y1 = 4 }

abbrev beside : BoundingBox
beside = record { x0 = 4; y0 = 0; x1 = 7; y1 = 4 }

abbrev visited : List BoundingBox
visited = half ∷ whole ∷ beside ∷ []

whole-half : NestedOrDisjoint whole half
unfolding contains
whole-half = inl refl

beside-whole : NestedOrDisjoint beside whole
beside-whole = inr (inr (λ x y. ground arith))

beside-half : NestedOrDisjoint beside half
beside-half = inr (inr (λ x y. ground arith))

abbrev start : Work ℕ
start = record (fresh_work 40) { forward_union = half ∷ []; unique_forward_pixels = 8 }

historical_ledger_example :
    ((final_work ℕ 8 5 visited).unique_forward_pixels
      ≡ pixel_sum 8 5 (λ x y. min 1 (owners visited x y)))
    × (pre_forward_avoided_pixels (final_work ℕ 8 5 visited)
        ≡ pixel_sum 8 5 (λ x y. 1 - owners visited x y))
historical_ledger_example =
    historical_ledger ℕ 8 5 visited (omega arith)
      ((whole-half, (beside-half, tt)), ((beside-whole, tt), (tt, tt)))
