-- ===== src/Streaming/Sinks/Examples.antt =====
-- The theorems on the sinks at small shapes.
use open_litho_hub.Base.{ℕ, ◌+◌, ◌*◌, ◌<◌, ◌≡◌, refl, none, List, [], ◌∷◌, ok, ◌==◌, arith}
use open_litho_hub.Base.Dict.{nat_eq, mem}
use open_litho_hub.Streaming.Geometry.{BoundingBox, core_grid_boxes}
use open_litho_hub.Streaming.Ownership.Ledger.{Distinct}
use open_litho_hub.Streaming.Sinks.{Entry, tensor_tile_sink}
use open_litho_hub.Streaming.Sinks.Assemble.{boxes_of, ids_of, write_tiles, write_tiles-crop}

instance abbrev pub entry : Entry ℕ
entry = record { zero_f = 0; is_zero = λ v. v == 0; is_one = λ v. v == 1 }

abbrev picture : (row col : ℕ) → ℕ
picture row col = row + 2 * col

abbrev two_tiles : List (ℕ × BoundingBox)
two_tiles =
    (7, record { x0 = 0; y0 = 0; x1 = 2; y1 = 2 })
    ∷ (8, record { x0 = 2; y0 = 0; x1 = 3; y1 = 2 })
    ∷ []

two_ids-Distinct : Distinct (ids_of two_tiles)
unfolding mem
two_ids-Distinct = (refl, (refl, tt))

two_tiles-planned : core_grid_boxes 2 3 2 none ≡ ok (boxes_of two_tiles)
unfolding core_grid_boxes
two_tiles-planned = refl

write_tiles-crop_example :
    let (result, after) = write_tiles picture two_tiles (tensor_tile_sink 2 3) in
    (result ≡ ok tt) × ((row col : ℕ) → row < 2 → col < 3 → after.output row col ≡ picture row col)
write_tiles-crop_example =
    write_tiles-crop picture 2 3 2 two_tiles (omega arith) two_ids-Distinct two_tiles-planned
