-- ===== src/Streaming/Verification/Latest.antt =====
-- add and retire: the reducer holds, for each tile, its last verdict since it was last retired.
use open_litho_hub.Base.{◌≡◌, refl, Option, none, some, List, [], ◌∷◌, if◌then◌else◌}
use open_litho_hub.Base.Dict.{Eq, lookup, lookup-insert, lookup-remove}
use open_litho_hub.Base.Keys.{HasKeys, insert-HasKeys, remove-HasKeys}
use open_litho_hub.Streaming.Verification.{TileVerificationResult, Reducer, add, retire}

-- A call of add or of retire.
pub data Event (F K : Type 0) : Type 0 where
  added : TileVerificationResult F K → Event F K
  retired : K → Event F K

module _ {F K : Type 0} ⦃e : Eq K⦄ where
  abbrev pub apply : Event F K → Reducer F K → Reducer F K
  apply (added result) r = add result r
  apply (retired tile_id) r = retire tile_id r

  abbrev pub apply_all : List (Event F K) → Reducer F K → Reducer F K
  apply_all [] r = r
  apply_all (event ∷ events) r = apply_all events (apply event r)

  -- What the events leave of a tile, told without a dict.
  abbrev pub last_verdict :
      List (Event F K)
      → K
      → Option (TileVerificationResult F K)
      → Option (TileVerificationResult F K)
  last_verdict [] k known = known
  last_verdict (added result ∷ events) k known =
      last_verdict events k (if e.beq result.tile_id k then some result else known)
  last_verdict (retired tile_id ∷ events) k known =
      last_verdict events k (if e.beq tile_id k then none else known)

  pub apply_all-HasKeys :
      (events : List (Event F K)) (r : Reducer F K)
      → HasKeys r.latest
      → HasKeys (apply_all events r).latest
  unfolding add retire
  apply_all-HasKeys [] r h = h
  apply_all-HasKeys (added result ∷ events) r h =
      apply_all-HasKeys events (add result r) (insert-HasKeys result.tile_id result r.latest h)
  apply_all-HasKeys (retired tile_id ∷ events) r h =
      apply_all-HasKeys events (retire tile_id r) (remove-HasKeys tile_id r.latest h)

  -- The verdict of a tile after any sequence of add and retire is its last one, and there is none where
  -- the tile was retired after it: a refinement replaces the verdict of its tile and no other.
  pub lookup-apply_all :
      (events : List (Event F K)) (r : Reducer F K) (k : K)
      → lookup k (apply_all events r).latest ≡ last_verdict events k (lookup k r.latest)
  unfolding add retire
  lookup-apply_all [] r k = refl
  lookup-apply_all (added result ∷ events) r k =
      rw (← lookup-insert result.tile_id k result r.latest)
        (lookup-apply_all events (add result r) k)
  lookup-apply_all (retired tile_id ∷ events) r k =
      rw (← lookup-remove tile_id k r.latest) (lookup-apply_all events (retire tile_id r) k)
