-- ===== src/Base/Keys.antt =====
-- Dicts with one entry for each key, as the operations keep them, and what a count of entries says of
-- the values that the dict finds.
use mathlib.Core.Path.{◌≡◌, refl, ap}
use mathlib.Core.Logic.{inl, inr}
use mathlib.Core.Bool.{Bool, true, false}
use mathlib.Core.Option.{some}
use mathlib.Core.List.{[], ◌∷◌}
use native.Mathlib.Omega.{arith}
use Prim.Native.Nat.{◌<◌}
use open_litho_hub.Base.Tests.{Bool-cases}
use open_litho_hub.Base.Dict.{
  Eq, Dict, lookup, insert, remove, has_key, has_key-insert, has_key-lookup, count_values,
}

module _ {K V : Type 0} ⦃e : Eq K⦄ where
  abbrev pub HasKeys : Dict K V → Type 0
  HasKeys [] = Unit
  HasKeys ((k, v) ∷ m) = (has_key k m ≡ false) × HasKeys m

  has_key-remove : (k j : K) (m : Dict K V) → has_key j m ≡ false → has_key j (remove k m) ≡ false
  unfolding has_key remove
  has_key-remove k j [] h = refl
  has_key-remove k j ((i, w) ∷ m) h = ground (arith, has_key-remove k j m)

  pub insert-HasKeys : (k : K) (v : V) (m : Dict K V) → HasKeys m → HasKeys (insert k v m)
  unfolding insert has_key
  insert-HasKeys k v [] h = (refl, tt)
  insert-HasKeys k v ((j, w) ∷ m) h =
      ground
        (arith, h, insert-HasKeys k v m h.1, has_key-insert k j v m, e.beq_iff k j, e.beq_iff j k)

  pub remove-HasKeys : (k : K) (m : Dict K V) → HasKeys m → HasKeys (remove k m)
  unfolding remove has_key
  remove-HasKeys k [] h = tt
  remove-HasKeys k ((j, w) ∷ m) h = ground (arith, h, remove-HasKeys k m h.1, has_key-remove k j m)

  lookup-behind :
      (j : K) (w : V) (m : Dict K V) (k : K) (v : V)
      → has_key j m ≡ false
      → lookup k m ≡ some v
      → lookup k ((j, w) ∷ m) ≡ some v
  unfolding lookup
  lookup-behind j w m k v fresh found =
      ground (arith, e.beq_iff j k, has_key-lookup j m fresh, ap (λ i. lookup i m))

module _ {K V : Type 0} ⦃e : Eq K⦄ (p : V → Bool) where
  -- A value that passes the test is found under its key.
  pub count_values-found :
      (m : Dict K V)
      → HasKeys m
      → 0 < count_values p m
      → (k : K) × (v : V) × (lookup k m ≡ some v) × (p v ≡ true)
  count_values-found [] h some_value = absurd (omega arith)
  count_values-found ((j, w) ∷ m) h some_value = elim (Bool-cases (p w)) [
    | inl t ↦ (j, w, (unfold lookup in ground (arith, e.beq_iff j j)), t)
    | inr f ↦
        let (k, v, found, passes) = count_values-found m h.1 (ground arith) in
        (k, v, lookup-behind j w m k v h.0 found, passes)
  ]

  pub found-count_values :
      (m : Dict K V) (k : K) (v : V) → lookup k m ≡ some v → p v ≡ true → 0 < count_values p m
  unfolding lookup
  found-count_values [] k v found passes = absurd (ground arith)
  found-count_values ((j, w) ∷ m) k v found passes = ground (arith, found-count_values m k v)
