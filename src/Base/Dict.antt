-- ===== src/Base/Dict.antt =====
-- Python's `dict` and `set` over any keys with a Boolean equality: an association list in insertion
-- order. Assigning to a key that is there keeps its place.
use mathlib.Core.Path.{◌≡◌, refl}
use mathlib.Core.Logic.{◌↔◌}
use mathlib.Core.Bool.{Bool, true, false, ◌||◌}
use mathlib.Core.Option.{Option, none, some}
use mathlib.Core.List.{List, [], ◌∷◌}
use native.Mathlib.Omega.{arith}
use Prim.Native.Nat.{ℕ, ◌+◌, ◌≤◌}
use open_litho_hub.Base.Lists.{count_by}
use open_litho_hub.Base.Tests.{if◌then◌else◌, ◌==◌, ==_iff, tally}

pub record Eq {ℓ} (A : Type ℓ) : Type ℓ where
  pub beq : A → A → Bool
  pub beq_iff : (a b : A) → (beq a b ≡ true) ↔ (a ≡ b)

instance abbrev pub nat_eq : Eq ℕ
nat_eq = record { beq = ◌==◌; beq_iff = ==_iff }

abbrev pub Dict {ℓ κ} : Type ℓ → Type κ → Type (ℓ ⊔ κ)
Dict K V = List (K × V)

module _ {ℓ} {K : Type ℓ} ⦃e : Eq K⦄ where
  unfoldable pub mem : K → List K → Bool
  mem k [] = false
  mem k (j ∷ js) = e.beq j k || mem k js

  -- set.discard
  unfoldable pub discard : K → List K → List K
  discard k [] = []
  discard k (j ∷ js) = let rest = discard k js in if e.beq j k then rest else j ∷ rest

  -- set.add
  unfoldable pub add : K → List K → List K
  unfolding mem
  add k js = if mem k js then js else k ∷ js

  pub mem-discard :
      (k j : K) (js : List K) → mem j (discard k js) ≡ (if e.beq k j then false else mem j js)
  unfolding mem discard
  mem-discard k j [] = ground arith
  mem-discard k j (i ∷ js) =
      ground (arith, mem-discard k j js, e.beq_iff k j, e.beq_iff i k, e.beq_iff i j)

  pub mem-add : (k j : K) (js : List K) → mem j (add k js) ≡ (if e.beq k j then true else mem j js)
  unfolding add mem
  mem-add k j js = ground (arith, e.beq_iff k j)

module _ {ℓ κ} {K : Type ℓ} {V : Type κ} ⦃e : Eq K⦄ where
  unfoldable pub lookup : K → Dict K V → Option V
  lookup k [] = none
  lookup k ((j, v) ∷ m) = if e.beq j k then some v else lookup k m

  unfoldable pub insert : K → V → Dict K V → Dict K V
  insert k v [] = (k, v) ∷ []
  insert k v ((j, w) ∷ m) = if e.beq j k then (j, v) ∷ m else (j, w) ∷ insert k v m

  -- `k in d`
  unfoldable pub has_key : K → Dict K V → Bool
  has_key k [] = false
  has_key k ((j, v) ∷ m) = e.beq j k || has_key k m

  -- dict.pop(k, None)
  unfoldable pub remove : K → Dict K V → Dict K V
  remove k [] = []
  remove k ((j, w) ∷ m) = let rest = remove k m in if e.beq j k then rest else (j, w) ∷ rest

  pub lookup-insert :
      (k j : K) (v : V) (m : Dict K V)
      → lookup j (insert k v m) ≡ (if e.beq k j then some v else lookup j m)
  unfolding lookup insert
  lookup-insert k j v [] = refl
  lookup-insert k j v ((i, w) ∷ m) =
      ground (arith, lookup-insert k j v m, e.beq_iff k j, e.beq_iff i k, e.beq_iff i j)

  pub lookup-remove :
      (k j : K) (m : Dict K V) → lookup j (remove k m) ≡ (if e.beq k j then none else lookup j m)
  unfolding lookup remove
  lookup-remove k j [] = ground arith
  lookup-remove k j ((i, w) ∷ m) =
      ground (arith, lookup-remove k j m, e.beq_iff k j, e.beq_iff i k, e.beq_iff i j)

  pub has_key-insert :
      (k j : K) (v : V) (m : Dict K V)
      → has_key j (insert k v m) ≡ (if e.beq k j then true else has_key j m)
  unfolding has_key insert
  has_key-insert k j v [] = ground arith
  has_key-insert k j v ((i, w) ∷ m) =
      ground (arith, has_key-insert k j v m, e.beq_iff k j, e.beq_iff i k, e.beq_iff i j)

  -- A key is there exactly if it has a value.
  pub has_key-lookup : (k : K) (m : Dict K V) → has_key k m ≡ false → lookup k m ≡ none
  unfolding has_key lookup
  has_key-lookup k [] h = refl
  has_key-lookup k ((j, v) ∷ m) h = ground (arith, has_key-lookup k m)

  pub lookup-has_key : (k : K) (m : Dict K V) → lookup k m ≡ none → has_key k m ≡ false
  unfolding has_key lookup
  lookup-has_key k [] h = refl
  lookup-has_key k ((j, v) ∷ m) h = ground (arith, lookup-has_key k m)

pub ruleset dict_laws = (mem-discard, mem-add, lookup-insert, lookup-remove)

-- The number of values of a dict that pass a test.
abbrev pub count_values {ℓ κ} : {K : Type ℓ} {V : Type κ} → (V → Bool) → Dict K V → ℕ
count_values p m = count_by (λ (_, v). p v) m

module _ {ℓ κ} {K : Type ℓ} {V : Type κ} ⦃e : Eq K⦄ (p : V → Bool) where
  pub count_values-insert_new :
      (k : K) (v : V) (m : Dict K V)
      → lookup k m ≡ none
      → count_values p (insert k v m) ≡ count_values p m + tally (p v)
  unfolding lookup insert
  count_values-insert_new k v [] h = omega arith
  count_values-insert_new k v ((j, w) ∷ m) h = ground (arith, count_values-insert_new k v m)

  pub count_values-insert_old :
      (k : K) (v old : V) (m : Dict K V)
      → lookup k m ≡ some old
      → count_values p (insert k v m) + tally (p old) ≡ count_values p m + tally (p v)
  unfolding lookup insert
  count_values-insert_old k v old [] h = absurd (ground arith)
  count_values-insert_old k v old ((j, w) ∷ m) h = ground (arith, count_values-insert_old k v old m)

  pub count_values-remove : (k : K) (m : Dict K V) → count_values p (remove k m) ≤ count_values p m
  unfolding remove
  count_values-remove k [] = omega arith
  count_values-remove k ((j, w) ∷ m) = ground (arith, count_values-remove k m)
