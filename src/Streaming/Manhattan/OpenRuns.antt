-- ===== src/Streaming/Manhattan/OpenRuns.antt =====
-- The open boxes of a core: after each row they are those of the runs of that row.
use open_litho_hub.Base.{
  ℕ, ◌+◌, ◌≡◌, ◌∙◌, refl, ap, true, false, ◌&&◌, ◌||◌, List, [], ◌∷◌, if◌then◌else◌, arith,
  Bool-cases, inl, inr, sum_by,
}
use open_litho_hub.Base.Dict.{Eq, Dict, mem, insert, remove, has_key, has_key-insert}
use open_litho_hub.Base.Keys.{HasKeys, insert-HasKeys, remove-HasKeys}
use open_litho_hub.Streaming.Ownership.Ledger.{Distinct}
use open_litho_hub.Streaming.Manhattan.{Run, run_eq, same_run_iff, OpenRuns, close_runs, open_new}

module _ {K V : Type 0} ⦃e : Eq K⦄ where
  -- The sum of a number over the keys.
  abbrev pub sum_keys : (K → ℕ) → Dict K V → ℕ
  sum_keys f [] = 0
  sum_keys f ((k, v) ∷ m) = f k + sum_keys f m

  remove-fresh : (k : K) (m : Dict K V) → has_key k m ≡ false → remove k m ≡ m
  unfolding remove has_key
  remove-fresh k [] h = refl
  remove-fresh k ((j, v) ∷ m) h = ground (arith, remove-fresh k m)

  sum_keys-remove :
      (f : K → ℕ) (k : K) (m : Dict K V)
      → HasKeys m
      → sum_keys f m ≡ (if has_key k m then f k else 0) + sum_keys f (remove k m)
  unfolding remove has_key
  sum_keys-remove f k [] keys = omega arith
  sum_keys-remove f k ((j, v) ∷ m) keys = elim (Bool-cases (e.beq j k)) [
    | inl t ↦
        let same : j ≡ k = (e.beq_iff j k).0 t in
        rw (t, remove-fresh k m (rw same at (keys.0))) (omega (arith, ap f same))
    | inr other ↦ rw other (omega (arith, sum_keys-remove f k m keys.1))
  ]

  has_key-remove :
      (k j : K) (m : Dict K V) → has_key j (remove k m) ≡ (if e.beq k j then false else has_key j m)
  unfolding remove has_key
  has_key-remove k j [] = ground arith
  has_key-remove k j ((i, v) ∷ m) =
      ground (arith, has_key-remove k j m, e.beq_iff k j, e.beq_iff i k, e.beq_iff i j)

  others :
      (k : K) (ks : List K) (m : Dict K V) (j : K)
      → mem k ks ≡ false
      → has_key j m ≡ mem j (k ∷ ks)
      → (if e.beq k j then false else has_key j m) ≡ mem j ks
  unfolding mem
  others k ks m j fresh same = ground (arith, same, fresh, e.beq_iff k j, ap (λ i. mem i ks))

  -- A dict and a list without repetitions that have the same keys have the same sum.
  pub sum_keys-members :
      (f : K → ℕ) (ks : List K) (m : Dict K V)
      → HasKeys m
      → Distinct ks
      → ((k : K) → has_key k m ≡ mem k ks)
      → sum_keys f m ≡ sum_by f ks
  unfolding mem has_key
  sum_keys-members f [] [] keys distinct same = refl
  sum_keys-members f [] ((j, v) ∷ m) keys distinct same =
      absurd (ground (arith, same j, e.beq_iff j j))
  sum_keys-members f (k ∷ ks) m keys distinct same =
      let ih =
        sum_keys-members f ks (remove k m) (remove-HasKeys k m keys) distinct.1
          (λ j. has_key-remove k j m ∙ others k ks m j distinct.0 (same j)) in
      let here : has_key k m ≡ true = ground (arith, same k, e.beq_iff k k) in
      let counted : sum_keys f m ≡ f k + sum_keys f (remove k m) =
        rw here at (sum_keys-remove f k m keys) in
      counted ∙ ap (λ n. f k + n) ih

-- A row's boxes: the keys of the open boxes are the runs.

pub close_runs-has_key :
    (x0 y_end : ℕ) (runs : List Run) (open_runs : OpenRuns) (k : Run)
    → has_key k (close_runs x0 y_end runs open_runs).1 ≡ (has_key k open_runs && mem k runs)
unfolding close_runs has_key
close_runs-has_key x0 y_end runs [] k = refl
close_runs-has_key x0 y_end runs ((key, y_start) ∷ open_runs) k =
    let ih = close_runs-has_key x0 y_end runs open_runs k in
    ground (arith, ih, same_run_iff key k, ap (λ i. mem i runs))

pub close_runs-HasKeys :
    (x0 y_end : ℕ) (runs : List Run) (open_runs : OpenRuns)
    → HasKeys open_runs
    → HasKeys (close_runs x0 y_end runs open_runs).1
unfolding close_runs
close_runs-HasKeys x0 y_end runs [] keys = tt
close_runs-HasKeys x0 y_end runs ((key, y_start) ∷ open_runs) keys = ground (
  arith,
  close_runs-HasKeys x0 y_end runs open_runs keys.1,
  close_runs-has_key x0 y_end runs open_runs key,
  keys.0,
)

pub open_new-has_key :
    (y : ℕ) (runs : List Run) (open_runs : OpenRuns) (k : Run)
    → has_key k (open_new y runs open_runs) ≡ (mem k runs || has_key k open_runs)
unfolding open_new mem
open_new-has_key y [] open_runs k = refl
open_new-has_key y (key ∷ runs) open_runs k = elim (Bool-cases (has_key key open_runs)) [
  | inl t ↦ rw t (
      open_new-has_key y runs open_runs k
      ∙ ground (arith, same_run_iff key k, t, ap (λ i. has_key i open_runs)))
  | inr f ↦ rw f (
      open_new-has_key y runs (insert key y open_runs) k
      ∙ ground (arith, has_key-insert key k y open_runs))
]

pub open_new-HasKeys :
    (y : ℕ) (runs : List Run) (open_runs : OpenRuns)
    → HasKeys open_runs
    → HasKeys (open_new y runs open_runs)
unfolding open_new
open_new-HasKeys y [] open_runs keys = keys
open_new-HasKeys y (key ∷ runs) open_runs keys = elim (Bool-cases (has_key key open_runs)) [
  | inl t ↦ rw t (open_new-HasKeys y runs open_runs keys)
  | inr f ↦
      rw f (open_new-HasKeys y runs (insert key y open_runs) (insert-HasKeys key y open_runs keys))
]
