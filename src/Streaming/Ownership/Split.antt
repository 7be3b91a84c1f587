-- ===== src/Streaming/Ownership/Split.antt =====
-- _split_axis: consecutive spans from `lo` to `hi`.
use open_litho_hub.Base.{
  ℕ, zero, suc, ◌+◌, ◌-◌, ◌*◌, ◌/◌, ◌%◌, ◌≤◌, ◌<◌, ◌≡◌, refl, List, [], ◌∷◌, min, arith,
}
use open_litho_hub.Streaming.Ownership.{split_from, split_axis}

-- The spans follow one another from `a` to `b`.
abbrev pub Chain : (a : ℕ) → List (ℕ × ℕ) → (b : ℕ) → Type 0
Chain a [] b = a ≡ b
Chain a ((x0, x1) ∷ xs) b = (x0 ≡ a) × (x0 ≤ x1) × Chain x1 xs b

split_from-Chain :
    (left i rem base edge end : ℕ)
    → end + min i rem ≡ edge + left * base + min (i + left) rem
    → Chain edge (split_from left i rem base edge) end
unfolding split_from
split_from-Chain zero i rem base edge end e = omega arith
split_from-Chain (suc left) i rem base edge end e =
    (refl, omega arith, split_from-Chain left (i + 1) rem base _ end (ground arith))

-- For every span the parts follow one another from its start to its end.
pub split_axis-Chain :
    (lo hi parts : ℕ) → lo ≤ hi → 0 < parts → Chain lo (split_axis lo hi parts) hi
unfolding split_axis
split_axis-Chain lo hi parts h p =
    split_from-Chain parts 0 ((hi - lo) % parts) ((hi - lo) / parts) lo hi (grind arith)
