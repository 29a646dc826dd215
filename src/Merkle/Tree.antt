-- ===== src/Merkle/Tree.antt =====
-- The Merkle loop of internal/mesh/merkle_balances.go ends with one hash.
use blackchain_node.Prelude.{
  ℕ, zero, suc, ◌+◌, ◌*◌, ◌≤◌, ◌<◌, ◌≡◌, refl, List, [], ◌∷◌, arith, length,
}
use blackchain_node.Platform.{Platform, Bytes}
use blackchain_node.Merkle.{next_level, build}

module _ ⦃p : Platform⦄ where
  length-next_level :
      (l : List Bytes)
      → (length l ≤ 2 * length (next_level l)) × (2 * length (next_level l) ≤ length l + 1)
  unfolding next_level
  length-next_level [] = omega arith
  length-next_level (a ∷ []) = omega arith
  length-next_level (a ∷ b ∷ r) = omega (arith, length-next_level r)

  -- With as many rounds as there are leaves, or more, the loop of `merkleBalancesRoot` ends with
  -- exactly one hash, where there is a leaf at all.
  pub length-build :
      (fuel : ℕ) (l : List Bytes) → 0 < length l → length l ≤ fuel → length (build fuel l) ≡ 1
  unfolding build
  length-build zero l h k = absurd (omega arith)
  length-build (suc f) [] h k = absurd (omega arith)
  length-build (suc f) (a ∷ []) h k = refl
  length-build (suc f) (a ∷ b ∷ r) h k =
      let bounds = length-next_level (a ∷ b ∷ r) in
      length-build f (next_level (a ∷ b ∷ r)) (omega arith) (omega arith)
