-- ===== src/Merkle/Text.antt =====
-- The text of the balances root (internal/mesh/chain_core.go) is not empty.
use blackchain_node.Prelude.{ℕ, zero, suc, String, false, List, [], ◌∷◌, ◌≡◌, All, map, length}
use blackchain_node.Types.{Account}
use blackchain_node.Platform.{Platform, Bytes, AccountRow}
use blackchain_node.Dict.{Map}
use blackchain_node.Signing.{is_empty}
use blackchain_node.Merkle.{
  nonzero_rows, sort_rows, leaf, next_level, build, root_of, merkle_balances_root,
}

module _ ⦃p : Platform⦄ where
  abbrev HasText : Bytes → Type 0
  HasText b = is_empty (p.hex_encode b) ≡ false

  -- No hash is written as the empty text.
  abbrev pub HasHashTexts : Type 0
  HasHashTexts = (raw : Bytes) → is_empty (p.hex_encode (p.sha256 raw)) ≡ false

  leaves-HasText : HasHashTexts → (rows : List AccountRow) → All HasText (map leaf rows)
  unfolding leaf
  leaves-HasText h [] = tt
  leaves-HasText h (r ∷ rows) = (h _, leaves-HasText h rows)

  next_level-HasText : HasHashTexts → (level : List Bytes) → All HasText (next_level level)
  unfolding next_level
  next_level-HasText h [] = tt
  next_level-HasText h (l ∷ []) = (h _, tt)
  next_level-HasText h (l ∷ r ∷ rest) = (h _, next_level-HasText h rest)

  build-HasText :
      HasHashTexts
      → (fuel : ℕ) (level : List Bytes) → All HasText level
      → All HasText (build fuel level)
  unfolding build
  build-HasText h zero level k = k
  build-HasText h (suc fuel) [] k = tt
  build-HasText h (suc fuel) (l ∷ []) k = k
  build-HasText h (suc fuel) (l ∷ r ∷ rest) k =
      build-HasText h fuel (next_level (l ∷ r ∷ rest)) (next_level-HasText h (l ∷ r ∷ rest))

  root-HasText :
      HasHashTexts → (level : List Bytes) → All HasText level → is_empty (root_of level) ≡ false
  root-HasText h [] k = h []
  root-HasText h (l ∷ level) k = k.0

  pub merkle_balances_root-HasText :
      HasHashTexts
      → (accounts : Map String Account) → is_empty (merkle_balances_root accounts) ≡ false
  unfolding merkle_balances_root
  merkle_balances_root-HasText h accounts =
      let leaves = map leaf (sort_rows (nonzero_rows accounts)) in
      root-HasText h (build (length leaves) leaves) (
        build-HasText h (length leaves) leaves
          (leaves-HasText h (sort_rows (nonzero_rows accounts))))
