-- ===== src/Dict/Size.antt =====
-- The size of a map, `len(m)`, under its operations.
use blackchain_node.Prelude.{suc, ◌≤◌, ◌<◌, ◌≡◌, refl, some, [], ◌∷◌, arith, if◌then◌else◌, length}
use blackchain_node.Dict.Laws.{Eq, Map, lookup, insert, delete, contains}

module _ {ℓ κ} {K : Type ℓ} ⦃e : Eq K⦄ {V : Type κ} where
  pub length-delete_le : (k : K) (m : Map K V) → length (delete k m) ≤ length m
  unfolding delete
  length-delete_le k [] = omega arith
  length-delete_le k ((j, w) ∷ m) = ground (arith, length-delete_le k m)

  -- Deleting a key that is present makes the map smaller.
  pub length-delete_lt :
      (k : K) (v : V) (m : Map K V) → lookup k m ≡ some v → length (delete k m) < length m
  unfolding delete lookup
  length-delete_lt k v [] h = absurd (cc)
  length-delete_lt k v ((j, w) ∷ m) h = ground (arith, length-delete_le k m, length-delete_lt k v m)

  pub length-insert_le : (k : K) (v : V) (m : Map K V) → length m ≤ length (insert k v m)
  unfolding insert
  length-insert_le k v [] = omega arith
  length-insert_le k v ((j, w) ∷ m) = ground (arith, length-insert_le k v m)

  pub length-insert :
      (k : K) (v : V) (m : Map K V)
      → length (insert k v m) ≡ (if contains k m then length m else suc (length m))
  unfolding insert contains lookup
  length-insert k v [] = refl
  length-insert k v ((j, w) ∷ m) = ground (arith, length-insert k v m)
