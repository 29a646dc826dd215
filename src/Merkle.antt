-- ===== src/Merkle.antt =====
-- The Merkle root over balances and nonces (internal/mesh/merkle_balances.go): leaves in the order
-- of their addresses, accounts of zero left out, the last leaf doubled at an odd level.
use Prim.Native.String.{compare}
use Prim.Native.Nat.{Ordering}
use blackchain_node.Prelude.{
  ℕ, zero, suc, String, ◌<>◌, Bool, true, false, not, ◌&&◌, List, [], ◌∷◌, ◌++◌, ℤ, pos, eqb_ℤ,
  length, map, if◌then◌else◌,
}
use blackchain_node.Types.{Account}
use blackchain_node.Platform.{Platform, Bytes, AccountRow}
use blackchain_node.Dict.{Map}
pub mod Rows
pub mod Canonical
pub mod Order
pub mod Tree
pub mod Text

-- `a < b` on texts
abbrev pub str_lt : String → String → Bool
str_lt a b = elim (compare a b) [ Ordering.lt ↦ true | _ ↦ false ]

-- The rows of the accounts that are not zero.
unfoldable pub nonzero_rows : Map String Account → List AccountRow
nonzero_rows [] = []
nonzero_rows ((addr, a) ∷ m) =
    let row : AccountRow = record { addr = addr; bal = a.balance; nonce = a.nonce } in
    if eqb_ℤ a.balance (pos 0) && eqb_ℤ a.nonce (pos 0)
    then nonzero_rows m
    else row ∷ nonzero_rows m

unfoldable pub insert_row : AccountRow → List AccountRow → List AccountRow
insert_row r [] = r ∷ []
insert_row r (s ∷ rows) = if str_lt s.addr r.addr then s ∷ insert_row r rows else r ∷ s ∷ rows

-- `sort.Slice` by address. The addresses of a map differ, so every sort gives this list.
unfoldable pub sort_rows : List AccountRow → List AccountRow
unfolding insert_row
sort_rows [] = []
sort_rows (r ∷ rows) = insert_row r (sort_rows rows)

module _ ⦃p : Platform⦄ where
  unfoldable pub leaf : AccountRow → Bytes
  leaf r =
      p.sha256
        (p.bytes (((((r.addr <> "\n") <> p.format_int r.bal) <> "\n") <> p.format_int r.nonce)))

  -- One round of the loop: neighbours are hashed together.
  unfoldable pub next_level : List Bytes → List Bytes
  next_level [] = []
  next_level (left ∷ []) = p.sha256 (left ++ left) ∷ []
  next_level (left ∷ right ∷ rest) = p.sha256 (left ++ right) ∷ next_level rest

  -- `for len(leaves) > 1`
  unfoldable pub build : ℕ → List Bytes → List Bytes
  unfolding next_level
  build zero leaves = leaves
  build (suc fuel) [] = []
  build (suc fuel) (l ∷ []) = l ∷ []
  build (suc fuel) (l ∷ r ∷ leaves) = build fuel (next_level (l ∷ r ∷ leaves))

  abbrev root_of : List Bytes → String
  root_of [] = p.hex_encode (p.sha256 [])
  root_of (l ∷ leaves) = p.hex_encode l

  -- `merkleBalancesRoot`, with as many rounds as there are leaves
  unfoldable pub merkle_balances_root : Map String Account → String
  unfolding nonzero_rows sort_rows leaf build
  merkle_balances_root accounts =
      let leaves = map leaf (sort_rows (nonzero_rows accounts)) in
      root_of (build (length leaves) leaves)
