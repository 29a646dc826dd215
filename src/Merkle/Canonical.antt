-- ===== src/Merkle/Canonical.antt =====
-- The root of internal/mesh/merkle_balances.go depends on the ledger only: neither on the order of
-- the map's entries nor on accounts that are zero.
use blackchain_node.Prelude.{
  String, str_eq, str_eq_iff, Option, none, some, [], ◌∷◌, ◌≡◌, refl, sym, ap, ◌∙◌, arith,
  Bool-cases, inl, inr, if◌then◌else◌, pos, eqb_ℤ, ◌&&◌,
}
use blackchain_node.Types.{Account}
use blackchain_node.Platform.{Platform, AccountRow}
use blackchain_node.Dict.{Map, lookup, string_Eq}
use blackchain_node.Dict.Keys.{IsKeyed}
use blackchain_node.Chain.{get_account}
use blackchain_node.Ledger.{Ledger, ledger_of}
use blackchain_node.Merkle.{nonzero_rows, sort_rows, merkle_balances_root}
use blackchain_node.Merkle.Rows.{
  row_at, IsDistinctRows, sort_rows-at, sort_rows-IsSorted, sorted_unique,
}

-- The row of an address, if its account is not zero.
abbrev nonzero_row : String → Account → Option AccountRow
nonzero_row a v =
    if eqb_ℤ v.balance (pos 0) && eqb_ℤ v.nonce (pos 0)
    then none
    else some (record { addr = a; bal = v.balance; nonce = v.nonce })

nonzero_rows-at :
    (a : String) (m : Map String Account)
    → IsKeyed m
    → row_at a (nonzero_rows m) ≡ nonzero_row a (ledger_of m a)
unfolding nonzero_rows lookup get_account
nonzero_rows-at a [] h = refl
nonzero_rows-at a ((k, v) ∷ m) h = elim (Bool-cases (str_eq k a)) [
  | inr other ↦ ground (arith, nonzero_rows-at a m h.1)
  | inl here ↦
      let e : k ≡ a = (str_eq_iff k a).0 here in
      let missing : lookup a m ≡ none = ap (λ i. lookup i m) (sym e) ∙ h.0 in
      ground (arith, nonzero_rows-at a m h.1, missing, e, here)
]

nonzero_rows-IsDistinctRows : (m : Map String Account) → IsKeyed m → IsDistinctRows (nonzero_rows m)
unfolding nonzero_rows get_account
nonzero_rows-IsDistinctRows [] h = tt
nonzero_rows-IsDistinctRows ((k, v) ∷ m) h =
    let rest = nonzero_rows-IsDistinctRows m h.1 in
    let missing : row_at k (nonzero_rows m) ≡ none =
      nonzero_rows-at k m h.1 ∙ rw (get_account, h.0) refl in
    elim (Bool-cases (eqb_ℤ v.balance (pos 0) && eqb_ℤ v.nonce (pos 0))) [
      | inl zero ↦ rw (nonzero_rows, zero) rest
      | inr other ↦ rw (nonzero_rows, other) (missing, rest)
    ]

module _ ⦃p : Platform⦄ where
  -- The balances root is a function of the ledger: two maps of accounts with one entry for each
  -- address that read the same at every address have the same root, in whatever order their entries
  -- stand and whichever zero accounts they hold.
  pub merkle_balances_root-ledger :
      (m m' : Map String Account)
      → IsKeyed m
      → IsKeyed m'
      → ledger_of m ≡ ledger_of m'
      → merkle_balances_root m ≡ merkle_balances_root m'
  unfolding merkle_balances_root
  merkle_balances_root-ledger m m' h h' same =
      let rows = sort_rows (nonzero_rows m) in
      let rows' = sort_rows (nonzero_rows m') in
      let agree : rows ≡ rows' =
        sorted_unique rows rows'
          (sort_rows-IsSorted (nonzero_rows m) (nonzero_rows-IsDistinctRows m h))
          (sort_rows-IsSorted (nonzero_rows m') (nonzero_rows-IsDistinctRows m' h'))
          (λ a.
            sort_rows-at a (nonzero_rows m)
            ∙ (nonzero_rows-at a m h
                ∙ (ap (λ (l : Ledger). nonzero_row a (l a)) same
                    ∙ (sym (nonzero_rows-at a m' h') ∙ sym (sort_rows-at a (nonzero_rows m')))))) in
      rw agree refl
