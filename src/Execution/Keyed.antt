-- ===== src/Execution/Keyed.antt =====
-- The accounts of internal/mesh/chain_core.go keep one entry for each address, whatever block is
-- executed on them.
use blackchain_node.Prelude.{
  String, List, [], ◌∷◌, arith, ℤ, Bool-cases, Option-cases, inl, inr, ◌||◌, leb_ℤ, pos, not,
  str_eq, ltb_ℤ, ◌&&◌,
}
use blackchain_node.Types.{Tx, Account, Block, Result-cases}
use blackchain_node.Signing.{is_empty}
use blackchain_node.Dict.{Map, lookup, string_Eq}
use blackchain_node.Dict.Keys.{IsKeyed, insert-IsKeyed}
use blackchain_node.Chain.{get_or_create_account, zero_account}
use blackchain_node.Fees.{fee_split_active, split_fees, treasury_addr}
use blackchain_node.Execution.{
  Exec, touch, exec_tx, exec_txs, write_back, add_balance, pay_rewards, calc_tx, calc_txs,
  calc_rewards, calc_accounts, calc_fees, settle, recipient, expected_reward,
}

get_or_create-IsKeyed :
    (m : Map String Account) (a : String) → IsKeyed m → IsKeyed (get_or_create_account m a).1
unfolding get_or_create_account
get_or_create-IsKeyed m a h = elim (Option-cases (lookup a m)) [
  | inl missing ↦ rw (get_or_create_account, missing) (insert-IsKeyed a zero_account m h)
  | inr (v, found) ↦ rw (get_or_create_account, found) h
]

touch-IsKeyed : (a : String) (st : Exec) → IsKeyed st.accounts → IsKeyed (touch a st).1.accounts
unfolding touch
touch-IsKeyed a st h = elim (Option-cases (lookup a st.snaps)) [
  | inl missing ↦ rw (touch, missing) (get_or_create-IsKeyed st.accounts a h)
  | inr (v, found) ↦ rw (touch, found) h
]

exec_tx-IsKeyed : (tx : Tx) (st : Exec) → IsKeyed st.accounts → IsKeyed (exec_tx tx st).1.accounts
unfolding exec_tx settle
exec_tx-IsKeyed tx st h =
    let first = touch-IsKeyed tx.from st h in
    let second = touch-IsKeyed tx.to (touch tx.from st).1 first in ground (arith, first, second)

pub exec_txs-IsKeyed :
    (txs : List Tx) (st : Exec) → IsKeyed st.accounts → IsKeyed (exec_txs txs st).1.accounts
unfolding exec_txs
exec_txs-IsKeyed [] st h = h
exec_txs-IsKeyed (tx ∷ txs) st h = elim (Result-cases (exec_tx tx st).0) [
  | inl (u, good) ↦
      rw (good, exec_txs) (exec_txs-IsKeyed txs (exec_tx tx st).1 (exec_tx-IsKeyed tx st h))
  | inr (e, bad) ↦ rw (bad, exec_txs) (exec_tx-IsKeyed tx st h)
]

pub write_back-IsKeyed :
    (snaps accounts : Map String Account) → IsKeyed accounts → IsKeyed (write_back snaps accounts)
unfolding write_back
write_back-IsKeyed [] accounts h = h
write_back-IsKeyed ((a, v) ∷ snaps) accounts h =
    insert-IsKeyed a v (write_back snaps accounts) (write_back-IsKeyed snaps accounts h)

add_balance-IsKeyed :
    (a : String) (n : ℤ) (m : Map String Account) → IsKeyed m → IsKeyed (add_balance a n m)
unfolding add_balance
add_balance-IsKeyed a n m h = insert-IsKeyed a _ _ (get_or_create-IsKeyed m a h)

pub pay_rewards-IsKeyed :
    (b : Block) (total : ℤ) (m : Map String Account) → IsKeyed m → IsKeyed (pay_rewards b total m)
unfolding pay_rewards
pay_rewards-IsKeyed b total m h =
    let rewarded = add_balance-IsKeyed (recipient b) b.reward m h in
    elim (Bool-cases (fee_split_active b.height && ltb_ℤ (pos 0) (split_fees total).1)) [
      | inr off ↦ rw off rewarded
      | inl on ↦ rw on (add_balance-IsKeyed treasury_addr (split_fees total).1 _ rewarded)
    ]

calc_tx-IsKeyed : (tx : Tx) (m : Map String Account) → IsKeyed m → IsKeyed (calc_tx tx m)
unfolding calc_tx
calc_tx-IsKeyed tx m h =
    let first = get_or_create-IsKeyed m tx.from h in
    let second = get_or_create-IsKeyed (get_or_create_account m tx.from).1 tx.to first in
    elim (Bool-cases
      (is_empty tx.from || is_empty tx.to || str_eq tx.from tx.to || leb_ℤ tx.amount (pos 0))) [
        | inl skipped ↦ rw skipped h
        | inr taken ↦ rw taken (insert-IsKeyed tx.to _ _ (insert-IsKeyed tx.from _ _ second))
      ]

calc_txs-IsKeyed : (txs : List Tx) (m : Map String Account) → IsKeyed m → IsKeyed (calc_txs txs m)
unfolding calc_txs
calc_txs-IsKeyed [] m h = h
calc_txs-IsKeyed (tx ∷ txs) m h = calc_txs-IsKeyed txs (calc_tx tx m) (calc_tx-IsKeyed tx m h)

calc_rewards-IsKeyed :
    (b : Block) (total : ℤ) (m : Map String Account) → IsKeyed m → IsKeyed (calc_rewards b total m)
unfolding calc_rewards
calc_rewards-IsKeyed b total m h =
    let reward = expected_reward b.height total in
    let fees = (split_fees total).1 in
    let treasury = add_balance-IsKeyed treasury_addr fees m h in
    let both =
      add_balance-IsKeyed (recipient b) reward (add_balance treasury_addr fees m) treasury in
    let one = add_balance-IsKeyed (recipient b) reward m h in
    elim (Bool-cases (fee_split_active b.height && ltb_ℤ (pos 0) fees)) [
      | inl split ↦ elim (Bool-cases (ltb_ℤ (pos 0) reward && not (is_empty (recipient b)))) [
        | inl paid ↦ rw (calc_rewards, split, paid) both
        | inr free ↦ rw (calc_rewards, split, free) treasury
      ]
      | inr off ↦ elim (Bool-cases (ltb_ℤ (pos 0) reward && not (is_empty (recipient b)))) [
        | inl paid ↦ rw (calc_rewards, off, paid) one
        | inr free ↦ rw (calc_rewards, off, free) h
      ]
    ]

pub calc_accounts-IsKeyed :
    (b : Block) (m : Map String Account) → IsKeyed m → IsKeyed (calc_accounts b m)
unfolding calc_accounts
calc_accounts-IsKeyed b m h =
    calc_rewards-IsKeyed b (calc_fees b.txs (pos 0)) (calc_txs b.txs m) (calc_txs-IsKeyed b.txs m h)
