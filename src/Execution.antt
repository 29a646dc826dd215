-- ===== src/Execution.antt =====
-- `applyBlockLocked` and `calcStateHashWithBlock` of internal/mesh/chain_core.go: the checks of a
-- block, the execution of its transactions on a cache over the accounts, the rewards, and the state
-- root that a block commits to.
use blackchain_node.Prelude.{
  ℕ, ◌+◌, String, str_eq, Bool, true, false, not, ◌&&◌, ◌||◌, Option, none, some, List, [], ◌∷◌,
  ◌++◌, ℤ, pos, ltb, leb_ℤ, ltb_ℤ, eqb_ℤ, length, add64, sub64, ◌==◌, if◌then◌else◌,
}
use blackchain_node.Types.{
  Tx, Account, Block, Error, Result, ok, err, ◌>>=◌, ◌>>◌, reject_if, bad_signature,
  field_too_large, duplicate_tx_in_block, duplicate_sender_nonce, negative_reward, too_many_txs,
  bad_height, bad_prev_hash, missing_time, bad_hash, bad_reward, missing_root, bad_root,
  persist_failed, missing_from_to, from_eq_to, bad_amount, negative_fee, bad_nonce_order,
  insufficient_balance,
}
use blackchain_node.Platform.{Platform}
use blackchain_node.Signing.{
  verify_tx_signature, is_empty, calc_block_hash, validate_block_signature,
}
use blackchain_node.Dict.{Map, lookup, insert, contains, string_Eq, int_Eq}
use blackchain_node.Chain.{
  disk_after, Chain, zero_account, get_account, get_or_create_account, observe_validator,
}
use blackchain_node.Fees.{
  max_block_txs, treasury_addr, fee_split_active, split_fees, block_reward_for_height,
}
use blackchain_node.Mempool.{tx_id, sender_nonce_key, fields_too_large, compact_mempool}
use blackchain_node.Merkle.{merkle_balances_root}
use blackchain_node.Finality.{advance_finality}
pub mod Payments
pub mod Loop
pub mod Root
pub mod Treasury
pub mod Atomicity
pub mod Success
pub mod Applied
pub mod Overflow
pub mod Keyed
pub mod Agreement
pub mod Outcome

-- The accounts and the cache `s` over them, while the transactions are executed, with the sum of
-- the fees so far.
pub record Exec : Type 0 where
  pub accounts : Map String Account
  pub snaps : Map String Account
  pub total_fees : ℤ

-- `touch`: the cached account, and the state after the call
unfoldable pub touch : String → Exec → Account × Exec
touch addr st = elim (lookup addr st.snaps) [
  | some v ↦ (v, st)
  | none ↦
      let (v, accounts) = get_or_create_account st.accounts addr in
      (v, record st { accounts = accounts; snaps = insert addr v st.snaps })
]

-- `if test { return err }` for code that goes on to return a state.
abbrev pub fail_if : Bool → Error → Exec → Result (Unit {0}) × Exec → Result (Unit {0}) × Exec
fail_if true e st rest = (err e, st)
fail_if false e st rest = rest

-- The end of a round: the sender pays and the recipient receives.
unfoldable pub settle : Tx → Account → Account → Exec → Exec
settle tx f t st = record st {
  snaps =
      insert tx.to (record { balance = add64 t.balance tx.amount; nonce = t.nonce })
        (insert tx.from
          (record {
            balance = sub64 f.balance (add64 tx.amount tx.fee);
            nonce = add64 f.nonce (pos 1);
          })
          st.snaps);
  total_fees = add64 st.total_fees tx.fee;
}

-- One round of the loop over the transactions.
unfoldable pub exec_tx : Tx → Exec → Result (Unit {0}) × Exec
exec_tx tx st = fail_if (is_empty tx.from || is_empty tx.to) missing_from_to st (
    fail_if (str_eq tx.from tx.to) from_eq_to st (
      fail_if (leb_ℤ tx.amount (pos 0)) bad_amount st (
        let (f, st1) = touch tx.from st in
        let (t, st2) = touch tx.to st1 in
        fail_if (ltb_ℤ tx.fee (pos 0)) negative_fee st2 (
          fail_if (not (eqb_ℤ tx.nonce f.nonce)) bad_nonce_order st2 (
            fail_if (ltb_ℤ f.balance (add64 tx.amount tx.fee)) insufficient_balance st2
              (ok tt, settle tx f t st2))))))

unfoldable pub exec_txs : List Tx → Exec → Result (Unit {0}) × Exec
exec_txs [] st = (ok tt, st)
exec_txs (tx ∷ txs) st =
    let (r, st') = exec_tx tx st in elim r [ err e ↦ (err e, st') | ok u ↦ exec_txs txs st' ]

-- The loop that writes the cache back; a Go map has no order.
unfoldable pub write_back : Map String Account → Map String Account → Map String Account
write_back [] accounts = accounts
write_back ((addr, v) ∷ snaps) accounts = insert addr v (write_back snaps accounts)

-- `acct := c.getOrCreateAccount(addr); acct.Balance += n`
unfoldable pub add_balance : String → ℤ → Map String Account → Map String Account
add_balance addr n accounts =
    let (a, accounts') = get_or_create_account accounts addr in
    insert addr (record { balance = add64 a.balance n; nonce = a.nonce }) accounts'

-- The payout address, or the producer.
abbrev pub recipient : Block → String
recipient b = if is_empty b.producer_addr then b.producer else b.producer_addr

-- The reward and, from the fork on, the treasury's fees.
unfoldable pub pay_rewards : Block → ℤ → Map String Account → Map String Account
pay_rewards b total_fees accounts =
    let rewarded = add_balance (recipient b) b.reward accounts in
    let treasury_fees = (split_fees total_fees).1 in
    if fee_split_active b.height && ltb_ℤ (pos 0) treasury_fees
    then add_balance treasury_addr treasury_fees rewarded
    else rewarded

-- The reward that `applyBlockLocked` expects of a block.
unfoldable pub expected_reward : ℤ → ℤ → ℤ
expected_reward height total_fees =
    if fee_split_active height
    then add64 (block_reward_for_height height) (split_fees total_fees).0
    else add64 (block_reward_for_height height) total_fees

-- `calcStateHashWithBlock`: one round of its loop, which skips what is malformed
unfoldable pub calc_tx : Tx → Map String Account → Map String Account
calc_tx tx tmp =
    if is_empty tx.from || is_empty tx.to || str_eq tx.from tx.to || leb_ℤ tx.amount (pos 0)
    then tmp
    else (let (from, tmp1) = get_or_create_account tmp tx.from in
        let (to, tmp2) = get_or_create_account tmp1 tx.to in
        insert tx.to (record { balance = add64 to.balance tx.amount; nonce = to.nonce })
          (insert tx.from
            (record {
              balance = sub64 from.balance (add64 tx.amount tx.fee);
              nonce = add64 from.nonce (pos 1);
            })
            tmp2))

unfoldable pub calc_txs : List Tx → Map String Account → Map String Account
calc_txs [] tmp = tmp
calc_txs (tx ∷ txs) tmp = calc_txs txs (calc_tx tx tmp)

unfoldable pub calc_fees : List Tx → ℤ → ℤ
calc_fees [] total = total
calc_fees (tx ∷ txs) total = calc_fees txs (
    if is_empty tx.from || is_empty tx.to || str_eq tx.from tx.to || leb_ℤ tx.amount (pos 0)
    then total
    else add64 total tx.fee)

-- The rewards in `calcStateHashWithBlock`.
unfoldable pub calc_rewards : Block → ℤ → Map String Account → Map String Account
calc_rewards b total_fees tmp =
    let reward = expected_reward b.height total_fees in
    let treasury_fees = (split_fees total_fees).1 in
    let paid =
      if fee_split_active b.height && ltb_ℤ (pos 0) treasury_fees
      then add_balance treasury_addr treasury_fees tmp
      else tmp in
    if ltb_ℤ (pos 0) reward && not (is_empty (recipient b))
    then add_balance (recipient b) reward paid
    else paid

-- The accounts whose root `calcStateHashWithBlock` returns.
unfoldable pub calc_accounts : Block → Map String Account → Map String Account
calc_accounts b accounts = calc_rewards b (calc_fees b.txs (pos 0)) (calc_txs b.txs accounts)

module _ ⦃p : Platform⦄ where
  -- `calcStateHashWithBlock`
  unfoldable pub calc_state_hash_with_block : Block → Chain → String
  calc_state_hash_with_block b c = merkle_balances_root (calc_accounts b c.accounts)

  -- The first loop over the transactions: the sum of the fees.
  unfoldable pub scan_txs : List Tx → Map String (Unit {0}) → Map String (Unit {0}) → ℤ → Result ℤ
  scan_txs [] ids nonces total = ok total
  scan_txs (tx ∷ txs) ids nonces total =
      let rest =
        scan_txs txs (insert (tx_id tx) tt ids) (insert (sender_nonce_key tx) tt nonces)
          (add64 total tx.fee) in
      do
        reject_if (not (verify_tx_signature tx)) bad_signature
        reject_if (fields_too_large tx) field_too_large
        reject_if (contains (tx_id tx) ids) duplicate_tx_in_block
        reject_if (contains (sender_nonce_key tx) nonces) duplicate_sender_nonce
        rest

  -- The checks up to the block's time: the sum of the fees.
  unfoldable pub check_block : Block → Chain → Result ℤ
  check_block b c = do
    reject_if (ltb_ℤ b.reward (pos 0)) negative_reward
    reject_if (ltb max_block_txs (length b.txs)) too_many_txs
    total ← scan_txs b.txs [] [] (pos 0)
    reject_if (not (eqb_ℤ b.height (add64 c.height (pos 1)))) bad_height
    reject_if (not (str_eq b.prev_hash c.tip)) bad_prev_hash
    reject_if (b.time_utc == 0) missing_time
    ok total

  -- The checks of hash, signature, reward and state root.
  unfoldable pub check_seal : Block → ℤ → Chain → Result (Unit {0})
  check_seal b total c = do
    reject_if (is_empty b.hash || not (str_eq b.hash (calc_block_hash b))) bad_hash
    validate_block_signature b
    reject_if (not (eqb_ℤ b.reward (expected_reward b.height total))) bad_reward
    reject_if (is_empty b.balances_root) missing_root
    reject_if (not (str_eq b.balances_root (calc_state_hash_with_block b c))) bad_root

  -- The end of `applyBlockLocked`, after the transactions.
  unfoldable pub commit_block : Block → Exec → Chain → Chain
  commit_block b st c =
      let c1 = record c {
        accounts = pay_rewards b st.total_fees (write_back st.snaps st.accounts);
        blocks = insert b.height b c.blocks;
        height = b.height;
        tip = b.hash;
      } in
      record (advance_finality (compact_mempool c1).1) { tip = b.hash }

  -- The block is on disk; its transactions are executed. An error leaves the accounts with what
  -- `touch` created.
  unfoldable pub execute_block : Block → ℤ → Chain → Result (Unit {0}) × Chain
  execute_block b total c =
      let (r, st) =
        exec_txs b.txs (record { accounts = c.accounts; snaps = []; total_fees = total }) in
      elim r [
        | err e ↦ (err e, record c { accounts = st.accounts })
        | ok u ↦ (ok tt, commit_block b st c)
      ]

  -- `persistBlockLocked`, and what follows it
  unfoldable pub persist_and_execute : Block → ℤ → Chain → Result (Unit {0}) × Chain
  persist_and_execute b total c =
      if c.disk_faults b
      then (err persist_failed, record c { disk = disk_after b c })
      else execute_block b total (record c { disk = insert b.height b c.disk })

  unfoldable pub seal_and_execute : Block → ℤ → Chain → Result (Unit {0}) × Chain
  seal_and_execute b total c = elim (check_seal b total c) [
    | err e ↦ (err e, c)
    | ok u ↦ persist_and_execute b total c
  ]

  -- `applyBlockLocked`
  unfoldable pub apply_block : Block → Chain → Result (Unit {0}) × Chain
  apply_block b c = elim (check_block b c) [
    | err e ↦ (err e, c)
    | ok total ↦
        seal_and_execute b total (observe_validator b.producer (observe_validator b.validator_id c))
  ]

  -- Whether `applyBlockLocked` comes to `persistBlockLocked`: the block passes the checks.
  unfoldable pub reaches_disk : Block → Chain → Bool
  reaches_disk b c = elim (check_block b c) [
    | err e ↦ false
    | ok total ↦
        elim (check_seal b total
          (observe_validator b.producer (observe_validator b.validator_id c))) [
            | err e ↦ false
            | ok u ↦ true
          ]
  ]
