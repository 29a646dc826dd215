-- ===== src/Execution/Success.antt =====
-- What a block that `applyBlockLocked` (internal/mesh/chain_core.go) accepts has been checked for,
-- and what it does to the chain.
use blackchain_node.Prelude.{
  ◌≤◌, String, str_eq_iff, ◌&&◌, List, ◌≡◌, ◌≢◌, arith, ℤ, pos, add64, ltb_ℤ, eqb_ℤ_iff, length,
  Bool-cases, inl, inr, if◌then◌else◌, [], ◌∷◌, ◌∙◌, ap,
}
use blackchain_node.Types.{Tx, Account, Block, ok}
use blackchain_node.Platform.{Platform}
use blackchain_node.Signing.{calc_block_hash, validate_block_signature}
use blackchain_node.Dict.{Map, insert, int_Eq, string_Eq}
use blackchain_node.Chain.{Chain}
use blackchain_node.Fees.{fee_split_active, split_fees, treasury_addr, max_block_txs}
use blackchain_node.Ledger.{Ledger, credit, ledger_of}
use blackchain_node.Mempool.{tx_id, sender_nonce_key}
use blackchain_node.Execution.{
  pay_rewards, recipient, expected_reward, calc_state_hash_with_block, check_block, check_seal,
  scan_txs,
}
use blackchain_node.Execution.Loop.{sum_fees, add_balance-ledger}

-- The rewards on the ledger, for a sum of fees.
abbrev pub reward_ledger : Block → ℤ → Ledger → Ledger
reward_ledger b total l =
    let rewarded = credit (recipient b) b.reward l in
    if fee_split_active b.height && ltb_ℤ (pos 0) (split_fees total).1
    then credit treasury_addr (split_fees total).1 rewarded
    else rewarded

pub pay_rewards-ledger :
    (b : Block) (total : ℤ) (accounts : Map String Account)
    → ledger_of (pay_rewards b total accounts) ≡ reward_ledger b total (ledger_of accounts)
unfolding pay_rewards
pay_rewards-ledger b total accounts =
    elim (Bool-cases (fee_split_active b.height && ltb_ℤ (pos 0) (split_fees total).1)) [
      | inr off ↦ rw off (add_balance-ledger (recipient b) b.reward accounts)
      | inl on ↦ rw on (
          add_balance-ledger treasury_addr (split_fees total).1 _
          ∙ ap (credit treasury_addr (split_fees total).1)
              (add_balance-ledger (recipient b) b.reward accounts))
    ]

module _ ⦃p : Platform⦄ where
  scan_txs-fees :
      (txs : List Tx) (ids nonces : Map String (Unit {0})) (start total : ℤ)
      → scan_txs txs ids nonces start ≡ ok total
      → total ≡ sum_fees txs start
  unfolding scan_txs
  scan_txs-fees [] ids nonces start total h = ground arith
  scan_txs-fees (tx ∷ txs) ids nonces start total h = ground (
    arith,
    scan_txs-fees txs (insert (tx_id tx) tt ids) (insert (sender_nonce_key tx) tt nonces)
        (add64 start tx.fee) total,
  )

  -- The checks before the execution, for the sum of fees that they found.
  pub record IsSound (b : Block) (c : Chain) (total : ℤ) : Type 0 where
    pub few_txs : length b.txs ≤ max_block_txs
    pub next_height : b.height ≡ add64 c.height (pos 1)
    pub on_tip : b.prev_hash ≡ c.tip
    pub timed : b.time_utc ≢ 0
    pub fees : total ≡ sum_fees b.txs (pos 0)

  scanned :
      (b : Block) (c : Chain) (total : ℤ)
      → check_block b c ≡ ok total
      → scan_txs b.txs [] [] (pos 0) ≡ ok total
  unfolding check_block
  scanned b c total h = ground arith

  pub check_block-IsSound :
      (b : Block) (c : Chain) (total : ℤ) → check_block b c ≡ ok total → IsSound b c total
  unfolding check_block
  check_block-IsSound b c total h = record {
    few_txs = ground arith;
    next_height = ground (arith, eqb_ℤ_iff b.height (add64 c.height (pos 1)));
    on_tip = ground (arith, str_eq_iff b.prev_hash c.tip);
    timed = λ e. ground arith;
    fees = scan_txs-fees b.txs [] [] (pos 0) total (scanned b c total h);
  }

  -- The checks of hash, signature, reward and root, in a chain with these accounts.
  pub record IsSealed (b : Block) (total : ℤ) (c : Chain) : Type 0 where
    pub hash : b.hash ≡ calc_block_hash b
    pub signed : validate_block_signature b ≡ ok tt
    pub reward : b.reward ≡ expected_reward b.height total
    pub root : b.balances_root ≡ calc_state_hash_with_block b c

  pub check_seal-IsSealed :
      (b : Block) (total : ℤ) (c : Chain) → check_seal b total c ≡ ok tt → IsSealed b total c
  unfolding check_seal
  check_seal-IsSealed b total c h = record {
    hash = ground (arith, str_eq_iff b.hash (calc_block_hash b));
    signed = ground arith;
    reward = ground (arith, eqb_ℤ_iff b.reward (expected_reward b.height total));
    root = ground (arith, str_eq_iff b.balances_root (calc_state_hash_with_block b c));
  }
