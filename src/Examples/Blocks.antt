-- ===== src/Examples/Blocks.antt =====
-- Tests of the execution of blocks (internal/mesh/chain_core.go).
use blackchain_node.Prelude.{
  ◌*◌, ◌<◌, ◌≤ℤ◌, ◌≡◌, refl, arith, [], ◌∷◌, pos, ◌+ℤ◌, ◌-ℤ◌, ◌*ℤ◌, wrap64, add64, sub64, mul64,
  div64,
}
use blackchain_node.Types.{Tx, Block, ok, err, missing_time}
use blackchain_node.Signing.{
  verify_tx, verify_tx_signature, tx_sign_bytes, addr_from_pub_hex, calc_block_hash,
  block_sign_hash, validate_block_signature, sign_tx, sign_block, vote_sign_bytes, verify_vote,
}
use blackchain_node.Dict.{lookup, insert, delete, contains}
use blackchain_node.Chain.{
  get_account, get_or_create_account, observe_validator, quorum_needed, has_quorum,
  record_proposal_failure,
}
use blackchain_node.Fees.{
  treasury_addr, required_fee, block_reward_for_height, fee_split_active, split_fees,
}
use blackchain_node.Merkle.{
  merkle_balances_root, nonzero_rows, insert_row, sort_rows, leaf, next_level, build,
}
use blackchain_node.Mempool.{
  tx_id, sender_nonce_key, fields_too_large, compact_mempool, compact_from, reset_mempool,
  validate_tx, index_ids, index_sender_nonces, rebuild_mempool_index, check_admission,
  add_tx_to_mempool, get_shadow, keep_tx, compact_step, compact_loop,
}
use blackchain_node.Finality.{
  advance_finality, finality_target, mark_range, mark_finalized, get_finality_snapshot, votes_for,
  finalize_height, try_finalize_height, try_finalize, add_vote,
}
use blackchain_node.Execution.{
  Exec, exec_txs, exec_tx, touch, settle, check_block, check_seal, scan_txs, expected_reward,
  calc_state_hash_with_block, persist_and_execute, execute_block, seal_and_execute, apply_block,
  commit_block, write_back, add_balance, pay_rewards, calc_tx, calc_txs, calc_fees, calc_rewards,
  calc_accounts,
}
use blackchain_node.Execution.Applied.{IsApplied, apply_block-IsApplied}
use blackchain_node.Execution.Atomicity.{IsSameState, apply_block-err}
use blackchain_node.Execution.Root.{apply_block-root}
use blackchain_node.Execution.Treasury.{plain_fees, treasury_share, apply_block-treasury}
use blackchain_node.Execution.Loop.{sum_fees}
use blackchain_node.Execution.Payments.{view}
use blackchain_node.Execution.Overflow.{exec_tx-overflow}
use blackchain_node.Ledger.{ledger_of, pay_all, IsPayableAll, update, pay, credit, overlay}
use blackchain_node.Fees.Bounds.{block_reward_lem}
use blackchain_node.Examples.{
  toy, genesis, first_block, payment, before_split, split_block, alice_only,
}

abbrev untimed : Block
untimed = record first_block { time_utc = 0 }

abbrev start : Exec
start = record { accounts = alice_only; snaps = []; total_fees = pos 0 }

first_block_runs : (apply_block first_block genesis).0 ≡ ok tt
unfolding touch settle exec_tx exec_txs write_back add_balance pay_rewards expected_reward calc_tx
    calc_txs calc_fees calc_rewards calc_accounts calc_state_hash_with_block scan_txs check_block
    check_seal commit_block execute_block persist_and_execute seal_and_execute apply_block
    nonzero_rows insert_row sort_rows leaf next_level build merkle_balances_root fields_too_large
    validate_tx tx_id sender_nonce_key reset_mempool index_ids index_sender_nonces
    rebuild_mempool_index check_admission add_tx_to_mempool get_shadow keep_tx compact_step
    compact_loop compact_from compact_mempool tx_sign_bytes addr_from_pub_hex verify_tx
    verify_tx_signature sign_tx calc_block_hash block_sign_hash sign_block validate_block_signature
    vote_sign_bytes verify_vote required_fee block_reward_for_height fee_split_active split_fees
    lookup insert delete contains get_account get_or_create_account observe_validator quorum_needed
    has_quorum record_proposal_failure mark_finalized mark_range finality_target advance_finality
    get_finality_snapshot votes_for finalize_height try_finalize_height try_finalize add_vote ◌+ℤ◌
    ◌-ℤ◌ ◌*ℤ◌ wrap64 add64 sub64 mul64 div64
first_block_runs = refl

split_block_runs : (apply_block split_block before_split).0 ≡ ok tt
unfolding touch settle exec_tx exec_txs write_back add_balance pay_rewards expected_reward calc_tx
    calc_txs calc_fees calc_rewards calc_accounts calc_state_hash_with_block scan_txs check_block
    check_seal commit_block execute_block persist_and_execute seal_and_execute apply_block
    nonzero_rows insert_row sort_rows leaf next_level build merkle_balances_root fields_too_large
    validate_tx tx_id sender_nonce_key reset_mempool index_ids index_sender_nonces
    rebuild_mempool_index check_admission add_tx_to_mempool get_shadow keep_tx compact_step
    compact_loop compact_from compact_mempool tx_sign_bytes addr_from_pub_hex verify_tx
    verify_tx_signature sign_tx calc_block_hash block_sign_hash sign_block validate_block_signature
    vote_sign_bytes verify_vote required_fee block_reward_for_height fee_split_active split_fees
    lookup insert delete contains get_account get_or_create_account observe_validator quorum_needed
    has_quorum record_proposal_failure mark_finalized mark_range finality_target advance_finality
    get_finality_snapshot votes_for finalize_height try_finalize_height try_finalize add_vote ◌+ℤ◌
    ◌-ℤ◌ ◌*ℤ◌ wrap64 add64 sub64 mul64 div64
split_block_runs = refl

untimed_fails : (apply_block untimed genesis).0 ≡ err missing_time
unfolding touch settle exec_tx exec_txs write_back add_balance pay_rewards expected_reward calc_tx
    calc_txs calc_fees calc_rewards calc_accounts calc_state_hash_with_block scan_txs check_block
    check_seal commit_block execute_block persist_and_execute seal_and_execute apply_block
    nonzero_rows insert_row sort_rows leaf next_level build merkle_balances_root fields_too_large
    validate_tx tx_id sender_nonce_key reset_mempool index_ids index_sender_nonces
    rebuild_mempool_index check_admission add_tx_to_mempool get_shadow keep_tx compact_step
    compact_loop compact_from compact_mempool tx_sign_bytes addr_from_pub_hex verify_tx
    verify_tx_signature sign_tx calc_block_hash block_sign_hash sign_block validate_block_signature
    vote_sign_bytes verify_vote required_fee block_reward_for_height fee_split_active split_fees
    lookup insert delete contains get_account get_or_create_account observe_validator quorum_needed
    has_quorum record_proposal_failure mark_finalized mark_range finality_target advance_finality
    get_finality_snapshot votes_for finalize_height try_finalize_height try_finalize add_vote ◌+ℤ◌
    ◌-ℤ◌ ◌*ℤ◌ wrap64 add64 sub64 mul64 div64
untimed_fails = refl

payment_runs : (exec_txs (payment ∷ []) start).0 ≡ ok tt
unfolding touch settle exec_tx exec_txs write_back add_balance pay_rewards expected_reward calc_tx
    calc_txs calc_fees calc_rewards calc_accounts calc_state_hash_with_block scan_txs check_block
    check_seal commit_block execute_block persist_and_execute seal_and_execute apply_block
    nonzero_rows insert_row sort_rows leaf next_level build merkle_balances_root fields_too_large
    validate_tx tx_id sender_nonce_key reset_mempool index_ids index_sender_nonces
    rebuild_mempool_index check_admission add_tx_to_mempool get_shadow keep_tx compact_step
    compact_loop compact_from compact_mempool tx_sign_bytes addr_from_pub_hex verify_tx
    verify_tx_signature sign_tx calc_block_hash block_sign_hash sign_block validate_block_signature
    vote_sign_bytes verify_vote required_fee block_reward_for_height fee_split_active split_fees
    lookup insert delete contains get_account get_or_create_account observe_validator quorum_needed
    has_quorum record_proposal_failure mark_finalized mark_range finality_target advance_finality
    get_finality_snapshot votes_for finalize_height try_finalize_height try_finalize add_vote ◌+ℤ◌
    ◌-ℤ◌ ◌*ℤ◌ wrap64 add64 sub64 mul64 div64
payment_runs = refl

payment_covered : IsPayableAll (payment ∷ []) (view start)
unfolding touch settle exec_tx exec_txs write_back add_balance pay_rewards expected_reward calc_tx
    calc_txs calc_fees calc_rewards calc_accounts calc_state_hash_with_block scan_txs check_block
    check_seal commit_block execute_block persist_and_execute seal_and_execute apply_block
    nonzero_rows insert_row sort_rows leaf next_level build merkle_balances_root fields_too_large
    validate_tx tx_id sender_nonce_key reset_mempool index_ids index_sender_nonces
    rebuild_mempool_index check_admission add_tx_to_mempool get_shadow keep_tx compact_step
    compact_loop compact_from compact_mempool tx_sign_bytes addr_from_pub_hex verify_tx
    verify_tx_signature sign_tx calc_block_hash block_sign_hash sign_block validate_block_signature
    vote_sign_bytes verify_vote required_fee block_reward_for_height fee_split_active split_fees
    lookup insert delete contains get_account get_or_create_account observe_validator quorum_needed
    has_quorum record_proposal_failure mark_finalized mark_range finality_target advance_finality
    get_finality_snapshot votes_for finalize_height try_finalize_height try_finalize add_vote ◌+ℤ◌
    ◌-ℤ◌ ◌*ℤ◌ wrap64 add64 sub64 mul64 div64 update pay pay_all credit overlay
payment_covered = (refl, tt)

apply_block-IsApplied_example :
    IsApplied first_block
      (sum_fees first_block.txs (pos 0))
      genesis
      (apply_block first_block genesis).1
apply_block-IsApplied_example = apply_block-IsApplied first_block genesis first_block_runs

apply_block-err_example : IsSameState genesis (apply_block untimed genesis).1
apply_block-err_example = apply_block-err untimed genesis missing_time untimed_fails

apply_block-root_example :
    ledger_of (apply_block first_block genesis).1.accounts
    ≡ ledger_of (calc_accounts first_block genesis.accounts)
unfolding fee_split_active
apply_block-root_example = apply_block-root first_block genesis first_block_runs refl refl

apply_block-treasury_example :
    let n = plain_fees split_block.txs in
    let before =
      (pay_all split_block.txs (ledger_of before_split.accounts) treasury_addr).balance in
    ((ledger_of (apply_block split_block before_split).1.accounts treasury_addr).balance
      ≡ add64 before (pos (treasury_share (2 * n))))
    × ((ledger_of (calc_accounts split_block before_split.accounts) treasury_addr).balance
        ≡ add64 before (pos (treasury_share n)))
    × (treasury_share n < treasury_share (2 * n))
unfolding fee_split_active
apply_block-treasury_example =
    apply_block-treasury split_block before_split split_block_runs refl refl refl (omega arith)
      (omega arith)

block_reward_lem_example :
    (pos 1 ≤ℤ block_reward_for_height (pos 250_000))
    × (block_reward_for_height (pos 250_000) ≤ℤ pos 50)
    × (block_reward_for_height (pos 250_000) ≤ℤ block_reward_for_height (pos 7))
block_reward_lem_example = block_reward_lem 7 250_000 (omega arith) (omega arith) (omega arith)

-- Alice, who has 1000, sends 2^62 at a fee of 2^62.
abbrev huge : Tx
huge = record payment {
  amount = pos 4_611_686_018_427_387_904;
  fee = pos 4_611_686_018_427_387_904;
}

huge_nonce : pos 0 ≡ (view start "alice").nonce
unfolding update pay pay_all credit overlay lookup insert delete contains get_account
    get_or_create_account observe_validator quorum_needed has_quorum record_proposal_failure
huge_nonce = refl

huge_balance : (view start "alice").balance ≡ pos 1000
unfolding update pay pay_all credit overlay lookup insert delete contains get_account
    get_or_create_account observe_validator quorum_needed has_quorum record_proposal_failure
huge_balance = refl

exec_tx-overflow_example : (exec_tx huge start).0 ≡ ok tt
exec_tx-overflow_example =
    exec_tx-overflow huge start 4_611_686_018_427_387_904 4_611_686_018_427_387_904 1000 refl refl
      refl huge_nonce huge_balance (omega arith) (omega arith) (omega arith)
