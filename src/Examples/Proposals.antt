-- ===== src/Examples/Proposals.antt =====
-- Tests of proposals, the buffer, the mempool and depth finality (internal/mesh/chain_core.go).
use blackchain_node.Chain.Identity.{
  check_key_pair, parse_validator_key_file, create_identity, read_identity,
  ensure_validator_identity, validator_id, validator_priv_hex,
}
use blackchain_node.Finality.{
  mark_finalized, mark_range, finality_target, advance_finality, get_finality_snapshot, votes_for,
  finalize_height, try_finalize_height, try_finalize, add_vote,
}
use blackchain_node.Fees.{required_fee, block_reward_for_height, fee_split_active, split_fees}
use blackchain_node.Signing.{
  tx_sign_bytes, addr_from_pub_hex, verify_tx, verify_tx_signature, sign_tx, calc_block_hash,
  block_sign_hash, sign_block, validate_block_signature, vote_sign_bytes, verify_vote,
}
use blackchain_node.Mempool.{
  fields_too_large, validate_tx, tx_id, sender_nonce_key, reset_mempool, index_ids,
  index_sender_nonces, rebuild_mempool_index, check_admission, add_tx_to_mempool, get_shadow,
  keep_tx, compact_step, compact_loop, compact_from, compact_mempool,
}
use blackchain_node.Merkle.{
  nonzero_rows, insert_row, sort_rows, leaf, next_level, build, merkle_balances_root,
}
use blackchain_node.Execution.{
  touch, settle, exec_tx, exec_txs, write_back, add_balance, pay_rewards, expected_reward, calc_tx,
  calc_txs, calc_fees, calc_rewards, calc_accounts, calc_state_hash_with_block, scan_txs,
  check_block, check_seal, commit_block, execute_block, persist_and_execute, seal_and_execute,
  apply_block,
}
use blackchain_node.Proposal.{
  drain_step, drain, drain_pending, check_finalized, check_quorum, check_proposal, check_buffer,
  place_block, quorum_stage, judge_block, report_failure, apply_block_or_buffer,
  proposal_safety_check, require_validator_action_ready, make_block, restore, offer_block,
  propose_with, propose_block,
}
use blackchain_node.Prelude.{
  ℕ, ◌+◌, ◌&&◌, leb, ◌≡◌, refl, arith, true, none, some, [], ◌∷◌, ℤ, pos, leb_ℤ, ltb_ℤ, eqb_ℤ_iff,
  length, if◌then◌else◌, ◌+ℤ◌, ◌-ℤ◌, ◌*ℤ◌, wrap64, add64, sub64, mul64, div64,
}
use blackchain_node.Types.{Block, ok, err, bad_pubkey_hex}
use blackchain_node.Dict.{int_Eq, string_Eq, lookup, insert, delete, contains}
use blackchain_node.Chain.{
  Chain, get_account, get_or_create_account, observe_validator, quorum_needed, has_quorum,
  record_proposal_failure,
}
use blackchain_node.Ledger.{ledger_of, IsPayableAll}
use blackchain_node.Finality.Depth.{finalized, advance_finality_lem}
use blackchain_node.Mempool.Index.{IsIndexed, IsProper, rebuild_mempool_index-IsIndexed}
use blackchain_node.Mempool.Compaction.{compact_mempool_lem}
use blackchain_node.Proposal.Drain.{drain_pending-empty}
use blackchain_node.Proposal.Immutable.{IsKept, IsTopped}
use blackchain_node.Proposal.Replacement.{apply_block_or_buffer-IsKept}
use blackchain_node.Proposal.Offer.{offer_block-err}
use blackchain_node.Examples.{toy, genesis, first_block, payment, sig_bytes}

-- A chain that has the first block in its buffer, and one payment in its mempool.
abbrev buffering : Chain
buffering = record genesis { pending = (pos 1, first_block) ∷ []; mempool = payment ∷ [] }

-- A chain with a block at height 5 and the payment in its mempool.
abbrev at_five : Chain
at_five = record genesis {
  height = pos 5;
  blocks = (pos 5, first_block) ∷ (pos 3, first_block) ∷ [];
  mempool = payment ∷ [];
}

-- A chain with an earlier block at its height.
abbrev with_past : Chain
with_past = record genesis {
  blocks = (pos 0, record first_block { time_utc = 5; hash = "genesis" }) ∷ [];
}

drain_pending-empty_example :
    let c' = (drain_pending buffering).1 in lookup (add64 c'.height (pos 1)) c'.pending ≡ none
drain_pending-empty_example = drain_pending-empty buffering

with_past_top : (k : ℤ) (b : Block) → lookup k with_past.blocks ≡ some b → leb_ℤ k (pos 0) ≡ true
unfolding lookup insert delete contains
with_past_top k b h = ground (arith, eqb_ℤ_iff (pos 0) k)

with_past-IsTopped : IsTopped 0 with_past
with_past-IsTopped = record {
  height = refl;
  top = λ k b h. let e = with_past_top k b h in ground (arith, e);
}

-- The block is applied.
with_past_runs : (apply_block_or_buffer 20 first_block with_past).0 ≡ ok true
unfolding drain_step drain drain_pending check_finalized check_quorum check_proposal check_buffer
    place_block quorum_stage judge_block report_failure apply_block_or_buffer proposal_safety_check
    require_validator_action_ready make_block restore offer_block propose_with propose_block touch
    settle exec_tx exec_txs write_back add_balance pay_rewards expected_reward calc_tx calc_txs
    calc_fees calc_rewards calc_accounts calc_state_hash_with_block scan_txs check_block check_seal
    commit_block execute_block persist_and_execute seal_and_execute apply_block nonzero_rows
    insert_row sort_rows leaf next_level build merkle_balances_root fields_too_large validate_tx
    tx_id sender_nonce_key reset_mempool index_ids index_sender_nonces rebuild_mempool_index
    check_admission add_tx_to_mempool get_shadow keep_tx compact_step compact_loop compact_from
    compact_mempool tx_sign_bytes addr_from_pub_hex verify_tx verify_tx_signature sign_tx
    calc_block_hash block_sign_hash sign_block validate_block_signature vote_sign_bytes verify_vote
    required_fee block_reward_for_height fee_split_active split_fees lookup insert delete contains
    get_account get_or_create_account observe_validator quorum_needed has_quorum
    record_proposal_failure mark_finalized mark_range finality_target advance_finality
    get_finality_snapshot votes_for finalize_height try_finalize_height try_finalize add_vote ◌+ℤ◌
    ◌-ℤ◌ ◌*ℤ◌ wrap64 add64 sub64 mul64 div64 check_key_pair parse_validator_key_file create_identity
    read_identity ensure_validator_identity validator_id validator_priv_hex
with_past_runs = refl

apply_block_or_buffer-IsKept_example :
    let c' = (apply_block_or_buffer 20 first_block with_past).1 in
    IsKept with_past.blocks c'.blocks × ((n : ℕ) × IsTopped n c')
apply_block_or_buffer-IsKept_example =
    apply_block_or_buffer-IsKept 0 20 first_block with_past (omega arith) with_past-IsTopped

-- A producer whose identity is not a key: the block that it signs is refused.
offer_fails : (offer_block 20 "carol" "nobody" sig_bytes buffering).0 ≡ err bad_pubkey_hex
unfolding drain_step drain drain_pending check_finalized check_quorum check_proposal check_buffer
    place_block quorum_stage judge_block report_failure apply_block_or_buffer proposal_safety_check
    require_validator_action_ready make_block restore offer_block propose_with propose_block touch
    settle exec_tx exec_txs write_back add_balance pay_rewards expected_reward calc_tx calc_txs
    calc_fees calc_rewards calc_accounts calc_state_hash_with_block scan_txs check_block check_seal
    commit_block execute_block persist_and_execute seal_and_execute apply_block nonzero_rows
    insert_row sort_rows leaf next_level build merkle_balances_root fields_too_large validate_tx
    tx_id sender_nonce_key reset_mempool index_ids index_sender_nonces rebuild_mempool_index
    check_admission add_tx_to_mempool get_shadow keep_tx compact_step compact_loop compact_from
    compact_mempool tx_sign_bytes addr_from_pub_hex verify_tx verify_tx_signature sign_tx
    calc_block_hash block_sign_hash sign_block validate_block_signature vote_sign_bytes verify_vote
    required_fee block_reward_for_height fee_split_active split_fees lookup insert delete contains
    get_account get_or_create_account observe_validator quorum_needed has_quorum
    record_proposal_failure mark_finalized mark_range finality_target advance_finality
    get_finality_snapshot votes_for finalize_height try_finalize_height try_finalize add_vote ◌+ℤ◌
    ◌-ℤ◌ ◌*ℤ◌ wrap64 add64 sub64 mul64 div64 check_key_pair parse_validator_key_file create_identity
    read_identity ensure_validator_identity validator_id validator_priv_hex
offer_fails = refl

offer_block-err_example :
    let c' = (offer_block 20 "carol" "nobody" sig_bytes buffering).1 in
    (c'.mempool ≡ buffering.mempool) × IsIndexed c'
offer_block-err_example =
    offer_block-err 20 "carol" "nobody" sig_bytes buffering bad_pubkey_hex offer_fails

compact_mempool_lem_example :
    let (dropped, c') = compact_mempool buffering in
    IsPayableAll c'.mempool (ledger_of buffering.accounts)
    × (length c'.mempool + dropped ≡ length buffering.mempool)
    × (c'.accounts ≡ buffering.accounts)
compact_mempool_lem_example = compact_mempool_lem buffering

genesis-IsIndexed : IsIndexed genesis
unfolding fields_too_large validate_tx tx_id sender_nonce_key reset_mempool index_ids
    index_sender_nonces rebuild_mempool_index check_admission add_tx_to_mempool get_shadow keep_tx
    compact_step compact_loop compact_from compact_mempool
genesis-IsIndexed = rebuild_mempool_index-IsIndexed genesis

genesis-IsProper : IsProper genesis
genesis-IsProper = record { bounded = omega arith; distinct_ids = tt; distinct_nonces = tt }

advance_finality_lem_example :
    let c' = advance_finality at_five in
    (c'.finalized_height ≡ (if leb 3 0 then pos 0 else pos 3))
    × (lookup (pos 3) c'.blocks ≡ (
        if ltb_ℤ (pos 0) (pos 3) && leb_ℤ (pos 3) (pos 3)
        then finalized (lookup (pos 3) at_five.blocks)
        else lookup (pos 3) at_five.blocks))
advance_finality_lem_example = advance_finality_lem at_five 5 0 (pos 3) refl refl (omega arith)
