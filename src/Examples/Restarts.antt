-- ===== src/Examples/Restarts.antt =====
-- Tests of the block files (internal/mesh/chain_persist.go).
use blackchain_node.Chain.Identity.{
  check_key_pair, parse_validator_key_file, create_identity, read_identity,
  ensure_validator_identity, validator_id, validator_priv_hex,
}
use blackchain_node.Proposal.{
  drain_step, drain, drain_pending, check_finalized, check_quorum, check_proposal, check_buffer,
  place_block, quorum_stage, judge_block, report_failure, apply_block_or_buffer,
  proposal_safety_check, require_validator_action_ready, make_block, restore, offer_block,
  propose_with, propose_block,
}
use blackchain_node.Finality.{
  mark_finalized, mark_range, finality_target, advance_finality, get_finality_snapshot, votes_for,
  finalize_height, try_finalize_height, try_finalize, add_vote,
}
use blackchain_node.Fees.{required_fee, block_reward_for_height, fee_split_active, split_fees}
use blackchain_node.Signing.{
  tx_sign_bytes, addr_from_pub_hex, verify_tx, verify_tx_signature, sign_tx, calc_block_hash,
  block_sign_hash, sign_block, validate_block_signature, vote_sign_bytes, verify_vote,
}
use blackchain_node.Mempool.{
  fields_too_large, validate_tx, tx_id, sender_nonce_key, reset_mempool, index_ids,
  index_sender_nonces, rebuild_mempool_index, check_admission, add_tx_to_mempool, get_shadow,
  keep_tx, compact_step, compact_loop, compact_from, compact_mempool,
}
use blackchain_node.Merkle.{
  nonzero_rows, insert_row, sort_rows, leaf, next_level, build, merkle_balances_root,
}
use blackchain_node.Prelude.{
  ℕ, zero, suc, ◌≤◌, ◌≡◌, refl, sym, ap, arith, true, false, none, some, [], ◌∷◌, pos, ◌+ℤ◌, ◌-ℤ◌,
  ◌*ℤ◌, wrap64, add64, sub64, mul64, div64,
}
use blackchain_node.Types.{Block, ok, err, empty_payload}
use blackchain_node.Platform.{Bytes}
use blackchain_node.Dict.{lookup, delete, int_Eq, insert, contains}
use blackchain_node.Chain.{
  Chain, get_account, get_or_create_account, observe_validator, quorum_needed, has_quorum,
  record_proposal_failure,
}
use blackchain_node.Ledger.{ledger_of}
use blackchain_node.Execution.{
  apply_block, touch, settle, exec_tx, exec_txs, write_back, add_balance, pay_rewards,
  expected_reward, calc_tx, calc_txs, calc_fees, calc_rewards, calc_accounts,
  calc_state_hash_with_block, scan_txs, check_block, check_seal, commit_block, execute_block,
  persist_and_execute, seal_and_execute, reaches_disk,
}
use blackchain_node.Execution.Agreement.{IsSameView, apply_block-same}
use blackchain_node.Execution.Applied.{apply_block-IsApplied}
use blackchain_node.Node.{receive, handle, begin, after}
use blackchain_node.Node.History.{Shows, Extends}
use blackchain_node.Persist.{
  BlockCodec, content, BlockDir, moved, WriteStage, torn, crash_in_write, decode_persisted_block,
  sort_files, recover_interrupted_block_writes, load_from_disk, handle_block_corruption,
  handle_tmp_corruption, insert_file, max_height, promote, recover_tmp, recover_tmps, write_file,
  rewrite_file, replay_block, replay_file, replay_files,
}
use blackchain_node.Persist.Replay.{empty, file}
use blackchain_node.Persist.Restart.{none_yet, one_more, IsSaved, load_from_disk-Reach}
use blackchain_node.Persist.Recovery.{IsAtomic, crash_in_write-IsAtomic}
use blackchain_node.Persist.Corruption.{IsFollowed, load_from_disk-corrupt}
use blackchain_node.Examples.{toy, genesis, first_block, alice_only}
use blackchain_node.Examples.Nodes.{genesis-IsFresh, alice-IsKeyed, first_runs}

instance abbrev toy_codec : BlockCodec
toy_codec = record { json_block = λ b. 1 ∷ []; json_decode_block = λ raw. some first_block }

abbrev one_file : BlockDir
one_file = record {
  is_missing = false;
  list_fault = false;
  blocks = (pos 1, content (1 ∷ [])) ∷ [];
  tmps = [];
  stat_fault = λ h. false;
  promotion_fault = λ h. false;
  remove_fault = λ h. false;
  leftover = λ h. none;
  quarantine = moved;
  promoted = [];
}

abbrev after_first : Chain
after_first = handle (receive 20 first_block) genesis

first_height : after_first.height ≡ pos 1
unfolding touch settle exec_tx exec_txs write_back add_balance pay_rewards expected_reward calc_tx
    calc_txs calc_fees calc_rewards calc_accounts calc_state_hash_with_block scan_txs check_block
    check_seal commit_block execute_block persist_and_execute seal_and_execute apply_block
    reaches_disk nonzero_rows insert_row sort_rows leaf next_level build merkle_balances_root
    fields_too_large validate_tx tx_id sender_nonce_key reset_mempool index_ids index_sender_nonces
    rebuild_mempool_index check_admission add_tx_to_mempool get_shadow keep_tx compact_step
    compact_loop compact_from compact_mempool tx_sign_bytes addr_from_pub_hex verify_tx
    verify_tx_signature sign_tx calc_block_hash block_sign_hash sign_block validate_block_signature
    vote_sign_bytes verify_vote required_fee block_reward_for_height fee_split_active split_fees
    lookup insert delete contains get_account get_or_create_account observe_validator quorum_needed
    has_quorum record_proposal_failure mark_finalized mark_range finality_target advance_finality
    get_finality_snapshot votes_for finalize_height try_finalize_height try_finalize add_vote ◌+ℤ◌
    ◌-ℤ◌ ◌*ℤ◌ wrap64 add64 sub64 mul64 div64 drain_step drain drain_pending check_finalized
    check_quorum check_proposal check_buffer place_block quorum_stage judge_block report_failure
    apply_block_or_buffer proposal_safety_check require_validator_action_ready make_block restore
    offer_block propose_with propose_block check_key_pair parse_validator_key_file create_identity
    read_identity ensure_validator_identity validator_id validator_priv_hex
first_height = refl

first_on_disk : lookup (pos 1) after_first.disk ≡ some first_block
unfolding touch settle exec_tx exec_txs write_back add_balance pay_rewards expected_reward calc_tx
    calc_txs calc_fees calc_rewards calc_accounts calc_state_hash_with_block scan_txs check_block
    check_seal commit_block execute_block persist_and_execute seal_and_execute apply_block
    reaches_disk nonzero_rows insert_row sort_rows leaf next_level build merkle_balances_root
    fields_too_large validate_tx tx_id sender_nonce_key reset_mempool index_ids index_sender_nonces
    rebuild_mempool_index check_admission add_tx_to_mempool get_shadow keep_tx compact_step
    compact_loop compact_from compact_mempool tx_sign_bytes addr_from_pub_hex verify_tx
    verify_tx_signature sign_tx calc_block_hash block_sign_hash sign_block validate_block_signature
    vote_sign_bytes verify_vote required_fee block_reward_for_height fee_split_active split_fees
    lookup insert delete contains get_account get_or_create_account observe_validator quorum_needed
    has_quorum record_proposal_failure mark_finalized mark_range finality_target advance_finality
    get_finality_snapshot votes_for finalize_height try_finalize_height try_finalize add_vote ◌+ℤ◌
    ◌-ℤ◌ ◌*ℤ◌ wrap64 add64 sub64 mul64 div64 drain_step drain drain_pending check_finalized
    check_quorum check_proposal check_buffer place_block quorum_stage judge_block report_failure
    apply_block_or_buffer proposal_safety_check require_validator_action_ready make_block restore
    offer_block propose_with propose_block check_key_pair parse_validator_key_file create_identity
    read_identity ensure_validator_identity validator_id validator_priv_hex
first_on_disk = refl

decodes : decode_persisted_block (1 ∷ []) (pos 1) ≡ ok first_block
unfolding decode_persisted_block
decodes = refl

one_file_written :
    (i : ℕ) (b : Block)
    → i ≤ 1
    → lookup (pos i) after_first.disk ≡ some b
    → lookup (pos i) one_file.blocks ≡ some (content (1 ∷ []))
unfolding touch settle exec_tx exec_txs write_back add_balance pay_rewards expected_reward calc_tx
    calc_txs calc_fees calc_rewards calc_accounts calc_state_hash_with_block scan_txs check_block
    check_seal commit_block execute_block persist_and_execute seal_and_execute apply_block
    reaches_disk nonzero_rows insert_row sort_rows leaf next_level build merkle_balances_root
    fields_too_large validate_tx tx_id sender_nonce_key reset_mempool index_ids index_sender_nonces
    rebuild_mempool_index check_admission add_tx_to_mempool get_shadow keep_tx compact_step
    compact_loop compact_from compact_mempool tx_sign_bytes addr_from_pub_hex verify_tx
    verify_tx_signature sign_tx calc_block_hash block_sign_hash sign_block validate_block_signature
    vote_sign_bytes verify_vote required_fee block_reward_for_height fee_split_active split_fees
    lookup insert delete contains get_account get_or_create_account observe_validator quorum_needed
    has_quorum record_proposal_failure mark_finalized mark_range finality_target advance_finality
    get_finality_snapshot votes_for finalize_height try_finalize_height try_finalize add_vote ◌+ℤ◌
    ◌-ℤ◌ ◌*ℤ◌ wrap64 add64 sub64 mul64 div64 drain_step drain drain_pending check_finalized
    check_quorum check_proposal check_buffer place_block quorum_stage judge_block report_failure
    apply_block_or_buffer proposal_safety_check require_validator_action_ready make_block restore
    offer_block propose_with propose_block check_key_pair parse_validator_key_file create_identity
    read_identity ensure_validator_identity validator_id validator_priv_hex
one_file_written zero b le found = absurd (ground (arith, found))
one_file_written (suc zero) b le found = refl
one_file_written (suc (suc i)) b le found = absurd (omega (arith, le))

one_file-IsSaved : IsSaved after_first one_file
unfolding crash_in_write handle_block_corruption handle_tmp_corruption insert_file sort_files
    max_height decode_persisted_block promote recover_tmp recover_tmps
    recover_interrupted_block_writes write_file rewrite_file replay_block replay_file replay_files
    load_from_disk
one_file-IsSaved = record {
  present = refl;
  listed = refl;
  settled = refl;
  count = 1;
  whole = first_height;
  files = one_more 0 first_block [] (1 ∷ []) none_yet first_on_disk decodes;
  written = one_file_written;
}

load_from_disk-Reach_example :
    let (out, restarted) = load_from_disk false one_file genesis in
    (out ≡ (ok tt, one_file)) × IsSameView after_first restarted
load_from_disk-Reach_example =
    load_from_disk-Reach false genesis after_first genesis one_file
      (after (receive 20 first_block) genesis begin) genesis-IsFresh genesis-IsFresh
      (record { height = refl; tip = refl; ledger = refl }) (λ b. refl) one_file-IsSaved

abbrev torn_part : WriteStage → Bytes
torn_part (torn part) = part
torn_part _ = []

torn_fails :
    (part : Bytes) → torn [] ≡ torn part → decode_persisted_block part (pos 1) ≡ err empty_payload
unfolding decode_persisted_block
torn_fails part same = ap (λ x. decode_persisted_block (torn_part x) (pos 1)) (sym same)

abbrev no_file : BlockDir
no_file = record one_file { blocks = [] }

-- The file of the block at height 1 is torn.
crash_in_write-IsAtomic_example :
    IsAtomic
      (pos 1)
      (1 ∷ [])
      no_file
      (recover_interrupted_block_writes (crash_in_write (torn []) (pos 1) (1 ∷ []) no_file)).1
crash_in_write-IsAtomic_example =
    crash_in_write-IsAtomic (torn []) (pos 1) (1 ∷ []) no_file refl
      (λ part same. (empty_payload, torn_fails part same))

first-Extends : Extends (ledger_of alice_only) "genesis" first_block []
first-Extends =
    let a = apply_block-IsApplied first_block genesis first_runs in
    record {
      height = refl;
      prev_hash = refl;
      hash = (a.sealed).hash;
      signed = (a.sealed).signed;
      covered = a.covered;
      accepted = λ d shown keyed fine.
          (apply_block-same first_block genesis d
            (record { height = sym shown.height; tip = sym shown.tip; ledger = sym shown.ledger })
            alice-IsKeyed keyed fine first_runs).0;
    }

-- The file of height 2 is empty.
abbrev torn_dir : BlockDir
torn_dir = record one_file { blocks = (pos 1, content (1 ∷ [])) ∷ (pos 2, content []) ∷ [] }

torn_dir-IsFollowed : IsFollowed (first_block ∷ []) (pos 2) (content []) torn_dir
unfolding crash_in_write handle_block_corruption handle_tmp_corruption insert_file sort_files
    max_height decode_persisted_block promote recover_tmp recover_tmps
    recover_interrupted_block_writes write_file rewrite_file replay_block replay_file replay_files
    load_from_disk lookup
torn_dir-IsFollowed = record {
  present = refl;
  listed = refl;
  written = record { settled = refl; texts = (refl, tt) };
  earlier = (pos 1, content (1 ∷ [])) ∷ [];
  files = file first_block [] [] (1 ∷ []) empty decodes;
  sorted = refl;
}

empty_fails : decode_persisted_block [] (pos 2) ≡ err empty_payload
unfolding decode_persisted_block
empty_fails = refl

load_from_disk-corrupt_example :
    let ((out, d), c) = load_from_disk true torn_dir genesis in
    (out ≡ ok tt)
    × (d.blocks ≡ delete (pos 2) torn_dir.blocks)
    × Shows (ledger_of alice_only) "genesis" (first_block ∷ []) c
load_from_disk-corrupt_example =
    load_from_disk-corrupt true (ledger_of alice_only) "genesis" (first_block ∷ []) (pos 2) []
      empty_payload torn_dir genesis torn_dir-IsFollowed (first-Extends, tt)
      (record {
        shown = record { height = refl; tip = refl; ledger = refl };
        keyed = alice-IsKeyed;
        writes = λ b. refl;
      })
      empty_fails refl
