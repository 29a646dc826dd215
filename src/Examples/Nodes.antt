-- ===== src/Examples/Nodes.antt =====
-- Tests of a node in operation (internal/mesh/chain_core.go).
use blackchain_node.Finality.{
  mark_finalized, mark_range, finality_target, advance_finality, get_finality_snapshot, votes_for,
  finalize_height, try_finalize_height, try_finalize, add_vote,
}
use blackchain_node.Fees.{required_fee, block_reward_for_height, fee_split_active, split_fees}
use mathlib.Core.Path.{fun_ext}
use blackchain_node.Prelude.{
  String, ◌≡◌, refl, arith, Bool, true, false, none, some, ◌==◌, if◌then◌else◌, [], ◌∷◌, pos,
  str_eq_iff, ◌+ℤ◌, ◌-ℤ◌, ◌*ℤ◌, wrap64, add64, sub64, mul64, div64,
}
use blackchain_node.Types.{Account, Block, ok, err, insufficient_balance}
use blackchain_node.Dict.{Map, lookup, string_Eq, insert, delete, contains}
use blackchain_node.Dict.Keys.{IsKeyed}
use blackchain_node.Chain.{
  Chain, get_account, zero_account, get_or_create_account, observe_validator, quorum_needed,
  has_quorum, record_proposal_failure,
}
use blackchain_node.Ledger.{ledger_of}
use blackchain_node.Merkle.{
  merkle_balances_root, nonzero_rows, insert_row, sort_rows, leaf, next_level, build,
}
use blackchain_node.Merkle.Canonical.{merkle_balances_root-ledger}
use blackchain_node.Mempool.{
  reset_mempool, fields_too_large, validate_tx, tx_id, sender_nonce_key, index_ids,
  index_sender_nonces, rebuild_mempool_index, check_admission, add_tx_to_mempool, get_shadow,
  keep_tx, compact_step, compact_loop, compact_from, compact_mempool,
}
use blackchain_node.Mempool.Distinct.{reset-IsIndexed}
use blackchain_node.Execution.{
  apply_block, touch, settle, exec_tx, exec_txs, write_back, add_balance, pay_rewards,
  expected_reward, calc_tx, calc_txs, calc_fees, calc_rewards, calc_accounts,
  calc_state_hash_with_block, scan_txs, check_block, check_seal, commit_block, execute_block,
  persist_and_execute, seal_and_execute,
}
use blackchain_node.Execution.Agreement.{IsSameView, apply_block-same}
use blackchain_node.Execution.Outcome.{IsRejected, apply_block-IsRejected}
use blackchain_node.Node.{submit, receive, propose, handle, Reach, begin, after}
use blackchain_node.Node.History.{IsLive}
use blackchain_node.Node.Live.{IsFresh, Reach-IsLive}
use blackchain_node.Node.Pool.{HasGoodPool, Reach-HasGoodPool}
use blackchain_node.Examples.{
  toy, genesis, first_block, payment, rich, alice_only, key_bytes, sig_bytes,
}
use blackchain_node.Signing.{
  is_empty, tx_sign_bytes, addr_from_pub_hex, verify_tx, verify_tx_signature, sign_tx,
  calc_block_hash, block_sign_hash, sign_block, validate_block_signature, vote_sign_bytes,
  verify_vote,
}
use blackchain_node.Chain.Identity.{ensure_validator_identity}
use blackchain_node.Merkle.Text.{HasHashTexts}
use blackchain_node.Proposal.{propose_block}
use blackchain_node.Proposal.Progress.{IsReady}
use blackchain_node.Proposal.Made.{IsSigner}
use blackchain_node.Proposal.Growth.{CanOffer, HasIdentity, propose_block_grows}

-- A payment of more than Alice has.
abbrev overdrawn : Block
overdrawn = record first_block { txs = record payment { amount = pos 5000 } ∷ [] }

overdrawn_fails : (apply_block overdrawn genesis).0 ≡ err insufficient_balance
unfolding touch settle exec_tx exec_txs write_back add_balance pay_rewards expected_reward calc_tx
    calc_txs calc_fees calc_rewards calc_accounts calc_state_hash_with_block scan_txs check_block
    check_seal commit_block execute_block persist_and_execute seal_and_execute apply_block
    nonzero_rows insert_row sort_rows leaf next_level build merkle_balances_root fields_too_large
    validate_tx tx_id sender_nonce_key reset_mempool index_ids index_sender_nonces
    rebuild_mempool_index check_admission add_tx_to_mempool get_shadow keep_tx compact_step
    compact_loop compact_from compact_mempool tx_sign_bytes addr_from_pub_hex verify_tx
    verify_tx_signature sign_tx calc_block_hash block_sign_hash sign_block validate_block_signature
    vote_sign_bytes verify_vote required_fee block_reward_for_height fee_split_active split_fees
    lookup insert delete contains get_account get_or_create_account observe_validator quorum_needed
    has_quorum record_proposal_failure mark_finalized mark_range finality_target advance_finality
    get_finality_snapshot votes_for finalize_height try_finalize_height try_finalize add_vote ◌+ℤ◌
    ◌-ℤ◌ ◌*ℤ◌ wrap64 add64 sub64 mul64 div64
overdrawn_fails = refl

apply_block-IsRejected_example : IsRejected overdrawn genesis (apply_block overdrawn genesis).1
apply_block-IsRejected_example =
    apply_block-IsRejected overdrawn genesis insufficient_balance overdrawn_fails

pub first_runs : (apply_block first_block genesis).0 ≡ ok tt
unfolding touch settle exec_tx exec_txs write_back add_balance pay_rewards expected_reward calc_tx
    calc_txs calc_fees calc_rewards calc_accounts calc_state_hash_with_block scan_txs check_block
    check_seal commit_block execute_block persist_and_execute seal_and_execute apply_block
    nonzero_rows insert_row sort_rows leaf next_level build merkle_balances_root fields_too_large
    validate_tx tx_id sender_nonce_key reset_mempool index_ids index_sender_nonces
    rebuild_mempool_index check_admission add_tx_to_mempool get_shadow keep_tx compact_step
    compact_loop compact_from compact_mempool tx_sign_bytes addr_from_pub_hex verify_tx
    verify_tx_signature sign_tx calc_block_hash block_sign_hash sign_block validate_block_signature
    vote_sign_bytes verify_vote required_fee block_reward_for_height fee_split_active split_fees
    lookup insert delete contains get_account get_or_create_account observe_validator quorum_needed
    has_quorum record_proposal_failure mark_finalized mark_range finality_target advance_finality
    get_finality_snapshot votes_for finalize_height try_finalize_height try_finalize add_vote ◌+ℤ◌
    ◌-ℤ◌ ◌*ℤ◌ wrap64 add64 sub64 mul64 div64
first_runs = refl

-- The accounts of the first chain, with an account of zero behind.
abbrev other_accounts : Map String Account
other_accounts = ("alice", rich) ∷ ("zoe", zero_account) ∷ []

same_ledger : ledger_of alice_only ≡ ledger_of other_accounts
unfolding get_account lookup
same_ledger = fun_ext λ a. ground (arith, str_eq_iff "zoe" a, str_eq_iff "alice" a)

pub alice-IsKeyed : IsKeyed alice_only
unfolding lookup
alice-IsKeyed = (refl, tt)

other-IsKeyed : IsKeyed other_accounts
unfolding lookup
other-IsKeyed = (refl, (refl, tt))

merkle_balances_root-ledger_example :
    merkle_balances_root alice_only ≡ merkle_balances_root other_accounts
merkle_balances_root-ledger_example =
    merkle_balances_root-ledger alice_only other_accounts alice-IsKeyed other-IsKeyed same_ledger

abbrev other_genesis : Chain
other_genesis = record genesis { accounts = other_accounts; mempool = payment ∷ [] }

same_start : IsSameView genesis other_genesis
same_start = record { height = refl; tip = refl; ledger = same_ledger }

apply_block-same_example :
    ((apply_block first_block other_genesis).0 ≡ ok tt)
    × IsSameView (apply_block first_block genesis).1 (apply_block first_block other_genesis).1
apply_block-same_example =
    apply_block-same first_block genesis other_genesis same_start alice-IsKeyed other-IsKeyed refl
      first_runs

-- Alice's payment comes in, then the block with it, then a proposal.
abbrev busy : Chain
busy = handle (propose 30) (handle (receive 20 first_block) (handle (submit payment) genesis))

busy_reached : Reach genesis busy
busy_reached =
    after (propose 30) (handle (receive 20 first_block) (handle (submit payment) genesis)) (
      after (receive 20 first_block) (handle (submit payment) genesis)
        (after (submit payment) genesis begin))

pub genesis-IsFresh : IsFresh genesis
genesis-IsFresh = record { height = refl; blocks = refl; pending = refl; keyed = alice-IsKeyed }

Reach-IsLive_example : IsLive (ledger_of alice_only) "genesis" busy
Reach-IsLive_example = Reach-IsLive genesis busy busy_reached genesis-IsFresh

genesis-HasGoodPool : HasGoodPool genesis
unfolding reset_mempool
genesis-HasGoodPool = (
  reset-IsIndexed genesis,
  record { bounded = omega arith; distinct_ids = tt; distinct_nonces = tt },
)

Reach-HasGoodPool_example : HasGoodPool busy
unfolding lookup
Reach-HasGoodPool_example =
    Reach-HasGoodPool genesis busy busy_reached (λ k b found. absurd (ground arith))
      genesis-HasGoodPool

-- Alice's node, with her keys loaded, her wallet set and her payment in its mempool.
abbrev proposing : Chain
proposing = record genesis {
  validator_pub_hex = "alice";
  validator_priv_hex = "sig";
  daemon = some (record {
    wallet_addr = "alice";
    peer_state = [];
    proposal_failure_count = pos 0;
    last_proposal_failure = none;
  });
  mempool = payment ∷ [];
}

either_named :
    (t : Bool) (a b : String)
    → is_empty a ≡ false
    → is_empty b ≡ false
    → is_empty (if t then a else b) ≡ false
either_named true a b h k = h
either_named false a b h k = k

toy-HasHashTexts : HasHashTexts
toy-HasHashTexts [] = refl
toy-HasHashTexts (x ∷ raw) = either_named (x == 0) "alice" _ refl (
    either_named (x == 1) "sig" _ refl (
      either_named (x == 2) "block" _ refl (
        either_named (x == 3) "root" _ refl
          (either_named (x == 4) "tx0" _ refl (either_named (x == 5) "tx1" "tx2" refl refl)))))

alice-IsSigner : IsSigner key_bytes sig_bytes
alice-IsSigner = record {
  round_pub = refl;
  round_sig = λ msg. refl;
  nil = refl;
  pair = λ msg. refl;
  size = λ msg. refl;
  key_size = refl;
}

proposing-IsReady : IsReady 30 0 proposing
unfolding lookup
proposing-IsReady = record {
  height = refl;
  room = omega arith;
  open_height = refl;
  later = refl;
  alone = refl;
  silent = λ d found. ground (arith, found);
}

proposing-CanOffer : CanOffer 30 0 key_bytes sig_bytes proposing
unfolding touch settle exec_tx exec_txs write_back add_balance pay_rewards expected_reward calc_tx
    calc_txs calc_fees calc_rewards calc_accounts calc_state_hash_with_block scan_txs check_block
    check_seal commit_block execute_block persist_and_execute seal_and_execute apply_block
    nonzero_rows insert_row sort_rows leaf next_level build merkle_balances_root fields_too_large
    validate_tx tx_id sender_nonce_key reset_mempool index_ids index_sender_nonces
    rebuild_mempool_index check_admission add_tx_to_mempool get_shadow keep_tx compact_step
    compact_loop compact_from compact_mempool tx_sign_bytes addr_from_pub_hex verify_tx
    verify_tx_signature sign_tx calc_block_hash block_sign_hash sign_block validate_block_signature
    vote_sign_bytes verify_vote required_fee block_reward_for_height fee_split_active split_fees
    lookup insert delete contains get_account get_or_create_account observe_validator quorum_needed
    has_quorum record_proposal_failure mark_finalized mark_range finality_target advance_finality
    get_finality_snapshot votes_for finalize_height try_finalize_height try_finalize add_vote ◌+ℤ◌
    ◌-ℤ◌ ◌*ℤ◌ wrap64 add64 sub64 mul64 div64
proposing-CanOffer = record {
  signer = alice-IsSigner;
  texts = toy-HasHashTexts;
  timed = refl;
  gain = refl;
  writes = λ b. refl;
  ready = proposing-IsReady;
}

proposing-HasIdentity : HasIdentity key_bytes sig_bytes proposing
unfolding ensure_validator_identity
proposing-HasIdentity = record {
  payout = refl;
  loaded = refl;
  key = refl;
  named = refl;
  keyed = refl;
  known = refl;
}

propose_block_grows_example :
    ((propose_block 30 proposing).0 ≡ ok tt) × ((propose_block 30 proposing).1.height ≡ pos 1)
propose_block_grows_example =
    propose_block_grows 30 0 key_bytes sig_bytes proposing proposing-HasIdentity proposing-CanOffer
