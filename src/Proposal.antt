-- ===== src/Proposal.antt =====
-- `applyBlockOrBufferLocked`, `drainPendingLocked` and `proposeBlock` of
-- internal/mesh/chain_core.go: proposals from peers and from this node, and the buffer of blocks that
-- arrive early. `now` is the time of the call, in nanoseconds.
use blackchain_node.Prelude.{
  ℕ, zero, suc, ◌+◌, ◌*◌, String, str_eq, Bool, true, false, not, ◌&&◌, ◌||◌, Option, none, some,
  List, [], ◌∷◌, ◌++◌, ℤ, pos, ltb, leb, leb_ℤ, ltb_ℤ, eqb_ℤ, length, add64, any, take, drop,
  is_some, ◌==◌, if◌then◌else◌,
}
use blackchain_node.Types.{
  Tx, Block, Error, Result, ok, err, ◌>>=◌, ◌>>◌, reject_if, reorg_blocked, quorum_not_reached,
  invalid_height, duplicate_committed, conflicting_committed, stale_proposal, missing_time,
  future_timestamp, stale_timestamp, bad_hash, tx_invalid, out_of_order, duplicate_pending,
  conflicting_pending, successor_buffered, foreign_proposal_buffered, not_leader, no_validator,
  no_payout_address, bad_privkey,
}
use blackchain_node.Platform.{Platform, Bytes}
use blackchain_node.Signing.{is_empty, calc_block_hash, sign_block, validate_block_signature}
use blackchain_node.Dict.{Map, lookup, insert, delete, int_Eq, string_Eq}
use blackchain_node.Chain.{Chain, Daemon, observe_validator, has_quorum, record_proposal_failure}
use blackchain_node.Chain.Identity.{
  ensure_validator_identity, validator_id, validator_priv_hex, err_no_validator,
}
use blackchain_node.Fees.{max_block_txs}
use blackchain_node.Mempool.{compact_mempool, rebuild_mempool_index}
use blackchain_node.Execution.{apply_block, calc_state_hash_with_block, expected_reward}
use blackchain_node.Execution.Loop.{sum_fees}
pub mod Drain
pub mod Immutable
pub mod Replacement
pub mod Offer
pub mod Scan
pub mod Complete
pub mod Progress
pub mod Made
pub mod Growth

-- two minutes
abbrev pub max_proposal_future_skew : ℕ
max_proposal_future_skew = 120_000_000_000

abbrev pub max_proposal_buffer_distance : ℤ
max_proposal_buffer_distance = pos 2

-- `old, ok := m[h]`, with a test of the block that is found.
abbrev pub with_block : Option Block → (Block → Bool) → Bool
with_block none test = false
with_block (some b) test = test b

-- `c.height = b.Height; c.tip = b.Hash`
abbrev pub set_tip : Block → Chain → Chain
set_tip b c = record c { height = b.height; tip = b.hash }

module _ ⦃p : Platform⦄ where
  -- One round of the loop of `drainPendingLocked` at the buffered successor `b`: whether it was
  -- applied, and the chain.
  unfoldable pub drain_step : ℤ → Block → Chain → Bool × Chain
  drain_step next b c =
      let dropped = record c { pending = delete next c.pending } in
      if not (str_eq b.prev_hash c.tip)
      then (false, dropped)
      else (if with_block (lookup c.height c.blocks) (λ prev. leb b.time_utc prev.time_utc)
          then (false, dropped)
          else (let (r, c') = apply_block b dropped in
              elim r [ err e ↦ (false, c') | ok u ↦ (true, set_tip b c') ]))

  abbrev count_if : Bool → ℕ → ℕ
  count_if true n = suc n
  count_if false n = n

  -- The loop of `drainPendingLocked`, with a bound on its rounds: the number of applied blocks.
  unfoldable pub drain : ℕ → Chain → ℕ × Chain
  drain zero c = (0, c)
  drain (suc fuel) c = elim (lookup (add64 c.height (pos 1)) c.pending) [
    | none ↦ (0, c)
    | some b ↦
        let (applied, c') = drain_step (add64 c.height (pos 1)) b c in
        let (n, c'') = drain fuel c' in (count_if applied n, c'')
  ]

  -- `drainPendingLocked`: every round takes a block out of the buffer.
  unfoldable pub drain_pending : Chain → ℕ × Chain
  drain_pending c = drain (suc (length c.pending)) c

  -- A different block at or below the finalized height.
  unfoldable pub check_finalized : Block → Chain → Result (Unit {0})
  check_finalized b c =
      reject_if
        (ltb_ℤ (pos 0) c.finalized_height
          && leb_ℤ b.height c.finalized_height
          && with_block (lookup b.height c.blocks) (λ old. not (str_eq old.hash b.hash)))
        reorg_blocked

  -- A proposal of another validator needs the quorum of the peers.
  unfoldable pub check_quorum : Block → String → Daemon → Chain → Result (Unit {0})
  check_quorum b pub_hex d c =
      reject_if
        (not (is_empty pub_hex)
          && not (str_eq pub_hex err_no_validator)
          && not (str_eq b.producer pub_hex)
          && not (has_quorum b.height (calc_state_hash_with_block b c) d))
        quorum_not_reached

  -- A block at or below the height: a duplicate, a conflict, or stale.
  abbrev check_stale : Block → Option Block → Result (Unit {0})
  check_stale b none = err stale_proposal
  check_stale b (some old) =
      if str_eq old.hash b.hash && not (is_empty b.hash)
      then err duplicate_committed
      else err conflicting_committed

  -- A transaction that the last check of a proposal refuses.
  abbrev pub is_malformed : Tx → Bool
  is_malformed tx =
      is_empty tx.from || is_empty tx.to || str_eq tx.from tx.to || leb_ℤ tx.amount (pos 0)

  -- The checks from the height to the transactions.
  unfoldable pub check_proposal : ℕ → Block → Chain → Result (Unit {0})
  check_proposal now b c = do
    reject_if (leb_ℤ b.height (pos 0)) invalid_height
    if leb_ℤ b.height c.height then check_stale b (lookup b.height c.blocks) else ok tt
    reject_if (b.time_utc == 0) missing_time
    reject_if (ltb (now + max_proposal_future_skew) b.time_utc) future_timestamp
    reject_if
        (eqb_ℤ b.height (add64 c.height (pos 1))
          && with_block (lookup c.height c.blocks) (λ prev. leb b.time_utc prev.time_utc))
        stale_timestamp
    reject_if (is_empty b.hash || not (str_eq b.hash (calc_block_hash b))) bad_hash
    validate_block_signature b
    reject_if (any is_malformed b.txs) tx_invalid

  abbrev check_buffered : Block → Option Block → Result (Unit {0})
  check_buffered b none = ok tt
  check_buffered b (some existing) =
      if str_eq existing.hash b.hash && not (is_empty b.hash)
      then err duplicate_pending
      else err conflicting_pending

  -- The block is too far ahead, or there is one for its height.
  unfoldable pub check_buffer : Block → Chain → Result (Unit {0})
  check_buffer b c = do
    reject_if (ltb_ℤ (add64 c.height max_proposal_buffer_distance) b.height) out_of_order
    check_buffered b (lookup b.height c.pending)

  -- The end of `applyBlockOrBufferLocked`: whether the block was applied.
  unfoldable pub place_block : Block → Chain → Result Bool × Chain
  place_block b c =
      if eqb_ℤ b.height (add64 c.height (pos 1))
      then (let (r, c') = apply_block b c in
          elim r [ err e ↦ (err e, c') | ok u ↦ (ok true, (drain_pending (set_tip b c')).1) ])
      else (elim (check_buffer b c) [
        | err e ↦ (err e, c)
        | ok u ↦ (ok false, record c { pending = insert b.height b c.pending })
      ])

  -- The quorum check, which may load the validator's identity first.
  unfoldable pub quorum_stage : Block → Option Daemon → Chain → Result (Unit {0}) × Chain
  quorum_stage b none c = (ok tt, c)
  quorum_stage b (some d) c =
      let (pub_hex, c') = validator_id c in (check_quorum b pub_hex d c', c')

  unfoldable pub judge_block : ℕ → Block → Chain → Result Bool × Chain
  judge_block now b c = elim (check_finalized b c) [
    | err e ↦ (err e, c)
    | ok u ↦
        let (r, c') = quorum_stage b c.daemon c in
        elim r [
          | err e ↦ (err e, c')
          | ok v ↦ elim (check_proposal now b c') [ err e ↦ (err e, c') | ok w ↦ place_block b c' ]
        ]
  ]

  -- The deferred function: the daemon counts the failure.
  unfoldable pub report_failure : Result Bool × Chain → Result Bool × Chain
  report_failure (ok applied, c) = (ok applied, c)
  report_failure (err e, c) = (
    err e,
    record c {
      daemon = elim c.daemon [ none ↦ none | some d ↦ some (record_proposal_failure e d) ];
    },
  )

  -- `applyBlockOrBufferLocked`
  unfoldable pub apply_block_or_buffer : ℕ → Block → Chain → Result Bool × Chain
  apply_block_or_buffer now b c =
      report_failure (judge_block now b (observe_validator b.producer c))

  -- `proposalSafetyCheckLocked`
  unfoldable pub proposal_safety_check : String → Chain → Result (Unit {0})
  proposal_safety_check local_validator c = do
    reject_if (is_some (lookup (add64 c.height (pos 1)) c.pending)) successor_buffered
    reject_if
        (any
          (λ (entry : ℤ × Block).
            ltb_ℤ c.height entry.0
            && not (is_empty entry.1.producer)
            && not (str_eq entry.1.producer local_validator))
          c.pending)
        foreign_proposal_buffered

  -- `requireValidatorActionReadyLocked`
  unfoldable pub require_validator_action_ready : String → Chain → Result (Unit {0}) × Chain
  require_validator_action_ready node_id c =
      if not (str_eq node_id "node1")
      then (err not_leader, c)
      else (let (r, c') = ensure_validator_identity c in
          elim r [
            | err e ↦ (err e, c')
            | ok pub_hex ↦
                (reject_if (is_empty pub_hex || str_eq pub_hex err_no_validator) no_validator, c')
          ])

  -- The block that `proposeBlock` fills in and signs.
  unfoldable pub make_block : ℕ → String → String → Bytes → List Tx → Chain → Block
  make_block now producer_addr pub_hex priv txs c =
      let h = add64 c.height (pos 1) in
      let b0 : Block = record {
        producer = pub_hex;
        producer_addr = producer_addr;
        reward = expected_reward h (sum_fees txs (pos 0));
        producer_pub_key = "";
        signature = "";
        balances_root = "";
        is_finalized = false;
        validator_id = pub_hex;
        height = h;
        prev_hash = c.tip;
        hash = "";
        time_utc = now;
        txs = txs;
      } in
      let b1 : Block = record b0 { balances_root = calc_state_hash_with_block b0 c } in
      let b2 : Block = record b1 { hash = calc_block_hash b1 } in sign_block b2 priv

  -- The taken transactions go back to the front of the mempool.
  unfoldable pub restore : List Tx → Chain → Chain
  restore txs c = rebuild_mempool_index (record c { mempool = txs ++ c.mempool })

  -- The end of `proposeBlock`, on a compacted mempool.
  unfoldable pub offer_block : ℕ → String → String → Bytes → Chain → Result (Unit {0}) × Chain
  offer_block now producer_addr pub_hex priv c =
      let txs = take max_block_txs c.mempool in
      let c1 = rebuild_mempool_index (record c { mempool = drop max_block_txs c.mempool }) in
      let (r, c2) =
        apply_block_or_buffer now (make_block now producer_addr pub_hex priv txs c1) c1 in
      elim r [ ok applied ↦ (ok tt, c2) | err e ↦ (err e, restore txs c2) ]

  abbrev with_key : ℕ → String → String → Option Bytes → Chain → Result (Unit {0}) × Chain
  with_key now producer_addr pub_hex none c = (err bad_privkey, c)
  with_key now producer_addr pub_hex (some priv) c = offer_block now producer_addr pub_hex priv c

  unfoldable pub propose_with : ℕ → String → String → String → Chain → Result (Unit {0}) × Chain
  propose_with now producer_addr pub_hex priv_hex c =
      if is_empty pub_hex || is_empty priv_hex || str_eq pub_hex err_no_validator
      then (err no_validator, c)
      else (elim (proposal_safety_check pub_hex c) [
        | err e ↦ (err e, c)
        | ok u ↦ with_key now producer_addr pub_hex (p.hex_decode priv_hex) (compact_mempool c).1
      ])

  -- The trimmed wallet address of the daemon.
  abbrev pub daemon_wallet : Option Daemon → String
  daemon_wallet none = ""
  daemon_wallet (some d) = p.trim_space d.wallet_addr

  -- `proposeBlock`. An empty wallet address of the daemon ends it in both places where it is looked
  -- up, so the address in wallet.json is never used.
  unfoldable pub propose_block : ℕ → Chain → Result (Unit {0}) × Chain
  propose_block now c =
      let payout = daemon_wallet c.daemon in
      if is_empty payout
      then (err no_payout_address, c)
      else (let (r, c1) = ensure_validator_identity c in
          elim r [
            | err e ↦ (err e, c1)
            | ok pub_hex ↦
                let (s, c2) = validator_priv_hex c1 in
                elim s [
                  | err e ↦ (err e, c2)
                  | ok priv_hex ↦ propose_with now payout pub_hex priv_hex c2
                ]
          ])
