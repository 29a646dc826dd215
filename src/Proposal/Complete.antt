-- ===== src/Proposal/Complete.antt =====
-- `applyBlockLocked` of internal/mesh/chain_core.go accepts every block that is as it should be.
use blackchain_node.Prelude.{
  ◌≤◌, str_eq, str_eq_iff, true, false, ◌≡◌, refl, ap, ◌∙◌, arith, All, pos, add64, ltb_ℤ, eqb_ℤ,
  eqb_ℤ_iff, length, ◌==◌, ltb,
}
use blackchain_node.Types.{Block, ok}
use blackchain_node.Platform.{Platform}
use blackchain_node.Signing.{is_empty, calc_block_hash, validate_block_signature}
use blackchain_node.Chain.{Chain, observe_validator}
use blackchain_node.Fees.{max_block_txs}
use blackchain_node.Ledger.{IsPayableAll, ledger_of}
use blackchain_node.Mempool.{tx_id, sender_nonce_key}
use blackchain_node.Mempool.Index.{IsDistinct}
use blackchain_node.Mempool.Sound.{IsFit}
use blackchain_node.Execution.{
  check_block, check_seal, apply_block, expected_reward, calc_state_hash_with_block,
}
use blackchain_node.Execution.Loop.{sum_fees}
use blackchain_node.Execution.Applied.{observed_rest}
use blackchain_node.Execution.Agreement.{seal_and_execute_runs, check_seal-same}
use blackchain_node.Proposal.Scan.{scan_txs-fit, fit-AreWellFormed}

module _ ⦃p : Platform⦄ where
  -- A block that a chain should accept.
  pub record IsGood (b : Block) (c : Chain) : Type 0 where
    pub few : length b.txs ≤ max_block_txs
    pub fit : All IsFit b.txs
    pub distinct_ids : IsDistinct tx_id b.txs
    pub distinct_nonces : IsDistinct sender_nonce_key b.txs
    pub covered : IsPayableAll b.txs (ledger_of c.accounts)
    pub gain : ltb_ℤ b.reward (pos 0) ≡ false
    pub next_height : b.height ≡ add64 c.height (pos 1)
    pub on_tip : b.prev_hash ≡ c.tip
    pub timed : (b.time_utc == 0) ≡ false
    pub named : is_empty b.hash ≡ false
    pub hash : b.hash ≡ calc_block_hash b
    pub signed : validate_block_signature b ≡ ok tt
    pub reward : b.reward ≡ expected_reward b.height (sum_fees b.txs (pos 0))
    pub rooted : is_empty b.balances_root ≡ false
    pub root : b.balances_root ≡ calc_state_hash_with_block b c
    pub writes : c.disk_faults b ≡ false

  check_block-good :
      (b : Block) (c : Chain) → IsGood b c → check_block b c ≡ ok (sum_fees b.txs (pos 0))
  unfolding check_block
  check_block-good b c g =
      let scanned = scan_txs-fit b.txs g.fit g.distinct_ids g.distinct_nonces in
      let few : ltb max_block_txs (length b.txs) ≡ false = ground (arith, g.few) in
      let height : eqb_ℤ b.height (add64 c.height (pos 1)) ≡ true =
        (eqb_ℤ_iff b.height (add64 c.height (pos 1))).1 g.next_height in
      let tip : str_eq b.prev_hash c.tip ≡ true = (str_eq_iff b.prev_hash c.tip).1 g.on_tip in
      rw (g.gain, few, scanned, height, tip, g.timed) refl

  check_seal-good :
      (b : Block) (c : Chain) → IsGood b c → check_seal b (sum_fees b.txs (pos 0)) c ≡ ok tt
  unfolding check_seal
  check_seal-good b c g =
      let hash : str_eq b.hash (calc_block_hash b) ≡ true =
        (str_eq_iff b.hash (calc_block_hash b)).1 g.hash in
      let reward : eqb_ℤ b.reward (expected_reward b.height (sum_fees b.txs (pos 0))) ≡ true =
        (eqb_ℤ_iff b.reward (expected_reward b.height (sum_fees b.txs (pos 0)))).1 g.reward in
      let root : str_eq b.balances_root (calc_state_hash_with_block b c) ≡ true =
        (str_eq_iff b.balances_root (calc_state_hash_with_block b c)).1 g.root in
      rw (g.named, hash, g.signed, reward, g.rooted, root) refl

  -- A good block is accepted: at most 64 fit transactions with different ids and sender nonces, which
  -- can be paid one after the other, a reward that is expected and not negative, the next height, the
  -- tip before it, a time, its own hash, a valid signature, the state root, and a file system that
  -- takes its file.
  pub apply_block_complete : (b : Block) (c : Chain) → IsGood b c → (apply_block b c).0 ≡ ok tt
  unfolding apply_block calc_state_hash_with_block
  apply_block_complete b c g =
      let total = sum_fees b.txs (pos 0) in
      let d = observe_validator b.producer (observe_validator b.validator_id c) in
      let seen = observed_rest b.producer b.validator_id c in
      let sealed : check_seal b total d ≡ ok tt =
        ap (check_seal b total) seen ∙ check_seal-same b total _ c refl ∙ check_seal-good b c g in
      let covered : IsPayableAll b.txs (ledger_of d.accounts) = rw seen g.covered in
      let fine : d.disk_faults b ≡ false = ap (λ (e : Chain). e.disk_faults b) seen ∙ g.writes in
      rw (check_block-good b c g, apply_block)
        (seal_and_execute_runs b total d sealed fine (fit-AreWellFormed b.txs g.fit) covered)
