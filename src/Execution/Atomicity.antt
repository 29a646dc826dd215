-- ===== src/Execution/Atomicity.antt =====
-- What a block that `applyBlockLocked` (internal/mesh/chain_core.go) rejects leaves behind.
use blackchain_node.Prelude.{String, ◌≡◌, refl, arith, ℤ, Bool-cases, inl, inr, [], ◌∙◌}
use blackchain_node.Types.{Account, Block, Error, err, Result-cases}
use blackchain_node.Platform.{Platform}
use blackchain_node.Dict.{Map, insert, int_Eq}
use blackchain_node.Chain.{Chain, observe_validator}
use blackchain_node.Ledger.{ledger_of}
use blackchain_node.Execution.{
  Exec, exec_txs, check_block, check_seal, execute_block, persist_and_execute, seal_and_execute,
  apply_block,
}
use blackchain_node.Execution.Loop.{exec_txs-ledger}

-- Two chains that differ at most in observed validators, in the block files on disk, and in
-- accounts of zero.
pub record IsSameState (c c' : Chain) : Type 0 where
  pub height : c'.height ≡ c.height
  pub tip : c'.tip ≡ c.tip
  pub blocks : c'.blocks ≡ c.blocks
  pub ledger : ledger_of c'.accounts ≡ ledger_of c.accounts
  pub mempool : c'.mempool ≡ c.mempool
  pub pending : c'.pending ≡ c.pending
  pub finalized : c'.finalized_height ≡ c.finalized_height

-- `observeValidatorLocked` changes the validator set and nothing else.
pub observe_rest :
    (id : String) (c : Chain)
    → observe_validator id c ≡ record c { validator_set = (observe_validator id c).validator_set }
unfolding observe_validator
observe_rest id c = ground arith

same : (c : Chain) → IsSameState c c
same c = record {
  height = refl;
  tip = refl;
  blocks = refl;
  ledger = refl;
  mempool = refl;
  pending = refl;
  finalized = refl;
}

pub observed-IsSameState :
    (a b : String) (c : Chain) → IsSameState c (observe_validator a (observe_validator b c))
observed-IsSameState a b c =
    rw (observe_rest a (observe_validator b c), observe_rest b c)
      (record {
        height = refl;
        tip = refl;
        blocks = refl;
        ledger = refl;
        mempool = refl;
        pending = refl;
        finalized = refl;
      })

-- Changes of the files and of the accounts that do not show.
same-with :
    (c d : Chain) (disk : Map ℤ Block) (accounts : Map String Account)
    → IsSameState c d
    → ledger_of accounts ≡ ledger_of d.accounts
    → IsSameState c (record d { disk = disk; accounts = accounts })
same-with c d disk accounts h e = record {
  height = h.height;
  tip = h.tip;
  blocks = h.blocks;
  ledger = e ∙ h.ledger;
  mempool = h.mempool;
  pending = h.pending;
  finalized = h.finalized;
}

module _ ⦃p : Platform⦄ where
  execute_block-err :
      (b : Block) (total : ℤ) (c d : Chain) (e : Error)
      → IsSameState c d
      → (execute_block b total (record d { disk = insert b.height b d.disk })).0 ≡ err e
      → IsSameState c (execute_block b total (record d { disk = insert b.height b d.disk })).1
  unfolding execute_block
  execute_block-err b total c d e s h =
      let start : Exec = record { accounts = d.accounts; snaps = []; total_fees = total } in
      elim (Result-cases (exec_txs b.txs start).0) [
        | inl (u, ran) ↦ absurd (ground arith)
        | inr (x, failed) ↦
            rw (failed, execute_block)
              (same-with c d (insert b.height b d.disk) (exec_txs b.txs start).1.accounts s
                (exec_txs-ledger b.txs start))
      ]

  seal_and_execute-err :
      (b : Block) (total : ℤ) (c d : Chain) (e : Error)
      → IsSameState c d
      → (seal_and_execute b total d).0 ≡ err e
      → IsSameState c (seal_and_execute b total d).1
  unfolding seal_and_execute persist_and_execute
  seal_and_execute-err b total c d e s h = elim (Result-cases (check_seal b total d)) [
    | inr (x, bad) ↦ rw (bad, seal_and_execute) s
    | inl (u, good) ↦ elim (Bool-cases (d.disk_faults b)) [
      | inl fault ↦ rw (good, seal_and_execute, fault) (same-with c d _ d.accounts s refl)
      | inr fine ↦
          rw (good, seal_and_execute, fine) (execute_block-err b total c d e s (ground arith))
    ]
  ]

  -- If `applyBlockLocked` returns an error, then height, tip, blocks, mempool, buffered blocks and
  -- finalized height are what they were, and every address has the balance and nonce that it had.
  pub apply_block-err :
      (b : Block) (c : Chain) (e : Error)
      → (apply_block b c).0 ≡ err e
      → IsSameState c (apply_block b c).1
  unfolding apply_block
  apply_block-err b c e h = elim (Result-cases (check_block b c)) [
    | inr (x, bad) ↦ rw (bad, apply_block) (same c)
    | inl (total, good) ↦
        rw (good, apply_block)
          (seal_and_execute-err b total c _ e (observed-IsSameState b.producer b.validator_id c)
            (ground arith))
  ]
