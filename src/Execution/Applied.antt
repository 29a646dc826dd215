-- ===== src/Execution/Applied.antt =====
-- The whole effect of a block that `applyBlockLocked` (internal/mesh/chain_core.go) accepts.
use mathlib.Core.Path.{subst}
use blackchain_node.Prelude.{String, ◌≡◌, refl, sym, arith, ℤ, pos, inl, inr, [], ◌∙◌, ap}
use blackchain_node.Types.{Block, ok, Result-cases}
use blackchain_node.Platform.{Platform}
use blackchain_node.Dict.{Map, insert, int_Eq, string_Eq}
use blackchain_node.Chain.{Chain, observe_validator}
use blackchain_node.Ledger.{pay_all, IsPayableAll, ledger_of}
use blackchain_node.Ledger.View.{overlay-empty}
use blackchain_node.Mempool.{compact_mempool}
use blackchain_node.Mempool.Compaction.{compact_mempool_rest}
use blackchain_node.Finality.Depth.{
  advance_finality_rest, advanced_blocks, advanced_height, advance_finality_parts,
}
use blackchain_node.Execution.{
  Exec, exec_txs, write_back, pay_rewards, calc_state_hash_with_block, check_block, check_seal,
  commit_block, execute_block, persist_and_execute, seal_and_execute, apply_block,
}
use blackchain_node.Execution.Loop.{sum_fees, AreWellFormed, exec_txs-PaidAll, write_back-ledger}
use blackchain_node.Execution.Atomicity.{observe_rest}
use blackchain_node.Execution.Success.{
  reward_ledger, pay_rewards-ledger, IsSound, IsSealed, check_block-IsSound, check_seal-IsSealed,
}

module _ ⦃p : Platform⦄ where
  -- What an accepted block is and does, with `total` the sum of its fees. The execution adds the
  -- fees to that sum once more before the treasury is paid.
  pub record IsApplied (b : Block) (total : ℤ) (c c' : Chain) : Type 0 where
    pub sound : IsSound b c total
    pub sealed : IsSealed b total c
    pub well_formed : AreWellFormed b.txs
    pub covered : IsPayableAll b.txs (ledger_of c.accounts)
    pub height : c'.height ≡ b.height
    pub tip : c'.tip ≡ b.hash
    pub ledger :
        ledger_of c'.accounts
        ≡ reward_ledger b (sum_fees b.txs total) (pay_all b.txs (ledger_of c.accounts))
    pub stored : c'.disk ≡ insert b.height b c.disk
    pub blocks :
        c'.blocks ≡ advanced_blocks b.height c.finalized_height (insert b.height b c.blocks)
    pub final : c'.finalized_height ≡ advanced_height b.height c.finalized_height
    pub pending : c'.pending ≡ c.pending

  -- The parts of `commit_block` that the compaction leaves alone.
  commit_rest :
      (b : Block) (st : Exec) (c : Chain)
      → let c' = commit_block b st c in
        (c'.height ≡ b.height)
        × (c'.disk ≡ c.disk)
        × (c'.pending ≡ c.pending)
        × (c'.accounts ≡ pay_rewards b st.total_fees (write_back st.snaps st.accounts))
        × (c'.blocks ≡ advanced_blocks b.height c.finalized_height (insert b.height b c.blocks))
        × (c'.finalized_height ≡ advanced_height b.height c.finalized_height)
        × (c'.tip ≡ b.hash)
  unfolding commit_block
  commit_rest b st c =
      let c1 = record c {
        accounts = pay_rewards b st.total_fees (write_back st.snaps st.accounts);
        blocks = insert b.height b c.blocks;
        height = b.height;
        tip = b.hash;
      } in
      let c2 = (compact_mempool c1).1 in
      let (blocks, final) = advance_finality_parts c2 in
      let same = compact_mempool_rest c1 in
      let kept : let c' = commit_block b st c in
          (c'.height ≡ b.height)
          × (c'.disk ≡ c.disk)
          × (c'.pending ≡ c.pending)
          × (c'.accounts ≡ pay_rewards b st.total_fees (write_back st.snaps st.accounts)) =
        rw (advance_finality_rest c2) (rw same (refl, refl, refl, refl)) in
      (
        kept.0,
        kept.1,
        kept.2,
        kept.3,
        blocks ∙ ap (λ (d : Chain). advanced_blocks d.height d.finalized_height d.blocks) same,
        final ∙ ap (λ (d : Chain). advanced_height d.height d.finalized_height) same,
        refl,
      )

  pub execute_block-ok :
      (b : Block) (total : ℤ) (c : Chain)
      → (execute_block b total c).0 ≡ ok tt
      → let st : Exec = record { accounts = c.accounts; snaps = []; total_fees = total } in
        ((exec_txs b.txs st).0 ≡ ok tt)
        × ((execute_block b total c).1 ≡ commit_block b (exec_txs b.txs st).1 c)
  unfolding execute_block
  execute_block-ok b total c h = ground arith

  pub seal_and_execute-ok :
      (b : Block) (total : ℤ) (c : Chain)
      → (seal_and_execute b total c).0 ≡ ok tt
      → let c1 = record c { disk = insert b.height b c.disk } in
        (check_seal b total c ≡ ok tt)
        × ((execute_block b total c1).0 ≡ ok tt)
        × ((seal_and_execute b total c).1 ≡ (execute_block b total c1).1)
  unfolding seal_and_execute persist_and_execute
  seal_and_execute-ok b total c h = ground arith

  pub apply_block-ok :
      (b : Block) (c : Chain)
      → (apply_block b c).0 ≡ ok tt
      → (total : ℤ) × (check_block b c ≡ ok total)
        × (apply_block b c
            ≡ seal_and_execute b total
                (observe_validator b.producer (observe_validator b.validator_id c)))
  unfolding apply_block
  apply_block-ok b c h = elim (Result-cases (check_block b c)) [
    | inr (x, bad) ↦ absurd (ground arith)
    | inl (total, good) ↦ (total, good, rw (good, apply_block) refl)
  ]

  pub observed_rest :
      (x y : String) (c : Chain)
      → let d = observe_validator x (observe_validator y c) in
        d ≡ record c { validator_set = d.validator_set }
  observed_rest x y c =
      observe_rest x (observe_validator y c)
      ∙ ap
          (λ (e : Chain). record e {
            validator_set = (observe_validator x (observe_validator y c)).validator_set;
          })
          (observe_rest y c)

  -- Once the transactions are executed.
  commit-ledger :
      (b : Block) (total : ℤ) (c : Chain)
      → let st : Exec = record { accounts = c.accounts; snaps = []; total_fees = total } in
        let st' = (exec_txs b.txs st).1 in
        (exec_txs b.txs st).0 ≡ ok tt
        → ledger_of (pay_rewards b st'.total_fees (write_back st'.snaps st'.accounts))
          ≡ reward_ledger b (sum_fees b.txs total) (pay_all b.txs (ledger_of c.accounts))
  commit-ledger b total c ran =
      let st : Exec = record { accounts = c.accounts; snaps = []; total_fees = total } in
      let st' = (exec_txs b.txs st).1 in
      let all = exec_txs-PaidAll b.txs st ran in
      pay_rewards-ledger b st'.total_fees (write_back st'.snaps st'.accounts)
      ∙ (ap (λ (n : ℤ). reward_ledger b n (ledger_of (write_back st'.snaps st'.accounts))) all.fees
          ∙ ap (reward_ledger b (sum_fees b.txs total)) (
              write_back-ledger st'.snaps st'.accounts
              ∙ (all.paid ∙ ap (pay_all b.txs) (overlay-empty (ledger_of c.accounts)))))

  IsApplied-at :
      (b : Block) (total : ℤ) (c : Chain) (observed : Map String (Unit {0}))
      → IsSound b c total
      → (seal_and_execute b total (record c { validator_set = observed })).0 ≡ ok tt
      → IsApplied b total c (seal_and_execute b total (record c { validator_set = observed })).1
  unfolding calc_state_hash_with_block
  IsApplied-at b total c observed sound h =
      let d = record c { validator_set = observed } in
      let (sealed, ran, same) = seal_and_execute-ok b total d h in
      let c1 = record d { disk = insert b.height b d.disk } in
      let (done, committed) = execute_block-ok b total c1 ran in
      let st : Exec = record { accounts = c.accounts; snaps = []; total_fees = total } in
      let all = exec_txs-PaidAll b.txs st done in
      let seal = check_seal-IsSealed b total d sealed in
      let (height, disk, pending, accounts, blocks, final, tip) =
        commit_rest b (exec_txs b.txs st).1 c1 in
      rw (same, committed)
        (record {
          sound = sound;
          sealed = record {
            hash = seal.hash;
            signed = seal.signed;
            reward = seal.reward;
            root = seal.root;
          };
          well_formed = all.well_formed;
          covered = rw overlay-empty at all.covered;
          height = height;
          tip = tip;
          ledger = ap ledger_of accounts ∙ commit-ledger b total c1 done;
          stored = disk;
          blocks = blocks;
          final = final;
          pending = pending;
        })

  -- A block that `applyBlockLocked` accepts extends the tip at the next height, has at most 64
  -- transactions, a time, the hash, a valid signature, the expected reward and the state root that
  -- are computed for it, and transactions that can be paid one after the other; afterwards height,
  -- tip, blocks, finality, block file and balances are those that `IsApplied` states.
  pub apply_block-IsApplied :
      (b : Block) (c : Chain)
      → (apply_block b c).0 ≡ ok tt
      → IsApplied b (sum_fees b.txs (pos 0)) c (apply_block b c).1
  apply_block-IsApplied b c h =
      let (total, checked, same) = apply_block-ok b c h in
      let observed =
        (observe_validator b.producer (observe_validator b.validator_id c)).validator_set in
      let d = record c { validator_set = observed } in
      let here : observe_validator b.producer (observe_validator b.validator_id c) ≡ d =
        observed_rest b.producer b.validator_id c in
      let sound = check_block-IsSound b c total checked in
      let there : apply_block b c ≡ seal_and_execute b total d =
        same ∙ ap (seal_and_execute b total) here in
      rw there (
        subst (λ n. IsApplied b n c (seal_and_execute b total d).1) sound.fees
          (IsApplied-at b total c observed sound (ap (λ r. r.0) (sym there) ∙ h)))
