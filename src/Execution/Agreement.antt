-- ===== src/Execution/Agreement.antt =====
-- Two chains with the same height, tip and balances accept the same blocks (`applyBlockLocked` of
-- internal/mesh/chain_core.go).
use blackchain_node.Prelude.{◌≡◌, refl, sym, ap, ◌∙◌, ℤ, pos, false, [], String}
use blackchain_node.Types.{Account, Block, ok}
use blackchain_node.Platform.{Platform}
use blackchain_node.Dict.{Map, insert, int_Eq, string_Eq}
use blackchain_node.Dict.Keys.{IsKeyed}
use blackchain_node.Chain.{Chain, observe_validator}
use blackchain_node.Ledger.{Ledger, pay_all, IsPayableAll, ledger_of}
use blackchain_node.Ledger.View.{overlay-empty}
use blackchain_node.Merkle.Canonical.{merkle_balances_root-ledger}
use blackchain_node.Execution.{
  Exec, check_block, check_seal, execute_block, persist_and_execute, seal_and_execute, apply_block,
  calc_state_hash_with_block, calc_accounts,
}
use blackchain_node.Execution.Keyed.{calc_accounts-IsKeyed}
use blackchain_node.Execution.Loop.{AreWellFormed, exec_txs_runs, sum_fees}
use blackchain_node.Execution.Root.{
  calc_accounts-ledger as calc_accounts-committed, committed_ledger,
}
use blackchain_node.Execution.Success.{reward_ledger}
use blackchain_node.Execution.Applied.{
  observed_rest, apply_block-ok, seal_and_execute-ok, apply_block-IsApplied,
}

-- The same height, the same tip, and the same balance and nonce at every address.
pub record IsSameView (c d : Chain) : Type 0 where
  pub height : c.height ≡ d.height
  pub tip : c.tip ≡ d.tip
  pub ledger : ledger_of c.accounts ≡ ledger_of d.accounts

module _ ⦃p : Platform⦄ where
  calc_accounts-ledger :
      (b : Block) (m m' : Map String Account)
      → AreWellFormed b.txs
      → ledger_of m ≡ ledger_of m'
      → ledger_of (calc_accounts b m) ≡ ledger_of (calc_accounts b m')
  calc_accounts-ledger b m m' formed same =
      calc_accounts-committed b m formed
      ∙ (ap (λ (l : Ledger). committed_ledger b (sum_fees b.txs (pos 0)) (pay_all b.txs l)) same
          ∙ sym (calc_accounts-committed b m' formed))

  -- The root that a block of well-formed transactions commits to depends on the balances alone.
  calc_state_hash-same :
      (b : Block) (c d : Chain)
      → AreWellFormed b.txs
      → IsSameView c d
      → IsKeyed c.accounts
      → IsKeyed d.accounts
      → calc_state_hash_with_block b c ≡ calc_state_hash_with_block b d
  unfolding calc_state_hash_with_block
  calc_state_hash-same b c d formed same h k =
      merkle_balances_root-ledger (calc_accounts b c.accounts) (calc_accounts b d.accounts)
        (calc_accounts-IsKeyed b c.accounts h) (calc_accounts-IsKeyed b d.accounts k)
        (calc_accounts-ledger b c.accounts d.accounts formed same.ledger)

  check_block-same : (b : Block) (c d : Chain) → IsSameView c d → check_block b c ≡ check_block b d
  unfolding check_block
  check_block-same b c d same = rw (same.height, same.tip) refl

  pub check_seal-same :
      (b : Block) (total : ℤ) (c d : Chain)
      → calc_state_hash_with_block b c ≡ calc_state_hash_with_block b d
      → check_seal b total c ≡ check_seal b total d
  unfolding check_seal
  check_seal-same b total c d same = rw same refl

  execute_block_runs :
      (b : Block) (total : ℤ) (d : Chain)
      → AreWellFormed b.txs
      → IsPayableAll b.txs (ledger_of d.accounts)
      → (execute_block b total d).0 ≡ ok tt
  unfolding execute_block
  execute_block_runs b total d formed covered =
      let st : Exec = record { accounts = d.accounts; snaps = []; total_fees = total } in
      let ran = exec_txs_runs b.txs st formed (rw overlay-empty covered) in
      rw (ran, execute_block) refl

  pub seal_and_execute_runs :
      (b : Block) (total : ℤ) (d : Chain)
      → check_seal b total d ≡ ok tt
      → d.disk_faults b ≡ false
      → AreWellFormed b.txs
      → IsPayableAll b.txs (ledger_of d.accounts)
      → (seal_and_execute b total d).0 ≡ ok tt
  unfolding seal_and_execute persist_and_execute
  seal_and_execute_runs b total d sealed fine formed covered =
      let stored = record d { disk = insert b.height b d.disk } in
      rw (sealed, seal_and_execute, fine) (execute_block_runs b total stored formed covered)

  -- A chain that can write its files accepts every block that a chain with the same height, tip and
  -- balances accepts, and both have the same height, tip and balances afterwards. Neither the order
  -- of their maps of accounts nor their mempools, buffers or observed validators play a role.
  pub apply_block-same :
      (b : Block) (c d : Chain)
      → IsSameView c d
      → IsKeyed c.accounts
      → IsKeyed d.accounts
      → d.disk_faults b ≡ false
      → (apply_block b c).0 ≡ ok tt
      → ((apply_block b d).0 ≡ ok tt) × IsSameView (apply_block b c).1 (apply_block b d).1
  unfolding calc_state_hash_with_block apply_block
  apply_block-same b c d same h k fine good =
      let a = apply_block-IsApplied b c good in
      let (total, checked, there) = apply_block-ok b c good in
      let c1 = observe_validator b.producer (observe_validator b.validator_id c) in
      let d1 = observe_validator b.producer (observe_validator b.validator_id d) in
      let ran : (seal_and_execute b total c1).0 ≡ ok tt = ap (λ r. r.0) (sym there) ∙ good in
      let (sealed, executed, rest) = seal_and_execute-ok b total c1 ran in
      let root : calc_state_hash_with_block b c1 ≡ calc_state_hash_with_block b d1 =
        ap (calc_state_hash_with_block b) (observed_rest b.producer b.validator_id c)
        ∙ (calc_state_hash-same b c d a.well_formed same h k
            ∙ ap (calc_state_hash_with_block b)
                (sym (observed_rest b.producer b.validator_id d))) in
      let checked' : check_block b d ≡ ok total = sym (check_block-same b c d same) ∙ checked in
      let sealed' : check_seal b total d1 ≡ ok tt =
        sym (check_seal-same b total c1 d1 root) ∙ sealed in
      let seen = observed_rest b.producer b.validator_id d in
      let covered : IsPayableAll b.txs (ledger_of d1.accounts) =
        rw seen (rw (← same.ledger) a.covered) in
      let fine' : d1.disk_faults b ≡ false = ap (λ (e : Chain). e.disk_faults b) seen ∙ fine in
      let ran' = seal_and_execute_runs b total d1 sealed' fine' a.well_formed covered in
      let good' : (apply_block b d).0 ≡ ok tt = rw (checked', apply_block) ran' in
      let a' = apply_block-IsApplied b d good' in
      (
        good',
        record {
          height = a.height ∙ sym a'.height;
          tip = a.tip ∙ sym a'.tip;
          ledger =
              a.ledger
              ∙ (ap
                    (λ (l : Ledger).
                      reward_ledger b (sum_fees b.txs (sum_fees b.txs (pos 0))) (pay_all b.txs l))
                    same.ledger
                  ∙ sym a'.ledger);
        },
      )
