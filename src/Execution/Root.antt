-- ===== src/Execution/Root.antt =====
-- The accounts that `applyBlockLocked` leaves, against those whose Merkle root the block commits to
-- through `calcStateHashWithBlock` (internal/mesh/chain_core.go).
use blackchain_node.Prelude.{
  String, true, false, not, ◌&&◌, ◌≡◌, refl, sym, ap, ◌∙◌, arith, ℤ, pos, ltb_ℤ, Bool-cases, inl,
  inr, if◌then◌else◌,
}
use blackchain_node.Types.{Account, Block, ok}
use blackchain_node.Platform.{Platform}
use blackchain_node.Signing.{is_empty, validate_block_signature}
use blackchain_node.Dict.{Map}
use blackchain_node.Chain.{Chain}
use blackchain_node.Fees.{fee_split_active, split_fees, treasury_addr}
use blackchain_node.Ledger.{Ledger, pay_all, credit, ledger_of}
use blackchain_node.Execution.{
  apply_block, calc_accounts, calc_rewards, calc_txs, calc_fees, add_balance, recipient,
  expected_reward,
}
use blackchain_node.Execution.Loop.{
  sum_fees, AreWellFormed, add_balance-ledger, calc_txs-ledger, calc_fees-sum,
}
use blackchain_node.Execution.Success.{reward_ledger}
use blackchain_node.Execution.Applied.{apply_block-IsApplied}

-- The rewards of `calcStateHashWithBlock` on the ledger.
abbrev pub committed_ledger : Block → ℤ → Ledger → Ledger
committed_ledger b total l =
    let treasury = (split_fees total).1 in
    let paid =
      if fee_split_active b.height && ltb_ℤ (pos 0) treasury
      then credit treasury_addr treasury l
      else l in
    if ltb_ℤ (pos 0) (expected_reward b.height total) && not (is_empty (recipient b))
    then credit (recipient b) (expected_reward b.height total) paid
    else paid

calc_rewards-ledger :
    (b : Block) (total : ℤ) (tmp : Map String Account)
    → ledger_of (calc_rewards b total tmp) ≡ committed_ledger b total (ledger_of tmp)
unfolding calc_rewards
calc_rewards-ledger b total tmp =
    elim (Bool-cases (fee_split_active b.height && ltb_ℤ (pos 0) (split_fees total).1)) [
      | inr off ↦ rw off (outer tmp)
      | inl on ↦ rw on (
          outer (add_balance treasury_addr (split_fees total).1 tmp)
          ∙ ap
              (λ (l : Ledger).
                if ltb_ℤ (pos 0) (expected_reward b.height total) && not (is_empty (recipient b))
                then credit (recipient b) (expected_reward b.height total) l
                else l)
              (add_balance-ledger treasury_addr (split_fees total).1 tmp))
    ]
  where
    outer :
        (m : Map String Account)
        → ledger_of (
            if ltb_ℤ (pos 0) (expected_reward b.height total) && not (is_empty (recipient b))
            then add_balance (recipient b) (expected_reward b.height total) m
            else m)
          ≡ (if ltb_ℤ (pos 0) (expected_reward b.height total) && not (is_empty (recipient b))
              then credit (recipient b) (expected_reward b.height total) (ledger_of m)
              else ledger_of m)
    outer m =
        elim (Bool-cases
          (ltb_ℤ (pos 0) (expected_reward b.height total) && not (is_empty (recipient b)))) [
            | inr off ↦ rw off refl
            | inl on ↦ rw on (add_balance-ledger (recipient b) (expected_reward b.height total) m)
          ]

pub calc_accounts-ledger :
    (b : Block) (accounts : Map String Account)
    → AreWellFormed b.txs
    → ledger_of (calc_accounts b accounts)
      ≡ committed_ledger b (sum_fees b.txs (pos 0)) (pay_all b.txs (ledger_of accounts))
unfolding calc_accounts
calc_accounts-ledger b accounts w =
    calc_rewards-ledger b (calc_fees b.txs (pos 0)) (calc_txs b.txs accounts)
    ∙ (ap (λ (l : Ledger). committed_ledger b (calc_fees b.txs (pos 0)) l)
          (calc_txs-ledger b.txs accounts w)
        ∙ ap (λ (n : ℤ). committed_ledger b n (pay_all b.txs (ledger_of accounts)))
            (calc_fees-sum b.txs (pos 0) w))

pub early_rewards :
    (b : Block) (n m : ℤ) (l : Ledger)
    → fee_split_active b.height ≡ false
    → ltb_ℤ (pos 0) b.reward ≡ true
    → b.reward ≡ expected_reward b.height n
    → is_empty (recipient b) ≡ false
    → reward_ledger b m l ≡ committed_ledger b n l
early_rewards b n m l early paid e named = rw (early, ← e, paid, named) refl

pub late_rewards :
    (b : Block) (n m : ℤ) (l : Ledger)
    → fee_split_active b.height ≡ true
    → ltb_ℤ (pos 0) (split_fees m).1 ≡ true
    → ltb_ℤ (pos 0) (split_fees n).1 ≡ true
    → ltb_ℤ (pos 0) b.reward ≡ true
    → b.reward ≡ expected_reward b.height n
    → is_empty (recipient b) ≡ false
    → (reward_ledger b m l
        ≡ credit treasury_addr (split_fees m).1 (credit (recipient b) b.reward l))
      × (committed_ledger b n l
          ≡ credit (recipient b) b.reward (credit treasury_addr (split_fees n).1 l))
late_rewards b n m l late tm tn paid e named =
    (rw (late, tm) refl, rw (late, tn, ← e, paid, named) refl)

module _ ⦃p : Platform⦄ where
  signed-producer : (b : Block) → validate_block_signature b ≡ ok tt → is_empty b.producer ≡ false
  unfolding validate_block_signature
  signed-producer b h = ground arith

  pub recipient-named :
      (b : Block) → validate_block_signature b ≡ ok tt → is_empty (recipient b) ≡ false
  recipient-named b h = ground (arith, signed-producer b h)

  -- Below the height of the fee split, an accepted block with a positive reward leaves every address
  -- with exactly the balance and nonce in the accounts whose state root the block carries.
  pub apply_block-root :
      (b : Block) (c : Chain)
      → (apply_block b c).0 ≡ ok tt
      → fee_split_active b.height ≡ false
      → ltb_ℤ (pos 0) b.reward ≡ true
      → ledger_of (apply_block b c).1.accounts ≡ ledger_of (calc_accounts b c.accounts)
  apply_block-root b c h early paid =
      let done = apply_block-IsApplied b c h in
      let n = sum_fees b.txs (pos 0) in
      let e : b.reward ≡ expected_reward b.height n = done.sealed.reward in
      let named = recipient-named b done.sealed.signed in
      done.ledger
      ∙ (early_rewards b n _ _ early paid e named
          ∙ sym (calc_accounts-ledger b c.accounts done.well_formed))
