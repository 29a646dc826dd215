-- ===== src/Execution/Treasury.antt =====
-- From the height of the fee split on, `applyBlockLocked` (internal/mesh/chain_core.go) pays the
-- treasury its share of twice the fees, while the block commits to its share of the fees.
use blackchain_node.Prelude.{
  ℕ, ◌+◌, ◌*◌, ◌-◌, ◌/◌, ◌^◌, ◌≤◌, ◌<◌, String, str_eq, str_eq_iff, true, false, List, [], ◌∷◌, ◌≡◌,
  ap, ◌∙◌, arith, ℤ, pos, pos_part, add64, ltb_ℤ,
}
use blackchain_node.Types.{Tx, Account, Block, ok}
use blackchain_node.Platform.{Platform}
use blackchain_node.Chain.{Chain}
use blackchain_node.Fees.{fee_split_active, split_fees, treasury_addr}
use blackchain_node.Fees.Bounds.{split_fees_pos}
use blackchain_node.Ledger.{Ledger, update, pay_all, credit, ledger_of}
use blackchain_node.Execution.{apply_block, calc_accounts, recipient, expected_reward}
use blackchain_node.Execution.Payments.{is_well_formed}
use blackchain_node.Execution.Loop.{sum_fees, AreWellFormed}
use blackchain_node.Execution.Success.{reward_ledger}
use blackchain_node.Execution.Applied.{apply_block-IsApplied}
use blackchain_node.Execution.Root.{
  late_rewards, committed_ledger, calc_accounts-ledger, recipient-named,
}

-- The sum of the fees, with no wrap-around.
abbrev pub plain_fees : List Tx → ℕ
plain_fees [] = 0
plain_fees (tx ∷ txs) = pos_part tx.fee + plain_fees txs

-- The treasury's share of a sum of fees.
abbrev pub treasury_share : ℕ → ℕ
treasury_share n = n - n * 9000 / 10000

add64_fee :
    (a : ℕ) (tx : Tx)
    → is_well_formed tx ≡ true
    → a + pos_part tx.fee < 2 ^ 63
    → add64 (pos a) tx.fee ≡ pos (a + pos_part tx.fee)
unfolding add64
add64_fee a tx w h = ground arith

sum_fees-plain :
    (txs : List Tx) (a : ℕ)
    → AreWellFormed txs
    → a + plain_fees txs < 2 ^ 63
    → sum_fees txs (pos a) ≡ pos (a + plain_fees txs)
sum_fees-plain [] a w h = ground arith
sum_fees-plain (tx ∷ txs) a w h =
    rw (add64_fee a tx w.0 (omega arith))
      (sum_fees-plain txs (a + pos_part tx.fee) w.1 (omega arith) ∙ ap pos (omega arith))

credit_at : (a : String) (n : ℤ) (l : Ledger) → (credit a n l a).balance ≡ add64 (l a).balance n
unfolding credit update
credit_at a n l = ground (arith, str_eq_iff a a)

credit_ne : (a x : String) (n : ℤ) (l : Ledger) → str_eq a x ≡ false → credit a n l x ≡ l x
unfolding credit update
credit_ne a x n l h = rw h

share_pos : (n : ℕ) → 0 < n → n * 9000 < 2 ^ 63 → ltb_ℤ (pos 0) (split_fees (pos n)).1 ≡ true
share_pos n h k = rw (split_fees_pos n k) (ground arith)

module _ ⦃p : Platform⦄ where
  -- For an accepted block from the height of the fee split on, whose fees add up to n without
  -- overflow, n at least 10, which has a positive reward and does not pay out to the treasury itself:
  -- the treasury ends with its share of 2n more than after the payments, the accounts that the
  -- block's state root stands for have only its share of n more, and the two shares differ.
  pub apply_block-treasury :
      (b : Block) (c : Chain)
      → (apply_block b c).0 ≡ ok tt
      → fee_split_active b.height ≡ true
      → ltb_ℤ (pos 0) b.reward ≡ true
      → str_eq (recipient b) treasury_addr ≡ false
      → 10 ≤ plain_fees b.txs
      → 2 * plain_fees b.txs * 9000 < 2 ^ 63
      → let n = plain_fees b.txs in
        let before = (pay_all b.txs (ledger_of c.accounts) treasury_addr).balance in
        ((ledger_of (apply_block b c).1.accounts treasury_addr).balance
          ≡ add64 before (pos (treasury_share (2 * n))))
        × ((ledger_of (calc_accounts b c.accounts) treasury_addr).balance
            ≡ add64 before (pos (treasury_share n)))
        × (treasury_share n < treasury_share (2 * n))
  apply_block-treasury b c h late paid other some_fees small =
      let done = apply_block-IsApplied b c h in
      let n = plain_fees b.txs in
      let once : sum_fees b.txs (pos 0) ≡ pos n =
        sum_fees-plain b.txs 0 done.well_formed (omega arith) ∙ ap pos (omega arith) in
      let twice : sum_fees b.txs (sum_fees b.txs (pos 0)) ≡ pos (2 * n) =
        ap (sum_fees b.txs) once
        ∙ (sum_fees-plain b.txs n done.well_formed (omega arith) ∙ ap pos (omega arith)) in
      let paid_out = pay_all b.txs (ledger_of c.accounts) in
      let e : b.reward ≡ expected_reward b.height (pos n) =
        done.sealed.reward ∙ ap (expected_reward b.height) once in
      let (made, committed) =
        late_rewards b (pos n) (pos (2 * n)) paid_out late (share_pos (2 * n) (omega arith) small)
          (share_pos n (omega arith) (omega arith)) paid e (recipient-named b done.sealed.signed) in
      let r = recipient b in
      let t = treasury_addr in
      let balance = λ (l : Ledger). (l t).balance in
      (
        ap balance (done.ledger ∙ (ap (λ (m : ℤ). reward_ledger b m paid_out) twice ∙ made))
            ∙ (credit_at t _ _
                ∙ (ap (λ (x : Account). add64 x.balance (split_fees (pos (2 * n))).1)
                      (credit_ne r t b.reward paid_out other)
                    ∙ ap (λ (s : ℤ × ℤ). add64 (balance paid_out) s.1)
                        (split_fees_pos (2 * n) small))),
        ap balance (
              calc_accounts-ledger b c.accounts done.well_formed
              ∙ (ap (λ (m : ℤ). committed_ledger b m paid_out) once ∙ committed))
            ∙ (ap (λ (x : Account). x.balance)
                  (credit_ne r t b.reward (credit t (split_fees (pos n)).1 paid_out) other)
                ∙ (credit_at t (split_fees (pos n)).1 paid_out
                    ∙ ap (λ (s : ℤ × ℤ). add64 (balance paid_out) s.1)
                        (split_fees_pos n (omega arith)))),
        omega arith,
      )
