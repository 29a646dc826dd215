-- ===== src/Execution/Overflow.antt =====
-- The balance test of `applyBlockLocked` (internal/mesh/chain_core.go) on sums that do not fit int64.
use blackchain_node.Prelude.{ℕ, ◌+◌, ◌≤◌, ◌<◌, ◌^◌, ◌-◌, ◌≡◌, arith, true, pos, negsuc, add64}
use blackchain_node.Types.{Tx, ok}
use blackchain_node.Execution.{Exec, exec_tx}
use blackchain_node.Execution.Payments.{view, is_well_formed, exec_tx_runs}

-- Two numbers below 2^63 that add up to 2^63 or more have a negative sum on int64.
add64-overflow :
    (a f : ℕ)
    → a < 2 ^ 63
    → f < 2 ^ 63
    → 2 ^ 63 ≤ a + f
    → add64 (pos a) (pos f) ≡ negsuc (2 ^ 64 - 1 - (a + f))
unfolding add64
add64-overflow a f h k l = ground arith

-- A well-formed transaction whose nonce is next, and whose amount and fee are int64 numbers that add
-- up to 2^63 or more, is executed whatever the sender's balance is, as long as that is not negative:
-- the sum wraps around to a negative number, which every such balance covers.
pub exec_tx-overflow :
    (tx : Tx) (st : Exec) (a f n : ℕ)
    → is_well_formed tx ≡ true
    → tx.amount ≡ pos a
    → tx.fee ≡ pos f
    → tx.nonce ≡ (view st tx.from).nonce
    → (view st tx.from).balance ≡ pos n
    → a < 2 ^ 63
    → f < 2 ^ 63
    → 2 ^ 63 ≤ a + f
    → (exec_tx tx st).0 ≡ ok tt
exec_tx-overflow tx st a f n form amount fee nonce balance h k l =
    let sum : add64 tx.amount tx.fee ≡ negsuc (2 ^ 64 - 1 - (a + f)) =
      rw (amount, fee) (add64-overflow a f h k l) in
    exec_tx_runs tx st form (ground (arith, sum, nonce, balance))
