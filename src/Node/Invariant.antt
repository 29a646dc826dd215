-- ===== src/Node/Invariant.antt =====
-- How a property of the chain is carried through every call: it is enough that the elementary
-- changes preserve it, out of which internal/mesh/chain_core.go puts each call together.
use blackchain_node.Prelude.{ℕ, ◌≡◌, ℤ, pos, add64, leb_ℤ, false, take, drop, some}
use blackchain_node.Types.{Tx, Block}
use blackchain_node.Platform.{Platform}
use blackchain_node.Dict.{lookup, int_Eq, string_Eq}
use blackchain_node.Chain.{Chain}
use blackchain_node.Mempool.{add_tx_to_mempool, compact_mempool, rebuild_mempool_index}
use blackchain_node.Execution.{apply_block}
use blackchain_node.Proposal.{restore}

-- A chain that differs from `c` in the validator's keys and their file, the daemon, the buffer and the observed
-- validators alone.
abbrev pub HasSameCore : Chain → Chain → Type 0
HasSameCore c c' = c' ≡ record c {
  validator_pub_hex = c'.validator_pub_hex;
  validator_priv_hex = c'.validator_priv_hex;
  key_file = c'.key_file;
  daemon = c'.daemon;
  pending = c'.pending;
  validator_set = c'.validator_set;
}

-- The next height is positive: the addition on int64 has not wrapped around.
abbrev pub HasNext : Chain → Type 0
HasNext c = leb_ℤ (add64 c.height (pos 1)) (pos 0) ≡ false

-- Blocks are buffered at positive heights only.
abbrev pub HasPositiveBuffer : Chain → Type 0
HasPositiveBuffer c = (k : ℤ) (b : Block) → lookup k c.pending ≡ some b → leb_ℤ k (pos 0) ≡ false

module _ ⦃p : Platform⦄ where
  -- The elementary changes preserve `P`.
  pub record IsInvariant (P : Chain → Type 0) : Type 0 where
    pub frame : (c d : Chain) → HasSameCore c d → P c → P d
    pub apply : (b : Block) (c : Chain) → HasNext c → P c → P (apply_block b c).1
    pub admit : (tx : Tx) (c : Chain) → P c → P (add_tx_to_mempool tx c).1
    pub compact : (c : Chain) → P c → P (compact_mempool c).1
    pub split :
        (n : ℕ) (c : Chain)
        → P c
        → P (rebuild_mempool_index (record c { mempool = drop n c.mempool }))
    pub rejoin :
        (n : ℕ) (c d : Chain)
        → P c
        → P d
        → d.mempool ≡ drop n c.mempool
        → P (restore (take n c.mempool) d)
