-- ===== src/Node.antt =====
-- A node in operation: the calls that its handlers (internal/mesh/chain_handlers.go,
-- internal/mesh/messages.go), its proposer (internal/mesh/proposer_native.go) and its sync loop
-- (internal/mesh/chain_sync.go) make on the chain, each under the chain's lock, in any order.
use blackchain_node.Prelude.{ℕ}
use blackchain_node.Types.{Tx, Block, Vote}
use blackchain_node.Platform.{Platform}
use blackchain_node.Chain.{Chain}
use blackchain_node.Mempool.{add_tx_to_mempool, compact_mempool}
use blackchain_node.Finality.{add_vote}
use blackchain_node.Proposal.{apply_block_or_buffer, drain_pending, propose_block}
pub mod Invariant
pub mod Carried
pub mod History
pub mod Live
pub mod Pool

-- One call; a proposal or a received block comes with the time of the call.
pub data Event : Type 0 where
  submit : Tx → Event
  receive : ℕ → Block → Event
  drain_buffer : Event
  propose : ℕ → Event

module _ ⦃p : Platform⦄ where
  -- The chain after a call, whatever the call returns.
  abbrev pub handle : Event → Chain → Chain
  handle (submit tx) c = (add_tx_to_mempool tx c).1
  handle (receive now b) c = (apply_block_or_buffer now b c).1
  handle drain_buffer c = (drain_pending c).1
  handle (propose now) c = (propose_block now c).1

  -- `Reach c d`: calls lead from `c` to `d`.
  pub data Reach (c : Chain) : Chain → Type 0 where
    begin : Reach c c
    after : (e : Event) (d : Chain) → Reach c d → Reach c (handle e d)
