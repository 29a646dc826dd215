-- ===== src/Lib.antt =====
-- A model of the node of BlackChain: the chain of internal/mesh, the finalizer of internal/consensus
-- and the peer store of internal/store, which are Go packages.
--
-- A node keeps one `ProductionChain`: accounts, blocks by height, a mempool with two indices, a buffer
-- of early blocks, votes, and a finalized height. Transactions enter the mempool through validation
-- and admission. The proposer compacts the mempool, makes and signs a block, and offers it to the same
-- function that takes blocks of peers; that one checks the proposal, applies it or buffers it, and
-- drains the buffer. Applying a block checks it, executes its transactions on a cache over the
-- accounts, pays the rewards, and advances finality. The peer table decides which peers are dialled,
-- snapshots replace the state of a chain, block files bring it back after a restart, messages are
-- forwarded with a bound on their hops, the configuration is validated before a node starts, and the finalizer counts votes of a fixed validator set.
--
-- Prelude     shared names, tests, lists, and int64 with its wrap-around
-- Dict        Go's maps, as association lists
-- Types       Tx, Account, Block, Vote and the errors of internal/mesh/chain_core.go
-- Platform    Go's library, as a parameter: sha256, ed25519, hex, json and formatting
-- Signing     internal/mesh/tx_signing.go, block_signing.go, validator_votes.go
-- Fees        fees and rewards of internal/mesh/chain_core.go
-- Chain       `ProductionChain` and its small operations; Chain/Identity is
--             internal/mesh/validator_identity.go
-- Merkle      internal/mesh/merkle_balances.go
-- Ledger      the abstract view: every address has a balance and a nonce, a payment moves them
-- Mempool     validateTx, addTxToMempoolLocked, compactMempoolLocked
-- Finality    advanceFinalityLocked, addVoteLocked, tryFinalizeLocked, and
--             internal/mesh/consensus_commit.go
-- Execution   applyBlockLocked and calcStateHashWithBlock
-- Proposal    applyBlockOrBufferLocked, drainPendingLocked, proposeBlock
-- Finalizer   internal/consensus/finalizer.go and vote.go
-- Peers       internal/mesh/peer_touch.go; Peers/Store is internal/store/peers.go
-- Snapshot    internal/mesh/chain_snapshot.go
-- Sync        the bookkeeping of internal/mesh/chain_sync.go
-- Reputation  internal/mesh/reputation.go
-- Node        the calls of a node on its chain, in any order, and what they preserve
-- Persist     internal/mesh/chain_persist.go: block files, recovery, replay
-- Gossip      internal/mesh/gossip.go, seen.go; Gossip/Incoming is messages.go
-- Status      the status of internal/mesh/daemon_bridge.go
-- RateLimit   internal/mesh/http_ratelimit.go
-- Config      addresses and validation of internal/mesh/config.go and transport_tls.go, and the peers of
--             internal/mesh/bootstrap.go
-- Examples    concrete inputs and tests
--
-- A method that changes its receiver takes the state and returns it; an error is a value beside the
-- state that it leaves. Locks are not modelled: each function runs while the lock is held. Times are
-- nanoseconds since Go's zero time. The block files are a map from heights to blocks, with a predicate
-- that says which writes fail. Iteration over a Go map is a walk over the association list.
--
-- Loops on fuel: `drain` runs one round more than there are buffered blocks, and each round takes one
-- out; `prune_oldest` runs as many rounds as there are ids, and each deletes one; `digits` runs over
-- a buffer of 32 places, and an int64 has 19 digits; `build` runs as many rounds as there are leaves, and each round leaves fewer. All other loops
-- are structural.
--
-- A write of a block file that fails leaves the old file or, where only the sync of the directory fails,
-- the new one; the temporary file that it may leave behind, which the next start alone reads, stands in
-- the directory of Persist and not in the state of a running chain.
--
-- Not modelled: sockets, TLS connections, HTTP handlers, discovery, timers, commands and scripts. Go's float64 is a
-- parameter of the rate limiter.
-- Logging is left out. The texts of errors are constructors.
pub mod Prelude
pub mod Dict
pub mod Types
pub mod Platform
pub mod Signing
pub mod Fees
pub mod Chain
pub mod Merkle
pub mod Ledger
pub mod Mempool
pub mod Finality
pub mod Execution
pub mod Proposal
pub mod Finalizer
pub mod Peers
pub mod Snapshot
pub mod Sync
pub mod Reputation
pub mod Node
pub mod Persist
pub mod Gossip
pub mod Status
pub mod RateLimit
pub mod Config
pub mod Examples
