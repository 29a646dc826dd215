-- ===== src/Node/History.antt =====
-- The blocks that a node has accepted (internal/mesh/chain_core.go), as one list, and the chain that
-- they make up.
use blackchain_node.Prelude.{
  ℕ, suc, ◌<◌, ◌^◌, ◌==◌, String, false, Option, none, some, List, [], ◌∷◌, ◌≡◌, ℤ, pos, ◌≤ℤ◌,
  length, if◌then◌else◌,
}
use blackchain_node.Types.{Block, ok}
use blackchain_node.Platform.{Platform}
use blackchain_node.Signing.{calc_block_hash, validate_block_signature}
use blackchain_node.Dict.{lookup, int_Eq, string_Eq}
use blackchain_node.Dict.Keys.{IsKeyed}
use blackchain_node.Chain.{Chain}
use blackchain_node.Ledger.{Ledger, pay_all, IsPayableAll, ledger_of}
use blackchain_node.Finality.Depth.{finalized}
use blackchain_node.Execution.{apply_block}
use blackchain_node.Execution.Loop.{sum_fees}
use blackchain_node.Execution.Success.{reward_ledger}

-- The tip after the blocks of a history, newest first, from a tip.
abbrev pub tip_of : String → List Block → String
tip_of t [] = t
tip_of t (b ∷ bs) = b.hash

-- The ledger after the blocks of a history, newest first: payments and rewards of each of them.
abbrev pub run_ledger : Ledger → List Block → Ledger
run_ledger l [] = l
run_ledger l (b ∷ bs) =
    reward_ledger b (sum_fees b.txs (sum_fees b.txs (pos 0))) (pay_all b.txs (run_ledger l bs))

-- The block of a height.
abbrev pub block_at : ℕ → List Block → Option Block
block_at i [] = none
block_at i (b ∷ bs) = if i == suc (length bs) then some b else block_at i bs

module _ ⦃p : Platform⦄ (l : Ledger) (t : String) where
  -- A chain shows a history: its height, its tip and its balances are those after the blocks.
  pub record Shows (bs : List Block) (c : Chain) : Type 0 where
    pub height : c.height ≡ pos (length bs)
    pub tip : c.tip ≡ tip_of t bs
    pub ledger : ledger_of c.accounts ≡ run_ledger l bs

  -- A block extends a history. Every chain that shows the history accepts it.
  pub record Extends (b : Block) (bs : List Block) : Type 0 where
    pub height : b.height ≡ pos (suc (length bs))
    pub prev_hash : b.prev_hash ≡ tip_of t bs
    pub hash : b.hash ≡ calc_block_hash b
    pub signed : validate_block_signature b ≡ ok tt
    pub covered : IsPayableAll b.txs (run_ledger l bs)
    pub accepted :
        (d : Chain)
        → Shows bs d
        → IsKeyed d.accounts
        → d.disk_faults b ≡ false
        → (apply_block b d).0 ≡ ok tt

  abbrev pub IsHistory : List Block → Type 0
  IsHistory [] = Unit
  IsHistory (b ∷ bs) = Extends b bs × IsHistory bs

  -- The chain consists of the blocks of one history: it shows it, has each of them at its height, up
  -- to the flag of finality, and in its block files, and has no block above its height.
  pub record IsLive (c : Chain) : Type 0 where
    pub history : List Block
    pub small : length history < 2 ^ 63
    pub linked : IsHistory history
    pub shown : Shows history c
    pub keyed : IsKeyed c.accounts
    pub blocks :
        (i : ℕ) (b : Block)
        → block_at i history ≡ some b
        → finalized (lookup (pos i) c.blocks) ≡ finalized (some b)
    pub disk : (i : ℕ) (b : Block) → block_at i history ≡ some b → lookup (pos i) c.disk ≡ some b
    pub top : (k : ℤ) (b : Block) → lookup k c.blocks ≡ some b → k ≤ℤ pos (length history)
