-- ===== src/Node/Live.antt =====
-- Every call of a node extends the history of its blocks or leaves it alone (`applyBlockLocked` of
-- internal/mesh/chain_core.go and its callers).
use mathlib.Core.Path.{subst}
use blackchain_node.Prelude.{
  ℕ, suc, ◌<◌, ◌≤◌, ◌^◌, ◌==◌, String, false, Option, some, List, [], ◌∷◌, ◌≡◌, refl, sym, ap, ◌∙◌,
  arith, ℤ, pos, add64, leb_ℤ, ◌≤ℤ◌, eqb_ℤ_iff, length, take, drop, inl, inr, Bool-cases,
}
use blackchain_node.Types.{Tx, Block, Error, err, ok, Result-cases}
use blackchain_node.Platform.{Platform}
use blackchain_node.Dict.{Map, lookup, insert, int_Eq, string_Eq, lookup-insert, lookup-empty}
use blackchain_node.Dict.Keys.{IsKeyed}
use blackchain_node.Chain.{Chain}
use blackchain_node.Ledger.{Ledger, pay_all, ledger_of}
use blackchain_node.Finality.Depth.{finalized}
use blackchain_node.Execution.{apply_block}
use blackchain_node.Execution.Loop.{sum_fees}
use blackchain_node.Execution.Success.{reward_ledger}
use blackchain_node.Execution.Applied.{apply_block-IsApplied}
use blackchain_node.Execution.Atomicity.{apply_block-err}
use blackchain_node.Execution.Outcome.{apply_block-IsRejected, apply_block-IsCommitted}
use blackchain_node.Execution.Agreement.{IsSameView, apply_block-same}
use blackchain_node.Proposal.Immutable.{IsTopped, extended, advanced}
use blackchain_node.Proposal.{restore}
use blackchain_node.Mempool.{
  check_admission, add_tx_to_mempool, compact_mempool, rebuild_mempool_index,
}
use blackchain_node.Mempool.Compaction.{compact_mempool_rest}
use blackchain_node.Node.{Reach}
use blackchain_node.Node.Carried.{Reach-invariant}
use blackchain_node.Node.Invariant.{HasNext, HasPositiveBuffer, IsInvariant}
use blackchain_node.Node.History.{block_at, Shows, IsLive}

pub block_at_le : (i : ℕ) (bs : List Block) (b : Block) → block_at i bs ≡ some b → i ≤ length bs
block_at_le i [] b h = absurd (ground arith)
block_at_le i (a ∷ bs) b h = ground (arith, block_at_le i bs b)

next_height :
    (n : ℕ)
    → n < 2 ^ 63
    → leb_ℤ (add64 (pos n) (pos 1)) (pos 0) ≡ false
    → (add64 (pos n) (pos 1) ≡ pos (suc n)) × (suc n < 2 ^ 63)
unfolding add64
next_height n small room = ground arith

own_key :
    (k : ℤ) (n : ℕ) (b : Block) (m : Map ℤ Block)
    → k ≡ pos n
    → lookup (pos n) (insert k b m) ≡ some b
own_key k n b m e = ground (arith, lookup-insert k (pos n) b m, eqb_ℤ_iff k (pos n))

other_key :
    (k : ℤ) (n i : ℕ) (b : Block) (m : Map ℤ Block)
    → k ≡ pos (suc n)
    → i ≤ n
    → lookup (pos i) (insert k b m) ≡ lookup (pos i) m
other_key k n i b m e le = ground (arith, lookup-insert k (pos i) b m, eqb_ℤ_iff k (pos i))

-- A map that has the older blocks, up to `f`, and is given the next one, has all of them.
all_stored :
    (f : Option Block → Option Block) (b : Block) (bs : List Block) (m : Map ℤ Block) (k : ℤ)
    (i : ℕ) (a : Block)
    → k ≡ pos (suc (length bs))
    → (block_at i bs ≡ some a → f (lookup (pos i) m) ≡ f (some a))
    → block_at i (b ∷ bs) ≡ some a
    → f (lookup (pos i) (insert k b m)) ≡ f (some a)
all_stored f b bs m k i a e older found = elim (Bool-cases (i == suc (length bs))) [
  | inl own ↦
      let same : i ≡ suc (length bs) = ground arith in
      let here : some b ≡ some a = ground (arith, found, own) in
      ap f (own_key k i b m (e ∙ ap pos (sym same)) ∙ here)
  | inr other ↦
      let there : block_at i bs ≡ some a = ground (arith, found, other) in
      ap f (other_key k (length bs) i b m e (block_at_le i bs a there)) ∙ older there
]

module _ ⦃p : Platform⦄ (l : Ledger) (t : String) where
  same_view : (bs : List Block) (c d : Chain) → Shows l t bs c → Shows l t bs d → IsSameView c d
  same_view bs c d h k = record {
    height = h.height ∙ sym k.height;
    tip = h.tip ∙ sym k.tip;
    ledger = h.ledger ∙ sym k.ledger;
  }

  pub moved-IsLive :
      (c d : Chain)
      → d.height ≡ c.height
      → d.tip ≡ c.tip
      → d.accounts ≡ c.accounts
      → d.blocks ≡ c.blocks
      → d.disk ≡ c.disk
      → IsLive l t c
      → IsLive l t d
  moved-IsLive c d height tip accounts blocks disk h = record {
    history = h.history;
    small = h.small;
    linked = h.linked;
    shown = record {
      height = height ∙ (h.shown).height;
      tip = tip ∙ (h.shown).tip;
      ledger = ap ledger_of accounts ∙ (h.shown).ledger;
    };
    keyed = rw accounts h.keyed;
    blocks = rw blocks h.blocks;
    disk = rw disk h.disk;
    top = rw blocks h.top;
  }

  rejected-IsLive :
      (b : Block) (c : Chain)
      → HasNext c
      → IsLive l t c
      → (e : Error) → (apply_block b c).0 ≡ err e
      → IsLive l t (apply_block b c).1
  rejected-IsLive b c room h e bad =
      let same = apply_block-err b c e bad in
      let r = apply_block-IsRejected b c e bad in
      let n = length h.history in
      let above =
        next_height n h.small
          (ap (λ z. leb_ℤ (add64 z (pos 1)) (pos 0)) (sym (h.shown).height) ∙ room) in
      record {
        history = h.history;
        small = h.small;
        linked = h.linked;
        shown = record {
          height = same.height ∙ (h.shown).height;
          tip = same.tip ∙ (h.shown).tip;
          ledger = same.ledger ∙ (h.shown).ledger;
        };
        keyed = r.keyed h.keyed;
        blocks = rw same.blocks h.blocks;
        disk = λ i a found. elim r.disk [
          | inl kept ↦ rw kept (h.disk i a found)
          | inr (stored, next) ↦
              let le = block_at_le i h.history a found in
              let there : b.height ≡ pos (suc n) =
                next ∙ (ap (λ z. add64 z (pos 1)) (h.shown).height ∙ above.0) in
              rw stored (other_key b.height n i b c.disk there le ∙ h.disk i a found)
        ];
        top = rw same.blocks h.top;
      }

  extended-IsLive :
      (b : Block) (c : Chain)
      → HasNext c
      → IsLive l t c
      → (apply_block b c).0 ≡ ok tt
      → IsLive l t (apply_block b c).1
  extended-IsLive b c room h good =
      let a = apply_block-IsApplied b c good in
      let n = length h.history in
      let (up, small) =
        next_height n h.small
          (ap (λ z. leb_ℤ (add64 z (pos 1)) (pos 0)) (sym (h.shown).height) ∙ room) in
      let height : b.height ≡ pos (suc n) =
        (a.sound).next_height ∙ (ap (λ z. add64 z (pos 1)) (h.shown).height ∙ up) in
      let topped : IsTopped n c = record { height = (h.shown).height; top = h.top } in
      let (kept, topped') = extended n b c (omega (arith, small)) topped good in
      record {
        history = b ∷ h.history;
        small = small;
        linked = (
          record {
            height = height;
            prev_hash = (a.sound).on_tip ∙ (h.shown).tip;
            hash = (a.sealed).hash;
            signed = (a.sealed).signed;
            covered = rw (← (h.shown).ledger) a.covered;
            accepted = λ d shown keyed fine.
                (apply_block-same b c d (same_view h.history c d h.shown shown) h.keyed keyed fine
                  good).0;
          },
          h.linked,
        );
        shown = record {
          height = a.height ∙ height;
          tip = a.tip;
          ledger =
              a.ledger
              ∙ ap
                  (λ (x : Ledger).
                    reward_ledger b (sum_fees b.txs (sum_fees b.txs (pos 0))) (pay_all b.txs x))
                  (h.shown).ledger;
        };
        keyed = (apply_block-IsCommitted b c good).keyed h.keyed;
        blocks = λ i x found. rw a.blocks (
            advanced b.height c.finalized_height (pos i) (insert b.height b c.blocks)
            ∙ all_stored finalized b h.history c.blocks b.height i x height (h.blocks i x) found);
        disk = λ i x found.
            rw a.stored
              (all_stored (λ o. o) b h.history c.disk b.height i x height (h.disk i x) found);
        top =
            subst
              (λ (m : ℕ).
                (k : ℤ) (x : Block) → lookup k (apply_block b c).1.blocks ≡ some x → k ≤ℤ pos m)
              (omega arith) topped'.top;
      }

  apply-IsLive : (b : Block) (c : Chain) → HasNext c → IsLive l t c → IsLive l t (apply_block b c).1
  apply-IsLive b c room h = elim (Result-cases (apply_block b c).0) [
    | inl (u, good) ↦ extended-IsLive b c room h good
    | inr (e, bad) ↦ rejected-IsLive b c room h e bad
  ]

  -- The calls that change the mempool only.
  admit-IsLive : (tx : Tx) (c : Chain) → IsLive l t c → IsLive l t (add_tx_to_mempool tx c).1
  unfolding add_tx_to_mempool
  admit-IsLive tx c h = elim (Result-cases (check_admission tx c)) [
    | inr (e, bad) ↦ rw (add_tx_to_mempool, bad) h
    | inl (u, good) ↦ rw (add_tx_to_mempool, good) (moved-IsLive c _ refl refl refl refl refl h)
  ]

  split-IsLive :
      (n : ℕ) (c : Chain)
      → IsLive l t c
      → IsLive l t (rebuild_mempool_index (record c { mempool = drop n c.mempool }))
  unfolding rebuild_mempool_index
  split-IsLive n c h = moved-IsLive c _ refl refl refl refl refl h

  rejoin-IsLive : (txs : List Tx) (c : Chain) → IsLive l t c → IsLive l t (restore txs c)
  unfolding restore rebuild_mempool_index
  rejoin-IsLive txs c h = moved-IsLive c _ refl refl refl refl refl h

  IsLive-IsInvariant : IsInvariant (IsLive l t)
  IsLive-IsInvariant = record {
    frame = λ c d same h.
        moved-IsLive c d (rw same refl) (rw same refl) (rw same refl) (rw same refl) (rw same refl)
          h;
    apply = apply-IsLive;
    admit = admit-IsLive;
    compact = λ c h.
        let same = compact_mempool_rest c in
        moved-IsLive c (compact_mempool c).1 (rw same refl) (rw same refl) (rw same refl)
          (rw same refl) (rw same refl) h;
    split = split-IsLive;
    rejoin = λ n c d h h' left. rejoin-IsLive (take n c.mempool) d h';
  }

module _ ⦃p : Platform⦄ where
  -- A chain at height 0, without blocks and with one entry for each address.
  pub record IsFresh (c : Chain) : Type 0 where
    pub height : c.height ≡ pos 0
    pub blocks : c.blocks ≡ []
    pub pending : c.pending ≡ []
    pub keyed : IsKeyed c.accounts

  fresh-IsLive : (c : Chain) → IsFresh c → IsLive (ledger_of c.accounts) c.tip c
  fresh-IsLive c h = record {
    history = [];
    small = omega arith;
    linked = tt;
    shown = record { height = h.height; tip = refl; ledger = refl };
    keyed = h.keyed;
    blocks = λ i b found. absurd (ground (arith, found));
    disk = λ i b found. absurd (ground (arith, found));
    top = λ k b found. absurd (ground (arith, found, h.blocks, lookup-empty Block k));
  }

  -- In every state that submissions, received blocks, proposals and draining lead to from a fresh
  -- chain, accepted or refused and in any order, the chain consists of one history of blocks: each
  -- extends the one before it in height and hash, is signed, has the hash that is computed for it and
  -- payments that are covered, stands at its height, also in the block files, and no block lies above
  -- the height; height, tip and balances are those after the history.
  pub Reach-IsLive : (c d : Chain) → Reach c d → IsFresh c → IsLive (ledger_of c.accounts) c.tip d
  Reach-IsLive c d r h =
      let empty : HasPositiveBuffer c =
        λ k b found. absurd (ground (arith, found, h.pending, lookup-empty Block k)) in
      (Reach-invariant (IsLive-IsInvariant (ledger_of c.accounts) c.tip) c d r empty
        (fresh-IsLive c h)).1
