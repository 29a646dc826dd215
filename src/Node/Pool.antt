-- ===== src/Node/Pool.antt =====
-- The mempool of internal/mesh/chain_core.go in every state of a node.
use blackchain_node.Prelude.{
  ℕ, zero, suc, ◌≤◌, String, List, [], ◌∷◌, ◌++◌, ◌≡◌, ap, ◌∙◌, arith, take, drop, length,
  take-append-drop, inl, inr,
}
use blackchain_node.Types.{Tx, Block, Result-cases}
use blackchain_node.Platform.{Platform}
use blackchain_node.Chain.{Chain}
use blackchain_node.Fees.{max_mempool_txs}
use blackchain_node.Mempool.{tx_id, sender_nonce_key, compact_mempool, rebuild_mempool_index}
use blackchain_node.Mempool.Index.{IsDistinct, IsIndexed, IsProper, rebuild_mempool_index-IsIndexed}
use blackchain_node.Mempool.Admission.{add_tx_to_mempool-IsProper}
use blackchain_node.Mempool.Compaction.{compact_mempool_lem}
use blackchain_node.Mempool.Distinct.{compact_mempool-IsDistinct}
use blackchain_node.Execution.{apply_block}
use blackchain_node.Execution.Outcome.{apply_block-IsRejected, apply_block-IsCommitted}
use blackchain_node.Proposal.{restore}
use blackchain_node.Node.{Reach}
use blackchain_node.Node.Carried.{Reach-invariant}
use blackchain_node.Node.Invariant.{IsInvariant, HasPositiveBuffer}

length-drop_le {ℓ} : {A : Type ℓ} (n : ℕ) (xs : List A) → length (drop n xs) ≤ length xs
length-drop_le zero xs = omega arith
length-drop_le (suc n) [] = omega arith
length-drop_le (suc n) (x ∷ xs) = omega (arith, length-drop_le n xs)

drop-IsDistinct :
    (key : Tx → String) (n : ℕ) (xs : List Tx) → IsDistinct key xs → IsDistinct key (drop n xs)
drop-IsDistinct key zero xs h = h
drop-IsDistinct key (suc n) [] h = tt
drop-IsDistinct key (suc n) (x ∷ xs) h = drop-IsDistinct key n xs h.1

module _ ⦃p : Platform⦄ where
  -- The indices agree with the mempool, which is within its bound and has no duplicates.
  abbrev pub HasGoodPool : Chain → Type 0
  HasGoodPool c = IsIndexed c × IsProper c

  moved :
      (c d : Chain)
      → c.mempool ≡ d.mempool
      → c.mempool_ids ≡ d.mempool_ids
      → c.mempool_sender_nonce ≡ d.mempool_sender_nonce
      → HasGoodPool d
      → HasGoodPool c
  moved c d txs ids nonces (indexed, proper) = (
    record {
      ids = rw (txs, ids) indexed.ids;
      nonces = rw (txs, nonces) indexed.nonces;
      linked = rw (ids, nonces) indexed.linked;
    },
    record {
      bounded = rw txs proper.bounded;
      distinct_ids = rw txs proper.distinct_ids;
      distinct_nonces = rw txs proper.distinct_nonces;
    },
  )

  compact-HasGoodPool :
      (c : Chain) → length c.mempool ≤ max_mempool_txs → HasGoodPool (compact_mempool c).1
  compact-HasGoodPool c small =
      let (indexed, ids, nonces) = compact_mempool-IsDistinct c in
      let (payable, count, accounts) = compact_mempool_lem c in
      (
        indexed,
        record {
          bounded = omega (arith, count, small);
          distinct_ids = ids;
          distinct_nonces = nonces;
        },
      )

  apply-HasGoodPool : (b : Block) (c : Chain) → HasGoodPool c → HasGoodPool (apply_block b c).1
  apply-HasGoodPool b c h = elim (Result-cases (apply_block b c).0) [
    | inr (e, bad) ↦
        let same = (apply_block-IsRejected b c e bad).rest in
        moved (apply_block b c).1 c (ap (λ (d : Chain). d.mempool) same)
          (ap (λ (d : Chain). d.mempool_ids) same) (ap (λ (d : Chain). d.mempool_sender_nonce) same)
          h
    | inl (u, good) ↦
        let (m, txs, pool, ids, nonces) = (apply_block-IsCommitted b c good).pooled in
        let small : length m.mempool ≤ max_mempool_txs = rw txs (h.1).bounded in
        moved (apply_block b c).1 (compact_mempool m).1 pool ids nonces
          (compact-HasGoodPool m small)
  ]

  split-HasGoodPool :
      (n : ℕ) (c : Chain)
      → HasGoodPool c
      → HasGoodPool (rebuild_mempool_index (record c { mempool = drop n c.mempool }))
  unfolding rebuild_mempool_index
  split-HasGoodPool n c (indexed, proper) = (
    rebuild_mempool_index-IsIndexed (record c { mempool = drop n c.mempool }),
    record {
      bounded = omega (arith, length-drop_le n c.mempool, proper.bounded);
      distinct_ids = drop-IsDistinct tx_id n c.mempool proper.distinct_ids;
      distinct_nonces = drop-IsDistinct sender_nonce_key n c.mempool proper.distinct_nonces;
    },
  )

  rejoin-HasGoodPool :
      (n : ℕ) (c d : Chain)
      → HasGoodPool c
      → d.mempool ≡ drop n c.mempool
      → HasGoodPool (restore (take n c.mempool) d)
  unfolding restore rebuild_mempool_index
  rejoin-HasGoodPool n c d (indexed, proper) left =
      let whole = ap (λ (l : List Tx). take n c.mempool ++ l) left ∙ take-append-drop n c.mempool in
      (
        rebuild_mempool_index-IsIndexed (record d { mempool = take n c.mempool ++ d.mempool }),
        record {
          bounded = rw whole proper.bounded;
          distinct_ids = rw whole proper.distinct_ids;
          distinct_nonces = rw whole proper.distinct_nonces;
        },
      )

  pool-IsInvariant : IsInvariant HasGoodPool
  pool-IsInvariant = record {
    frame = λ c d same h.
        moved d c (ap (λ (k : Chain). k.mempool) same) (ap (λ (k : Chain). k.mempool_ids) same)
          (ap (λ (k : Chain). k.mempool_sender_nonce) same) h;
    apply = λ b c room h. apply-HasGoodPool b c h;
    admit = λ tx c h. add_tx_to_mempool-IsProper tx c h.0 h.1;
    compact = λ c h. compact-HasGoodPool c (h.1).bounded;
    split = split-HasGoodPool;
    rejoin = λ n c d h h' left. rejoin-HasGoodPool n c d h left;
  }

  -- In every state that submissions, received blocks, proposals and draining lead to, accepted or
  -- refused and in any order, the mempool holds at most 256 transactions, no two with one id and no
  -- two of one sender with one nonce, and both of its indices agree with it, provided this holds at
  -- the start, where blocks are buffered at positive heights only.
  pub Reach-HasGoodPool :
      (c d : Chain) → Reach c d → HasPositiveBuffer c → HasGoodPool c → HasGoodPool d
  Reach-HasGoodPool c d r buffer h = (Reach-invariant pool-IsInvariant c d r buffer h).1
