-- ===== src/Mempool/Distinct.antt =====
-- `compactMempoolLocked` of internal/mesh/chain_core.go keeps transactions with different ids, and
-- with different senders or nonces.
use blackchain_node.Prelude.{
  String, str_eq, false, not, ◌||◌, List, [], ◌∷◌, ◌≡◌, arith, any, any-append, Bool-cases, inl,
  inr, eqb_ℤ, ltb_ℤ, add64,
}
use blackchain_node.Types.{Tx, Account, is_ok}
use blackchain_node.Platform.{Platform}
use blackchain_node.Dict.{Map, contains, string_Eq, contains-insert, contains-empty}
use blackchain_node.Chain.{Chain}
use blackchain_node.Mempool.{
  Compact, validate_tx, tx_id, sender_nonce_key, get_shadow, keep_tx, compact_step, compact_loop,
  compact_start, compact_from, compact_mempool, reset_mempool, rebuild_mempool_index, index_ids,
  index_sender_nonces,
}
use blackchain_node.Mempool.Index.{
  IsDistinct, IsDistinct-snoc, IsIndexed, rebuild_mempool_index-IsIndexed,
}

module _ ⦃p : Platform⦄ where
  -- The pending sets hold the keys of the kept transactions, which differ.
  record IsSeparated (st : Compact) : Type 0 where
    ids : (j : String) → contains j st.pending_ids ≡ any (λ tx. str_eq (tx_id tx) j) st.kept
    nonces :
        (j : String)
        → contains j st.pending_sender_nonce ≡ any (λ tx. str_eq (sender_nonce_key tx) j) st.kept
    distinct_ids : IsDistinct tx_id st.kept
    distinct_nonces : IsDistinct sender_nonce_key st.kept

  keep_tx-IsSeparated :
      (accounts : Map String Account) (st : Compact) (tx : Tx) (from : Account)
      → (contains (tx_id tx) st.pending_ids
          || contains (sender_nonce_key tx) st.pending_sender_nonce)
        ≡ false
      → IsSeparated st
      → IsSeparated (keep_tx accounts st tx from)
  unfolding keep_tx
  keep_tx-IsSeparated accounts st tx from new h = record {
    ids = λ j. ground (
      arith,
      contains-insert (tx_id tx) j tt st.pending_ids,
      h.ids j,
      any-append (λ t. str_eq (tx_id t) j) st.kept (tx ∷ []),
    );
    nonces = λ j. ground (
      arith,
      contains-insert (sender_nonce_key tx) j tt st.pending_sender_nonce,
      h.nonces j,
      any-append (λ t. str_eq (sender_nonce_key t) j) st.kept (tx ∷ []),
    );
    distinct_ids =
        IsDistinct-snoc tx_id st.kept tx h.distinct_ids (ground (arith, h.ids (tx_id tx)));
    distinct_nonces =
        IsDistinct-snoc sender_nonce_key st.kept tx h.distinct_nonces
          (ground (arith, h.nonces (sender_nonce_key tx)));
  }

  compact_step-IsSeparated :
      (c : Chain) (st : Compact) (tx : Tx) → IsSeparated st → IsSeparated (compact_step c st tx)
  unfolding compact_step
  compact_step-IsSeparated c st tx h =
      let same : IsSeparated
          (record st { shadows = (get_shadow c.accounts st.shadows tx.from).1 }) =
        record {
          ids = h.ids;
          nonces = h.nonces;
          distinct_ids = h.distinct_ids;
          distinct_nonces = h.distinct_nonces;
        } in
      let (from, shadows) = get_shadow c.accounts st.shadows tx.from in
      elim (Bool-cases (is_ok (validate_tx c tx))) [
        | inr bad ↦ rw bad (record {
          ids = h.ids;
          nonces = h.nonces;
          distinct_ids = h.distinct_ids;
          distinct_nonces = h.distinct_nonces;
        })
        | inl valid ↦
            elim (Bool-cases (
              contains (tx_id tx) st.pending_ids
              || contains (sender_nonce_key tx) st.pending_sender_nonce)) [
                | inl seen ↦
                    rw (compact_step, valid, seen)
                      (record {
                        ids = h.ids;
                        nonces = h.nonces;
                        distinct_ids = h.distinct_ids;
                        distinct_nonces = h.distinct_nonces;
                      })
                | inr new ↦
                    elim (Bool-cases (
                      not (eqb_ℤ tx.nonce from.nonce)
                      || ltb_ℤ from.balance (add64 tx.amount tx.fee))) [
                        | inl poor ↦
                            rw (compact_step, valid, new, poor)
                              (record {
                                ids = h.ids;
                                nonces = h.nonces;
                                distinct_ids = h.distinct_ids;
                                distinct_nonces = h.distinct_nonces;
                              })
                        | inr fine ↦
                            rw (compact_step, valid, new, fine)
                              (keep_tx-IsSeparated c.accounts (record st { shadows = shadows }) tx
                                from new same)
                      ]
              ]
      ]

  compact_loop-IsSeparated :
      (c : Chain) (txs : List Tx) (st : Compact)
      → IsSeparated st
      → IsSeparated (compact_loop c txs st)
  unfolding compact_loop
  compact_loop-IsSeparated c [] st h = h
  compact_loop-IsSeparated c (tx ∷ txs) st h =
      compact_loop-IsSeparated c txs (compact_step c st tx) (compact_step-IsSeparated c st tx h)

  start-IsSeparated : IsSeparated compact_start
  start-IsSeparated = record {
    ids = λ j. contains-empty (Unit {0}) j;
    nonces = λ j. contains-empty (Unit {0}) j;
    distinct_ids = tt;
    distinct_nonces = tt;
  }

  -- The empty indices agree with the empty mempool.
  pub reset-IsIndexed : (c : Chain) → IsIndexed (reset_mempool c)
  unfolding reset_mempool rebuild_mempool_index index_ids index_sender_nonces
  reset-IsIndexed c = rebuild_mempool_index-IsIndexed (record c { mempool = [] })

  compact_from-IsDistinct :
      (txs : List Tx) (c : Chain)
      → let c' = (compact_from txs c).1 in
        IsIndexed c' × IsDistinct tx_id c'.mempool × IsDistinct sender_nonce_key c'.mempool
  unfolding compact_from reset_mempool rebuild_mempool_index
  compact_from-IsDistinct [] c = (reset-IsIndexed c, tt, tt)
  compact_from-IsDistinct (tx ∷ txs) c =
      let st = compact_loop c (tx ∷ txs) compact_start in
      let h = compact_loop-IsSeparated c (tx ∷ txs) compact_start start-IsSeparated in
      (
        rebuild_mempool_index-IsIndexed (record c { mempool = st.kept }),
        h.distinct_ids,
        h.distinct_nonces,
      )

  -- After `compactMempoolLocked` the two indices agree with the mempool, and no two of its
  -- transactions have one id, or one sender with one nonce, whatever the mempool was.
  pub compact_mempool-IsDistinct :
      (c : Chain)
      → let c' = (compact_mempool c).1 in
        IsIndexed c' × IsDistinct tx_id c'.mempool × IsDistinct sender_nonce_key c'.mempool
  unfolding compact_mempool
  compact_mempool-IsDistinct c = compact_from-IsDistinct c.mempool c
