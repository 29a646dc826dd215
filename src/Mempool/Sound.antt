-- ===== src/Mempool/Sound.antt =====
-- What `compactMempoolLocked` of internal/mesh/chain_core.go keeps passes the checks of a block.
use blackchain_node.Prelude.{
  String, str_eq, true, false, not, ◌||◌, List, [], ◌∷◌, ◌++◌, ◌≡◌, arith, All, Bool-cases, inl,
  inr, eqb_ℤ, ltb_ℤ, leb_ℤ, add64, pos,
}
use blackchain_node.Types.{Tx, Account, is_ok}
use blackchain_node.Platform.{Platform}
use blackchain_node.Dict.{Map, contains, string_Eq}
use blackchain_node.Signing.{verify_tx_signature, is_empty}
use blackchain_node.Chain.{Chain}
use blackchain_node.Mempool.{
  Compact, validate_tx, fields_too_large, tx_id, sender_nonce_key, get_shadow, keep_tx,
  compact_step, compact_loop, compact_start, compact_from, compact_mempool, reset_mempool,
  rebuild_mempool_index,
}

module _ ⦃p : Platform⦄ where
  -- A signature that verifies, fields within their bounds, two different parties, a positive amount
  -- and a fee that is not negative.
  pub record IsFit (tx : Tx) : Type 0 where
    pub signed : verify_tx_signature tx ≡ true
    pub fields : fields_too_large tx ≡ false
    pub named : (is_empty tx.from || is_empty tx.to) ≡ false
    pub apart : str_eq tx.from tx.to ≡ false
    pub amount : leb_ℤ tx.amount (pos 0) ≡ false
    pub fee : ltb_ℤ tx.fee (pos 0) ≡ false

  validate_tx-IsFit : (c : Chain) (tx : Tx) → is_ok (validate_tx c tx) ≡ true → IsFit tx
  unfolding validate_tx
  validate_tx-IsFit c tx h = record {
    signed = ground arith;
    fields = ground arith;
    named = ground arith;
    apart = ground arith;
    amount = ground arith;
    fee = ground arith;
  }

  All-snoc : (xs : List Tx) (x : Tx) → All IsFit xs → IsFit x → All IsFit (xs ++ x ∷ [])
  All-snoc [] x h k = (k, tt)
  All-snoc (y ∷ xs) x h k = (h.0, All-snoc xs x h.1 k)

  keep_tx-IsFit :
      (accounts : Map String Account) (st : Compact) (tx : Tx) (from : Account)
      → IsFit tx
      → All IsFit st.kept
      → All IsFit (keep_tx accounts st tx from).kept
  unfolding keep_tx
  keep_tx-IsFit accounts st tx from k h = All-snoc st.kept tx h k

  compact_step-IsFit :
      (c : Chain) (st : Compact) (tx : Tx)
      → All IsFit st.kept
      → All IsFit (compact_step c st tx).kept
  unfolding compact_step
  compact_step-IsFit c st tx h =
      let (from, shadows) = get_shadow c.accounts st.shadows tx.from in
      elim (Bool-cases (is_ok (validate_tx c tx))) [
        | inr bad ↦ rw bad h
        | inl valid ↦
            elim (Bool-cases (
              contains (tx_id tx) st.pending_ids
              || contains (sender_nonce_key tx) st.pending_sender_nonce)) [
                | inl seen ↦ rw (compact_step, valid, seen) h
                | inr new ↦
                    elim (Bool-cases (
                      not (eqb_ℤ tx.nonce from.nonce)
                      || ltb_ℤ from.balance (add64 tx.amount tx.fee))) [
                        | inl poor ↦ rw (compact_step, valid, new, poor) h
                        | inr fine ↦
                            rw (compact_step, valid, new, fine)
                              (keep_tx-IsFit c.accounts (record st { shadows = shadows }) tx from
                                (validate_tx-IsFit c tx valid) h)
                      ]
              ]
      ]

  compact_loop-IsFit :
      (c : Chain) (txs : List Tx) (st : Compact)
      → All IsFit st.kept
      → All IsFit (compact_loop c txs st).kept
  unfolding compact_loop
  compact_loop-IsFit c [] st h = h
  compact_loop-IsFit c (tx ∷ txs) st h =
      compact_loop-IsFit c txs (compact_step c st tx) (compact_step-IsFit c st tx h)

  compact_from-IsFit : (txs : List Tx) (c : Chain) → All IsFit (compact_from txs c).1.mempool
  unfolding compact_from reset_mempool rebuild_mempool_index
  compact_from-IsFit [] c = tt
  compact_from-IsFit (tx ∷ txs) c = compact_loop-IsFit c (tx ∷ txs) compact_start tt

  pub compact_mempool-IsFit : (c : Chain) → All IsFit (compact_mempool c).1.mempool
  unfolding compact_mempool
  compact_mempool-IsFit c = compact_from-IsFit c.mempool c
