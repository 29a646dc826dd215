-- ===== src/Mempool.antt =====
-- The mempool of internal/mesh/chain_core.go: validation of a transaction, admission, the two
-- indices, and compaction against the current accounts.
use blackchain_node.Prelude.{
  ℕ, suc, ◌+◌, ◌*◌, String, len, ◌<>◌, str_eq, Bool, true, false, not, ◌&&◌, ◌||◌, Option, none,
  some, List, [], ◌∷◌, ◌++◌, ℤ, pos, leb, ltb, leb_ℤ, ltb_ℤ, eqb_ℤ, length, add64, sub64, is_some,
  if◌then◌else◌,
}
use blackchain_node.Types.{
  Tx, Account, Error, Result, ok, err, ◌>>=◌, ◌>>◌, reject_if, is_ok, bad_signature,
  missing_from_to, from_eq_to, bad_amount, bad_nonce, field_too_large, negative_fee, fee_too_low,
  insufficient_balance, bad_nonce_order, mempool_full, duplicate_tx, conflicting_sender_nonce,
}
use blackchain_node.Platform.{Platform}
use blackchain_node.Signing.{verify_tx_signature, is_empty}
use blackchain_node.Dict.{Map, lookup, insert, contains, string_Eq}
use blackchain_node.Chain.{Chain, get_account}
use blackchain_node.Fees.{required_fee, max_mempool_txs, max_tx_field_len}
pub mod Admission
pub mod Index
pub mod Compaction
pub mod Distinct
pub mod Sound

-- The test on the lengths of a transaction's fields, in `validateTx` and `applyBlockLocked`.
unfoldable pub fields_too_large : Tx → Bool
fields_too_large tx =
    ltb max_tx_field_len (len tx.from)
    || ltb max_tx_field_len (len tx.to)
    || ltb (max_tx_field_len * 4) (len tx.pub_key)
    || ltb (max_tx_field_len * 4) (len tx.signature)

-- What `compactMempoolLocked` builds up: `shadows` are the accounts after the kept transactions.
pub record Compact : Type 0 where
  pub kept : List Tx
  pub pending_ids : Map String (Unit {0})
  pub pending_sender_nonce : Map String (Unit {0})
  pub shadows : Map String Account
  pub dropped : ℕ

module _ ⦃p : Platform⦄ where
  -- `validateTx`
  unfoldable pub validate_tx : Chain → Tx → Result (Unit {0})
  unfolding fields_too_large
  validate_tx c tx = do
    reject_if (not (verify_tx_signature tx)) bad_signature
    reject_if (is_empty tx.from || is_empty tx.to) missing_from_to
    reject_if (str_eq tx.from tx.to) from_eq_to
    reject_if (leb_ℤ tx.amount (pos 0)) bad_amount
    reject_if (ltb_ℤ tx.nonce (pos 0)) bad_nonce
    reject_if (fields_too_large tx) field_too_large
    reject_if (ltb_ℤ tx.fee (pos 0)) negative_fee
    reject_if (ltb_ℤ tx.fee (required_fee c.mempool)) fee_too_low
    let from = get_account c.accounts tx.from
    reject_if (ltb_ℤ from.balance (add64 tx.amount tx.fee)) insufficient_balance
    reject_if (not (eqb_ℤ tx.nonce from.nonce)) bad_nonce_order

  -- `txID`
  unfoldable pub tx_id : Tx → String
  tx_id tx = p.hex_encode (p.sha256 (p.json_tx tx))

  -- `senderNonceKey`
  unfoldable pub sender_nonce_key : Tx → String
  sender_nonce_key tx = (tx.from <> ":") <> p.format_int tx.nonce

  -- `resetMempoolLocked`; capacities are not modelled
  unfoldable pub reset_mempool : Chain → Chain
  reset_mempool c = record c { mempool = []; mempool_ids = []; mempool_sender_nonce = [] }

  -- The loop of `rebuildMempoolIndexLocked`.
  unfoldable pub index_ids : List Tx → Map String (Unit {0}) → Map String (Unit {0})
  unfolding tx_id
  index_ids [] ids = ids
  index_ids (tx ∷ txs) ids = index_ids txs (insert (tx_id tx) tt ids)

  unfoldable pub index_sender_nonces : List Tx → Map String String → Map String String
  unfolding tx_id sender_nonce_key
  index_sender_nonces [] m = m
  index_sender_nonces (tx ∷ txs) m =
      index_sender_nonces txs (insert (sender_nonce_key tx) (tx_id tx) m)

  -- `rebuildMempoolIndexLocked`
  unfoldable pub rebuild_mempool_index : Chain → Chain
  unfolding index_ids index_sender_nonces
  rebuild_mempool_index c = record c {
    mempool_ids = index_ids c.mempool [];
    mempool_sender_nonce = index_sender_nonces c.mempool [];
  }

  -- `existing, ok := c.mempoolSenderNonce[sn]; ok && existing != id`
  abbrev pub conflicts : Option String → String → Bool
  conflicts none id = false
  conflicts (some existing) id = not (str_eq existing id)

  -- The checks of `addTxToMempoolLocked`.
  unfoldable pub check_admission : Tx → Chain → Result (Unit {0})
  check_admission tx c = do
    validate_tx c tx
    reject_if (leb max_mempool_txs (length c.mempool)) mempool_full
    reject_if (contains (tx_id tx) c.mempool_ids) duplicate_tx
    reject_if (conflicts (lookup (sender_nonce_key tx) c.mempool_sender_nonce) (tx_id tx))
        conflicting_sender_nonce

  -- `addTxToMempoolLocked`
  unfoldable pub add_tx_to_mempool : Tx → Chain → Result (Unit {0}) × Chain
  add_tx_to_mempool tx c = elim (check_admission tx c) [
    | err e ↦ (err e, c)
    | ok u ↦ (
      ok u,
      record c {
        mempool = c.mempool ++ tx ∷ [];
        mempool_ids = insert (tx_id tx) tt c.mempool_ids;
        mempool_sender_nonce = insert (sender_nonce_key tx) (tx_id tx) c.mempool_sender_nonce;
      },
    )
  ]

  -- `getShadow`: the shadow, and the shadows after the call
  unfoldable pub get_shadow :
      Map String Account → Map String Account → String → Account × Map String Account
  get_shadow accounts shadows addr = elim (lookup addr shadows) [
    | some s ↦ (s, shadows)
    | none ↦ (get_account accounts addr, insert addr (get_account accounts addr) shadows)
  ]

  abbrev drop_tx : Compact → Compact
  drop_tx st = record st { dropped = suc st.dropped }

  -- The end of a round: the transaction is kept.
  unfoldable pub keep_tx : Map String Account → Compact → Tx → Account → Compact
  keep_tx accounts st tx from =
      let paid =
        insert tx.from
          (record {
            balance = sub64 from.balance (add64 tx.amount tx.fee);
            nonce = add64 from.nonce (pos 1);
          })
          st.shadows in
      let (to, shadows) = get_shadow accounts paid tx.to in
      record {
        kept = st.kept ++ tx ∷ [];
        pending_ids = insert (tx_id tx) tt st.pending_ids;
        pending_sender_nonce = insert (sender_nonce_key tx) tt st.pending_sender_nonce;
        shadows =
            if is_empty tx.to
            then paid
            else insert tx.to (record { balance = add64 to.balance tx.amount; nonce = to.nonce })
                shadows;
        dropped = st.dropped;
      }

  -- One round of the loop of `compactMempoolLocked`.
  unfoldable pub compact_step : Chain → Compact → Tx → Compact
  compact_step c st tx =
      if not (is_ok (validate_tx c tx))
      then drop_tx st
      else (if contains (tx_id tx) st.pending_ids
            || contains (sender_nonce_key tx) st.pending_sender_nonce
          then drop_tx st
          else (let (from, shadows) = get_shadow c.accounts st.shadows tx.from in
              let st' = record st { shadows = shadows } in
              if not (eqb_ℤ tx.nonce from.nonce) || ltb_ℤ from.balance (add64 tx.amount tx.fee)
              then drop_tx st'
              else keep_tx c.accounts st' tx from))

  unfoldable pub compact_loop : Chain → List Tx → Compact → Compact
  compact_loop c [] st = st
  compact_loop c (tx ∷ txs) st = compact_loop c txs (compact_step c st tx)

  abbrev pub compact_start : Compact
  compact_start = record {
    kept = [];
    pending_ids = [];
    pending_sender_nonce = [];
    shadows = [];
    dropped = 0;
  }

  unfoldable pub compact_from : List Tx → Chain → ℕ × Chain
  compact_from [] c = (0, reset_mempool c)
  compact_from (tx ∷ txs) c =
      let st = compact_loop c (tx ∷ txs) compact_start in
      (st.dropped, rebuild_mempool_index (record c { mempool = st.kept }))

  -- `compactMempoolLocked`: the number of dropped transactions, and the chain
  unfoldable pub compact_mempool : Chain → ℕ × Chain
  compact_mempool c = compact_from c.mempool c
