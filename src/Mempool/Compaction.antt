-- ===== src/Mempool/Compaction.antt =====
-- What `compactMempoolLocked` of internal/mesh/chain_core.go keeps can be executed.
use mathlib.Core.Path.{fun_ext}
use blackchain_node.Prelude.{
  suc, ◌+◌, String, str_eq, str_eq_iff, Bool, true, false, not, ◌&&◌, ◌||◌, List, [], ◌∷◌, ◌++◌,
  ◌≡◌, refl, sym, ap, ◌∙◌, arith, length, length-append, Bool-cases, inl, inr, eqb_ℤ, ltb_ℤ, add64,
  if◌then◌else◌,
}
use blackchain_node.Types.{Tx, Account, is_ok}
use blackchain_node.Platform.{Platform}
use blackchain_node.Dict.{Map, contains, string_Eq, lookup-insert}
use blackchain_node.Signing.{is_empty}
use blackchain_node.Chain.{Chain, get_account}
use blackchain_node.Ledger.{Ledger, pay, pay_all, IsPayableAll, ledger_of, overlay}
use blackchain_node.Ledger.View.{
  overlay-insert, update_ne, overlay-empty, pay_all-append, IsPayableAll-append,
}
use blackchain_node.Mempool.{
  Compact, validate_tx, tx_id, sender_nonce_key, get_shadow, keep_tx, compact_step, compact_loop,
  compact_start, compact_from, compact_mempool, reset_mempool, rebuild_mempool_index,
}

module _ ⦃p : Platform⦄ (accounts : Map String Account) where
  get_shadow-value :
      (m : Map String Account) (a : String)
      → (get_shadow accounts m a).0 ≡ overlay m (ledger_of accounts) a
  unfolding get_shadow overlay
  get_shadow-value m a = ground arith

  get_shadow-overlay :
      (m : Map String Account) (a : String)
      → overlay (get_shadow accounts m a).1 (ledger_of accounts) ≡ overlay m (ledger_of accounts)
  unfolding get_shadow overlay
  get_shadow-overlay m a =
      fun_ext λ b. ground (arith, lookup-insert a b (get_account accounts a) m, str_eq_iff a b)

  keep_tx-overlay :
      (st : Compact) (tx : Tx) (from : Account)
      → is_empty tx.to ≡ false
      → str_eq tx.from tx.to ≡ false
      → from ≡ overlay st.shadows (ledger_of accounts) tx.from
      → overlay (keep_tx accounts st tx from).shadows (ledger_of accounts)
        ≡ pay tx (overlay st.shadows (ledger_of accounts))
  unfolding keep_tx pay
  keep_tx-overlay st tx from named ne e =
      rw
        (
          named, overlay-insert, get_shadow-overlay, overlay-insert, get_shadow-value,
          overlay-insert,
        )
        (rw (update_ne tx.from tx.to _ (overlay st.shadows (ledger_of accounts)) ne, e) refl)

-- What the rounds of the loop keep up: the kept transactions can be paid from the accounts, and the
-- shadows show the accounts after them.
record IsCompact ⦃p : Platform⦄ (c : Chain) (st : Compact) : Type 0 where
  payable : IsPayableAll st.kept (ledger_of c.accounts)
  shown : overlay st.shadows (ledger_of c.accounts) ≡ pay_all st.kept (ledger_of c.accounts)

module _ ⦃p : Platform⦄ (c : Chain) where
  validate_tx_sides :
      (tx : Tx)
      → is_ok (validate_tx c tx) ≡ true
      → (is_empty tx.to ≡ false) × (str_eq tx.from tx.to ≡ false)
  unfolding validate_tx
  validate_tx_sides tx h = ground arith

  both_tests : (a b : Bool) → (not a || b) ≡ false → (a && not b) ≡ true
  both_tests a b h = ground arith

  keep_tx-kept :
      (st : Compact) (tx : Tx) (from : Account)
      → (keep_tx c.accounts st tx from).kept ≡ st.kept ++ tx ∷ []
  unfolding keep_tx
  keep_tx-kept st tx from = refl

  keep_tx-IsCompact :
      (st : Compact) (tx : Tx) (from : Account)
      → is_ok (validate_tx c tx) ≡ true
      → from ≡ overlay st.shadows (ledger_of c.accounts) tx.from
      → (not (eqb_ℤ tx.nonce from.nonce) || ltb_ℤ from.balance (add64 tx.amount tx.fee)) ≡ false
      → IsCompact c st
      → IsCompact c (keep_tx c.accounts st tx from)
  unfolding pay_all
  keep_tx-IsCompact st tx from valid e enough h =
      let (named, ne) = validate_tx_sides tx valid in
      let start : Ledger = ledger_of c.accounts in
      record {
        payable = rw keep_tx-kept (
            IsPayableAll-append st.kept (tx ∷ []) start h.payable
              (rw (← h.shown) (rw (← e) (both_tests _ _ enough)), tt));
        shown = rw keep_tx-kept (
            keep_tx-overlay c.accounts st tx from named ne e
            ∙ (ap (pay tx) h.shown ∙ sym (pay_all-append st.kept (tx ∷ []) start)));
      }

  compact_step-IsCompact :
      (st : Compact) (tx : Tx) → IsCompact c st → IsCompact c (compact_step c st tx)
  unfolding compact_step
  compact_step-IsCompact st tx h = elim (Bool-cases (is_ok (validate_tx c tx))) [
    | inr bad ↦ rw bad (record { payable = h.payable; shown = h.shown })
    | inl valid ↦
        rw valid
          (elim (Bool-cases (
            contains (tx_id tx) st.pending_ids
            || contains (sender_nonce_key tx) st.pending_sender_nonce)) [
              | inl seen ↦ rw seen (record { payable = h.payable; shown = h.shown })
              | inr new ↦ rw new (fresh valid)
            ])
  ]
    where
      fresh :
          is_ok (validate_tx c tx) ≡ true
          → IsCompact c (
              let (from, shadows) = get_shadow c.accounts st.shadows tx.from in
              let st' = record st { shadows = shadows } in
              if not (eqb_ℤ tx.nonce from.nonce) || ltb_ℤ from.balance (add64 tx.amount tx.fee)
              then record st' { dropped = suc st.dropped }
              else keep_tx c.accounts st' tx from)
      fresh valid =
          let shadow = get_shadow c.accounts st.shadows tx.from in
          let same = get_shadow-overlay c.accounts st.shadows tx.from in
          let e : shadow.0 ≡ overlay shadow.1 (ledger_of c.accounts) tx.from =
            get_shadow-value c.accounts st.shadows tx.from
            ∙ ap (λ (l : Ledger). l tx.from) (sym same) in
          let short =
            not (eqb_ℤ tx.nonce shadow.0.nonce)
            || ltb_ℤ shadow.0.balance (add64 tx.amount tx.fee) in
          let h' : IsCompact c (record st { shadows = shadow.1 }) = record {
            payable = h.payable;
            shown = same ∙ h.shown;
          } in
          elim (Bool-cases short) [
            | inl yes_short ↦ rw yes_short (record { payable = h.payable; shown = h'.shown })
            | inr enough ↦
                rw enough (
                  keep_tx-IsCompact (record st { shadows = shadow.1 }) tx shadow.0 valid e enough
                    h')
          ]

  compact_loop-IsCompact :
      (txs : List Tx) (st : Compact) → IsCompact c st → IsCompact c (compact_loop c txs st)
  unfolding compact_loop
  compact_loop-IsCompact [] st h = h
  compact_loop-IsCompact (tx ∷ txs) st h =
      compact_loop-IsCompact txs (compact_step c st tx) (compact_step-IsCompact st tx h)

  compact_start-IsCompact : IsCompact c compact_start
  unfolding pay_all
  compact_start-IsCompact = record { payable = tt; shown = overlay-empty (ledger_of c.accounts) }

  compact_step-counts :
      (st : Compact) (tx : Tx)
      → let st' = compact_step c st tx in
        length st'.kept + st'.dropped ≡ suc (length st.kept + st.dropped)
  unfolding compact_step keep_tx
  compact_step-counts st tx = ground (arith, length-append {0} st.kept (tx ∷ []))

  compact_loop-counts :
      (txs : List Tx) (st : Compact)
      → let st' = compact_loop c txs st in
        length st'.kept + st'.dropped ≡ length txs + (length st.kept + st.dropped)
  unfolding compact_loop
  compact_loop-counts [] st = omega arith
  compact_loop-counts (tx ∷ txs) st =
      omega (arith, compact_loop-counts txs (compact_step c st tx), compact_step-counts st tx)

compact_from_lem :
    ⦃p : Platform⦄ (pool : List Tx) (c : Chain)
    → let (dropped, c') = compact_from pool c in
      IsPayableAll c'.mempool (ledger_of c.accounts)
      × (length c'.mempool + dropped ≡ length pool)
      × (c'.accounts ≡ c.accounts)
unfolding compact_from reset_mempool rebuild_mempool_index
compact_from_lem [] c = (tt, omega arith, refl)
compact_from_lem (tx ∷ txs) c = (
  (compact_loop-IsCompact c (tx ∷ txs) compact_start (compact_start-IsCompact c)).payable,
  omega (arith, compact_loop-counts c (tx ∷ txs) compact_start),
  refl,
)

-- After `compactMempoolLocked` the transactions of the mempool can be paid one after the other from
-- the accounts of the chain, which are unchanged, and each transaction was either kept or counted
-- as dropped.
pub compact_mempool_lem :
    ⦃p : Platform⦄ (c : Chain)
    → let (dropped, c') = compact_mempool c in
      IsPayableAll c'.mempool (ledger_of c.accounts)
      × (length c'.mempool + dropped ≡ length c.mempool)
      × (c'.accounts ≡ c.accounts)
unfolding compact_mempool
compact_mempool_lem c = compact_from_lem c.mempool c

compact_from_rest :
    ⦃p : Platform⦄ (pool : List Tx) (c : Chain)
    → let c' = (compact_from pool c).1 in
      c' ≡ record c {
        mempool = c'.mempool;
        mempool_ids = c'.mempool_ids;
        mempool_sender_nonce = c'.mempool_sender_nonce;
      }
unfolding compact_from reset_mempool rebuild_mempool_index
compact_from_rest [] c = refl
compact_from_rest (tx ∷ txs) c = refl

-- `compactMempoolLocked` changes the mempool and its indices and nothing else.
pub compact_mempool_rest :
    ⦃p : Platform⦄ (c : Chain)
    → let c' = (compact_mempool c).1 in
      c' ≡ record c {
        mempool = c'.mempool;
        mempool_ids = c'.mempool_ids;
        mempool_sender_nonce = c'.mempool_sender_nonce;
      }
unfolding compact_mempool
compact_mempool_rest c = compact_from_rest c.mempool c
