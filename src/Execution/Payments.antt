-- ===== src/Execution/Payments.antt =====
-- The transaction loop of `applyBlockLocked` and the loop of `calcStateHashWithBlock` in
-- internal/mesh/chain_core.go, against the payments that they mean.
use blackchain_node.Prelude.{
  String, str_eq, Bool, true, false, not, ◌&&◌, ◌||◌, none, ◌≡◌, refl, sym, ap, ◌∙◌, arith, pos,
  ltb_ℤ, leb_ℤ, add64, Option-cases, ◌⊎◌, inl, inr,
}
use blackchain_node.Types.{Tx, Account, ok}
use blackchain_node.Dict.{lookup, insert, string_Eq}
use blackchain_node.Signing.{is_empty}
use blackchain_node.Chain.{get_or_create_account}
use blackchain_node.Ledger.{Ledger, update, pay, can_pay, ledger_of, overlay}
use blackchain_node.Ledger.View.{
  overlay-insert, update_id, get_or_create-value, get_or_create-ledger,
}
use blackchain_node.Execution.{Exec, touch, settle, exec_tx}

-- What the code sees at an address: the cache, or else the accounts.
abbrev pub view : Exec → Ledger
view st = overlay st.snaps (ledger_of st.accounts)

-- The two ways of `touch`.
touch_cases :
    (a : String) (st : Exec)
    → ((touch a st ≡ (view st a, st)))
      ⊎ ((lookup a st.snaps ≡ none)
          × (touch a st ≡ (
              let (v, accounts) = get_or_create_account st.accounts a in
              (v, record st { accounts = accounts; snaps = insert a v st.snaps }))))
unfolding touch overlay
touch_cases a st = elim (Option-cases (lookup a st.snaps)) [
  | inl e ↦ inr (e, rw (e, touch) refl)
  | inr (v, e) ↦ inl (rw (e, touch, overlay) refl)
]

miss-value :
    (a : String) (st : Exec)
    → lookup a st.snaps ≡ none
    → (get_or_create_account st.accounts a).0 ≡ view st a
unfolding overlay
miss-value a st e = rw (e, overlay) (get_or_create-value st.accounts a)

touch-value : (a : String) (st : Exec) → (touch a st).0 ≡ view st a
touch-value a st = elim (touch_cases a st) [
  | inl hit ↦ rw hit refl
  | inr (e, miss) ↦ rw miss (miss-value a st e)
]

touch-ledger : (a : String) (st : Exec) → ledger_of (touch a st).1.accounts ≡ ledger_of st.accounts
touch-ledger a st = elim (touch_cases a st) [
  | inl hit ↦ rw hit refl
  | inr (e, miss) ↦ rw miss (get_or_create-ledger st.accounts a)
]

touch-view : (a : String) (st : Exec) → view (touch a st).1 ≡ view st
touch-view a st = elim (touch_cases a st) [
  | inl hit ↦ rw hit refl
  | inr (e, miss) ↦ rw miss (
      overlay-insert a _ st.snaps _
      ∙ (ap (λ (l : Ledger). update a (get_or_create_account st.accounts a).0 (overlay st.snaps l))
            (get_or_create-ledger st.accounts a)
          ∙ (ap (λ v. update a v (view st)) (miss-value a st e) ∙ update_id a (view st))))
]

touch-fees : (a : String) (st : Exec) → (touch a st).1.total_fees ≡ st.total_fees
unfolding touch
touch-fees a st = ground arith

settle-view :
    (tx : Tx) (f t : Account) (st : Exec)
    → str_eq tx.from tx.to ≡ false
    → f ≡ view st tx.from
    → t ≡ view st tx.to
    → view (settle tx f t st) ≡ pay tx (view st)
unfolding settle pay
settle-view tx f t st ne ef et = rw (overlay-insert, overlay-insert) (rw (ef, et) refl)

-- What a round that succeeds does, at the level of the ledger.
pub record Paid (tx : Tx) (st st' : Exec) : Type 0 where
  pub covered : can_pay tx (view st) ≡ true
  pub paid : view st' ≡ pay tx (view st)
  pub fees : st'.total_fees ≡ add64 st.total_fees tx.fee
  pub ledger : ledger_of st'.accounts ≡ ledger_of st.accounts

-- The fields that the rounds of the loop test.
abbrev pub is_well_formed : Tx → Bool
is_well_formed tx =
    not (is_empty tx.from || is_empty tx.to || str_eq tx.from tx.to || leb_ℤ tx.amount (pos 0))
    && not (ltb_ℤ tx.fee (pos 0))

payee-value : (tx : Tx) (st : Exec) → (touch tx.to (touch tx.from st).1).0 ≡ view st tx.to
payee-value tx st =
    touch-value tx.to (touch tx.from st).1 ∙ ap (λ (l : Ledger). l tx.to) (touch-view tx.from st)

pub exec_tx_ok :
    (tx : Tx) (st : Exec)
    → (exec_tx tx st).0 ≡ ok tt
    → (is_well_formed tx ≡ true)
      × (can_pay tx (view st) ≡ true)
      × ((exec_tx tx st).1
          ≡ settle tx (view st tx.from) (view st tx.to) (touch tx.to (touch tx.from st).1).1)
unfolding exec_tx
exec_tx_ok tx st h =
    let fv = touch-value tx.from st in
    let tv = payee-value tx st in
    (ground (arith, fv, tv), ground (arith, fv, tv), ground (arith, fv, tv))

-- A well-formed transaction that can be paid does not fail.
pub exec_tx_runs :
    (tx : Tx) (st : Exec)
    → is_well_formed tx ≡ true
    → can_pay tx (view st) ≡ true
    → (exec_tx tx st).0 ≡ ok tt
unfolding exec_tx
exec_tx_runs tx st w h = ground (arith, touch-value tx.from st)

pub exec_tx-ledger :
    (tx : Tx) (st : Exec) → ledger_of (exec_tx tx st).1.accounts ≡ ledger_of st.accounts
unfolding exec_tx settle
exec_tx-ledger tx st =
    ground (arith, touch-ledger tx.from st, touch-ledger tx.to (touch tx.from st).1)

exec_tx-fees :
    (tx : Tx) (st : Exec)
    → (exec_tx tx st).0 ≡ ok tt
    → (exec_tx tx st).1.total_fees ≡ add64 st.total_fees tx.fee
unfolding exec_tx settle
exec_tx-fees tx st h = ground (arith, touch-fees tx.from st, touch-fees tx.to (touch tx.from st).1)

pub exec_tx-Paid : (tx : Tx) (st : Exec) → (exec_tx tx st).0 ≡ ok tt → Paid tx st (exec_tx tx st).1
exec_tx-Paid tx st h =
    let (formed, covered, made) = exec_tx_ok tx st h in
    let st2 = (touch tx.to (touch tx.from st).1).1 in
    let same : view st2 ≡ view st = touch-view tx.to (touch tx.from st).1 ∙ touch-view tx.from st in
    record {
      covered = covered;
      paid = rw made (
          settle-view tx (view st tx.from) (view st tx.to) st2 (ground arith)
            (ap (λ (l : Ledger). l tx.from) (sym same)) (ap (λ (l : Ledger). l tx.to) (sym same))
          ∙ ap (pay tx) same);
      fees = exec_tx-fees tx st h;
      ledger = exec_tx-ledger tx st;
    }
