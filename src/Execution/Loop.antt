-- ===== src/Execution/Loop.antt =====
-- The transaction loops of `applyBlockLocked` and `calcStateHashWithBlock`, and the write-back of
-- the cache (internal/mesh/chain_core.go), as payments on the ledger.
use mathlib.Core.Path.{fun_ext}
use blackchain_node.Prelude.{
  String, str_eq, true, false, ◌||◌, List, [], ◌∷◌, ◌≡◌, refl, sym, ap, ◌∙◌, arith, ℤ, pos, leb_ℤ,
  add64, sub64, inl, inr,
}
use blackchain_node.Types.{Tx, Account, ok, Result-cases}
use blackchain_node.Dict.{Map, lookup, insert, string_Eq}
use blackchain_node.Signing.{is_empty}
use blackchain_node.Chain.{get_account, get_or_create_account}
use blackchain_node.Ledger.{Ledger, update, pay, pay_all, IsPayableAll, credit, ledger_of, overlay}
use blackchain_node.Ledger.View.{ledger-insert, get_or_create-value, get_or_create-ledger}
use blackchain_node.Execution.{
  Exec, exec_tx, exec_txs, write_back, calc_tx, calc_txs, calc_fees, add_balance,
}
use blackchain_node.Execution.Payments.{
  view, is_well_formed, exec_tx_ok, exec_tx_runs, exec_tx-ledger, exec_tx-Paid,
}

-- The sum of the fees on int64, from a start.
abbrev pub sum_fees : List Tx → ℤ → ℤ
sum_fees [] total = total
sum_fees (tx ∷ txs) total = sum_fees txs (add64 total tx.fee)

abbrev pub AreWellFormed : List Tx → Type 0
AreWellFormed [] = Unit
AreWellFormed (tx ∷ txs) = (is_well_formed tx ≡ true) × AreWellFormed txs

-- What the loop that succeeds does, at the level of the ledger.
pub record PaidAll (txs : List Tx) (st st' : Exec) : Type 0 where
  pub well_formed : AreWellFormed txs
  pub covered : IsPayableAll txs (view st)
  pub paid : view st' ≡ pay_all txs (view st)
  pub fees : st'.total_fees ≡ sum_fees txs st.total_fees
  pub ledger : ledger_of st'.accounts ≡ ledger_of st.accounts

first_ok :
    (tx : Tx) (txs : List Tx) (st : Exec)
    → (exec_txs (tx ∷ txs) st).0 ≡ ok tt
    → ((exec_tx tx st).0 ≡ ok tt) × (exec_txs (tx ∷ txs) st ≡ exec_txs txs (exec_tx tx st).1)
unfolding exec_txs
first_ok tx txs st h = elim (Result-cases (exec_tx tx st).0) [
  | inl (u, e) ↦ (ground arith, rw (e, exec_txs) refl)
  | inr (x, e) ↦ absurd (ground arith)
]

-- Where the loop over a block's transactions succeeds, they are well-formed, each can be paid after
-- those before it, the cache over the accounts shows the ledger after all payments, the fees are
-- added to the sum, and the accounts under the cache read as before.
pub exec_txs-PaidAll :
    (txs : List Tx) (st : Exec) → (exec_txs txs st).0 ≡ ok tt → PaidAll txs st (exec_txs txs st).1
unfolding exec_txs pay_all
exec_txs-PaidAll [] st h = record {
  well_formed = tt;
  covered = tt;
  paid = refl;
  fees = refl;
  ledger = refl;
}
exec_txs-PaidAll (tx ∷ txs) st h =
    let (one, same) = first_ok tx txs st h in
    let first = exec_tx-Paid tx st one in
    let rest = exec_txs-PaidAll txs (exec_tx tx st).1 (ap (λ r. r.0) (sym same) ∙ h) in
    rw same (record {
      well_formed = ((exec_tx_ok tx st one).0, rest.well_formed);
      covered = (first.covered, rw (← first.paid) rest.covered);
      paid = rest.paid ∙ ap (pay_all txs) first.paid;
      fees = rest.fees ∙ ap (sum_fees txs) first.fees;
      ledger = rest.ledger ∙ first.ledger;
    })

-- The loop over a block's transactions succeeds for well-formed ones that can be paid one after the
-- other from what the cache shows.
pub exec_txs_runs :
    (txs : List Tx) (st : Exec)
    → AreWellFormed txs
    → IsPayableAll txs (view st)
    → (exec_txs txs st).0 ≡ ok tt
unfolding exec_txs pay_all
exec_txs_runs [] st w h = refl
exec_txs_runs (tx ∷ txs) st w h =
    let one = exec_tx_runs tx st w.0 h.0 in
    rw (one, exec_txs)
      (exec_txs_runs txs (exec_tx tx st).1 w.1 (rw (exec_tx-Paid tx st one).paid h.1))

-- An execution, also one that fails, shows in the accounts themselves in no way.
pub exec_txs-ledger :
    (txs : List Tx) (st : Exec) → ledger_of (exec_txs txs st).1.accounts ≡ ledger_of st.accounts
unfolding exec_txs
exec_txs-ledger [] st = refl
exec_txs-ledger (tx ∷ txs) st = elim (Result-cases (exec_tx tx st).0) [
  | inr (x, e) ↦ rw (e, exec_txs) (exec_tx-ledger tx st)
  | inl (u, e) ↦ rw (e, exec_txs) (exec_txs-ledger txs (exec_tx tx st).1 ∙ exec_tx-ledger tx st)
]

overlay-cons :
    (k : String) (v : Account) (m : Map String Account) (l : Ledger)
    → overlay ((k, v) ∷ m) l ≡ update k v (overlay m l)
unfolding overlay update lookup
overlay-cons k v m l = fun_ext λ a. ground arith

-- Writing the cache back makes the accounts what the cache showed.
pub write_back-ledger :
    (snaps accounts : Map String Account)
    → ledger_of (write_back snaps accounts) ≡ overlay snaps (ledger_of accounts)
unfolding write_back overlay lookup
write_back-ledger [] accounts = refl
write_back-ledger ((k, v) ∷ m) accounts =
    ledger-insert k v (write_back m accounts)
    ∙ (ap (update k v) (write_back-ledger m accounts)
        ∙ sym (overlay-cons k v m (ledger_of accounts)))

pub add_balance-ledger :
    (a : String) (n : ℤ) (m : Map String Account)
    → ledger_of (add_balance a n m) ≡ credit a n (ledger_of m)
unfolding add_balance credit
add_balance-ledger a n m =
    let (v, m') = get_or_create_account m a in
    let paid : Account → Account = λ x. record { balance = add64 x.balance n; nonce = x.nonce } in
    ledger-insert a (paid v) m'
    ∙ (ap (update a (paid v)) (get_or_create-ledger m a)
        ∙ ap (λ (x : Account). update a (paid x) (ledger_of m)) (get_or_create-value m a))

formed-skip :
    (tx : Tx)
    → is_well_formed tx ≡ true
    → (is_empty tx.from || is_empty tx.to || str_eq tx.from tx.to || leb_ℤ tx.amount (pos 0))
      ≡ false
formed-skip tx w = ground arith

calc_tx-ledger :
    (tx : Tx) (tmp : Map String Account)
    → is_well_formed tx ≡ true
    → ledger_of (calc_tx tx tmp) ≡ pay tx (ledger_of tmp)
unfolding calc_tx pay
calc_tx-ledger tx tmp w =
    let (from, tmp1) = get_or_create_account tmp tx.from in
    let (to, tmp2) = get_or_create_account tmp1 tx.to in
    let received : Account → Account =
      λ t. record { balance = add64 t.balance tx.amount; nonce = t.nonce } in
    let sent : Account → Account = λ f. record {
      balance = sub64 f.balance (add64 tx.amount tx.fee);
      nonce = add64 f.nonce (pos 1);
    } in
    let after =
      λ (f t : Account). update tx.to (received t) (update tx.from (sent f) (ledger_of tmp)) in
    let base = get_or_create-ledger tmp1 tx.to ∙ get_or_create-ledger tmp tx.from in
    rw (formed-skip tx w) (
      ledger-insert tx.to (received to) (insert tx.from (sent from) tmp2)
      ∙ (ap (update tx.to (received to))
            (ledger-insert tx.from (sent from) tmp2 ∙ ap (update tx.from (sent from)) base)
          ∙ (ap (λ (t : Account). after from t)
                (get_or_create-value tmp1 tx.to
                  ∙ ap (λ (l : Ledger). l tx.to) (get_or_create-ledger tmp tx.from))
              ∙ ap (λ (f : Account). after f (get_account tmp tx.to))
                  (get_or_create-value tmp tx.from))))

-- For well-formed transactions the loop of `calcStateHashWithBlock` makes all their payments, one
-- after the other, on the ledger of the accounts, whether or not they are covered.
pub calc_txs-ledger :
    (txs : List Tx) (tmp : Map String Account)
    → AreWellFormed txs
    → ledger_of (calc_txs txs tmp) ≡ pay_all txs (ledger_of tmp)
unfolding calc_txs pay_all
calc_txs-ledger [] tmp w = refl
calc_txs-ledger (tx ∷ txs) tmp w =
    calc_txs-ledger txs (calc_tx tx tmp) w.1 ∙ ap (pay_all txs) (calc_tx-ledger tx tmp w.0)

pub calc_fees-sum : (txs : List Tx) (n : ℤ) → AreWellFormed txs → calc_fees txs n ≡ sum_fees txs n
unfolding calc_fees
calc_fees-sum [] n w = refl
calc_fees-sum (tx ∷ txs) n w = rw (formed-skip tx w.0) (calc_fees-sum txs (add64 n tx.fee) w.1)
