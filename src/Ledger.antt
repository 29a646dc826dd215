-- ===== src/Ledger.antt =====
-- The abstract view of the accounts: every address has a balance and a nonce. The mempool, the
-- execution of a block and the state hash of internal/mesh/chain_core.go all move money through a
-- map of accounts and a cache over it; this is what each of them means.
use blackchain_node.Prelude.{
  ℕ, String, str_eq, Bool, true, false, not, ◌&&◌, List, [], ◌∷◌, ◌≡◌, ℤ, none, some, pos, add64,
  sub64, ltb_ℤ, eqb_ℤ, if◌then◌else◌,
}
use blackchain_node.Types.{Tx, Account}
use blackchain_node.Dict.{Map, lookup, string_Eq}
use blackchain_node.Chain.{get_account}
pub mod View

abbrev pub Ledger : Type 0
Ledger = String → Account

-- `L` with the account of `k` replaced.
unfoldable pub update : String → Account → Ledger → Ledger
update k v l a = if str_eq k a then v else l a

-- The sender pays amount and fee and uses up a nonce; the recipient receives the amount.
unfoldable pub pay : Tx → Ledger → Ledger
unfolding update
pay tx l =
    let payer = l tx.from in
    let payee = l tx.to in
    update tx.to (record { balance = add64 payee.balance tx.amount; nonce = payee.nonce })
      (update tx.from
        (record {
          balance = sub64 payer.balance (add64 tx.amount tx.fee);
          nonce = add64 payer.nonce (pos 1);
        })
        l)

unfoldable pub pay_all : List Tx → Ledger → Ledger
unfolding pay
pay_all [] l = l
pay_all (tx ∷ txs) l = pay_all txs (pay tx l)

-- The sender's nonce is next, and its balance covers amount and fee.
abbrev pub can_pay : Tx → Ledger → Bool
can_pay tx l =
    eqb_ℤ tx.nonce (l tx.from).nonce && not (ltb_ℤ (l tx.from).balance (add64 tx.amount tx.fee))

-- Each transaction can be paid after those before it.
abbrev pub IsPayableAll : List Tx → Ledger → Type 0
IsPayableAll [] l = Unit
IsPayableAll (tx ∷ txs) l = (can_pay tx l ≡ true) × IsPayableAll txs (pay tx l)

unfoldable pub credit : String → ℤ → Ledger → Ledger
unfolding update
credit a n l = update a (record { balance = add64 (l a).balance n; nonce = (l a).nonce }) l

-- The ledger of a map of accounts: `getAccount` at every address.
abbrev pub ledger_of : Map String Account → Ledger
ledger_of accounts a = get_account accounts a

-- The ledger of a cache of accounts over another ledger.
unfoldable pub overlay : Map String Account → Ledger → Ledger
overlay m l a = elim (lookup a m) [ none ↦ l a | some v ↦ v ]
