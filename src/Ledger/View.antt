-- ===== src/Ledger/View.antt =====
-- How writes to maps of accounts and to caches over them show in the ledger.
use mathlib.Core.Path.{fun_ext}
use blackchain_node.Prelude.{
  String, str_eq, str_eq_iff, false, [], ◌∷◌, ◌++◌, List, ◌≡◌, refl, arith, inl, inr, Bool-cases,
}
use blackchain_node.Types.{Tx, Account}
use blackchain_node.Dict.{Map, lookup, insert, lookup-insert, string_Eq}
use blackchain_node.Chain.{get_account, get_or_create_account, zero_account}
use blackchain_node.Ledger.{Ledger, update, pay, pay_all, IsPayableAll, ledger_of, overlay}

pub overlay-insert :
    (k : String) (v : Account) (m : Map String Account) (l : Ledger)
    → overlay (insert k v m) l ≡ update k v (overlay m l)
unfolding overlay update
overlay-insert k v m l = fun_ext λ a. ground (arith, lookup-insert k a v m)

pub ledger-insert :
    (k : String) (v : Account) (m : Map String Account)
    → ledger_of (insert k v m) ≡ update k v (ledger_of m)
unfolding get_account update
ledger-insert k v m = fun_ext λ a. ground (arith, lookup-insert k a v m)

-- Writing back what is there changes nothing.
pub update_id : (k : String) (l : Ledger) → update k (l k) l ≡ l
unfolding update
update_id k l = fun_ext λ a. elim (Bool-cases (str_eq k a)) [
  | inl same ↦ let e : k ≡ a = (str_eq_iff k a).0 same in rw (same, e)
  | inr other ↦ rw other
]

pub update-update :
    (k : String) (v w : Account) (l : Ledger) → update k v (update k w l) ≡ update k v l
unfolding update
update-update k v w l = fun_ext λ a. ground arith

pub get_or_create-value :
    (m : Map String Account) (a : String) → (get_or_create_account m a).0 ≡ get_account m a
unfolding get_or_create_account get_account
get_or_create-value m a = ground arith

-- Creating an account does not show in the ledger.
pub get_or_create-ledger :
    (m : Map String Account) (a : String) → ledger_of (get_or_create_account m a).1 ≡ ledger_of m
unfolding get_or_create_account get_account
get_or_create-ledger m a =
    fun_ext λ b. ground (arith, lookup-insert a b zero_account m, str_eq_iff a b)

pub overlay-empty : (l : Ledger) → overlay [] l ≡ l
unfolding overlay lookup
overlay-empty l = refl

pub pay_all-append :
    (xs ys : List Tx) (l : Ledger) → pay_all (xs ++ ys) l ≡ pay_all ys (pay_all xs l)
unfolding pay_all
pay_all-append [] ys l = refl
pay_all-append (x ∷ xs) ys l = pay_all-append xs ys (pay x l)

pub IsPayableAll-append :
    (xs ys : List Tx) (l : Ledger)
    → IsPayableAll xs l
    → IsPayableAll ys (pay_all xs l)
    → IsPayableAll (xs ++ ys) l
unfolding pay_all
IsPayableAll-append [] ys l hx hy = hy
IsPayableAll-append (x ∷ xs) ys l hx hy = (hx.0, IsPayableAll-append xs ys (pay x l) hx.1 hy)

pub IsPayableAll-prefix :
    (xs ys : List Tx) (l : Ledger) → IsPayableAll (xs ++ ys) l → IsPayableAll xs l
IsPayableAll-prefix [] ys l h = tt
IsPayableAll-prefix (x ∷ xs) ys l h = (h.0, IsPayableAll-prefix xs ys (pay x l) h.1)

pub update_ne :
    (k a : String) (v : Account) (l : Ledger) → str_eq k a ≡ false → update k v l a ≡ l a
unfolding update
update_ne k a v l h = rw h
