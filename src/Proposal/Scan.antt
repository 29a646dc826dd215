-- ===== src/Proposal/Scan.antt =====
-- The checks of a block's transactions (`applyBlockLocked` of internal/mesh/chain_core.go) pass for what
-- a compacted mempool offers.
use blackchain_node.Prelude.{
  ℕ, zero, suc, String, str_eq, str_eq_iff, Bool, true, false, List, [], ◌∷◌, ◌≡◌, refl, arith, All,
  any, take, ℤ, add64, pos,
}
use blackchain_node.Types.{Tx, ok}
use blackchain_node.Platform.{Platform}
use blackchain_node.Dict.{Map, contains, insert, string_Eq, contains-insert, contains-empty}
use blackchain_node.Mempool.{tx_id, sender_nonce_key}
use blackchain_node.Mempool.Index.{IsDistinct}
use blackchain_node.Mempool.Sound.{IsFit}
use blackchain_node.Execution.{scan_txs}
use blackchain_node.Execution.Loop.{sum_fees, AreWellFormed}
use blackchain_node.Execution.Payments.{is_well_formed}
use blackchain_node.Proposal.{is_malformed}

-- No key of the transactions is taken yet.
abbrev AreFresh : (Tx → String) → List Tx → Map String (Unit {0}) → Type 0
AreFresh key [] taken = Unit
AreFresh key (x ∷ xs) taken = (contains (key x) taken ≡ false) × AreFresh key xs taken

fresh-insert :
    (key : Tx → String) (x : Tx) (xs : List Tx) (taken : Map String (Unit {0}))
    → any (λ y. str_eq (key y) (key x)) xs ≡ false
    → AreFresh key xs taken
    → AreFresh key xs (insert (key x) tt taken)
fresh-insert key x [] taken d h = tt
fresh-insert key x (y ∷ xs) taken d h = (
  ground (
    arith,
    contains-insert (key x) (key y) tt taken,
    str_eq_iff (key x) (key y),
    str_eq_iff (key y) (key x),
  ),
  fresh-insert key x xs taken (ground arith) h.1,
)

fresh-empty : (key : Tx → String) (xs : List Tx) → AreFresh key xs []
fresh-empty key [] = tt
fresh-empty key (x ∷ xs) = (contains-empty (Unit {0}) (key x), fresh-empty key xs)

any-take :
    (test : Tx → Bool) (n : ℕ) (xs : List Tx) → any test xs ≡ false → any test (take n xs) ≡ false
any-take test zero xs h = refl
any-take test (suc n) [] h = refl
any-take test (suc n) (x ∷ xs) h = ground (arith, any-take test n xs)

pub take-IsDistinct :
    (key : Tx → String) (n : ℕ) (xs : List Tx) → IsDistinct key xs → IsDistinct key (take n xs)
take-IsDistinct key zero xs h = tt
take-IsDistinct key (suc n) [] h = tt
take-IsDistinct key (suc n) (x ∷ xs) h =
    (any-take (λ y. str_eq (key y) (key x)) n xs h.0, take-IsDistinct key n xs h.1)

module _ ⦃p : Platform⦄ where
  pub take-IsFit : (n : ℕ) (xs : List Tx) → All IsFit xs → All IsFit (take n xs)
  take-IsFit zero xs h = tt
  take-IsFit (suc n) [] h = tt
  take-IsFit (suc n) (x ∷ xs) h = (h.0, take-IsFit n xs h.1)

  pub fit-AreWellFormed : (xs : List Tx) → All IsFit xs → AreWellFormed xs
  fit-AreWellFormed [] h = tt
  fit-AreWellFormed (x ∷ xs) h = (well x h.0, fit-AreWellFormed xs h.1)
    where
      well : (x : Tx) → IsFit x → is_well_formed x ≡ true
      well x f = ground (arith, f.named, f.apart, f.amount, f.fee)

  pub fit-malformed : (xs : List Tx) → All IsFit xs → any is_malformed xs ≡ false
  fit-malformed [] h = refl
  fit-malformed (x ∷ xs) h =
      ground (arith, fit-malformed xs h.1, (h.0).named, (h.0).apart, (h.0).amount)

  scan_fresh :
      (xs : List Tx) (ids nonces : Map String (Unit {0})) (start : ℤ)
      → All IsFit xs
      → IsDistinct tx_id xs
      → IsDistinct sender_nonce_key xs
      → AreFresh tx_id xs ids
      → AreFresh sender_nonce_key xs nonces
      → scan_txs xs ids nonces start ≡ ok (sum_fees xs start)
  unfolding scan_txs
  scan_fresh [] ids nonces start fit di dn fi fn = refl
  scan_fresh (x ∷ xs) ids nonces start fit di dn fi fn =
      let rest =
        scan_fresh xs (insert (tx_id x) tt ids) (insert (sender_nonce_key x) tt nonces)
          (add64 start x.fee) fit.1 di.1 dn.1 (fresh-insert tx_id x xs ids di.0 fi.1)
          (fresh-insert sender_nonce_key x xs nonces dn.0 fn.1) in
      rw ((fit.0).signed, (fit.0).fields, fi.0, fn.0) rest

  -- The first loop over the transactions passes and adds the fees up.
  pub scan_txs-fit :
      (xs : List Tx)
      → All IsFit xs
      → IsDistinct tx_id xs
      → IsDistinct sender_nonce_key xs
      → scan_txs xs [] [] (pos 0) ≡ ok (sum_fees xs (pos 0))
  scan_txs-fit xs fit di dn =
      scan_fresh xs [] [] (pos 0) fit di dn (fresh-empty tx_id xs) (fresh-empty sender_nonce_key xs)
