-- ===== src/Mempool/Admission.antt =====
-- What `addTxToMempoolLocked` and `compactMempoolLocked` of internal/mesh/chain_core.go keep up.
use blackchain_node.Prelude.{
  suc, ◌≤◌, String, str_eq, str_eq_iff, false, Option, none, some, [], ◌∷◌, ◌++◌, ◌≡◌, refl, sym,
  ap, ◌⊎◌, ◌∙◌, arith, length, length-append, any-append, inl, inr,
}
use blackchain_node.Types.{Tx, Error, Result, ok, err, Result-cases}
use blackchain_node.Platform.{Platform}
use blackchain_node.Dict.{lookup, insert, contains, string_Eq, contains-insert}
use blackchain_node.Chain.{Chain}
use blackchain_node.Fees.{max_mempool_txs}
use blackchain_node.Mempool.{
  tx_id, sender_nonce_key, validate_tx, check_admission, conflicts, add_tx_to_mempool,
}
use blackchain_node.Mempool.Index.{IsDistinct-snoc, IsIndexed, IsProper, insert-IsLinked}

module _ ⦃p : Platform⦄ where
  -- What the checks of an admission establish.
  record IsAdmissible (tx : Tx) (c : Chain) : Type 0 where
    valid : validate_tx c tx ≡ ok tt
    room : suc (length c.mempool) ≤ max_mempool_txs
    fresh_id : contains (tx_id tx) c.mempool_ids ≡ false
    no_conflict : conflicts (lookup (sender_nonce_key tx) c.mempool_sender_nonce) (tx_id tx) ≡ false

  check_admission-IsAdmissible :
      (tx : Tx) (c : Chain) → check_admission tx c ≡ ok tt → IsAdmissible tx c
  unfolding check_admission
  check_admission-IsAdmissible tx c h = record {
    valid = ground arith;
    room = ground arith;
    fresh_id = ground arith;
    no_conflict = ground arith;
  }

  conflict_or_known :
      (o : Option String) (id : String) → conflicts o id ≡ false → (o ≡ none) ⊎ (o ≡ some id)
  conflict_or_known none id h = inl refl
  conflict_or_known (some v) id h = inr (ap some ((str_eq_iff v id).0 (ground arith)))

  -- A sender and nonce that are recorded at all belong to a transaction that is in the mempool, so
  -- an admissible transaction brings a new sender and nonce.
  fresh_nonce :
      (tx : Tx) (c : Chain)
      → IsIndexed c
      → IsAdmissible tx c
      → contains (sender_nonce_key tx) c.mempool_sender_nonce ≡ false
  unfolding contains
  fresh_nonce tx c ix h =
      elim (conflict_or_known (lookup (sender_nonce_key tx) c.mempool_sender_nonce) (tx_id tx)
        h.no_conflict) [
          | inl missing ↦ rw (missing, contains) refl
          | inr known ↦
              absurd (ground (arith, ix.linked (sender_nonce_key tx) (tx_id tx) known, h.fresh_id))
        ]

  -- The chain after an admission.
  abbrev admitted : Tx → Chain → Chain
  admitted tx c = record c {
    mempool = c.mempool ++ tx ∷ [];
    mempool_ids = insert (tx_id tx) tt c.mempool_ids;
    mempool_sender_nonce = insert (sender_nonce_key tx) (tx_id tx) c.mempool_sender_nonce;
  }

  admitted-IsIndexed : (tx : Tx) (c : Chain) → IsIndexed c → IsIndexed (admitted tx c)
  admitted-IsIndexed tx c ix = record {
    ids = λ j. ground (
      arith,
      ix.ids j,
      contains-insert (tx_id tx) j tt c.mempool_ids,
      any-append {0} (λ x. str_eq (tx_id x) j) c.mempool (tx ∷ []),
    );
    nonces = λ k. ground (
      arith,
      ix.nonces k,
      contains-insert (sender_nonce_key tx) k (tx_id tx) c.mempool_sender_nonce,
      any-append {0} (λ x. str_eq (sender_nonce_key x) k) c.mempool (tx ∷ []),
    );
    linked =
        insert-IsLinked (sender_nonce_key tx) (tx_id tx) c.mempool_sender_nonce c.mempool_ids
          ix.linked;
  }

  admitted-IsProper :
      (tx : Tx) (c : Chain)
      → IsIndexed c
      → IsProper c
      → IsAdmissible tx c
      → IsProper (admitted tx c)
  admitted-IsProper tx c ix pr h = record {
    bounded = omega (arith, length-append {0} c.mempool (tx ∷ []), h.room);
    distinct_ids =
        IsDistinct-snoc tx_id c.mempool tx pr.distinct_ids (sym (ix.ids (tx_id tx)) ∙ h.fresh_id);
    distinct_nonces =
        IsDistinct-snoc sender_nonce_key c.mempool tx pr.distinct_nonces
          (sym (ix.nonces (sender_nonce_key tx)) ∙ fresh_nonce tx c ix h);
  }

  -- How an admission ends: refused with nothing changed, or accepted with the transaction, valid in
  -- the old state, at the end of a mempool that was not full.
  pub data Admitted (tx : Tx) (c : Chain) (r : Result (Unit {0}) × Chain) : Type 0 where
    refused : (e : Error) → r ≡ (err e, c) → Admitted tx c r
    accepted :
        validate_tx c tx ≡ ok tt
        → r.0 ≡ ok tt
        → r.1.mempool ≡ c.mempool ++ tx ∷ []
        → r.1.accounts ≡ c.accounts
        → Admitted tx c r

  add_result :
      (tx : Tx) (c : Chain)
      → ((e : Error) × (add_tx_to_mempool tx c ≡ (err e, c)))
        ⊎ (IsAdmissible tx c × (add_tx_to_mempool tx c ≡ (ok tt, admitted tx c)))
  unfolding add_tx_to_mempool
  add_result tx c = elim (Result-cases (check_admission tx c)) [
    | inl (u, e) ↦
        inr (check_admission-IsAdmissible tx c (ground arith), rw (e, add_tx_to_mempool) refl)
    | inr (x, e) ↦ inl (x, rw (e, add_tx_to_mempool) refl)
  ]

  -- `addTxToMempoolLocked` refuses a transaction and changes nothing, or the transaction was valid
  -- and is now the last of the mempool, with the accounts unchanged.
  pub add_tx_to_mempool-Admitted : (tx : Tx) (c : Chain) → Admitted tx c (add_tx_to_mempool tx c)
  add_tx_to_mempool-Admitted tx c = elim (add_result tx c) [
    | inl (e, h) ↦ refused e h
    | inr (h, r) ↦ accepted h.valid (rw r refl) (rw r refl) (rw r refl)
  ]

  -- From a mempool whose indices agree with it, with at most 256 transactions, distinct in their ids
  -- and in their senders and nonces, an admission leads to such a mempool again, whether it is
  -- refused or accepted.
  pub add_tx_to_mempool-IsProper :
      (tx : Tx) (c : Chain)
      → IsIndexed c
      → IsProper c
      → IsIndexed (add_tx_to_mempool tx c).1 × IsProper (add_tx_to_mempool tx c).1
  add_tx_to_mempool-IsProper tx c ix pr = elim (add_result tx c) [
    | inl (e, h) ↦ rw h (ix, pr)
    | inr (h, r) ↦ rw r (admitted-IsIndexed tx c ix, admitted-IsProper tx c ix pr h)
  ]
