-- ===== src/Mempool/Index.antt =====
-- The indices of the mempool (internal/mesh/chain_core.go) agree with the mempool itself.
use blackchain_node.Prelude.{
  ◌≤◌, String, str_eq, str_eq_iff, Bool, true, false, ◌||◌, some, List, [], ◌∷◌, ◌++◌, ◌≡◌, refl,
  arith, length, any, any-append,
}
use blackchain_node.Types.{Tx}
use blackchain_node.Platform.{Platform}
use blackchain_node.Dict.{
  Map, lookup, insert, contains, string_Eq, lookup-insert, contains-insert, lookup-empty,
  contains-empty,
}
use blackchain_node.Chain.{Chain}
use blackchain_node.Fees.{max_mempool_txs}
use blackchain_node.Mempool.{
  tx_id, sender_nonce_key, index_ids, index_sender_nonces, rebuild_mempool_index,
}

-- No two entries have one key.
abbrev pub IsDistinct : (Tx → String) → List Tx → Type 0
IsDistinct key [] = Unit
IsDistinct key (x ∷ xs) = (any (λ y. str_eq (key y) (key x)) xs ≡ false) × IsDistinct key xs

pub IsDistinct-snoc :
    (key : Tx → String) (xs : List Tx) (x : Tx)
    → IsDistinct key xs
    → any (λ y. str_eq (key y) (key x)) xs ≡ false
    → IsDistinct key (xs ++ x ∷ [])
IsDistinct-snoc key [] x d h = (refl, tt)
IsDistinct-snoc key (y ∷ xs) x d h = (
  rw (any-append (λ z. str_eq (key z) (key y)) xs (x ∷ []))
      (ground (arith, str_eq_iff (key x) (key y), str_eq_iff (key y) (key x))),
  IsDistinct-snoc key xs x d.1 (ground arith),
)

module _ ⦃p : Platform⦄ where
  contains-index_ids :
      (j : String) (txs : List Tx) (ids : Map String (Unit {0}))
      → contains j (index_ids txs ids) ≡ (any (λ tx. str_eq (tx_id tx) j) txs || contains j ids)
  unfolding index_ids
  contains-index_ids j [] ids = refl
  contains-index_ids j (tx ∷ txs) ids = ground (
    arith,
    contains-index_ids j txs (insert (tx_id tx) tt ids),
    contains-insert (tx_id tx) j tt ids,
  )

  contains-index_sender_nonces :
      (k : String) (txs : List Tx) (m : Map String String)
      → contains k (index_sender_nonces txs m)
        ≡ (any (λ tx. str_eq (sender_nonce_key tx) k) txs || contains k m)
  unfolding index_sender_nonces
  contains-index_sender_nonces k [] m = refl
  contains-index_sender_nonces k (tx ∷ txs) m = ground (
    arith,
    contains-index_sender_nonces k txs (insert (sender_nonce_key tx) (tx_id tx) m),
    contains-insert (sender_nonce_key tx) k (tx_id tx) m,
  )

  -- Every recorded sender and nonce leads to the id of a transaction that is indexed.
  abbrev IsLinked : Map String String → Map String (Unit {0}) → Type 0
  IsLinked m ids = (k v : String) → lookup k m ≡ some v → contains v ids ≡ true

  pub insert-IsLinked :
      (s i : String) (m : Map String String) (ids : Map String (Unit {0}))
      → IsLinked m ids
      → IsLinked (insert s i m) (insert i tt ids)
  insert-IsLinked s i m ids h k v e =
      ground (arith, lookup-insert s k i m, contains-insert i v tt ids, h k v, str_eq_iff i v)

  index-IsLinked :
      (txs : List Tx) (m : Map String String) (ids : Map String (Unit {0}))
      → IsLinked m ids
      → IsLinked (index_sender_nonces txs m) (index_ids txs ids)
  unfolding index_sender_nonces index_ids
  index-IsLinked [] m ids h = h
  index-IsLinked (tx ∷ txs) m ids h =
      index-IsLinked txs (insert (sender_nonce_key tx) (tx_id tx) m) (insert (tx_id tx) tt ids)
        (insert-IsLinked (sender_nonce_key tx) (tx_id tx) m ids h)

  -- The indices hold the ids and the sender nonces of the mempool's transactions and no others.
  pub record IsIndexed (c : Chain) : Type 0 where
    pub ids : (j : String) → contains j c.mempool_ids ≡ any (λ tx. str_eq (tx_id tx) j) c.mempool
    pub nonces :
        (k : String)
        → contains k c.mempool_sender_nonce ≡ any (λ tx. str_eq (sender_nonce_key tx) k) c.mempool
    pub linked : IsLinked c.mempool_sender_nonce c.mempool_ids

  -- The mempool holds at most 256 transactions, no two with one id, and no two of one sender with
  -- one nonce.
  pub record IsProper (c : Chain) : Type 0 where
    pub bounded : length c.mempool ≤ max_mempool_txs
    pub distinct_ids : IsDistinct tx_id c.mempool
    pub distinct_nonces : IsDistinct sender_nonce_key c.mempool

  false_or : (b : Bool) → (b || false) ≡ b
  false_or b = ground arith

  -- `rebuildMempoolIndexLocked` makes the indices agree with the mempool, whatever they were.
  pub rebuild_mempool_index-IsIndexed : (c : Chain) → IsIndexed (rebuild_mempool_index c)
  unfolding rebuild_mempool_index
  rebuild_mempool_index-IsIndexed c = record {
    ids = λ j. ground (arith, contains-index_ids j c.mempool [], contains-empty (Unit {0}) j);
    nonces =
        λ k. ground (arith, contains-index_sender_nonces k c.mempool [], contains-empty String k);
    linked = index-IsLinked c.mempool [] [] (λ k v e. ground (arith, lookup-empty String k));
  }
