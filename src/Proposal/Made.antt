-- ===== src/Proposal/Made.antt =====
-- The block that `proposeBlock` of internal/mesh/chain_core.go makes of a compacted mempool is good.
use blackchain_node.Prelude.{
  ℕ, zero, suc, ◌≤◌, String, false, some, List, [], ◌∷◌, ◌≡◌, refl, arith, All, take, pos, add64,
  ltb_ℤ, length, ◌==◌,
}
use blackchain_node.Types.{Tx, Block}
use blackchain_node.Platform.{Platform, Bytes, HexRoundTrip, KeyPair}
use blackchain_node.Signing.{calc_block_hash, sign_block, public_key_size, signature_size}
use blackchain_node.Signing.Laws.{validate-sign_block}
use blackchain_node.Dict.{int_Eq}
use blackchain_node.Chain.{Chain}
use blackchain_node.Fees.{max_block_txs}
use blackchain_node.Ledger.{IsPayableAll, Ledger, pay, ledger_of}
use blackchain_node.Merkle.Text.{HasHashTexts, merkle_balances_root-HasText}
use blackchain_node.Mempool.{compact_mempool, tx_id, sender_nonce_key}
use blackchain_node.Mempool.Compaction.{compact_mempool_lem}
use blackchain_node.Mempool.Distinct.{compact_mempool-IsDistinct}
use blackchain_node.Mempool.Index.{IsDistinct}
use blackchain_node.Mempool.Sound.{IsFit, compact_mempool-IsFit}
use blackchain_node.Execution.{
  calc_state_hash_with_block, calc_accounts, calc_rewards, expected_reward,
}
use blackchain_node.Execution.Loop.{sum_fees}
use blackchain_node.Proposal.{make_block}
use blackchain_node.Proposal.Scan.{take-IsDistinct, take-IsFit}
use blackchain_node.Proposal.Complete.{IsGood}

take-IsPayableAll :
    (n : ℕ) (xs : List Tx) (l : Ledger) → IsPayableAll xs l → IsPayableAll (take n xs) l
take-IsPayableAll zero xs l h = tt
take-IsPayableAll (suc n) [] l h = tt
take-IsPayableAll (suc n) (x ∷ xs) l h = (h.0, take-IsPayableAll n xs (pay x l) h.1)

length-take_le : (n : ℕ) (xs : List Tx) → length (take n xs) ≤ n
length-take_le zero xs = omega arith
length-take_le (suc n) [] = omega arith
length-take_le (suc n) (x ∷ xs) = omega (arith, length-take_le n xs)

module _ ⦃p : Platform⦄ where
  -- A key pair of ed25519: what it signs verifies, and it survives its hexadecimal text.
  pub record IsSigner (pub_raw priv : Bytes) : Type 0 where
    pub round_pub : HexRoundTrip p pub_raw
    pub round_sig : (msg : Bytes) → HexRoundTrip p (p.sign priv msg)
    pub nil : p.hex_decode "" ≡ some []
    pub pair : KeyPair p pub_raw priv
    pub size : (msg : Bytes) → length (p.sign priv msg) ≡ signature_size
    pub key_size : length pub_raw ≡ public_key_size

  -- The transactions that a block takes from a mempool with distinct, fit transactions that can be paid.
  pub record IsOffer (txs : List Tx) (c : Chain) : Type 0 where
    pub few : length txs ≤ max_block_txs
    pub fit : All IsFit txs
    pub distinct_ids : IsDistinct tx_id txs
    pub distinct_nonces : IsDistinct sender_nonce_key txs
    pub covered : IsPayableAll txs (ledger_of c.accounts)

  pub take-IsOffer : (c : Chain) → IsOffer (take max_block_txs (compact_mempool c).1.mempool) c
  take-IsOffer c =
      let pool = (compact_mempool c).1.mempool in
      let (indexed, ids, nonces) = compact_mempool-IsDistinct c in
      record {
        few = length-take_le max_block_txs pool;
        fit = take-IsFit max_block_txs pool (compact_mempool-IsFit c);
        distinct_ids = take-IsDistinct tx_id max_block_txs pool ids;
        distinct_nonces = take-IsDistinct sender_nonce_key max_block_txs pool nonces;
        covered =
            take-IsPayableAll max_block_txs pool (ledger_of c.accounts) (compact_mempool_lem c).0;
      }

  -- The block that is made of an offer is good.
  pub make_block-IsGood :
      (now : ℕ) (producer_addr : String) (pub_raw priv : Bytes) (txs : List Tx) (c : Chain)
      → IsSigner pub_raw priv
      → HasHashTexts
      → IsOffer txs c
      → (now == 0) ≡ false
      → ltb_ℤ (expected_reward (add64 c.height (pos 1)) (sum_fees txs (pos 0))) (pos 0) ≡ false
      → ((b : Block) → c.disk_faults b ≡ false)
      → IsGood (make_block now producer_addr (p.hex_encode pub_raw) priv txs c) c
  unfolding make_block sign_block calc_block_hash calc_state_hash_with_block calc_accounts
      calc_rewards
  make_block-IsGood now producer_addr pub_raw priv txs c signer texts offer timed gain writes =
      let made = make_block now producer_addr (p.hex_encode pub_raw) priv txs c in
      record {
        few = offer.few;
        fit = offer.fit;
        distinct_ids = offer.distinct_ids;
        distinct_nonces = offer.distinct_nonces;
        covered = offer.covered;
        gain = gain;
        next_height = refl;
        on_tip = refl;
        timed = timed;
        named = texts _;
        hash = refl;
        signed =
            validate-sign_block (record made { signature = "" }) pub_raw priv signer.round_pub
              signer.round_sig signer.nil signer.pair signer.size signer.key_size refl refl refl;
        reward = refl;
        rooted = merkle_balances_root-HasText texts _;
        root = refl;
        writes = writes _;
      }
