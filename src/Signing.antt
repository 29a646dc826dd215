-- ===== src/Signing.antt =====
-- Signatures of transactions, blocks and votes (internal/mesh/tx_signing.go,
-- internal/mesh/block_signing.go, internal/mesh/validator_votes.go). A failed `hex.DecodeString`
-- is `none`; ed25519 public keys have 32 bytes, private keys and signatures 64.
use blackchain_node.Prelude.{
  ℕ, String, slice, ◌<>◌, str_eq, Bool, true, false, not, ◌&&◌, ◌||◌, Option, none, some, List, ℤ,
  pos, leb_ℤ, ltb_ℤ, length, ◌==◌, if◌then◌else◌,
}
use blackchain_node.Types.{
  Tx, Block, Vote, Error, Result, ok, err, ◌>>=◌, ◌>>◌, reject_if, is_ok, missing_from_to,
  bad_amount, bad_nonce, missing_pubkey_sig, bad_pubkey_hex, bad_pubkey_size, from_pubkey_mismatch,
  bad_sig_hex, bad_sig_size, bad_signature, bad_tx_inputs, bad_privkey, missing_validator_id,
  missing_producer, producer_mismatch, bad_vote_signature,
}
use blackchain_node.Platform.{Platform, Bytes}
pub mod Laws

abbrev pub public_key_size : ℕ
public_key_size = 32

abbrev pub private_key_size : ℕ
private_key_size = 64

abbrev pub signature_size : ℕ
signature_size = 64

abbrev pub is_empty : String → Bool
is_empty s = str_eq s ""

abbrev or_else : Option Bytes → Error → Result Bytes
or_else none e = err e
or_else (some b) e = ok b

module _ ⦃p : Platform⦄ where
  -- `txSignBytes`
  unfoldable pub tx_sign_bytes : Tx → Bytes
  tx_sign_bytes tx = p.sha256 (
      p.json_tx_canon (record { from = tx.from; to = tx.to; amount = tx.amount; nonce = tx.nonce }))

  -- `addrFromPubHex`
  unfoldable pub addr_from_pub_hex : String → Result String
  addr_from_pub_hex pub_hex = do
    pub_raw ← or_else (p.hex_decode pub_hex) bad_pubkey_hex
    reject_if (not (length pub_raw == public_key_size)) bad_pubkey_size
    ok (slice (p.hex_encode (p.sha256 pub_raw)) 0 40)

  -- `VerifyTx`
  unfoldable pub verify_tx : Tx → Result (Unit {0})
  unfolding addr_from_pub_hex tx_sign_bytes
  verify_tx tx = do
    reject_if (is_empty tx.from || is_empty tx.to) missing_from_to
    reject_if (leb_ℤ tx.amount (pos 0)) bad_amount
    reject_if (ltb_ℤ tx.nonce (pos 0)) bad_nonce
    reject_if (is_empty tx.pub_key || is_empty tx.signature) missing_pubkey_sig
    want_addr ← addr_from_pub_hex tx.pub_key
    reject_if (not (str_eq tx.from want_addr)) from_pubkey_mismatch
    pub_raw ← or_else (p.hex_decode tx.pub_key) bad_pubkey_hex
    sig_raw ← or_else (p.hex_decode tx.signature) bad_sig_hex
    reject_if (not (length sig_raw == signature_size)) bad_sig_size
    reject_if (not (p.verify pub_raw (tx_sign_bytes tx) sig_raw)) bad_signature

  -- `VerifyTxSignature`
  unfoldable pub verify_tx_signature : Tx → Bool
  unfolding verify_tx
  verify_tx_signature tx = is_ok (verify_tx tx)

  -- `SignTx`
  unfoldable pub sign_tx : String → String → ℤ → ℤ → ℤ → String → String → Result Tx
  unfolding addr_from_pub_hex tx_sign_bytes
  sign_tx from_addr to amount nonce fee pub_hex priv_hex = do
    reject_if (is_empty to || leb_ℤ amount (pos 0) || ltb_ℤ nonce (pos 0)) bad_tx_inputs
    pub_raw ← or_else (p.hex_decode pub_hex) bad_pubkey_size
    reject_if (not (length pub_raw == public_key_size)) bad_pubkey_size
    priv_raw ← or_else (p.hex_decode priv_hex) bad_privkey
    reject_if (not (length priv_raw == private_key_size)) bad_privkey
    want ← addr_from_pub_hex pub_hex
    reject_if (not (str_eq from_addr want)) from_pubkey_mismatch
    let tx : Tx = record {
      from = from_addr;
      to = to;
      amount = amount;
      nonce = nonce;
      fee = fee;
      pub_key = pub_hex;
      signature = "";
    }
    ok (record tx { signature = p.hex_encode (p.sign priv_raw (tx_sign_bytes tx)) })

  -- `calcBlockHash`
  unfoldable pub calc_block_hash : Block → String
  calc_block_hash b = p.hex_encode (
      p.sha256 (
        p.json_block_canon (record {
          validator_id = b.validator_id;
          balances_root = b.balances_root;
          height = b.height;
          prev_hash = b.prev_hash;
          time_unix = b.time_utc;
          producer = b.producer;
          txs = b.txs;
        })))

  -- `blockSignHash`
  unfoldable pub block_sign_hash : Block → Bytes
  unfolding calc_block_hash
  block_sign_hash b = p.bytes (calc_block_hash b)

  -- `SignBlock`
  unfoldable pub sign_block : Block → Bytes → Block
  unfolding block_sign_hash
  sign_block b priv = record b { signature = p.hex_encode (p.sign priv (block_sign_hash b)) }

  -- `ValidateBlockSignature`
  unfoldable pub validate_block_signature : Block → Result (Unit {0})
  unfolding block_sign_hash
  validate_block_signature b = do
    reject_if (is_empty b.validator_id) missing_validator_id
    reject_if (is_empty b.producer) missing_producer
    reject_if (not (str_eq b.validator_id b.producer)) producer_mismatch
    pub_raw ← or_else (p.hex_decode b.validator_id) bad_pubkey_hex
    reject_if (not (length pub_raw == public_key_size)) bad_pubkey_size
    reject_if (not (is_empty b.producer_pub_key) && not (str_eq b.producer_pub_key b.validator_id))
        producer_mismatch
    sig_raw ← or_else (p.hex_decode b.signature) bad_sig_hex
    reject_if (not (length sig_raw == signature_size)) bad_sig_size
    reject_if (not (p.verify pub_raw (block_sign_hash b) sig_raw)) bad_signature

  -- `voteSignBytes`
  unfoldable pub vote_sign_bytes : ℤ → String → Bytes
  vote_sign_bytes height block_hash =
      p.sha256 (p.json_vote_canon (record { height = height; block_hash = block_hash }))

  -- `VerifyVote`
  unfoldable pub verify_vote : Vote → Bool
  unfolding vote_sign_bytes
  verify_vote v = is_ok (do
    reject_if
        (leb_ℤ v.height (pos 0)
          || is_empty v.block_hash
          || is_empty v.validator_id
          || is_empty v.signature)
        bad_vote_signature
    pub_raw ← or_else (p.hex_decode v.validator_id) bad_pubkey_hex
    reject_if (not (length pub_raw == public_key_size)) bad_pubkey_size
    sig_raw ← or_else (p.hex_decode v.signature) bad_sig_hex
    reject_if (not (p.verify pub_raw (vote_sign_bytes v.height v.block_hash) sig_raw))
        bad_signature)
