-- ===== src/Signing/Laws.antt =====
-- What the signature checks of internal/mesh/tx_signing.go and internal/mesh/block_signing.go
-- establish, and what they leave open.
use blackchain_node.Prelude.{
  leb_ℤ, ltb_ℤ, String, str_eq, str_eq_iff, slice, true, false, none, some, ℤ, pos, ◌≡◌, ◌≢◌, ◌<ℤ◌,
  ◌≤ℤ◌, refl, arith, length, ap, Option-cases, Bool-cases, ◌<◌, [], inl, inr,
}
use blackchain_node.Types.{Tx, Block, ok}
use blackchain_node.Platform.{Platform, Bytes, HexRoundTrip, KeyPair}
use blackchain_node.Signing.{
  tx_sign_bytes, verify_tx, sign_tx, calc_block_hash, block_sign_hash, sign_block,
  validate_block_signature, is_empty, public_key_size, signature_size,
}

module _ ⦃p : Platform⦄ where
  -- The fee of a transaction is not part of what its signature covers: changing the fee
  -- changes neither the verdict of `VerifyTx` nor its error.
  pub verify_tx_fee : (tx : Tx) (fee : ℤ) → verify_tx (record tx { fee = fee }) ≡ verify_tx tx
  unfolding verify_tx
  verify_tx_fee tx fee = refl

  -- What an accepted transaction has: a positive amount, a nonce that is not negative, and a key
  -- of 32 bytes which hashes to the sender's address and verifies the signature of the transaction.
  pub record IsSigned (tx : Tx) : Type 0 where
    pub to_named : tx.to ≢ ""
    pub amount_pos : pos 0 <ℤ tx.amount
    pub nonce_nonneg : pos 0 ≤ℤ tx.nonce
    pub key : Bytes
    pub key_decodes : p.hex_decode tx.pub_key ≡ some key
    pub key_size : length key ≡ public_key_size
    pub sender : tx.from ≡ slice (p.hex_encode (p.sha256 key)) 0 40
    pub sig : Bytes
    pub sig_decodes : p.hex_decode tx.signature ≡ some sig
    pub verifies : p.verify key (tx_sign_bytes tx) sig ≡ true

  verify_tx_sound_at :
      (tx : Tx) (k s : Bytes)
      → p.hex_decode tx.pub_key ≡ some k
      → p.hex_decode tx.signature ≡ some s
      → verify_tx tx ≡ ok tt
      → IsSigned tx
  unfolding verify_tx
  verify_tx_sound_at tx k s ek es h = record {
    to_named = λ e. ground (arith, str_eq_iff tx.to "");
    amount_pos = ground arith;
    nonce_nonneg = ground arith;
    key = k;
    key_decodes = ek;
    key_size = ground arith;
    sender = ground (arith, str_eq_iff tx.from (slice (p.hex_encode (p.sha256 k)) 0 40));
    sig = s;
    sig_decodes = es;
    verifies = ground arith;
  }

  verify_tx_no_key : (tx : Tx) → p.hex_decode tx.pub_key ≡ none → verify_tx tx ≢ ok tt
  unfolding verify_tx
  verify_tx_no_key tx e h = ground arith

  verify_tx_no_sig :
      (tx : Tx) (k : Bytes)
      → p.hex_decode tx.pub_key ≡ some k
      → p.hex_decode tx.signature ≡ none
      → verify_tx tx ≢ ok tt
  unfolding verify_tx
  verify_tx_no_sig tx k ek e h = ground arith

  -- A transaction that `VerifyTx` accepts names a recipient, moves a positive amount, has a nonce
  -- that is not negative, names as its sender the address of its public key, and carries a
  -- signature of its own from, to, amount and nonce that the key verifies.
  pub verify_tx_sound : (tx : Tx) → verify_tx tx ≡ ok tt → IsSigned tx
  verify_tx_sound tx h = elim (Option-cases (p.hex_decode tx.pub_key)) [
    | inl no_key ↦ absurd (verify_tx_no_key tx no_key h)
    | inr (k, ek) ↦ elim (Option-cases (p.hex_decode tx.signature)) [
      | inl no_sig ↦ absurd (verify_tx_no_sig tx k ek no_sig h)
      | inr (s, es) ↦ verify_tx_sound_at tx k s ek es h
    ]
  ]

  hex_nonempty :
      (b : Bytes)
      → HexRoundTrip p b
      → p.hex_decode "" ≡ some []
      → 0 < length b
      → is_empty (p.hex_encode b) ≡ false
  hex_nonempty b round nil h = elim (Bool-cases (is_empty (p.hex_encode b))) [
    | inr full ↦ full
    | inl none_left ↦
        let e : p.hex_encode b ≡ "" = (str_eq_iff (p.hex_encode b) "").0 none_left in
        absurd (ground (arith, round, nil, e, ap p.hex_decode e))
  ]

  -- The transaction that `SignTx` fills in, before its signature.
  abbrev unsigned : String → String → ℤ → ℤ → ℤ → String → Tx
  unsigned from to amount nonce fee pub_hex = record {
    from = from;
    to = to;
    amount = amount;
    nonce = nonce;
    fee = fee;
    pub_key = pub_hex;
    signature = "";
  }

  record IsPayable (pub_raw : Bytes) (tx : Tx) : Type 0 where
    to_named : is_empty tx.to ≡ false
    amount_pos : leb_ℤ tx.amount (pos 0) ≡ false
    nonce_nonneg : ltb_ℤ tx.nonce (pos 0) ≡ false
    key_size : length pub_raw ≡ public_key_size
    sender : str_eq tx.from (slice (p.hex_encode (p.sha256 pub_raw)) 0 40) ≡ true

  sign_tx_result :
      (from to : String) (amount nonce fee : ℤ) (pub_hex priv_hex : String)
      (pub_raw priv_raw : Bytes) {tx : Tx}
      → p.hex_decode pub_hex ≡ some pub_raw
      → p.hex_decode priv_hex ≡ some priv_raw
      → sign_tx from to amount nonce fee pub_hex priv_hex ≡ ok tx
      → let base = unsigned from to amount nonce fee pub_hex in
        IsPayable pub_raw base
        × (tx ≡ record base { signature = p.hex_encode (p.sign priv_raw (tx_sign_bytes base)) })
  unfolding sign_tx
  sign_tx_result from to amount nonce fee pub_hex priv_hex pub_raw priv_raw e1 e2 h = (
    record {
      to_named = ground arith;
      amount_pos = ground arith;
      nonce_nonneg = ground arith;
      key_size = ground arith;
      sender = ground arith;
    },
    ground arith,
  )

  verify_tx_complete :
      (tx : Tx) (pub_raw sig : Bytes)
      → IsPayable pub_raw tx
      → is_empty tx.from ≡ false
      → is_empty tx.pub_key ≡ false
      → is_empty tx.signature ≡ false
      → p.hex_decode tx.pub_key ≡ some pub_raw
      → p.hex_decode tx.signature ≡ some sig
      → length sig ≡ signature_size
      → p.verify pub_raw (tx_sign_bytes tx) sig ≡ true
      → verify_tx tx ≡ ok tt
  unfolding verify_tx
  verify_tx_complete tx pub_raw sig h e1 e2 e3 e4 e5 e6 e7 = ground arith

  -- With a matching key pair whose signatures have the size of ed25519, hex texts that decode to what
  -- was encoded, and a sender that is named, `VerifyTx` accepts the transaction that `SignTx` makes.
  pub verify_tx-sign_tx :
      (from to : String) (amount nonce fee : ℤ) (pub_raw priv_raw : Bytes) (tx : Tx)
      → HexRoundTrip p pub_raw
      → HexRoundTrip p priv_raw
      → ((msg : Bytes) → HexRoundTrip p (p.sign priv_raw msg))
      → p.hex_decode "" ≡ some []
      → KeyPair p pub_raw priv_raw
      → ((msg : Bytes) → length (p.sign priv_raw msg) ≡ signature_size)
      → from ≢ ""
      → sign_tx from to amount nonce fee (p.hex_encode pub_raw) (p.hex_encode priv_raw) ≡ ok tx
      → verify_tx tx ≡ ok tt
  unfolding tx_sign_bytes
  verify_tx-sign_tx from to amount nonce fee pub_raw priv_raw tx round_pub round_priv round_sig nil
        pair size named h =
      let base : Tx = unsigned from to amount nonce fee (p.hex_encode pub_raw) in
      let sig : Bytes = p.sign priv_raw (tx_sign_bytes base) in
      let (payable, made) =
        sign_tx_result from to amount nonce fee (p.hex_encode pub_raw) (p.hex_encode priv_raw)
          pub_raw priv_raw round_pub round_priv h in
      rw made (
        verify_tx_complete (record base { signature = p.hex_encode sig }) pub_raw sig
          (record {
            to_named = payable.to_named;
            amount_pos = payable.amount_pos;
            nonce_nonneg = payable.nonce_nonneg;
            key_size = payable.key_size;
            sender = payable.sender;
          })
          (ground (arith, str_eq_iff from ""))
          (hex_nonempty pub_raw round_pub nil (rw payable.key_size (omega arith)))
          (hex_nonempty sig (round_sig (tx_sign_bytes base)) nil
            (rw (size (tx_sign_bytes base)) (omega arith)))
          round_pub (round_sig (tx_sign_bytes base)) (size (tx_sign_bytes base))
          (pair (tx_sign_bytes base)))

  -- With a matching key pair whose key and signatures have the sizes of ed25519, and hex texts that
  -- decode to what was encoded, a block with the key as its validator and producer, and with no other
  -- key, passes `ValidateBlockSignature` once `SignBlock` has signed it.
  pub validate-sign_block :
      (b : Block) (pub_raw priv_raw : Bytes)
      → HexRoundTrip p pub_raw
      → ((msg : Bytes) → HexRoundTrip p (p.sign priv_raw msg))
      → p.hex_decode "" ≡ some []
      → KeyPair p pub_raw priv_raw
      → ((msg : Bytes) → length (p.sign priv_raw msg) ≡ signature_size)
      → length pub_raw ≡ public_key_size
      → b.validator_id ≡ p.hex_encode pub_raw
      → b.producer ≡ p.hex_encode pub_raw
      → b.producer_pub_key ≡ ""
      → validate_block_signature (sign_block b priv_raw) ≡ ok tt
  unfolding validate_block_signature sign_block
  validate-sign_block b pub_raw priv_raw round_pub round_sig nil pair size key_size ev ep ek =
      let sig : Bytes = p.sign priv_raw (block_sign_hash b) in
      ground (
        arith,
        round_pub,
        round_sig (block_sign_hash b),
        pair (block_sign_hash b),
        size (block_sign_hash b),
        hex_nonempty pub_raw round_pub nil,
        str_eq_iff b.validator_id b.producer,
        str_eq_iff b.producer_pub_key "",
      )

  -- The signature of a block covers neither its reward nor its payout address: changing them
  -- changes neither the hash of the block nor the verdict of `ValidateBlockSignature`.
  pub validate_block_payout :
      (b : Block) (reward : ℤ) (addr : String)
      → (calc_block_hash (record b { reward = reward; producer_addr = addr }) ≡ calc_block_hash b)
        × (validate_block_signature (record b { reward = reward; producer_addr = addr })
            ≡ validate_block_signature b)
  unfolding validate_block_signature calc_block_hash
  validate_block_payout b reward addr = (refl, refl)
