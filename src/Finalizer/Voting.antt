-- ===== src/Finalizer/Voting.antt =====
-- Signed votes of internal/consensus/vote.go.
use blackchain_node.Prelude.{
  ℕ, String, ◌≡◌, refl, arith, str_eq_iff, true, false, some, Option-cases, inl, inr,
}
use blackchain_node.Types.{ok}
use blackchain_node.Platform.{Platform, Bytes, HexRoundTrip, KeyPair}
use blackchain_node.Signing.{is_empty}
use blackchain_node.Finalizer.{ConsensusVote, signing_bytes, sign_vote, verify_consensus_vote}

module _ ⦃p : Platform⦄ where
  -- The signature is not part of what is signed.
  signing_bytes-sig :
      (v : ConsensusVote) (sig : String) → signing_bytes (record v { sig = sig }) ≡ signing_bytes v
  unfolding signing_bytes
  signing_bytes-sig v sig = refl

  -- `SignVote` with a private key, a block hash, and the hex form of the public key of the pair as
  -- the identity makes a vote that passes `VerifyVote` with that public key, where hex texts of
  -- signatures and of the key are not empty.
  pub verify-sign_vote :
      (height round : ℕ) (hash : String) (pub_raw priv : Bytes)
      → ((msg : Bytes) → HexRoundTrip p (p.sign priv msg))
      → KeyPair p pub_raw priv
      → ((msg : Bytes) → is_empty (p.hex_encode (p.sign priv msg)) ≡ false)
      → is_empty (p.hex_encode pub_raw) ≡ false
      → is_empty hash ≡ false
      → (v : ConsensusVote) × (sign_vote height round hash (p.hex_encode pub_raw) priv ≡ ok v)
        × (verify_consensus_vote v pub_raw ≡ ok tt)
  unfolding sign_vote verify_consensus_vote
  verify-sign_vote height round hash pub_raw priv nil pair long named given =
      let base : ConsensusVote = record {
        height = height;
        round = round;
        block_hash = hash;
        validator_id = p.hex_encode pub_raw;
        sig = "";
      } in
      let sig = p.sign priv (signing_bytes base) in
      let v : ConsensusVote = record base { sig = p.hex_encode sig } in
      let equal = (str_eq_iff (p.hex_encode pub_raw) (p.hex_encode pub_raw)).1 refl in
      let covered : signing_bytes v ≡ signing_bytes base =
        signing_bytes-sig base (p.hex_encode sig) in
      let valid : p.verify pub_raw (signing_bytes v) sig ≡ true =
        rw covered (pair (signing_bytes base)) in
      (
        v,
        rw (given, named) refl,
        rw (long (signing_bytes base), given, named, equal, nil (signing_bytes base), valid) refl,
      )

  -- A vote that `VerifyVote` accepts names the key's hex form as its validator, and carries a
  -- signature of its height, round, hash and validator that verifies with that key.
  pub verify_consensus_vote_sound :
      (v : ConsensusVote) (pub_raw : Bytes)
      → verify_consensus_vote v pub_raw ≡ ok tt
      → (v.validator_id ≡ p.hex_encode pub_raw)
        × ((sig : Bytes) × (p.hex_decode v.sig ≡ some sig)
            × (p.verify pub_raw (signing_bytes v) sig ≡ true))
  unfolding verify_consensus_vote
  verify_consensus_vote_sound v pub_raw h =
      let same = (str_eq_iff (p.hex_encode pub_raw) v.validator_id).0 in
      elim (Option-cases (p.hex_decode v.sig)) [
        | inl bad ↦ absurd (ground (arith, bad, h))
        | inr (sig, good) ↦ (ground (arith, same, good), (sig, good, ground (arith, good)))
      ]
