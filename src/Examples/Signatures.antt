-- ===== src/Examples/Signatures.antt =====
-- Tests of signed transactions, blocks and consensus votes (internal/mesh/tx_signing.go,
-- internal/mesh/block_signing.go, internal/consensus/vote.go).
use blackchain_node.Prelude.{◌≡◌, refl, arith, pos, str_eq_iff}
use blackchain_node.Types.{ok}
use blackchain_node.Signing.{
  tx_sign_bytes, addr_from_pub_hex, verify_tx, verify_tx_signature, sign_tx, calc_block_hash,
  block_sign_hash, sign_block, validate_block_signature, vote_sign_bytes, verify_vote,
}
use blackchain_node.Signing.Laws.{IsSigned, verify_tx_sound, verify_tx-sign_tx, validate-sign_block}
use blackchain_node.Finalizer.{
  ConsensusVote, collect, new_finalizer, observe_block, voters, record_vote, tally,
  add_consensus_vote, enforce_no_reorg, signing_bytes, sign_vote, verify_consensus_vote,
}
use blackchain_node.Finalizer.Voting.{verify-sign_vote}
use blackchain_node.Examples.{toy, payment, first_block, key_bytes, sig_bytes}

payment_signed : verify_tx payment ≡ ok tt
unfolding tx_sign_bytes addr_from_pub_hex verify_tx verify_tx_signature sign_tx calc_block_hash
    block_sign_hash sign_block validate_block_signature vote_sign_bytes verify_vote
payment_signed = refl

verify_tx_sound_example : IsSigned payment
verify_tx_sound_example = verify_tx_sound payment payment_signed

sign_payment : sign_tx "alice" "bob" (pos 100) (pos 0) (pos 20) "alice" "sig" ≡ ok payment
unfolding tx_sign_bytes addr_from_pub_hex verify_tx verify_tx_signature sign_tx calc_block_hash
    block_sign_hash sign_block validate_block_signature vote_sign_bytes verify_vote
sign_payment = refl

verify_tx-sign_tx_example : verify_tx payment ≡ ok tt
verify_tx-sign_tx_example =
    verify_tx-sign_tx "alice" "bob" (pos 100) (pos 0) (pos 20) key_bytes sig_bytes payment refl refl
      (λ msg. refl) refl (λ msg. refl) (λ msg. refl) (λ e. ground (arith, str_eq_iff "alice" "", e))
      sign_payment

validate-sign_block_example : validate_block_signature (sign_block first_block sig_bytes) ≡ ok tt
validate-sign_block_example =
    validate-sign_block first_block key_bytes sig_bytes refl (λ msg. refl) refl (λ msg. refl)
      (λ msg. refl) refl refl refl refl

abbrev vote : ConsensusVote
vote = record { height = 7; round = 0; block_hash = "block"; validator_id = "alice"; sig = "sig" }

verify-sign_vote_example :
    (v : ConsensusVote) × (sign_vote 7 0 "block" (toy.hex_encode key_bytes) sig_bytes ≡ ok v)
    × (verify_consensus_vote v key_bytes ≡ ok tt)
verify-sign_vote_example =
    verify-sign_vote 7 0 "block" key_bytes sig_bytes (λ msg. refl) (λ msg. refl) (λ msg. refl) refl
      refl

vote_verifies : verify_consensus_vote vote key_bytes ≡ ok tt
unfolding collect new_finalizer observe_block voters record_vote tally add_consensus_vote
    enforce_no_reorg signing_bytes sign_vote verify_consensus_vote
vote_verifies = refl
