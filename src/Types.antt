-- ===== src/Types.antt =====
-- The values that nodes exchange and store: transactions, accounts, blocks and validator votes
-- (internal/mesh/chain_core.go, internal/mesh/validator_votes.go), and the error results.
-- A `time.Time` is the number of nanoseconds since Go's zero time, so `IsZero` is a test for 0.
use blackchain_node.Prelude.{ℕ, String, Bool, true, false, List, ℤ, ◌≡◌, ◌⊎◌, inl, inr, refl}

pub record Tx : Type 0 where
  pub from : String
  pub to : String
  pub amount : ℤ
  pub nonce : ℤ
  pub fee : ℤ
  pub pub_key : String
  pub signature : String

pub record Account : Type 0 where
  pub balance : ℤ
  pub nonce : ℤ

pub record Block : Type 0 where
  pub producer : String
  pub producer_addr : String
  pub reward : ℤ
  pub producer_pub_key : String
  pub signature : String
  pub balances_root : String
  pub is_finalized : Bool
  pub validator_id : String
  pub height : ℤ
  pub prev_hash : String
  pub hash : String
  pub time_utc : ℕ
  pub txs : List Tx

pub record Vote : Type 0 where
  pub height : ℤ
  pub block_hash : String
  pub validator_id : String
  pub signature : String

-- One constructor for each message that the code returns.
pub data Error : Type 0 where
  missing_from_to bad_amount bad_nonce missing_pubkey_sig bad_pubkey_hex bad_pubkey_size : Error
  from_pubkey_mismatch bad_sig_hex bad_sig_size bad_signature bad_tx_inputs bad_privkey : Error
  from_eq_to field_too_large negative_fee fee_too_low insufficient_balance bad_nonce_order : Error
  mempool_full duplicate_tx conflicting_sender_nonce : Error
  missing_validator_id missing_producer producer_mismatch : Error
  negative_reward too_many_txs duplicate_tx_in_block duplicate_sender_nonce : Error
  bad_height bad_prev_hash missing_time bad_hash bad_reward missing_root bad_root : Error
  persist_failed : Error
  reorg_blocked quorum_not_reached invalid_height duplicate_committed conflicting_committed : Error
  stale_proposal future_timestamp stale_timestamp tx_invalid out_of_order : Error
  duplicate_pending conflicting_pending : Error
  bad_vote_signature successor_buffered foreign_proposal_buffered not_leader : Error
  no_validator no_payout_address not_bound : Error
  empty_payload decode_failed negative_balance negative_nonce missing_accounts_hash : Error
  accounts_hash_mismatch missing_snapshot_hash snapshot_hash_mismatch : Error
  empty_data_dir empty_validator_set non_validator below_finalized conflicts_finalized : Error
  missing_vote_input missing_vote_fields validator_id_mismatch : Error
  dir_unreadable file_unreadable file_corrupt quarantine_failed promotion_failed : Error
  height_mismatch : Error
  invalid_address missing_port bad_port invalid_host wildcard_bind : Error
  empty_peer duplicate_peer self_peer : Error
  exclusive_listen incomplete_host legacy_debug missing_field same_address not_loopback : Error
  tls_missing_file tls_bad_file tls_broad_key tls_mismatch tls_bad_cert tls_bad_time tls_bad_ca :
      Error
  empty_peer_addr negative_height missing_tip conflicting_tip stale_height : Error

pub data Result {ℓ} (A : Type ℓ) : Type ℓ where
  ok : A → Result A
  err : Error → Result A

-- `if test { return err }`
abbrev pub reject_if : Bool → Error → Result (Unit {0})
reject_if true e = err e
reject_if false e = ok tt

-- The rest of a function, which an error skips.
infixl 5 ◌>>=◌ ◌>>◌
abbrev pub ◌>>=◌ {ℓ κ} : {A : Type ℓ} {B : Type κ} → Result A → (A → Result B) → Result B
err e >>= next = err e
ok value >>= next = next value

abbrev pub ◌>>◌ {ℓ} : {B : Type ℓ} → Result (Unit {0}) → Result B → Result B
test >> next = test >>= λ _. next

-- `err == nil`
abbrev pub is_ok {ℓ} : {A : Type ℓ} → Result A → Bool
is_ok (ok a) = true
is_ok (err e) = false

pub Result-cases {ℓ} :
    {A : Type ℓ} (r : Result A) → ((a : A) × (r ≡ ok a)) ⊎ ((e : Error) × (r ≡ err e))
Result-cases (ok a) = inl (a, refl)
Result-cases (err e) = inr (e, refl)
