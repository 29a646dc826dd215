-- ===== src/Platform.antt =====
-- What the node takes from Go's library: hashing, signatures, encodings and text functions. They are
-- parameters. Laws are named where a theorem needs them, as a predicate of the platform.
use blackchain_node.Prelude.{ℕ, String, Bool, true, false, Option, some, List, ℤ, ◌≡◌}
use blackchain_node.Types.{Tx, Account}

abbrev pub Bytes : Type 0
Bytes = List ℕ

-- The signed part of a transaction (`txCanon`).
pub record TxCanon : Type 0 where
  pub from : String
  pub to : String
  pub amount : ℤ
  pub nonce : ℤ

-- The hashed part of a block (`canon` in `calcBlockHash`).
pub record BlockCanon : Type 0 where
  pub validator_id : String
  pub balances_root : String
  pub height : ℤ
  pub prev_hash : String
  pub time_unix : ℕ
  pub producer : String
  pub txs : List Tx

-- The signed part of a validator vote (`canon` in `voteSignBytes`).
pub record VoteCanon : Type 0 where
  pub height : ℤ
  pub block_hash : String

-- A row of the sorted account list that `computeAccountsHash` encodes.
pub record AccountRow : Type 0 where
  pub addr : String
  pub bal : ℤ
  pub nonce : ℤ

-- The signed part of a vote of internal/consensus.
pub record ConsensusVoteCanon : Type 0 where
  pub height : ℕ
  pub round : ℕ
  pub block_hash : String
  pub validator_id : String

-- `ChainSnapshot` of internal/mesh/chain_snapshot.go
pub record ChainSnapshot : Type 0 where
  pub height : ℤ
  pub hash : String
  pub accounts : List (String × Account)
  pub accounts_hash : String
  pub snapshot_hash : String

pub record Platform : Type 0 where
  pub sha256 : Bytes → Bytes
  pub hex_encode : Bytes → String
  pub hex_decode : String → Option Bytes
  pub verify : Bytes → Bytes → Bytes → Bool
  pub sign : Bytes → Bytes → Bytes
  pub bytes : String → Bytes
  pub json_tx : Tx → Bytes
  pub json_tx_canon : TxCanon → Bytes
  pub json_block_canon : BlockCanon → Bytes
  pub json_vote_canon : VoteCanon → Bytes
  pub json_accounts : List AccountRow → Bytes
  pub json_consensus_vote : ConsensusVoteCanon → Bytes
  pub format_int : ℤ → String
  pub trim_space : String → String
  -- `PrivateKey.Public` of ed25519
  pub public_of : Bytes → Bytes
  -- `json.Unmarshal` into `validatorKeyFile`: its pub and priv
  pub json_decode_key : Bytes → Option (String × String)
  -- `json.MarshalIndent` of `validatorKeyFile`
  pub json_key : String × String → Bytes
  pub json_snapshot : ChainSnapshot → Bytes
  pub json_decode_snapshot : Bytes → Option ChainSnapshot
  -- `len(bytes.TrimSpace(raw)) == 0`
  pub is_blank : Bytes → Bool
  -- `t.UTC().Format(time.RFC3339)`, of a time in nanoseconds
  pub format_time : ℕ → String

-- The documented behaviour of `hex` at some bytes: decoding what was encoded gives it back.
abbrev pub HexRoundTrip : Platform → Bytes → Type 0
HexRoundTrip p b = p.hex_decode (p.hex_encode b) ≡ some b

-- The documented behaviour of `ed25519` for a key pair: a signature that was made verifies.
abbrev pub KeyPair : Platform → Bytes → Bytes → Type 0
KeyPair p pub_raw priv_raw = (msg : Bytes) → p.verify pub_raw msg (p.sign priv_raw msg) ≡ true

-- The documented behaviour of `json` at a snapshot: decoding the encoded one gives it back, and the
-- encoding is not blank.
abbrev pub SnapshotRoundTrip : Platform → ChainSnapshot → Type 0
SnapshotRoundTrip p s =
    (p.json_decode_snapshot (p.json_snapshot s) ≡ some s) × (p.is_blank (p.json_snapshot s) ≡ false)
