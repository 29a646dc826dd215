-- ===== src/Chain.antt =====
-- The state of `ProductionChain` (internal/mesh/chain_core.go) and its small operations: accounts,
-- observed validators, the quorum of peers (internal/mesh/state_hash.go).
-- The block files on disk are a map from heights to blocks; `disk_faults` says of which blocks the
-- write would fail, and `kept_faults` of which the file is there all the same. The temporary file that
-- a failed write may leave behind is read by the next start alone and stands in the directory of
-- Persist, not in the state of a running chain. A `nil` map of the code is an empty map, since every operation makes it first.
use blackchain_node.Prelude.{
  ℕ, zero, suc, ◌+◌, ◌/◌, String, str_eq, Bool, true, false, not, ◌&&◌, ◌||◌, Option, none, some,
  List, [], ◌∷◌, ℤ, pos, leb, ltb, eqb_ℤ, length, count, if◌then◌else◌, add64,
}
use blackchain_node.Types.{Tx, Account, Block, Vote, Error}
use blackchain_node.Platform.{Bytes}
use blackchain_node.Signing.{is_empty}
use blackchain_node.Dict.{Map, lookup, insert, int_Eq, string_Eq}
pub mod Identity
pub mod Untouched

-- `SignedStateAnnouncement`
pub record Announcement : Type 0 where
  pub node_id : String
  pub height : ℤ
  pub state_hash : String
  pub sig : String

-- What the chain uses of `meshDaemon`.
pub record Daemon : Type 0 where
  pub wallet_addr : String
  pub peer_state : Map String Announcement
  pub proposal_failure_count : ℤ
  pub last_proposal_failure : Option Error

-- The validator key file, as the file system answers a read of it.
pub data KeyFile : Type 0 where
  absent unreadable : KeyFile
  content : Bytes → KeyFile

pub record Chain : Type 0 where
  pub validator_pub_hex : String
  pub validator_priv_hex : String
  pub daemon : Option Daemon
  pub height : ℤ
  pub tip : String
  pub blocks : Map ℤ Block
  pub accounts : Map String Account
  pub mempool : List Tx
  pub mempool_ids : Map String (Unit {0})
  pub mempool_sender_nonce : Map String String
  pub pending : Map ℤ Block
  pub vote_counts : Map ℤ ℕ
  pub votes : Map ℤ (Map String Vote)
  pub finalized_height : ℤ
  pub validator_set : Map String (Unit {0})
  pub disk : Map ℤ Block
  pub disk_faults : Block → Bool
  -- of which blocks a write that fails has renamed the file before: the directory is not synced
  pub kept_faults : Block → Bool
  pub key_file : KeyFile
  -- the key pair that the next call of `ed25519.GenerateKey` returns, if it succeeds
  pub next_key : Option (Bytes × Bytes)
  pub key_write_fault : Bool

-- `newProductionChain`, with the files that it finds
abbrev pub new_chain :
    Map ℤ Block → (Block → Bool) → (Block → Bool) → KeyFile → Option (Bytes × Bytes) → Chain
new_chain disk faults kept key_file next_key = record {
  validator_pub_hex = "";
  validator_priv_hex = "";
  daemon = none;
  height = pos 0;
  tip = "";
  blocks = [];
  accounts = [];
  mempool = [];
  mempool_ids = [];
  mempool_sender_nonce = [];
  pending = [];
  vote_counts = [];
  votes = [];
  finalized_height = pos 0;
  validator_set = [];
  disk = disk;
  disk_faults = faults;
  kept_faults = kept;
  key_file = key_file;
  next_key = next_key;
  key_write_fault = false;
}

abbrev pub zero_account : Account
zero_account = record { balance = pos 0; nonce = pos 0 }

-- `getAccount`: a missing account reads as zero
unfoldable pub get_account : Map String Account → String → Account
get_account accounts addr = elim (lookup addr accounts) [ none ↦ zero_account | some a ↦ a ]

-- `getOrCreateAccount`: the account, and the accounts after the call
unfoldable pub get_or_create_account : Map String Account → String → Account × Map String Account
get_or_create_account accounts addr = elim (lookup addr accounts) [
  | none ↦ (zero_account, insert addr zero_account accounts)
  | some a ↦ (a, accounts)
]

-- `observeValidatorLocked`
unfoldable pub observe_validator : String → Chain → Chain
observe_validator id c =
    if is_empty id || str_eq id "GENESIS"
    then c
    else record c { validator_set = insert id tt c.validator_set }

-- `quorumNeededLocked`
unfoldable pub quorum_needed : Chain → ℕ
quorum_needed c = elim (length c.validator_set) [ zero ↦ 1 | suc n ↦ (suc n / 2) + 1 ]

-- The block files after `persistBlockLocked`, whether it succeeds or not.
abbrev pub disk_after : Block → Chain → Map ℤ Block
disk_after b c =
    if c.disk_faults b && not (c.kept_faults b) then c.disk else insert b.height b c.disk

-- `hasQuorum`: whether a majority of the announced peer states have this height and hash
unfoldable pub has_quorum : ℤ → String → Daemon → Bool
has_quorum height hash d =
    let agree =
      count (λ ann. eqb_ℤ (ann.1).height height && str_eq (ann.1).state_hash hash) d.peer_state in
    elim (length d.peer_state) [ zero ↦ true | suc n ↦ leb ((suc n / 2) + 1) agree ]

-- `recordProposalFailure`
unfoldable pub record_proposal_failure : Error → Daemon → Daemon
record_proposal_failure e d = record d {
  proposal_failure_count = add64 d.proposal_failure_count (pos 1);
  last_proposal_failure = some e;
}
