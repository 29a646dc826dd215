-- ===== src/Examples.antt =====
-- Concrete inputs of the code under internal/, for the tests: a platform whose hashes and texts are
-- short names, two accounts, and blocks for a chain at height 0 and at the height of the fee split.
use blackchain_node.Prelude.{
  ℕ, zero, suc, ◌+◌, String, str_eq, Bool, true, false, Option, none, some, List, [], ◌∷◌, ℤ, pos,
  pos_part, ◌==◌, eqb_ℤ, if◌then◌else◌,
}
use blackchain_node.Types.{Tx, Account, Block, Vote}
use blackchain_node.Platform.{
  Platform, Bytes, TxCanon, BlockCanon, VoteCanon, AccountRow, ConsensusVoteCanon, ChainSnapshot,
}
use blackchain_node.Chain.{Chain, absent, new_chain}
pub mod Blocks
pub mod Proposals
pub mod Signatures
pub mod Votes
pub mod Peering
pub mod Nodes
pub mod Restarts
pub mod Messages
pub mod Configs

abbrev pub repeat : ℕ → ℕ → Bytes
repeat zero x = []
repeat (suc n) x = x ∷ repeat n x

abbrev pub key_bytes : Bytes
key_bytes = repeat 32 0

abbrev pub sig_bytes : Bytes
sig_bytes = repeat 64 1

-- The name of some bytes is decided by the first of them.
abbrev pub name_of : ℕ → String
name_of n =
    if n == 0
    then "alice"
    else (if n == 1
        then "sig"
        else (if n == 2
            then "block"
            else (if n == 3
                then "root"
                else (if n == 4 then "tx0" else (if n == 5 then "tx1" else "tx2")))))

abbrev pub toy_encode : Bytes → String
toy_encode [] = "none"
toy_encode (x ∷ xs) = name_of x

abbrev pub toy_decode : String → Option Bytes
toy_decode s =
    if str_eq s ""
    then some []
    else (if str_eq s "alice"
        then some key_bytes
        else (if str_eq s "sig" then some sig_bytes else none))

abbrev pub toy_digit : ℤ → String
toy_digit z = if eqb_ℤ z (pos 0) then "0" else (if eqb_ℤ z (pos 1) then "1" else "2")

abbrev pub toy_blank : Bytes → Bool
toy_blank [] = true
toy_blank (x ∷ xs) = false

abbrev pub rich : Account
rich = record { balance = pos 1000; nonce = pos 0 }

abbrev pub alice_only : List (String × Account)
alice_only = ("alice", rich) ∷ []

abbrev pub toy_snapshot : ChainSnapshot
toy_snapshot = record {
  height = pos 0;
  hash = "genesis";
  accounts = alice_only;
  accounts_hash = "root";
  snapshot_hash = "root";
}

instance abbrev pub toy : Platform
toy = record {
  sha256 = λ b. b;
  hex_encode = toy_encode;
  hex_decode = toy_decode;
  verify = λ key msg sig. true;
  sign = λ key msg. sig_bytes;
  bytes = λ s. 3 ∷ [];
  json_tx = λ tx. (4 + pos_part tx.nonce) ∷ [];
  json_tx_canon = λ c. 6 ∷ [];
  json_block_canon = λ c. 2 ∷ [];
  json_vote_canon = λ c. 7 ∷ [];
  json_accounts = λ rows. 3 ∷ [];
  json_consensus_vote = λ c. 8 ∷ [];
  format_int = toy_digit;
  trim_space = λ s. s;
  public_of = λ b. key_bytes;
  json_key = λ k. 5 ∷ [];
  json_decode_key = λ b. some ("alice", "sig");
  json_snapshot = λ s. 9 ∷ [];
  json_decode_snapshot = λ b. some toy_snapshot;
  is_blank = toy_blank;
  format_time = λ t. "now";
}

-- Alice pays Bob 100 at a fee of 20.
abbrev pub payment : Tx
payment = record {
  from = "alice";
  to = "bob";
  amount = pos 100;
  nonce = pos 0;
  fee = pos 20;
  pub_key = "alice";
  signature = "sig";
}

abbrev pub genesis : Chain
genesis = record (new_chain [] (λ b. false) (λ b. false) absent (some (key_bytes, sig_bytes))) {
  tip = "genesis";
  accounts = alice_only;
}

-- The block with the payment, for a height and a reward.
abbrev pub block_at : ℤ → ℤ → Block
block_at height reward = record {
  producer = "alice";
  producer_addr = "carol";
  reward = reward;
  producer_pub_key = "";
  signature = "sig";
  balances_root = "root";
  is_finalized = false;
  validator_id = "alice";
  height = height;
  prev_hash = "genesis";
  hash = "block";
  time_utc = 10;
  txs = payment ∷ [];
}

abbrev pub first_block : Block
first_block = block_at (pos 1) (pos 70)

-- A chain just below the height of the fee split.
abbrev pub before_split : Chain
before_split = record genesis { height = pos 1278; finalized_height = pos 1276 }

abbrev pub split_block : Block
split_block = block_at (pos 1279) (pos 68)
