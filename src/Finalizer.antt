-- ===== src/Finalizer.antt =====
-- `Finalizer` of internal/consensus/finalizer.go and the votes of internal/consensus/vote.go.
-- Heights are uint64 and rounds are uint32 numbers. The finality file is an optional state, `none`
-- when it is missing or unreadable; `write_fault` says whether a write of it fails.
use blackchain_node.Prelude.{
  ℕ, zero, suc, ◌+◌, ◌*◌, ◌/◌, String, str_eq, Bool, true, false, not, ◌&&◌, ◌||◌, Option, none,
  some, List, [], ◌∷◌, ltb, ◌==◌, length, if◌then◌else◌,
}
use blackchain_node.Types.{
  Error, Result, ok, err, ◌>>=◌, ◌>>◌, reject_if, bad_signature, bad_sig_hex, empty_data_dir,
  empty_validator_set, non_validator, below_finalized, conflicts_finalized, missing_vote_input,
  missing_vote_fields, validator_id_mismatch,
}
use blackchain_node.Platform.{Platform, Bytes}
use blackchain_node.Signing.{is_empty}
use blackchain_node.Dict.{Map, lookup, insert, contains, string_Eq, nat_Eq}
pub mod Safety
pub mod Quorum
pub mod Intersection
pub mod Voting

pub record FinalityState : Type 0 where
  pub finalized_height : ℕ
  pub finalized_hash : String
  pub updated_at : String

pub record ConsensusVote : Type 0 where
  pub height : ℕ
  pub round : ℕ
  pub block_hash : String
  pub validator_id : String
  pub sig : String

-- A set of texts, `map[string]bool` whose values are all true.
abbrev pub Names : Type 0
Names = Map String (Unit {0})

pub record Finalizer : Type 0 where
  pub validators : Names
  pub total_power : ℕ
  pub threshold : ℕ
  pub blocks : Map ℕ Names
  pub votes : Map ℕ (Map String Names)
  pub state : FinalityState
  pub file : Option FinalityState
  pub write_fault : Bool

-- The loop over the identities in `NewFinalizer`.
unfoldable pub collect : List String → Names → Names
collect [] set = set
collect (id ∷ ids) set = collect ids (if is_empty id then set else insert id tt set)

abbrev pub no_state : FinalityState
no_state = record { finalized_height = 0; finalized_hash = ""; updated_at = "" }

-- `load`
abbrev pub load : Option FinalityState → FinalityState → FinalityState
load none st = st
load (some st') st = st'

-- `NewFinalizer`, with the finality file that it finds
unfoldable pub new_finalizer : String → List String → Option FinalityState → Bool → Result Finalizer
new_finalizer data_dir ids file write_fault =
    let set = collect ids [] in
    do
      reject_if (is_empty data_dir) empty_data_dir
      reject_if (length set == 0) empty_validator_set
      ok (record {
        validators = set;
        total_power = length set;
        threshold = (2 * length set) / 3 + 1;
        blocks = [];
        votes = [];
        state = load file no_state;
        file = file;
        write_fault = write_fault;
      })

-- The inner map of a map of maps; a missing one is made.
abbrev pub inner {ℓ} : {V : Type ℓ} → Option (List V) → List V
inner none = []
inner (some m) = m

-- `ObserveBlock`
unfoldable pub observe_block : ℕ → String → Finalizer → Finalizer
observe_block height hash f = if (height == 0) || is_empty hash then f else record f {
  blocks = insert height (insert hash tt (inner (lookup height f.blocks))) f.blocks;
}

-- The voters for a block.
unfoldable pub voters : ℕ → String → Map ℕ (Map String Names) → Names
voters height hash votes = inner (lookup hash (inner (lookup height votes)))

-- `f.votes[v.Height][v.BlockHash][v.ValidatorID] = true`
unfoldable pub record_vote : ConsensusVote → Map ℕ (Map String Names) → Map ℕ (Map String Names)
record_vote v votes =
    insert v.height
      (insert v.block_hash (insert v.validator_id tt (voters v.height v.block_hash votes))
        (inner (lookup v.height votes)))
      votes

-- `persist`, whose error is ignored
abbrev pub persist : Finalizer → Finalizer
persist f = record f { file = if f.write_fault then f.file else some f.state }

-- The end of `AddVote`, on the recorded votes.
unfoldable pub tally : String → ConsensusVote → Finalizer → Bool × Finalizer
tally now v f =
    if ltb (length (voters v.height v.block_hash f.votes)) f.threshold
    then (false, f)
    else (if ltb f.state.finalized_height v.height
        then (
          true,
          persist (record f {
            state = record {
              finalized_height = v.height;
              finalized_hash = v.block_hash;
              updated_at = now;
            };
          }),
        )
        else (false, f))

-- `AddVote` at the formatted time `now`: whether the vote finalizes a block. It does not check the
-- vote's signature.
unfoldable pub add_consensus_vote : String → ConsensusVote → Finalizer → Result Bool × Finalizer
add_consensus_vote now v f =
    if not (contains v.validator_id f.validators)
    then (err non_validator, f)
    else (let (done, f') = tally now v (record f { votes = record_vote v f.votes }) in
        (ok done, f'))

-- `EnforceNoReorg`
unfoldable pub enforce_no_reorg : ℕ → String → Finalizer → Result (Unit {0})
enforce_no_reorg height hash f =
    if (height == 0) || (f.state.finalized_height == 0) then ok tt else do
      reject_if (ltb height f.state.finalized_height) below_finalized
      reject_if
          ((height == f.state.finalized_height)
            && not (is_empty f.state.finalized_hash)
            && not (is_empty hash)
            && not (str_eq hash f.state.finalized_hash))
          conflicts_finalized

module _ ⦃p : Platform⦄ where
  -- `signingBytes`
  unfoldable pub signing_bytes : ConsensusVote → Bytes
  signing_bytes v = p.sha256 (
      p.json_consensus_vote (record {
        height = v.height;
        round = v.round;
        block_hash = v.block_hash;
        validator_id = v.validator_id;
      }))

  -- `SignVote`
  unfoldable pub sign_vote : ℕ → ℕ → String → String → Bytes → Result ConsensusVote
  sign_vote height round hash id priv =
      let v : ConsensusVote = record {
        height = height;
        round = round;
        block_hash = hash;
        validator_id = id;
        sig = "";
      } in
      do
        reject_if (is_empty hash || is_empty id) missing_vote_input
        ok (record v { sig = p.hex_encode (p.sign priv (signing_bytes v)) })

  abbrev check_sig : Bytes → ConsensusVote → Option Bytes → Result (Unit {0})
  check_sig pub_raw v none = err bad_sig_hex
  check_sig pub_raw v (some sig) =
      reject_if (not (p.verify pub_raw (signing_bytes v) sig)) bad_signature

  -- `VerifyVote`
  unfoldable pub verify_consensus_vote : ConsensusVote → Bytes → Result (Unit {0})
  verify_consensus_vote v pub_raw = do
    reject_if (is_empty v.sig || is_empty v.block_hash || is_empty v.validator_id)
        missing_vote_fields
    reject_if (not (str_eq (p.hex_encode pub_raw) v.validator_id)) validator_id_mismatch
    check_sig pub_raw v (p.hex_decode v.sig)
