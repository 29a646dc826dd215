-- ===== src/Examples/Votes.antt =====
-- Tests of finality by votes (internal/mesh/chain_core.go, internal/mesh/consensus_commit.go,
-- internal/consensus/finalizer.go).
use blackchain_node.Prelude.{
  ◌*◌, ◌≤◌, ◌<◌, ◌≡◌, ◌⊎◌, refl, arith, String, true, false, none, some, List, [], ◌∷◌, pos, length,
}
use blackchain_node.Types.{Block, Vote, ok}
use blackchain_node.Dict.{Map, int_Eq, string_Eq, nat_Eq, lookup, insert, delete, contains}
use blackchain_node.Chain.{
  Chain, get_account, get_or_create_account, observe_validator, quorum_needed, has_quorum,
  record_proposal_failure,
}
use blackchain_node.Finality.{
  votes_at, commit_threshold, mark_finalized, mark_range, finality_target, advance_finality,
  get_finality_snapshot, votes_for, finalize_height, try_finalize_height, try_finalize, add_vote,
}
use blackchain_node.Finality.Votes.{try_finalize_height-IsFinal, add_vote-blocks}
use blackchain_node.Finalizer.{
  ConsensusVote, Finalizer, collect, new_finalizer, observe_block, voters, record_vote, tally,
  add_consensus_vote, enforce_no_reorg, signing_bytes, sign_vote, verify_consensus_vote,
}
use blackchain_node.Finalizer.Safety.{add_votes, add_votes-monotone}
use blackchain_node.Finalizer.Quorum.{shared}
use blackchain_node.Finalizer.Intersection.{
  IsCounted, new_finalizer-IsCounted, add_consensus_vote-IsCounted, threshold-shared,
}
use blackchain_node.Examples.{toy, genesis, first_block}

abbrev alice_vote : Vote
alice_vote = record {
  height = pos 1;
  block_hash = "block";
  validator_id = "alice";
  signature = "sig";
}

-- The first block is in the chain, with a vote for it.
abbrev voted : Chain
voted = record genesis {
  height = pos 1;
  blocks = (pos 1, first_block) ∷ [];
  votes = (pos 1, ("alice", alice_vote) ∷ []) ∷ [];
}

voted_final : (try_finalize_height (pos 1) voted).0 ≡ true
unfolding mark_finalized mark_range finality_target advance_finality get_finality_snapshot votes_for
    finalize_height try_finalize_height try_finalize add_vote lookup insert delete contains
    get_account get_or_create_account observe_validator quorum_needed has_quorum
    record_proposal_failure
voted_final = refl

try_finalize_height-IsFinal_example :
    (b : Block) × (lookup (pos 1) voted.blocks ≡ some b)
    × (lookup (pos 1) (try_finalize_height (pos 1) voted).1.blocks
        ≡ some (record b { is_finalized = true }))
    × ((b.is_finalized ≡ true)
        ⊎ (commit_threshold ≤ votes_for (pos 1) b.hash (votes_at (pos 1) voted)))
try_finalize_height-IsFinal_example = try_finalize_height-IsFinal (pos 1) voted voted_final

add_vote-blocks_example :
    ((add_vote alice_vote voted).1.blocks ≡ voted.blocks)
    × ((add_vote alice_vote voted).1.vote_counts ≡ [])
add_vote-blocks_example = add_vote-blocks alice_vote voted refl

abbrev ids : List String
ids = "v1" ∷ "v2" ∷ "v3" ∷ []

abbrev unit_set : Map String (Unit {0})
unit_set = ("v1", tt) ∷ ("v2", tt) ∷ ("v3", tt) ∷ []

abbrev fresh : Finalizer
fresh = record {
  validators = unit_set;
  total_power = 3;
  threshold = 3;
  blocks = [];
  votes = [];
  state = record { finalized_height = 0; finalized_hash = ""; updated_at = "" };
  file = none;
  write_fault = false;
}

fresh_made : new_finalizer "data" ids none false ≡ ok fresh
unfolding collect new_finalizer observe_block voters record_vote tally add_consensus_vote
    enforce_no_reorg signing_bytes sign_vote verify_consensus_vote lookup insert delete contains
fresh_made = refl

abbrev vote_of : String → ConsensusVote
vote_of id = record { height = 4; round = 0; block_hash = "block"; validator_id = id; sig = "sig" }

abbrev ballot : List (String × ConsensusVote)
ballot = ("t1", vote_of "v1") ∷ ("t2", vote_of "v2") ∷ ("t3", vote_of "v3") ∷ []

add_votes-monotone_example :
    let f' = add_votes ballot fresh in
    (f'.state ≡ fresh.state) ⊎ (fresh.state.finalized_height < f'.state.finalized_height)
add_votes-monotone_example = add_votes-monotone ballot fresh

fresh-IsCounted : IsCounted fresh
fresh-IsCounted = new_finalizer-IsCounted "data" ids none false fresh fresh_made

add_consensus_vote-IsCounted_example : IsCounted (add_consensus_vote "t1" (vote_of "v1") fresh).1
add_consensus_vote-IsCounted_example =
    add_consensus_vote-IsCounted "t1" (vote_of "v1") fresh fresh-IsCounted

all_voted :
    (add_votes ballot fresh).threshold ≤ length (voters 4 "block" (add_votes ballot fresh).votes)
unfolding collect new_finalizer observe_block voters record_vote tally add_consensus_vote
    enforce_no_reorg signing_bytes sign_vote verify_consensus_vote lookup insert delete contains
all_voted = omega arith

threshold-shared_example :
    let f' = add_votes ballot fresh in
    let a = voters 4 "block" f'.votes in f'.total_power < 3 * shared a a f'.validators
threshold-shared_example =
    threshold-shared "data" ids none false fresh ballot 4 "block" "block" fresh_made all_voted
      all_voted

-- A finalizer that has finalized the block of height 4.
abbrev at_four : Finalizer
at_four = record fresh {
  state = record { finalized_height = 4; finalized_hash = "block"; updated_at = "t3" };
}

at_four_accepts : enforce_no_reorg 4 "block" at_four ≡ ok tt
unfolding collect new_finalizer observe_block voters record_vote tally add_consensus_vote
    enforce_no_reorg signing_bytes sign_vote verify_consensus_vote
at_four_accepts = refl
