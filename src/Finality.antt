-- ===== src/Finality.antt =====
-- Depth finality of internal/mesh/chain_core.go, and finality by votes there and in
-- internal/mesh/consensus_commit.go.
use blackchain_node.Prelude.{
  ℕ, zero, suc, ◌+◌, String, str_eq, Bool, true, false, ◌&&◌, not, Option, none, some, [], ℤ, pos,
  pos_part, add64, sub64, ltb, leb, ltb_ℤ, leb_ℤ, eqb_ℤ, ◌-ℤ◌, length, count, if◌then◌else◌,
}
use blackchain_node.Types.{Block, Vote, Error, Result, ok, err, bad_vote_signature}
use blackchain_node.Platform.{Platform}
use blackchain_node.Signing.{verify_vote}
use blackchain_node.Dict.{Map, lookup, insert, string_Eq, int_Eq}
use blackchain_node.Chain.{disk_after, Chain, observe_validator, quorum_needed}
pub mod Depth
pub mod Votes

abbrev pub finality_depth : ℤ
finality_depth = pos 2

-- The body of the loop of `advanceFinalityLocked`.
unfoldable pub mark_finalized : ℤ → Map ℤ Block → Map ℤ Block
mark_finalized h blocks = elim (lookup h blocks) [
  | none ↦ blocks
  | some b ↦ if b.is_finalized then blocks else insert h (record b { is_finalized = true }) blocks
]

-- `for h := first; h <= target; h++`, by the number of rounds that are left.
unfoldable pub mark_range : ℕ → ℤ → Map ℤ Block → Map ℤ Block
mark_range zero h blocks = blocks
mark_range (suc n) h blocks = mark_range n (add64 h (pos 1)) (mark_finalized h blocks)

-- The height that `advanceFinalityLocked` aims at.
unfoldable pub finality_target : ℤ → ℤ
finality_target height =
    let target = sub64 height finality_depth in if ltb_ℤ target (pos 0) then pos 0 else target

-- `advanceFinalityLocked`
unfoldable pub advance_finality : Chain → Chain
advance_finality c =
    let target = finality_target c.height in
    if leb_ℤ target c.finalized_height then c else record c {
      blocks =
          mark_range (pos_part (target -ℤ c.finalized_height)) (add64 c.finalized_height (pos 1))
            c.blocks;
      finalized_height = target;
    }

-- `GetFinalitySnapshot`: the finalized height, the hash of its block, and the depth
unfoldable pub get_finality_snapshot : Chain → ℤ × String × ℤ
get_finality_snapshot c =
    let tip : String = elim (lookup c.finalized_height c.blocks) [ none ↦ "" | some b ↦ b.hash ] in
    (c.finalized_height, (if ltb_ℤ (pos 0) c.finalized_height then tip else ""), finality_depth)

-- `commitThresholdLocked`
abbrev pub commit_threshold : ℕ
commit_threshold = 1

-- The votes for a block among the votes of its height.
unfoldable pub votes_for : ℤ → String → Map String Vote → ℕ
votes_for height hash =
    count λ entry. eqb_ℤ (entry.1).height height && str_eq (entry.1).block_hash hash

-- `if height == c.height { c.tip = b.Hash }`
abbrev pub keep_tip : ℤ → Block → Chain → Chain
keep_tip height b c = record c { tip = if eqb_ℤ height c.height then b.hash else c.tip }

-- The votes that are stored for a height.
abbrev pub votes_at : ℤ → Chain → Map String Vote
votes_at height c = elim (lookup height c.votes) [ none ↦ [] | some m ↦ m ]

-- The end of `tryFinalizeHeightLocked`: an error of `persistBlockLocked` is ignored there.
unfoldable pub finalize_height : ℤ → Block → Chain → Chain
finalize_height height b c =
    let b' : Block = record b { is_finalized = true } in
    keep_tip height b' (record c { blocks = insert height b' c.blocks; disk = disk_after b' c })

-- `tryFinalizeHeightLocked`
unfoldable pub try_finalize_height : ℤ → Chain → Bool × Chain
unfolding votes_for
try_finalize_height height c =
    if leb_ℤ height (pos 0) then (false, c) else (elim (lookup height c.blocks) [
      | none ↦ (false, c)
      | some b ↦
          if b.is_finalized
          then (true, keep_tip height b c)
          else (if ltb (votes_for height b.hash (votes_at height c)) commit_threshold
              then (false, c)
              else (true, finalize_height height b c))
    ])

-- `tryFinalizeLocked`; the snapshot that it saves is not part of this state
unfoldable pub try_finalize : ℤ → Chain → Bool × Chain
try_finalize height c =
    let v : ℕ = elim (lookup height c.vote_counts) [ none ↦ 0 | some n ↦ n ] in
    if ltb v (quorum_needed c) then (false, c) else (elim (lookup height c.blocks) [
      | none ↦ (false, c)
      | some b ↦
          (true, record c { blocks = insert height (record b { is_finalized = true }) c.blocks })
    ])

module _ ⦃p : Platform⦄ where
  -- `addVoteLocked`
  unfoldable pub add_vote : Vote → Chain → Result (Unit {0}) × Chain
  add_vote v c =
      if not (verify_vote v)
      then (err bad_vote_signature, c)
      else (let stored = record c {
        votes = insert v.height (insert v.validator_id v (votes_at v.height c)) c.votes;
      } in
          (ok tt, (try_finalize v.height (observe_validator v.validator_id stored)).1))
