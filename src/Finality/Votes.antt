-- ===== src/Finality/Votes.antt =====
-- Finality by votes: `addVoteLocked` and `tryFinalizeLocked` (internal/mesh/chain_core.go), and
-- `tryFinalizeHeightLocked` (internal/mesh/consensus_commit.go).
use blackchain_node.Prelude.{
  ◌≤◌, ◌<◌, ◌≡◌, refl, ap, ◌∙◌, arith, ◌⊎◌, Bool, true, false, not, some, [], ℤ, pos, leb_ℤ, ltb,
  Bool-cases, Option-cases, inl, inr,
}
use blackchain_node.Types.{Block, Vote}
use blackchain_node.Platform.{Platform}
use blackchain_node.Signing.{verify_vote}
use blackchain_node.Dict.{lookup, insert, string_Eq, int_Eq, lookup-insert_self}
use blackchain_node.Chain.{Chain, observe_validator, quorum_needed}
use blackchain_node.Execution.Atomicity.{observe_rest}
use blackchain_node.Finality.{
  votes_for, votes_at, finalize_height, try_finalize_height, try_finalize, add_vote,
  commit_threshold,
}

-- The quorum is never zero.
pub quorum_needed_pos : (c : Chain) → 0 < quorum_needed c
unfolding quorum_needed
quorum_needed_pos c = ground arith

-- With no count of votes `tryFinalizeLocked` changes nothing.
try_finalize_none :
    (height : ℤ) (c : Chain) → c.vote_counts ≡ [] → try_finalize height c ≡ (false, c)
unfolding try_finalize lookup quorum_needed
try_finalize_none height c h = ground (arith, h)

pub try_finalize_height-IsFinal :
    (height : ℤ) (c : Chain)
    → (try_finalize_height height c).0 ≡ true
    → (b : Block) × (lookup height c.blocks ≡ some b)
      × (lookup height (try_finalize_height height c).1.blocks
          ≡ some (record b { is_finalized = true }))
      × ((b.is_finalized ≡ true) ⊎ (commit_threshold ≤ votes_for height b.hash (votes_at height c)))
unfolding try_finalize_height finalize_height
try_finalize_height-IsFinal height c h = elim (Option-cases (lookup height c.blocks)) [
  | inl missing ↦ absurd (ground (arith, missing, h))
  | inr (b, found) ↦ elim (Bool-cases (leb_ℤ height (pos 0))) [
    | inl low ↦ absurd (ground (arith, low, h))
    | inr high ↦ elim (Bool-cases b.is_finalized) [
      | inl done ↦
          let marked : b ≡ record b { is_finalized = true } =
            ap (λ (x : Bool). record b { is_finalized = x }) done in
          (b, found, rw (try_finalize_height, high, found, done) (found ∙ ap some marked), inl done)
      | inr fresh ↦
          let hash = b.hash in
          elim (Bool-cases (ltb (votes_for height hash (votes_at height c)) commit_threshold)) [
            | inl few ↦ absurd (ground (arith, high, found, fresh, few, h))
            | inr enough ↦ (
              b,
              found,
              rw (try_finalize_height, high, found, fresh, enough)
                  (lookup-insert_self height (record b { is_finalized = true }) c.blocks),
              inr (ground (arith, enough)),
            )
          ]
    ]
  ]
]

module _ ⦃p : Platform⦄ where
  -- From a chain with no counts of votes, `addVoteLocked` changes no block and leaves the counts
  -- empty, whatever votes are stored.
  pub add_vote-blocks :
      (v : Vote) (c : Chain)
      → c.vote_counts ≡ []
      → ((add_vote v c).1.blocks ≡ c.blocks) × ((add_vote v c).1.vote_counts ≡ [])
  unfolding add_vote
  add_vote-blocks v c h = elim (Bool-cases (not (verify_vote v))) [
    | inl bad ↦ rw (add_vote, bad) (refl, h)
    | inr good ↦
        let stored = record c {
          votes = insert v.height (insert v.validator_id v (votes_at v.height c)) c.votes;
        } in
        let seen = observe_rest v.validator_id stored in
        let counts : (observe_validator v.validator_id stored).vote_counts ≡ [] = rw seen h in
        rw
          (
            add_vote,
            good,
            try_finalize_none v.height (observe_validator v.validator_id stored) counts,
            seen,
          )
          (refl, h)
  ]
