-- ===== src/Finalizer/Safety.antt =====
-- Safety of `Finalizer` (internal/consensus/finalizer.go): finality only moves up, and only on more
-- than two thirds of the validators.
use blackchain_node.Prelude.{
  ℕ, ◌≤◌, ◌<◌, ◌≡◌, refl, ap, ◌∙◌, ◌⊎◌, inl, inr, arith, String, str_eq_iff, true, false, not, List,
  [], ◌∷◌, ltb, length, Bool-cases,
}
use blackchain_node.Types.{ok}
use blackchain_node.Signing.{is_empty}
use blackchain_node.Dict.{contains, string_Eq, nat_Eq}
use blackchain_node.Finalizer.{
  FinalityState, ConsensusVote, Finalizer, voters, record_vote, tally, add_consensus_vote,
  enforce_no_reorg,
}

-- A change of the finality state of `f` into that of `f'`, by the votes that `f'` holds.
pub data Advance (v : ConsensusVote) (f f' : Finalizer) : Type 0 where
  kept : f'.state ≡ f.state → Advance v f f'
  moved :
      f.state.finalized_height < v.height
      → f'.state.finalized_height ≡ v.height
      → f'.state.finalized_hash ≡ v.block_hash
      → f.threshold ≤ length (voters v.height v.block_hash f'.votes)
      → Advance v f f'

tally-Advance : (now : String) (v : ConsensusVote) (f : Finalizer) → Advance v f (tally now v f).1
unfolding tally
tally-Advance now v f =
    elim (Bool-cases (ltb (length (voters v.height v.block_hash f.votes)) f.threshold)) [
      | inl few ↦ rw (tally, few) (kept refl)
      | inr enough ↦ elim (Bool-cases (ltb f.state.finalized_height v.height)) [
        | inr old ↦ rw (tally, enough, old) (kept refl)
        | inl new ↦
            rw (tally, enough, new) (moved (ground (arith, new)) refl refl (ground (arith, enough)))
      ]
    ]

-- `AddVote` either leaves the finalized height and hash alone, or moves them to the height and the
-- hash of the vote, where the height is a higher one and at least a threshold of voters is recorded.
pub add_consensus_vote-Advance :
    (now : String) (v : ConsensusVote) (f : Finalizer) → Advance v f (add_consensus_vote now v f).1
unfolding add_consensus_vote
add_consensus_vote-Advance now v f =
    elim (Bool-cases (not (contains v.validator_id f.validators))) [
      | inl stranger ↦ rw (add_consensus_vote, stranger) (kept refl)
      | inr member ↦
          let f1 = record f { votes = record_vote v f.votes } in
          elim (tally-Advance now v f1) [
            | kept h ↦ rw (add_consensus_vote, member) (kept h)
            | moved a b c d ↦ rw (add_consensus_vote, member) (moved a b c d)
          ]
    ]

-- A run of `AddVote` over votes, with their times.
abbrev pub add_votes : List (String × ConsensusVote) → Finalizer → Finalizer
add_votes [] f = f
add_votes ((now, v) ∷ vs) f = add_votes vs (add_consensus_vote now v f).1

Advance-le :
    (v : ConsensusVote) (f f' : Finalizer)
    → Advance v f f'
    → (f'.state ≡ f.state) ⊎ (f.state.finalized_height < f'.state.finalized_height)
Advance-le v f f' (kept h) = inl h
Advance-le v f f' (moved a b c d) = inr (omega (arith, a, b))

-- Along any run of `AddVote` the finality state, its hash included, either stays what it is or moves
-- to a higher height.
pub add_votes-monotone :
    (vs : List (String × ConsensusVote)) (f : Finalizer)
    → let f' = add_votes vs f in
      (f'.state ≡ f.state) ⊎ (f.state.finalized_height < f'.state.finalized_height)
add_votes-monotone [] f = inl refl
add_votes-monotone ((now, v) ∷ vs) f =
    let f1 = (add_consensus_vote now v f).1 in
    elim (Advance-le v f f1 (add_consensus_vote-Advance now v f)) [
      | inl same ↦ elim (add_votes-monotone vs f1) [
        | inl rest ↦ inl (rest ∙ same)
        | inr rest ↦
            let e = ap (λ (s : FinalityState). s.finalized_height) same in
            inr (omega (arith, rest, e))
      ]
      | inr up ↦ elim (add_votes-monotone vs f1) [
        | inl rest ↦
            let e = ap (λ (s : FinalityState). s.finalized_height) rest in
            inr (omega (arith, up, e))
        | inr rest ↦ inr (omega (arith, up, rest))
      ]
    ]

-- A block with a hash, at a height above 0, that `EnforceNoReorg` accepts lies above the finalized
-- height, or nothing is finalized, or it is the finalized block (or that has no hash).
pub enforce_no_reorg-ok :
    (height : ℕ) (hash : String) (f : Finalizer)
    → 0 < height
    → is_empty hash ≡ false
    → enforce_no_reorg height hash f ≡ ok tt
    → (f.state.finalized_height < height)
      ⊎ ((f.state.finalized_height ≡ 0)
          ⊎ ((height ≡ f.state.finalized_height)
              × ((is_empty f.state.finalized_hash ≡ true) ⊎ (hash ≡ f.state.finalized_hash))))
unfolding enforce_no_reorg
enforce_no_reorg-ok height hash f h named pass =
    let same = (str_eq_iff hash f.state.finalized_hash).0 in ground (arith, same)
