-- ===== src/Peers/Store.antt =====
-- The peer store of internal/store/peers.go. Scores are floating-point numbers, a parameter `S` here
-- with its addition and the test `s < -3`.
use blackchain_node.Prelude.{
  ℕ, suc, ◌+◌, ◌≡◌, refl, sym, ap, ◌∙◌, arith, String, str_eq, str_eq_iff, Bool, true, false, none,
  some, [], ◌∷◌, ℤ, ltb_ℤ, length, if◌then◌else◌, Bool-cases, Option-cases, inl, inr, All,
}
use blackchain_node.Dict.{Map, lookup, insert, delete, string_Eq, lookup-delete, lookup-insert}

module _ {ℓ} (S : Type ℓ) (add : S → S → S) (below_limit : S → Bool) where
  pub record StoredPeer : Type ℓ where
    pub id : String
    pub address : String
    pub last_seen : ℤ
    pub score : S

  -- `Upsert`
  unfoldable pub upsert : StoredPeer → Map String StoredPeer → Map String StoredPeer
  upsert q ps = insert q.address q ps

  -- `BumpScore`
  unfoldable pub bump_score : String → S → Map String StoredPeer → Map String StoredPeer
  bump_score addr delta ps = elim (lookup addr ps) [
    | none ↦ ps
    | some q ↦
        let q' : StoredPeer = record q { score = add q.score delta } in
        if below_limit q'.score then delete addr ps else insert addr q' ps
  ]

  abbrev keep_peer :
      Bool → String → StoredPeer → ℕ × Map String StoredPeer → ℕ × Map String StoredPeer
  keep_peer true addr q (removed, ps) = (suc removed, ps)
  keep_peer false addr q (removed, ps) = (removed, (addr, q) ∷ ps)

  -- `PruneOlderThan`: the number of peers that it removes, and the store
  unfoldable pub prune_older_than : ℤ → Map String StoredPeer → ℕ × Map String StoredPeer
  prune_older_than cutoff [] = (0, [])
  prune_older_than cutoff ((addr, q) ∷ ps) =
      keep_peer (ltb_ℤ q.last_seen cutoff) addr q (prune_older_than cutoff ps)

  -- After `PruneOlderThan` no peer that is older than the cutoff is left, and the returned number is
  -- the number of peers that are gone.
  pub prune_older_than_lem :
      (cutoff : ℤ) (ps : Map String StoredPeer)
      → let (removed, ps') = prune_older_than cutoff ps in
        (removed + length ps' ≡ length ps)
        × All (λ (entry : String × StoredPeer). ltb_ℤ entry.1.last_seen cutoff ≡ false) ps'
  unfolding prune_older_than
  prune_older_than_lem cutoff [] = (refl, tt)
  prune_older_than_lem cutoff ((addr, q) ∷ ps) =
      let (sum, fresh) = prune_older_than_lem cutoff ps in
      elim (Bool-cases (ltb_ℤ q.last_seen cutoff)) [
        | inl old ↦ rw (prune_older_than, old) (omega (arith, sum), fresh)
        | inr young ↦ rw (prune_older_than, young) (omega (arith, sum), (young, fresh))
      ]

  -- `BumpScore` changes the score of a peer in the store alone: it adds the delta, and a peer whose
  -- new score is under the limit is gone. Every other address reads as before.
  pub bump_score-lookup :
      (addr : String) (delta : S) (ps : Map String StoredPeer) (other : String)
      → lookup other (bump_score addr delta ps) ≡ (
          if str_eq addr other
          then elim (lookup addr ps) [
            | none ↦ none
            | some q ↦
                if below_limit (add q.score delta)
                then none
                else some (record q { score = add q.score delta })
          ]
          else lookup other ps)
  unfolding bump_score
  bump_score-lookup addr delta ps other = elim (Option-cases (lookup addr ps)) [
    | inl missing ↦ elim (Bool-cases (str_eq addr other)) [
      | inl same ↦
          let here = (str_eq_iff addr other).0 same in
          rw (bump_score, missing, same) (ap (λ (k : String). lookup k ps) (sym here) ∙ missing)
      | inr differ ↦ rw (bump_score, missing, differ) refl
    ]
    | inr (q, found) ↦
        let q' : StoredPeer = record q { score = add q.score delta } in
        elim (Bool-cases (below_limit (add q.score delta))) [
          | inl low ↦ rw (bump_score, found, low) (lookup-delete addr other ps)
          | inr fine ↦ rw (bump_score, found, fine) (lookup-insert addr other q' ps)
        ]
  ]
