-- ===== src/Proposal/Offer.antt =====
-- What `proposeBlock` (internal/mesh/chain_core.go) does to the mempool when its block is refused.
use blackchain_node.Prelude.{
  ℕ, ◌≡◌, refl, ap, ◌∙◌, arith, ◌≢◌, String, Bool, Option, none, some, List, ◌++◌, pos, add64,
  eqb_ℤ, take, drop, take-append-drop, Bool-cases, inl, inr,
}
use blackchain_node.Types.{Tx, Block, Error, Result, ok, err, Result-cases}
use blackchain_node.Platform.{Platform, Bytes}
use blackchain_node.Chain.{Chain, Daemon, observe_validator}
use blackchain_node.Chain.Untouched.{validator_id-HasKeysOnly}
use blackchain_node.Fees.{max_block_txs}
use blackchain_node.Mempool.{rebuild_mempool_index}
use blackchain_node.Mempool.Index.{IsIndexed, rebuild_mempool_index-IsIndexed}
use blackchain_node.Execution.{apply_block}
use blackchain_node.Execution.Atomicity.{apply_block-err, observe_rest}
use blackchain_node.Proposal.{
  check_buffer, check_finalized, check_proposal, place_block, quorum_stage, judge_block,
  report_failure, apply_block_or_buffer, make_block, restore, offer_block,
}

module _ ⦃p : Platform⦄ where
  place_block-err :
      (b : Block) (c : Chain) (e : Error)
      → (place_block b c).0 ≡ err e
      → (place_block b c).1.mempool ≡ c.mempool
  unfolding place_block
  place_block-err b c e h = elim (Bool-cases (eqb_ℤ b.height (add64 c.height (pos 1)))) [
    | inr ahead ↦ elim (Result-cases (check_buffer b c)) [
      | inl (u, free) ↦ absurd (ground (arith, ahead, free, h))
      | inr (x, full) ↦ rw (place_block, ahead, full) refl
    ]
    | inl next ↦ elim (Result-cases (apply_block b c).0) [
      | inl (u, good) ↦ absurd (ground (arith, next, good, h))
      | inr (x, bad) ↦ rw (place_block, next, bad) (apply_block-err b c x bad).mempool
    ]
  ]

  quorum_stage-mempool :
      (b : Block) (d : Option Daemon) (c : Chain) → (quorum_stage b d c).1.mempool ≡ c.mempool
  unfolding quorum_stage
  quorum_stage-mempool b none c = refl
  quorum_stage-mempool b (some d) c = rw (validator_id-HasKeysOnly c) refl

  judge_block-err :
      (now : ℕ) (b : Block) (c : Chain) (e : Error)
      → (judge_block now b c).0 ≡ err e
      → (judge_block now b c).1.mempool ≡ c.mempool
  unfolding judge_block
  judge_block-err now b c e h = elim (Result-cases (check_finalized b c)) [
    | inr (x, final) ↦ rw (judge_block, final) refl
    | inl (u, free) ↦
        let c1 = (quorum_stage b c.daemon c).1 in
        let kept = quorum_stage-mempool b c.daemon c in
        elim (Result-cases (quorum_stage b c.daemon c).0) [
          | inr (x, few) ↦ rw (judge_block, free, few) kept
          | inl (v, many) ↦ elim (Result-cases (check_proposal now b c1)) [
            | inr (x, bad) ↦ rw (judge_block, free, many, bad) kept
            | inl (w, fine) ↦
                let failed : (place_block b c1).0 ≡ err e = ground (arith, free, many, fine, h) in
                rw (judge_block, free, many, fine) (place_block-err b c1 e failed ∙ kept)
          ]
        ]
  ]

  report-err :
      (r : Result Bool × Chain) (e : Error)
      → (report_failure r).0 ≡ err e
      → (r.0 ≡ err e) × ((report_failure r).1.mempool ≡ r.1.mempool)
  unfolding report_failure
  report-err (ok applied, c) e h = absurd (ground (arith, h))
  report-err (err x, c) e h = (h, refl)

  -- Where `applyBlockOrBufferLocked` returns an error, the mempool is what it was.
  pub apply_block_or_buffer-err :
      (now : ℕ) (b : Block) (c : Chain) (e : Error)
      → (apply_block_or_buffer now b c).0 ≡ err e
      → (apply_block_or_buffer now b c).1.mempool ≡ c.mempool
  unfolding apply_block_or_buffer
  apply_block_or_buffer-err now b c e h =
      let c1 = observe_validator b.producer c in
      let seen = ap (λ (d : Chain). d.mempool) (observe_rest b.producer c) in
      let (failed, kept) = report-err (judge_block now b c1) e h in
      kept ∙ (judge_block-err now b c1 e failed ∙ seen)

  offered-ok :
      (now : ℕ) (producer_addr pub_hex : String) (priv : Bytes) (c : Chain) (e : Error) (u : Bool)
      → let c1 = rebuild_mempool_index (record c { mempool = drop max_block_txs c.mempool }) in
        let b = make_block now producer_addr pub_hex priv (take max_block_txs c.mempool) c1 in
        (apply_block_or_buffer now b c1).0 ≡ ok u
        → (offer_block now producer_addr pub_hex priv c).0 ≢ err e
  unfolding offer_block
  offered-ok now producer_addr pub_hex priv c e u good h = ground (arith, good, h)

  -- If the block that `proposeBlock` offers is refused, the transactions that it took out of the
  -- mempool are back at its front: the mempool is the same list as before the offer, and its two
  -- indices agree with it.
  pub offer_block-err :
      (now : ℕ) (producer_addr pub_hex : String) (priv : Bytes) (c : Chain) (e : Error)
      → (offer_block now producer_addr pub_hex priv c).0 ≡ err e
      → let c' = (offer_block now producer_addr pub_hex priv c).1 in
        (c'.mempool ≡ c.mempool) × IsIndexed c'
  unfolding offer_block restore rebuild_mempool_index
  offer_block-err now producer_addr pub_hex priv c e h =
      let txs = take max_block_txs c.mempool in
      let c1 = rebuild_mempool_index (record c { mempool = drop max_block_txs c.mempool }) in
      let b = make_block now producer_addr pub_hex priv txs c1 in
      let c2 = (apply_block_or_buffer now b c1).1 in
      elim (Result-cases (apply_block_or_buffer now b c1).0) [
        | inl (u, good) ↦ absurd (offered-ok now producer_addr pub_hex priv c e u good h)
        | inr (x, bad) ↦
            let kept = apply_block_or_buffer-err now b c1 x bad in
            rw (offer_block, bad)
              (
                ap (λ (rest : List Tx). txs ++ rest) kept
                    ∙ take-append-drop max_block_txs c.mempool,
                rebuild_mempool_index-IsIndexed (record c2 { mempool = txs ++ c2.mempool }),
              )
      ]
