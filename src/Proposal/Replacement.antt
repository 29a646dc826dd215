-- ===== src/Proposal/Replacement.antt =====
-- `applyBlockOrBufferLocked` of internal/mesh/chain_core.go replaces no block of the chain.
use blackchain_node.Prelude.{
  ℕ, ◌+◌, ◌<◌, ◌^◌, ◌≡◌, refl, sym, ap, arith, Bool, Option, none, some, ℤ, pos, add64, eqb_ℤ,
  length, Bool-cases, inl, inr,
}
use blackchain_node.Types.{Block, Result, ok, err, Result-cases}
use blackchain_node.Platform.{Platform}
use blackchain_node.Dict.{Map, insert, int_Eq}
use blackchain_node.Chain.{Chain, Daemon, observe_validator}
use blackchain_node.Chain.Untouched.{validator_id-HasKeysOnly}
use blackchain_node.Finality.Depth.{finalized}
use blackchain_node.Execution.{apply_block}
use blackchain_node.Execution.Atomicity.{apply_block-err, observe_rest}
use blackchain_node.Execution.Applied.{apply_block-IsApplied}
use blackchain_node.Proposal.{
  set_tip, place_block, quorum_stage, check_buffer, check_finalized, check_proposal, judge_block,
  report_failure, apply_block_or_buffer,
}
use blackchain_node.Proposal.Immutable.{
  IsKept, IsTopped, extended, moved, IsKept-trans, drain_pending-IsKept,
}

module _ ⦃p : Platform⦄ where
  -- The end of `applyBlockOrBufferLocked`.
  place_block-IsKept :
      (h : ℕ) (b : Block) (c : Chain)
      → h + length c.pending + 2 < 2 ^ 63
      → IsTopped h c
      → let c' = (place_block b c).1 in IsKept c.blocks c'.blocks × ((n : ℕ) × IsTopped n c')
  unfolding place_block
  place_block-IsKept h b c small topped =
      elim (Bool-cases (eqb_ℤ b.height (add64 c.height (pos 1)))) [
        | inr ahead ↦ elim (Result-cases (check_buffer b c)) [
          | inl (tt, free) ↦
              let (k, t) =
                moved h c (record c { pending = insert b.height b c.pending }) refl refl topped in
              rw (place_block, ahead, free) (k, (h, t))
          | inr (e, full) ↦
              rw (place_block, ahead, full) (λ k old found. ap finalized found, (h, topped))
        ]
        | inl next ↦ elim (Result-cases (apply_block b c).0) [
          | inr (e, bad) ↦
              let same = apply_block-err b c e bad in
              let (k, t) = moved h c (apply_block b c).1 same.height same.blocks topped in
              rw (place_block, next, bad) (k, (h, t))
          | inl (tt, good) ↦
              let (grown, topped') = extended h b c (omega (arith, small)) topped good in
              let a = apply_block-IsApplied b c good in
              let c1 = (apply_block b c).1 in
              let c2 = set_tip b c1 in
              let set = moved (h + 1) c1 c2 (sym a.height) refl topped' in
              let left : length c2.pending ≡ length c.pending =
                ap (λ (m : Map ℤ Block). length m) a.pending in
              let (kept, end) =
                drain_pending-IsKept (h + 1) c2 (omega (arith, small, left)) set.1 in
              rw (place_block, next, good) (IsKept-trans c.blocks c1.blocks _ grown kept, end)
        ]
      ]

  quorum_stage-rest :
      (b : Block) (d : Option Daemon) (c : Chain)
      → let c' = (quorum_stage b d c).1 in
        (c'.height ≡ c.height) × (c'.blocks ≡ c.blocks) × (c'.pending ≡ c.pending)
  unfolding quorum_stage
  quorum_stage-rest b none c = (refl, refl, refl)
  quorum_stage-rest b (some d) c = rw (validator_id-HasKeysOnly c) (refl, refl, refl)

  judge_block-IsKept :
      (h now : ℕ) (b : Block) (c : Chain)
      → h + length c.pending + 2 < 2 ^ 63
      → IsTopped h c
      → let c' = (judge_block now b c).1 in IsKept c.blocks c'.blocks × ((n : ℕ) × IsTopped n c')
  unfolding judge_block
  judge_block-IsKept h now b c small topped = elim (Result-cases (check_finalized b c)) [
    | inr (e, final) ↦ rw (judge_block, final) (λ k old found. ap finalized found, (h, topped))
    | inl (tt, free) ↦
        let c1 = (quorum_stage b c.daemon c).1 in
        let (height, blocks, pending) = quorum_stage-rest b c.daemon c in
        let (kept, topped') = moved h c c1 height blocks topped in
        elim (Result-cases (quorum_stage b c.daemon c).0) [
          | inr (e, few) ↦ rw (judge_block, free, few) (kept, (h, topped'))
          | inl (tt, many) ↦ elim (Result-cases (check_proposal now b c1)) [
            | inr (e, bad) ↦ rw (judge_block, free, many, bad) (kept, (h, topped'))
            | inl (tt, fine) ↦
                let left : length c1.pending ≡ length c.pending =
                  ap (λ (m : Map ℤ Block). length m) pending in
                let (placed, end) =
                  place_block-IsKept h b c1 (omega (arith, small, left)) topped' in
                rw (judge_block, free, many, fine)
                  (IsKept-trans c.blocks c1.blocks _ kept placed, end)
          ]
        ]
  ]

  report-IsKept :
      (m : Map ℤ Block) (r : Result Bool × Chain)
      → IsKept m r.1.blocks × ((n : ℕ) × IsTopped n r.1)
      → let c' = (report_failure r).1 in IsKept m c'.blocks × ((n : ℕ) × IsTopped n c')
  unfolding report_failure
  report-IsKept m (ok applied, c) h = h
  report-IsKept m (err e, c) (kept, (n, topped)) =
      (kept, (n, (record { height = topped.height; top = topped.top })))

  -- `applyBlockOrBufferLocked` replaces no block of the chain, whatever block it is given and whether
  -- it fails: at a height `h` with no block above it, which leaves room for the buffered blocks in an
  -- int64, every block is there afterwards, at its height, and at most its flag of finality has
  -- changed; and again no block lies above the height.
  pub apply_block_or_buffer-IsKept :
      (h now : ℕ) (b : Block) (c : Chain)
      → h + length c.pending + 2 < 2 ^ 63
      → IsTopped h c
      → let c' = (apply_block_or_buffer now b c).1 in
        IsKept c.blocks c'.blocks × ((n : ℕ) × IsTopped n c')
  unfolding apply_block_or_buffer
  apply_block_or_buffer-IsKept h now b c small topped =
      let c1 = observe_validator b.producer c in
      let seen = observe_rest b.producer c in
      let height : c1.height ≡ c.height = ap (λ (d : Chain). d.height) seen in
      let blocks : c1.blocks ≡ c.blocks = ap (λ (d : Chain). d.blocks) seen in
      let left : length c1.pending ≡ length c.pending = ap (λ (d : Chain). length d.pending) seen in
      let (kept, topped') = moved h c c1 height blocks topped in
      let judged = judge_block-IsKept h now b c1 (omega (arith, small, left)) topped' in
      let (kept', end) = report-IsKept c1.blocks (judge_block now b c1) judged in
      (IsKept-trans c.blocks c1.blocks _ kept kept', end)
