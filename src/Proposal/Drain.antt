-- ===== src/Proposal/Drain.antt =====
-- Termination of `drainPendingLocked` (internal/mesh/chain_core.go).
use blackchain_node.Prelude.{
  ℕ, zero, suc, ◌<◌, ◌≡◌, refl, arith, not, none, ℤ, pos, leb, str_eq, add64, length, Bool-cases,
  Option-cases, inl, inr,
}
use blackchain_node.Types.{Block, Result-cases}
use blackchain_node.Platform.{Platform}
use blackchain_node.Dict.{lookup, delete, int_Eq}
use blackchain_node.Dict.Size.{length-delete_lt}
use blackchain_node.Chain.{Chain}
use blackchain_node.Execution.{apply_block}
use blackchain_node.Execution.Atomicity.{apply_block-err}
use blackchain_node.Execution.Applied.{apply_block-IsApplied}
use blackchain_node.Proposal.{with_block, drain_step, drain, drain_pending}

module _ ⦃p : Platform⦄ where
  -- A block that is applied or rejected leaves the buffer alone.
  pub apply_block-pending : (b : Block) (c : Chain) → (apply_block b c).1.pending ≡ c.pending
  apply_block-pending b c = elim (Result-cases (apply_block b c).0) [
    | inl (tt, good) ↦ (apply_block-IsApplied b c good).pending
    | inr (e, bad) ↦ (apply_block-err b c e bad).pending
  ]

  -- A round takes the block that it looks at out of the buffer, and nothing else.
  pub drain_step-pending :
      (next : ℤ) (b : Block) (c : Chain) → (drain_step next b c).1.pending ≡ delete next c.pending
  unfolding drain_step
  drain_step-pending next b c =
      let dropped = record c { pending = delete next c.pending } in
      let kept = apply_block-pending b dropped in
      elim (Bool-cases (not (str_eq b.prev_hash c.tip))) [
        | inl other ↦ rw (drain_step, other) refl
        | inr here ↦
            elim (Bool-cases
              (with_block (lookup c.height c.blocks) (λ prev. leb b.time_utc prev.time_utc))) [
                | inl old ↦ rw (drain_step, here, old) refl
                | inr new ↦ elim (Result-cases (apply_block b dropped).0) [
                  | inl (u, good) ↦ rw (drain_step, here, new, good) kept
                  | inr (e, bad) ↦ rw (drain_step, here, new, bad) kept
                ]
              ]
      ]

  drain-empty :
      (fuel : ℕ) (c : Chain)
      → length c.pending < fuel
      → let c' = (drain fuel c).1 in lookup (add64 c'.height (pos 1)) c'.pending ≡ none
  unfolding drain
  drain-empty zero c h = absurd (omega (arith, h))
  drain-empty (suc fuel) c h = elim (Option-cases (lookup (add64 c.height (pos 1)) c.pending)) [
    | inl missing ↦ rw (missing, drain) missing
    | inr (b, found) ↦
        let next = add64 c.height (pos 1) in
        let smaller = length-delete_lt next b c.pending found in
        let c' = (drain_step next b c).1 in
        let left : length c'.pending < fuel =
          rw (drain_step-pending next b c) (omega (arith, smaller, h)) in
        rw (found, drain) (drain-empty fuel c' left)
  ]

  -- `drainPendingLocked` comes to an end within one round more than there are buffered blocks: after
  -- it, the buffer has no block for the height that follows the tip.
  pub drain_pending-empty :
      (c : Chain)
      → let c' = (drain_pending c).1 in lookup (add64 c'.height (pos 1)) c'.pending ≡ none
  unfolding drain_pending
  drain_pending-empty c = drain-empty (suc (length c.pending)) c (omega arith)
