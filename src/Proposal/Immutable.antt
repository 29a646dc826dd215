-- ===== src/Proposal/Immutable.antt =====
-- `applyBlockLocked` and `drainPendingLocked` of internal/mesh/chain_core.go replace no block of the
-- chain.
use blackchain_node.Prelude.{
  ℕ, zero, suc, ◌+◌, ◌≤◌, ◌<◌, ◌^◌, ◌≡◌, refl, sym, ap, ◌∙◌, arith, Bool, true, false, not, Option,
  none, some, ℤ, pos, leb, leb_ℤ, ◌≤ℤ◌, str_eq, add64, eqb_ℤ, length, Bool-cases, Option-cases, inl,
  inr, if◌then◌else◌,
}
use blackchain_node.Types.{Block, ok, Result-cases}
use blackchain_node.Platform.{Platform}
use blackchain_node.Dict.{Map, lookup, insert, delete, int_Eq, lookup-insert}
use blackchain_node.Chain.{Chain}
use blackchain_node.Finality.{mark_finalized, mark_range, finality_target}
use blackchain_node.Finality.Depth.{finalized, mark_finalized-lookup, advanced_blocks, add64_one}
use blackchain_node.Execution.{apply_block}
use blackchain_node.Execution.Atomicity.{apply_block-err}
use blackchain_node.Execution.Applied.{apply_block-IsApplied}
use blackchain_node.Proposal.{with_block, set_tip, drain_step, drain, drain_pending}

-- Every block of `m` is in `m'` too, at the same height, where at most its flag of finality differs.
abbrev pub IsKept : Map ℤ Block → Map ℤ Block → Type 0
IsKept m m' =
    (k : ℤ) (old : Block) → lookup k m ≡ some old → finalized (lookup k m') ≡ finalized (some old)

-- The height is `h`, and no block lies above it.
pub record IsTopped (h : ℕ) (c : Chain) : Type 0 where
  pub height : c.height ≡ pos h
  pub top : (k : ℤ) (b : Block) → lookup k c.blocks ≡ some b → k ≤ℤ pos h

finalized_idem : (o : Option Block) → finalized (finalized o) ≡ finalized o
finalized_idem none = refl
finalized_idem (some b) = refl

marked :
    (n : ℕ) (h k : ℤ) (m : Map ℤ Block)
    → finalized (lookup k (mark_range n h m)) ≡ finalized (lookup k m)
unfolding mark_range
marked zero h k m = refl
marked (suc n) h k m =
    marked n (add64 h (pos 1)) k (mark_finalized h m)
    ∙ (ap finalized (mark_finalized-lookup h k m) ∙ chosen (eqb_ℤ h k) (lookup k m))
  where
    chosen : (t : Bool) (o : Option Block) → finalized (if t then finalized o else o) ≡ finalized o
    chosen true o = finalized_idem o
    chosen false o = refl

pub advanced :
    (height final k : ℤ) (m : Map ℤ Block)
    → finalized (lookup k (advanced_blocks height final m)) ≡ finalized (lookup k m)
advanced height final k m = elim (Bool-cases (leb_ℤ (finality_target height) final)) [
  | inl low ↦ rw low refl
  | inr high ↦ rw high (marked _ _ k m)
]

-- Two reads that agree up to the flag agree on whether there is a block.
present :
    (o o' : Option Block) (b : Block)
    → finalized o ≡ finalized o'
    → o ≡ some b
    → (b' : Block) × (o' ≡ some b')
present o none b e h = absurd (ground (arith, e, h))
present o (some b') b e h = (b', refl)

top_insert :
    (h : ℕ) (next : ℤ) (b : Block) (c : Chain) (k : ℤ) (b' : Block)
    → IsTopped h c
    → next ≡ pos (h + 1)
    → lookup k (insert next b c.blocks) ≡ some b'
    → k ≤ℤ pos (h + 1)
top_insert h next b c k b' topped e there = elim (Bool-cases (eqb_ℤ next k)) [
  | inl same ↦ ground (arith, same, e)
  | inr other ↦
      let old : lookup k c.blocks ≡ some b' =
        ground (arith, lookup-insert next k b c.blocks, other, there) in
      let below = topped.top k b' old in ground (arith, below)
]

pub IsKept-trans : (m m' m'' : Map ℤ Block) → IsKept m m' → IsKept m' m'' → IsKept m m''
IsKept-trans m m' m'' h h' k old found =
    let e = h k old found in
    let (b, there) =
      present (finalized (lookup k m')) (lookup k m') (record old { is_finalized = true })
        (finalized_idem (lookup k m')) e in
    h' k b there ∙ (ap finalized (sym there) ∙ e)

-- A change of anything but height and blocks.
pub moved :
    (h : ℕ) (c c' : Chain)
    → c'.height ≡ c.height
    → c'.blocks ≡ c.blocks
    → IsTopped h c
    → IsKept c.blocks c'.blocks × IsTopped h c'
moved h c c' e f topped = (
  λ k old found. rw f (ap finalized found),
  record { height = e ∙ topped.height; top = rw f topped.top },
)

module _ ⦃p : Platform⦄ where
  pub extended :
      (h : ℕ) (b : Block) (c : Chain)
      → h + 1 < 2 ^ 63
      → IsTopped h c
      → (apply_block b c).0 ≡ ok tt
      → IsKept c.blocks (apply_block b c).1.blocks × IsTopped (h + 1) (apply_block b c).1
  extended h b c small topped good =
      let a = apply_block-IsApplied b c good in
      let c' = (apply_block b c).1 in
      let stored = insert b.height b c.blocks in
      let next : b.height ≡ pos (h + 1) =
        a.sound.next_height ∙ (ap (λ (z : ℤ). add64 z (pos 1)) topped.height ∙ add64_one h small) in
      let agree : (k : ℤ) → finalized (lookup k c'.blocks) ≡ finalized (lookup k stored) = λ k.
        ap (λ (m : Map ℤ Block). finalized (lookup k m)) a.blocks
        ∙ advanced b.height c.finalized_height k stored in
      (
        λ k old found.
            let below = topped.top k old found in
            let other : eqb_ℤ b.height k ≡ false = ground (arith, next, below) in
            agree k ∙ rw (lookup-insert b.height k b c.blocks, other) (ap finalized found),
        record {
          height = a.height ∙ next;
          top = λ k b' found.
              let (b'', there) =
                present (lookup k c'.blocks) (lookup k stored) b' (agree k) found in
              top_insert h b.height b c k b'' topped next there;
        },
      )

  -- Blocks, height and buffer are all that a round of `drainPendingLocked` may change of these.
  step :
      (h : ℕ) (next : ℤ) (b : Block) (c : Chain)
      → h + 1 < 2 ^ 63
      → IsTopped h c
      → let c' = (drain_step next b c).1 in
        IsKept c.blocks c'.blocks × ((n : ℕ) × (n ≤ h + 1) × IsTopped n c')
  unfolding drain_step
  step h next b c small topped =
      let dropped = record c { pending = delete next c.pending } in
      let (kept, still) = moved h c dropped refl refl topped in
      let idle : IsKept c.blocks c.blocks × ((n : ℕ) × (n ≤ h + 1) × IsTopped n dropped) =
        (kept, (h, omega arith, still)) in
      elim (Bool-cases (not (str_eq b.prev_hash c.tip))) [
        | inl other ↦ rw (drain_step, other) idle
        | inr here ↦
            elim (Bool-cases
              (with_block (lookup c.height c.blocks) (λ prev. leb b.time_utc prev.time_utc))) [
                | inl old ↦ rw (drain_step, here, old) idle
                | inr new ↦ elim (Result-cases (apply_block b dropped).0) [
                  | inl (tt, good) ↦
                      let (grown, topped') = extended h b dropped small still good in
                      let c' = (apply_block b dropped).1 in
                      let level = (apply_block-IsApplied b dropped good).height in
                      let set = moved (h + 1) c' (set_tip b c') (sym level) refl topped' in
                      rw (drain_step, here, new, good) (grown, (h + 1, omega arith, set.1))
                  | inr (e, bad) ↦
                      let same = apply_block-err b dropped e bad in
                      let (k, t) =
                        moved h dropped (apply_block b dropped).1 same.height same.blocks still in
                      rw (drain_step, here, new, bad) (k, (h, omega arith, t))
                ]
              ]
      ]

  drain-IsKept :
      (fuel h : ℕ) (c : Chain)
      → h + fuel < 2 ^ 63
      → IsTopped h c
      → let c' = (drain fuel c).1 in IsKept c.blocks c'.blocks × ((n : ℕ) × IsTopped n c')
  unfolding drain
  drain-IsKept zero h c small topped = (λ k old found. ap finalized found, (h, topped))
  drain-IsKept (suc fuel) h c small topped =
      elim (Option-cases (lookup (add64 c.height (pos 1)) c.pending)) [
        | inl missing ↦ rw (missing, drain) (λ k old found. ap finalized found, (h, topped))
        | inr (b, found) ↦
            let next = add64 c.height (pos 1) in
            let c1 = (drain_step next b c).1 in
            let (kept, above) = step h next b c (omega (arith, small)) topped in
            let (n, le, topped') = above in
            let (kept', above') = drain-IsKept fuel n c1 (omega (arith, small, le)) topped' in
            rw (found, drain) (IsKept-trans c.blocks c1.blocks _ kept kept', above')
      ]

  -- `drainPendingLocked` replaces no block of the chain: at a height `h` with no block above it, which
  -- leaves room for the buffered blocks in an int64, every block is there afterwards, at its height,
  -- and at most its flag of finality has changed.
  pub drain_pending-IsKept :
      (h : ℕ) (c : Chain)
      → h + suc (length c.pending) < 2 ^ 63
      → IsTopped h c
      → let c' = (drain_pending c).1 in IsKept c.blocks c'.blocks × ((n : ℕ) × IsTopped n c')
  unfolding drain_pending
  drain_pending-IsKept h c small topped = drain-IsKept (suc (length c.pending)) h c small topped
