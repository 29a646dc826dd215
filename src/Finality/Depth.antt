-- ===== src/Finality/Depth.antt =====
-- `advanceFinalityLocked` of internal/mesh/chain_core.go: what becomes final, and what stays as it is.
use native.Mathlib.Decide.{dec_le}
use blackchain_node.Prelude.{
  ℕ, zero, suc, ◌+◌, ◌≤◌, ◌<◌, ◌^◌, ◌-◌, ◌&&◌, leb, true, Option, none, some, ◌≡◌, ap, ◌∙◌, arith,
  ℤ, pos, pos_part, ◌-ℤ◌, add64, sub64, leb_ℤ, ltb_ℤ, eqb_ℤ, eqb_ℤ_iff, Option-cases, inl, inr,
  if◌then◌else◌,
}
use blackchain_node.Types.{Block}
use blackchain_node.Dict.{Map, lookup, int_Eq, lookup-insert}
use blackchain_node.Chain.{Chain}
use blackchain_node.Finality.{mark_finalized, mark_range, finality_target, advance_finality}

-- `advanceFinalityLocked` changes the blocks and the finalized height and nothing else.
pub advance_finality_rest :
    (c : Chain)
    → let c' = advance_finality c in
      c' ≡ record c { blocks = c'.blocks; finalized_height = c'.finalized_height }
unfolding advance_finality
advance_finality_rest c = ground arith

-- A block with its flag of finality set.
abbrev pub finalized : Option Block → Option Block
finalized none = none
finalized (some b) = some (record b { is_finalized = true })

pub mark_finalized-lookup :
    (h k : ℤ) (m : Map ℤ Block)
    → lookup k (mark_finalized h m) ≡ (if eqb_ℤ h k then finalized (lookup k m) else lookup k m)
unfolding mark_finalized
mark_finalized-lookup h k m = elim (Option-cases (lookup h m)) [
  | inl missing ↦
      rw (missing, mark_finalized)
        (ground (arith, eqb_ℤ_iff h k, missing, Option-cases (lookup k m)))
  | inr (b, found) ↦
      rw (found, mark_finalized)
        (ground
          (arith, eqb_ℤ_iff h k, found, lookup-insert h k (record b { is_finalized = true }) m))
]

pub add64_one : (a : ℕ) → a + 1 < 2 ^ 63 → add64 (pos a) (pos 1) ≡ pos (a + 1)
unfolding add64
add64_one a h = ground arith

mark_range-lookup :
    (n a : ℕ) (k : ℤ) (m : Map ℤ Block)
    → a + n < 2 ^ 63
    → lookup k (mark_range n (pos a) m)
      ≡ (if leb_ℤ (pos a) k && ltb_ℤ k (pos (a + n)) then finalized (lookup k m) else lookup k m)
unfolding mark_range
mark_range-lookup zero a k m h = ground arith
mark_range-lookup (suc n) a k m h = rw (add64_one a (omega arith)) (
    ground (
      arith,
      mark_range-lookup n (a + 1) k (mark_finalized (pos a) m),
      mark_finalized-lookup (pos a) k m,
      Option-cases (lookup k m),
    ))

finality_target_pos : (h : ℕ) → h < 2 ^ 63 → finality_target (pos h) ≡ pos (h - 2)
unfolding finality_target sub64
finality_target_pos h k = ground arith

advance_high :
    (c : Chain) (h f : ℕ)
    → c.height ≡ pos h
    → c.finalized_height ≡ pos f
    → h < 2 ^ 63
    → f < h - 2
    → advance_finality c ≡ record c {
      blocks = mark_range (h - 2 - f) (pos (f + 1)) c.blocks;
      finalized_height = pos (h - 2);
    }
unfolding advance_finality ◌-ℤ◌
advance_high c h f eh ef l high =
    let target : finality_target c.height ≡ pos (h - 2) =
      ap finality_target eh ∙ finality_target_pos h l in
    let rounds : pos_part (finality_target c.height -ℤ c.finalized_height) ≡ h - 2 - f =
      ground (arith, target, ef) in
    let first : add64 c.finalized_height (pos 1) ≡ pos (f + 1) =
      ap (λ (z : ℤ). add64 z (pos 1)) ef ∙ add64_one f (omega arith) in
    ground (arith, target, ef, rounds, first)

advance_low :
    (c : Chain) (h f : ℕ)
    → c.height ≡ pos h
    → c.finalized_height ≡ pos f
    → h < 2 ^ 63
    → h - 2 ≤ f
    → advance_finality c ≡ c
unfolding advance_finality
advance_low c h f eh ef l low =
    let target : finality_target c.height ≡ pos (h - 2) =
      ap finality_target eh ∙ finality_target_pos h l in
    ground (arith, target, ef)

-- At a height and a finalized height that are not negative, `advanceFinalityLocked` raises the
-- finalized height to two below the height, if that is more. Exactly the blocks above the old
-- finalized height and up to the new one have their flag set; no block is added or removed, and
-- every other block is what it was.
pub advance_finality_lem :
    (c : Chain) (h f : ℕ) (k : ℤ)
    → c.height ≡ pos h
    → c.finalized_height ≡ pos f
    → h < 2 ^ 63
    → let c' = advance_finality c in
      (c'.finalized_height ≡ (if leb (h - 2) f then pos f else pos (h - 2)))
      × (lookup k c'.blocks ≡ (
          if ltb_ℤ (pos f) k && leb_ℤ k (pos (h - 2))
          then finalized (lookup k c.blocks)
          else lookup k c.blocks))
advance_finality_lem c h f k eh ef l = elim (dec_le (h - 2) f) [
  | yes low ↦ rw (advance_low c h f eh ef l low) (ground arith)
  | no high ↦
      rw (advance_high c h f eh ef l (omega arith))
        (ground (arith, mark_range-lookup (h - 2 - f) (f + 1) k c.blocks))
]

-- What `advanceFinalityLocked` makes of the blocks and of the finalized height.
abbrev pub advanced_blocks : ℤ → ℤ → Map ℤ Block → Map ℤ Block
advanced_blocks height final blocks =
    if leb_ℤ (finality_target height) final
    then blocks
    else mark_range (pos_part (finality_target height -ℤ final)) (add64 final (pos 1)) blocks

abbrev pub advanced_height : ℤ → ℤ → ℤ
advanced_height height final =
    if leb_ℤ (finality_target height) final then final else finality_target height

pub advance_finality_parts :
    (c : Chain)
    → let c' = advance_finality c in
      (c'.blocks ≡ advanced_blocks c.height c.finalized_height c.blocks)
      × (c'.finalized_height ≡ advanced_height c.height c.finalized_height)
unfolding advance_finality
advance_finality_parts c = ground arith
