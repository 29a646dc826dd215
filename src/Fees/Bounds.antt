-- ===== src/Fees/Bounds.antt =====
-- Bounds of the rewards and fees of internal/mesh/chain_core.go.
use blackchain_node.Prelude.{
  leb, ltb, if◌then◌else◌, ◌-◌, ℕ, ◌+◌, ◌*◌, ◌/◌, ◌≤◌, ◌<◌, ◌^◌, ◌≡◌, arith, pos, pos_part, ◌≤ℤ◌,
  ◌+ℤ◌, sub64, mul64, div64,
}
use native.Mathlib.Nat.{
  one-le-pow, pow-le-pow_right, le-div_iff_mul-le, le_trans, div-mul-le_self, div-le_self,
}
use blackchain_node.Fees.{block_reward_for_height, split_fees}

pub split_fees_pos :
    (n : ℕ)
    → n * 9000 < 2 ^ 63
    → split_fees (pos n) ≡ (pos (n * 9000 / 10000), pos (n - n * 9000 / 10000))
unfolding split_fees mul64 sub64 div64
split_fees_pos n h = ground arith

-- For a total that is not negative and below 2^63 / 9000, neither part of the split is negative,
-- the two add up to the total, and the producer's part is nine tenths of it, rounded down.
pub split_fees_lem :
    (n : ℕ)
    → n * 9000 < 2 ^ 63
    → let (producer, treasury) = split_fees (pos n) in
      (pos 0 ≤ℤ producer)
      × (pos 0 ≤ℤ treasury)
      × (producer +ℤ treasury ≡ pos n)
      × (10 * pos_part producer ≤ 9 * n)
      × (9 * n < 10 * pos_part producer + 10)
unfolding ◌+ℤ◌
split_fees_lem n h = rw (split_fees_pos n h) (ground arith)

-- The reward of an era of the halving schedule.
reward_of_era : ℕ → ℕ
reward_of_era e = if leb 62 e then 1 else (if ltb (50 / 2 ^ e) 1 then 1 else 50 / 2 ^ e)

reward_pos :
    (n : ℕ)
    → 0 < n
    → n < 2 ^ 63
    → block_reward_for_height (pos n) ≡ pos (reward_of_era ((n - 1) / 100_000))
unfolding block_reward_for_height reward_of_era sub64 div64
reward_pos n h k = ground arith

div_antitone : (a b : ℕ) → 0 < a → a ≤ b → 50 / b ≤ 50 / a
div_antitone a b h k = (le-div_iff_mul-le h).1 (le_trans (grind arith) (div-mul-le_self 50 b))

reward_of_era_antitone : (a b : ℕ) → a ≤ b → reward_of_era b ≤ reward_of_era a
unfolding reward_of_era
reward_of_era_antitone a b h =
    ground (
      arith,
      div_antitone (2 ^ a) (2 ^ b),
      one-le-pow a 2,
      pow-le-pow_right {n = 2} (omega arith) h,
    )

reward_of_era_bounds : (e : ℕ) → (1 ≤ reward_of_era e) × (reward_of_era e ≤ 50)
unfolding reward_of_era
reward_of_era_bounds e = ground (arith, div-le_self 50 (2 ^ e))

-- At heights from 1 on, below 2^63, the reward is between 1 and 50, and a later block never has a
-- larger reward than an earlier one.
pub block_reward_lem :
    (m n : ℕ)
    → 0 < m
    → m ≤ n
    → n < 2 ^ 63
    → (pos 1 ≤ℤ block_reward_for_height (pos n))
      × (block_reward_for_height (pos n) ≤ℤ pos 50)
      × (block_reward_for_height (pos n) ≤ℤ block_reward_for_height (pos m))
block_reward_lem m n h k l =
    rw (reward_pos n (omega arith) l, reward_pos m h (omega arith))
      (omega (
        arith,
        reward_of_era_bounds ((n - 1) / 100_000),
        reward_of_era_antitone ((m - 1) / 100_000) ((n - 1) / 100_000) (omega arith),
      ))
