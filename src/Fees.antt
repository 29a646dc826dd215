-- ===== src/Fees.antt =====
-- Fees and block rewards (internal/mesh/chain_core.go): the congestion fee, the halving schedule
-- and the split of fees between producer and treasury, on int64.
use blackchain_node.Prelude.{
  ℕ, ◌/◌, ◌^◌, Bool, List, ℤ, pos, pos_part, leb_ℤ, ltb_ℤ, add64, sub64, mul64, div64, length,
  if◌then◌else◌, String,
}
use blackchain_node.Types.{Tx}
pub mod Bounds

abbrev pub base_fee : ℤ
base_fee = pos 1

abbrev pub fee_congestion_step : ℕ
fee_congestion_step = 256

abbrev pub fee_step_increment : ℤ
fee_step_increment = pos 1

abbrev pub max_mempool_txs : ℕ
max_mempool_txs = 256

abbrev pub max_block_txs : ℕ
max_block_txs = 64

abbrev pub max_tx_field_len : ℕ
max_tx_field_len = 256

abbrev pub fee_split_fork_height : ℤ
fee_split_fork_height = pos 1279

abbrev pub treasury_addr : String
treasury_addr = "TREASURY_BLACKCHAIN"

-- `requiredFeeLocked`, as a function of the mempool
unfoldable pub required_fee : List Tx → ℤ
required_fee mempool =
    add64 base_fee (mul64 (pos (length mempool / fee_congestion_step)) fee_step_increment)

-- `blockRewardForHeight`
unfoldable pub block_reward_for_height : ℤ → ℤ
block_reward_for_height h =
    if leb_ℤ h (pos 0)
    then pos 0
    else (let era = div64 (sub64 h (pos 1)) 100_000 in
        if leb_ℤ (pos 62) era
        then pos 1
        else (let reward = pos (50 / 2 ^ pos_part era) in
            if ltb_ℤ reward (pos 1) then pos 1 else reward))

-- `feeSplitActive`
unfoldable pub fee_split_active : ℤ → Bool
fee_split_active height = leb_ℤ fee_split_fork_height height

-- `splitFees`: the producer's part and the treasury's
unfoldable pub split_fees : ℤ → ℤ × ℤ
split_fees total =
    if leb_ℤ total (pos 0)
    then (pos 0, pos 0)
    else (let producer = div64 (mul64 total (pos 9000)) 10000 in (producer, sub64 total producer))
