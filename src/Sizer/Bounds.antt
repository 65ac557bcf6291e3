-- ===== src/Sizer/Bounds.antt =====
-- internal/producer/adaptive.go: the bounds of the block size, and where they fail.
use inso_sequencer.Base.{ℕ, ◌+◌, ◌-◌, ◌/◌, ◌^◌, ◌≤◌, ◌<◌, ◌≡◌, true, false, arith}
use mathlib.Core.Logic.{◌≢◌}
use inso_sequencer.Float.{Float, flt}
use inso_sequencer.Word.{u64_mod, add64, sub64}
use inso_sequencer.Sizer.{
  AdaptiveBlockSizer, less_int, min_int, max_int, gas_step, tx_step, next_ema, adjust_after_block,
}

min_int_bounds :
    (lo cur hi step : ℕ)
    → lo ≤ cur
    → cur ≤ hi
    → hi + step < 2 ^ 63
    → (lo ≤ min_int (add64 cur step) hi) × (min_int (add64 cur step) hi ≤ hi)
unfolding min_int less_int
min_int_bounds lo cur hi step h k l = ground arith

max_int_bounds :
    (lo cur hi step : ℕ)
    → lo ≤ cur
    → cur ≤ hi
    → hi + step < 2 ^ 63
    → (lo ≤ max_int (sub64 cur step) lo) × (max_int (sub64 cur step) lo ≤ hi)
unfolding max_int less_int
max_int_bounds lo cur hi step h k l = ground arith

module _ {W : Type 0} ⦃f : Float W⦄ where
  pub record IsSized (a : AdaptiveBlockSizer W) : Type 0 where
    pub gas_low : a.min_gas_limit ≤ a.current_gas_limit
    pub gas_high : a.current_gas_limit ≤ a.max_gas_limit
    pub tx_low : a.min_max_tx ≤ a.current_max_tx
    pub tx_high : a.current_max_tx ≤ a.max_max_tx

  -- No sum and no difference of the gas limit and a step wraps around, and no sum of the count of
  -- transactions and a step passes the range of `int`.
  pub record IsTame (a : AdaptiveBlockSizer W) : Type 0 where
    pub no_overflow : a.max_gas_limit + gas_step a < u64_mod
    pub no_underflow : gas_step a ≤ a.min_gas_limit
    pub no_tx_overflow : a.max_max_tx + tx_step a < 2 ^ 63

  adjust_after_block-tx_step :
      (a : AdaptiveBlockSizer W) (gas_used gas_limit : ℕ)
      → tx_step (adjust_after_block a gas_used gas_limit) ≡ tx_step a
  unfolding adjust_after_block tx_step
  adjust_after_block-tx_step a gas_used gas_limit = ground arith

  -- When no sum of the largest gas limit and the step passes 64 bits, the step is at most the smallest gas
  -- limit, and no sum of the largest number of transactions and its step reaches 2^63, AdjustAfterBlock keeps the gas limit and the number of transactions within
  -- their bounds, and keeps these conditions.
  pub adjust_after_block-IsSized :
      (a : AdaptiveBlockSizer W) (gas_used gas_limit : ℕ)
      → IsTame a
      → IsSized a
      → IsSized (adjust_after_block a gas_used gas_limit)
        × IsTame (adjust_after_block a gas_used gas_limit)
  unfolding adjust_after_block gas_step
  adjust_after_block-IsSized a gas_used gas_limit t v = ground (
    arith,
    adjust_after_block-tx_step a gas_used gas_limit,
    min_int_bounds a.min_max_tx a.current_max_tx a.max_max_tx (tx_step a),
    max_int_bounds a.min_max_tx a.current_max_tx a.max_max_tx (tx_step a),
  )

  -- The bounds themselves stay.
  pub adjust_after_block-max :
      (a : AdaptiveBlockSizer W) (gas_used gas_limit : ℕ)
      → (adjust_after_block a gas_used gas_limit).max_gas_limit ≡ a.max_gas_limit
  unfolding adjust_after_block
  adjust_after_block-max a gas_used gas_limit = ground arith

  gas_step-le : (a : AdaptiveBlockSizer W) → gas_step a ≤ u64_mod / 10000
  unfolding gas_step
  gas_step-le a = omega arith

  -- When the block shrinks by a step above the current gas limit, which is at least its minimum,
  -- and the largest gas limit is below 2^63, the subtraction wraps around: the new gas limit is
  -- above the largest one.
  pub adjust_after_block_wraps :
      (a : AdaptiveBlockSizer W) (gas_used gas_limit : ℕ)
      → gas_limit ≢ 0
      → flt (f.add a.target_utilization (f.decimal 1 1)) (next_ema a gas_used gas_limit) ≡ false
      → flt (next_ema a gas_used gas_limit) (f.sub a.target_utilization (f.decimal 1 1)) ≡ true
      → a.current_gas_limit < gas_step a
      → a.min_gas_limit ≤ a.current_gas_limit
      → a.max_gas_limit < 2 ^ 63
      → ((adjust_after_block a gas_used gas_limit).current_gas_limit
          ≡ a.current_gas_limit + u64_mod - gas_step a)
        × (a.max_gas_limit < (adjust_after_block a gas_used gas_limit).current_gas_limit)
  unfolding adjust_after_block
  adjust_after_block_wraps a gas_used gas_limit n calm low lt min high =
      ground (arith, gas_step-le a)
