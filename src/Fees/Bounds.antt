-- ===== src/Fees/Bounds.antt =====
-- internal/fees/model.go: the base fee stays within its bounds, and moves by an eighth at most.
use inso_sequencer.Base.{
  ℕ, ◌+◌, ◌*◌, ◌/◌, ◌≤◌, ◌≡◌, ◌∙◌, true, false, ◌==◌, arith, Bool-cases, inl, inr,
}
use mathlib.Core.Logic.{◌≢◌}
use inso_sequencer.Float.{Float, IsIeee, flt}
use inso_sequencer.Fees.{
  DynamicFeeModel, adjust_after_block, clamp_delta, moved_fee, enforce_bounds,
}

enforce_bounds_bounds :
    (low high fee : ℕ)
    → low ≤ high
    → (low ≤ enforce_bounds low high fee) × (enforce_bounds low high fee ≤ high)
unfolding enforce_bounds
enforce_bounds_bounds low high fee h = ground arith

eighth : (base pct : ℕ) → pct ≤ 1250 → base * pct / 10000 ≤ base / 8
eighth base pct h = let p : base * pct ≤ base * 1250 = grind arith in omega (arith, p)

module _ {W : Type 0} ⦃f : Float W⦄ where
  module _ (m : DynamicFeeModel W) (gas_used gas_limit : ℕ) where
    -- With bounds in order and a gas limit other than 0, the base fee after AdjustAfterBlock lies
    -- within its bounds.
    adjust_after_block_bounds :
        m.min_base_fee ≤ m.max_base_fee
        → gas_limit ≢ 0
        → (m.min_base_fee ≤ (adjust_after_block m gas_used gas_limit).base_fee)
          × ((adjust_after_block m gas_used gas_limit).base_fee ≤ m.max_base_fee)
    unfolding adjust_after_block
    adjust_after_block_bounds h n =
        let zero_test : (gas_limit == 0) ≡ false = ground arith in
        rw zero_test (enforce_bounds_bounds m.min_base_fee m.max_base_fee _ h)

  moved_fee_small :
      (base : ℕ) (d : W)
      → (flt (f.decimal 0 0) d ≡ true → f.trunc (f.mul d (f.decimal 10000 0)) ≤ 1250)
      → (flt d (f.decimal 0 0) ≡ true → f.trunc (f.mul (f.neg d) (f.decimal 10000 0)) ≤ 1250)
      → (moved_fee base d ≤ base + base / 8) × (base ≤ moved_fee base d + base / 8)
  unfolding moved_fee
  moved_fee_small base d up down = elim (Bool-cases (flt (f.decimal 0 0) d)) [
    | inl p ↦ let e = eighth base _ (up p) in rw p (omega (arith, e), omega (arith, e))
    | inr p ↦ rw p (elim (Bool-cases (flt d (f.decimal 0 0))) [
      | inl q ↦ let e = eighth base _ (down q) in rw q (omega (arith, e), omega (arith, e))
      | inr q ↦ rw q (omega arith, omega arith)
    ])
  ]

  -- The delta before it is clamped.
  abbrev raw_delta : DynamicFeeModel W → ℕ → ℕ → W
  raw_delta m gas_used gas_limit =
      f.div
        (f.sub
          (f.add (f.mul m.ema_alpha (f.div (f.of_nat gas_used) (f.of_nat gas_limit)))
            (f.mul (f.sub (f.decimal 1 0) m.ema_alpha) m.ema_gas_usage))
          m.target_gas_usage)
        m.target_gas_usage

  module _ (laws : IsIeee W) where
    clamp_delta-up :
        (delta : W)
        → flt (f.decimal 0 0) (clamp_delta delta) ≡ true
        → flt (f.decimal 125 3) (clamp_delta delta) ≡ false
    unfolding clamp_delta
    clamp_delta-up delta p = ground (
      arith,
      laws.neg_zero (f.neg (f.decimal 125 3)),
      laws.neg_neg (f.decimal 125 3),
      laws.zero_lt_eighth,
    )

    clamp_delta-down :
        (delta : W)
        → flt (clamp_delta delta) (f.decimal 0 0) ≡ true
        → flt (clamp_delta delta) (f.neg (f.decimal 125 3)) ≡ false
    unfolding clamp_delta
    clamp_delta-down delta p = ground (arith, laws.zero_lt_eighth)

    -- The change that the clamped delta makes is an eighth at most.
    moved_fee-clamp_delta :
        (base : ℕ) (delta : W)
        → (moved_fee base (clamp_delta delta) ≤ base + base / 8)
          × (base ≤ moved_fee base (clamp_delta delta) + base / 8)
    moved_fee-clamp_delta base delta =
        let c = clamp_delta delta in
        moved_fee_small base c (λ p. laws.trunc_eighth c p (clamp_delta-up delta p))
          (λ p.
            laws.trunc_eighth (f.neg c) (rw (laws.neg_zero c) at p)
              (laws.neg_eighth c ∙ clamp_delta-down delta p))

    -- From a base fee within its bounds, AdjustAfterBlock moves the base fee by at most an eighth
    -- of it, up or down.
    adjust_after_block_eighth :
        (m : DynamicFeeModel W) (gas_used gas_limit : ℕ)
        → m.min_base_fee ≤ m.base_fee
        → m.base_fee ≤ m.max_base_fee
        → ((adjust_after_block m gas_used gas_limit).base_fee ≤ m.base_fee + m.base_fee / 8)
          × (m.base_fee ≤ (adjust_after_block m gas_used gas_limit).base_fee + m.base_fee / 8)
    unfolding adjust_after_block enforce_bounds
    adjust_after_block_eighth m gas_used gas_limit low high =
        ground (arith, moved_fee-clamp_delta m.base_fee (raw_delta m gas_used gas_limit))

    adjust_after_block_within :
        (m : DynamicFeeModel W) (gas_used gas_limit : ℕ)
        → m.min_base_fee ≤ m.base_fee
        → m.base_fee ≤ m.max_base_fee
        → (m.min_base_fee ≤ (adjust_after_block m gas_used gas_limit).base_fee)
          × ((adjust_after_block m gas_used gas_limit).base_fee ≤ m.max_base_fee)
    unfolding adjust_after_block
    adjust_after_block_within m gas_used gas_limit low high = elim (Bool-cases (gas_limit == 0)) [
      | inl e ↦ rw e (low, high)
      | inr e ↦
          rw e (enforce_bounds_bounds m.min_base_fee m.max_base_fee _ (omega (arith, low, high)))
    ]

    -- From a base fee within its bounds, AdjustAfterBlock keeps the base fee within its bounds, and
    -- moves it by at most an eighth of it, up or down, whatever the gas limit.
    pub adjust_after_block_moves :
        (m : DynamicFeeModel W) (gas_used gas_limit : ℕ)
        → m.min_base_fee ≤ m.base_fee
        → m.base_fee ≤ m.max_base_fee
        → (m.min_base_fee ≤ (adjust_after_block m gas_used gas_limit).base_fee)
          × ((adjust_after_block m gas_used gas_limit).base_fee ≤ m.max_base_fee)
          × ((adjust_after_block m gas_used gas_limit).base_fee ≤ m.base_fee + m.base_fee / 8)
          × (m.base_fee ≤ (adjust_after_block m gas_used gas_limit).base_fee + m.base_fee / 8)
    adjust_after_block_moves m gas_used gas_limit low high =
        let within = adjust_after_block_within m gas_used gas_limit low high in
        let moved = adjust_after_block_eighth m gas_used gas_limit low high in
        (within.0, within.1, moved.0, moved.1)
