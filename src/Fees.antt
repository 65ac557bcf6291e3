-- ===== src/Fees.antt =====
-- internal/fees/model.go: the base fee, and the discounts of the senders. A big.Int is a natural
-- number: a difference below zero would end at the floor, and so does one that stops at 0. The
-- clock is an argument, `now`, which never runs backwards; the sovereignty contract is an argument
-- too, `none` for its error.
pub mod Bounds
pub mod Discounts
use inso_sequencer.Base.{
  ℕ, ◌+◌, ◌-◌, ◌*◌, ◌/◌, Bool, List, [], Option, none, some, ltb, ◌==◌, if◌then◌else◌, get, put,
}
use inso_sequencer.Float.{Float, flt}
use inso_sequencer.Word.{sub64}

pub record DiscountEntry : Type 0 where
  pub discount_bps : ℕ
  pub tier : ℕ
  pub cached_at : ℕ

pub record DynamicFeeModel (W : Type 0) : Type 0 where
  pub base_fee : ℕ
  pub min_base_fee : ℕ
  pub max_base_fee : ℕ
  pub target_gas_usage : W
  pub ema_gas_usage : W
  pub ema_alpha : W
  pub discount_cache : List (ℕ × DiscountEntry)
  pub discount_ttl : ℕ

-- `SovereigntyProvider.GetFeeDiscount`: the discount in basis points with the tier, or an error.
abbrev pub Provider : Type 0
Provider = ℕ → Option (ℕ × ℕ)

pub discounted : ℕ → ℕ → ℕ → ℕ
discounted base bps floor =
    let effective = base * sub64 10000 bps / 10000 in
    if ltb effective floor then floor else effective

pub enforce_bounds : ℕ → ℕ → ℕ → ℕ
enforce_bounds low high fee =
    let raised = if ltb fee low then low else fee in if ltb high raised then high else raised

module _ {W : Type 0} ⦃f : Float W⦄ where
  -- `NewDynamicFeeModel`; 60 seconds are counted in nanoseconds.
  pub new : DynamicFeeModel W
  new = record {
    base_fee = 1_000_000_000;
    min_base_fee = 100_000_000;
    max_base_fee = 100_000_000_000;
    target_gas_usage = f.decimal 5 1;
    ema_gas_usage = f.decimal 5 1;
    ema_alpha = f.decimal 125 3;
    discount_cache = [];
    discount_ttl = 60_000_000_000;
  }

  -- Returns the discount, the tier, and the model; an error is the discount 0 that its caller reads.
  unfoldable pub get_cached_discount : DynamicFeeModel W → ℕ → Provider → ℕ → ℕ × DynamicFeeModel W
  get_cached_discount m addr provider now =
      let fresh : ℕ × DynamicFeeModel W = elim (provider addr) [
        | none ↦ (0, m)
        | some (bps, tier) ↦ (
          bps,
          record m {
            discount_cache =
                put addr (record { discount_bps = bps; tier = tier; cached_at = now })
                  m.discount_cache;
          },
        )
      ] in
      elim (get addr m.discount_cache) [
        | none ↦ fresh
        | some entry ↦
            if ltb (now - entry.cached_at) m.discount_ttl then (entry.discount_bps, m) else fresh
      ]

  -- Returns the fee, with the model.
  pub effective_fee : DynamicFeeModel W → ℕ → Option Provider → ℕ → ℕ × DynamicFeeModel W
  unfolding get_cached_discount discounted
  effective_fee m sender provider now = elim provider [
    | none ↦ (m.base_fee, m)
    | some p ↦
        let (bps, m') = get_cached_discount m sender p now in
        (if bps == 0 then m.base_fee else discounted m.base_fee bps m.min_base_fee, m')
  ]

  pub clamp_delta : W → W
  clamp_delta delta =
      if flt (f.decimal 125 3) delta
      then f.decimal 125 3
      else if flt delta (f.neg (f.decimal 125 3))
      then f.neg (f.decimal 125 3)
      else delta

  -- The base fee after a change by `delta`, before the bounds are enforced.
  pub moved_fee : ℕ → W → ℕ
  moved_fee base delta =
      if flt (f.decimal 0 0) delta
      then base + base * f.trunc (f.mul delta (f.decimal 10000 0)) / 10000
      else if flt delta (f.decimal 0 0)
      then base - base * f.trunc (f.mul (f.neg delta) (f.decimal 10000 0)) / 10000
      else base

  pub adjust_after_block : DynamicFeeModel W → ℕ → ℕ → DynamicFeeModel W
  unfolding clamp_delta moved_fee enforce_bounds
  adjust_after_block m gas_used gas_limit =
      let utilization = f.div (f.of_nat gas_used) (f.of_nat gas_limit) in
      let ema =
        f.add (f.mul m.ema_alpha utilization)
          (f.mul (f.sub (f.decimal 1 0) m.ema_alpha) m.ema_gas_usage) in
      let delta = clamp_delta (f.div (f.sub ema m.target_gas_usage) m.target_gas_usage) in
      let fee = enforce_bounds m.min_base_fee m.max_base_fee (moved_fee m.base_fee delta) in
      if gas_limit == 0 then m else record m { ema_gas_usage = ema; base_fee = fee }

  -- The discount and tier for display.
  pub get_discount : DynamicFeeModel W → ℕ → ℕ × ℕ
  get_discount m addr = elim (get addr m.discount_cache) [
    | none ↦ (0, 0)
    | some entry ↦ (entry.discount_bps, entry.tier)
  ]
