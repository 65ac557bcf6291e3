-- ===== src/Fees/Discounts.antt =====
-- internal/fees/model.go: the discounted fee and its cache.
use inso_sequencer.Base.{ℕ, ◌+◌, ◌-◌, ◌*◌, ◌/◌, ◌^◌, ◌≤◌, ◌<◌, ◌≡◌, none, some, arith, get, get-put}
use inso_sequencer.Float.{Float}
use inso_sequencer.Word.{u64_mod, sub64}
use inso_sequencer.Fees.{
  DynamicFeeModel, DiscountEntry, Provider, get_cached_discount, discounted, effective_fee,
}

part_le : (base k : ℕ) → k ≤ 10000 → base * k / 10000 ≤ base
part_le base k h = let p : base * k ≤ base * 10000 = grind arith in omega (arith, p)

discounted_bounds :
    (base bps floor : ℕ)
    → bps ≤ 10000
    → floor ≤ base
    → (floor ≤ discounted base bps floor) × (discounted base bps floor ≤ base)
unfolding discounted
discounted_bounds base bps floor h low =
    let e : sub64 10000 bps ≡ 10000 - bps = omega arith in
    ground (arith, e, part_le base (sub64 10000 bps) (omega (arith, e)))

-- A discount above 10000 basis points, and below 2^16, wraps around: the fee is at least 2^50
-- times the base fee.
pub discounted_wraps :
    (base bps floor : ℕ) → 10000 < bps → bps < 2 ^ 16 → base * 2 ^ 50 ≤ discounted base bps floor
unfolding discounted
discounted_wraps base bps floor h k =
    let e : sub64 10000 bps ≡ u64_mod + 10000 - bps = omega arith in
    let p : base * (2 ^ 50 * 10000) ≤ base * sub64 10000 bps = grind (arith, e) in ground (arith, p)

module _ {W : Type 0} ⦃f : Float W⦄ where
  -- When the base fee is at least its minimum and the discount, cached or asked for, is at most 10000
  -- basis points, EffectiveFee lies between the minimum and the base fee.
  pub effective_fee_bounds :
      (m : DynamicFeeModel W) (sender : ℕ) (p : Provider) (now : ℕ)
      → m.min_base_fee ≤ m.base_fee
      → (get_cached_discount m sender p now).0 ≤ 10000
      → (m.min_base_fee ≤ (effective_fee m sender (some p) now).0)
        × ((effective_fee m sender (some p) now).0 ≤ m.base_fee)
  unfolding effective_fee
  effective_fee_bounds m sender p now low h =
      let b =
        discounted_bounds m.base_fee (get_cached_discount m sender p now).0 m.min_base_fee h low in
      ground (arith, b)

  -- A discount that the provider gives for an address not in the cache is returned, and is
  -- returned again while it is younger than its time to live, whatever provider is asked, with the
  -- cache as it was.
  discount_cached :
      (m : DynamicFeeModel W) (addr : ℕ) (provider other : Provider) (now later bps tier : ℕ)
      → get addr m.discount_cache ≡ none
      → provider addr ≡ some (bps, tier)
      → now ≤ later
      → later < now + m.discount_ttl
      → ((get_cached_discount m addr provider now).0 ≡ bps)
        × (get_cached_discount (get_cached_discount m addr provider now).1 addr other later
            ≡ (bps, (get_cached_discount m addr provider now).1))
  unfolding get_cached_discount
  discount_cached m addr provider other now later bps tier e p le lt =
      let entry : DiscountEntry = record { discount_bps = bps; tier = tier; cached_at = now } in
      ground (arith, get-put addr addr entry m.discount_cache)
