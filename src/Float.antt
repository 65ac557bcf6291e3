-- ===== src/Float.antt =====
-- Go's float64, as the code uses it: a type `W` with the operations below. A comparison is that of
-- the places `key` of two numbers in the order of the floats; every comparison with NaN is false.
pub mod Milli
use inso_sequencer.Base.{ℕ, ◌≤◌, ◌≡◌, Bool, true, false, ◌&&◌, not, ltb, leb, ◌==◌}

pub record Float (W : Type 0) : Type 0 where
  pub key : W → ℕ
  pub is_nan : W → Bool
  -- `decimal m e` is the constant m / 10^e, rounded.
  pub decimal : ℕ → ℕ → W
  -- The conversions float64(n) and int64(x), for n and x at least 0.
  pub of_nat : ℕ → W
  pub trunc : W → ℕ
  -- The quotient of two positive whole numbers by math/big, as a float64.
  pub big_ratio : ℕ → ℕ → W
  pub add : W → W → W
  pub sub : W → W → W
  pub mul : W → W → W
  pub div : W → W → W
  pub neg : W → W

module _ {W : Type 0} ⦃f : Float W⦄ where
  abbrev both_numbers : W → W → Bool
  both_numbers x y = not (f.is_nan x) && not (f.is_nan y)

  -- x < y
  abbrev pub flt : W → W → Bool
  flt x y = both_numbers x y && ltb (f.key x) (f.key y)

  -- x <= y
  abbrev pub fle : W → W → Bool
  fle x y = both_numbers x y && leb (f.key x) (f.key y)

  -- x == y
  abbrev pub feq : W → W → Bool
  feq x y = both_numbers x y && (f.key x == f.key y)

-- What IEEE 754 says of the constants, which are numbers, and of the sign.
pub record IsIeee (W : Type 0) ⦃f : Float W⦄ : Type 0 where
  pub decimal_number : (m e : ℕ) → f.is_nan (f.decimal m e) ≡ false
  pub neg_neg : (x : W) → f.neg (f.neg x) ≡ x
  pub neg_eighth : (x : W) → flt (f.decimal 125 3) (f.neg x) ≡ flt x (f.neg (f.decimal 125 3))
  pub zero_lt_eighth : flt (f.decimal 0 0) (f.decimal 125 3) ≡ true
  pub neg_zero : (x : W) → flt x (f.decimal 0 0) ≡ flt (f.decimal 0 0) (f.neg x)
  -- Scaling by 10000 and cutting off is monotone, and exact at 0.125.
  pub trunc_eighth :
      (x : W)
      → flt (f.decimal 0 0) x ≡ true
      → flt (f.decimal 125 3) x ≡ false
      → f.trunc (f.mul x (f.decimal 10000 0)) ≤ 1250
