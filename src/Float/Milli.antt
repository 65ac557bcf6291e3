-- ===== src/Float/Milli.antt =====
-- Numbers in thousandths: a type in which the laws of Float.antt hold, on which tests run.
use inso_sequencer.Base.{
  ℕ, ◌+◌, ◌-◌, ◌*◌, ◌/◌, ◌^◌, ◌≤◌, ◌≡◌, refl, true, false, leb, if◌then◌else◌, arith,
}
use inso_sequencer.Float.{Float, IsIeee, flt}

pub data Milli : Type 0 where
  pos : ℕ → Milli
  minus : ℕ → Milli

-- The place of zero among the keys; numbers further below zero than this share one key.
abbrev zero_key : ℕ
zero_key = 1_000_000_000_000

abbrev milli_key : Milli → ℕ
milli_key (pos n) = zero_key + n
milli_key (minus n) = zero_key - n

abbrev difference : ℕ → ℕ → Milli
difference a b = if leb b a then pos (a - b) else minus (b - a)

abbrev milli_neg : Milli → Milli
milli_neg (pos n) = minus n
milli_neg (minus n) = pos n

abbrev milli_add : Milli → Milli → Milli
milli_add (pos a) (pos b) = pos (a + b)
milli_add (pos a) (minus b) = difference a b
milli_add (minus a) (pos b) = difference b a
milli_add (minus a) (minus b) = minus (a + b)

abbrev by_size : (ℕ → ℕ → ℕ) → Milli → Milli → Milli
by_size op (pos a) (pos b) = pos (op a b)
by_size op (pos a) (minus b) = minus (op a b)
by_size op (minus a) (pos b) = minus (op a b)
by_size op (minus a) (minus b) = pos (op a b)

abbrev size : Milli → ℕ
size (pos n) = n
size (minus n) = n

instance abbrev pub milli_float : Float Milli
milli_float = record {
  key = milli_key;
  is_nan = λ _. false;
  decimal = λ m e. pos (m * 1000 / 10 ^ e);
  of_nat = λ n. pos (n * 1000);
  trunc = λ x. size x / 1000;
  big_ratio = λ a b. pos (a * 1000 / b);
  add = milli_add;
  sub = λ x y. milli_add x (milli_neg y);
  mul = by_size (λ a b. a * b / 1000);
  div = by_size (λ a b. a * 1000 / b);
  neg = milli_neg;
}

neg_neg : (x : Milli) → milli_neg (milli_neg x) ≡ x
neg_neg (pos n) = refl
neg_neg (minus n) = refl

neg_zero : (x : Milli) → flt x (pos 0) ≡ flt (pos 0) (milli_neg x)
neg_zero (pos n) = ground arith
neg_zero (minus n) = ground arith

neg_eighth : (x : Milli) → flt (pos 125) (milli_neg x) ≡ flt x (minus 125)
neg_eighth (pos n) = ground arith
neg_eighth (minus n) = ground arith

trunc_eighth :
    (x : Milli)
    → flt (pos 0) x ≡ true
    → flt (pos 125) x ≡ false
    → size (by_size (λ a b. a * b / 1000) x (pos 10_000_000)) / 1000 ≤ 1250
trunc_eighth (pos n) p e = ground arith
trunc_eighth (minus n) p e = absurd (ground arith)

pub Milli-IsIeee : IsIeee Milli
Milli-IsIeee = record {
  decimal_number = λ m e. refl;
  neg_neg = neg_neg;
  neg_eighth = neg_eighth;
  zero_lt_eighth = refl;
  neg_zero = neg_zero;
  trunc_eighth = trunc_eighth;
}
