-- ===== src/Sizer.antt =====
-- internal/producer/adaptive.go: the adaptive block sizer. The `int` counts of transactions are 64-bit
-- words in two's complement, which `less_int` compares as signed numbers. A conversion of a float64
-- outside the range of `int` is up to the processor; here its value is taken modulo 2^64.
pub mod Bounds
use inso_sequencer.Base.{ℕ, ◌+◌, ◌-◌, ◌*◌, ◌/◌, ◌%◌, ◌^◌, Bool, ltb, ◌==◌, if◌then◌else◌}
use inso_sequencer.Float.{Float, flt}
use inso_sequencer.Word.{add64, sub64, mul64}

pub record AdaptiveBlockSizer (W : Type 0) : Type 0 where
  pub current_gas_limit : ℕ
  pub current_max_tx : ℕ
  pub min_gas_limit : ℕ
  pub max_gas_limit : ℕ
  pub min_max_tx : ℕ
  pub max_max_tx : ℕ
  pub utilization_ema : W
  pub alpha : W
  pub target_utilization : W
  pub adjust_step_bps : ℕ

pub record AdaptiveSizerConfig (W : Type 0) : Type 0 where
  pub min_gas_limit : ℕ
  pub max_gas_limit : ℕ
  pub initial_gas_limit : ℕ
  pub min_max_tx : ℕ
  pub max_max_tx : ℕ
  pub initial_max_tx : ℕ
  pub alpha : W
  pub target_utilization : W
  pub adjust_step_bps : ℕ

-- `a < b` for two values of `int`.
unfoldable pub less_int : ℕ → ℕ → Bool
less_int a b = ltb (add64 a (2 ^ 63)) (add64 b (2 ^ 63))

-- minInt and maxInt
unfoldable pub min_int : ℕ → ℕ → ℕ
unfolding less_int
min_int a b = if less_int a b then a else b

unfoldable pub max_int : ℕ → ℕ → ℕ
unfolding less_int
max_int a b = if less_int b a then a else b

-- min64 and max64
abbrev pub min_of : ℕ → ℕ → ℕ
min_of a b = if ltb a b then a else b

abbrev pub max_of : ℕ → ℕ → ℕ
max_of a b = if ltb b a then a else b

module _ {W : Type 0} ⦃f : Float W⦄ where
  pub default_config : AdaptiveSizerConfig W
  default_config = record {
    min_gas_limit = 15_000_000;
    max_gas_limit = 60_000_000;
    initial_gas_limit = 30_000_000;
    min_max_tx = 1_000;
    max_max_tx = 10_000;
    initial_max_tx = 5_000;
    alpha = f.decimal 2 1;
    target_utilization = f.decimal 5 1;
    adjust_step_bps = 500;
  }

  unfoldable pub new : AdaptiveSizerConfig W → AdaptiveBlockSizer W
  new c = record {
    current_gas_limit = c.initial_gas_limit;
    current_max_tx = c.initial_max_tx;
    min_gas_limit = c.min_gas_limit;
    max_gas_limit = c.max_gas_limit;
    min_max_tx = c.min_max_tx;
    max_max_tx = c.max_max_tx;
    utilization_ema = c.target_utilization;
    alpha = c.alpha;
    target_utilization = c.target_utilization;
    adjust_step_bps = c.adjust_step_bps;
  }

  -- The steps by which the gas limit and the count of transactions change.
  unfoldable pub gas_step : AdaptiveBlockSizer W → ℕ
  gas_step a = mul64 (sub64 a.max_gas_limit a.min_gas_limit) a.adjust_step_bps / 10000

  -- float64 of an `int`.
  unfoldable pub of_int : ℕ → W
  of_int n = if ltb n (2 ^ 63) then f.of_nat n else f.sub (f.of_nat 0) (f.of_nat (2 ^ 64 - n))

  unfoldable pub tx_step : AdaptiveBlockSizer W → ℕ
  unfolding of_int less_int
  tx_step a =
      let range = of_int (sub64 a.max_max_tx a.min_max_tx) in
      let step =
        f.trunc (f.div (f.mul range (f.of_nat a.adjust_step_bps)) (f.decimal 10000 0)) % 2 ^ 64 in
      if less_int step 1 then 1 else step

  unfoldable pub next_ema : AdaptiveBlockSizer W → ℕ → ℕ → W
  next_ema a gas_used gas_limit =
      f.add (f.mul a.alpha (f.div (f.of_nat gas_used) (f.of_nat gas_limit)))
        (f.mul (f.sub (f.decimal 1 0) a.alpha) a.utilization_ema)

  pub adjust_after_block : AdaptiveBlockSizer W → ℕ → ℕ → AdaptiveBlockSizer W
  unfolding min_int max_int
  adjust_after_block a gas_used gas_limit =
      let ema = next_ema a gas_used gas_limit in
      let step = gas_step a in
      let txs = tx_step a in
      let expanded = record a {
        utilization_ema = ema;
        current_gas_limit = min_of (add64 a.current_gas_limit step) a.max_gas_limit;
        current_max_tx = min_int (add64 a.current_max_tx txs) a.max_max_tx;
      } in
      let shrunk = record a {
        utilization_ema = ema;
        current_gas_limit = max_of (sub64 a.current_gas_limit step) a.min_gas_limit;
        current_max_tx = max_int (sub64 a.current_max_tx txs) a.min_max_tx;
      } in
      if gas_limit == 0
      then a
      else if flt (f.add a.target_utilization (f.decimal 1 1)) ema
      then expanded
      else if flt ema (f.sub a.target_utilization (f.decimal 1 1))
      then shrunk
      else record a { utilization_ema = ema }
