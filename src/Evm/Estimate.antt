-- ===== src/Evm/Estimate.antt =====
-- internal/execution/evm.go: EstimateGas.
use native.Mathlib.Nat.{pow-suc}
use inso_sequencer.Base.{
  ℕ, zero, suc, ◌+◌, ◌-◌, ◌*◌, ◌/◌, ◌%◌, ◌^◌, ◌≤◌, ◌<◌, ◌≡◌, refl, ◌∙◌, ◌⊎◌, inl, inr, Bool, true,
  false, ltb, if◌then◌else◌, arith, Bool-cases, some,
}
use inso_sequencer.Word.{add64}
use inso_sequencer.Evm.{CallOutcome, search_gas, estimate_gas}

-- `g` is enough gas for the call, and the search cannot do with one unit less: that fails, or lies
-- at or below the start `lo`.
abbrev pub IsEstimate : (ℕ → CallOutcome) → ℕ → ℕ → ℕ → Type 0
IsEstimate call lo hi g =
    ((call g).failed ≡ false) × (g ≤ hi) × (((call (g - 1)).failed ≡ true) ⊎ (g ≤ lo + 1))

search_gas_step :
    (call : ℕ → CallOutcome) (k lo hi : ℕ)
    → search_gas call (suc k) lo hi ≡ (
        if ltb (add64 lo 1) hi
        then (if (call (add64 lo hi / 2)).failed
            then search_gas call k (add64 lo hi / 2) hi
            else search_gas call k lo (add64 lo hi / 2))
        else some hi)
unfolding search_gas
search_gas_step call k lo hi = refl

-- The lower end is the start, or a gas limit that fails.
abbrev IsLow : (ℕ → CallOutcome) → ℕ → ℕ → ℕ → Type 0
IsLow call start lo hi = (lo ≡ start) ⊎ (((call lo).failed ≡ true) × (lo < hi))

IsEstimate-stop :
    (call : ℕ → CallOutcome) (start lo hi top : ℕ)
    → hi ≤ top
    → top < 2 ^ 63
    → IsLow call start lo hi
    → lo < 2 ^ 63
    → ltb (add64 lo 1) hi ≡ false
    → (call hi).failed ≡ false
    → IsEstimate call start top hi
IsEstimate-stop call start lo hi top high word (inl e) low d right =
    (right, high, inr (let p : hi ≤ lo + 1 = ground arith in omega arith))
IsEstimate-stop call start lo hi top high word (inr (e, lt)) low d right =
    (right, high, inl (let p : hi - 1 ≡ lo = ground arith in rw p e))

search_gas-IsEstimate :
    (call : ℕ → CallOutcome) (k start lo hi top : ℕ)
    → hi - lo ≤ 2 ^ k
    → hi ≤ top
    → top < 2 ^ 63
    → lo < 2 ^ 63
    → IsLow call start lo hi
    → (call hi).failed ≡ false
    → (g : ℕ) × (search_gas call (suc k) lo hi ≡ some g) × IsEstimate call start top g
search_gas-IsEstimate call zero start lo hi top fuel high word low left right =
    let done : ltb (add64 lo 1) hi ≡ false = ground arith in
    (
      hi,
      search_gas_step call 0 lo hi ∙ rw done,
      IsEstimate-stop call start lo hi top high word left low done right,
    )
search_gas-IsEstimate call (suc k) start lo hi top fuel high word low left right =
    elim (Bool-cases (ltb (add64 lo 1) hi)) [
      | inr done ↦ (
        hi,
        search_gas_step call (suc k) lo hi ∙ rw done,
        IsEstimate-stop call start lo hi top high word left low done right,
      )
      | inl more ↦
          let mid = add64 lo hi / 2 in
          let lt : lo + 1 < hi = ground arith in
          let m : mid ≡ (lo + hi) / 2 = omega arith in
          let twice : 2 ^ suc k ≡ 2 * 2 ^ k = omega (arith, pow-suc 2 k) in
          elim (Bool-cases (call mid).failed) [
            | inl bad ↦
                let (g, e, r) =
                  search_gas-IsEstimate call k start mid hi top (omega (arith, m, twice)) high word
                    (omega (arith, m)) (inr (bad, omega (arith, m))) right in
                (g, search_gas_step call (suc k) lo hi ∙ rw (more, bad) e, r)
            | inr good ↦
                let (g, e, r) =
                  search_gas-IsEstimate call k start lo mid top (omega (arith, m, twice))
                    (omega (arith, m)) word low (low_end left (omega (arith, m))) good in
                (g, search_gas_step call (suc k) lo hi ∙ rw (more, good) e, r)
          ]
    ]
  where
    low_end : IsLow call start lo hi → lo < add64 lo hi / 2 → IsLow call start lo (add64 lo hi / 2)
    low_end (inl e) l = inl e
    low_end (inr (e, _)) l = inr (e, l)

-- When the gas limit is below 2^63 and the call succeeds at it, EstimateGas ends within its fuel
-- with a gas limit that is enough for the call and at most the given one, such that one unit less
-- fails or it is at most one above the lower end of the search.
pub estimate_gas-IsEstimate :
    (call : ℕ → CallOutcome) (creation : Bool) (gas_limit : ℕ)
    → gas_limit < 2 ^ 63
    → (call gas_limit).failed ≡ false
    → (g : ℕ) × (estimate_gas call creation gas_limit ≡ some g)
      × IsEstimate call (if creation then 53000 else 21000) gas_limit g
unfolding estimate_gas
estimate_gas-IsEstimate call creation gas_limit word right =
    let lo : ℕ = if creation then 53000 else 21000 in
    let small : lo < 2 ^ 63 = ground arith in
    let (g, e, r) =
      search_gas-IsEstimate call 63 lo lo gas_limit gas_limit (omega arith) (omega arith) word small
        (inl refl) right in
    (g, rw right e, r)

-- When the call fails at the gas limit, EstimateGas ends too, with a guess within the gas limit.
pub estimate_gas-failed :
    (call : ℕ → CallOutcome) (creation : Bool) (gas_limit : ℕ)
    → 3_000_000 ≤ gas_limit
    → (call gas_limit).failed ≡ true
    → (g : ℕ) × (estimate_gas call creation gas_limit ≡ some g) × (g ≤ gas_limit)
unfolding estimate_gas
estimate_gas-failed call creation gas_limit room wrong =
    let top = (call gas_limit).gas_used in
    let estimate = (top * 120) % 2 ^ 64 / 100 in
    let guess : ℕ =
      if ltb 0 top
      then if ltb gas_limit estimate then gas_limit else estimate
      else if creation
      then 3_000_000
      else 100_000 in
    let small : guess ≤ gas_limit = ground arith in (guess, rw wrong refl, small)
