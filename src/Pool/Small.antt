-- ===== src/Pool/Small.antt =====
-- Lists of transactions of small gas, for internal/mempool/pool.go and the code that uses a pool.
use mathlib.Core.List.{Mem, mem-cons, not-mem-nil}
use mathlib.Core.Logic.Or
use mathlib.Core.Bool.{Bool-set}
use inso_sequencer.Base.{
  ℕ, ◌+◌, ◌≤◌, ◌<◌, ◌≡◌, refl, Bool, true, List, [], ◌∷◌, ltb, if◌then◌else◌, sum_by, arith,
}
use inso_sequencer.Word.{u64_mod}
use inso_sequencer.Types.{Tx, TxMeta, compute_priority}
use inso_sequencer.Float.{Float}
use inso_sequencer.Queue.{IsNumbered}
use inso_sequencer.Mempool.{new_meta}
use inso_sequencer.Pool.{AllSmall, txs_of, AllFine}

-- One for each transaction whose gas is not small.
abbrev pub big : ℕ → Tx → ℕ
big limit t = if ltb (limit + t.gas) u64_mod then 0 else 1

pub AllSmall-big : (limit : ℕ) (ts : List Tx) → AllSmall limit ts → sum_by (big limit) ts ≡ 0
AllSmall-big limit [] a = refl
AllSmall-big limit (t ∷ ts) a = ground (arith, AllSmall-big limit ts a.1)

pub big-AllSmall : (limit : ℕ) (ts : List Tx) → sum_by (big limit) ts ≡ 0 → AllSmall limit ts
big-AllSmall limit [] e = tt
big-AllSmall limit (t ∷ ts) e = (ground arith, big-AllSmall limit ts (ground arith))

pub AllSmall-mem :
    (limit : ℕ) (ts : List Tx) (t : Tx)
    → AllSmall limit ts
    → Mem t ts
    → ltb (limit + t.gas) u64_mod ≡ true
AllSmall-mem limit [] t a m = absurd (not-mem-nil m)
AllSmall-mem limit (x ∷ ts) t a m =
    Or.elim (Bool-set _ _) (mem-cons.0 m) (λ e. rw e (ground arith))
      (λ n. AllSmall-mem limit ts t a.1 n)

pub big-txs_of :
    {W : Type 0} (limit : ℕ) (ms : List (TxMeta W))
    → sum_by (λ (m : TxMeta W). big limit m.tx) ms ≡ sum_by (big limit) (txs_of ms)
big-txs_of limit [] = refl
big-txs_of limit (m ∷ ms) = omega (arith, big-txs_of limit ms)

-- Of a list of entries none of which is big each is small.
pub big-mem :
    {W : Type 0} (limit : ℕ) (ms : List (TxMeta W)) (x : TxMeta W)
    → sum_by (λ (m : TxMeta W). big limit m.tx) ms ≡ 0
    → Mem x ms
    → ltb (limit + x.tx.gas) u64_mod ≡ true
big-mem limit [] x e m = absurd (not-mem-nil m)
big-mem limit (y ∷ ms) x e m =
    Or.elim (Bool-set _ _) (mem-cons.0 m) (λ same. rw same (ground arith))
      (λ n. big-mem limit ms x (ground arith) n)

-- A smaller limit leaves more room.
pub room :
    (limit gas_limit gas : ℕ)
    → gas_limit ≤ limit
    → ltb (limit + gas) u64_mod ≡ true
    → gas_limit + gas < u64_mod
room limit gas_limit gas le e = ground (arith, le, e)

pub new_meta-gas :
    {W : Type 0} ⦃f : Float W⦄ (limit : ℕ) (weight : W) (tx : Tx) (sender : ℕ) (score : W) (now : ℕ)
    → limit + tx.gas < u64_mod
    → limit + (new_meta weight tx sender score now).tx.gas < u64_mod
unfolding new_meta compute_priority
new_meta-gas limit weight tx sender score now h = h

-- One for each entry whose score is not proper.
abbrev pub improper : {W : Type 0} → (W → Bool) → TxMeta W → ℕ
improper proper m = if proper m.taste_score then 0 else 1

pub improper-AllFine :
    {W : Type 0} (proper : W → Bool) (ms : List (TxMeta W))
    → sum_by (improper proper) ms ≡ 0
    → AllFine (λ w. proper w ≡ true) ms
improper-AllFine proper [] e = tt
improper-AllFine proper (m ∷ ms) e = (ground arith, improper-AllFine proper ms (ground arith))

-- What the scores and the weight of a pool have to be for the priorities to be numbers: `proper` picks
-- such values, 0 among them. For float64 these are the numbers from 0 on that are not infinite.
pub record IsProper {W : Type 0} ⦃f : Float W⦄ (proper : W → Bool) : Type 0 where
  pub zero : proper (f.decimal 0 0) ≡ true
  pub numbered :
      (weight : W) (tx : Tx) (sender : ℕ) (score : W) (now : ℕ)
      → proper weight ≡ true
      → proper score ≡ true
      → IsNumbered (new_meta weight tx sender score now)
