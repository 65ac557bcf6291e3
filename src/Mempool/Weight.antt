-- ===== src/Mempool/Weight.antt =====
-- internal/mempool/mempool.go: Add and PopBatch leave the weight of the scores as it is.
use inso_sequencer.Base.{
  ℕ, suc, ◌≡◌, refl, Bool, true, false, Option, none, some, leb, length, contains, if◌then◌else◌,
  ◌>>=◌,
}
use inso_sequencer.Float.{Float}
use inso_sequencer.Types.{Tx}
use inso_sequencer.Heap
use inso_sequencer.Queue.{less, drain_loop}
use inso_sequencer.Mempool.{Mempool, add, pop_batch}

-- What holds of the result, if there is one.
pub data AllOf {A : Type 0} (P : A → Type 0) : Option A → Type 0 where
  nothing : AllOf P none
  just : {a : A} → P a → AllOf P (some a)

pub AllOf-at : {A : Type 0} {P : A → Type 0} {a : A} → AllOf P (some a) → P a
AllOf-at (just p) = p

pub bind-AllOf :
    {A B : Type 0} {R : B → Type 0} (o : Option A) {next : A → Option B}
    → ((a : A) → AllOf R (next a))
    → AllOf R (o >>= next)
bind-AllOf none step = nothing
bind-AllOf (some a) step = step a

pub then-AllOf :
    {A B : Type 0} {P : A → Type 0} {R : B → Type 0} {o : Option A} {next : A → Option B}
    → AllOf P o
    → ((a : A) → P a → AllOf R (next a))
    → AllOf R (o >>= next)
then-AllOf nothing step = nothing
then-AllOf (just p) step = step _ p

pub if-AllOf :
    {A : Type 0} {P : A → Type 0} (b : Bool) {x y : Option A}
    → AllOf P x
    → AllOf P y
    → AllOf P (if b then x else y)
if-AllOf true p q = p
if-AllOf false p q = q

module _ {W : Type 0} ⦃f : Float W⦄ where
  pub add-weight :
      (m : Mempool W) (tx : Tx) (sender : ℕ) (score : W) (now : ℕ)
      → AllOf (λ r. r.1.taste_score_weight ≡ m.taste_score_weight) (add m tx sender score now)
  unfolding add
  add-weight m tx sender score now = if-AllOf (contains tx.hash m.known) (just refl) (
      if-AllOf (leb m.max_size (length m.pending)) (just refl)
        (bind-AllOf (Heap.push less m.pending _) λ q. just refl))

  pub pop_batch-weight :
      (m : Mempool W) (max_tx gas_limit : ℕ)
      → AllOf (λ r. r.1.taste_score_weight ≡ m.taste_score_weight) (pop_batch m max_tx gas_limit)
  unfolding pop_batch
  pop_batch-weight m max_tx gas_limit =
      bind-AllOf (drain_loop (suc (length m.pending)) max_tx gas_limit _) λ s. just refl
