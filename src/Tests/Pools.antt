-- ===== src/Tests/Pools.antt =====
-- internal/mempool, internal/fees and internal/producer on pools of two transactions.
use mathlib.Core.Bool.{Bool-set}
use mathlib.Core.List.{Mem, mem-cons, not-mem-nil}
use mathlib.Core.Logic.Or
use inso_sequencer.Base.{
  ℕ, ◌+◌, ◌<◌, ◌≡◌, refl, true, false, [], ◌∷◌, none, some, ltb, arith, Returns, get, ◌==◌,
  if◌then◌else◌,
}
use inso_sequencer.Float.Milli.{Milli, pos, milli_float, Milli-IsIeee}
use inso_sequencer.Word.{u64_mod}
use inso_sequencer.Types.{Tx, TxMeta}
use inso_sequencer.Queue.{IsQueue, occurs, less}
use inso_sequencer.Mempool
use inso_sequencer.Mempool.{Mempool, new_meta}
use inso_sequencer.Mempool.Invariant as MempoolInvariant
use inso_sequencer.Mempool.Invariant.{Added, Popped, add_correct, pop_pops}
use inso_sequencer.Mempool.Removal.{remove_removes}
use inso_sequencer.Mempool.Batches.{Batched, pop_batch_correct}
use inso_sequencer.Lanes
use inso_sequencer.Lanes.{
  Lane, fast, standard, slow, LanedMempool, lane_queue, classify_lane, total_len, pop_batch_laned,
}
use inso_sequencer.Lanes.Invariant as LanesInvariant
use inso_sequencer.Lanes.Invariant.{add_routes, in_lane, misrouted}
use inso_sequencer.Lanes.Batches.{IsSmall}
use inso_sequencer.Lanes.Removal.{IsRemoved, remove-IsRemoved}
use inso_sequencer.Lanes.Fills.{BatchedLaned, pop_batch_laned_correct}

abbrev a_tx : ℕ → ℕ → Tx
a_tx hash gas = record {
  hash = hash;
  nonce = 0;
  gas = gas;
  gas_price = 2_000_000_000;
  gas_tip_cap = 0;
  gas_fee_cap = 0;
  value = 0;
  to = some 5;
  payload = [];
  kind = 0;
}

abbrev entry : ℕ → ℕ → ℕ → ℕ → TxMeta Milli
entry hash gas priority score = record {
  tx = a_tx hash gas;
  taste_score = pos score;
  priority = pos priority;
  received_at = hash;
  sender = 1;
  nonce = 0;
  gas_price = none;
  gas_tip_cap = none;
  gas_fee_cap = none;
}

abbrev pool : Mempool Milli
pool = record {
  pending = entry 1 21_000 700 800 ∷ entry 2 50_000 300 400 ∷ [];
  known = (1, tt) ∷ (2, tt) ∷ [];
  sender_nonces = [];
  taste_score_weight = pos 500;
  max_size = 3;
}

pool-IsValid : MempoolInvariant.IsValid pool
unfolding less
pool-IsValid = record {
  queue = record { heap = λ c p q. let e : c ≡ 1 = omega arith in rw e refl; good = λ i. refl };
  known_eq = λ h. ground arith;
  bounded = omega arith;
}

pool-small : (x : TxMeta Milli) → Mem x pool.pending → 60_000 + x.tx.gas < u64_mod
pool-small x m =
    let e : ltb (60_000 + x.tx.gas) u64_mod ≡ true =
      Or.elim (Bool-set _ _) (mem-cons.0 m) (λ e. rw e refl)
        (λ t.
          Or.elim (Bool-set _ _) (mem-cons.0 t) (λ e. rw e refl) (λ n. absurd (not-mem-nil n))) in
    ground (arith, e)

pop_batch_correct_example : Returns (Batched pool 5 60_000) (Mempool.pop_batch pool 5 60_000)
pop_batch_correct_example = pop_batch_correct Milli-IsIeee pool 5 60_000 pool-IsValid pool-small

add_correct_example :
    Returns
      (Added pool (new_meta (pos 500) (a_tx 3 21_000) 7 (pos 600) 9))
      (Mempool.add pool (a_tx 3 21_000) 7 (pos 600) 9)
add_correct_example = add_correct Milli-IsIeee pool (a_tx 3 21_000) 7 (pos 600) 9 pool-IsValid refl

pop_pops_example : Returns (Popped pool) (Mempool.pop pool)
pop_pops_example = pop_pops Milli-IsIeee pool pool-IsValid

remove_removes_example :
    Returns
      (λ r.
        MempoolInvariant.IsValid r
        × (Mempool.has r 2 ≡ false)
        × ((j : ℕ) → occurs j r.pending ≡ (if 2 == j then 0 else occurs j pool.pending))
        × ((Mempool.has pool 2 ≡ false) → r.pending ≡ pool.pending))
      (Mempool.remove pool 2)
remove_removes_example = remove_removes Milli-IsIeee pool 2 pool-IsValid

abbrev pub laned : LanedMempool Milli
laned = record {
  fast_queue = entry 1 21_000 700 800 ∷ [];
  std_queue = entry 2 50_000 300 400 ∷ [];
  slow_queue = [];
  known = (1, fast) ∷ (2, standard) ∷ [];
  max_size = 3;
  taste_score_weight = pos 500;
}

laned-queues : (l : Lane) → IsQueue (lane_queue l laned)
laned-queues fast = record { heap = λ c p q. absurd (omega arith); good = λ i. refl }
laned-queues standard = record { heap = λ c p q. absurd (omega arith); good = λ i. refl }
laned-queues slow = record { heap = λ c p q. absurd (omega arith); good = λ i. refl }

laned-known : (l : Lane) (h : ℕ) → occurs h (lane_queue l laned) ≡ in_lane l (get h laned.known)
laned-known fast h = ground arith
laned-known standard h = ground arith
laned-known slow h = ground arith

laned-routed : (l : Lane) → misrouted l (lane_queue l laned) ≡ 0
unfolding classify_lane
laned-routed fast = refl
laned-routed standard = refl
laned-routed slow = refl

pub laned-IsValid : LanesInvariant.IsValid laned
unfolding total_len
laned-IsValid = record {
  queues = laned-queues;
  known_eq = laned-known;
  routed = laned-routed;
  bounded = omega arith;
}

small_one :
    (y x : TxMeta Milli)
    → ltb (60_000 + y.tx.gas) u64_mod ≡ true
    → Mem x (y ∷ [])
    → 60_000 + x.tx.gas < u64_mod
small_one y x h m =
    let e : ltb (60_000 + x.tx.gas) u64_mod ≡ true =
      Or.elim (Bool-set _ _) (mem-cons.0 m) (λ e. rw e h) (λ n. absurd (not-mem-nil n)) in
    ground (arith, e)

laned-IsSmall : IsSmall 60_000 laned
laned-IsSmall fast x m = small_one (entry 1 21_000 700 800) x refl m
laned-IsSmall standard x m = small_one (entry 2 50_000 300 400) x refl m
laned-IsSmall slow x m = absurd (not-mem-nil m)

pop_batch_laned_correct_example :
    Returns (BatchedLaned laned 5 60_000) (pop_batch_laned laned 5 60_000)
pop_batch_laned_correct_example =
    pop_batch_laned_correct laned 5 60_000 Milli-IsIeee (omega arith) laned-IsValid laned-IsSmall

add_routes_example :
    Returns
      (LanesInvariant.Added laned (new_meta (pos 500) (a_tx 3 21_000) 7 (pos 600) 9))
      (Lanes.add laned (a_tx 3 21_000) 7 (pos 600) 9)
add_routes_example = add_routes Milli-IsIeee laned (a_tx 3 21_000) 7 (pos 600) 9 laned-IsValid refl

remove-IsRemoved_example :
    Returns (IsRemoved Milli-IsIeee laned 2 laned-IsValid) (Lanes.remove laned 2)
remove-IsRemoved_example = remove-IsRemoved Milli-IsIeee laned 2 laned-IsValid
