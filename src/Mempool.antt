-- ===== src/Mempool.antt =====
-- internal/mempool/mempool.go and errors.go: the pool with one queue. The lock is not modelled: each
-- method runs alone. The clock is an argument, `now`. `int` sizes are natural numbers; a negative
-- limit acts as 0. A method that pops or pushes may panic, `none`; the children show that none does.
pub mod Invariant
pub mod Weight
pub mod Removal
pub mod Batches
use inso_sequencer.Base.{
  ℕ, suc, ◌+◌, ◌-◌, Bool, List, [], ◌∷◌, Option, none, some, leb, ◌==◌, if◌then◌else◌, ◌>>=◌,
  length, get_elem?, contains, put, delete,
}
use inso_sequencer.Float.{Float}
use inso_sequencer.Types.{Tx, TxMeta, compute_priority}
use inso_sequencer.Heap
use inso_sequencer.Queue.{less, Drain, drain_loop}

pub data Error : Type 0 where
  already_known mempool_full invalid_sender nonce_too_low gas_too_low : Error

pub record Mempool (W : Type 0) : Type 0 where
  pub pending : List (TxMeta W)
  pub known : List (ℕ × Unit {0})
  pub sender_nonces : List (ℕ × ℕ)
  pub taste_score_weight : W
  pub max_size : ℕ

module _ {W : Type 0} ⦃f : Float W⦄ where
  -- `New`
  pub new : W → ℕ → Mempool W
  new weight max_size = record {
    pending = [];
    known = [];
    sender_nonces = [];
    taste_score_weight = weight;
    max_size = max_size;
  }

  -- The entry that `Add` makes for a transaction.
  unfoldable pub new_meta : W → Tx → ℕ → W → ℕ → TxMeta W
  new_meta weight tx sender taste_score now =
      compute_priority
        (record {
          tx = tx;
          taste_score = taste_score;
          priority = f.decimal 0 0;
          received_at = now;
          sender = sender;
          nonce = tx.nonce;
          gas_price = some tx.gas_price;
          gas_tip_cap = some tx.gas_tip_cap;
          gas_fee_cap = some tx.gas_fee_cap;
        })
        weight

  -- Returns the error, if any, with the pool.
  pub add : Mempool W → Tx → ℕ → W → ℕ → Option (Option Error × Mempool W)
  add m tx sender taste_score now =
      let insert_it : Option (Option Error × Mempool W) = do
        q ← Heap.push less m.pending (new_meta m.taste_score_weight tx sender taste_score now)
        some (none, record m { pending = q; known = put tx.hash tt m.known })
      in if contains tx.hash m.known
        then some (some already_known, m)
        else if leb m.max_size (length m.pending)
        then some (some mempool_full, m)
        else insert_it

  -- The entry is nil, `none`, if the pool is empty.
  pub pop : Mempool W → Option (Option (TxMeta W) × Mempool W)
  pop m =
      let take_it : Option (Option (TxMeta W) × Mempool W) = do
        (item, q) ← Heap.pop less m.pending
        some (some item, record m { pending = q; known = delete item.tx.hash m.known })
      in if length m.pending == 0 then some (none, m) else take_it

  pub peek : Mempool W → Option (TxMeta W)
  peek m = get_elem? m.pending 0

  pub pop_batch : Mempool W → ℕ → ℕ → Option (List (TxMeta W) × Mempool W)
  pop_batch m max_tx gas_limit = do
    s ←
        drain_loop (suc (length m.pending)) max_tx gas_limit
          (record { queue = m.pending; known = m.known; batch = []; gas_used = 0 })
    some (s.batch, record m { pending = s.queue; known = s.known })

  -- The index of the first entry with the hash, counted from `i`.
  unfoldable pub index_of : ℕ → List (TxMeta W) → ℕ → Option ℕ
  index_of h [] i = none
  index_of h (x ∷ q) i = if x.tx.hash == h then some i else index_of h q (suc i)

  -- The queue without the first entry of that hash.
  unfoldable pub remove_hash : ℕ → List (TxMeta W) → Option (List (TxMeta W))
  unfolding index_of
  remove_hash h q = elim (index_of h q 0) [
    | none ↦ some q
    | some i ↦ Heap.remove less q i >>= λ (x, rest). some rest
  ]

  pub remove : Mempool W → ℕ → Option (Mempool W)
  remove m h = do
    q ← remove_hash h m.pending
    some (record m { pending = q; known = delete h m.known })

  pub has : Mempool W → ℕ → Bool
  has m h = contains h m.known

  pub len : Mempool W → ℕ
  len m = length m.pending

  pub pending_snapshot : Mempool W → List (TxMeta W)
  pending_snapshot m = m.pending

  pub reset : Mempool W → Mempool W
  reset m = record m { pending = []; known = [] }
