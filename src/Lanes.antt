-- ===== src/Lanes.antt =====
-- internal/mempool/lanes.go: the pool with a queue for each execution lane. The same conventions as
-- in Mempool.antt.
pub mod Invariant
pub mod Weight
pub mod Batches
pub mod Fills
pub mod Removal
use inso_sequencer.Base.{
  ℕ, suc, ◌+◌, ◌-◌, ◌/◌, Bool, ◌&&◌, List, [], ◌∷◌, ◌++◌, Option, none, some, leb, ltb, ◌==◌,
  if◌then◌else◌, ◌>>=◌, length, contains, get, put, delete,
}
use inso_sequencer.Float.{Float, fle}
use inso_sequencer.Word.{add64, sub64, mul64}
use inso_sequencer.Types.{Tx, TxMeta}
use inso_sequencer.Heap
use inso_sequencer.Queue.{less, Drain, drain_loop}
use inso_sequencer.Mempool.{Error, new_meta, remove_hash}

pub data Lane : Type 0 where
  fast standard slow : Lane

abbrev pub fast_gas_bps : ℕ
fast_gas_bps = 4000

abbrev pub standard_gas_bps : ℕ
standard_gas_bps = 4000

abbrev pub slow_gas_bps : ℕ
slow_gas_bps = 2000

pub record LanedMempool (W : Type 0) : Type 0 where
  pub fast_queue : List (TxMeta W)
  pub std_queue : List (TxMeta W)
  pub slow_queue : List (TxMeta W)
  pub known : List (ℕ × Lane)
  pub max_size : ℕ
  pub taste_score_weight : W

-- What the two phases of PopBatchLaned change: the pool, the batch, and a count of gas.
pub record Fill (W : Type 0) : Type 0 where
  pub pool : LanedMempool W
  pub batch : List (TxMeta W)
  pub gas : ℕ

module _ {W : Type 0} ⦃f : Float W⦄ where
  -- `NewLanedMempool`
  unfoldable pub new : W → ℕ → LanedMempool W
  new weight max_size = record {
    fast_queue = [];
    std_queue = [];
    slow_queue = [];
    known = [];
    max_size = max_size;
    taste_score_weight = weight;
  }

  unfoldable pub classify_lane : W → Lane
  classify_lane score =
      if fle (f.decimal 65 2) score
      then fast
      else if fle (f.decimal 15 2) score
      then standard
      else slow

  -- The queue of a lane, and the pool with another queue there.
  abbrev pub lane_queue : Lane → LanedMempool W → List (TxMeta W)
  lane_queue fast m = m.fast_queue
  lane_queue standard m = m.std_queue
  lane_queue slow m = m.slow_queue

  abbrev pub with_queue : Lane → LanedMempool W → List (TxMeta W) → LanedMempool W
  with_queue fast m q = record m { fast_queue = q }
  with_queue standard m q = record m { std_queue = q }
  with_queue slow m q = record m { slow_queue = q }

  unfoldable pub total_len : LanedMempool W → ℕ
  total_len m = length m.fast_queue + length m.std_queue + length m.slow_queue

  -- Returns the error, if any, with the pool.
  pub add : LanedMempool W → Tx → ℕ → W → ℕ → Option (Option Error × LanedMempool W)
  add m tx sender taste_score now =
      let lane = classify_lane taste_score in
      let insert_it : Option (Option Error × LanedMempool W) = do
        q ←
            Heap.push less (lane_queue lane m)
              (new_meta m.taste_score_weight tx sender taste_score now)
        some (none, record (with_queue lane m q) { known = put tx.hash lane m.known })
      in if contains tx.hash m.known
        then some (some Error.already_known, m)
        else if leb m.max_size (total_len m)
        then some (some Error.mempool_full, m)
        else insert_it

  -- Returns the batch, its gas, and the pool.
  pub drain_lane : Lane → LanedMempool W → ℕ → ℕ → Option (List (TxMeta W) × ℕ × LanedMempool W)
  drain_lane lane m max_tx gas_limit = do
    let q = lane_queue lane m
    s ←
        drain_loop (suc (length q)) max_tx gas_limit
          (record { queue = q; known = m.known; batch = []; gas_used = 0 })
    some (s.batch, s.gas_used, record (with_queue lane m s.queue) { known = s.known })

  -- Phase 1: a lane up to its allocation; `gas` is what the batch uses.
  pub fill_lane : ℕ → Lane → ℕ → Fill W → Option (Fill W)
  fill_lane max_tx lane allocation s = do
    (part, used, pool) ← drain_lane lane s.pool (max_tx - length s.batch) allocation
    some (record { pool = pool; batch = s.batch ++ part; gas = add64 s.gas used })

  -- Phase 2: a lane up to the gas that remains, which `gas` counts.
  pub fill_rest : ℕ → Lane → Fill W → Option (Fill W)
  fill_rest max_tx lane s =
      let more : Option (Fill W) = do
        (part, used, pool) ← drain_lane lane s.pool (max_tx - length s.batch) s.gas
        some (record { pool = pool; batch = s.batch ++ part; gas = sub64 s.gas used })
      in if ltb 0 s.gas && ltb (length s.batch) max_tx then more else some s

  pub pop_batch_laned : LanedMempool W → ℕ → ℕ → Option (List (TxMeta W) × LanedMempool W)
  unfolding fill_lane fill_rest
  pop_batch_laned m max_tx gas_limit = do
    let start : Fill W = record { pool = m; batch = []; gas = 0 }
    s1 ← fill_lane max_tx fast (mul64 gas_limit fast_gas_bps / 10000) start
    s2 ← fill_lane max_tx standard (mul64 gas_limit standard_gas_bps / 10000) s1
    s3 ← fill_lane max_tx slow (mul64 gas_limit slow_gas_bps / 10000) s2
    s4 ← fill_rest max_tx fast (record s3 { gas = sub64 gas_limit s3.gas })
    s5 ← fill_rest max_tx standard s4
    s6 ← fill_rest max_tx slow s5
    some (s6.batch, s6.pool)

  pub len : LanedMempool W → ℕ
  unfolding total_len
  len m = total_len m

  pub lane_sizes : LanedMempool W → ℕ × ℕ × ℕ
  lane_sizes m = (length m.fast_queue, length m.std_queue, length m.slow_queue)

  pub has : LanedMempool W → ℕ → Bool
  has m h = contains h m.known

  pub reset : LanedMempool W → LanedMempool W
  reset m = record m { fast_queue = []; std_queue = []; slow_queue = []; known = [] }

  unfoldable pub pop_batch : LanedMempool W → ℕ → ℕ → Option (List (TxMeta W) × LanedMempool W)
  unfolding pop_batch_laned
  pop_batch m max_tx gas_limit = pop_batch_laned m max_tx gas_limit

  pub pending : LanedMempool W → List (TxMeta W)
  pending m = m.fast_queue ++ (m.std_queue ++ m.slow_queue)

  pub remove : LanedMempool W → ℕ → Option (LanedMempool W)
  remove m h = elim (get h m.known) [
    | none ↦ some m
    | some lane ↦ remove_hash h (lane_queue lane m) >>= λ q.
        some (record (with_queue lane m q) { known = delete h m.known })
  ]
