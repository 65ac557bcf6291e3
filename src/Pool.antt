-- ===== src/Pool.antt =====
-- internal/mempool/pool.go: the interface of the pools, with the two pools that implement it.
pub mod Basic
pub mod Laned
pub mod Small
use inso_sequencer.Base.{ℕ, ◌+◌, ◌≤◌, ◌<◌, Bool, List, [], ◌∷◌, Option, none, some, Returns}
use inso_sequencer.Float.{Float}
use inso_sequencer.Word.{u64_mod}
use inso_sequencer.Types.{Tx, TxMeta}
use inso_sequencer.Mempool
use inso_sequencer.Mempool.{Mempool, Error}
use inso_sequencer.Lanes
use inso_sequencer.Lanes.{LanedMempool}

-- `TxPool`; a call that panics is `none`. The last argument of `add` is the clock.
pub record TxPool (W P : Type 0) : Type 0 where
  pub add : P → Tx → ℕ → W → ℕ → Option (Option Error × P)
  pub pop_batch : P → ℕ → ℕ → Option (List (TxMeta W) × P)
  pub len : P → ℕ
  pub pending : P → List (TxMeta W)
  pub has : P → ℕ → Bool

module _ {W : Type 0} ⦃f : Float W⦄ where
  abbrev pub basic_pool : TxPool W (Mempool W)
  basic_pool = record {
    add = Mempool.add;
    pop_batch = Mempool.pop_batch;
    len = Mempool.len;
    pending = Mempool.pending_snapshot;
    has = Mempool.has;
  }

  abbrev pub laned_pool : TxPool W (LanedMempool W)
  laned_pool = record {
    add = Lanes.add;
    pop_batch = Lanes.pop_batch;
    len = Lanes.len;
    pending = Lanes.pending;
    has = Lanes.has;
  }

-- The gas of each transaction leaves room for the gas of a block below 2^64.
abbrev pub AllSmall : ℕ → List Tx → Type 0
AllSmall limit [] = Unit {0}
AllSmall limit (t ∷ ts) = (limit + t.gas < u64_mod) × AllSmall limit ts

abbrev pub txs_of : {W : Type 0} → List (TxMeta W) → List Tx
txs_of [] = []
txs_of (m ∷ ms) = m.tx ∷ txs_of ms

-- Every entry has a fine score.
abbrev pub AllFine : {W : Type 0} → (W → Type 0) → List (TxMeta W) → Type 0
AllFine Fine [] = Unit {0}
AllFine Fine (m ∷ ms) = Fine m.taste_score × AllFine Fine ms

-- What a client of a pool relies on: a property `Valid` that a batch within `limit` and an added
-- transaction of small gas keep, in calls that return. A score is `Fine` if the pool can make a priority
-- of it; the scores of a batch are, and so is 0.
pub record IsPool {W P : Type 0} ⦃f : Float W⦄ (pool : TxPool W P) (limit : ℕ) : Type 1 where
  pub Valid : P → Type 0
  pub Fine : W → Type 0
  pub fine_zero : Fine (f.decimal 0 0)
  pub pop_keeps :
      (p : P) (max_tx gas_limit : ℕ)
      → gas_limit ≤ limit
      → Valid p
      → Returns
          (λ r. AllSmall limit (txs_of r.0) × AllFine Fine r.0 × Valid r.1)
          (pool.pop_batch p max_tx gas_limit)
  pub add_keeps :
      (p : P) (tx : Tx) (sender : ℕ) (score : W) (now : ℕ)
      → Valid p
      → Fine score
      → limit + tx.gas < u64_mod
      → Returns (λ r. Valid r.1) (pool.add p tx sender score now)
