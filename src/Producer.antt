-- ===== src/Producer.antt =====
-- internal/producer/producer.go: produceBlock, over any pool. The ticker, the log and the metrics are
-- not modelled. `writes` says whether the chain database takes the block, `now` is the clock in
-- seconds and `tick` the pool's. A panic is `none`.
pub mod Production
use inso_sequencer.Base.{
  ℕ, zero, suc, ◌+◌, ◌-◌, ◌%◌, ◌^◌, Bool, List, [], ◌∷◌, Option, none, some, ◌==◌, if◌then◌else◌,
  ◌>>=◌, get_elem?, ltb, length,
}
use inso_sequencer.Float.{Float}
use inso_sequencer.Types.{Tx, TxMeta, Receipt, L2Block}
use inso_sequencer.StateStore.{TrieDb}
use inso_sequencer.Evm.{StateDb, Evm}
use inso_sequencer.Manager.{Manager, Outcome, execute_and_commit_block, get_block_hash}
use inso_sequencer.Fees
use inso_sequencer.Fees.{DynamicFeeModel}
use inso_sequencer.Sizer
use inso_sequencer.Sizer.{AdaptiveBlockSizer}
use inso_sequencer.Receipts.{ReceiptStore, Preimage, create_receipt, store}
use inso_sequencer.Pool.{TxPool, txs_of}

pub record Producer (W P D : Type 0) : Type 0 where
  pub max_tx_per_block : ℕ
  pub max_block_gas : ℕ
  pub pool : P
  pub manager : Manager D
  pub fee_model : DynamicFeeModel W
  pub sizer : Option (AdaptiveBlockSizer W)
  pub receipt_store : Option ReceiptStore

-- The hash functions of the compute receipts, and the sender of a transaction, zero for an error.
pub record Hashes : Type 0 where
  pub sha : Preimage → ℕ
  pub keccak : List ℕ → ℕ
  pub logs_hash : List ℕ → ℕ
  pub sender : Tx → ℕ

-- The number of transactions and the gas that the batch may have. A negative `int`, from 2^63 on, is a
-- limit under which no transaction is taken.
unfoldable pub limits : {W : Type 0} → Option (AdaptiveBlockSizer W) → ℕ → ℕ → ℕ × ℕ
limits none max_tx gas = (max_tx, gas)
limits (some s) max_tx gas =
    (if ltb s.current_max_tx (2 ^ 63) then s.current_max_tx else 0, s.current_gas_limit)

-- The first entry of the batch with the hash of a skipped transaction.
find_meta : {W : Type 0} → ℕ → List (TxMeta W) → Option (TxMeta W)
find_meta h [] = none
find_meta h (m ∷ ms) = if m.tx.hash == h then some m else find_meta h ms

module _ {W P : Type 0} ⦃f : Float W⦄ (pool : TxPool W P) where
  -- Every transaction goes back without its sender and its score; errors are dropped.
  pub return_all : ℕ → List Tx → P → Option P
  return_all tick [] p = some p
  return_all tick (t ∷ ts) p =
      pool.add p t 0 (f.decimal 0 0) tick >>= λ (e, q). return_all tick ts q

  return_one : ℕ → Tx → Option (TxMeta W) → P → Option P
  return_one tick t none p = some p
  return_one tick t (some m) p = pool.add p t m.sender m.taste_score tick >>= λ (e, q). some q

  pub return_skipped : ℕ → List (TxMeta W) → List Tx → P → Option P
  unfolding find_meta return_one
  return_skipped tick metas [] p = some p
  return_skipped tick metas (t ∷ ts) p =
      return_one tick t (find_meta t.hash metas) p >>= λ q. return_skipped tick metas ts q

-- The compute receipts of a block, from the index `i` on; an index past the transactions panics.
pub store_receipts :
    Hashes → L2Block → ℕ → ℕ → ℕ → ℕ → List Receipt → ReceiptStore → Option ReceiptStore
store_receipts h b number pre now i [] rs = some rs
store_receipts h b number pre now i (r ∷ more) rs = do
  tx ← get_elem? b.transactions i
  let cr =
      create_receipt h.sha h.keccak h.logs_hash tx r number i (h.sender tx) pre b.header.state_root
        [] now
  store_receipts h b number pre now (suc i) more (store rs cr)

pub keep_receipts :
    Hashes → L2Block → ℕ → ℕ → ℕ → Option ReceiptStore → Option (Option ReceiptStore)
unfolding store_receipts
keep_receipts h b number pre now none = some none
keep_receipts h b number pre now (some rs) =
    let stored : Option (Option ReceiptStore) = do
      kept ← store_receipts h b number pre now 0 b.receipts rs
      some (some kept)
    in if ltb 0 (length b.transactions) then stored else some (some rs)

unfoldable pub adjust_sizer :
    {W : Type 0} ⦃f : Float W⦄
    → ℕ
    → ℕ
    → Option (AdaptiveBlockSizer W)
    → Option (AdaptiveBlockSizer W)
adjust_sizer gas_used gas_limit none = none
adjust_sizer gas_used gas_limit (some s) = some (Sizer.adjust_after_block s gas_used gas_limit)

module _ {W P D S : Type 0} ⦃f : Float W⦄ ⦃db : StateDb S⦄ ⦃evm : Evm S⦄ (pool : TxPool W P)
    (trie : TrieDb D S) (hashes : Hashes) where
  -- What follows the execution of the batch; `m` is the manager after it.
  pub finish :
      ℕ
      → ℕ
      → ℕ
      → ℕ
      → List (TxMeta W)
      → P
      → Producer W P D
      → Manager D
      → List Tx
      → Option L2Block
      → Option (Producer W P D)
  unfolding return_all return_skipped keep_receipts adjust_sizer
  finish tick now gas_limit number metas left p m skipped none = do
    q ← return_all pool tick (txs_of metas) left
    some (record p { pool = q; manager = m })
  finish tick now gas_limit number metas left p m skipped (some b) = do
    q ← return_skipped pool tick metas skipped left
    kept ← keep_receipts hashes b number p.manager.state_root now p.receipt_store
    some (record p {
      pool = q;
      manager = m;
      fee_model = Fees.adjust_after_block p.fee_model b.header.gas_used gas_limit;
      sizer = adjust_sizer b.header.gas_used gas_limit p.sizer;
      receipt_store = kept;
    })

  pub produce_block : Bool → ℕ → ℕ → Producer W P D → Option (Producer W P D)
  unfolding finish limits
  produce_block writes now tick p = do
    let (max_tx, gas_limit) = limits p.sizer p.max_tx_per_block p.max_block_gas
    (metas, left) ← pool.pop_batch p.pool max_tx gas_limit
    let number = (p.manager.current_block + 1) % 2 ^ 64
    parent ← get_block_hash p.manager ((number + 2 ^ 64 - 1) % 2 ^ 64)
    let (o, m) =
        execute_and_commit_block trie writes p.manager (txs_of metas) number now parent
          p.fee_model.base_fee
    finish tick now gas_limit number metas left p m o.skipped o.block
