-- ===== src/Metrics.antt =====
-- internal/metrics/metrics.go: the counters and gauges, and the lines that /metrics writes of them: the
-- name, the lane where there is one, and the value. The help texts and the server are left out. A gauge
-- never gets a negative value.
use Prim.Native.String.{String}
use inso_sequencer.Base.{ℕ, ◌/◌, List, [], ◌∷◌, Option, none, some, length}
use inso_sequencer.Word.{add64}
use inso_sequencer.Float.{Float}
use inso_sequencer.Types.{L2Block, Batch}
use inso_sequencer.Lanes.{LanedMempool, lane_sizes, total_len}
use inso_sequencer.Sizer.{AdaptiveBlockSizer}
use inso_sequencer.Receipts.{ReceiptStore, count}

pub record Metrics : Type 0 where
  pub block_height : ℕ
  pub blocks_produced : ℕ
  pub last_block_time : ℕ
  pub block_time_avg_ms : ℕ
  pub tx_processed : ℕ
  pub mempool_size : ℕ
  pub mempool_rejected : ℕ
  pub base_fee_gwei : ℕ
  pub gas_used_total : ℕ
  pub gas_limit_total : ℕ
  pub batches_submitted : ℕ
  pub last_batch_size : ℕ
  pub rpc_requests : ℕ
  pub rpc_errors : ℕ
  pub lane_fast_count : ℕ
  pub lane_std_count : ℕ
  pub lane_slow_count : ℕ
  pub lane_fast_gas : ℕ
  pub lane_std_gas : ℕ
  pub lane_slow_gas : ℕ
  pub adaptive_gas_limit : ℕ
  pub adaptive_max_tx : ℕ
  pub adaptive_utilization : ℕ
  pub receipts_generated : ℕ
  pub receipts_stored : ℕ
  pub taste_score_lookups : ℕ
  pub taste_score_average : ℕ
  pub ordering_proofs_generated : ℕ
  pub ordering_proofs_verified : ℕ
  pub da_blobs_published : ℕ
  pub da_blob_bytes_total : ℕ
  pub compliance_screens : ℕ
  pub compliance_flagged : ℕ

-- `New`
pub new : Metrics
new = record {
  block_height = 0;
  blocks_produced = 0;
  last_block_time = 0;
  block_time_avg_ms = 0;
  tx_processed = 0;
  mempool_size = 0;
  mempool_rejected = 0;
  base_fee_gwei = 0;
  gas_used_total = 0;
  gas_limit_total = 0;
  batches_submitted = 0;
  last_batch_size = 0;
  rpc_requests = 0;
  rpc_errors = 0;
  lane_fast_count = 0;
  lane_std_count = 0;
  lane_slow_count = 0;
  lane_fast_gas = 0;
  lane_std_gas = 0;
  lane_slow_gas = 0;
  adaptive_gas_limit = 0;
  adaptive_max_tx = 0;
  adaptive_utilization = 0;
  receipts_generated = 0;
  receipts_stored = 0;
  taste_score_lookups = 0;
  taste_score_average = 0;
  ordering_proofs_generated = 0;
  ordering_proofs_verified = 0;
  da_blobs_published = 0;
  da_blob_bytes_total = 0;
  compliance_screens = 0;
  compliance_flagged = 0;
}

-- A line of the page.
pub record Sample : Type 0 where
  pub name : String
  pub lane : Option String
  pub value : ℕ

sample : String → ℕ → Sample
sample name value = record { name = name; lane = none; value = value }

lane_sample : String → String → ℕ → Sample
lane_sample name lane value = record { name = name; lane = some lane; value = value }

pub handle_metrics : Metrics → List Sample
unfolding sample lane_sample
handle_metrics m =
    sample "inso_sequencer_block_height" m.block_height
    ∷ sample "inso_sequencer_blocks_produced_total" m.blocks_produced
    ∷ sample "inso_sequencer_block_time_avg_ms" m.block_time_avg_ms
    ∷ sample "inso_sequencer_tx_processed_total" m.tx_processed
    ∷ sample "inso_sequencer_mempool_size" m.mempool_size
    ∷ sample "inso_sequencer_mempool_rejected_total" m.mempool_rejected
    ∷ sample "inso_sequencer_base_fee_mgwei" m.base_fee_gwei
    ∷ sample "inso_sequencer_gas_used_total" m.gas_used_total
    ∷ sample "inso_sequencer_gas_limit_total" m.gas_limit_total
    ∷ sample "inso_sequencer_batches_submitted_total" m.batches_submitted
    ∷ sample "inso_sequencer_last_batch_size_bytes" m.last_batch_size
    ∷ sample "inso_sequencer_rpc_requests_total" m.rpc_requests
    ∷ sample "inso_sequencer_rpc_errors_total" m.rpc_errors
    ∷ lane_sample "inso_sequencer_lane_tx_count" "fast" m.lane_fast_count
    ∷ lane_sample "inso_sequencer_lane_tx_count" "standard" m.lane_std_count
    ∷ lane_sample "inso_sequencer_lane_tx_count" "slow" m.lane_slow_count
    ∷ lane_sample "inso_sequencer_lane_gas_total" "fast" m.lane_fast_gas
    ∷ lane_sample "inso_sequencer_lane_gas_total" "standard" m.lane_std_gas
    ∷ lane_sample "inso_sequencer_lane_gas_total" "slow" m.lane_slow_gas
    ∷ sample "inso_sequencer_adaptive_gas_limit" m.adaptive_gas_limit
    ∷ sample "inso_sequencer_adaptive_max_tx" m.adaptive_max_tx
    ∷ sample "inso_sequencer_adaptive_utilization_bps" m.adaptive_utilization
    ∷ sample "inso_sequencer_receipts_generated_total" m.receipts_generated
    ∷ sample "inso_sequencer_receipts_stored" m.receipts_stored
    ∷ sample "inso_tastescore_lookups_total" m.taste_score_lookups
    ∷ sample "inso_tastescore_average" m.taste_score_average
    ∷ sample "inso_ordering_proofs_generated_total" m.ordering_proofs_generated
    ∷ sample "inso_ordering_proofs_verified_total" m.ordering_proofs_verified
    ∷ sample "inso_da_blobs_published_total" m.da_blobs_published
    ∷ sample "inso_da_blob_bytes_total" m.da_blob_bytes_total
    ∷ sample "inso_compliance_screens_total" m.compliance_screens
    ∷ sample "inso_compliance_flagged_total" m.compliance_flagged
    ∷ []

-- What the producer sets after a block on the pool with lanes; `now` is the clock in milliseconds.
module _ {W : Type 0} ⦃f : Float W⦄ where
  with_sizer : Option (AdaptiveBlockSizer W) → Metrics → Metrics
  with_sizer none m = m
  with_sizer (some s) m = record m {
    adaptive_gas_limit = s.current_gas_limit;
    adaptive_max_tx = s.current_max_tx;
    adaptive_utilization = f.trunc (f.mul s.utilization_ema (f.decimal 10000 0));
  }

  pub record_block :
      ℕ → L2Block → ℕ → ℕ → LanedMempool W → ℕ → Option (AdaptiveBlockSizer W) → Metrics → Metrics
  unfolding with_sizer
  record_block number b gas_limit now pool base_fee sizer m =
      let (fast, standard, slow) = lane_sizes pool in
      with_sizer sizer (record m {
        block_height = number;
        blocks_produced = add64 m.blocks_produced 1;
        tx_processed = add64 m.tx_processed b.header.tx_count;
        gas_used_total = add64 m.gas_used_total b.header.gas_used;
        gas_limit_total = add64 m.gas_limit_total gas_limit;
        last_block_time = now;
        mempool_size = total_len pool;
        base_fee_gwei = base_fee / 1_000_000;
        lane_fast_count = fast;
        lane_std_count = standard;
        lane_slow_count = slow;
      })

-- What the producer sets after it has stored the receipts of a block.
pub record_receipts : L2Block → ReceiptStore → Metrics → Metrics
record_receipts b store m = record m {
  receipts_generated = add64 m.receipts_generated (length b.receipts);
  receipts_stored = count store;
}

-- What the batcher sets after a submission.
pub record_batch : Batch → Metrics → Metrics
record_batch b m = record m {
  batches_submitted = add64 m.batches_submitted 1;
  last_batch_size = b.size_bytes;
}
