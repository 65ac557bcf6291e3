-- ===== src/Node.antt =====
-- cmd/sequencer/main.go: how the components are put together, and what happens while the node runs:
-- requests, rounds of production, submissions and checks of confirmations, in any order. Each of them
-- holds the locks of what it touches, so they are modelled as steps one after the other. The producer,
-- the batcher and the handler share the pool and the state manager, which stand in the producer here.
use inso_sequencer.Base.{ℕ, ◌*◌, Bool, Option, some, ◌>>=◌}
use inso_sequencer.Float.{Float}
use inso_sequencer.Types.{Batch}
use inso_sequencer.Config.{Config}
use inso_sequencer.StateStore.{TrieDb}
use inso_sequencer.Evm.{StateDb, Evm}
use inso_sequencer.Manager.{Manager}
use inso_sequencer.Lanes
use inso_sequencer.Lanes.{LanedMempool}
use inso_sequencer.Pool.{laned_pool}
use inso_sequencer.Fees
use inso_sequencer.Sizer
use inso_sequencer.Sizer.{AdaptiveBlockSizer}
use inso_sequencer.Receipts.{new_receipt_store}
use inso_sequencer.TasteScore
use inso_sequencer.TasteScore.{Client, ScoreResult}
use inso_sequencer.Producer.{Producer, Hashes, produce_block}
use inso_sequencer.Batcher
use inso_sequencer.Batcher.{
  Batcher, World, L1Client, Codec, Writes, submit_batch, check_confirmations,
}
use inso_sequencer.Rpc.Json.{Params}
use inso_sequencer.Rpc.Admission.{TxCodec, Answer, send_raw_transaction}

pub record Node (W D L : Type 0) : Type 0 where
  pub producer : Producer W (LanedMempool W) D
  pub tastescore : Option (Client W)
  pub batcher : Batcher
  pub l1 : L

module _ {W : Type 0} ⦃f : Float W⦄ where
  -- The block sizer that main attaches.
  unfoldable pub sizer_of : Config W → AdaptiveBlockSizer W
  sizer_of cfg = Sizer.new (record {
    min_gas_limit = cfg.adaptive_block.min_gas_limit;
    max_gas_limit = cfg.adaptive_block.max_gas_limit;
    initial_gas_limit = cfg.sequencer.max_block_gas;
    min_max_tx = cfg.adaptive_block.min_max_tx;
    max_max_tx = cfg.adaptive_block.max_max_tx;
    initial_max_tx = cfg.sequencer.max_tx_per_block;
    alpha = cfg.adaptive_block.alpha;
    target_utilization = cfg.adaptive_block.target_utilization;
    adjust_step_bps = cfg.adaptive_block.adjust_step_bps;
  })

  -- The components as main makes them of the configuration, the state manager and the L1 client.
  unfoldable pub new : {D L : Type 0} → Config W → Manager D → L → Node W D L
  unfolding sizer_of TasteScore.new
  new cfg m l1 = record {
    producer = record {
      max_tx_per_block = cfg.sequencer.max_tx_per_block;
      max_block_gas = cfg.sequencer.max_block_gas;
      pool = Lanes.new cfg.tastescore.ordering_weight (cfg.sequencer.max_tx_per_block * 10);
      manager = m;
      fee_model = Fees.new;
      sizer = some (sizer_of cfg);
      receipt_store = some new_receipt_store;
    };
    tastescore = some (TasteScore.new cfg.tastescore);
    batcher = Batcher.new cfg.sequencer.chain_id;
    l1 = l1;
  }

  -- A request of eth_sendRawTransaction.
  pub send :
      {D L : Type 0}
      → TxCodec
      → Params
      → ℕ
      → Option (ScoreResult W)
      → ℕ
      → ℕ
      → Node W D L
      → Option (Answer × Node W D L)
  send codec params before fetch after now n = do
    a ←
        send_raw_transaction laned_pool codec params n.producer.pool n.tastescore before fetch after
          now
    some (
      a.answer,
      record n { producer = record n.producer { pool = a.pool }; tastescore = a.tastescore },
    )

  -- A round of the producer.
  pub produce :
      {D L S : Type 0} ⦃db : StateDb S⦄ ⦃evm : Evm S⦄
      → TrieDb D S
      → Hashes
      → Bool
      → ℕ
      → ℕ
      → Node W D L
      → Option (Node W D L)
  produce trie hashes writes now tick n = do
    p ← produce_block laned_pool trie hashes writes now tick n.producer
    some (record n { producer = p })

  abbrev pub world : {D L : Type 0} → Node W D L → World D L
  world n = record { batcher = n.batcher; manager = n.producer.manager; l1 = n.l1 }

  abbrev pub with_world : {D L : Type 0} → Node W D L → World D L → Node W D L
  with_world n w = record n {
    producer = record n.producer { manager = w.manager };
    batcher = w.batcher;
    l1 = w.l1;
  }

  -- A round of the batcher, with the batch that it submits.
  pub submit :
      {D L : Type 0}
      → L1Client L
      → Codec
      → Writes
      → ℕ
      → Node W D L
      → Option (Option Batch × Node W D L)
  submit client k writes now n = do
    (b, w) ← submit_batch client k writes (world n) now
    some (b, with_world n w)

  unfoldable pub confirm : {D L : Type 0} → L1Client L → Node W D L → Node W D L
  confirm client n = with_world n (check_confirmations client (world n)).1
