-- ===== src/Tests/Chain.antt =====
-- internal/execution, internal/fees, internal/producer and internal/tastescore on small inputs.
use mathlib.Core.Bool.{Bool-set}
use mathlib.Core.List.{Mem, mem-cons, not-mem-nil}
use mathlib.Core.Logic.Or
use inso_sequencer.Base.{
  ◌⊎◌, List, ℕ, ◌+◌, ◌-◌, ◌*◌, ◌/◌, ◌^◌, ◌≤◌, ◌<◌, ◌≡◌, refl, true, [], ◌∷◌, none, some, ltb, arith,
}
use inso_sequencer.Float.Milli.{Milli, pos, milli_float, Milli-IsIeee}
use inso_sequencer.Word.{u64_mod}
use inso_sequencer.Types.{Tx, Batch, pending}
use inso_sequencer.Fees
use inso_sequencer.Fees.{DynamicFeeModel, Provider, get_cached_discount, effective_fee, discounted}
use inso_sequencer.Fees.Bounds.{adjust_after_block_moves}
use inso_sequencer.Fees.Discounts.{effective_fee_bounds, discounted_wraps}
use inso_sequencer.Sizer
use inso_sequencer.Sizer.{tx_step, AdaptiveBlockSizer, gas_step, next_ema}
use inso_sequencer.Sizer.Bounds.{
  IsSized, IsTame, adjust_after_block-IsSized, adjust_after_block_wraps,
}
use inso_sequencer.Merkle.{merkle_root, levels, next_level}
use inso_sequencer.Merkle.Binding.{Collision, merkle_root-binding}
use inso_sequencer.Evm.{
  BlockContext, ExecutionContext, CallOutcome, apply_transaction, execute_transactions,
}
use inso_sequencer.Evm.Transaction.{Sound, apply_transaction-Sound}
use inso_sequencer.Evm.Block.{Accounts, execute_transactions-Accounts}
use inso_sequencer.ChainDb.{foreign, batch, read_block, write_batch}
use inso_sequencer.ChainDb.Store.{write_batch_overwrites}
use inso_sequencer.Receipts.{ComputeReceipt, Preimage, create_receipt}
use inso_sequencer.Tests.Toys.{model, toy_state, toy_evm, toy_laws, a_tx, a_receipt, empty_db}
use inso_sequencer.TasteScore.{
  Client, ScoreResult, gold, fresh, get_score_result, with_score, get_score_result_caches,
}

abbrev gives_500 : Provider
gives_500 _ = some (500, 1)

adjust_after_block_moves_example :
    (100_000_000 ≤ (Fees.adjust_after_block model 20_000 30_000).base_fee)
    × ((Fees.adjust_after_block model 20_000 30_000).base_fee ≤ 100_000_000_000)
    × ((Fees.adjust_after_block model 20_000 30_000).base_fee ≤ 1_000_000_000 + 1_000_000_000 / 8)
    × (1_000_000_000 ≤ (Fees.adjust_after_block model 20_000 30_000).base_fee + 1_000_000_000 / 8)
adjust_after_block_moves_example =
    adjust_after_block_moves Milli-IsIeee model 20_000 30_000 (omega arith) (omega arith)

gives_500_small : (get_cached_discount model 7 gives_500 3).0 ≤ 10000
unfolding get_cached_discount
gives_500_small = omega arith

effective_fee_bounds_example :
    (100_000_000 ≤ (effective_fee model 7 (some gives_500) 3).0)
    × ((effective_fee model 7 (some gives_500) 3).0 ≤ 1_000_000_000)
effective_fee_bounds_example =
    effective_fee_bounds model 7 gives_500 3 (omega arith) gives_500_small

discounted_wraps_example : 1_000 * 2 ^ 50 ≤ discounted 1_000 10_001 100
discounted_wraps_example = discounted_wraps 1_000 10_001 100 (omega arith) (omega arith)

abbrev sizer : ℕ → AdaptiveBlockSizer Milli
sizer bps = record {
  current_gas_limit = 30_000_000;
  current_max_tx = 5_000;
  min_gas_limit = 15_000_000;
  max_gas_limit = 60_000_000;
  min_max_tx = 1_000;
  max_max_tx = 10_000;
  utilization_ema = pos 500;
  alpha = pos 900;
  target_utilization = pos 500;
  adjust_step_bps = bps;
}

sizer-IsTame : IsTame (sizer 500)
unfolding gas_step tx_step
sizer-IsTame = record {
  no_overflow = omega arith;
  no_underflow = omega arith;
  no_tx_overflow = omega arith;
}

sizer-IsSized : IsSized (sizer 500)
sizer-IsSized = record {
  gas_low = omega arith;
  gas_high = omega arith;
  tx_low = omega arith;
  tx_high = omega arith;
}

adjust_after_block-IsSized_example :
    IsSized (Sizer.adjust_after_block (sizer 500) 30_000 30_000)
    × IsTame (Sizer.adjust_after_block (sizer 500) 30_000 30_000)
adjust_after_block-IsSized_example =
    adjust_after_block-IsSized (sizer 500) 30_000 30_000 sizer-IsTame sizer-IsSized

adjust_after_block_wraps_example :
    ((Sizer.adjust_after_block (sizer 9_000) 0 30_000).current_gas_limit
      ≡ 30_000_000 + u64_mod - gas_step (sizer 9_000))
    × (60_000_000 < (Sizer.adjust_after_block (sizer 9_000) 0 30_000).current_gas_limit)
unfolding gas_step next_ema
adjust_after_block_wraps_example =
    adjust_after_block_wraps (sizer 9_000) 0 30_000 (omega arith) refl refl (omega arith)
      (omega arith) (omega arith)

sums-same :
    merkle_root (λ a b. a + b) (1 ∷ 2 ∷ 3 ∷ []) ≡ merkle_root (λ a b. a + b) (2 ∷ 1 ∷ 3 ∷ [])
unfolding merkle_root levels next_level
sums-same = refl

merkle_root-binding_example :
    (◌≡◌ {A = List ℕ} (1 ∷ 2 ∷ 3 ∷ []) (2 ∷ 1 ∷ 3 ∷ [])) ⊎ Collision (λ a b. a + b)
merkle_root-binding_example =
    merkle_root-binding (λ a b. a + b) (1 ∷ 2 ∷ 3 ∷ []) (2 ∷ 1 ∷ 3 ∷ []) refl sums-same

abbrev toy_context : BlockContext
toy_context = record {
  get_hash = λ _. some 0;
  coinbase = 3;
  block_number = 1;
  time = 5;
  gas_limit = 60_000;
  base_fee = 1;
  blob_base_fee = some 1;
}

apply_transaction-Sound_example :
    Sound {S = ℕ} toy_context a_tx 0 0 1_000_000 (apply_transaction 1_000_000 a_tx toy_context 0 0)
apply_transaction-Sound_example =
    apply_transaction-Sound toy_laws 1_000_000 a_tx toy_context 0 0 (omega arith)

abbrev block_context : ExecutionContext
block_context = record {
  block_number = 1;
  timestamp = 5;
  coinbase = 3;
  gas_limit = 60_000;
  base_fee = 1;
  parent_hash = 0;
}

a_tx-small : (t : Tx) → Mem t (a_tx ∷ []) → 60_000 + t.gas < u64_mod
a_tx-small t m =
    let e : ltb (60_000 + t.gas) u64_mod ≡ true =
      Or.elim (Bool-set _ _) (mem-cons.0 m) (λ e. rw e refl) (λ n. absurd (not-mem-nil n)) in
    ground (arith, e)

execute_transactions-Accounts_example :
    Accounts {S = ℕ} 60_000 (a_tx ∷ []) (execute_transactions 1_000_000 (a_tx ∷ []) block_context)
execute_transactions-Accounts_example =
    execute_transactions-Accounts toy_laws 1_000_000 (a_tx ∷ []) block_context a_tx-small

abbrev needs_30_000 : ℕ → CallOutcome
needs_30_000 g = record { gas_used = 25_000; failed = ltb g 30_000 }

abbrev pub a_batch : Batch
a_batch = record {
  index = 3;
  start_block = 1;
  end_block = 2;
  block_count = 2;
  l1_tx_hash = 0;
  timestamp = 5;
  size_bytes = 9;
  status = pending;
}

write_batch_overwrites_example :
    read_block (write_batch true empty_db a_batch).1 29_699 ≡ foreign (batch a_batch)
write_batch_overwrites_example = write_batch_overwrites empty_db a_batch (omega arith) (omega arith)

abbrev toy_sha : Preimage → ℕ
toy_sha p = p.tx_hash + p.gas_used

abbrev computed : ComputeReceipt
computed = create_receipt toy_sha (λ _. 1) (λ _. 2) a_tx a_receipt 7 0 9 3 8 [] 5

abbrev client : Client Milli
client = record { enabled = true; cache_ttl = 60; cache = [] }

abbrev a_score : ScoreResult Milli
a_score = record {
  composite_score = pos 600;
  confidence = pos 900;
  tier = gold;
  model_version = "v2";
  chain_breakdown = [];
}

client-fresh : fresh client 9 3 ≡ none
unfolding fresh
client-fresh = refl

get_score_result_caches_example :
    (get_score_result client 9 3 (some a_score) 5 ≡ (a_score, with_score client 9 a_score 5))
    × (get_score_result (with_score client 9 a_score 5) 9 40 none 50
        ≡ (a_score, with_score client 9 a_score 5))
get_score_result_caches_example =
    get_score_result_caches client 9 3 5 40 50 a_score none refl client-fresh refl
