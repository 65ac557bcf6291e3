-- ===== src/Rpc/Handler.antt =====
-- internal/rpc/handler.go: the handler, which finds the method of a request by its name,
-- runs it and makes the response. The pool and the laned pool of the handler are one object, as main
-- attaches them: `laned_pool` says whether it is attached. Of the metrics it has the two counters of
-- the handler. The libraries that the methods call are one parameter, `Libraries`; the clock and the
-- answers of the TasteScore service are another, `Moment`. None is a request that panics or does not end.
pub mod Dispatched
pub mod Handled
pub mod Setup
use Prim.Native.String.{String}
use text.Mathlib.Text.{◌==◌ as str_eq}
use inso_sequencer.Base.{
  ℕ, ◌%◌, ◌^◌, Bool, true, false, List, [], ◌∷◌, length, Option, none, some, if◌then◌else◌, ◌>>=◌,
}
use inso_sequencer.Word.{add64}
use inso_sequencer.Float.{Float}
use inso_sequencer.Types.{Batch}
use inso_sequencer.ChainDb.{Found}
use inso_sequencer.StateStore.{TrieDb}
use inso_sequencer.Evm.{StateDb, Evm, BlockContext}
use inso_sequencer.Evm.Contract.{Message}
use inso_sequencer.Manager.{Manager, get_latest_batch}
use inso_sequencer.Manager.Reads.{StateReads, SequencerStatus, get_sequencer_status}
use inso_sequencer.Lanes.{LanedMempool, total_len, pending}
use inso_sequencer.Pool.{laned_pool}
use inso_sequencer.Fees.{DynamicFeeModel}
use inso_sequencer.Sizer.{AdaptiveBlockSizer}
use inso_sequencer.Receipts.{Preimage, ReceiptStore}
use inso_sequencer.TasteScore.{Client}
use inso_sequencer.Rpc.{Log, LogFilter, get_logs}
use inso_sequencer.Rpc.Json.{Json, Params, Hex, first}
use inso_sequencer.Rpc.Admission.{
  TxCodec, RpcError, Answer, accepted, refused, send_raw_transaction,
}
use inso_sequencer.Rpc.Chain.{
  Failure, invalid_params, invalid_filter, Response, nothing, answer, failed, BlockResponse,
  ReceiptResponse, TransactionResponse, get_block_by_number, block_by_hash, get_transaction_receipt,
  get_transaction_by_hash, balance_of, transaction_count,
}
use inso_sequencer.Rpc.Calls
use inso_sequencer.Rpc.Calls.{CallArgs, code_at, storage_at}
use inso_sequencer.Rpc.Status.{
  EffectiveFee, Discount, VerifiedReceipt, BlockReceiptRoot, LaneStats, AdaptiveStats, FeeHistory,
  ProofStatus, BlobStatus, OrderingProof, get_effective_fee, get_sovereignty_discount,
  get_compute_receipt, get_block_receipt_root, get_lane_stats, get_adaptive_block_stats,
  fee_history, get_zk_proof_status, get_da_blob_status, get_cross_chain_attestation,
  get_ordering_proof,
}
use inso_sequencer.Rpc.Scores.{
  ScoreCall, OrderingEntry, ScorePreview, ComplianceStatus, taste_score_ordering,
  get_ai_score_preview, get_compliance_status,
}
use inso_sequencer.Rpc.Protocol.{
  Read, eth_chain_id, eth_block_number, eth_get_block_by_number, eth_get_block_by_hash,
  eth_get_transaction_receipt, eth_get_transaction_by_hash, eth_get_balance,
  eth_get_transaction_count, eth_gas_price, eth_estimate_gas, eth_call, eth_get_code,
  eth_get_storage_at, eth_get_logs, eth_fee_history, eth_max_priority_fee_per_gas, net_version,
  inso_get_sequencer_status, inso_get_batch_status, inso_get_pending_tx_count, inso_get_fee_stats,
  inso_get_effective_fee, inso_get_sovereignty_discount, inso_get_compute_receipt,
  inso_get_block_receipt_root, inso_get_lane_stats, inso_get_adaptive_block_stats,
  inso_get_zk_proof_status, inso_get_cross_chain_attestation, inso_get_ordering_proof,
  inso_get_governance_proposals, inso_get_da_blob_status, inso_get_restaking_stats, Method, read,
  eth_send_raw_transaction, inso_get_taste_score_ordering, inso_get_ai_score_preview,
  inso_get_compliance_status, method_of, Result, constant, null_result, number_result, hash_result,
  bytes_result, block_result, receipt_result, transaction_result, logs_result, fee_history_result,
  status_result, ordering_result, batch_result, fee_stats_result, effective_fee_result,
  discount_result, compute_receipt_result, receipt_root_result, lanes_result, adaptive_result,
  proof_result, attestation_result, ordering_proof_result, preview_result, blob_result,
  compliance_result, HandlerError, failure, rejected_tx, Outcome, result, error, Request, Payload,
  returned, method_not_found, server_error, RpcResponse,
}

pub record RpcMetrics : Type 0 where
  pub rpc_requests : ℕ
  pub rpc_errors : ℕ

pub record Handler (W D : Type 0) : Type 0 where
  pub mempool : LanedMempool W
  pub state : Manager D
  pub tastescore : Option (Client W)
  pub fee_model : DynamicFeeModel W
  pub receipt_store : Option ReceiptStore
  pub laned_pool : Bool
  pub sizer : Option (AdaptiveBlockSizer W)
  pub metrics : Option RpcMetrics
  pub chain_id : ℕ

pub record Libraries (S : Type 0) : Type 0 where
  pub hex : Hex
  pub codec : TxCodec
  pub decode_args : Json → Option CallArgs
  pub decode_filter : Json → Option LogFilter
  pub view : ℕ → Log
  pub sha : Preimage → ℕ
  pub pair_hash : ℕ → ℕ → ℕ
  pub reads : StateReads S
  pub output : BlockContext → Message → ℕ → S → List ℕ

-- The clock, and the calls of the TasteScore service, in order.
pub record Moment (W : Type 0) : Type 0 where
  pub now : ℕ
  pub calls : ℕ → ScoreCall W

count_request : Option RpcMetrics → Option RpcMetrics
count_request none = none
count_request (some c) = some (record c { rpc_requests = add64 c.rpc_requests 1 })

module _ {W : Type 0} where
  of_response : {A : Type 0} → (A → Result W) → Response A → Outcome W
  of_response make nothing = result null_result
  of_response make (answer a) = result (make a)
  of_response make (failed e) = error (failure e)

  of_answer : Answer → Outcome W
  of_answer (accepted h) = result (hash_result h)
  of_answer (refused e) = error (rejected_tx e)

  -- `getLogs`, with the decoding of its filter.
  unfoldable pub logs_of : {D S : Type 0} → Libraries S → Manager D → Params → Option (Outcome W)
  logs_of lib m params = elim (params >>= first) [
    | none ↦ some (error (failure invalid_params))
    | some j ↦ elim (lib.decode_filter j) [
      | none ↦ some (error (failure invalid_filter))
      | some filter ↦ elim (get_logs lib.view m filter) [
        | none ↦ none
        | some logs ↦ some (result (logs_result logs))
      ]
    ]
  ]

  count_error : Outcome W → Option RpcMetrics → Option RpcMetrics
  count_error (error e) (some c) = some (record c { rpc_errors = add64 c.rpc_errors 1 })
  count_error (error e) none = none
  count_error (result r) c = c

  payload_of : Outcome W → Payload W
  payload_of (result r) = returned r
  payload_of (error e) = server_error e

module _ {W D S : Type 0} ⦃f : Float W⦄ (trie : TrieDb D S) ⦃db : StateDb S⦄ ⦃evm : Evm S⦄
    (lib : Libraries S) where
  answer_read : Read → Params → Moment W → Handler W D → Option (Outcome W)
  unfolding of_response logs_of
  answer_read eth_chain_id params t h = some (result (number_result h.chain_id))
  answer_read eth_block_number params t h = some (result (number_result h.state.current_block))
  answer_read eth_get_block_by_number params t h =
      get_block_by_number lib.hex h.state params >>= λ r. some (of_response block_result r)
  answer_read eth_get_block_by_hash params t h =
      block_by_hash lib.hex h.state params >>= λ r. some (of_response block_result r)
  answer_read eth_get_transaction_receipt params t h = some (
      of_response receipt_result
        (get_transaction_receipt lib.hex lib.codec.sender_of h.state h.fee_model.base_fee params))
  answer_read eth_get_transaction_by_hash params t h = do
    r ← get_transaction_by_hash lib.hex lib.codec.sender_of h.state params
    some (of_response transaction_result r)
  answer_read eth_get_balance params t h =
      some (of_response number_result (balance_of trie lib.hex h.state params))
  answer_read eth_get_transaction_count params t h =
      some (of_response number_result (transaction_count trie lib.hex h.state params))
  answer_read eth_gas_price params t h = some (result (number_result h.fee_model.base_fee))
  answer_read eth_estimate_gas params t h = do
    r ←
        Calls.eth_estimate_gas trie lib.output h.state lib.decode_args h.fee_model.base_fee t.now
          params
    some (of_response number_result r)
  answer_read eth_call params t h = some (
      of_response bytes_result
        (Calls.eth_call trie lib.output h.state lib.decode_args h.fee_model.base_fee t.now params))
  answer_read eth_get_code params t h =
      some (of_response bytes_result (code_at trie lib.reads lib.hex h.state params))
  answer_read eth_get_storage_at params t h =
      some (of_response hash_result (storage_at trie lib.reads lib.hex h.state params))
  answer_read eth_get_logs params t h = logs_of lib h.state params
  answer_read eth_fee_history params t h =
      some (
        result (fee_history_result (fee_history h.state.current_block h.fee_model.base_fee params)))
  answer_read eth_max_priority_fee_per_gas params t h = some (result (number_result 1_000_000_000))
  answer_read net_version params t h = some (result (number_result (h.chain_id % 2 ^ 64)))
  answer_read inso_get_sequencer_status params t h =
      some (result (status_result (get_sequencer_status h.state)))
  answer_read inso_get_batch_status params t h =
      some (result (batch_result (get_latest_batch h.state)))
  answer_read inso_get_pending_tx_count params t h =
      some (result (number_result (total_len h.mempool)))
  answer_read inso_get_fee_stats params t h = some (result (fee_stats_result h.fee_model))
  answer_read inso_get_effective_fee params t h =
      some (of_response effective_fee_result (get_effective_fee lib.hex h.fee_model t.now params))
  answer_read inso_get_sovereignty_discount params t h =
      some (of_response discount_result (get_sovereignty_discount lib.hex h.fee_model params))
  answer_read inso_get_compute_receipt params t h = some (
      of_response compute_receipt_result
        (get_compute_receipt lib.hex lib.sha h.receipt_store params))
  answer_read inso_get_block_receipt_root params t h = do
    r ← get_block_receipt_root lib.hex lib.pair_hash h.receipt_store params
    some (of_response receipt_root_result r)
  answer_read inso_get_lane_stats params t h =
      some (result (lanes_result (get_lane_stats (if h.laned_pool then some h.mempool else none))))
  answer_read inso_get_adaptive_block_stats params t h =
      some (result (adaptive_result (get_adaptive_block_stats h.sizer)))
  answer_read inso_get_zk_proof_status params t h =
      some (of_response proof_result (get_zk_proof_status lib.hex h.state.current_block params))
  answer_read inso_get_cross_chain_attestation params t h = some (
      of_response (λ s. attestation_result s (h.chain_id % 2 ^ 64))
        (get_cross_chain_attestation params))
  answer_read inso_get_ordering_proof params t h =
      some (of_response ordering_proof_result (get_ordering_proof lib.hex params))
  answer_read inso_get_governance_proposals params t h = some (result constant)
  answer_read inso_get_da_blob_status params t h =
      some (of_response blob_result (get_da_blob_status lib.hex h.state.current_block params))
  answer_read inso_get_restaking_stats params t h = some (result constant)

  pub dispatch : Method → Params → Moment W → Handler W D → Option (Outcome W × Handler W D)
  unfolding answer_read of_answer
  dispatch (read r) params t h = do o ← answer_read r params t h; some (o, h)
  dispatch eth_send_raw_transaction params t h = do
    let call = t.calls 0
    a ←
        send_raw_transaction laned_pool lib.codec params h.mempool h.tastescore call.before
          call.fetched call.after t.now
    some (of_answer a.answer, record h { mempool = a.pool; tastescore = a.tastescore })
  dispatch inso_get_taste_score_ordering params t h =
      let (entries, client) = taste_score_ordering (pending h.mempool) t.calls h.tastescore in
      some (result (ordering_result entries), record h { tastescore = client })
  dispatch inso_get_ai_score_preview params t h =
      let (r, client) = get_ai_score_preview lib.hex params (t.calls 0) h.tastescore in
      some (of_response preview_result r, record h { tastescore = client })
  dispatch inso_get_compliance_status params t h =
      let (r, client) = get_compliance_status lib.hex params (t.calls 0) h.tastescore in
      some (of_response compliance_result r, record h { tastescore = client })

  -- `Handle`
  pub handle : Request → Moment W → Handler W D → Option (RpcResponse W × Handler W D)
  unfolding dispatch count_request count_error payload_of
  handle req t h =
      let counted = record h { metrics = count_request h.metrics } in
      elim (method_of req.method) [
        | none ↦ some (record { id = req.id; payload = method_not_found req.method }, counted)
        | some m ↦ do
          (o, next) ← dispatch m req.params t counted
          some (
            record { id = req.id; payload = payload_of o },
            record next { metrics = count_error o next.metrics },
          )
      ]
