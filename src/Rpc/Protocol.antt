-- ===== src/Rpc/Protocol.antt =====
-- internal/rpc/handler.go and types.go: the methods by their names, what they return, and the requests
-- and responses of JSON-RPC.
use Prim.Native.String.{String}
use text.Mathlib.Text.{◌==◌ as str_eq}
use inso_sequencer.Base.{ℕ, List, [], ◌∷◌, Option, none, some, if◌then◌else◌}
use inso_sequencer.ChainDb.{Found}
use inso_sequencer.Types.{Batch}
use inso_sequencer.Manager.Reads.{SequencerStatus}
use inso_sequencer.Fees.{DynamicFeeModel}
use inso_sequencer.Rpc.{Log}
use inso_sequencer.Rpc.Json.{Json, Params}
use inso_sequencer.Rpc.Admission.{RpcError}
use inso_sequencer.Rpc.Chain.{Failure, BlockResponse, ReceiptResponse, TransactionResponse}
use inso_sequencer.Rpc.Status.{
  EffectiveFee, Discount, VerifiedReceipt, BlockReceiptRoot, LaneStats, AdaptiveStats, FeeHistory,
  ProofStatus, BlobStatus, OrderingProof,
}
use inso_sequencer.Rpc.Scores.{OrderingEntry, ScorePreview, ComplianceStatus}

-- The methods that only read.
pub data Read : Type 0 where
  eth_chain_id eth_block_number eth_get_block_by_number eth_get_block_by_hash : Read
  eth_get_transaction_receipt eth_get_transaction_by_hash eth_get_balance : Read
  eth_get_transaction_count eth_gas_price eth_estimate_gas eth_call eth_get_code : Read
  eth_get_storage_at eth_get_logs eth_fee_history eth_max_priority_fee_per_gas net_version : Read
  inso_get_sequencer_status inso_get_batch_status inso_get_pending_tx_count : Read
  inso_get_fee_stats inso_get_effective_fee inso_get_sovereignty_discount : Read
  inso_get_compute_receipt inso_get_block_receipt_root inso_get_lane_stats : Read
  inso_get_adaptive_block_stats inso_get_zk_proof_status inso_get_cross_chain_attestation : Read
  inso_get_ordering_proof inso_get_governance_proposals inso_get_da_blob_status : Read
  inso_get_restaking_stats : Read

pub data Method : Type 0 where
  read : Read → Method
  eth_send_raw_transaction : Method
  inso_get_taste_score_ordering inso_get_ai_score_preview inso_get_compliance_status : Method

-- The cases of the switch in Handle.
methods : List (String × Method)
methods =
    ("eth_chainId", read eth_chain_id)
    ∷ ("eth_blockNumber", read eth_block_number)
    ∷ ("eth_getBlockByNumber", read eth_get_block_by_number)
    ∷ ("eth_getBlockByHash", read eth_get_block_by_hash)
    ∷ ("eth_sendRawTransaction", eth_send_raw_transaction)
    ∷ ("eth_getTransactionReceipt", read eth_get_transaction_receipt)
    ∷ ("eth_getTransactionByHash", read eth_get_transaction_by_hash)
    ∷ ("eth_getBalance", read eth_get_balance)
    ∷ ("eth_getTransactionCount", read eth_get_transaction_count)
    ∷ ("eth_gasPrice", read eth_gas_price)
    ∷ ("eth_estimateGas", read eth_estimate_gas)
    ∷ ("eth_call", read eth_call)
    ∷ ("eth_getCode", read eth_get_code)
    ∷ ("eth_getStorageAt", read eth_get_storage_at)
    ∷ ("eth_getLogs", read eth_get_logs)
    ∷ ("eth_feeHistory", read eth_fee_history)
    ∷ ("eth_maxPriorityFeePerGas", read eth_max_priority_fee_per_gas)
    ∷ ("net_version", read net_version)
    ∷ ("inso_getSequencerStatus", read inso_get_sequencer_status)
    ∷ ("inso_getTasteScoreOrdering", inso_get_taste_score_ordering)
    ∷ ("inso_getBatchStatus", read inso_get_batch_status)
    ∷ ("inso_getPendingTxCount", read inso_get_pending_tx_count)
    ∷ ("inso_getFeeStats", read inso_get_fee_stats)
    ∷ ("inso_getEffectiveFee", read inso_get_effective_fee)
    ∷ ("inso_getSovereigntyDiscount", read inso_get_sovereignty_discount)
    ∷ ("inso_getComputeReceipt", read inso_get_compute_receipt)
    ∷ ("inso_getBlockReceiptRoot", read inso_get_block_receipt_root)
    ∷ ("inso_getLaneStats", read inso_get_lane_stats)
    ∷ ("inso_getAdaptiveBlockStats", read inso_get_adaptive_block_stats)
    ∷ ("inso_getZKProofStatus", read inso_get_zk_proof_status)
    ∷ ("inso_getCrossChainAttestation", read inso_get_cross_chain_attestation)
    ∷ ("inso_getOrderingProof", read inso_get_ordering_proof)
    ∷ ("inso_getAIScorePreview", inso_get_ai_score_preview)
    ∷ ("inso_getGovernanceProposals", read inso_get_governance_proposals)
    ∷ ("inso_getDABlobStatus", read inso_get_da_blob_status)
    ∷ ("inso_getRestakingStats", read inso_get_restaking_stats)
    ∷ ("inso_getComplianceStatus", inso_get_compliance_status)
    ∷ []

find_method : String → List (String × Method) → Option Method
find_method s [] = none
find_method s ((name, m) ∷ rest) = if str_eq s name then some m else find_method s rest

unfoldable pub method_of : String → Option Method
unfolding methods find_method
method_of s = find_method s methods

-- What a method returns. `constant` is a response in which nothing depends on the state.
pub data Result (W : Type 0) : Type 0 where
  null_result constant : Result W
  number_result hash_result : ℕ → Result W
  bytes_result : List ℕ → Result W
  block_result : BlockResponse → Result W
  receipt_result : ReceiptResponse → Result W
  transaction_result : TransactionResponse → Result W
  logs_result : List Log → Result W
  fee_history_result : FeeHistory W → Result W
  status_result : SequencerStatus → Result W
  ordering_result : List (OrderingEntry W) → Result W
  batch_result : Found Batch → Result W
  fee_stats_result : DynamicFeeModel W → Result W
  effective_fee_result : EffectiveFee → Result W
  discount_result : Discount → Result W
  compute_receipt_result : VerifiedReceipt → Result W
  receipt_root_result : BlockReceiptRoot → Result W
  lanes_result : Option LaneStats → Result W
  adaptive_result : Option (AdaptiveStats W) → Result W
  proof_result : ProofStatus → Result W
  attestation_result : String → ℕ → Result W
  ordering_proof_result : OrderingProof → Result W
  preview_result : ScorePreview W → Result W
  blob_result : BlobStatus → Result W
  compliance_result : ComplianceStatus W → Result W

pub data HandlerError : Type 0 where
  failure : Failure → HandlerError
  rejected_tx : RpcError → HandlerError

pub data Outcome (W : Type 0) : Type 0 where
  result : Result W → Outcome W
  error : HandlerError → Outcome W

-- `JSONRPCRequest`
pub record Request : Type 0 where
  pub method : String
  pub params : Params
  pub id : Json

-- The result, or the error with its code: -32601, -32000 or -32700.
pub data Payload (W : Type 0) : Type 0 where
  returned : Result W → Payload W
  method_not_found : String → Payload W
  server_error : HandlerError → Payload W
  parse_error : Payload W

-- `JSONRPCResponse`
pub record RpcResponse (W : Type 0) : Type 0 where
  pub id : Json
  pub payload : Payload W
