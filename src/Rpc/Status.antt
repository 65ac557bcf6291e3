-- ===== src/Rpc/Status.antt =====
-- internal/rpc/handler.go: the custom requests about fees, compute receipts, lanes, the block sizer and
-- blocks, and eth_feeHistory. A response is a record of the fields that depend on the state or on the
-- request; the constant ones are left out.
pub mod Receipt
use Prim.Native.String.{String}
use inso_sequencer.Base.{
  ℕ, zero, suc, ◌+◌, ◌^◌, ◌&&◌, Bool, true, false, List, [], ◌∷◌, Option, none, some, ltb, leb,
  ◌==◌, if◌then◌else◌, ◌>>=◌, length,
}
use inso_sequencer.Word.{u64_mod, add64}
use inso_sequencer.Float.{Float}
use inso_sequencer.Merkle.{merkle_root}
use inso_sequencer.Fees.{DynamicFeeModel, effective_fee, get_discount}
use inso_sequencer.Sizer.{AdaptiveBlockSizer}
use inso_sequencer.Lanes.{LanedMempool, lane_sizes}
use inso_sequencer.Receipts.{
  ComputeReceipt, Preimage, ReceiptStore, get_receipt, verify, compute_block_receipt_root,
}
use inso_sequencer.Rpc.Json.{
  Json, null, other, boolean, number, string, Params, Hex, first, first_text, first_of_texts,
}
use inso_sequencer.Rpc.Chain.{
  Failure, invalid_params, invalid_block_number, receipts_not_enabled, invalid_tx_hash, Response,
  nothing, answer, failed,
}

pub data SovereigntyTier : Type 0 where
  no_tier bronze silver gold platinum : SovereigntyTier

-- The name that `tierNames` has for a tier.
tier_name : ℕ → SovereigntyTier
tier_name tier =
    if tier == 1
    then bronze
    else if tier == 2
    then silver
    else if tier == 3
    then gold
    else if tier == 4
    then platinum
    else no_tier

pub record EffectiveFee : Type 0 where
  pub base_fee : ℕ
  pub effective_fee : ℕ
  pub discount_bps : ℕ
  pub tier : ℕ
  pub tier_name : SovereigntyTier

pub record Discount : Type 0 where
  pub address : ℕ
  pub discount_bps : ℕ
  pub tier : ℕ
  pub tier_name : SovereigntyTier

module _ {W : Type 0} ⦃f : Float W⦄ (hex : Hex) (fees : DynamicFeeModel W) where
  effective_fee_at : ℕ → ℕ → EffectiveFee
  unfolding tier_name
  effective_fee_at addr now =
      let (fee, m) = effective_fee fees addr none now in
      let (bps, tier) = get_discount m addr in
      record {
        base_fee = m.base_fee;
        effective_fee = fee;
        discount_bps = bps;
        tier = tier;
        tier_name = tier_name tier;
      }

  -- No provider is given, so the model stays as it is.
  pub get_effective_fee : ℕ → Params → Response EffectiveFee
  unfolding effective_fee_at
  get_effective_fee now params = elim (first_of_texts params) [
    | none ↦ failed invalid_params
    | some s ↦ answer (effective_fee_at (hex.to_address s) now)
  ]

  discount_at : ℕ → Discount
  unfolding tier_name
  discount_at addr =
      let (bps, tier) = get_discount fees addr in
      record { address = addr; discount_bps = bps; tier = tier; tier_name = tier_name tier }

  pub get_sovereignty_discount : Params → Response Discount
  unfolding discount_at
  get_sovereignty_discount params = elim (first_of_texts params) [
    | none ↦ failed invalid_params
    | some s ↦ answer (discount_at (hex.to_address s))
  ]

-- The receipt, and whether Verify accepts it.
pub record VerifiedReceipt : Type 0 where
  pub receipt : ComputeReceipt
  pub verified : Bool

pub record BlockReceiptRoot : Type 0 where
  pub block_number : ℕ
  pub receipt_root : ℕ

module _ (hex : Hex) where
  receipt_or_nothing : (Preimage → ℕ) → Option ComputeReceipt → Response VerifiedReceipt
  receipt_or_nothing sha none = nothing
  receipt_or_nothing sha (some r) = answer (record { receipt = r; verified = verify sha r })

  pub get_compute_receipt : (Preimage → ℕ) → Option ReceiptStore → Params → Response VerifiedReceipt
  unfolding receipt_or_nothing
  get_compute_receipt sha none params = failed receipts_not_enabled
  get_compute_receipt sha (some store) params = elim (first_of_texts params) [
    | none ↦ failed invalid_params
    | some s ↦ receipt_or_nothing sha (get_receipt store (hex.to_hash s))
  ]

  root_of : ℕ → Option ℕ → Option (Response BlockReceiptRoot)
  root_of n none = none
  root_of n (some root) = some (answer (record { block_number = n; receipt_root = root }))

  -- None when the Merkle root is out of fuel.
  pub get_block_receipt_root :
      (ℕ → ℕ → ℕ) → Option ReceiptStore → Params → Option (Response BlockReceiptRoot)
  unfolding root_of
  get_block_receipt_root pair_hash none params = some (failed receipts_not_enabled)
  get_block_receipt_root pair_hash (some store) params = elim (first_of_texts params) [
    | none ↦ some (failed invalid_params)
    | some s ↦ elim (hex.decode_uint64 s) [
      | none ↦ some (failed invalid_block_number)
      | some n ↦ root_of n (compute_block_receipt_root pair_hash store n)
    ]
  ]

pub record LaneStats : Type 0 where
  pub fast : ℕ
  pub standard : ℕ
  pub slow : ℕ
  pub total : ℕ

-- None where no pool with lanes is attached.
pub get_lane_stats : {W : Type 0} ⦃f : Float W⦄ → Option (LanedMempool W) → Option LaneStats
get_lane_stats none = none
get_lane_stats (some pool) =
    let (fast, standard, slow) = lane_sizes pool in
    some (record { fast = fast; standard = standard; slow = slow; total = fast + standard + slow })

pub record AdaptiveStats (W : Type 0) : Type 0 where
  pub current_gas_limit : ℕ
  pub current_max_tx : ℕ
  pub utilization : W

pub get_adaptive_block_stats :
    {W : Type 0} → Option (AdaptiveBlockSizer W) → Option (AdaptiveStats W)
get_adaptive_block_stats none = none
get_adaptive_block_stats (some s) = some (record {
  current_gas_limit = s.current_gas_limit;
  current_max_tx = s.current_max_tx;
  utilization = s.utilization_ema;
})

pub record FeeHistory (W : Type 0) : Type 0 where
  pub oldest_block : ℕ
  pub base_fee_per_gas : List ℕ
  pub gas_used_ratio : List W

-- The count that is asked for, an int, where it is one and above 0.
asked_count : Option Json → ℕ
asked_count (some (number n)) = if ltb 0 n && ltb n (2 ^ 63) then n else 1
asked_count _ = 1

block_count : Params → ℕ
unfolding asked_count
block_count params =
    let count = asked_count (params >>= first) in if ltb 1024 count then 1024 else count

copies : {A : Type 0} → ℕ → A → List A
copies zero a = []
copies (suc n) a = a ∷ copies n a

pub fee_history : {W : Type 0} ⦃f : Float W⦄ → ℕ → ℕ → Params → FeeHistory W
unfolding block_count copies
fee_history ⦃f⦄ current_block base_fee params = record {
  oldest_block = current_block;
  base_fee_per_gas = copies (suc (block_count params)) base_fee;
  gas_used_ratio = copies (block_count params) (f.decimal 0 1);
}

-- A number of a block, as a JSON number or a hexadecimal text; none for an error.
block_of_json : Hex → Json → Option ℕ
block_of_json hex (number n) = if ltb n u64_mod then some n else none
block_of_json hex null = some 0
block_of_json hex (string s) = hex.scan s
block_of_json hex (boolean b) = none
block_of_json hex (other k) = none

pub parse_block_param : Hex → Params → Option ℕ
unfolding block_of_json
parse_block_param hex params = params >>= first >>= block_of_json hex

pub data ProofLabel : Type 0 where
  verified pending unknown : ProofLabel

proof_status_label : Bool → ℕ → ℕ → ProofLabel
proof_status_label true block_num current_block = verified
proof_status_label false block_num current_block =
    if block_num == add64 current_block 1 then pending else unknown

pub record ProofStatus : Type 0 where
  pub block_number : ℕ
  pub proof_status : ProofLabel
  pub proven : Bool
  pub current_block : ℕ

pub get_zk_proof_status : Hex → ℕ → Params → Response ProofStatus
unfolding proof_status_label
get_zk_proof_status hex current_block params = elim (parse_block_param hex params) [
  | none ↦ failed invalid_block_number
  | some n ↦ answer (record {
    block_number = n;
    proof_status = proof_status_label (leb n current_block) n current_block;
    proven = leb n current_block;
    current_block = current_block;
  })
]

pub data BlobLabel : Type 0 where
  confirmed blob_pending : BlobLabel

blob_status_label : Bool → BlobLabel
blob_status_label true = confirmed
blob_status_label false = blob_pending

pub record BlobStatus : Type 0 where
  pub block_number : ℕ
  pub blob_status : BlobLabel
  pub available : Bool

pub get_da_blob_status : Hex → ℕ → Params → Response BlobStatus
unfolding blob_status_label
get_da_blob_status hex current_block params = elim (parse_block_param hex params) [
  | none ↦ failed invalid_block_number
  | some n ↦ answer (record {
    block_number = n;
    blob_status = blob_status_label (leb n current_block);
    available = leb n current_block;
  })
]

-- The text of the first parameter.
text_param : Params → Failure → Response String
text_param params e = elim (params >>= first) [
  | none ↦ failed invalid_params
  | some j ↦ elim (first_text params) [ none ↦ failed e | some s ↦ answer s ]
]

-- Nothing of the attestation or of the proof depends on the chain: what varies is the text, and for
-- the proof the hash that is read of it.
pub get_cross_chain_attestation : Params → Response String
unfolding text_param
get_cross_chain_attestation params = text_param params invalid_tx_hash

pub record OrderingProof : Type 0 where
  pub tx_hash : String
  pub proof_hash : ℕ

pub get_ordering_proof : Hex → Params → Response OrderingProof
unfolding text_param
get_ordering_proof hex params = elim (text_param params invalid_tx_hash) [
  | nothing ↦ nothing
  | failed e ↦ failed e
  | answer s ↦ answer (record { tx_hash = s; proof_hash = hex.to_hash s })
]
