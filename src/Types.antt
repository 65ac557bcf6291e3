-- ===== src/Types.antt =====
-- pkg/types: transactions with their metadata, blocks and batches.
-- A transaction is what the accessors of go-ethereum's type return for it; hashes and addresses are
-- the numbers that their bytes spell.
use inso_sequencer.Base.{ℕ, ◌*◌, List, Option, none, some, ltb, if◌then◌else◌}
use inso_sequencer.Float.{Float, flt}

pub record Tx : Type 0 where
  pub hash : ℕ
  pub nonce : ℕ
  pub gas : ℕ
  pub gas_price : ℕ
  pub gas_tip_cap : ℕ
  pub gas_fee_cap : ℕ
  pub value : ℕ
  pub to : Option ℕ
  pub payload : List ℕ
  pub kind : ℕ

pub record TxMeta (W : Type 0) : Type 0 where
  pub tx : Tx
  pub taste_score : W
  pub priority : W
  pub received_at : ℕ
  pub sender : ℕ
  pub nonce : ℕ
  pub gas_price : Option ℕ
  pub gas_tip_cap : Option ℕ
  pub gas_fee_cap : Option ℕ

module _ {W : Type 0} ⦃f : Float W⦄ where
  -- `ratio`, cut off at 1.0
  capped_ratio : ℕ → W
  capped_ratio price =
      let ratio = f.big_ratio price (100 * 1_000_000_000) in
      if flt (f.decimal 1 0) ratio then f.decimal 1 0 else ratio

  gas_price_factor : Option ℕ → W
  unfolding capped_ratio
  gas_price_factor none = f.decimal 5 1
  gas_price_factor (some price) = if ltb 0 price then capped_ratio price else f.decimal 5 1

  unfoldable pub compute_priority : TxMeta W → W → TxMeta W
  unfolding gas_price_factor
  compute_priority m weight = record m {
    priority =
        f.add (f.mul (f.sub (f.decimal 1 0) weight) (gas_price_factor m.gas_price))
          (f.mul weight m.taste_score);
  }

pub record L1Origin : Type 0 where
  pub block_number : ℕ
  pub block_hash : ℕ
  pub timestamp : ℕ

pub record L2BlockHeader : Type 0 where
  pub number : ℕ
  pub hash : ℕ
  pub parent_hash : ℕ
  pub timestamp : ℕ
  pub state_root : ℕ
  pub gas_used : ℕ
  pub gas_limit : ℕ
  pub tx_count : ℕ
  pub sequencer_addr : ℕ
  pub l1_origin : L1Origin
  pub base_fee : ℕ

-- The fields of go-ethereum's receipt that the source reads or writes.
pub record Receipt : Type 0 where
  pub kind : ℕ
  pub tx_hash : ℕ
  pub gas_used : ℕ
  pub cumulative_gas_used : ℕ
  pub block_hash : ℕ
  pub block_number : ℕ
  pub transaction_index : ℕ
  pub status : ℕ
  pub contract_address : ℕ
  pub logs : List ℕ
  pub bloom : ℕ

pub record L2Block : Type 0 where
  pub header : L2BlockHeader
  pub transactions : List Tx
  pub receipts : List Receipt

pub data BatchStatus : Type 0 where
  pending submitted confirmed finalized failed : BatchStatus

pub record Batch : Type 0 where
  pub index : ℕ
  pub start_block : ℕ
  pub end_block : ℕ
  pub block_count : ℕ
  pub l1_tx_hash : ℕ
  pub timestamp : ℕ
  pub size_bytes : ℕ
  pub status : BatchStatus
