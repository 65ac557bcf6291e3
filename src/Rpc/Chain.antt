-- ===== src/Rpc/Chain.antt =====
-- internal/rpc/handler.go: the requests that read blocks, transactions, receipts and accounts. A
-- response is a record of the fields that depend on the state; the constant ones and the values of
-- the signature are left out. `sender_of` is types.Sender.
pub mod Latest
pub mod Readable
use Prim.Native.String.{String}
use text.Mathlib.Text.{◌==◌ as str_eq}
use inso_sequencer.Base.{
  ℕ, Bool, true, false, List, [], ◌∷◌, map, Option, none, some, ◌==◌, if◌then◌else◌, ◌>>=◌,
}
use inso_sequencer.Types.{Tx, Receipt, L2BlockHeader, L2Block}
use inso_sequencer.StateStore.{TrieDb}
use inso_sequencer.Evm.{StateDb, Evm}
use inso_sequencer.ChainDb.{Found, absent, found, foreign}
use inso_sequencer.Manager.{
  Manager, get_block, get_block_by_hash, get_block_hash, get_transaction, get_receipt,
  get_tx_block_number, get_balance, get_nonce,
}
use inso_sequencer.Rpc.Json.{
  Json, null, other, boolean, number, string, Params, Hex, text_of, first_of_texts,
}

pub data Failure : Type 0 where
  invalid_params invalid_block_number invalid_block_hash : Failure
  invalid_call_args execution_failed gas_estimation_failed invalid_filter : Failure
  receipts_not_enabled invalid_tx_hash invalid_address : Failure

-- `nothing` is the JSON null.
pub data Response (A : Type 0) : Type 0 where
  nothing : Response A
  answer : A → Response A
  failed : Failure → Response A

-- A transaction of a block, in full or its hash.
pub data TxItem : Type 0 where
  full : Tx → TxItem
  hash_only : ℕ → TxItem

pub record BlockResponse : Type 0 where
  pub number : ℕ
  pub hash : ℕ
  pub parent_hash : ℕ
  pub timestamp : ℕ
  pub state_root : ℕ
  pub gas_used : ℕ
  pub gas_limit : ℕ
  pub base_fee_per_gas : ℕ
  pub miner : ℕ
  pub transactions : List TxItem

tx_item : Bool → Tx → TxItem
tx_item true t = full t
tx_item false t = hash_only t.hash

tx_items : Bool → List Tx → List TxItem
unfolding tx_item
tx_items full_tx [] = []
tx_items full_tx (t ∷ ts) = tx_item full_tx t ∷ tx_items full_tx ts

pub eth_block_response : L2Block → Bool → BlockResponse
unfolding tx_items
eth_block_response b full_tx = record {
  number = b.header.number;
  hash = b.header.hash;
  parent_hash = b.header.parent_hash;
  timestamp = b.header.timestamp;
  state_root = b.header.state_root;
  gas_used = b.header.gas_used;
  gas_limit = b.header.gas_limit;
  base_fee_per_gas = b.header.base_fee;
  miner = b.header.sequencer_addr;
  transactions = tx_items full_tx b.transactions;
}

-- The second parameter; an error leaves the flag false.
full_tx_flag : List Json → Bool
full_tx_flag (j ∷ boolean b ∷ js) = b
full_tx_flag _ = false

-- What is decoded from an object of another kind has no header, and ethBlockResponse panics, none.
block_or_nothing : Found L2Block → Bool → Option (Response BlockResponse)
block_or_nothing (found b) full_tx = some (answer (eth_block_response b full_tx))
block_or_nothing absent full_tx = some nothing
block_or_nothing (foreign v) full_tx = none

-- The number of the block, none for an error.
unfoldable pub block_number_of : Hex → ℕ → String → Option ℕ
block_number_of hex current s = if str_eq s "latest" then some current else hex.decode_uint64 s

module _ {D : Type 0} (hex : Hex) (m : Manager D) where
  block_at : List Json → Option ℕ → Option (Response BlockResponse)
  unfolding full_tx_flag block_or_nothing
  block_at args none = some (failed invalid_block_number)
  block_at args (some n) = block_or_nothing (get_block m n) (full_tx_flag args)

  block_by_text : List Json → Option String → Option (Response BlockResponse)
  unfolding block_at block_number_of
  block_by_text args none = some (failed invalid_block_number)
  block_by_text args (some s) = block_at args (block_number_of hex m.current_block s)

  pub get_block_by_number : Params → Option (Response BlockResponse)
  unfolding block_by_text
  get_block_by_number none = some (failed invalid_params)
  get_block_by_number (some []) = some (failed invalid_params)
  get_block_by_number (some (j ∷ js)) = block_by_text (j ∷ js) (text_of j)

  block_by_hash_text : List Json → Option String → Option (Response BlockResponse)
  unfolding full_tx_flag block_or_nothing
  block_by_hash_text args none = some (failed invalid_block_hash)
  block_by_hash_text args (some s) =
      block_or_nothing (get_block_by_hash m (hex.to_hash s)) (full_tx_flag args)

  pub block_by_hash : Params → Option (Response BlockResponse)
  unfolding block_by_hash_text
  block_by_hash none = some (failed invalid_params)
  block_by_hash (some []) = some (failed invalid_params)
  block_by_hash (some (j ∷ js)) = block_by_hash_text (j ∷ js) (text_of j)

-- `to` is none where no transaction is found, and then the field is missing.
pub record ReceiptResponse : Type 0 where
  pub transaction_hash : ℕ
  pub transaction_index : ℕ
  pub block_hash : ℕ
  pub block_number : ℕ
  pub from : ℕ
  pub to : Option (Option ℕ)
  pub gas_used : ℕ
  pub cumulative_gas_used : ℕ
  pub status : ℕ
  pub logs_bloom : ℕ
  pub kind : ℕ
  pub effective_gas_price : ℕ
  pub contract_address : Option ℕ
  pub logs : List ℕ

pub record TransactionResponse : Type 0 where
  pub hash : ℕ
  pub nonce : ℕ
  pub from : ℕ
  pub to : Option ℕ
  pub value : ℕ
  pub gas : ℕ
  pub gas_price : ℕ
  pub input : List ℕ
  pub kind : ℕ
  pub block_number : Option ℕ
  pub block_hash : Option ℕ
  pub transaction_index : Option ℕ

sender_or_zero : Option ℕ → ℕ
sender_or_zero none = 0
sender_or_zero (some a) = a

receipt_response : Receipt → ℕ → ReceiptResponse
receipt_response r base_fee = record {
  transaction_hash = r.tx_hash;
  transaction_index = r.transaction_index;
  block_hash = r.block_hash;
  block_number = r.block_number;
  from = 0;
  to = none;
  gas_used = r.gas_used;
  cumulative_gas_used = r.cumulative_gas_used;
  status = r.status;
  logs_bloom = r.bloom;
  kind = r.kind;
  effective_gas_price = base_fee;
  contract_address = if r.contract_address == 0 then none else some r.contract_address;
  logs = r.logs;
}

with_tx : (Tx → Option ℕ) → ReceiptResponse → Found Tx → ReceiptResponse
unfolding sender_or_zero
with_tx sender_of r (found t) = record r { from = sender_or_zero (sender_of t); to = some t.to }
with_tx sender_of r absent = r
with_tx sender_of r (foreign v) = r

module _ {D : Type 0} (hex : Hex) (sender_of : Tx → Option ℕ) (m : Manager D) where
  receipt_at : ℕ → ℕ → Found Receipt → Response ReceiptResponse
  unfolding receipt_response with_tx
  receipt_at base_fee h (found r) =
      answer (with_tx sender_of (receipt_response r base_fee) (get_transaction m h))
  receipt_at base_fee h absent = nothing
  receipt_at base_fee h (foreign v) = nothing

  pub get_transaction_receipt : ℕ → Params → Response ReceiptResponse
  unfolding receipt_at
  get_transaction_receipt base_fee params = elim (first_of_texts params) [
    | none ↦ failed invalid_params
    | some s ↦ receipt_at base_fee (hex.to_hash s) (get_receipt m (hex.to_hash s))
  ]

  -- A transaction of a block, whose place is always given as 0, or a pending one.
  -- The number of the block and its hash; reading the hash may panic, none.
  place_of : Option ℕ → Option (Option ℕ × Option ℕ)
  place_of none = some (none, none)
  place_of (some n) = do h ← get_block_hash m n; some (some n, some h)

  transaction_response : Tx → Option ℕ × Option ℕ → TransactionResponse
  unfolding sender_or_zero
  transaction_response t (block, hash) = record {
    hash = t.hash;
    nonce = t.nonce;
    from = sender_or_zero (sender_of t);
    to = t.to;
    value = t.value;
    gas = t.gas;
    gas_price = t.gas_price;
    input = t.payload;
    kind = t.kind;
    block_number = block;
    block_hash = hash;
    transaction_index = elim block [ none ↦ none | some n ↦ some 0 ];
  }

  transaction_at : ℕ → Found Tx → Option (Response TransactionResponse)
  unfolding transaction_response place_of
  transaction_at h (found t) = do
    place ← place_of (get_tx_block_number m h)
    some (answer (transaction_response t place))
  transaction_at h absent = some nothing
  transaction_at h (foreign v) = some nothing

  pub get_transaction_by_hash : Params → Option (Response TransactionResponse)
  unfolding transaction_at
  get_transaction_by_hash params = elim (first_of_texts params) [
    | none ↦ some (failed invalid_params)
    | some s ↦ transaction_at (hex.to_hash s) (get_transaction m (hex.to_hash s))
  ]

module _ {D S : Type 0} (trie : TrieDb D S) ⦃db : StateDb S⦄ ⦃evm : Evm S⦄ (hex : Hex)
    (m : Manager D) where
  pub balance_of : Params → Response ℕ
  balance_of params = elim (first_of_texts params) [
    | none ↦ failed invalid_params
    | some s ↦ answer (get_balance trie m (hex.to_address s))
  ]

  pub transaction_count : Params → Response ℕ
  transaction_count params = elim (first_of_texts params) [
    | none ↦ failed invalid_params
    | some s ↦ answer (get_nonce trie m (hex.to_address s))
  ]
