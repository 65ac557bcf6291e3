-- ===== src/Receipts.antt =====
-- internal/execution/receipts.go: compute receipts and their store. The hashes are parameters:
-- `keccak` of bytes, `logs_hash` for computeLogsHash, `sha` for the SHA-256 of the fields that
-- computeHash writes, and `pair_hash` as in the Merkle root. The pointers of the source are never
-- written through, so the store holds the receipts themselves.
use inso_sequencer.Base.{
  ℕ, ◌%◌, ◌^◌, ◌≡◌, refl, Bool, true, List, [], ◌∷◌, ◌++◌, map, Option, none, some, ◌==◌,
  if◌then◌else◌, get, put, get-put, length, arith,
}
use inso_sequencer.Types.{Tx, Receipt}
use inso_sequencer.Merkle.{merkle_root}

pub record ComputeReceipt : Type 0 where
  pub tx_hash : ℕ
  pub block_number : ℕ
  pub tx_index : ℕ
  pub sender : ℕ
  pub to : Option ℕ
  pub value : ℕ
  pub gas_used : ℕ
  pub gas_price : ℕ
  pub pre_state_root : ℕ
  pub post_state_root : ℕ
  pub status : ℕ
  pub input_hash : ℕ
  pub output_hash : ℕ
  pub logs_hash : ℕ
  pub executed_at : ℕ
  pub receipt_hash : ℕ

-- What computeHash writes into the hash, part by part.
pub record Preimage : Type 0 where
  pub tx_hash : ℕ
  pub block_number : ℕ
  pub tx_index : ℕ
  pub sender : ℕ
  pub to : Option ℕ
  pub value : ℕ
  pub gas_used : ℕ
  pub pre_state_root : ℕ
  pub post_state_root : ℕ
  pub status : ℕ
  pub input_hash : ℕ
  pub output_hash : ℕ
  pub logs_hash : ℕ

module _ (sha : Preimage → ℕ) where
  pub compute_hash : ComputeReceipt → ℕ
  compute_hash r = sha (record {
    tx_hash = r.tx_hash;
    block_number = r.block_number;
    tx_index = r.tx_index % 2 ^ 64;
    sender = r.sender;
    to = r.to;
    value = r.value;
    gas_used = r.gas_used;
    pre_state_root = r.pre_state_root;
    post_state_root = r.post_state_root;
    status = r.status;
    input_hash = r.input_hash;
    output_hash = r.output_hash;
    logs_hash = r.logs_hash;
  })

  pub create_receipt :
      (List ℕ → ℕ) → (List ℕ → ℕ) → Tx → Receipt → ℕ → ℕ → ℕ → ℕ → ℕ → List ℕ → ℕ → ComputeReceipt
  unfolding compute_hash
  create_receipt keccak logs_hash tx receipt number index sender pre post returned now =
      let cr : ComputeReceipt = record {
        tx_hash = tx.hash;
        block_number = number;
        tx_index = index;
        sender = sender;
        to = tx.to;
        value = tx.value;
        gas_used = receipt.gas_used;
        gas_price = tx.gas_price;
        pre_state_root = pre;
        post_state_root = post;
        status = receipt.status;
        input_hash = keccak tx.payload;
        output_hash = keccak returned;
        logs_hash = logs_hash receipt.logs;
        executed_at = now;
        receipt_hash = 0;
      } in
      record cr { receipt_hash = compute_hash cr }

  pub verify : ComputeReceipt → Bool
  unfolding compute_hash
  verify r = r.receipt_hash == compute_hash r

pub record ReceiptStore : Type 0 where
  pub receipts : List (ℕ × ComputeReceipt)
  pub by_block : List (ℕ × List ComputeReceipt)

pub new_receipt_store : ReceiptStore
new_receipt_store = record { receipts = []; by_block = [] }

-- `byBlock[blockNumber]`, nil if the key is missing.
unfoldable pub get_by_block : ReceiptStore → ℕ → List ComputeReceipt
get_by_block s number = elim (get number s.by_block) [ some rs ↦ rs | none ↦ [] ]

unfoldable pub store : ReceiptStore → ComputeReceipt → ReceiptStore
unfolding get_by_block
store s r = record {
  receipts = put r.tx_hash r s.receipts;
  by_block = put r.block_number (get_by_block s r.block_number ++ r ∷ []) s.by_block;
}

unfoldable pub get_receipt : ReceiptStore → ℕ → Option ComputeReceipt
get_receipt s h = get h s.receipts

-- `Len`, and `Count`, which has the same body.
unfoldable pub count : ReceiptStore → ℕ
count s = length s.receipts

module _ (pair_hash : ℕ → ℕ → ℕ) where
  unfoldable pub compute_block_receipt_root : ReceiptStore → ℕ → Option ℕ
  unfolding get_by_block
  compute_block_receipt_root s number =
      if length (get_by_block s number) == 0
      then some 0
      else merkle_root pair_hash (map (λ r. r.receipt_hash) (get_by_block s number))

-- A stored receipt is found under its hash and is the last of its block; the receipts with other
-- hashes and the lists of other blocks stay as they were.
pub store_stores :
    (s : ReceiptStore) (r : ComputeReceipt) (h number : ℕ)
    → (get_receipt (store s r) h ≡ (if r.tx_hash == h then some r else get_receipt s h))
      × (get_by_block (store s r) number ≡ (
          if r.block_number == number
          then get_by_block s number ++ r ∷ []
          else get_by_block s number))
unfolding store get_receipt get_by_block
store_stores s r h number = (
  get-put r.tx_hash h r s.receipts,
  ground
      (arith, get-put r.block_number number (get_by_block s r.block_number ++ r ∷ []) s.by_block),
)

-- A receipt that CreateReceipt makes passes Verify.
pub verify-create_receipt :
    (sha : Preimage → ℕ) (keccak logs_hash : List ℕ → ℕ) (tx : Tx) (receipt : Receipt)
    (number index sender pre post : ℕ) (returned : List ℕ) (now : ℕ)
    → verify sha
        (create_receipt sha keccak logs_hash tx receipt number index sender pre post returned now)
      ≡ true
unfolding verify create_receipt compute_hash
verify-create_receipt sha keccak logs_hash tx receipt number index sender pre post returned now =
    ground arith

pub create_receipt-tx_hash :
    (sha : Preimage → ℕ) (keccak logs_hash : List ℕ → ℕ) (tx : Tx) (receipt : Receipt)
    (number index sender pre post : ℕ) (returned : List ℕ) (now : ℕ)
    → let cr =
        create_receipt sha keccak logs_hash tx receipt number index sender pre post returned now in
      cr.tx_hash ≡ tx.hash
unfolding create_receipt
create_receipt-tx_hash sha keccak logs_hash tx receipt number index sender pre post returned now =
    refl
