-- ===== src/Manager.antt =====
-- internal/state/manager.go: the state manager, which executes a block, commits its state and
-- persists it. The key-value store of the chain database and the trie database are two parts of one
-- disk with keys of their own; here they are two fields. `writes` says whether the batch of a block
-- is written. The lock is not modelled: each method runs alone.
pub mod Hash
pub mod Commit
pub mod Restart
pub mod Reads
use inso_sequencer.Base.{
  ℕ, zero, suc, ◌+◌, ◌-◌, ◌%◌, ◌^◌, Bool, true, false, not, ◌&&◌, List, [], ◌∷◌, ◌++◌, map, Option,
  none, some, length, ◌==◌, if◌then◌else◌,
}
use inso_sequencer.Types.{Tx, Receipt, L1Origin, L2BlockHeader, L2Block, Batch}
use inso_sequencer.StateStore.{TrieDb, open_state, commit_state}
use inso_sequencer.Evm.{StateDb, Evm, ExecutionContext, Executed, Progress, execute_transactions}
use inso_sequencer.ChainDb.{
  number_bytes, hash_bytes, value_from, Db, ChainDb, Found, absent, found, foreign, new_chain_db,
  write_block, read_block, read_block_by_hash, read_block_hash, read_transaction, read_receipt,
  read_tx_block_number, write_batch, read_latest_batch, write_genesis_root, read_genesis_root,
  write_l1_origin, read_l1_origin,
}

pub record Manager (D : Type 0) : Type 0 where
  pub disk : D
  pub chain : ChainDb
  pub current_block : ℕ
  pub state_root : ℕ
  pub l1_origin : L1Origin
  pub is_sequencing : Bool
  pub sequencer_addr : ℕ
  pub chain_id : ℕ

abbrev pub no_origin : L1Origin
no_origin = record { block_number = 0; block_hash = 0; timestamp = 0 }

abbrev pub drop_bytes : ℕ → List ℕ → List ℕ
drop_bytes zero bs = bs
drop_bytes (suc n) [] = []
drop_bytes (suc n) (b ∷ bs) = drop_bytes n bs

-- common.BytesToHash: of more than 32 bytes, the last 32.
unfoldable pub bytes_to_hash : List ℕ → ℕ
bytes_to_hash bs = value_from 0 (drop_bytes (length bs - 32) bs)

unfoldable pub compute_block_hash : ℕ → ℕ → ℕ → ℕ → ℕ
unfolding bytes_to_hash
compute_block_hash number root timestamp parent =
    bytes_to_hash
      (number_bytes number ++ (hash_bytes root ++ (number_bytes timestamp ++ hash_bytes parent)))

-- The receipts of a block, from the index `i` on, with the fields that the manager sets.
unfoldable pub block_receipts : ℕ → ℕ → ℕ → List Executed → List Receipt
block_receipts hash number i [] = []
block_receipts hash number i (e ∷ es) =
    record e.receipt { block_hash = hash; block_number = number; transaction_index = i }
    ∷ block_receipts hash number (suc i) es

-- The first transaction with the hash.
unfoldable pub find_tx : ℕ → List Tx → Option Tx
find_tx h [] = none
find_tx h (t ∷ ts) = if t.hash == h then some t else find_tx h ts

keep_found : Option Tx → List Tx → List Tx
keep_found none ts = ts
keep_found (some t) ts = t ∷ ts

unfoldable pub executed_txs : List Tx → List Executed → List Tx
unfolding keep_found
executed_txs txs [] = []
executed_txs txs (e ∷ es) = keep_found (find_tx e.receipt.tx_hash txs) (executed_txs txs es)

abbrev pub block_gas_limit : ℕ
block_gas_limit = 30_000_000

-- What ExecuteAndCommitBlock returns: the block, `none` for an error, and the skipped transactions.
pub record Outcome : Type 0 where
  pub block : Option L2Block
  pub skipped : List Tx

-- The block that is built of what was executed.
unfoldable pub build_block :
    {D S : Type 0} → Manager D → List Tx → ℕ → ℕ → ℕ → ℕ → ℕ → Progress S → L2Block
build_block m txs number timestamp parent base_fee root p =
    let hash = compute_block_hash number root timestamp parent in
    let kept = executed_txs txs p.executed in
    record {
      header = record {
        number = number;
        hash = hash;
        parent_hash = parent;
        timestamp = timestamp;
        state_root = root;
        gas_used = p.cumulative_gas;
        gas_limit = block_gas_limit;
        tx_count = length kept;
        sequencer_addr = m.sequencer_addr;
        l1_origin = m.l1_origin;
        base_fee = base_fee;
      };
      transactions = kept;
      receipts = block_receipts hash number 0 p.executed;
    }

-- The last steps: the block is written, and the tip moves.
persist : {D : Type 0} → Manager D → L2Block → List Tx → Bool × ChainDb → Outcome × Manager D
persist m b skipped (false, chain) =
    (record { block = none; skipped = skipped }, record m { chain = chain })
persist m b skipped (true, chain) = (
  record { block = some b; skipped = skipped },
  record m { chain = chain; current_block = b.header.number; state_root = b.header.state_root },
)

abbrev pub execution_context : {D : Type 0} → Manager D → ℕ → ℕ → ℕ → ℕ → ExecutionContext
execution_context m number timestamp parent base_fee = record {
  block_number = number;
  timestamp = timestamp;
  coinbase = m.sequencer_addr;
  gas_limit = block_gas_limit;
  base_fee = base_fee;
  parent_hash = parent;
}

unfoldable pub genesis_committed : {D : Type 0} → Manager D → Option ℕ × D → Option (Manager D)
genesis_committed m (none, d) = none
genesis_committed m (some root, d) =
    some (record m { disk = d; state_root = root; chain = write_genesis_root m.chain root })

unfoldable pub origin_or_none : Found L1Origin → L1Origin
origin_or_none (found o) = o
origin_or_none _ = no_origin

-- The manager as NewManager first fills it in.
abbrev pub fresh_manager : {D : Type 0} → ℕ → ℕ → D → ChainDb → Manager D
fresh_manager chain_id sequencer_addr disk chain = record {
  disk = disk;
  chain = chain;
  current_block = 0;
  state_root = 0;
  l1_origin = no_origin;
  is_sequencing = true;
  sequencer_addr = sequencer_addr;
  chain_id = chain_id;
}

module _ {D S : Type 0} (trie : TrieDb D S) ⦃db : StateDb S⦄ ⦃evm : Evm S⦄ where
  -- What follows the commit of the state.
  after_commit :
      Bool → Manager D → List Tx → ℕ → ℕ → ℕ → ℕ → Progress S → Option ℕ × D → Outcome × Manager D
  unfolding persist
  after_commit writes m txs number timestamp parent base_fee p (none, d) =
      (record { block = none; skipped = p.skipped }, record m { disk = d })
  after_commit writes m txs number timestamp parent base_fee p (some root, d) =
      let b = build_block m txs number timestamp parent base_fee root p in
      persist (record m { disk = d }) b p.skipped (write_block writes m.chain b)

  unfoldable pub execute_and_commit_block :
      Bool → Manager D → List Tx → ℕ → ℕ → ℕ → ℕ → Outcome × Manager D
  unfolding after_commit
  execute_and_commit_block writes m txs number timestamp parent base_fee =
      elim (open_state trie m.disk m.state_root) [
        | none ↦ (record { block = none; skipped = [] }, m)
        | some s ↦
            let p =
              execute_transactions s txs (execution_context m number timestamp parent base_fee) in
            after_commit writes m txs number timestamp parent base_fee p
              (commit_state trie m.disk p.state number)
      ]

  -- NewManager on a fresh disk, after the chain database was opened. `init` is what
  -- Genesis.InitializeState makes of the empty state, none for an error.
  unfoldable pub from_genesis : Manager D → (S → Option S) → Option (Manager D)
  unfolding genesis_committed
  from_genesis m init = elim (open_state trie m.disk 0) [
    | none ↦ none
    | some s ↦ elim (init s) [
      | none ↦ none
      | some s' ↦ genesis_committed m (commit_state trie m.disk s' 0)
    ]
  ]

  unfoldable pub new_manager : ℕ → ℕ → D → Db → (S → Option S) → Option (Manager D)
  unfolding from_genesis origin_or_none
  new_manager chain_id sequencer_addr disk db init =
      let chain = new_chain_db db in
      let m = fresh_manager chain_id sequencer_addr disk chain in
      elim (read_genesis_root chain) [
        | some (suc r) ↦ some (record m {
          current_block = chain.current_block;
          state_root = chain.state_root;
          l1_origin = origin_or_none (read_l1_origin chain);
        })
        | _ ↦ from_genesis m init
      ]

  unfoldable pub get_balance : Manager D → ℕ → ℕ
  get_balance m addr = elim (open_state trie m.disk m.state_root) [
    | none ↦ 0
    | some s ↦ db.get_balance s addr
  ]

  unfoldable pub get_nonce : Manager D → ℕ → ℕ
  get_nonce m addr = elim (open_state trie m.disk m.state_root) [
    | none ↦ 0
    | some s ↦ db.get_nonce s addr
  ]

module _ {D : Type 0} where
  unfoldable pub get_block : Manager D → ℕ → Found L2Block
  get_block m number = read_block m.chain number

  -- Nil for an error.
  unfoldable pub get_block_by_hash : Manager D → ℕ → Found L2Block
  get_block_by_hash m h = elim (read_block_by_hash m.chain h) [ none ↦ absent | some r ↦ r ]

  -- `none` is a panic.
  unfoldable pub get_block_hash : Manager D → ℕ → Option ℕ
  get_block_hash m number = read_block_hash m.chain number

  unfoldable pub get_transaction : Manager D → ℕ → Found Tx
  get_transaction m h = read_transaction m.chain h

  unfoldable pub get_receipt : Manager D → ℕ → Found Receipt
  get_receipt m h = read_receipt m.chain h

  unfoldable pub get_tx_block_number : Manager D → ℕ → Option ℕ
  get_tx_block_number m h = read_tx_block_number m.chain h

  -- An error of the write is dropped, after the origin in memory has changed.
  unfoldable pub set_l1_origin : Bool → Manager D → L1Origin → Manager D
  set_l1_origin writes m o = record m {
    l1_origin = o;
    chain = (write_l1_origin writes m.chain o).1;
  }

  -- An error of the write is dropped.
  unfoldable pub add_batch : Bool → Manager D → Batch → Manager D
  add_batch writes m b = record m { chain = (write_batch writes m.chain b).1 }

  unfoldable pub get_latest_batch : Manager D → Found Batch
  get_latest_batch m = read_latest_batch m.chain

  -- The sum of the two numbers, as a hash.
  unfoldable pub simulate_l1_submission : Manager D → ℕ → ℕ → ℕ
  simulate_l1_submission m start end' = start + end'
