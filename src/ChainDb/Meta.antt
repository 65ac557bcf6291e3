-- ===== src/ChainDb/Meta.antt =====
-- internal/execution/chaindb.go: what the writes leave of the entries that NewChainDB and the reads
-- of the genesis root and the L1 origin look up.
use inso_sequencer.Base.{if◌then◌else◌, ℕ, ◌≡◌, refl, Bool, true, false, List, [], ◌∷◌, ◌==◌}
use inso_sequencer.Types.{Tx, Receipt, L2Block, L1Origin, Batch}
use inso_sequencer.ChainDb.{
  get, write_all, key_genesis_root, key_l1_origin, ChainDb, new_chain_db, tx_writes, receipt_writes,
  block_writes, write_block, write_batch, read_genesis_root, write_l1_origin, read_l1_origin, found,
}
use inso_sequencer.ChainDb.Keys.{IsFresh, get-write_all, IsFresh-append}

tx_writes-IsFresh_head :
    (num : ℕ) (ts : List Tx) (x : ℕ) (s : List ℕ)
    → (b't' == x) ≡ false
    → IsFresh (x ∷ s) (tx_writes num ts)
unfolding tx_writes
tx_writes-IsFresh_head num [] x s e = tt
tx_writes-IsFresh_head num (t ∷ ts) x s e =
    (rw e refl, (rw e refl, tx_writes-IsFresh_head num ts x s e))

receipt_writes-IsFresh_head :
    (rs : List Receipt) (x : ℕ) (s : List ℕ)
    → (b'r' == x) ≡ false
    → IsFresh (x ∷ s) (receipt_writes rs)
unfolding receipt_writes
receipt_writes-IsFresh_head [] x s e = tt
receipt_writes-IsFresh_head (r ∷ rs) x s e = (rw e refl, receipt_writes-IsFresh_head rs x s e)

block_writes-IsFresh :
    (b : L2Block)
    → IsFresh key_genesis_root (block_writes b) × IsFresh key_l1_origin (block_writes b)
unfolding block_writes
block_writes-IsFresh b =
    let num = b.header.number in
    (
      (
        refl,
        (
          refl,
          IsFresh-append key_genesis_root (tx_writes num b.transactions) _
              (tx_writes-IsFresh_head num b.transactions _ _ refl)
              (IsFresh-append key_genesis_root (receipt_writes b.receipts) _
                (receipt_writes-IsFresh_head b.receipts _ _ refl) (refl, (refl, tt))),
        ),
      ),
      (
        refl,
        (
          refl,
          IsFresh-append key_l1_origin (tx_writes num b.transactions) _
              (tx_writes-IsFresh_head num b.transactions _ _ refl)
              (IsFresh-append key_l1_origin (receipt_writes b.receipts) _
                (receipt_writes-IsFresh_head b.receipts _ _ refl) (refl, (refl, tt))),
        ),
      ),
    )

-- WriteBlock keeps the genesis root and the L1 origin.
pub write_block-meta :
    (writes : Bool) (c : ChainDb) (b : L2Block)
    → (read_genesis_root (write_block writes c b).1 ≡ read_genesis_root c)
      × (read_l1_origin (write_block writes c b).1 ≡ read_l1_origin c)
unfolding write_block read_genesis_root read_l1_origin
write_block-meta true c b = (
  rw
      (
        read_genesis_root,
        get-write_all (block_writes b) c.db key_genesis_root (block_writes-IsFresh b).0,
      )
      refl,
  rw (read_l1_origin, get-write_all (block_writes b) c.db key_l1_origin (block_writes-IsFresh b).1)
      refl,
)
write_block-meta false c b = (refl, refl)

-- WriteBatch keeps the tip, the genesis root and the L1 origin.
pub write_batch-meta :
    (writes : Bool) (c : ChainDb) (b : Batch)
    → ((new_chain_db (write_batch writes c b).1.db).current_block
        ≡ (new_chain_db c.db).current_block)
      × ((new_chain_db (write_batch writes c b).1.db).state_root ≡ (new_chain_db c.db).state_root)
      × (read_genesis_root (write_batch writes c b).1 ≡ read_genesis_root c)
      × (read_l1_origin (write_batch writes c b).1 ≡ read_l1_origin c)
unfolding write_batch new_chain_db read_genesis_root read_l1_origin get write_all
write_batch-meta true c b = (refl, refl, refl, refl)
write_batch-meta false c b = (refl, refl, refl, refl)

-- WriteL1Origin keeps the tip and the genesis root, and its origin is read back if it is written.
pub write_l1_origin-meta :
    (writes : Bool) (c : ChainDb) (o : L1Origin)
    → ((new_chain_db (write_l1_origin writes c o).1.db).current_block
        ≡ (new_chain_db c.db).current_block)
      × ((new_chain_db (write_l1_origin writes c o).1.db).state_root
          ≡ (new_chain_db c.db).state_root)
      × (read_genesis_root (write_l1_origin writes c o).1 ≡ read_genesis_root c)
      × (read_l1_origin (write_l1_origin writes c o).1
          ≡ (if writes then found o else read_l1_origin c))
unfolding write_l1_origin new_chain_db read_genesis_root read_l1_origin get
write_l1_origin-meta true c o = (refl, refl, refl, refl)
write_l1_origin-meta false c o = (refl, refl, refl, refl)
