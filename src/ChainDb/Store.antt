-- ===== src/ChainDb/Store.antt =====
-- internal/execution/chaindb.go: what the reads return after WriteBlock and WriteBatch.
use inso_sequencer.Base.{
  ℕ, ◌+◌, ◌%◌, ◌/◌, ◌^◌, ◌<◌, ◌≡◌, refl, ◌∙◌, true, false, List, [], ◌∷◌, ◌++◌, some, ◌==◌, arith,
  Returns, returns,
}
use inso_sequencer.Types.{Tx, Receipt, L2Block, Batch}
use inso_sequencer.ChainDb.{
  bytes_from, number_bytes, hash_bytes, block, number, batch, Db, get, write_all, block_key,
  block_hash_key, ChainDb, found, foreign, new_chain_db, tx_writes, receipt_writes, block_writes,
  write_block, as_block, read_block, read_block_by_hash, write_batch,
}
use inso_sequencer.ChainDb.{read_latest_batch, as_batch, Found, absent, IsReadable, hash_of}
use inso_sequencer.ChainDb.Keys.{
  to_number-number_bytes, bytes_eq_refl, IsFresh, get-write_all, IsFresh-append,
}

-- The keys of blocks and of block hashes are no keys of transactions or receipts.
tx_writes-IsFresh :
    (num : ℕ) (ts : List Tx) (s : List ℕ)
    → IsFresh (b'b' ∷ s) (tx_writes num ts) × IsFresh (b'h' ∷ s) (tx_writes num ts)
unfolding tx_writes
tx_writes-IsFresh num [] s = (tt, tt)
tx_writes-IsFresh num (t ∷ ts) s =
    let (e, e') = tx_writes-IsFresh num ts s in ((refl, (refl, e)), (refl, (refl, e')))

receipt_writes-IsFresh :
    (rs : List Receipt) (s : List ℕ)
    → IsFresh (b'b' ∷ s) (receipt_writes rs) × IsFresh (b'h' ∷ s) (receipt_writes rs)
unfolding receipt_writes
receipt_writes-IsFresh [] s = (tt, tt)
receipt_writes-IsFresh (r ∷ rs) s =
    let (e, e') = receipt_writes-IsFresh rs s in ((refl, e), (refl, e'))

write_all-append : (ws vs db : Db) → write_all (ws ++ vs) db ≡ write_all vs (write_all ws db)
unfolding write_all
write_all-append [] vs db = refl
write_all-append (w ∷ ws) vs db = write_all-append ws vs (w ∷ db)

get-block :
    (b : L2Block) (db : Db)
    → get (write_all (block_writes b) db) (block_key b.header.number) ≡ some (block b)
unfolding block_writes get write_all
get-block b db =
    let key = number_bytes b.header.number in
    get-write_all _ _ (block_key b.header.number) (
      IsFresh-append _ (tx_writes b.header.number b.transactions) _
        (tx_writes-IsFresh _ b.transactions key).0
        (IsFresh-append _ (receipt_writes b.receipts) _ (receipt_writes-IsFresh b.receipts key).0
          (refl, (refl, tt))))
    ∙ rw (bytes_eq_refl key) refl

get-block_hash :
    (b : L2Block) (db : Db)
    → get (write_all (block_writes b) db) (block_hash_key b.header.hash)
      ≡ some (number (number_bytes b.header.number))
unfolding block_writes get write_all
get-block_hash b db =
    let key = hash_bytes b.header.hash in
    get-write_all _ _ (block_hash_key b.header.hash) (
      IsFresh-append _ (tx_writes b.header.number b.transactions) _
        (tx_writes-IsFresh _ b.transactions key).1
        (IsFresh-append _ (receipt_writes b.receipts) _ (receipt_writes-IsFresh b.receipts key).1
          (refl, (refl, tt))))
    ∙ rw (bytes_eq_refl key) refl

-- A block that is written is read back by its number and by its hash.
pub write_block-read :
    (c : ChainDb) (b : L2Block)
    → (read_block (write_block true c b).1 b.header.number ≡ found b)
      × (read_block_by_hash (write_block true c b).1 b.header.hash ≡ some (found b))
unfolding write_block read_block read_block_by_hash as_block
write_block-read c b = (
  rw (get-block b c.db) refl,
  rw (read_block_by_hash, get-block_hash b c.db, get-block b c.db) refl,
)

-- A store that is opened again after a block is written gives the block's number, if it fits in 64
-- bits, as the current block, and the block's state root as the current root.
pub new_chain_db-write_block :
    (c : ChainDb) (b : L2Block)
    → b.header.number < 2 ^ 64
    → new_chain_db (write_block true c b).1.db ≡ (write_block true c b).1
unfolding new_chain_db write_block block_writes get write_all
new_chain_db-write_block c b h =
    rw
      (
        write_all-append (tx_writes b.header.number b.transactions),
        write_all-append (receipt_writes b.receipts),
      )
      (rw (to_number-number_bytes b.header.number h) refl)

-- A block that is written, with a number that fits in 64 bits, is read back by its number and by its
-- hash, and a store that is opened again then has its number as the current block and its state root as
-- the current root.
pub write_block_persists :
    (c : ChainDb) (b : L2Block)
    → b.header.number < 2 ^ 64
    → (read_block (write_block true c b).1 b.header.number ≡ found b)
      × (read_block_by_hash (write_block true c b).1 b.header.hash ≡ some (found b))
      × (new_chain_db (write_block true c b).1.db ≡ (write_block true c b).1)
write_block_persists c b h =
    let reads = write_block-read c b in (reads.0, reads.1, new_chain_db-write_block c b h)

-- Only what is decoded from an object of another kind has no hash to read.
pub hash_of_total : (r : Found L2Block) → IsReadable r → Returns (λ _. Unit {0}) (hash_of r)
unfolding hash_of
hash_of_total absent ok = returns tt
hash_of_total (found b) ok = returns tt
hash_of_total (foreign v) ok = absurd ok

number_bytes-below : (i : ℕ) → 0 < i → i < 256 → number_bytes i ≡ i ∷ []
unfolding number_bytes bytes_from
number_bytes-below i h k =
    let some_left : (i == 0) ≡ false = ground arith in
    let high : i / 256 ≡ 0 = omega arith in
    let low : i % 256 ≡ i = omega arith in rw (some_left, high, low) refl

number_bytes-bt : (i : ℕ) → i < 256 → number_bytes (29_696 + i) ≡ b't' ∷ i ∷ []
unfolding number_bytes bytes_from
number_bytes-bt i k =
    let some_left : (29_696 + i == 0) ≡ false = ground arith in
    let high : (29_696 + i) / 256 ≡ 116 = omega arith in
    let low : (29_696 + i) % 256 ≡ i = omega arith in rw (some_left, high, low) refl

-- A batch whose index is from 1 to 255 takes the place of block 29,696 plus the index: the key of
-- this block is the key of the batch.
pub write_batch_overwrites :
    (c : ChainDb) (b : Batch)
    → 0 < b.index
    → b.index < 256
    → read_block (write_batch true c b).1 (29_696 + b.index) ≡ foreign (batch b)
unfolding write_batch read_block as_block get write_all
write_batch_overwrites c b h k =
    rw (number_bytes-bt b.index k, number_bytes-below b.index h k, bytes_eq_refl (b.index ∷ []))
      refl

-- A batch that is written is the latest batch.
pub write_batch-read :
    (c : ChainDb) (b : Batch) → read_latest_batch (write_batch true c b).1 ≡ found b
unfolding write_batch read_latest_batch as_batch get write_all
write_batch-read c b = rw (bytes_eq_refl (number_bytes b.index)) refl
