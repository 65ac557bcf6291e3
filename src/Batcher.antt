-- ===== src/Batcher.antt =====
-- internal/batcher/batcher.go: the submission of batches of blocks to L1. RLP and zlib are
-- parameters, `Codec`, with none for an error; the L1 client is the source's interface, `L1Client`,
-- over a state of its own. The clock is an argument, and so is `writes`, whether the store takes the
-- batch. The tickers are not modelled: submitBatch and checkConfirmations are steps in any order.
pub mod Cover
pub mod Submission
pub mod Confirmation
use inso_sequencer.Base.{
  ℕ, zero, suc, ◌+◌, ◌-◌, ◌%◌, ◌^◌, Bool, true, false, List, [], ◌∷◌, ◌++◌, Option, none, some, leb,
  if◌then◌else◌, ◌>>=◌, length, put,
}
use inso_sequencer.Word.{add64}
use inso_sequencer.Types.{Tx, L1Origin, L2Block, Batch, BatchStatus, submitted, confirmed}
use inso_sequencer.ChainDb.{Found, absent, found, foreign}
use inso_sequencer.Manager.{Manager, get_block, set_l1_origin, add_batch}

pub record BlockData : Type 0 where
  pub number : ℕ
  pub hash : ℕ
  pub parent_hash : ℕ
  pub timestamp : ℕ
  pub state_root : ℕ
  pub gas_used : ℕ
  pub tx_count : ℕ
  pub tx_data : List (List ℕ)

pub record BatchFrame : Type 0 where
  pub version : ℕ
  pub chain_id : ℕ
  pub start_block : ℕ
  pub end_block : ℕ
  pub timestamp : ℕ
  pub blocks : List BlockData

pub record Codec : Type 0 where
  pub encode_tx : Tx → Option (List ℕ)
  pub encode_frame : BatchFrame → Option (List ℕ)
  pub compress : List ℕ → Option (List ℕ)

pub record L1Client (L : Type 0) : Type 0 where
  pub send_batch_tx : L → List ℕ → Option ℕ × L
  -- The number and the hash of the block.
  pub latest_l1_block : L → Option (ℕ × ℕ) × L
  pub is_confirmed : L → ℕ → ℕ → Option Bool

-- `SimulatedL1Client`: its state is the number of its block.
abbrev pub simulated_l1_client : L1Client ℕ
simulated_l1_client = record {
  send_batch_tx = λ n data_bytes. (some (n + 1 + length data_bytes), n + 1);
  latest_l1_block = λ n. (some (n + 1, n + 1), n + 1);
  is_confirmed = λ n h k. some true;
}

pub record Batcher : Type 0 where
  pub last_batch_block : ℕ
  pub batch_index : ℕ
  pub chain_id : ℕ
  pub pending_batches : List (ℕ × Batch)

-- `New`
unfoldable pub new : ℕ → Batcher
new chain_id = record {
  last_batch_block = 0;
  batch_index = 0;
  chain_id = chain_id;
  pending_batches = [];
}

-- The batcher with what it shares: the state manager and the L1 client.
pub record World (D L : Type 0) : Type 0 where
  pub batcher : Batcher
  pub manager : Manager D
  pub l1 : L

encode_txs : Codec → List Tx → Option (List (List ℕ))
encode_txs k [] = some []
encode_txs k (t ∷ ts) = do bs ← k.encode_tx t; rest ← encode_txs k ts; some (bs ∷ rest)

block_data : Codec → L2Block → Option BlockData
unfolding encode_txs
block_data k b = do
  txs ← encode_txs k b.transactions
  some (record {
    number = b.header.number;
    hash = b.header.hash;
    parent_hash = b.header.parent_hash;
    timestamp = b.header.timestamp;
    state_root = b.header.state_root;
    gas_used = b.header.gas_used;
    tx_count = b.header.tx_count;
    tx_data = txs;
  })

-- None is a panic, `some none` an error.
abbrev pub Attempt : Type 0 → Type 0
Attempt A = Option (Option A)

-- What follows a call that neither panics nor fails.
pub and_then : {A B : Type 0} → Attempt A → (A → Attempt B) → Attempt B
and_then none f = none
and_then (some none) f = some none
and_then (some (some a)) f = f a

-- A missing block is an error; what is decoded from an object of another kind has no header, and
-- reading its number panics.
found_block : Found L2Block → Attempt L2Block
found_block (found b) = some (some b)
found_block absent = some none
found_block (foreign v) = none

-- The loop of buildBatchFrame: `count` blocks from `number` on.
unfoldable pub collect_blocks : {D : Type 0} → Codec → Manager D → ℕ → ℕ → Attempt (List BlockData)
unfolding block_data found_block and_then
collect_blocks k m zero number = some (some [])
collect_blocks k m (suc count) number = and_then (found_block (get_block m number)) λ b.
    and_then (some (block_data k b))
      λ bd. and_then (collect_blocks k m count (suc number)) λ rest. some (some (bd ∷ rest))

unfoldable pub build_batch_frame :
    {D : Type 0} → Codec → Batcher → Manager D → ℕ → ℕ → ℕ → Attempt BatchFrame
unfolding and_then
build_batch_frame k b m start end now =
    and_then (collect_blocks k m (end + 1 - start) start) λ blocks. some (
      some (record {
        version = 1;
        chain_id = b.chain_id;
        start_block = start;
        end_block = end;
        timestamp = now;
        blocks = blocks;
      }))

-- The frame, encoded and compressed.
unfoldable pub batch_bytes :
    {D : Type 0} → Codec → Batcher → Manager D → ℕ → ℕ → ℕ → Attempt (List ℕ)
unfolding and_then
batch_bytes k b m start end now =
    and_then (build_batch_frame k b m start end now)
      λ frame. some (k.encode_frame frame >>= λ encoded. k.compress encoded)

unfoldable pub move_origin : {D : Type 0} → Bool → ℕ → Manager D → Option (ℕ × ℕ) → Manager D
move_origin writes now m none = m
move_origin writes now m (some (number, hash)) =
    set_l1_origin writes m (record { block_number = number; block_hash = hash; timestamp = now })

-- What submitBatch does with the answer of SendBatchTx. The batch, if any, is returned too.
unfoldable pub record_batch :
    {D L : Type 0}
    → Bool
    → Batcher
    → Manager D
    → ℕ
    → ℕ
    → ℕ
    → List ℕ
    → Option ℕ × L
    → Option Batch × World D L
record_batch writes b m start end now compressed (none, l1) =
    (none, record { batcher = b; manager = m; l1 = l1 })
record_batch writes b m start end now compressed (some h, l1) =
    let sent : Batch = record {
      index = add64 b.batch_index 1;
      start_block = start;
      end_block = end;
      block_count = end + 1 - start;
      l1_tx_hash = h;
      timestamp = now;
      size_bytes = length compressed;
      status = submitted;
    } in
    (
      some sent,
      record {
        batcher = record b {
          last_batch_block = end;
          batch_index = add64 b.batch_index 1;
          pending_batches = put h sent b.pending_batches;
        };
        manager = add_batch writes m sent;
        l1 = l1;
      },
    )

-- Whether the store takes the L1 origin, and the batch.
pub record Writes : Type 0 where
  pub origin : Bool
  pub batch : Bool

module _ {D L : Type 0} (client : L1Client L) (k : Codec) where
  unfoldable pub send_batch : Writes → World D L → ℕ → ℕ → ℕ → List ℕ → Option Batch × World D L
  send_batch writes w start end now compressed =
      let (latest, l1) = client.latest_l1_block w.l1 in
      let m = move_origin writes.origin now w.manager latest in
      record_batch writes.batch w.batcher m start end now compressed
        (client.send_batch_tx l1 compressed)

  -- None for a panic.
  unfoldable pub submit_batch : Writes → World D L → ℕ → Option (Option Batch × World D L)
  submit_batch writes w now =
      let start = add64 w.batcher.last_batch_block 1 in
      let end = w.manager.current_block in
      let go : Option (Option Batch × World D L) =
        elim (batch_bytes k w.batcher w.manager start end now) [
          | none ↦ none
          | some none ↦ some (none, w)
          | some (some compressed) ↦ some (send_batch writes w start end now compressed)
        ] in
      if leb end w.batcher.last_batch_block then some (none, w) else go

-- Six confirmations are asked for. Returns the batches that stay pending, and the confirmed ones.
module _ {L : Type 0} (client : L1Client L) where
  sort_out : ℕ → Batch → Option Bool → List (ℕ × Batch) × List Batch → List (ℕ × Batch) × List Batch
  sort_out h b (some true) (left, done) = (left, record b { status = confirmed } ∷ done)
  sort_out h b (some false) (left, done) = ((h, b) ∷ left, done)
  sort_out h b none (left, done) = ((h, b) ∷ left, done)

  confirm_each : L → List (ℕ × Batch) → List (ℕ × Batch) × List Batch
  unfolding sort_out
  confirm_each l [] = ([], [])
  confirm_each l ((h, b) ∷ ps) = sort_out h b (client.is_confirmed l h 6) (confirm_each l ps)

  unfoldable pub check_confirmations : {D : Type 0} → World D L → List Batch × World D L
  unfolding confirm_each
  check_confirmations w =
      let (left, done) = confirm_each w.l1 w.batcher.pending_batches in
      (done, record w { batcher = record w.batcher { pending_batches = left } })
