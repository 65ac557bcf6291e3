-- ===== src/Batcher/Submission.antt =====
-- internal/batcher/batcher.go: when a submission succeeds, and what becomes of the batch.
use inso_sequencer.Base.{
  ℕ, zero, suc, ◌+◌, ◌-◌, ◌≤◌, ◌<◌, ◌≡◌, ◌⊎◌, refl, ap, ◌∙◌, inl, inr, Bool, true, false, List, [],
  ◌∷◌, Option, none, some, leb, length, arith, Bool-cases, Option-cases, Returns, returns,
  Returns-map, Returns-bind, Returns-inv,
}
use inso_sequencer.Word.{u64_mod, add64}
use inso_sequencer.Types.{Tx, L2Block, Batch, submitted}
use inso_sequencer.ChainDb.{found}
use inso_sequencer.ChainDb.Store.{write_batch-read}
use inso_sequencer.Manager.{Manager, get_block, add_batch, get_latest_batch}
use inso_sequencer.Batcher.{
  BatchFrame, Codec, L1Client, Batcher, World, encode_txs, block_data, found_block, Attempt,
  and_then, Writes, collect_blocks, build_batch_frame, batch_bytes, move_origin, record_batch,
  send_batch, submit_batch, check_confirmations,
}

-- The call returns no error.
abbrev pub Succeeds : {A : Type 0} → Option A → Type 0
Succeeds = Returns (λ _. Unit {0})

-- The call neither panics nor fails.
abbrev pub Completes : {A : Type 0} → (A → Type 0) → Attempt A → Type 0
Completes P = Returns (Returns P)

and_then-Completes :
    {A B : Type 0} {P : A → Type 0} {Q : B → Type 0} {m : Attempt A} {f : A → Attempt B}
    → Completes P m
    → ((a : A) → P a → Completes Q (f a))
    → Completes Q (and_then m f)
unfolding and_then
and_then-Completes (returns (returns p)) step = step _ p

-- No encoding and no compression fails.
pub record IsTotal (k : Codec) : Type 0 where
  pub tx : (t : Tx) → Succeeds (k.encode_tx t)
  pub frame : (f : BatchFrame) → Succeeds (k.encode_frame f)
  pub compressed : (bs : List ℕ) → Succeeds (k.compress bs)

module _ (k : Codec) (total : IsTotal k) where
  encode_txs_total : (ts : List Tx) → Succeeds (encode_txs k ts)
  unfolding encode_txs
  encode_txs_total [] = returns tt
  encode_txs_total (t ∷ ts) =
      Returns-bind (total.tx t) λ _ _. Returns-bind (encode_txs_total ts) λ _ _. returns tt

  block_data_total : (b : L2Block) → Succeeds (block_data k b)
  unfolding block_data
  block_data_total b = Returns-bind (encode_txs_total b.transactions) λ _ _. returns tt

  found_block_total :
      {D : Type 0} (m : Manager D) (n : ℕ)
      → (b : L2Block) × (get_block m n ≡ found b)
      → Completes (λ _. Unit {0}) (found_block (get_block m n))
  unfolding found_block
  found_block_total m n (b, e) = rw e (returns (returns tt))

  collect_blocks_total :
      {D : Type 0} (m : Manager D) (count n : ℕ)
      → ((i : ℕ) → n ≤ i → i < n + count → (b : L2Block) × (get_block m i ≡ found b))
      → Completes (λ bs. length bs ≡ count) (collect_blocks k m count n)
  unfolding collect_blocks
  collect_blocks_total m zero n stored = returns (returns refl)
  collect_blocks_total m (suc count) n stored =
      and_then-Completes (found_block_total m n (stored n (omega arith) (omega arith))) λ b _.
        and_then-Completes (returns (block_data_total b)) λ bd _.
          and_then-Completes
            (collect_blocks_total m count (suc n) λ i h l. stored i (omega arith) (omega arith))
            λ bs size. returns (returns (omega (arith, size)))

  build_batch_frame_total :
      {D : Type 0} (b : Batcher) (m : Manager D) (start end now : ℕ)
      → ((i : ℕ)
          → start ≤ i
          → i < start + (end + 1 - start)
          → (c : L2Block) × (get_block m i ≡ found c))
      → Completes (λ _. Unit {0}) (build_batch_frame k b m start end now)
  unfolding build_batch_frame
  build_batch_frame_total b m start end now stored =
      and_then-Completes (collect_blocks_total m (end + 1 - start) start stored)
        λ bs _. returns (returns tt)

  batch_bytes_total :
      {D : Type 0} (b : Batcher) (m : Manager D) (start end now : ℕ)
      → ((i : ℕ)
          → start ≤ i
          → i < start + (end + 1 - start)
          → (c : L2Block) × (get_block m i ≡ found c))
      → Completes (λ _. Unit {0}) (batch_bytes k b m start end now)
  unfolding batch_bytes
  batch_bytes_total b m start end now stored =
      and_then-Completes (build_batch_frame_total b m start end now stored)
        λ f _. returns (Returns-bind (total.frame f) λ bs _. total.compressed bs)

-- The client takes what it is sent, whatever its state.
abbrev pub Accepts : {L : Type 0} → L1Client L → Type 0
Accepts {L} client = (l : L) (bs : List ℕ) → Succeeds (client.send_batch_tx l bs).0

-- A batch from the block after `last` to the block `end`, which is submitted, and is what the world
-- has as its last one.
record_batch_sends :
    {D L : Type 0} (writes : Bool) (b : Batcher) (m : Manager D) (start end now : ℕ)
    (bytes : List ℕ) (answer : Option ℕ × L)
    → Succeeds answer.0
    → Returns
        (λ sent.
          (sent.start_block ≡ start)
          × (sent.end_block ≡ end)
          × ((record_batch writes b m start end now bytes answer).1.batcher.last_batch_block ≡ end))
        (record_batch writes b m start end now bytes answer).0
unfolding record_batch
record_batch_sends writes b m start end now bytes (none, l1) s = elim s [ ]
record_batch_sends writes b m start end now bytes (some h, l1) s = returns (refl, refl, refl)

module _ {D L : Type 0} (client : L1Client L) (k : Codec) where
  -- When every block after the last submitted one is stored, no encoding fails and the client takes
  -- what it is sent, submitBatch submits a batch of all the new blocks: the last submitted block is
  -- the current one.
  pub submit_batch_live :
      (writes : Writes) (w : World D L) (now : ℕ)
      → IsTotal k
      → Accepts client
      → w.batcher.last_batch_block < w.manager.current_block
      → w.manager.current_block < u64_mod
      → ((i : ℕ)
          → w.batcher.last_batch_block < i
          → i ≤ w.manager.current_block
          → (b : L2Block) × (get_block w.manager i ≡ found b))
      → Returns
          (λ r.
            Returns
              (λ b.
                (b.start_block ≡ w.batcher.last_batch_block + 1)
                × (b.end_block ≡ w.manager.current_block)
                × (r.1.batcher.last_batch_block ≡ w.manager.current_block))
              r.0)
          (submit_batch client k writes w now)
  unfolding submit_batch send_batch
  submit_batch_live writes w now total accepts behind word stored =
      let fresh : leb w.manager.current_block w.batcher.last_batch_block ≡ false = ground arith in
      let start = add64 w.batcher.last_batch_block 1 in
      let s : start ≡ w.batcher.last_batch_block + 1 = omega arith in
      let (o, at, sub) = Returns-inv (
        batch_bytes_total k total w.batcher w.manager start w.manager.current_block now
          λ i h l. stored i (omega (arith, s)) (omega (arith, s))) in
      let (bytes, some_bytes, _) = Returns-inv sub in
      let e = at ∙ ap (λ (o : Option (List ℕ)). some o) some_bytes in
      let sent =
        record_batch_sends writes.batch w.batcher
          (move_origin writes.origin now w.manager (client.latest_l1_block w.l1).0) start
          w.manager.current_block now bytes
          (client.send_batch_tx (client.latest_l1_block w.l1).1 bytes)
          (accepts (client.latest_l1_block w.l1).1 bytes) in
      rw (fresh, e, submit_batch) (returns (Returns-map sent λ b (p, q, r). (p ∙ s, q, r)))

record_batch_stores :
    {D L : Type 0} (b : Batcher) (m : Manager D) (start end now : ℕ) (bytes : List ℕ)
    (answer : Option ℕ × L)
    → Returns
        (λ sent.
          (sent.status ≡ submitted)
          × (get_latest_batch (record_batch true b m start end now bytes answer).1.manager
              ≡ found sent))
        (record_batch true b m start end now bytes answer).0
      ⊎ ((record_batch true b m start end now bytes answer).0 ≡ none)
unfolding record_batch add_batch get_latest_batch
record_batch_stores b m start end now bytes (none, l1) = inr refl
record_batch_stores b m start end now bytes (some h, l1) =
    inl (returns (refl, write_batch-read m.chain _))

some-injective : {A : Type 0} {a b : A} → some a ≡ some b → b ≡ a
some-injective e = cc

pub confirm_rounds : {D L : Type 0} → L1Client L → ℕ → World D L → World D L
confirm_rounds client zero w = w
confirm_rounds client (suc n) w = confirm_rounds client n (check_confirmations client w).1

confirm_rounds-manager :
    {D L : Type 0} (client : L1Client L) (n : ℕ) (w : World D L)
    → (confirm_rounds client n w).manager ≡ w.manager
unfolding confirm_rounds check_confirmations
confirm_rounds-manager client zero w = refl
confirm_rounds-manager client (suc n) w =
    confirm_rounds-manager client n (check_confirmations client w).1

module _ {D L : Type 0} (client : L1Client L) (k : Codec) where
  -- If the store takes the batches, then a batch that submitBatch submits is the latest batch of the
  -- store after it, and after any number of confirmation checks too, with the status submitted.
  pub submit_batch_stores :
      (writes : Writes) (w : World D L) (now rounds : ℕ) (r : Option Batch × World D L)
      → writes.batch ≡ true
      → submit_batch client k writes w now ≡ some r
      → Returns
          (λ sent.
            (sent.status ≡ submitted)
            × (get_latest_batch (confirm_rounds client rounds r.1).manager ≡ found sent))
          r.0
        ⊎ (r.0 ≡ none)
  unfolding submit_batch send_batch
  submit_batch_stores writes w now rounds r kept e =
      rw confirm_rounds-manager
        (elim (Bool-cases (leb w.manager.current_block w.batcher.last_batch_block)) [
          | inl old ↦ let same : r ≡ (none, w) = some-injective (rw old at e) in rw same (inr refl)
          | inr fresh ↦
              let bytes =
                batch_bytes k w.batcher w.manager (add64 w.batcher.last_batch_block 1)
                  w.manager.current_block now in
              elim (Option-cases bytes) [
                | inl z ↦ absurd (ground (arith, e, fresh, z))
                | inr (none, z) ↦
                    let same : r ≡ (none, w) = some-injective (rw (fresh, z) at e) in
                    rw same (inr refl)
                | inr (some compressed, z) ↦
                    let m =
                      move_origin writes.origin now w.manager (client.latest_l1_block w.l1).0 in
                    let start = add64 w.batcher.last_batch_block 1 in
                    let answer = client.send_batch_tx (client.latest_l1_block w.l1).1 compressed in
                    let same : r
                        ≡ record_batch true w.batcher m start w.manager.current_block now compressed
                            answer =
                      some-injective (rw (fresh, z, kept) at e) in
                    rw same (
                      record_batch_stores w.batcher m start w.manager.current_block now compressed
                        answer)
              ]
        ])
