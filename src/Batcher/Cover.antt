-- ===== src/Batcher/Cover.antt =====
-- internal/batcher/batcher.go: over any run the batches cover the blocks without a gap or an overlap.
use inso_sequencer.Base.{
  ℕ, ◌+◌, ◌-◌, ◌≤◌, ◌<◌, ◌≡◌, refl, sym, ◌∙◌, inl, inr, Bool, List, [], ◌∷◌, ◌++◌, Option, none,
  some, leb, length, length-append, arith, Bool-cases, Option-cases,
}
use inso_sequencer.Word.{u64_mod, add64}
use inso_sequencer.Types.{Batch}
use inso_sequencer.Manager.{Manager, set_l1_origin, add_batch}
use inso_sequencer.Batcher.{
  Codec, L1Client, Batcher, Writes, new, World, batch_bytes, move_origin, record_batch, send_batch,
  submit_batch, check_confirmations,
}

-- The batches follow each other from block `first` on and end at block `last`.
abbrev pub Covers : ℕ → List Batch → ℕ → Type 0
Covers first [] last = first ≡ last + 1
Covers first (b ∷ bs) last =
    (b.start_block ≡ first)
    × (b.start_block ≤ b.end_block)
    × (b.block_count ≡ b.end_block + 1 - b.start_block)
    × Covers (b.end_block + 1) bs last

Covers-append :
    (first last : ℕ) (bs : List Batch) (b : Batch)
    → Covers first bs last
    → b.start_block ≡ last + 1
    → b.start_block ≤ b.end_block
    → b.block_count ≡ b.end_block + 1 - b.start_block
    → Covers first (bs ++ b ∷ []) b.end_block
Covers-append first last [] b c s le n = (s ∙ sym c, le, n, refl)
Covers-append first last (x ∷ bs) b c s le n =
    (c.0, c.1, c.2, Covers-append (x.end_block + 1) last bs b c.3 s le n)

-- The submitted batches with the new one, if any.
abbrev pub logged : List Batch → Option Batch → List Batch
logged log none = log
logged log (some b) = log ++ b ∷ []

-- The number of blocks bounds the number of batches.
Covers-length :
    (first last : ℕ) (bs : List Batch) → Covers first bs last → length bs + first ≤ last + 1
Covers-length first last [] c = omega (arith, c)
Covers-length first last (b ∷ bs) c =
    omega (arith, c.0, c.1, Covers-length (b.end_block + 1) last bs c.3)

module _ {D L : Type 0} where
  -- What holds between two steps of a world, `log` being the batches that were submitted.
  pub record IsCovered (w : World D L) (log : List Batch) : Type 0 where
    pub covers : Covers 1 log w.batcher.last_batch_block
    pub count : w.batcher.batch_index ≡ length log
    pub behind : w.batcher.last_batch_block ≤ w.manager.current_block
    pub word : w.manager.current_block < u64_mod

  -- A batch is recorded, or nothing is sent.
  record_batch-IsCovered :
      (writes : Bool) (b : Batcher) (m : Manager D) (start end now : ℕ) (bytes : List ℕ)
      (answer : Option ℕ × L) (log : List Batch)
      → m.current_block ≡ end
      → Covers 1 log b.last_batch_block
      → b.batch_index ≡ length log
      → start ≡ b.last_batch_block + 1
      → start ≤ end
      → end < u64_mod
      → IsCovered
          (record_batch writes b m start end now bytes answer).1
          (logged log (record_batch writes b m start end now bytes answer).0)
  unfolding record_batch add_batch
  record_batch-IsCovered writes b m start end now bytes (none, l1) log e c n s le w = record {
    covers = c;
    count = n;
    behind = omega (arith, s, le);
    word = omega arith;
  }
  record_batch-IsCovered writes b m start end now bytes (some h, l1) log e c n s le w =
      let many = Covers-length 1 b.last_batch_block log c in
      record {
        covers = Covers-append 1 b.last_batch_block log _ c s le refl;
        count = omega (arith, n, s, le, w, many, length-append log (_ ∷ []));
        behind = omega arith;
        word = omega arith;
      }

move_origin-block :
    {D : Type 0} (writes : Bool) (now : ℕ) (m : Manager D) (latest : Option (ℕ × ℕ))
    → (move_origin writes now m latest).current_block ≡ m.current_block
unfolding move_origin set_l1_origin
move_origin-block writes now m none = refl
move_origin-block writes now m (some (number, hash)) = refl

module _ {D L : Type 0} (client : L1Client L) (k : Codec) where
  send_batch-IsCovered :
      (writes : Writes) (w : World D L) (start now : ℕ) (bytes : List ℕ) (log : List Batch)
      → IsCovered w log
      → start ≡ w.batcher.last_batch_block + 1
      → start ≤ w.manager.current_block
      → IsCovered
          (send_batch client k writes w start w.manager.current_block now bytes).1
          (logged log (send_batch client k writes w start w.manager.current_block now bytes).0)
  unfolding send_batch
  send_batch-IsCovered writes w start now bytes log v s le =
      record_batch-IsCovered writes.batch w.batcher
        (move_origin writes.origin now w.manager (client.latest_l1_block w.l1).0) start
        w.manager.current_block now bytes
        (client.send_batch_tx (client.latest_l1_block w.l1).1 bytes) log
        (move_origin-block writes.origin now w.manager (client.latest_l1_block w.l1).0) v.covers
        v.count s le v.word

  -- What holds of the result, if the call does not panic.
  abbrev pub UnlessPanic :
      (Option Batch × World D L → Type 0) → Option (Option Batch × World D L) → Type 0
  UnlessPanic P none = Unit {0}
  UnlessPanic P (some r) = P r

  pub submit_batch-IsCovered :
      (writes : Writes) (w : World D L) (now : ℕ) (log : List Batch)
      → IsCovered w log
      → UnlessPanic (λ r. IsCovered r.1 (logged log r.0)) (submit_batch client k writes w now)
  unfolding submit_batch
  submit_batch-IsCovered writes w now log v =
      elim (Bool-cases (leb w.manager.current_block w.batcher.last_batch_block)) [
        | inl old ↦ rw (old, submit_batch) v
        | inr new_blocks ↦
            let bytes =
              batch_bytes k w.batcher w.manager (add64 w.batcher.last_batch_block 1)
                w.manager.current_block now in
            elim (Option-cases bytes) [
              | inl e ↦ rw (new_blocks, e, submit_batch) tt
              | inr (none, e) ↦ rw (new_blocks, e, submit_batch) v
              | inr (some compressed, e) ↦
                  rw (new_blocks, e, submit_batch)
                    (send_batch-IsCovered writes w _ now compressed log v (ground arith)
                      (ground arith))
            ]
      ]

  -- Runs of the batcher: submissions and confirmations, and between them the chain may grow.
  pub data Run : World D L → List Batch → Type 0 where
    start :
        (m : Manager D) (l1 : L) (chain_id : ℕ)
        → m.current_block < u64_mod
        → Run (record { batcher = new chain_id; manager = m; l1 = l1 }) []
    submit :
        {w : World D L} {log : List Batch} {r : Option Batch × World D L} (writes : Writes)
        (now : ℕ)
        → Run w log
        → submit_batch client k writes w now ≡ some r
        → Run r.1 (logged log r.0)
    confirm :
        {w : World D L} {log : List Batch} → Run w log → Run (check_confirmations client w).1 log
    advance :
        {w : World D L} {log : List Batch} (m : Manager D)
        → w.manager.current_block ≤ m.current_block
        → m.current_block < u64_mod
        → Run w log
        → Run (record w { manager = m }) log

  -- In a run in which the chain only grows and its block numbers fit in 64 bits, the submitted batches
  -- follow each other from block 1 to the last block that was submitted, each with its number of
  -- blocks; they are counted by the batch index, and none goes beyond the chain.
  pub Run-IsCovered : {w : World D L} {log : List Batch} → Run w log → IsCovered w log
  unfolding new check_confirmations
  Run-IsCovered (start m l1 chain_id small) = record {
    covers = refl;
    count = refl;
    behind = omega arith;
    word = small;
  }
  Run-IsCovered (submit writes now r e) =
      rw e at (submit_batch-IsCovered writes _ now _ (Run-IsCovered r))
  Run-IsCovered (confirm r) =
      let v = Run-IsCovered r in
      record { covers = v.covers; count = v.count; behind = v.behind; word = v.word }
  Run-IsCovered (advance m le small r) =
      let v = Run-IsCovered r in
      record {
        covers = v.covers;
        count = v.count;
        behind = omega (arith, v.behind, le);
        word = small;
      }
