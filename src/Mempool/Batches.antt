-- ===== src/Mempool/Batches.antt =====
-- internal/mempool/mempool.go: PopBatch.
use mathlib.Core.List.{Mem, Pairwise}
use inso_sequencer.Base.{
  ℕ, suc, ◌+◌, ◌≤◌, ◌<◌, ◌≡◌, false, List, ◌++◌, ltb, ◌==◌, if◌then◌else◌, arith, Bool-cases, ◌⊎◌,
  inl, inr, Perm, length, length-perm, length-append, sum_by-perm, sum_by-append, Returns, returns,
  Returns-bind,
}
use inso_sequencer.Float.{Float, IsIeee}
use inso_sequencer.Word.{u64_mod}
use inso_sequencer.Types.{TxMeta}
use inso_sequencer.Queue.{less, occurs, total_gas, IsFirst}
use inso_sequencer.Queue.Drained.{drain_loop_drains}
use inso_sequencer.Mempool.{Mempool, pop_batch, has}
use inso_sequencer.Mempool.Invariant.{IsValid}

module _ {W : Type 0} ⦃f : Float W⦄ where
  -- `r` is the batch with the pool that is left.
  pub record Batched (m : Mempool W) (max_tx limit : ℕ) (r : List (TxMeta W) × Mempool W)
      : Type 0 where
    pub valid : IsValid r.1
    pub same : Perm (r.0 ++ r.1.pending) m.pending
    pub forgotten : (h : ℕ) → has r.1 h ≡ (if occurs h r.0 == 0 then has m h else false)
    pub count_le : length r.0 ≤ max_tx
    pub gas_le : total_gas r.0 ≤ limit
    pub sorted : Pairwise (λ x y. less y x ≡ false) r.0
    pub before : (x y : TxMeta W) → Mem x r.0 → Mem y r.1.pending → less y x ≡ false
    pub stop :
        (length r.1.pending ≡ 0)
        ⊎ (length r.0 ≡ max_tx)
        ⊎ (x : TxMeta W) × Mem x r.1.pending
          × IsFirst x r.1.pending
          × (limit < total_gas r.0 + x.tx.gas)

  -- In a valid pool in which no sum of the limit and a transaction's gas passes 64 bits, PopBatch
  -- returns a batch and a valid pool that hold what the pool held; it forgets the hashes of the
  -- batch only; the batch stays inside both limits, no entry of it comes before an earlier one or
  -- after an entry that is left, and PopBatch stops because the pool is empty, because the batch is
  -- full, or because a first entry that is left does not fit.
  pub pop_batch_correct :
      (laws : IsIeee W) (m : Mempool W) (max_tx limit : ℕ)
      → IsValid m
      → ((x : TxMeta W) → Mem x m.pending → limit + x.tx.gas < u64_mod)
      → Returns (Batched m max_tx limit) (pop_batch m max_tx limit)
  unfolding pop_batch has
  pop_batch_correct laws m max_tx limit v small =
      Returns-bind
        (drain_loop_drains laws (suc (length m.pending)) max_tx limit _ (omega arith) v.queue)
        λ s d. returns (record {
          valid = record {
            queue = d.valid;
            known_eq = λ h. ground (
              arith,
              sum_by-perm (λ (x : TxMeta W). if x.tx.hash == h then 1 else 0) d.same,
              sum_by-append (λ (x : TxMeta W). if x.tx.hash == h then 1 else 0) d.taken s.queue,
              v.known_eq h,
              d.known_eq h,
            );
            bounded = omega (arith, length-perm d.same, length-append d.taken s.queue, v.bounded);
          };
          same = rw d.batch_eq d.same;
          forgotten = λ h. ground (arith, d.batch_eq, d.known_eq h);
          count_le = d.count_le (omega arith);
          gas_le =
              let (e, le) = d.gas_le (omega arith) small in rw d.batch_eq (omega (arith, e, le));
          sorted = rw d.batch_eq d.sorted;
          before = λ x y mx my. d.before x y (rw d.batch_eq at mx) my;
          stop =
              let (e, le) = d.gas_le (omega arith) small in
              elim (Bool-cases (length s.queue == 0)) [
                | inl empty ↦ inl (ground arith)
                | inr more ↦ elim (Bool-cases (ltb (length s.batch) max_tx)) [
                  | inr full ↦ inr (inl (ground (arith, d.count_le)))
                  | inl room ↦
                      let (x, mx, fx, over) = d.stop (ground arith) (ground arith) in
                      inr (inr (x, mx, fx, rw d.batch_eq (omega (arith, e, over))))
                ]
              ];
        })
