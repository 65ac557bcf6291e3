-- ===== src/Lanes/Fills.antt =====
-- internal/mempool/lanes.go: the two phases of PopBatchLaned.
use mathlib.Core.List.{Mem}
use mathlib.Core.List.Perm
use mathlib.Core.List.{mem-append}
use mathlib.Core.Logic.Or
use inso_sequencer.Base.{
  ℕ, ◌+◌, ◌-◌, ◌/◌, ◌≤◌, ◌<◌, ◌≡◌, refl, true, ◌&&◌, List, [], ◌++◌, ltb, arith, Bool-cases, inl,
  inr, length, length-append, sum_by, sum_by-append, Returns, returns, Returns-bind, Returns-if,
}
use inso_sequencer.Float.{Float, IsIeee}
use inso_sequencer.Word.{u64_mod, sub64, mul64}
use inso_sequencer.Types.{TxMeta}
use inso_sequencer.Queue.{total_gas}
use inso_sequencer.Lanes.{
  Lane, fast, standard, slow, fast_gas_bps, standard_gas_bps, slow_gas_bps, LanedMempool,
  lane_queue, Fill, fill_lane, fill_rest, pop_batch_laned,
}
use inso_sequencer.Lanes.Invariant.{same_lane, IsValid}
use inso_sequencer.Lanes.Batches.{IsSmall, pool_sum, LaneDrained, drain_lane_drains}

same_lane-eq : (l k : Lane) → same_lane l k ≡ true → k ≡ l
same_lane-eq fast k e = ground arith
same_lane-eq standard k e = ground arith
same_lane-eq slow k e = ground arith

module _ {W : Type 0} ⦃f : Float W⦄ (m : LanedMempool W) (max_tx gas_limit : ℕ) where
  -- Between two drains: batch and pool hold what the pool `m` held.
  pub record Filled (s : Fill W) : Type 0 where
    pub valid : IsValid s.pool
    pub kept : (g : TxMeta W → ℕ) → sum_by g s.batch + pool_sum g s.pool ≡ pool_sum g m
    pub inside : (l : Lane) (x : TxMeta W) → Mem x (lane_queue l s.pool) → Mem x (lane_queue l m)
    pub count_le : length s.batch ≤ max_tx

  -- In phase 1 `gas` is the gas of the batch, and in phase 2 what is left of the limit.
  abbrev UsesAtMost : ℕ → Fill W → Type 0
  UsesAtMost bound s = IsSmall gas_limit m → (total_gas s.batch ≡ s.gas) × (s.gas ≤ bound)

  abbrev LeavesOver : Fill W → Type 0
  LeavesOver s = IsSmall gas_limit m → total_gas s.batch + s.gas ≡ gas_limit

  Filled-grow :
      (s : Fill W) (l : Lane) (limit gas : ℕ) (part : List (TxMeta W)) (used : ℕ)
      (pool : LanedMempool W)
      → Filled s
      → LaneDrained l s.pool (max_tx - length s.batch) limit (part, used, pool)
      → Filled (record { pool = pool; batch = s.batch ++ part; gas = gas })
  Filled-grow s l limit gas part used pool v d = record {
    valid = d.valid;
    kept = λ g. omega (arith, v.kept g, d.moved g, sum_by-append g s.batch part);
    inside = λ k x mem. v.inside k x (elim (Bool-cases (same_lane l k)) [
      | inl e ↦
          let same = same_lane-eq l k e in
          rw same ((Perm.mem_iff d.same).0 (mem-append.1 (Or.inr (rw same at mem))))
      | inr e ↦ rw (d.others k e) at mem
    ]);
    count_le = omega (arith, length-append s.batch part, d.count_le, v.count_le);
  }

  IsSmall-inside :
      (s : Fill W) (limit : ℕ)
      → Filled s
      → limit ≤ gas_limit
      → IsSmall gas_limit m
      → IsSmall limit s.pool
  IsSmall-inside s limit v le small l x mem = omega (arith, small l x (v.inside l x mem), le)

  -- `r` is the batch with the pool that is left.
  pub record BatchedLaned (r : List (TxMeta W) × LanedMempool W) : Type 0 where
    pub valid : IsValid r.1
    pub kept : (g : TxMeta W → ℕ) → sum_by g r.0 + pool_sum g r.1 ≡ pool_sum g m
    pub count_le : length r.0 ≤ max_tx
    pub gas_le : total_gas r.0 ≤ gas_limit

  module _ (laws : IsIeee W) (word : gas_limit < u64_mod) where
    fill_lane_fills :
        (l : Lane) (bound allocation : ℕ) (s : Fill W)
        → bound + allocation ≤ gas_limit
        → Filled s × UsesAtMost bound s
        → Returns
            (λ t. Filled t × UsesAtMost (bound + allocation) t)
            (fill_lane max_tx l allocation s)
    unfolding fill_lane
    fill_lane_fills l bound allocation s le (v, u) =
        Returns-bind (drain_lane_drains laws l s.pool (max_tx - length s.batch) allocation v.valid)
          λ (part, used, pool) d. returns (
            Filled-grow s l allocation _ part used pool v d,
            λ small.
                let (e, le') = d.gas_le (IsSmall-inside s allocation v (omega arith) small) in
                let (e', le'') = u small in
                (
                  omega (
                    arith,
                    e,
                    e',
                    le',
                    le'',
                    sum_by-append (λ (x : TxMeta W). x.tx.gas) s.batch part,
                  ),
                  omega (arith, le', le''),
                ),
          )

    fill_rest_fills :
        (l : Lane) (s : Fill W)
        → Filled s × LeavesOver s
        → Returns (λ t. Filled t × LeavesOver t) (fill_rest max_tx l s)
    unfolding fill_rest
    fill_rest_fills l s (v, u) =
        Returns-if (ltb 0 s.gas && ltb (length s.batch) max_tx)
          (λ more.
            Returns-bind (drain_lane_drains laws l s.pool (max_tx - length s.batch) s.gas v.valid)
              λ (part, used, pool) d. returns (
                Filled-grow s l s.gas _ part used pool v d,
                λ small.
                    let e' = u small in
                    let (e, le) = d.gas_le (IsSmall-inside s s.gas v (omega (arith, e')) small) in
                    omega
                      (arith, e, e', le, sum_by-append (λ (x : TxMeta W). x.tx.gas) s.batch part),
              ))
          (λ done. returns (v, u))

    -- In a valid pool in which no sum of the limit and a transaction's gas passes 64 bits, and with a
    -- limit of 64 bits, PopBatchLaned returns a batch and a valid pool that together hold, counted by
    -- any measure of the entries, what the pool held, and the batch stays inside both limits over all
    -- the drains of the two phases.
    pub pop_batch_laned_correct :
        IsValid m → IsSmall gas_limit m → Returns BatchedLaned (pop_batch_laned m max_tx gas_limit)
    unfolding pop_batch_laned
    pop_batch_laned_correct v small =
        let a = mul64 gas_limit fast_gas_bps / 10000 in
        let b = mul64 gas_limit standard_gas_bps / 10000 in
        let c = mul64 gas_limit slow_gas_bps / 10000 in
        let start : Fill W = record { pool = m; batch = []; gas = 0 } in
        let v0 : Filled start = record {
          valid = v;
          kept = λ g. omega arith;
          inside = λ l x mem. mem;
          count_le = omega arith;
        } in
        Returns-bind (fill_lane_fills fast 0 a start (omega arith) (v0, λ _. (refl, omega arith)))
          λ s1 v1. Returns-bind (fill_lane_fills standard (0 + a) b s1 (omega arith) v1) λ s2 v2.
            Returns-bind (fill_lane_fills slow (0 + a + b) c s2 (omega arith) v2) λ s3 (v3, u3).
              let s3' : Fill W = record s3 { gas = sub64 gas_limit s3.gas } in
              let w3 : Filled s3' = record {
                valid = v3.valid;
                kept = v3.kept;
                inside = v3.inside;
                count_le = v3.count_le;
              } in
              let u3' : LeavesOver s3' = λ small. omega (arith, u3 small) in
              Returns-bind (fill_rest_fills fast s3' (w3, u3')) λ s4 v4.
                Returns-bind (fill_rest_fills standard s4 v4) λ s5 v5.
                  Returns-bind (fill_rest_fills slow s5 v5) λ s6 (v6, u6). returns (record {
                    valid = v6.valid;
                    kept = v6.kept;
                    count_le = v6.count_le;
                    gas_le = omega (arith, u6 small);
                  })
