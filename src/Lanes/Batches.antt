-- ===== src/Lanes/Batches.antt =====
-- internal/mempool/lanes.go: drainLane and PopBatchLaned.
use mathlib.Core.List.{Mem, Pairwise}
use inso_sequencer.Base.{
  ℕ, suc, ◌+◌, ◌≤◌, ◌<◌, ◌≡◌, refl, false, List, ◌++◌, Option, none, some, ◌==◌, if◌then◌else◌,
  arith, Perm, length, length-perm, length-append, get, sum_by, sum_by-perm, sum_by-append, Returns,
  returns, Returns-bind,
}
use inso_sequencer.Float.{Float, IsIeee}
use inso_sequencer.Word.{u64_mod}
use inso_sequencer.Types.{TxMeta}
use inso_sequencer.Queue.{less, occurs, total_gas, IsQueue, IsFirst}
use inso_sequencer.Queue.Drained.{drain_loop_drains}
use inso_sequencer.Lanes.{
  Lane, classify_lane, fast, standard, slow, LanedMempool, lane_queue, drain_lane,
}
use inso_sequencer.Lanes.Invariant.{
  same_lane, in_lane, IsValid, by_lane, same_lane_refl, moved_to, moved_to-IsValid,
}

-- A hash stands in one lane at most.
in_lane-exclusive :
    (l k : Lane) (o : Option Lane) → same_lane l k ≡ false → in_lane l o + in_lane k o ≤ 1
in_lane-exclusive l k none n = omega arith
in_lane-exclusive l k (some fast) n = ground arith
in_lane-exclusive l k (some standard) n = ground arith
in_lane-exclusive l k (some slow) n = ground arith

module _ {W : Type 0} ⦃f : Float W⦄ where
  -- No sum of the limit and an entry's gas wraps around.
  abbrev pub IsSmall : ℕ → LanedMempool W → Type 0
  IsSmall limit m = (l : Lane) (x : TxMeta W) → Mem x (lane_queue l m) → limit + x.tx.gas < u64_mod

  -- The sum of `g` over the entries of all lanes.
  abbrev pub pool_sum : (TxMeta W → ℕ) → LanedMempool W → ℕ
  pool_sum g m = sum_by g m.fast_queue + sum_by g m.std_queue + sum_by g m.slow_queue

  -- `r` is the batch, its gas, and the pool that is left after draining lane `l` of `m`.
  pub record LaneDrained (l : Lane) (m : LanedMempool W) (max_tx limit : ℕ)
      (r : List (TxMeta W) × ℕ × LanedMempool W) : Type 0 where
    pub valid : IsValid r.2
    pub same : Perm (r.0 ++ lane_queue l r.2) (lane_queue l m)
    pub others : (k : Lane) → same_lane l k ≡ false → lane_queue k r.2 ≡ lane_queue k m
    pub moved : (g : TxMeta W → ℕ) → sum_by g r.0 + pool_sum g r.2 ≡ pool_sum g m
    pub count_le : length r.0 ≤ max_tx
    pub gas_le : IsSmall limit m → (r.1 ≡ total_gas r.0) × (r.1 ≤ limit)
    pub sorted : Pairwise (λ x y. less y x ≡ false) r.0
    pub stop :
        IsSmall limit m
        → 0 < length (lane_queue l r.2)
        → length r.0 < max_tx
        → (x : TxMeta W) × Mem x (lane_queue l r.2)
          × IsFirst x (lane_queue l r.2)
          × (limit < r.1 + x.tx.gas)

  -- A part of a lane's queue, with its hashes out of the map.
  part-IsValid :
      (l : Lane) (m : LanedMempool W) (taken q : List (TxMeta W)) (known : List (ℕ × Lane))
      → IsValid m
      → IsQueue q
      → Perm (taken ++ q) (lane_queue l m)
      → ((h : ℕ) → get h known ≡ (if occurs h taken == 0 then get h m.known else none))
      → IsValid (moved_to m l q known)
  part-IsValid l m taken q known v w p k =
      moved_to-IsValid m l q known v w
        (λ h. ground (
          arith,
          sum_by-perm (λ (x : TxMeta W). if x.tx.hash == h then 1 else 0) p,
          sum_by-append (λ (x : TxMeta W). if x.tx.hash == h then 1 else 0) taken q,
          v.known_eq l h,
          k h,
        ))
        (λ j h n. ground (
          arith,
          sum_by-perm (λ (x : TxMeta W). if x.tx.hash == h then 1 else 0) p,
          sum_by-append (λ (x : TxMeta W). if x.tx.hash == h then 1 else 0) taken q,
          v.known_eq l h,
          k h,
          in_lane-exclusive l j (get h m.known) n,
        ))
        (omega (
          arith,
          sum_by-perm (λ (x : TxMeta W). if same_lane l (classify_lane x.taste_score) then 0 else 1)
              p,
          sum_by-append
              (λ (x : TxMeta W). if same_lane l (classify_lane x.taste_score) then 0 else 1) taken
              q,
          v.routed l,
        ))
        (omega (arith, length-perm p, length-append taken q, v.bounded))

  pool_sum-moved :
      (l : Lane) (m : LanedMempool W) (taken q : List (TxMeta W)) (known : List (ℕ × Lane))
      → Perm (taken ++ q) (lane_queue l m)
      → (g : TxMeta W → ℕ) → sum_by g taken + pool_sum g (moved_to m l q known) ≡ pool_sum g m
  pool_sum-moved fast m taken q known p g = omega (arith, sum_by-perm g p, sum_by-append g taken q)
  pool_sum-moved standard m taken q known p g =
      omega (arith, sum_by-perm g p, sum_by-append g taken q)
  pool_sum-moved slow m taken q known p g = omega (arith, sum_by-perm g p, sum_by-append g taken q)

  lane_queue-moved :
      (l : Lane) (m : LanedMempool W) (q : List (TxMeta W)) (known : List (ℕ × Lane))
      → lane_queue l (moved_to m l q known) ≡ q
  lane_queue-moved fast m q known = refl
  lane_queue-moved standard m q known = refl
  lane_queue-moved slow m q known = refl

  module _ (laws : IsIeee W) where
    pub drain_lane_drains :
        (l : Lane) (m : LanedMempool W) (max_tx limit : ℕ)
        → IsValid m
        → Returns (LaneDrained l m max_tx limit) (drain_lane l m max_tx limit)
    unfolding drain_lane
    drain_lane_drains l m max_tx limit v =
        Returns-bind
          (drain_loop_drains laws (suc (length (lane_queue l m))) max_tx limit _ (omega arith)
            (v.queues l))
          λ s d.
            let here = lane_queue-moved l m s.queue s.known in
            returns (record {
              valid = part-IsValid l m d.taken s.queue s.known v d.valid d.same d.known_eq;
              same = rw (d.batch_eq, here) d.same;
              others = λ k.
                  by_lane (λ j x. same_lane l j ≡ false → x ≡ lane_queue j m) k l m s.queue s.known
                    (λ n. absurd (ground (arith, same_lane_refl l))) (λ j _ _. refl);
              moved = λ g. rw d.batch_eq (pool_sum-moved l m d.taken s.queue s.known d.same g);
              count_le = d.count_le (omega arith);
              gas_le = λ small.
                  let (e, le) = d.gas_le (omega arith) (small l) in
                  (rw d.batch_eq (omega (arith, e)), le);
              sorted = rw d.batch_eq d.sorted;
              stop = λ small h k.
                  let (x, mx, fx, over) = d.stop (rw here at h) k in
                  (x, rw here mx, rw here fx, omega (arith, over));
            })
