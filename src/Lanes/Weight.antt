-- ===== src/Lanes/Weight.antt =====
-- internal/mempool/lanes.go: Add and PopBatchLaned leave the weight of the scores as it is.
use inso_sequencer.Base.{
  ℕ, suc, ◌-◌, ◌/◌, [], ◌≡◌, refl, ◌∙◌, ◌&&◌, List, Option, leb, ltb, length, contains,
}
use inso_sequencer.Float.{Float}
use inso_sequencer.Word.{mul64, sub64}
use inso_sequencer.Types.{Tx, TxMeta}
use inso_sequencer.Heap
use inso_sequencer.Queue.{less, drain_loop}
use inso_sequencer.Mempool.Weight.{AllOf, just, bind-AllOf, then-AllOf, if-AllOf}
use inso_sequencer.Lanes.{
  Lane, fast, standard, slow, LanedMempool, Fill, lane_queue, with_queue, total_len, classify_lane,
  fast_gas_bps, standard_gas_bps, slow_gas_bps, add, drain_lane, fill_lane, fill_rest,
  pop_batch_laned, pop_batch,
}

module _ {W : Type 0} ⦃f : Float W⦄ where
  with_queue-weight :
      (l : Lane) (m : LanedMempool W) (q : List (TxMeta W))
      → (with_queue l m q).taste_score_weight ≡ m.taste_score_weight
  with_queue-weight fast m q = refl
  with_queue-weight standard m q = refl
  with_queue-weight slow m q = refl

  pub add-weight :
      (m : LanedMempool W) (tx : Tx) (sender : ℕ) (score : W) (now : ℕ)
      → AllOf (λ r. r.1.taste_score_weight ≡ m.taste_score_weight) (add m tx sender score now)
  unfolding add
  add-weight m tx sender score now = if-AllOf (contains tx.hash m.known) (just refl) (
      if-AllOf (leb m.max_size (total_len m)) (just refl) (
        bind-AllOf (Heap.push less (lane_queue (classify_lane score) m) _)
          λ q. just (with_queue-weight (classify_lane score) m q)))

  drain_lane-weight :
      (l : Lane) (m : LanedMempool W) (max_tx gas_limit : ℕ)
      → AllOf (λ r. r.2.taste_score_weight ≡ m.taste_score_weight) (drain_lane l m max_tx gas_limit)
  unfolding drain_lane
  drain_lane-weight l m max_tx gas_limit =
      bind-AllOf (drain_loop (suc (length (lane_queue l m))) max_tx gas_limit _)
        λ s. just (with_queue-weight l m s.queue)

  abbrev Keeps : Fill W → Option (Fill W) → Type 0
  Keeps s = AllOf (λ t. t.pool.taste_score_weight ≡ s.pool.taste_score_weight)

  fill_lane-weight :
      (max_tx : ℕ) (l : Lane) (allocation : ℕ) (s : Fill W)
      → Keeps s (fill_lane max_tx l allocation s)
  unfolding fill_lane
  fill_lane-weight max_tx l allocation s =
      then-AllOf (drain_lane-weight l s.pool (max_tx - length s.batch) allocation) λ r e. just e

  fill_rest-weight : (max_tx : ℕ) (l : Lane) (s : Fill W) → Keeps s (fill_rest max_tx l s)
  unfolding fill_rest
  fill_rest-weight max_tx l s =
      if-AllOf (ltb 0 s.gas && ltb (length s.batch) max_tx)
        (then-AllOf (drain_lane-weight l s.pool (max_tx - length s.batch) s.gas) λ r e. just e)
        (just refl)

  pub pop_batch-weight :
      (m : LanedMempool W) (max_tx gas_limit : ℕ)
      → AllOf (λ r. r.1.taste_score_weight ≡ m.taste_score_weight) (pop_batch m max_tx gas_limit)
  unfolding pop_batch pop_batch_laned
  pop_batch-weight m max_tx gas_limit =
      then-AllOf
        (fill_lane-weight max_tx fast (mul64 gas_limit fast_gas_bps / 10000)
          (record { pool = m; batch = []; gas = 0 }))
        λ s1 e1.
          then-AllOf
            (fill_lane-weight max_tx standard (mul64 gas_limit standard_gas_bps / 10000) s1)
            λ s2 e2.
              then-AllOf (fill_lane-weight max_tx slow (mul64 gas_limit slow_gas_bps / 10000) s2)
                λ s3 e3.
                  then-AllOf
                    (fill_rest-weight max_tx fast (record s3 { gas = sub64 gas_limit s3.gas }))
                    λ s4 e4. then-AllOf (fill_rest-weight max_tx standard s4) λ s5 e5.
                      then-AllOf (fill_rest-weight max_tx slow s5) λ s6 e6.
                        just {a = (s6.batch, s6.pool)} (e6 ∙ (e5 ∙ (e4 ∙ (e3 ∙ (e2 ∙ e1)))))
