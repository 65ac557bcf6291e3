-- ===== src/Pool/Laned.antt =====
-- internal/mempool/lanes.go keeps what a client of a pool relies on.
use inso_sequencer.Base.{
  ℕ, Returns, ◌+◌, ◌≤◌, ◌<◌, ◌≡◌, List, Option, Bool, refl, true, ltb, inl, inr, arith, Returns-inv,
  returns,
}
use mathlib.Core.List.{Mem}
use inso_sequencer.Float.{Float, IsIeee}
use inso_sequencer.Word.{u64_mod}
use inso_sequencer.Types.{Tx, TxMeta, compute_priority}
use inso_sequencer.Mempool.{Error, new_meta}
use inso_sequencer.Lanes
use inso_sequencer.Lanes.{Lane, fast, standard, slow, LanedMempool, lane_queue}
use inso_sequencer.Lanes.Invariant.{IsValid, Added, add_routes}
use inso_sequencer.Mempool.Weight.{AllOf-at}
use inso_sequencer.Lanes.Weight.{add-weight, pop_batch-weight}
use inso_sequencer.Lanes.Batches.{pool_sum}
use inso_sequencer.Lanes.Fills.{BatchedLaned, pop_batch_laned_correct}
use inso_sequencer.Pool.{IsPool, AllSmall, AllFine, txs_of, laned_pool}
use inso_sequencer.Pool.Small.{
  big, big-AllSmall, big-txs_of, big-mem, room, new_meta-gas, improper, improper-AllFine, IsProper,
}

module _ {W : Type 0} ⦃f : Float W⦄ (limit : ℕ) (proper : W → Bool) where
  -- The entries of the pool whose gas is not small.
  abbrev big_in : LanedMempool W → ℕ
  big_in = pool_sum (λ (m : TxMeta W). big limit m.tx)

  -- A valid pool of transactions of small gas and proper scores, with a proper weight.
  pub record IsSmall (m : LanedMempool W) : Type 0 where
    pub valid : IsValid m
    pub small : big_in m ≡ 0
    pub scores : pool_sum (improper proper) m ≡ 0
    pub weight : proper m.taste_score_weight ≡ true

  IsSmall-mem :
      (m : LanedMempool W) (l : Lane) (x : TxMeta W)
      → big_in m ≡ 0
      → Mem x (lane_queue l m)
      → ltb (limit + x.tx.gas) u64_mod ≡ true
  IsSmall-mem m fast x e i = big-mem limit m.fast_queue x (omega (arith, e)) i
  IsSmall-mem m standard x e i = big-mem limit m.std_queue x (omega (arith, e)) i
  IsSmall-mem m slow x e i = big-mem limit m.slow_queue x (omega (arith, e)) i

  pub Added-IsSmall :
      (m : LanedMempool W) (x : TxMeta W) (r : Option Error × LanedMempool W)
      → IsSmall m
      → limit + x.tx.gas < u64_mod
      → proper x.taste_score ≡ true
      → r.1.taste_score_weight ≡ m.taste_score_weight
      → Added m x r
      → IsSmall r.1
  Added-IsSmall m x r v s fine same_weight a = record {
    valid = a.valid;
    small = elim a.branch [
      | inl (known, e, same) ↦ rw same v.small
      | inr (inl (fresh, full, e, same)) ↦ rw same v.small
      | inr (inr (fresh, room, e, at, grown)) ↦
          let g = λ (m : TxMeta W). big limit m.tx in
          ground (arith, grown fast g, grown standard g, grown slow g, v.small)
    ];
    scores = elim a.branch [
      | inl (known, e, same) ↦ rw same v.scores
      | inr (inl (fresh, full, e, same)) ↦ rw same v.scores
      | inr (inr (fresh, room, e, at, grown)) ↦
          let g = improper proper in
          ground (arith, grown fast g, grown standard g, grown slow g, v.scores)
    ];
    weight = rw same_weight v.weight;
  }

  pub BatchedLaned-IsSmall :
      (m : LanedMempool W) (max_tx gas_limit : ℕ) (r : List (TxMeta W) × LanedMempool W)
      → IsSmall m
      → r.1.taste_score_weight ≡ m.taste_score_weight
      → BatchedLaned m max_tx gas_limit r
      → AllSmall limit (txs_of r.0) × AllFine (λ w. proper w ≡ true) r.0 × IsSmall r.1
  BatchedLaned-IsSmall m max_tx gas_limit r v same_weight b =
      let kept' = b.kept (improper proper) in
      let kept = b.kept (λ (m : TxMeta W). big limit m.tx) in
      (
        big-AllSmall limit (txs_of r.0) (omega (arith, kept, v.small, big-txs_of limit r.0)),
        improper-AllFine proper r.0 (omega (arith, kept', v.scores)),
        record {
          valid = b.valid;
          small = omega (arith, kept, v.small);
          scores = omega (arith, kept', v.scores);
          weight = rw same_weight v.weight;
        },
      )

  pub pop_batch_keeps :
      IsIeee W
      → limit < u64_mod
      → (m : LanedMempool W) (max_tx gas_limit : ℕ) → gas_limit ≤ limit
      → IsSmall m
      → Returns
          (λ r. AllSmall limit (txs_of r.0) × AllFine (λ w. proper w ≡ true) r.0 × IsSmall r.1)
          (Lanes.pop_batch m max_tx gas_limit)
  unfolding Lanes.pop_batch
  pop_batch_keeps laws word m max_tx gas_limit le v =
      let (r, e, b) = Returns-inv (
        pop_batch_laned_correct m max_tx gas_limit laws (omega (arith, word, le)) v.valid
          (λ l x i. room limit gas_limit x.tx.gas le (IsSmall-mem m l x v.small i))) in
      let weight : r.1.taste_score_weight ≡ m.taste_score_weight =
        AllOf-at (rw e at (pop_batch-weight m max_tx gas_limit)) in
      rw e (returns (BatchedLaned-IsSmall m max_tx gas_limit r v weight b))

  new_meta-score :
      (weight : W) (tx : Tx) (sender : ℕ) (score : W) (now : ℕ)
      → (new_meta weight tx sender score now).taste_score ≡ score
  unfolding new_meta compute_priority
  new_meta-score weight tx sender score now = refl

  pub add_keeps_lem :
      IsIeee W
      → IsProper proper
      → (m : LanedMempool W) (tx : Tx) (sender : ℕ) (score : W) (now : ℕ) → IsSmall m
      → proper score ≡ true
      → limit + tx.gas < u64_mod
      → Returns (λ r. IsSmall r.1) (Lanes.add m tx sender score now)
  add_keeps_lem laws is m tx sender score now v fine s =
      let (r, e, a) = Returns-inv (
        add_routes laws m tx sender score now v.valid
          (is.numbered m.taste_score_weight tx sender score now v.weight fine)) in
      rw e (
        returns (
          Added-IsSmall m (new_meta m.taste_score_weight tx sender score now) r v
            (new_meta-gas limit m.taste_score_weight tx sender score now s)
            (rw (new_meta-score m.taste_score_weight tx sender score now) fine)
            (AllOf-at (rw e at (add-weight m tx sender score now))) a))

  -- The pool keeps the promises of a pool, where the priority that is made of a proper weight and a
  -- proper score is a number.
  abbrev pub laned_pool_laws :
      IsIeee W → limit < u64_mod → IsProper proper → IsPool {W = W} laned_pool limit
  laned_pool_laws laws word is = record {
    Valid = IsSmall;
    Fine = λ w. proper w ≡ true;
    fine_zero = is.zero;
    pop_keeps = λ m max_tx gas_limit le v. pop_batch_keeps laws word m max_tx gas_limit le v;
    add_keeps =
        λ m tx sender score now v fine s. add_keeps_lem laws is m tx sender score now v fine s;
  }
