-- ===== src/Pool/Basic.antt =====
-- internal/mempool/mempool.go keeps what a client of a pool relies on.
use inso_sequencer.Base.{
  ℕ, ◌+◌, ◌≤◌, ◌<◌, ◌≡◌, refl, Bool, true, List, Option, inl, inr, arith, sum_by, sum_by-perm,
  sum_by-append, Returns, returns, Returns-inv,
}
use inso_sequencer.Float.{Float, IsIeee}
use inso_sequencer.Word.{u64_mod}
use inso_sequencer.Types.{Tx, TxMeta, compute_priority}
use inso_sequencer.Mempool
use inso_sequencer.Mempool.{Mempool, Error, new_meta}
use inso_sequencer.Mempool.Invariant.{IsValid, Added, add_correct}
use inso_sequencer.Mempool.Batches.{Batched, pop_batch_correct}
use inso_sequencer.Mempool.Weight.{AllOf-at, add-weight, pop_batch-weight}
use inso_sequencer.Pool.{IsPool, AllSmall, AllFine, txs_of, basic_pool}
use inso_sequencer.Pool.Small.{
  big, big-AllSmall, big-txs_of, big-mem, room, new_meta-gas, improper, improper-AllFine, IsProper,
}

module _ {W : Type 0} ⦃f : Float W⦄ (limit : ℕ) (proper : W → Bool) where
  -- The entries whose gas is not small.
  abbrev big_in : List (TxMeta W) → ℕ
  big_in = sum_by (λ (m : TxMeta W). big limit m.tx)

  -- A valid pool of transactions of small gas and proper scores, with a proper weight.
  pub record IsSmall (m : Mempool W) : Type 0 where
    pub valid : IsValid m
    pub small : big_in m.pending ≡ 0
    pub scores : sum_by (improper proper) m.pending ≡ 0
    pub weight : proper m.taste_score_weight ≡ true

  Added-IsSmall :
      (m : Mempool W) (x : TxMeta W) (r : Option Error × Mempool W)
      → IsSmall m
      → limit + x.tx.gas < u64_mod
      → proper x.taste_score ≡ true
      → r.1.taste_score_weight ≡ m.taste_score_weight
      → Added m x r
      → IsSmall r.1
  Added-IsSmall m x r v s fine same_weight a = record {
    valid = a.valid;
    small = elim a.branch [
      | inl (known, e, same) ↦ rw same v.small
      | inr (inl (fresh, full, e, same)) ↦ rw same v.small
      | inr (inr (fresh, room, e, p, known)) ↦
          ground (arith, sum_by-perm (λ (m : TxMeta W). big limit m.tx) p, v.small)
    ];
    scores = elim a.branch [
      | inl (known, e, same) ↦ rw same v.scores
      | inr (inl (fresh, full, e, same)) ↦ rw same v.scores
      | inr (inr (fresh, room, e, p, known)) ↦
          ground (arith, sum_by-perm (improper proper) p, v.scores)
    ];
    weight = rw same_weight v.weight;
  }

  Batched-IsSmall :
      (m : Mempool W) (max_tx gas_limit : ℕ) (r : List (TxMeta W) × Mempool W)
      → IsSmall m
      → r.1.taste_score_weight ≡ m.taste_score_weight
      → Batched m max_tx gas_limit r
      → AllSmall limit (txs_of r.0) × AllFine (λ w. proper w ≡ true) r.0 × IsSmall r.1
  Batched-IsSmall m max_tx gas_limit r v same_weight b =
      let g = λ (m : TxMeta W). big limit m.tx in
      let same = sum_by-perm g b.same in
      let both = sum_by-append g r.0 r.1.pending in
      let same' = sum_by-perm (improper proper) b.same in
      let both' = sum_by-append (improper proper) r.0 r.1.pending in
      (
        big-AllSmall limit (txs_of r.0) (omega (arith, same, both, v.small, big-txs_of limit r.0)),
        improper-AllFine proper r.0 (omega (arith, same', both', v.scores)),
        record {
          valid = b.valid;
          small = omega (arith, same, both, v.small);
          scores = omega (arith, same', both', v.scores);
          weight = rw same_weight v.weight;
        },
      )

  new_meta-score :
      (weight : W) (tx : Tx) (sender : ℕ) (score : W) (now : ℕ)
      → (new_meta weight tx sender score now).taste_score ≡ score
  unfolding new_meta compute_priority
  new_meta-score weight tx sender score now = refl

  pub pop_keeps_lem :
      IsIeee W
      → (m : Mempool W) (max_tx gas_limit : ℕ) → gas_limit ≤ limit
      → IsSmall m
      → Returns
          (λ r. AllSmall limit (txs_of r.0) × AllFine (λ w. proper w ≡ true) r.0 × IsSmall r.1)
          (Mempool.pop_batch m max_tx gas_limit)
  pop_keeps_lem laws m max_tx gas_limit le v =
      let (r, e, b) = Returns-inv (
        pop_batch_correct laws m max_tx gas_limit v.valid
          (λ x i. room limit gas_limit x.tx.gas le (big-mem limit m.pending x v.small i))) in
      rw e (
        returns (
          Batched-IsSmall m max_tx gas_limit r v
            (AllOf-at (rw e at (pop_batch-weight m max_tx gas_limit))) b))

  pub add_keeps_lem :
      IsIeee W
      → IsProper proper
      → (m : Mempool W) (tx : Tx) (sender : ℕ) (score : W) (now : ℕ) → IsSmall m
      → proper score ≡ true
      → limit + tx.gas < u64_mod
      → Returns (λ r. IsSmall r.1) (Mempool.add m tx sender score now)
  add_keeps_lem laws is m tx sender score now v fine s =
      let (r, e, a) = Returns-inv (
        add_correct laws m tx sender score now v.valid
          (is.numbered m.taste_score_weight tx sender score now v.weight fine)) in
      rw e (
        returns (
          Added-IsSmall m (new_meta m.taste_score_weight tx sender score now) r v
            (new_meta-gas limit m.taste_score_weight tx sender score now s)
            (rw (new_meta-score m.taste_score_weight tx sender score now) fine)
            (AllOf-at (rw e at (add-weight m tx sender score now))) a))

  -- The pool keeps the promises of a pool, where the priority that is made of a proper weight and a
  -- proper score is a number.
  abbrev pub basic_pool_laws : IsIeee W → IsProper proper → IsPool {W = W} basic_pool limit
  basic_pool_laws laws is = record {
    Valid = IsSmall;
    Fine = λ w. proper w ≡ true;
    fine_zero = is.zero;
    pop_keeps = λ m max_tx gas_limit le v. pop_keeps_lem laws m max_tx gas_limit le v;
    add_keeps =
        λ m tx sender score now v fine s. add_keeps_lem laws is m tx sender score now v fine s;
  }
