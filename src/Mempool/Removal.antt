-- ===== src/Mempool/Removal.antt =====
-- internal/mempool: Remove, which finds an entry by its hash.
use inso_sequencer.Base.{
  ℕ, suc, ◌+◌, ◌-◌, ◌≤◌, ◌<◌, ◌≡◌, refl, ◌⊎◌, false, List, [], ◌∷◌, none, some, ◌==◌, if◌then◌else◌,
  arith, Perm, Bool-cases, Option-cases, inl, inr, length, length-perm, get-delete, get_or,
  sum_by-perm, Returns, returns, Returns-bind,
}
use inso_sequencer.Float.{Float, IsIeee}
use inso_sequencer.Types.{TxMeta}
use inso_sequencer.Heap.Laws.{remove_correct}
use inso_sequencer.Queue.{less, IsNumbered, less-IsWeakOrder, occurs, blank, IsQueue}
use inso_sequencer.Mempool.{Mempool, index_of, remove_hash, remove, has}
use inso_sequencer.Mempool.Invariant.{IsValid}

module _ {W : Type 0} ⦃f : Float W⦄ where
  index_of-none : (h : ℕ) (q : List (TxMeta W)) (i : ℕ) → index_of h q i ≡ none → occurs h q ≡ 0
  unfolding index_of
  index_of-none h [] i e = refl
  index_of-none h (x ∷ q) i e = ground (arith, index_of-none h q (suc i))

  index_of-some :
      (h : ℕ) (q : List (TxMeta W)) (i j : ℕ)
      → index_of h q i ≡ some j
      → (i ≤ j) × (j < i + length q) × ((get_or q (j - i) blank).tx.hash ≡ h)
  unfolding index_of
  index_of-some h [] i j e = cc
  index_of-some h (x ∷ q) i j e = elim (Bool-cases (x.tx.hash == h)) [
    | inl same ↦
        let here : i ≡ j = ground arith in
        let z : j - i ≡ 0 = omega arith in (omega arith, omega arith, rw z (ground arith))
    | inr other ↦
        let t = index_of-some h q (suc i) j (ground arith) in
        let z : j - i ≡ suc (j - suc i) = omega (arith, t.0) in
        (omega (arith, t.0), omega (arith, t.1), rw z t.2)
  ]

  -- The queue is as it was if no entry has the hash, and else lacks one that has it.
  abbrev pub Without : ℕ → List (TxMeta W) → List (TxMeta W) → Type 0
  Without h q r = ((occurs h q ≡ 0) × (r ≡ q)) ⊎ ((x : TxMeta W) × (x.tx.hash ≡ h) × Perm (x ∷ r) q)

  module _ (laws : IsIeee W) where
    pub remove_hash_correct :
        (h : ℕ) (q : List (TxMeta W))
        → IsQueue q
        → Returns (λ r. IsQueue r × Without h q r) (remove_hash h q)
    unfolding remove_hash
    remove_hash_correct h q v = elim (Option-cases (index_of h q 0)) [
      | inl e ↦ rw (e, remove_hash) (returns (v, inl (index_of-none h q 0 e, refl)))
      | inr (i, e) ↦
          let (low, high, hash) = index_of-some h q 0 i e in
          rw (e, remove_hash)
            (Returns-bind
              (remove_correct less IsNumbered blank less-IsWeakOrder q i (laws.decimal_number 0 0) v
                (omega (arith, high)))
              λ (x, r) (at, w, p).
                let z : i - 0 ≡ i = omega arith in returns (w, inr (x, rw at (rw z at hash), p)))
    ]

    pub occurs-Without :
        (h j : ℕ) (q r : List (TxMeta W))
        → ((k : ℕ) → occurs k q ≤ 1)
        → Without h q r
        → (occurs j r ≡ (if h == j then 0 else occurs j q)) × (length r ≤ length q)
    occurs-Without h j q r once (inl (e, same)) = (rw same (ground arith), rw same (omega arith))
    occurs-Without h j q r once (inr (x, e, p)) = (
      ground (arith, once j, sum_by-perm (λ (y : TxMeta W). if y.tx.hash == j then 1 else 0) p),
      omega (arith, length-perm p),
    )

    untouched :
        (r : List (TxMeta W)) (h : ℕ) (q : List (TxMeta W)) → Without h q r → occurs h q ≡ 0 → r ≡ q
    untouched r h q (inl (e, same)) z = same
    untouched r h q (inr (x, e, p)) z =
        absurd (ground (arith, sum_by-perm (λ (y : TxMeta W). if y.tx.hash == h then 1 else 0) p))

    -- From a valid pool, Remove returns a valid pool that does not know the hash, has no entry of
    -- it and as many entries of every other hash as before, and is the same queue if the hash was
    -- not known.
    pub remove_removes :
        (m : Mempool W) (h : ℕ)
        → IsValid m
        → Returns
            (λ r.
              IsValid r
              × (has r h ≡ false)
              × ((j : ℕ) → occurs j r.pending ≡ (if h == j then 0 else occurs j m.pending))
              × ((has m h ≡ false) → r.pending ≡ m.pending))
            (remove m h)
    unfolding remove has
    remove_removes m h v = Returns-bind (remove_hash_correct h m.pending v.queue) λ q (w, t).
        let once =
          λ (k : ℕ). occurs-Without h k m.pending q (λ i. ground (arith, v.known_eq i)) t in
        returns (
          record {
            queue = w;
            known_eq = λ j. ground (arith, once j, v.known_eq j, get-delete h j m.known);
            bounded = omega (arith, once 0, v.bounded);
          },
          ground (arith, get-delete h h m.known),
          λ j. (once j).0,
          λ new. untouched q h m.pending t (ground (arith, v.known_eq h)),
        )
