-- ===== src/Mempool/Invariant.antt =====
-- internal/mempool/mempool.go: the queue and the map of known hashes agree, whatever is called.
use inso_sequencer.Base.{
  ℕ, ◌≤◌, ◌<◌, ◌≡◌, refl, Bool, true, false, ◌∷◌, Option, none, some, leb, ◌==◌, if◌then◌else◌,
  arith, Perm, ◌⊎◌, inl, inr, length, length-perm, contains, get-put, get-delete, sum_by-perm,
  Returns, returns, Returns-bind, Returns-if,
}
use inso_sequencer.Float.{Float, IsIeee}
use inso_sequencer.Types.{Tx, TxMeta, compute_priority}
use inso_sequencer.Heap.Laws.{push_correct, pop_correct, root-IsFirst}
use inso_sequencer.Queue.{less, IsNumbered, less-IsWeakOrder, occurs, blank, IsQueue, IsFirst}
use inso_sequencer.Mempool.{
  Mempool, Error, already_known, mempool_full, new, new_meta, add, pop, has,
}

-- A hash that is known occurs once in the queue, any other not at all.
abbrev pub expected : Bool → ℕ
expected known = if known then 1 else 0

module _ {W : Type 0} ⦃f : Float W⦄ where
  pub record IsValid (m : Mempool W) : Type 0 where
    pub queue : IsQueue m.pending
    pub known_eq : (h : ℕ) → occurs h m.pending ≡ expected (contains h m.known)
    pub bounded : length m.pending ≤ m.max_size

  new-IsValid : IsIeee W → (weight : W) (max_size : ℕ) → IsValid (new weight max_size)
  unfolding new
  new-IsValid laws weight max_size = record {
    queue = record { heap = λ c p q. absurd (omega arith); good = λ i. laws.decimal_number 0 0 };
    known_eq = λ h. refl;
    bounded = omega arith;
  }

  -- What `add` returns on each branch.
  pub record Added (m : Mempool W) (x : TxMeta W) (r : Option Error × Mempool W) : Type 0 where
    pub valid : IsValid r.1
    pub branch :
        ((has m x.tx.hash ≡ true) × (r.0 ≡ some already_known) × (r.1 ≡ m))
        ⊎ ((has m x.tx.hash ≡ false)
            × (m.max_size ≤ length m.pending)
            × (r.0 ≡ some mempool_full)
            × (r.1 ≡ m))
        ⊎ ((has m x.tx.hash ≡ false)
            × (length m.pending < m.max_size)
            × (r.0 ≡ none)
            × Perm r.1.pending (x ∷ m.pending)
            × ((h : ℕ) → has r.1 h ≡ (if x.tx.hash == h then true else has m h)))

  -- `r` is what `pop` returns: nothing from an empty pool, and else an entry that none precedes.
  pub record Popped (m : Mempool W) (r : Option (TxMeta W) × Mempool W) : Type 0 where
    pub valid : IsValid r.1
    pub branch :
        ((length m.pending ≡ 0) × (r.0 ≡ none) × (r.1 ≡ m))
        ⊎ ((x : TxMeta W) × (r.0 ≡ some x)
            × Perm (x ∷ r.1.pending) m.pending
            × IsFirst x m.pending
            × (has r.1 x.tx.hash ≡ false))

  module _ (laws : IsIeee W) where
    -- To a valid pool, and with a priority that is a number, Add returns a valid pool: the same one
    -- with the error already_known if the hash is known, the same one with mempool_full if it is
    -- not and the pool is full, and else, with no error, the pool with this entry and its hash.
    pub add_correct :
        (m : Mempool W) (tx : Tx) (sender : ℕ) (score : W) (now : ℕ)
        → IsValid m
        → IsNumbered (new_meta m.taste_score_weight tx sender score now)
        → Returns
            (Added m (new_meta m.taste_score_weight tx sender score now))
            (add m tx sender score now)
    unfolding add has new_meta compute_priority
    add_correct m tx sender score now v g =
        Returns-if (contains tx.hash m.known)
          (λ old. returns (record { valid = v; branch = inl (old, refl, refl) }))
          λ fresh.
            Returns-if (leb m.max_size (length m.pending))
              (λ full.
                returns
                  (record { valid = v; branch = inr (inl (fresh, ground arith, refl, refl)) }))
              λ room.
                Returns-bind
                  (push_correct less IsNumbered blank less-IsWeakOrder m.pending _
                    (laws.decimal_number 0 0) g v.queue)
                  λ q (w, p). returns (record {
                    valid = record {
                      queue = w;
                      known_eq = λ h. ground (
                        arith,
                        sum_by-perm (λ (x : TxMeta W). if x.tx.hash == h then 1 else 0) p,
                        v.known_eq h,
                        get-put tx.hash h tt m.known,
                      );
                      bounded = ground (arith, length-perm p);
                    };
                    branch = inr (
                        inr (
                          fresh,
                          ground arith,
                          refl,
                          p,
                          λ h. ground (arith, get-put tx.hash h tt m.known),
                        ));
                  })

    -- From a valid pool, Pop returns nothing and the same pool if there is no entry, and else an
    -- entry that none comes before, a valid pool with the others, and no memory of its hash.
    pub pop_pops : (m : Mempool W) → IsValid m → Returns (Popped m) (pop m)
    unfolding pop has
    pop_pops m v =
        Returns-if (length m.pending == 0)
          (λ e. returns (record { valid = v; branch = inl (ground arith, refl, refl) }))
          λ e.
            Returns-bind
              (pop_correct less IsNumbered blank less-IsWeakOrder m.pending
                (laws.decimal_number 0 0) v.queue (ground arith))
              λ (x, q) (head, w, p). returns (record {
                valid = record {
                  queue = w;
                  known_eq = λ h. ground (
                    arith,
                    sum_by-perm (λ (y : TxMeta W). if y.tx.hash == h then 1 else 0) p,
                    v.known_eq h,
                    get-delete x.tx.hash h m.known,
                  );
                  bounded = omega (arith, length-perm p, v.bounded);
                };
                branch = inr (
                  x,
                  refl,
                  p,
                  rw head (root-IsFirst less IsNumbered blank less-IsWeakOrder m.pending v.queue),
                  ground (arith, get-delete x.tx.hash x.tx.hash m.known),
                );
              })
