-- ===== src/Heap/Up.antt =====
-- container/heap: `up` moves an entry towards the root until its parent is not after it.
use mathlib.Core.List.Perm
use mathlib.Core.Logic.{◌≢◌}
use inso_sequencer.Base.{
  ℕ, zero, suc, ◌+◌, ◌≤◌, ◌<◌, ◌≡◌, refl, ◌∙◌, Bool, true, false, List, arith, ◌==◌, length, get_or,
  Bool-cases, inl, inr, Returns, returns, Returns-if, Returns-map,
}
use inso_sequencer.Heap.{up_loop, up}
use inso_sequencer.Heap.Order.{
  parent, IsWeakOrder, swapped, length-swapped, swap-eq, get_or-swapped, swapped-perm, less_at-eq,
  IsBridged, AllGood, Sifted,
}

module _ {A : Type 0} (less : A → A → Bool) (Good : A → Type 0) (d : A)
    (laws : IsWeakOrder less Good) where
  -- Only the edge above `i` may be out of order.
  pub record UpInv (n : ℕ) (a : List A) (i : ℕ) : Type 0 where
    pub inside : i < n
    pub fits : n ≤ length a
    pub edges :
        (c : ℕ) → 0 < c → c < n → c ≢ i → less (get_or a c d) (get_or a (parent c) d) ≡ false
    pub bridged : IsBridged less Good d n a i
    pub good : AllGood less Good d a

  pub swapped-good :
      (a : List A) (i j : ℕ)
      → i < length a
      → j < length a
      → AllGood less Good d a
      → AllGood less Good d (swapped d a i j)
  swapped-good a i j hi hj g c = rw (get_or-swapped d a i j hi hj c) (elim (Bool-cases (j == c)) [
    | inl e ↦ rw e (g i)
    | inr e ↦ rw e (elim (Bool-cases (i == c)) [ inl p ↦ rw p (g j) | inr p ↦ rw p (g c) ])
  ])

  swap-UpInv :
      (n : ℕ) (a : List A) (i : ℕ)
      → UpInv n a i
      → 0 < i
      → less (get_or a i d) (get_or a (parent i) d) ≡ true
      → UpInv n (swapped d a (parent i) i) (parent i)
  swap-UpInv n a i v pos below =
      let p = parent i in
      let hp : p < length a = omega (arith, v.inside, v.fits) in
      let hi : i < length a = omega (arith, v.inside, v.fits) in
      let at = get_or-swapped d a p i hp hi in
      let order = laws.asym (get_or a i d) (get_or a p d) below in
      record {
        inside = omega (arith, v.inside);
        fits = omega (arith, v.fits, length-swapped d a p i);
        edges = λ c h k q. ground (
          arith,
          at c,
          at (parent c),
          v.edges c,
          v.bridged c,
          order,
          laws.trans (get_or a i d) (get_or a p d) (get_or a c d) (v.good i) (v.good p) (v.good c),
        );
        bridged = λ c h k q r. ground (
          arith,
          at c,
          at (parent p),
          v.edges c,
          v.edges p,
          laws.trans (get_or a (parent p) d) (get_or a p d) (get_or a c d) (v.good (parent p))
              (v.good p) (v.good c),
        );
        good = swapped-good a p i hp hi v.good;
      }

  up_loop_restores :
      (k n : ℕ) (a : List A) (i : ℕ)
      → i < k
      → UpInv n a i
      → Returns (Sifted less Good d n a) (up_loop less k a i)
  unfolding up_loop
  up_loop_restores zero n a i f v = absurd (omega arith)
  up_loop_restores (suc k) n a i f v =
      let p = parent i in
      let hp : p < length a = omega (arith, v.inside, v.fits) in
      let hi : i < length a = omega (arith, v.inside, v.fits) in
      rw (less_at-eq less d a i p hi hp, swap-eq d a p i hp hi)
        (Returns-if (p == i)
          (λ root. returns (record {
            heap = λ c h k. v.edges c h k (ground arith);
            same = Perm.rfl;
            rest = λ c h. refl;
            good = v.good;
          }))
          λ inner.
            Returns-if (less (get_or a i d) (get_or a p d))
              (λ below.
                Returns-map
                  (up_loop_restores k n (swapped d a p i) p (ground arith)
                    (swap-UpInv n a i v (ground arith) below))
                  λ b s. record {
                    heap = s.heap;
                    same = Perm.trans s.same (swapped-perm d a p i hp hi);
                    rest = λ c h.
                        s.rest c h ∙ ground (arith, get_or-swapped d a p i hp hi c, v.inside);
                    good = s.good;
                  })
              λ settled. returns (record {
                heap = λ c h k. ground (arith, v.edges c);
                same = Perm.rfl;
                rest = λ c h. refl;
                good = v.good;
              }))

  pub up_restores :
      (n : ℕ) (a : List A) (i : ℕ) → UpInv n a i → Returns (Sifted less Good d n a) (up less a i)
  unfolding up
  up_restores n a i v = up_loop_restores (i + 1) n a i (omega arith) v
