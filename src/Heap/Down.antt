-- ===== src/Heap/Down.antt =====
-- container/heap: `down` moves an entry towards the leaves until neither child is less.
use mathlib.Core.List.Perm
use mathlib.Core.Logic.{◌≢◌}
use inso_sequencer.Base.{
  ℕ, zero, suc, ◌+◌, ◌-◌, ◌*◌, ◌≤◌, ◌<◌, ◌≡◌, refl, ◌∙◌, ◌⊎◌, inl, inr, Bool, true, false, List,
  some, arith, leb, ltb, ◌==◌, Bool-cases, length, get_or, Returns, returns, Returns-if,
  Returns-map, Returns-bind,
}
use inso_sequencer.Heap.{smaller_child, down_loop, down}
use inso_sequencer.Heap.Order.{
  parent, IsWeakOrder, swapped, length-swapped, swap-eq, get_or-swapped, swapped-perm, less_at-eq,
  IsBridged, AllGood, Sifted,
}
use inso_sequencer.Heap.Up.{UpInv, swapped-good}

module _ {A : Type 0} (less : A → A → Bool) (Good : A → Type 0) (d : A)
    (laws : IsWeakOrder less Good) where
  -- Only the edges below `i` and the edge above it may be out of order.
  pub record DownInv (n : ℕ) (a : List A) (i : ℕ) : Type 0 where
    pub inside : i < n
    pub fits : n ≤ length a
    pub edges :
        (c : ℕ)
        → 0 < c
        → c < n
        → c ≢ i
        → parent c ≢ i
        → less (get_or a c d) (get_or a (parent c) d) ≡ false
    pub bridged : IsBridged less Good d n a i
    pub good : AllGood less Good d a

  -- `m` is the child of `i` that no other child is less than.
  record IsSmallerChild (n : ℕ) (a : List A) (i m : ℕ) : Type 0 where
    inside : m < n
    child : (m ≡ 2 * i + 1) ⊎ (m ≡ 2 * i + 2)
    least : (c : ℕ) → 0 < c → c < n → parent c ≡ i → less (get_or a c d) (get_or a m d) ≡ false

  irrefl : (x : A) → less x x ≡ false
  irrefl x = ground (arith, laws.asym x x)

  smaller_child-IsSmallerChild :
      (n : ℕ) (a : List A) (i : ℕ)
      → n ≤ length a
      → 2 * i + 1 < n
      → Returns (IsSmallerChild n a i) (smaller_child less a (2 * i + 1) n)
  unfolding smaller_child
  smaller_child-IsSmallerChild n a i fits h =
      Returns-if (ltb (2 * i + 1 + 1) n)
        (λ both.
          rw (less_at-eq less d a (2 * i + 1 + 1) (2 * i + 1) (ground arith) (ground arith))
            (elim (Bool-cases (less (get_or a (2 * i + 1 + 1) d) (get_or a (2 * i + 1) d))) [
              | inl e ↦ rw e (
                  returns (record {
                    inside = ground arith;
                    child = inr (omega arith);
                    least = λ c p q r. ground (
                      arith,
                      irrefl (get_or a c d),
                      laws.asym (get_or a (2 * i + 1 + 1) d) (get_or a (2 * i + 1) d),
                    );
                  }))
              | inr e ↦ rw e (
                  returns (record {
                    inside = h;
                    child = inl refl;
                    least = λ c p q r. ground (arith, irrefl (get_or a c d));
                  }))
            ]))
        λ one. returns (record {
          inside = h;
          child = inl refl;
          least = λ c p q r. ground (arith, irrefl (get_or a c d));
        })

  -- After the swap only the edges below the child may be out of order.
  swap-DownInv :
      (n : ℕ) (a : List A) (i m : ℕ)
      → DownInv n a i
      → IsSmallerChild n a i m
      → less (get_or a m d) (get_or a i d) ≡ true
      → DownInv n (swapped d a i m) m
        × (less (get_or (swapped d a i m) m d) (get_or (swapped d a i m) (parent m) d) ≡ false)
  swap-DownInv n a i m v s below =
      let hi : i < length a = omega (arith, v.inside, v.fits) in
      let hm : m < length a = omega (arith, s.inside, v.fits) in
      let at = get_or-swapped d a i m hi hm in
      (
        record {
          inside = s.inside;
          fits = omega (arith, v.fits, length-swapped d a i m);
          edges = λ c h k q r.
              ground (arith, at c, at (parent c), v.edges c, v.bridged m, s.least c, s.child);
          bridged = λ c h k q r. ground (arith, at c, at (parent m), v.edges c, s.child);
          good = swapped-good less Good d laws a i m hi hm v.good;
        },
        ground (arith, at m, at (parent m), s.child, laws.asym (get_or a m d) (get_or a i d) below),
      )

  -- What the loop returns from `i`: it stopped at `i` with nothing moved and the edges below in
  -- order, or it went below and left a heap.
  pub record Sunk (n : ℕ) (a : List A) (i : ℕ) (r : List A × ℕ) : Type 0 where
    pub past : i ≤ r.1
    pub stayed : r.1 ≡ i → UpInv less Good d laws n r.0 i × (r.0 ≡ a)
    pub moved : i < r.1 → Sifted less Good d n a r.0

  settled_lem :
      (n : ℕ) (a : List A) (i : ℕ)
      → DownInv n a i
      → ((c : ℕ) → 0 < c → c < n → parent c ≡ i → less (get_or a c d) (get_or a i d) ≡ false)
      → Sunk n a i (a, i)
  settled_lem n a i v below = record {
    past = omega arith;
    stayed = λ e. (
      record {
        inside = v.inside;
        fits = v.fits;
        edges = λ c h k q. ground (arith, v.edges c, below c);
        bridged = v.bridged;
        good = v.good;
      },
      refl,
    );
    moved = λ h. absurd (omega arith);
  }

  -- With the edge above in order too, the result is a heap wherever the loop stops.
  Sunk-Sifted :
      (n : ℕ) (a : List A) (i : ℕ) (r : List A × ℕ)
      → (0 < i → less (get_or a i d) (get_or a (parent i) d) ≡ false)
      → Sunk n a i r
      → Sifted less Good d n a r.0
  Sunk-Sifted n a i (b, k) edge s = elim (Bool-cases (k == i)) [
    | inl e ↦
        let (u, same) = s.stayed (ground arith) in
        record {
          heap = λ c h q. ground (arith, u.edges c, edge, same);
          same = rw same Perm.rfl;
          rest = λ c h. rw same;
          good = u.good;
        }
    | inr e ↦ s.moved (ground (arith, s.past))
  ]

  Sunk-swapped :
      (n : ℕ) (a : List A) (i m : ℕ) (r : List A × ℕ)
      → i < length a
      → m < length a
      → i < m
      → Sifted less Good d n (swapped d a i m) r.0
      → m ≤ r.1
      → m < n
      → Sunk n a i r
  Sunk-swapped n a i m r hi hm im w past mn = record {
    past = omega arith;
    stayed = λ e. absurd (omega arith);
    moved = λ _. record {
      heap = w.heap;
      same = Perm.trans w.same (swapped-perm d a i m hi hm);
      rest = λ c h. w.rest c h ∙ ground (arith, get_or-swapped d a i m hi hm c);
      good = w.good;
    };
  }

  down_loop_restores :
      (k n : ℕ) (a : List A) (i : ℕ)
      → n - i < k
      → DownInv n a i
      → Returns (Sunk n a i) (down_loop less k a i n)
  unfolding down_loop
  down_loop_restores zero n a i f v = absurd (omega arith)
  down_loop_restores (suc k) n a i f v =
      let hi : i < length a = omega (arith, v.inside, v.fits) in
      Returns-if (leb n (2 * i + 1))
        (λ leaf. returns (settled_lem n a i v λ c h q r. absurd (ground arith)))
        λ inner. Returns-bind (smaller_child-IsSmallerChild n a i v.fits (ground arith)) λ m s.
          let hm : m < length a = omega (arith, s.inside, v.fits) in
          rw (less_at-eq less d a m i hm hi, swap-eq d a i m hi hm)
            (Returns-if (less (get_or a m d) (get_or a i d))
              (λ below.
                let (w, edge) = swap-DownInv n a i m v s below in
                Returns-map
                  (down_loop_restores k n (swapped d a i m) m (omega (arith, s.child, s.inside)) w)
                  λ r t.
                    Sunk-swapped n a i m r hi hm (omega (arith, s.child))
                      (Sunk-Sifted n (swapped d a i m) m r (λ _. edge) t) t.past s.inside)
              λ settled. returns (
                settled_lem n a i v λ c h q r.
                  laws.trans (get_or a i d) (get_or a m d) (get_or a c d) (v.good i) (v.good m)
                    (v.good c) settled (s.least c h q r)))

  -- `down` on an entry that is out of order with its parent too: it leaves the slice alone and the
  -- edges below in order, or makes a heap.
  pub record Lowered (n : ℕ) (a : List A) (i : ℕ) (r : List A × Bool) : Type 0 where
    pub stayed : r.1 ≡ false → UpInv less Good d laws n r.0 i × (r.0 ≡ a)
    pub moved : r.1 ≡ true → Sifted less Good d n a r.0

  pub down_lowers :
      (n : ℕ) (a : List A) (i : ℕ) → DownInv n a i → Returns (Lowered n a i) (down less a i n)
  unfolding down
  down_lowers n a i v = Returns-bind (down_loop_restores (n + 1) n a i (omega arith) v) λ (b, k) s.
      returns (record {
        stayed = λ e. s.stayed (ground (arith, s.past));
        moved = λ e. s.moved (ground arith);
      })

  -- `down` from the root of a slice whose edges below the root's children are in order.
  pub down_restores :
      (n : ℕ) (a : List A)
      → DownInv n a 0
      → Returns (λ r. Sifted less Good d n a r.0) (down less a 0 n)
  unfolding down
  down_restores n a v =
      Returns-bind (down_loop_restores (n + 1) n a 0 (omega arith) v)
        λ r s. returns (Sunk-Sifted n a 0 r (λ h. absurd (omega arith)) s)

  pub down-empty : (a : List A) → down less a 0 0 ≡ some (a, false)
  unfolding down down_loop
  down-empty a = refl
