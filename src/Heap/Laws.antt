-- ===== src/Heap/Laws.antt =====
-- container/heap: what Push, Pop and Remove do to a heap.
use mathlib.Core.List.Perm
use mathlib.Core.Path.{subst}
use mathlib.Core.Logic.Or
use mathlib.Core.Bool.{Bool-set}
use mathlib.Core.List.{Mem, mem-cons, not-mem-nil}
use inso_sequencer.Base.{
  ℕ, zero, suc, ◌+◌, ◌-◌, ◌<◌, ◌≡◌, refl, ◌∙◌, Bool, false, List, [], ◌∷◌, ◌++◌, Perm, arith, ◌==◌,
  Bool-cases, inl, inr, length, get_or, get_or-append, get_or-take, get_elem?-get_or, take,
  length-take, take-append-last, length-append, length-perm, snoc-perm, Returns, returns,
  Returns-bind, Returns-if, Returns-map,
}
use inso_sequencer.Heap.{push_back, pop_back, push, pop, remove}
use inso_sequencer.Heap.Order.{
  parent, IsWeakOrder, swapped, length-swapped, swap-eq, get_or-swapped, swapped-perm, IsHeap,
  AllGood, Sifted,
}
use inso_sequencer.Heap.Up.{UpInv, swapped-good, up_restores}
use inso_sequencer.Heap.Down.{DownInv, down_restores, down_lowers}

module _ {A : Type 0} (less : A → A → Bool) (Good : A → Type 0) (d : A)
    (laws : IsWeakOrder less Good) where
  -- A slice that is a heap of good entries.
  pub record IsQueue (a : List A) : Type 0 where
    pub heap : IsHeap less Good d (length a) a
    pub good : AllGood less Good d a

  -- `b` is a heap of exactly the entries of `a`.
  abbrev pub Holds : List A → List A → Type 0
  Holds a b = IsQueue b × Perm b a

  AllGood-append :
      (a : List A) (x : A)
      → Good x
      → Good d
      → AllGood less Good d a
      → AllGood less Good d (a ++ x ∷ [])
  AllGood-append [] x gx gd g zero = gx
  AllGood-append [] x gx gd g (suc i) = gd
  AllGood-append (y ∷ a) x gx gd g zero = g 0
  AllGood-append (y ∷ a) x gx gd g (suc i) = AllGood-append a x gx gd (λ j. g (suc j)) i

  AllGood-take :
      (n : ℕ) (a : List A) → Good d → AllGood less Good d a → AllGood less Good d (take n a)
  AllGood-take zero a gd g i = gd
  AllGood-take (suc n) [] gd g i = gd
  AllGood-take (suc n) (y ∷ a) gd g zero = g 0
  AllGood-take (suc n) (y ∷ a) gd g (suc i) = AllGood-take n a gd (λ j. g (suc j)) i

  pub push_correct :
      (a : List A) (x : A) → Good d → Good x → IsQueue a → Returns (Holds (x ∷ a)) (push less a x)
  unfolding push push_back
  push_correct a x gd gx q =
      let b = a ++ x ∷ [] in
      let size : length b ≡ length a + 1 = length-append a (x ∷ []) in
      let start : UpInv less Good d laws (length b) b (length b - 1) = record {
        inside = omega (arith, size);
        fits = omega arith;
        edges = λ c h k r. ground (
          arith,
          size,
          q.heap c,
          get_or-append a (x ∷ []) c d,
          get_or-append a (x ∷ []) (parent c) d,
        );
        bridged = λ c h k q r. absurd (omega (arith, size));
        good = AllGood-append a x gx gd q.good;
      } in
      Returns-map (up_restores less Good d laws (length b) b (length b - 1) start) λ c s. (
        record { heap = rw (length-perm s.same) s.heap; good = s.good },
        Perm.trans s.same (snoc-perm a x),
      )

  -- Taking the last entry off a slice whose other entries are a heap.
  pop_back_correct :
      (n : ℕ) (a : List A)
      → Good d
      → length a ≡ suc n
      → IsHeap less Good d n a
      → AllGood less Good d a
      → Returns (λ (x, b). (x ≡ get_or a n d) × IsQueue b × Perm (x ∷ b) a) (pop_back a)
  unfolding pop_back
  pop_back_correct n a gd e h g =
      let last : length a - 1 ≡ n = omega arith in
      let full : (length a == 0) ≡ false = ground arith in
      let size = length-take n a (omega arith) in
      rw (full, last, get_elem?-get_or a n d (omega arith))
        (returns (
          refl,
          record {
            heap = λ c p q.
                ground (arith, size, h c, get_or-take n a c d, get_or-take n a (parent c) d);
            good = AllGood-take n a gd g;
          },
          rw (take-append-last n a d e) at (Perm.symm (snoc-perm (take n a) (get_or a n d))),
        ))

  module _ (a : List A) (n i : ℕ) (size : length a ≡ suc n) (hi : i < suc n) where
    -- The slice after the first swap of Pop (with `i` 0) and Remove.
    cut-DownInv : i < n → IsQueue a → DownInv less Good d laws n (swapped d a i n) i
    cut-DownInv h q =
        let at = get_or-swapped d a i n (omega (arith, size)) (omega (arith, size)) in
        record {
          inside = h;
          fits = omega (arith, size, length-swapped d a i n);
          edges = λ c p k r s. ground (arith, q.heap c, at c, at (parent c), size);
          bridged = λ c p k r s. ground (
            arith,
            size,
            at c,
            at (parent i),
            q.heap c,
            q.heap i,
            laws.trans (get_or a (parent i) d) (get_or a i d) (get_or a c d) (q.good (parent i))
                (q.good i) (q.good c),
          );
          good =
              swapped-good less Good d laws a i n (omega (arith, size)) (omega (arith, size))
                q.good;
        }

    -- What Pop and Remove return: the entry that was at `i`, and a heap of the others.
    abbrev TakenAt : A × List A → Type 0
    TakenAt (x, b) = (x ≡ get_or a i d) × IsQueue b × Perm (x ∷ b) a

    -- The end of both: the entry at the back of a heap of the others is taken off.
    finish :
        (c : List A)
        → Good d
        → Sifted less Good d n (swapped d a i n) c
        → Returns TakenAt (pop_back c)
    finish c gd s =
        let hn : n < length a = omega (arith, size) in
        let hi' : i < length a = omega (arith, size) in
        let whole = Perm.trans s.same (swapped-perm d a i n hi' hn) in
        Returns-map (pop_back_correct n c gd (length-perm whole ∙ size) s.heap s.good)
          λ (x, b) (e, q, p). (
            e ∙ (s.rest n (omega arith) ∙ ground (arith, get_or-swapped d a i n hi' hn n)),
            q,
            Perm.trans p whole,
          )

  root_least_below :
      (k : ℕ) (a : List A) (i : ℕ)
      → IsQueue a
      → i < k
      → i < length a
      → less (get_or a i d) (get_or a 0 d) ≡ false
  root_least_below zero a i q f p = absurd (omega arith)
  root_least_below (suc k) a zero q f p = ground (arith, laws.asym (get_or a 0 d) (get_or a 0 d))
  root_least_below (suc k) a (suc i) q f p =
      let c = suc i in
      laws.trans (get_or a 0 d) (get_or a (parent c) d) (get_or a c d) (q.good 0)
        (q.good (parent c)) (q.good c)
        (root_least_below k a (parent c) q (omega arith) (omega arith)) (q.heap c (omega arith) p)

  -- No entry of the slice is less than `x`.
  abbrev pub IsFirst : A → List A → Type 0
  IsFirst x a = (y : A) → Mem y a → less y x ≡ false

  IsFirst-indexed :
      (a : List A) (x : A) → ((i : ℕ) → i < length a → less (get_or a i d) x ≡ false) → IsFirst x a
  IsFirst-indexed [] x h y m = absurd (not-mem-nil m)
  IsFirst-indexed (z ∷ a) x h y m =
      Or.elim (Bool-set _ _) (mem-cons.0 m) (λ e. rw e (h 0 (omega arith)))
        (λ n. IsFirst-indexed a x (λ i p. h (suc i) (omega arith)) y n)

  pub root-IsFirst : (a : List A) → IsQueue a → IsFirst (get_or a 0 d) a
  root-IsFirst a q = IsFirst-indexed a _ λ i p. root_least_below (suc i) a i q (omega arith) p

  -- Pop takes the root off a heap that is not empty, and leaves a heap of the other entries.
  pub pop_correct :
      (a : List A)
      → Good d
      → IsQueue a
      → 0 < length a
      → Returns (λ (x, b). (x ≡ get_or a 0 d) × IsQueue b × Perm (x ∷ b) a) (pop less a)
  unfolding pop
  pop_correct a gd q h =
      let n = length a - 1 in
      let size : length a ≡ suc n = omega arith in
      let full : (length a == 0) ≡ false = ground arith in
      rw (full, swap-eq d a 0 n h (omega arith))
        (elim (Bool-cases (n == 0)) [
          | inl e ↦
              let z : length a - 1 ≡ 0 = ground arith in
              rw z (
                finish a 0 0 (ground arith) (omega arith) (swapped d a 0 0) gd (record {
                  heap = λ c p k. absurd (omega arith);
                  same = Perm.rfl;
                  rest = λ c p. refl;
                  good = swapped-good less Good d laws a 0 0 h h q.good;
                }))
          | inr e ↦
              Returns-bind
                (down_restores less Good d laws n (swapped d a 0 n)
                  (cut-DownInv a n 0 size (omega arith) (ground arith) q))
                λ (c, moved) s. finish a n 0 size (omega arith) c gd s
        ])

  -- Remove takes the entry at `i` off, and leaves a heap of the other entries.
  pub remove_correct :
      (a : List A) (i : ℕ)
      → Good d
      → IsQueue a
      → i < length a
      → Returns (λ (x, b). (x ≡ get_or a i d) × IsQueue b × Perm (x ∷ b) a) (remove less a i)
  unfolding remove
  remove_correct a i gd q h =
      let n = length a - 1 in
      let size : length a ≡ suc n = omega arith in
      rw (swap-eq d a i n h (omega arith)) (elim (Bool-cases (n == i)) [
        | inl e ↦ rw e (
            Returns-map (pop_back_correct n a gd size (λ c p k. q.heap c p (omega arith)) q.good)
              λ (x, b) (t, u, w). (t ∙ ground arith, u, w))
        | inr e ↦ rw e (
            Returns-bind
              (Returns-bind
                (down_lowers less Good d laws n (swapped d a i n) i
                  (cut-DownInv a n i size (omega arith) (ground arith) q))
                λ (c, moved) l.
                  Returns-if moved (λ m. returns (l.moved m))
                    λ m.
                      let (u, same) = l.stayed m in
                      Returns-map (up_restores less Good d laws n c i u)
                        λ b t. subst (λ x. Sifted less Good d n x b) same t)
              λ c s. finish a n i size (omega arith) c gd s)
      ])
