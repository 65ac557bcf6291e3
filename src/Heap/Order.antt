-- ===== src/Heap/Order.antt =====
-- container/heap: the heap order, and what one swap of two entries does to a slice.
use mathlib.Core.List.Perm
use inso_sequencer.Base.{
  ℕ, ◌-◌, ◌/◌, ◌≤◌, ◌<◌, ◌≡◌, Bool, true, false, List, some, Perm, arith, ◌==◌, if◌then◌else◌,
  length, length-set, get_elem?-get_or, get_or, get_or-set, set, set-perm,
}
use inso_sequencer.Heap.{swap, less_at}

abbrev pub parent : ℕ → ℕ
parent c = (c - 1) / 2

-- `less` is an order in which two entries may tie. `Good` leaves out entries that compare with
-- none, such as those with a NaN.
pub record IsWeakOrder {A : Type 0} (less : A → A → Bool) (Good : A → Type 0) : Type 0 where
  pub asym : (x y : A) → less x y ≡ true → less y x ≡ false
  pub trans :
      (x y z : A)
      → Good x
      → Good y
      → Good z
      → less y x ≡ false
      → less z y ≡ false
      → less z x ≡ false

module _ {A : Type 0} (d : A) where
  abbrev pub swapped : List A → ℕ → ℕ → List A
  swapped a i j = set (set a i (get_or a j d)) j (get_or a i d)

  pub length-swapped :
      (xs : List A) (left : ℕ) (right : ℕ) → length (swapped xs left right) ≡ length xs
  length-swapped xs left right = simp length-set

  module _ (a : List A) (i : ℕ) (j : ℕ) (left : i < length a) (right : j < length a) where
    pub swap-eq : swap a i j ≡ some (swapped a i j)
    unfolding swap
    swap-eq = rw (get_elem?-get_or a i d left, get_elem?-get_or a j d right)

    pub get_or-swapped :
        (c : ℕ)
        → get_or (swapped a i j) c d
          ≡ (if j == c then get_or a i d else if i == c then get_or a j d else get_or a c d)
    get_or-swapped c = rw (
      get_or-set (set a i (get_or a j d)) j c (get_or a i d) d (rw length-set right),
      get_or-set a i c (get_or a j d) d left,
    )

    pub swapped-perm : Perm (swapped a i j) a
    swapped-perm =
        let b = set a i (get_or a j d) in
        let kept : get_or b j d ≡ get_or a j d =
          ground (arith, get_or-set a i j (get_or a j d) d) in
        let second = rw kept at (set-perm b j (get_or a i d) d (rw length-set right)) in
        Perm.cons_inv (Perm.trans second (set-perm a i (get_or a j d) d left))

module _ {A : Type 0} (less : A → A → Bool) (Good : A → Type 0) (d : A) where
  -- No entry among the first `n` is less than its parent.
  abbrev pub IsHeap : ℕ → List A → Type 0
  IsHeap n a = (c : ℕ) → 0 < c → c < n → less (get_or a c d) (get_or a (parent c) d) ≡ false

  -- The edges past `i`, from its parent to its children, are in order.
  abbrev pub IsBridged : ℕ → List A → ℕ → Type 0
  IsBridged n a i =
      (c : ℕ)
      → 0 < c
      → c < n
      → parent c ≡ i
      → 0 < i
      → less (get_or a c d) (get_or a (parent i) d) ≡ false

  abbrev pub AllGood : List A → Type 0
  AllGood a = (i : ℕ) → Good (get_or a i d)

  -- `b` holds the entries of `a`, the first `n` of them as a heap; the others are where they were.
  pub record Sifted (n : ℕ) (a b : List A) : Type 0 where
    pub heap : IsHeap n b
    pub same : Perm b a
    pub rest : (c : ℕ) → n ≤ c → get_or b c d ≡ get_or a c d
    pub good : AllGood b

module _ {A : Type 0} (less : A → A → Bool) (d : A) (a : List A) (i j : ℕ) where
  pub less_at-eq :
      i < length a → j < length a → less_at less a i j ≡ some (less (get_or a i d) (get_or a j d))
  unfolding less_at
  less_at-eq hi hj = rw (get_elem?-get_or a i d hi, get_elem?-get_or a j d hj)
