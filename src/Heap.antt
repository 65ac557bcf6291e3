-- ===== src/Heap.antt =====
-- Go's container/heap, on the slice that internal/mempool/queue.go gives it. An index out of range
-- is a panic, `none`; so is fuel that runs out, which the theorems of the children exclude.
pub mod Order
pub mod Up
pub mod Down
pub mod Laws
use inso_sequencer.Base.{
  ℕ, zero, suc, ◌+◌, ◌-◌, ◌*◌, ◌/◌, Bool, List, [], ◌∷◌, ◌++◌, Option, none, some, ltb, leb, ◌==◌,
  if◌then◌else◌, ◌>>=◌, length, get_elem?, set, take,
}

module _ {A : Type 0} where
  -- `func (q txQueue) Swap(i, j int)`
  pub swap : List A → ℕ → ℕ → Option (List A)
  swap a i j = do x ← get_elem? a i; y ← get_elem? a j; some (set (set a i y) j x)

  -- `func (q *txQueue) Push(x interface{})`
  pub push_back : List A → A → List A
  push_back a x = a ++ x ∷ []

  -- `func (q *txQueue) Pop() interface{}`
  pub pop_back : List A → Option (A × List A)
  pop_back a = do
    let n = length a
    item ← (if n == 0 then none else get_elem? a (n - 1))
    some (item, take (n - 1) a)

module _ {A : Type 0} (less : A → A → Bool) where
  pub less_at : List A → ℕ → ℕ → Option Bool
  less_at a i j = do x ← get_elem? a i; y ← get_elem? a j; some (less x y)

  pub up_loop : ℕ → List A → ℕ → Option (List A)
  unfolding swap less_at
  up_loop zero a j = none
  up_loop (suc k) a j =
      let i = (j - 1) / 2 in
      let rise = swap a i j >>= λ b. up_loop k b i in
      let step = less_at a j i >>= λ below. if below then rise else some a in
      if i == j then some a else step

  pub up : List A → ℕ → Option (List A)
  unfolding up_loop
  up a j = up_loop (j + 1) a j

  pub smaller_child : List A → ℕ → ℕ → Option ℕ
  unfolding less_at
  smaller_child a j1 n =
      let j2 = j1 + 1 in
      if ltb j2 n
      then (do smaller ← less_at a j2 j1; some (if smaller then j2 else j1))
      else some j1

  -- Returns the slice with the index at which the loop stopped.
  pub down_loop : ℕ → List A → ℕ → ℕ → Option (List A × ℕ)
  unfolding swap less_at smaller_child
  down_loop zero a i n = none
  down_loop (suc k) a i n =
      let j1 = 2 * i + 1 in
      let step : Option (List A × ℕ) = do
        j ← smaller_child a j1 n
        below ← less_at a j i
        let sink = swap a i j >>= λ b. down_loop k b j n
        if below then sink else some (a, i)
      in if leb n j1 then some (a, i) else step

  -- Returns the slice, with whether the entry moved.
  pub down : List A → ℕ → ℕ → Option (List A × Bool)
  unfolding down_loop
  down a i0 n = do (b, i) ← down_loop (n + 1) a i0 n; some (b, ltb i0 i)

  pub push : List A → A → Option (List A)
  unfolding push_back up
  push a x = let b = push_back a x in up b (length b - 1)

  pub pop : List A → Option (A × List A)
  unfolding swap down pop_back
  pop a = do
    let n = length a - 1
    b ← (if length a == 0 then none else swap a 0 n)
    (c, moved) ← down b 0 n
    pop_back c

  pub remove : List A → ℕ → Option (A × List A)
  unfolding swap down up pop_back
  remove a i = do
    let n = length a - 1
    let settle = swap a i n >>= λ b. down b i n >>= λ (c, moved). if moved then some c else up c i
    d ← (if n == i then some a else settle)
    pop_back d
