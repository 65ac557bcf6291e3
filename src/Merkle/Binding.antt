-- ===== src/Merkle/Binding.antt =====
-- internal/execution/receipts.go: computeMerkleRoot returns, and its root binds the hashes of a
-- block of known size; without the size it does not.
use inso_sequencer.Base.{
  ℕ, zero, suc, ◌+◌, ◌≤◌, ◌<◌, ◌≡◌, ◌≢◌, ◌⊎◌, inl, inr, refl, ◌∙◌, sym, List, [], ◌∷◌, some, arith,
  length,
}
use native.Mathlib.Decide.{ℕ_discrete}
use inso_sequencer.Merkle.{next_level, levels, merkle_root}

module _ (pair_hash : ℕ → ℕ → ℕ) where
  next_level-length :
      (xs : List ℕ)
      → length (next_level pair_hash xs) + length (next_level pair_hash xs) ≤ length xs + 1
  unfolding next_level
  next_level-length [] = omega arith
  next_level-length (a ∷ []) = omega arith
  next_level-length (a ∷ b ∷ rest) = omega (arith, next_level-length rest)

  -- More fuel than hashes gives the root, and the same root.
  levels-fuel :
      (k j : ℕ) (xs : List ℕ)
      → length xs < k
      → length xs < j
      → (r : ℕ) × (levels pair_hash k xs ≡ some r) × (levels pair_hash j xs ≡ some r)
  unfolding levels
  levels-fuel zero j xs h l = absurd (omega arith)
  levels-fuel (suc k) zero xs h l = absurd (omega arith)
  levels-fuel (suc k) (suc j) [] h l = (0, refl, refl)
  levels-fuel (suc k) (suc j) (a ∷ []) h l = (a, refl, refl)
  levels-fuel (suc k) (suc j) (a ∷ b ∷ rest) h l =
      levels-fuel k j (next_level pair_hash (a ∷ b ∷ rest))
        (omega (arith, next_level-length (a ∷ b ∷ rest)))
        (omega (arith, next_level-length (a ∷ b ∷ rest)))

  pub merkle_root-total : (xs : List ℕ) → (r : ℕ) × (merkle_root pair_hash xs ≡ some r)
  unfolding merkle_root
  merkle_root-total xs =
      let (r, e, _) =
        levels-fuel (suc (length xs)) (suc (length xs)) xs (omega arith) (omega arith) in
      (r, e)

  -- The root does not tell the number of hashes: a level of the tree has the root of the level below.
  pub merkle_root-next_level :
      (xs : List ℕ) → merkle_root pair_hash (next_level pair_hash xs) ≡ merkle_root pair_hash xs
  unfolding merkle_root levels
  merkle_root-next_level [] = refl
  merkle_root-next_level (a ∷ []) = refl
  merkle_root-next_level (a ∷ b ∷ rest) =
      let ys = next_level pair_hash (a ∷ b ∷ rest) in
      let (r, e, e') =
        levels-fuel (suc (length ys)) (suc (suc (length rest))) ys (omega arith)
          (omega (arith, next_level-length (a ∷ b ∷ rest))) in
      e ∙ sym e'

  -- Two pairs with the same hash that are not the same.
  abbrev pub Collision : Type 0
  Collision =
      (a : ℕ) × (b : ℕ) × (c : ℕ) × (d : ℕ) × (pair_hash a b ≡ pair_hash c d) × ((a ≢ c) ⊎ (b ≢ d))

  pair-binding : (a b c d : ℕ) → pair_hash a b ≡ pair_hash c d → ((a ≡ c) × (b ≡ d)) ⊎ Collision
  pair-binding a b c d e = elim (ℕ_discrete a c) [
    | yes p ↦ elim (ℕ_discrete b d) [ yes q ↦ inl (p, q) | no q ↦ inr (a, b, c, d, e, inr q) ]
    | no p ↦ inr (a, b, c, d, e, inl p)
  ]

  cons-binding :
      (a b c d : ℕ) (xs ys : List ℕ)
      → ((a ≡ c) × (b ≡ d)) ⊎ Collision
      → (xs ≡ ys) ⊎ Collision
      → (a ∷ b ∷ xs ≡ c ∷ d ∷ ys) ⊎ Collision
  cons-binding a b c d xs ys (inl p) (inl q) = inl (cc (p.0, p.1))
  cons-binding a b c d xs ys (inl p) (inr q) = inr q
  cons-binding a b c d xs ys (inr p) q = inr p

  next_level-binding :
      (xs ys : List ℕ)
      → length xs ≡ length ys
      → next_level pair_hash xs ≡ next_level pair_hash ys
      → (xs ≡ ys) ⊎ Collision
  unfolding next_level
  next_level-binding [] [] n e = inl refl
  next_level-binding (a ∷ []) (c ∷ []) n e = inl e
  next_level-binding (a ∷ b ∷ xs) (c ∷ d ∷ ys) n e =
      cons-binding a b c d xs ys (pair-binding a b c d cc)
        (next_level-binding xs ys (omega arith) cc)
  next_level-binding xs ys n e = absurd (omega arith)

  next_level-same_length :
      (xs ys : List ℕ)
      → length xs ≡ length ys
      → length (next_level pair_hash xs) ≡ length (next_level pair_hash ys)
  unfolding next_level
  next_level-same_length [] [] n = refl
  next_level-same_length (a ∷ []) (c ∷ []) n = refl
  next_level-same_length (a ∷ b ∷ xs) (c ∷ d ∷ ys) n = omega (arith, next_level-same_length xs ys)
  next_level-same_length xs ys n = absurd (omega arith)

  level-binding :
      (xs ys : List ℕ)
      → length xs ≡ length ys
      → (next_level pair_hash xs ≡ next_level pair_hash ys) ⊎ Collision
      → (xs ≡ ys) ⊎ Collision
  level-binding xs ys n (inl e) = next_level-binding xs ys n e
  level-binding xs ys n (inr c) = inr c

  levels-binding :
      (k : ℕ) (xs ys : List ℕ)
      → length xs < k
      → length xs ≡ length ys
      → levels pair_hash k xs ≡ levels pair_hash k ys
      → (xs ≡ ys) ⊎ Collision
  unfolding levels
  levels-binding zero xs ys h n e = absurd (omega arith)
  levels-binding (suc k) [] [] h n e = inl refl
  levels-binding (suc k) (a ∷ []) (c ∷ []) h n e = inl (ground arith)
  levels-binding (suc k) (a ∷ b ∷ xs) (c ∷ d ∷ ys) h n e =
      level-binding (a ∷ b ∷ xs) (c ∷ d ∷ ys) n (
        levels-binding k (next_level pair_hash (a ∷ b ∷ xs)) (next_level pair_hash (c ∷ d ∷ ys))
          (omega (arith, next_level-length (a ∷ b ∷ xs)))
          (next_level-same_length (a ∷ b ∷ xs) (c ∷ d ∷ ys) n) e)
  levels-binding (suc k) xs ys h n e = absurd (omega arith)

  -- Two lists of hashes of the same length whose roots are the same are the same, or there are two
  -- pairs of hashes, not the same, with the same hash.
  pub merkle_root-binding :
      (xs ys : List ℕ)
      → length xs ≡ length ys
      → merkle_root pair_hash xs ≡ merkle_root pair_hash ys
      → (xs ≡ ys) ⊎ Collision
  unfolding merkle_root
  merkle_root-binding xs ys n e =
      levels-binding (suc (length xs)) xs ys (omega arith) n (rw (← n) at e)
