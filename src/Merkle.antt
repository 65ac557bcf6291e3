-- ===== src/Merkle.antt =====
-- internal/execution/receipts.go: computeMerkleRoot. `pair_hash` is Keccak256 of the bytes of two
-- hashes, one after the other.
pub mod Binding
use inso_sequencer.Base.{ℕ, zero, suc, List, [], ◌∷◌, Option, none, some, length}

module _ (pair_hash : ℕ → ℕ → ℕ) where
  -- The body of the outer loop: one level of the tree.
  unfoldable pub next_level : List ℕ → List ℕ
  next_level [] = []
  next_level (a ∷ []) = a ∷ []
  next_level (a ∷ b ∷ rest) = pair_hash a b ∷ next_level rest

  -- The outer loop; `none` when the fuel runs out.
  unfoldable pub levels : ℕ → List ℕ → Option ℕ
  unfolding next_level
  levels zero hashes = none
  levels (suc k) [] = some 0
  levels (suc k) (a ∷ []) = some a
  levels (suc k) (a ∷ b ∷ rest) = levels k (next_level (a ∷ b ∷ rest))

  -- Each level is shorter, so one round for each hash is enough.
  unfoldable pub merkle_root : List ℕ → Option ℕ
  unfolding levels
  merkle_root hashes = levels (suc (length hashes)) hashes
