-- ===== src/StateStore.antt =====
-- internal/execution/statestore.go. The trie database of go-ethereum is a parameter, `TrieDb`: a
-- database `D` gives the state `S` at a root, or none for an error; a commit may change the database
-- also where it fails.
use inso_sequencer.Base.{ℕ, Bool, Option, none, some, if◌then◌else◌}

pub record TrieDb (D S : Type 0) : Type 0 where
  -- `state.New`
  pub state_at : D → ℕ → Option S
  -- `StateDB.Commit`: the root, or none for an error.
  pub commit_nodes : D → S → ℕ → Option ℕ × D
  -- `triedb.Database.Commit`: whether no error is returned.
  pub flush : D → ℕ → Bool × D
  -- `triedb.Database.Initialized`
  pub initialized : D → ℕ → Bool

flushed {ℓ} : {D : Type ℓ} → ℕ → Bool × D → Option ℕ × D
flushed root (done, d) = (if done then some root else none, d)

module _ {D S : Type 0} (trie : TrieDb D S) where
  unfoldable pub open_state : D → ℕ → Option S
  open_state d root = trie.state_at d root

  commit_with : Option ℕ × D → Option ℕ × D
  unfolding flushed
  commit_with (none, d) = (none, d)
  commit_with (some root, d) = flushed root (trie.flush d root)

  unfoldable pub commit_state : D → S → ℕ → Option ℕ × D
  unfolding commit_with
  commit_state d s number = commit_with (trie.commit_nodes d s number)

  unfoldable pub has_state : D → ℕ → Bool
  has_state d root = trie.initialized d root
