-- ===== src/Rpc/Chain/Latest.antt =====
-- internal/rpc/handler.go: what a client reads after a block was committed.
use Prim.Native.String.{String}
use mathlib.Core.List.{Mem}
use inso_sequencer.Base.{ℕ, ◌+◌, ◌<◌, ◌≡◌, refl, inl, inr, Bool, false, List, [], ◌∷◌, some}
use inso_sequencer.Word.{u64_mod}
use inso_sequencer.Types.{Tx, L2Block}
use inso_sequencer.StateStore.{TrieDb}
use inso_sequencer.Evm.{StateDb, Evm}
use inso_sequencer.Evm.Transaction.{EvmLaws}
use inso_sequencer.ChainDb.{found}
use inso_sequencer.Manager.{
  Manager, block_gas_limit, execute_and_commit_block, get_block, get_block_by_hash,
}
use inso_sequencer.Manager.Commit.{execute_and_commit_block-IsOutcome}
use inso_sequencer.Rpc.Json.{string, Hex}
use inso_sequencer.Rpc.Chain.{
  answer, eth_block_response, full_tx_flag, block_or_nothing, block_number_of, block_at,
  block_by_text, get_block_by_number, block_by_hash_text, block_by_hash,
}

module _ {D : Type 0} (hex : Hex) (m : Manager D) (b : L2Block) where
  latest_reads :
      get_block m m.current_block ≡ found b
      → get_block_by_number hex m (some (string "latest" ∷ []))
        ≡ some (answer (eth_block_response b false))
  unfolding get_block_by_number block_by_text block_at block_number_of block_or_nothing full_tx_flag
  latest_reads e = rw (e, block_or_nothing) refl

  hash_reads :
      (s : String)
      → hex.to_hash s ≡ b.header.hash
      → get_block_by_hash m b.header.hash ≡ found b
      → block_by_hash hex m (some (string s ∷ [])) ≡ some (answer (eth_block_response b false))
  unfolding block_by_hash block_by_hash_text block_or_nothing full_tx_flag
  hash_reads s same e = rw (same, e, block_or_nothing) refl

module _ {D S : Type 0} (trie : TrieDb D S) ⦃db : StateDb S⦄ ⦃evm : Evm S⦄ (laws : EvmLaws S) where
  -- When ExecuteAndCommitBlock returns a block, and no sum of the block gas limit and the gas of a
  -- transaction passes 64 bits, eth_getBlockByNumber answers this block when it is asked for the latest
  -- one, and eth_getBlockByHash answers it when it is asked for its hash.
  pub committed_block_is_latest :
      (hex : Hex) (writes : Bool) (m : Manager D) (txs : List Tx)
      (number timestamp parent base_fee : ℕ) (b : L2Block) (s : String)
      → ((t : Tx) → Mem t txs → block_gas_limit + t.gas < u64_mod)
      → (execute_and_commit_block trie writes m txs number timestamp parent base_fee).0.block
        ≡ some b
      → hex.to_hash s ≡ b.header.hash
      → (get_block_by_number hex
            (execute_and_commit_block trie writes m txs number timestamp parent base_fee).1
            (some (string "latest" ∷ []))
          ≡ some (answer (eth_block_response b false)))
        × (block_by_hash hex
              (execute_and_commit_block trie writes m txs number timestamp parent base_fee).1
              (some (string s ∷ []))
            ≡ some (answer (eth_block_response b false)))
  committed_block_is_latest hex writes m txs number timestamp parent base_fee b s small e same =
      let n = (execute_and_commit_block trie writes m txs number timestamp parent base_fee).1 in
      elim (execute_and_commit_block-IsOutcome trie laws writes m txs number timestamp parent
        base_fee small) [
          | inl (no_block, chain, tip, root) ↦ cc
          | inr (c, e', is_block, stored, by_hash, tip, root) ↦
              let one : c ≡ b = cc in
              let at_tip : n.current_block ≡ c.header.number = cc (is_block.number_eq) in
              (
                latest_reads hex n b (rw (at_tip, ← one) stored),
                hash_reads hex n b s same (rw (← one) by_hash),
              )
        ]
