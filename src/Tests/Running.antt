-- ===== src/Tests/Running.antt =====
-- The reads of internal/rpc on small inputs.
use inso_sequencer.Base.{◌≡◌, refl, true, false, [], ◌∷◌, none, some}
use inso_sequencer.Types.{L2Block}
use inso_sequencer.ChainDb.{write_block}
use inso_sequencer.StateStore.{open_state, commit_state}
use inso_sequencer.Manager.{execute_and_commit_block}
use inso_sequencer.Rpc.Json.{Hex, string}
use inso_sequencer.Rpc.Chain.{answer, eth_block_response, get_block_by_number, block_by_hash}
use inso_sequencer.Rpc.Chain.Latest.{committed_block_is_latest}
use inso_sequencer.Tests.Toys.{toy_state, toy_evm, toy_laws, toy_trie, a_tx, a_block}
use inso_sequencer.Tests.Node.{manager, a_tx-small_gas}
use inso_sequencer.Tests.Service.{hex}

-- The block that is committed, which is there.
abbrev committed : L2Block
committed = elim (execute_and_commit_block toy_trie true manager (a_tx ∷ []) 2 5 0 1).0.block [
  | none ↦ a_block
  | some b ↦ b
]

committed-made :
    (execute_and_commit_block toy_trie true manager (a_tx ∷ []) 2 5 0 1).0.block ≡ some committed
unfolding execute_and_commit_block open_state commit_state write_block
committed-made = refl

abbrev block_hex : Hex
block_hex = record hex { to_hash = λ s. committed.header.hash }

committed_block_is_latest_example :
    (get_block_by_number block_hex
        (execute_and_commit_block toy_trie true manager (a_tx ∷ []) 2 5 0 1).1
        (some (string "latest" ∷ []))
      ≡ some (answer (eth_block_response committed false)))
    × (block_by_hash block_hex
          (execute_and_commit_block toy_trie true manager (a_tx ∷ []) 2 5 0 1).1
          (some (string "0x9" ∷ []))
        ≡ some (answer (eth_block_response committed false)))
committed_block_is_latest_example =
    committed_block_is_latest toy_trie toy_laws block_hex true manager (a_tx ∷ []) 2 5 0 1 committed
      "0x9" a_tx-small_gas committed-made refl
