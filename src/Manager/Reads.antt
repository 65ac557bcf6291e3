-- ===== src/Manager/Reads.antt =====
-- internal/state/manager.go: the operations that run or read the state at the tip and keep nothing.
-- Code and storage are read by a parameter, `StateReads`. The clock is an argument.
use inso_sequencer.Base.{ℕ, Bool, List, [], Option, none, some}
use inso_sequencer.StateStore.{TrieDb, open_state}
use inso_sequencer.Evm.{StateDb, Evm, BlockContext}
use inso_sequencer.Evm.Contract
use inso_sequencer.Evm.Contract.{Message, CallResult, estimate_message}
use inso_sequencer.Manager.{Manager, block_gas_limit, get_block_hash}

pub record StateReads (S : Type 0) : Type 0 where
  pub get_code : S → ℕ → List ℕ
  pub get_state : S → ℕ → ℕ → ℕ

unfoldable pub build_block_context : {D : Type 0} → Manager D → ℕ → ℕ → BlockContext
build_block_context m number now = record {
  get_hash = λ n. get_block_hash m n;
  coinbase = m.sequencer_addr;
  block_number = number;
  time = now;
  gas_limit = block_gas_limit;
  base_fee = 1_000_000_000;
  blob_base_fee = none;
}

-- `SequencerStatus`, the fields that the code sets.
pub record SequencerStatus : Type 0 where
  pub is_sequencing : Bool
  pub current_block : ℕ
  pub sequencer_addr : ℕ
  pub chain_id : ℕ

pub get_sequencer_status : {D : Type 0} → Manager D → SequencerStatus
get_sequencer_status m = record {
  is_sequencing = m.is_sequencing;
  current_block = m.current_block;
  sequencer_addr = m.sequencer_addr;
  chain_id = m.chain_id;
}

module _ {D S : Type 0} (trie : TrieDb D S) where
  -- Nil for an error.
  pub get_code : StateReads S → Manager D → ℕ → List ℕ
  get_code reads m addr = elim (open_state trie m.disk m.state_root) [
    | none ↦ []
    | some s ↦ reads.get_code s addr
  ]

  pub get_storage_at : StateReads S → Manager D → ℕ → ℕ → ℕ
  get_storage_at reads m addr key = elim (open_state trie m.disk m.state_root) [
    | none ↦ 0
    | some s ↦ reads.get_state s addr key
  ]

  module _ ⦃db : StateDb S⦄ ⦃evm : Evm S⦄ (output : BlockContext → Message → ℕ → S → List ℕ) where
    -- None where the state cannot be opened.
    unfoldable pub call_contract : Manager D → Message → ℕ → ℕ → Option CallResult
    unfolding build_block_context
    call_contract m msg number now = elim (open_state trie m.disk m.state_root) [
      | none ↦ none
      | some s ↦ some (Contract.call_contract output s msg (build_block_context m number now))
    ]

    -- Out of fuel is none; where the state cannot be opened, there is no number.
    unfoldable pub estimate_gas : Manager D → Message → ℕ → ℕ → Option (Option ℕ)
    unfolding build_block_context estimate_message
    estimate_gas m msg number now = elim (open_state trie m.disk m.state_root) [
      | none ↦ some none
      | some s ↦ elim (estimate_message output s msg (build_block_context m number now)) [
        | none ↦ none
        | some g ↦ some (some g)
      ]
    ]
