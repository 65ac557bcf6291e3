-- ===== src/Rpc/Calls.antt =====
-- internal/rpc/handler.go: eth_call, eth_estimateGas, eth_getCode and eth_getStorageAt. What the JSON
-- of the arguments decodes to is a parameter, `decode_args`, with none for an error.
pub mod Estimate
use Prim.Native.String.{String}
use inso_sequencer.Base.{ℕ, true, false, ◌-◌, ◌^◌, List, [], ◌∷◌, Option, none, some, ◌>>=◌}
use inso_sequencer.StateStore.{TrieDb}
use inso_sequencer.Evm.{StateDb, Evm, BlockContext}
use inso_sequencer.Evm.Contract.{Message, CallResult}
use inso_sequencer.Manager.{Manager}
use inso_sequencer.Manager.Reads.{StateReads, call_contract, estimate_gas, get_code, get_storage_at}
use inso_sequencer.Rpc.Json.{Json, Params, Hex, first, first_of_texts, texts_of}
use inso_sequencer.Rpc.Chain.{
  Failure, invalid_params, invalid_call_args, execution_failed, gas_estimation_failed, Response,
  answer, failed,
}

pub record CallArgs : Type 0 where
  pub from : Option ℕ
  pub to : Option ℕ
  pub gas : Option ℕ
  pub gas_price : Option ℕ
  pub value : Option ℕ
  pub payload : Option (List ℕ)
  pub input : Option (List ℕ)

or_else : {A : Type 0} → Option A → A → A
or_else none d = d
or_else (some a) d = a

-- The handler always has a base fee.
pub to_message : CallArgs → ℕ → Message
unfolding or_else
to_message args base_fee = record {
  from = or_else args.from 0;
  to = args.to;
  gas_limit = or_else args.gas (2 ^ 63 - 1);
  gas_price = or_else args.gas_price base_fee;
  value = or_else args.value 0;
  payload = or_else args.input (or_else args.payload []);
}

-- The message of a request, or the error.
pub data Call : Type 0 where
  refused : Failure → Call
  message : Message → Call

unfoldable pub decode_call : (Json → Option CallArgs) → ℕ → Params → Call
decode_call decode_args base_fee params = elim (params >>= first) [
  | none ↦ refused invalid_params
  | some j ↦ elim (decode_args j) [
    | none ↦ refused invalid_call_args
    | some args ↦ message (to_message args base_fee)
  ]
]

-- An error of the EVM, a revert included, is an error of the request.
called : Option CallResult → Response (List ℕ)
called none = failed execution_failed
called (some r) = elim r.failed [ true ↦ failed execution_failed | false ↦ answer r.output ]

estimated : Option ℕ → Response ℕ
estimated none = failed gas_estimation_failed
estimated (some g) = answer g

module _ {D S : Type 0} (trie : TrieDb D S) ⦃db : StateDb S⦄ ⦃evm : Evm S⦄
    (output : BlockContext → Message → ℕ → S → List ℕ) (m : Manager D) where
  run_call : ℕ → Call → Response (List ℕ)
  unfolding called
  run_call now (refused e) = failed e
  run_call now (message msg) = called (call_contract trie output m msg m.current_block now)

  pub eth_call : (Json → Option CallArgs) → ℕ → ℕ → Params → Response (List ℕ)
  unfolding run_call
  eth_call decode_args base_fee now params = run_call now (decode_call decode_args base_fee params)

  run_estimate : ℕ → Call → Option (Response ℕ)
  unfolding estimated
  run_estimate now (refused e) = some (failed e)
  run_estimate now (message msg) = do
    r ← estimate_gas trie output m msg m.current_block now
    some (estimated r)

  -- None when the search is out of fuel.
  pub eth_estimate_gas : (Json → Option CallArgs) → ℕ → ℕ → Params → Option (Response ℕ)
  unfolding run_estimate
  eth_estimate_gas decode_args base_fee now params =
      run_estimate now (decode_call decode_args base_fee params)

module _ {D S : Type 0} (trie : TrieDb D S) (reads : StateReads S) (hex : Hex) (m : Manager D) where
  pub code_at : Params → Response (List ℕ)
  code_at params = elim (first_of_texts params) [
    | none ↦ failed invalid_params
    | some s ↦ answer (get_code trie reads m (hex.to_address s))
  ]

  storage_of : List String → Response ℕ
  storage_of (addr ∷ key ∷ rest) =
      answer (get_storage_at trie reads m (hex.to_address addr) (hex.to_hash key))
  storage_of _ = failed invalid_params

  pub storage_at : Params → Response ℕ
  unfolding storage_of
  storage_at params = elim (params >>= texts_of) [
    | none ↦ failed invalid_params
    | some args ↦ storage_of args
  ]
