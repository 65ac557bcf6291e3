-- ===== src/Evm/Contract.antt =====
-- internal/execution/evm.go: CallContract, the run of a message whose state is thrown away. What the
-- EVM returns is a parameter, `output`, of the context, the message, the gas and the state.
use inso_sequencer.Base.{ℕ, ◌-◌, ◌^◌, Bool, List, Option, none, some, ◌==◌, if◌then◌else◌}
use inso_sequencer.Word.{sub64}
use inso_sequencer.Evm.{
  StateDb, BlockContext, VmResult, Evm, CallOutcome, u256, is_creation, estimate_gas,
}

-- go-ethereum's core.Message, as far as the source fills it in.
pub record Message : Type 0 where
  pub from : ℕ
  pub to : Option ℕ
  pub gas_limit : ℕ
  pub gas_price : ℕ
  pub value : ℕ
  pub payload : List ℕ

pub record CallResult : Type 0 where
  pub output : List ℕ
  pub gas_used : ℕ
  pub failed : Bool

module _ {S : Type 0} ⦃db : StateDb S⦄ ⦃evm : Evm S⦄
    (output : BlockContext → Message → ℕ → S → List ℕ) where
  run_message : BlockContext → Message → ℕ → S → VmResult S
  run_message ctx msg gas s = elim msg.to [
    | none ↦ evm.create ctx msg.gas_price msg.from msg.payload gas (u256 msg.value) s
    | some to ↦ evm.call ctx msg.gas_price msg.from to msg.payload gas (u256 msg.value) s
  ]

  -- No gas stands for 2^63 - 1.
  pub call_contract : S → Message → BlockContext → CallResult
  unfolding run_message
  call_contract s msg ctx =
      let gas = if msg.gas_limit == 0 then 2 ^ 63 - 1 else msg.gas_limit in
      let r = run_message ctx msg gas s in
      record { output = output ctx msg gas s; gas_used = sub64 gas r.leftover; failed = r.failed }

  -- The call of `EstimateGas` with another gas limit.
  abbrev pub call_with : S → Message → BlockContext → ℕ → CallOutcome
  call_with s msg ctx gas =
      let r = call_contract s (record msg { gas_limit = gas }) ctx in
      record { gas_used = r.gas_used; failed = r.failed }

  -- `EstimateGas`, whose upper end is the gas limit of the block.
  unfoldable pub estimate_message : S → Message → BlockContext → Option ℕ
  estimate_message s msg ctx = estimate_gas (call_with s msg ctx) (is_creation msg.to) ctx.gas_limit
