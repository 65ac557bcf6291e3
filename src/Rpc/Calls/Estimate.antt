-- ===== src/Rpc/Calls/Estimate.antt =====
-- internal/rpc/handler.go: eth_estimateGas always answers, and what its answer is good for.
use inso_sequencer.Base.{
  ℕ, ◌^◌, ◌≤◌, ◌<◌, ◌≡◌, refl, ◌⊎◌, inl, inr, true, List, Option, none, some, arith, Bool-cases,
  Option-cases, Returns, returns, if◌then◌else◌,
}
use inso_sequencer.StateStore.{TrieDb, open_state}
use inso_sequencer.Evm.{StateDb, Evm, BlockContext, is_creation}
use inso_sequencer.Evm.Contract.{Message, call_with, estimate_message}
use inso_sequencer.Evm.Estimate.{IsEstimate, estimate_gas-IsEstimate, estimate_gas-failed}
use inso_sequencer.Manager.{Manager}
use inso_sequencer.Manager.Reads
use inso_sequencer.Manager.Reads.{build_block_context}
use inso_sequencer.Rpc.Json.{Json, Params}
use inso_sequencer.Rpc.Chain.{Failure, gas_estimation_failed, answer, failed}
use inso_sequencer.Rpc.Calls.{
  CallArgs, Call, refused, message, decode_call, estimated, run_estimate, eth_estimate_gas,
}

Call-cases : (c : Call) → ((e : Failure) × (c ≡ refused e)) ⊎ ((msg : Message) × (c ≡ message msg))
Call-cases (refused e) = inl (e, refl)
Call-cases (message msg) = inr (msg, refl)

module _ {D S : Type 0} (trie : TrieDb D S) ⦃db : StateDb S⦄ ⦃evm : Evm S⦄
    (output : BlockContext → Message → ℕ → S → List ℕ) where
  -- A gas limit that is at most that of a block; where the message succeeds with the gas of a block, it
  -- is enough, and the search could not do with one unit less.
  abbrev pub IsAnswer : S → Message → BlockContext → ℕ → Type 0
  IsAnswer s msg ctx g =
      (g ≤ ctx.gas_limit)
      × (((call_with output s msg ctx ctx.gas_limit).failed ≡ true)
          ⊎ IsEstimate (call_with output s msg ctx) (if is_creation msg.to then 53000 else 21000)
              ctx.gas_limit g)

  estimate_message-IsAnswer :
      (s : S) (msg : Message) (ctx : BlockContext)
      → 3_000_000 ≤ ctx.gas_limit
      → ctx.gas_limit < 2 ^ 63
      → (g : ℕ) × (estimate_message output s msg ctx ≡ some g) × IsAnswer s msg ctx g
  unfolding estimate_message
  estimate_message-IsAnswer s msg ctx room word =
      let call = call_with output s msg ctx in
      elim (Bool-cases (call ctx.gas_limit).failed) [
        | inl wrong ↦
            let (g, e, le) =
              estimate_gas-failed call (is_creation msg.to) ctx.gas_limit room wrong in
            (g, e, (le, inl wrong))
        | inr right ↦
            let (g, e, is) =
              estimate_gas-IsEstimate call (is_creation msg.to) ctx.gas_limit word right in
            (g, e, (is.1, inr is))
      ]

  pub eth_estimate_gas_answers :
      (m : Manager D) (decode_args : Json → Option CallArgs) (base_fee now : ℕ) (params : Params)
      (msg : Message)
      → decode_call decode_args base_fee params ≡ message msg
      → ((open_state trie m.disk m.state_root ≡ none)
          × (eth_estimate_gas trie output m decode_args base_fee now params
              ≡ some (failed gas_estimation_failed)))
        ⊎ ((s : S) × (g : ℕ) × (open_state trie m.disk m.state_root ≡ some s)
            × (eth_estimate_gas trie output m decode_args base_fee now params ≡ some (answer g))
            × IsAnswer s msg (build_block_context m m.current_block now) g)
  unfolding eth_estimate_gas run_estimate estimated Reads.estimate_gas build_block_context
  eth_estimate_gas_answers m decode_args base_fee now params msg e =
      elim (Option-cases (open_state trie m.disk m.state_root)) [
        | inl shut ↦ inl (shut, rw (e, run_estimate) (rw (shut, Reads.estimate_gas) refl))
        | inr (s, at) ↦
            let ctx = build_block_context m m.current_block now in
            let (g, found, is) = estimate_message-IsAnswer s msg ctx (omega arith) (omega arith) in
            inr (s, g, at, rw (e, run_estimate) (rw (at, Reads.estimate_gas, found) refl), is)
      ]

  -- Out of fuel it never is.
  pub eth_estimate_gas-Returns :
      (m : Manager D) (decode_args : Json → Option CallArgs) (base_fee now : ℕ) (params : Params)
      → Returns (λ r. Unit {0}) (eth_estimate_gas trie output m decode_args base_fee now params)
  unfolding eth_estimate_gas run_estimate
  eth_estimate_gas-Returns m decode_args base_fee now params =
      elim (Call-cases (decode_call decode_args base_fee params)) [
        | inl (e, bad) ↦ rw (bad, run_estimate) (returns tt)
        | inr (msg, good) ↦
            elim (eth_estimate_gas_answers m decode_args base_fee now params msg good) [
              | inl (shut, at) ↦ rw at (returns tt)
              | inr (s, g, open_at, at, is) ↦ rw at (returns tt)
            ]
      ]
