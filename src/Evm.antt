-- ===== src/Evm.antt =====
-- internal/execution/evm.go. go-ethereum's state database, its EVM, its signer and its gas rules
-- are parameters: the records `StateDb` and `Evm`. A snapshot is the state it was taken of, and
-- reverting to it is going back to that state. Logging is not modelled.
pub mod Transaction
pub mod Block
pub mod Estimate
pub mod Contract
use inso_sequencer.Base.{
  ℕ, zero, suc, ◌+◌, ◌-◌, ◌*◌, ◌/◌, ◌%◌, ◌^◌, Bool, true, false, not, List, [], ◌∷◌, ◌++◌, Option,
  none, some, ltb, ◌==◌, if◌then◌else◌,
}
use inso_sequencer.Word.{add64, sub64}
use inso_sequencer.Types.{Tx, Receipt}

pub record StateDb (S : Type 0) : Type 0 where
  pub get_nonce : S → ℕ → ℕ
  pub get_balance : S → ℕ → ℕ
  pub set_nonce : S → ℕ → ℕ → S
  pub add_balance : S → ℕ → ℕ → S
  pub sub_balance : S → ℕ → ℕ → S
  pub set_tx_context : S → ℕ → ℕ → S
  pub get_refund : S → ℕ
  pub get_logs : S → ℕ → ℕ → List ℕ

pub record BlockContext : Type 0 where
  -- None for a panic.
  pub get_hash : ℕ → Option ℕ
  pub coinbase : ℕ
  pub block_number : ℕ
  pub time : ℕ
  pub gas_limit : ℕ
  pub base_fee : ℕ
  -- Nil where the code does not set it.
  pub blob_base_fee : Option ℕ

-- What a run of the EVM leaves: the gas left over, whether it failed, and the state.
pub record VmResult (S : Type 0) : Type 0 where
  pub leftover : ℕ
  pub failed : Bool
  pub state : S

pub record Evm (S : Type 0) : Type 0 where
  -- `types.Sender`, with `none` for an error.
  pub sender_of : Tx → Option ℕ
  -- `core.IntrinsicGas`, with `none` for an error.
  pub intrinsic_gas : Tx → Option ℕ
  -- The arguments: the context, the gas price, the caller, the data, the gas and the value.
  pub create : BlockContext → ℕ → ℕ → List ℕ → ℕ → ℕ → S → VmResult S
  -- The same, with the address called before the data.
  pub call : BlockContext → ℕ → ℕ → ℕ → List ℕ → ℕ → ℕ → S → VmResult S
  pub create_address : ℕ → ℕ → ℕ
  pub create_bloom : Receipt → ℕ
  -- `eip4844.CalcBlobFee`
  pub calc_blob_fee : ℕ → ℕ

pub record ExecutionContext : Type 0 where
  pub block_number : ℕ
  pub timestamp : ℕ
  pub coinbase : ℕ
  pub gas_limit : ℕ
  pub base_fee : ℕ
  pub parent_hash : ℕ

pub data TxError : Type 0 where
  invalid_sender nonce_mismatch insufficient_balance : TxError
  intrinsic_gas_failed intrinsic_gas_too_low : TxError

-- `Err` set, with the state that the call leaves behind; or a receipt.
pub data ExecutionResult (S : Type 0) : Type 0 where
  rejected : TxError → S → ExecutionResult S
  applied : Receipt → ℕ → Bool → S → ExecutionResult S

-- The number that `uint256.FromBig` keeps.
abbrev pub u256 : ℕ → ℕ
u256 n = n % 2 ^ 256

pub is_creation : Option ℕ → Bool
is_creation none = true
is_creation (some _) = false

pub get_hash_func : ℕ → ℕ → ℕ → Option ℕ
get_hash_func parent_hash block_num n = some (if n == sub64 block_num 1 then parent_hash else 0)

-- The refund is at most half of the gas used.
pub capped_refund : ℕ → ℕ → ℕ
capped_refund refund used = if ltb (used / 2) refund then used / 2 else refund

module _ {S : Type 0} ⦃db : StateDb S⦄ ⦃evm : Evm S⦄ where
  -- The gas buy, and for a message call the nonce.
  pub buy_gas : Tx → ℕ → ℕ → S → S
  buy_gas tx sender tx_index s =
      let paid =
        db.sub_balance (db.set_tx_context s tx.hash tx_index) sender
          (u256 (tx.gas * tx.gas_price)) in
      elim tx.to [
        | none ↦ paid
        | some _ ↦ db.set_nonce paid sender (add64 (db.get_nonce s sender) 1)
      ]

  pub run_vm : BlockContext → Tx → ℕ → ℕ → S → VmResult S
  run_vm ctx tx sender gas s = elim tx.to [
    | none ↦ evm.create ctx tx.gas_price sender tx.payload gas (u256 tx.value) s
    | some to ↦ evm.call ctx tx.gas_price sender to tx.payload gas (u256 tx.value) s
  ]

  -- After the run: the refund, the fee and the receipt.
  pub settle : BlockContext → Tx → ℕ → ℕ → ℕ → VmResult S → ExecutionResult S
  unfolding capped_refund is_creation
  settle ctx tx sender cumulative tx_index r =
      let used_by_vm = sub64 tx.gas r.leftover in
      let refund = capped_refund (db.get_refund r.state) used_by_vm in
      let used = sub64 used_by_vm refund in
      let repaid = db.add_balance r.state sender (u256 (add64 r.leftover refund * tx.gas_price)) in
      let after = db.add_balance repaid ctx.coinbase (u256 (used * tx.gas_price)) in
      let receipt : Receipt = record {
        kind = tx.kind;
        tx_hash = tx.hash;
        gas_used = used;
        cumulative_gas_used = add64 cumulative used;
        block_hash = 0;
        block_number = ctx.block_number;
        transaction_index = tx_index;
        status = if r.failed then 0 else 1;
        contract_address = if is_creation tx.to then evm.create_address sender tx.nonce else 0;
        logs = db.get_logs after tx.hash ctx.block_number;
        bloom = 0;
      } in
      applied (record receipt { bloom = evm.create_bloom receipt }) used r.failed after

  -- The checks of the intrinsic gas, which come after the gas was bought, and the run.
  pub charge_and_run : BlockContext → Tx → ℕ → ℕ → ℕ → S → ExecutionResult S
  unfolding run_vm settle
  charge_and_run ctx tx sender cumulative tx_index s = elim (evm.intrinsic_gas tx) [
    | none ↦ rejected intrinsic_gas_failed s
    | some intrinsic ↦
        if ltb tx.gas intrinsic
        then rejected intrinsic_gas_too_low s
        else settle ctx tx sender cumulative tx_index (run_vm ctx tx sender (tx.gas - intrinsic) s)
  ]

  pub apply_transaction : S → Tx → BlockContext → ℕ → ℕ → ExecutionResult S
  unfolding buy_gas charge_and_run
  apply_transaction s tx ctx cumulative tx_index = elim (evm.sender_of tx) [
    | none ↦ rejected invalid_sender s
    | some sender ↦
        if not (tx.nonce == db.get_nonce s sender)
        then rejected nonce_mismatch s
        else if ltb (db.get_balance s sender) (tx.gas * tx.gas_price + tx.value)
        then rejected insufficient_balance s
        else charge_and_run ctx tx sender cumulative tx_index (buy_gas tx sender tx_index s)
  ]

-- A transaction that was executed: its receipt, its gas, and whether the EVM failed.
pub record Executed : Type 0 where
  pub receipt : Receipt
  pub gas_used : ℕ
  pub vm_failed : Bool

pub record Progress (S : Type 0) : Type 0 where
  pub state : S
  pub executed : List Executed
  pub skipped : List Tx
  pub cumulative_gas : ℕ

module _ {S : Type 0} ⦃db : StateDb S⦄ ⦃evm : Evm S⦄ where
  -- A rejected transaction is skipped and the state reverted; an applied one is recorded.
  pub record_result : Tx → Progress S → ExecutionResult S → Progress S
  record_result tx p (rejected e dirty) = record p { skipped = p.skipped ++ tx ∷ [] }
  record_result tx p (applied receipt used failed s) = record p {
    state = s;
    executed =
        p.executed
        ++ record {
          receipt = record receipt { cumulative_gas_used = add64 p.cumulative_gas used };
          gas_used = used;
          vm_failed = failed;
        }
          ∷ [];
    cumulative_gas = add64 p.cumulative_gas used;
  }

  -- The body of the loop, for the transaction at index `i`.
  pub execute_one : BlockContext → ℕ → Tx → Progress S → Progress S
  execute_one ctx i tx p =
      if ltb ctx.gas_limit (add64 p.cumulative_gas tx.gas)
      then record p { skipped = p.skipped ++ tx ∷ [] }
      else record_result tx p (apply_transaction p.state tx ctx p.cumulative_gas i)

  pub execute_from : BlockContext → ℕ → List Tx → Progress S → Progress S
  unfolding execute_one
  execute_from ctx i [] p = p
  execute_from ctx i (tx ∷ txs) p = execute_from ctx (suc i) txs (execute_one ctx i tx p)

  pub execute_transactions : S → List Tx → ExecutionContext → Progress S
  unfolding execute_from get_hash_func
  execute_transactions s txs ctx =
      execute_from
        (record {
          get_hash = get_hash_func ctx.parent_hash ctx.block_number;
          coinbase = ctx.coinbase;
          block_number = ctx.block_number;
          time = ctx.timestamp;
          gas_limit = ctx.gas_limit;
          base_fee = ctx.base_fee;
          blob_base_fee = some (evm.calc_blob_fee 1);
        })
        0 txs (record { state = s; executed = []; skipped = []; cumulative_gas = 0 })

-- `CallContract` on a copy of the message with another gas limit: the gas used, and whether it
-- failed. The state is reverted after each call, so each call starts from the same one.
pub record CallOutcome : Type 0 where
  pub gas_used : ℕ
  pub failed : Bool

-- The binary search of `EstimateGas`; `none` when the fuel runs out.
pub search_gas : (ℕ → CallOutcome) → ℕ → ℕ → ℕ → Option ℕ
search_gas call zero lo hi = none
search_gas call (suc k) lo hi =
    let mid = add64 lo hi / 2 in
    let above = search_gas call k mid hi in
    let below = search_gas call k lo mid in
    if ltb (add64 lo 1) hi then (if (call mid).failed then above else below) else some hi

-- The loop halves its interval: 64 rounds are enough for one below 2^63.
pub estimate_gas : (ℕ → CallOutcome) → Bool → ℕ → Option ℕ
estimate_gas call creation gas_limit =
    let top = call gas_limit in
    let estimate = (top.gas_used * 120) % 2 ^ 64 / 100 in
    let guess =
      if ltb 0 top.gas_used
      then if ltb gas_limit estimate then gas_limit else estimate
      else if creation
      then 3_000_000
      else 100_000 in
    let found = search_gas call 64 (if creation then 53000 else 21000) gas_limit in
    if top.failed then some guess else found
