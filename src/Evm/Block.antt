-- ===== src/Evm/Block.antt =====
-- internal/execution/evm.go: ExecuteTransactions.
use mathlib.Core.List.{Mem, mem-cons_of_mem, mem-cons_self, append-nil, append_assoc}
use inso_sequencer.Base.{
  some, ℕ, suc, ◌+◌, ◌≤◌, ◌<◌, ◌≡◌, refl, ap, List, [], ◌∷◌, ◌++◌, ltb, arith, Bool-cases, inl, inr,
  sum_by, sum_by-append,
}
use inso_sequencer.Word.{u64_mod, add64}
use inso_sequencer.Types.{Tx}
use inso_sequencer.Evm.{
  get_hash_func, StateDb, BlockContext, Evm, ExecutionContext, ExecutionResult, rejected, applied,
  Executed, Progress, record_result, execute_one, execute_from, execute_transactions,
}
use inso_sequencer.Evm.Transaction.{EvmLaws, Sound, apply_transaction-Sound}

-- The sum of `g` over the hashes of transactions.
abbrev pub hash_sum : (ℕ → ℕ) → List Tx → ℕ
hash_sum g = sum_by λ t. g t.hash

abbrev pub executed_sum : (ℕ → ℕ) → List Executed → ℕ
executed_sum g = sum_by λ e. g e.receipt.tx_hash

abbrev pub gas_sum : List Executed → ℕ
gas_sum = sum_by λ e. e.gas_used

-- Each receipt counts the gas of the block up to and with its own transaction.
abbrev pub IsRunning : ℕ → List Executed → Type 0
IsRunning c [] = Unit {0}
IsRunning c (e ∷ es) =
    (e.receipt.gas_used ≡ e.gas_used)
    × (e.receipt.cumulative_gas_used ≡ c + e.gas_used)
    × IsRunning (c + e.gas_used) es

IsRunning-append :
    (c : ℕ) (es : List Executed) (e : Executed)
    → IsRunning c es
    → e.receipt.gas_used ≡ e.gas_used
    → e.receipt.cumulative_gas_used ≡ c + gas_sum es + e.gas_used
    → IsRunning c (es ++ e ∷ [])
IsRunning-append c [] e r g h = (g, omega arith, tt)
IsRunning-append c (x ∷ es) e r g h =
    (r.0, r.1, IsRunning-append (c + x.gas_used) es e r.2 g (omega arith))

-- The loop invariant, `done` being the transactions that it has seen.
pub record Accounts {S : Type 0} (limit : ℕ) (done : List Tx) (p : Progress S) : Type 0 where
  pub all_seen : (g : ℕ → ℕ) → executed_sum g p.executed + hash_sum g p.skipped ≡ hash_sum g done
  pub gas_eq : p.cumulative_gas ≡ gas_sum p.executed
  pub gas_le : p.cumulative_gas ≤ limit
  pub running : IsRunning 0 p.executed

module _ {S : Type 0} ⦃db : StateDb S⦄ ⦃evm : Evm S⦄ (laws : EvmLaws S) where
  skip-Accounts :
      (limit : ℕ) (tx : Tx) (done : List Tx) (p : Progress S)
      → Accounts limit done p
      → Accounts limit (done ++ tx ∷ []) (record p { skipped = p.skipped ++ tx ∷ [] })
  skip-Accounts limit tx done p a = record {
    all_seen = λ g. omega (
      arith,
      a.all_seen g,
      sum_by-append (λ (t : Tx). g t.hash) p.skipped (tx ∷ []),
      sum_by-append (λ (t : Tx). g t.hash) done (tx ∷ []),
    );
    gas_eq = a.gas_eq;
    gas_le = a.gas_le;
    running = a.running;
  }

  record_result-Accounts :
      (ctx : BlockContext) (i limit : ℕ) (tx : Tx) (done : List Tx) (p : Progress S)
      (r : ExecutionResult S)
      → p.cumulative_gas + tx.gas ≤ limit
      → limit < u64_mod
      → Accounts limit done p
      → Sound ctx tx p.cumulative_gas i p.state r
      → Accounts limit (done ++ tx ∷ []) (record_result tx p r)
  unfolding record_result
  record_result-Accounts ctx i limit tx done p (rejected e dirty) le word a s =
      skip-Accounts limit tx done p a
  record_result-Accounts ctx i limit tx done p (applied receipt used failed after) le word a s =
      let exact : add64 p.cumulative_gas used ≡ p.cumulative_gas + used =
        omega (arith, s.used_le) in
      let entry : Executed = record {
        receipt = record receipt { cumulative_gas_used = add64 p.cumulative_gas used };
        gas_used = used;
        vm_failed = failed;
      } in
      record {
        all_seen = λ g. omega (
          arith,
          a.all_seen g,
          ap g s.hash_eq,
          sum_by-append (λ (e : Executed). g e.receipt.tx_hash) p.executed (entry ∷ []),
          sum_by-append (λ (t : Tx). g t.hash) done (tx ∷ []),
        );
        gas_eq = omega (
          arith,
          exact,
          a.gas_eq,
          sum_by-append (λ (e : Executed). e.gas_used) p.executed (entry ∷ []),
        );
        gas_le = omega (arith, exact, s.used_le);
        running =
            IsRunning-append 0 p.executed entry a.running s.gas_eq (omega (arith, exact, a.gas_eq));
      }

  execute_one-Accounts :
      (ctx : BlockContext) (i : ℕ) (tx : Tx) (done : List Tx) (p : Progress S)
      → ctx.gas_limit + tx.gas < u64_mod
      → Accounts ctx.gas_limit done p
      → Accounts ctx.gas_limit (done ++ tx ∷ []) (execute_one ctx i tx p)
  unfolding execute_one
  execute_one-Accounts ctx i tx done p small a =
      let exact : add64 p.cumulative_gas tx.gas ≡ p.cumulative_gas + tx.gas =
        omega (arith, a.gas_le) in
      elim (Bool-cases (ltb ctx.gas_limit (add64 p.cumulative_gas tx.gas))) [
        | inl e ↦ rw e (skip-Accounts ctx.gas_limit tx done p a)
        | inr e ↦ rw e (
            record_result-Accounts ctx i ctx.gas_limit tx done p _ (ground (arith, exact))
              (omega arith) a
              (apply_transaction-Sound laws p.state tx ctx p.cumulative_gas i (omega arith)))
      ]

  execute_from-Accounts :
      (ctx : BlockContext) (i : ℕ) (txs : List Tx) (done : List Tx) (p : Progress S)
      → ((t : Tx) → Mem t txs → ctx.gas_limit + t.gas < u64_mod)
      → Accounts ctx.gas_limit done p
      → Accounts ctx.gas_limit (done ++ txs) (execute_from ctx i txs p)
  unfolding execute_from
  execute_from-Accounts ctx i [] done p small a = rw (append-nil done) a
  execute_from-Accounts ctx i (tx ∷ txs) done p small a = rw append_assoc at (
      execute_from-Accounts ctx (suc i) txs (done ++ tx ∷ []) (execute_one ctx i tx p)
        (λ t m. small t (mem-cons_of_mem tx m))
        (execute_one-Accounts ctx i tx done p (small tx mem-cons_self) a))

  -- When no sum of the gas limit and the gas of a transaction passes 64 bits, ExecuteTransactions
  -- puts every transaction among the executed or the skipped ones, the cumulative gas is the sum
  -- of what the executed ones used and at most the limit, and the receipts hold the running totals.
  pub execute_transactions-Accounts :
      (s : S) (txs : List Tx) (ctx : ExecutionContext)
      → ((t : Tx) → Mem t txs → ctx.gas_limit + t.gas < u64_mod)
      → Accounts ctx.gas_limit txs (execute_transactions s txs ctx)
  unfolding execute_transactions
  execute_transactions-Accounts s txs ctx small =
      execute_from-Accounts _ 0 txs [] _ small
        (record { all_seen = λ g. refl; gas_eq = refl; gas_le = omega arith; running = tt })

module _ {S : Type 0} ⦃db : StateDb S⦄ ⦃evm : Evm S⦄ (g : Tx → ℕ) where
  record_result-skipped :
      (tx : Tx) (p : Progress S) (r : ExecutionResult S)
      → sum_by g (record_result tx p r).skipped ≤ sum_by g p.skipped + g tx
  unfolding record_result
  record_result-skipped tx p (rejected e dirty) = omega (arith, sum_by-append g p.skipped (tx ∷ []))
  record_result-skipped tx p (applied r used failed s) = omega arith

  execute_one-skipped :
      (ctx : BlockContext) (i : ℕ) (tx : Tx) (p : Progress S)
      → sum_by g (execute_one ctx i tx p).skipped ≤ sum_by g p.skipped + g tx
  unfolding execute_one
  execute_one-skipped ctx i tx p =
      elim (Bool-cases (ltb ctx.gas_limit (add64 p.cumulative_gas tx.gas))) [
        | inl over ↦ rw over (omega (arith, sum_by-append g p.skipped (tx ∷ [])))
        | inr fits ↦ rw fits (record_result-skipped tx p _)
      ]

  execute_from-skipped :
      (ctx : BlockContext) (i : ℕ) (txs : List Tx) (p : Progress S)
      → sum_by g (execute_from ctx i txs p).skipped ≤ sum_by g p.skipped + sum_by g txs
  unfolding execute_from
  execute_from-skipped ctx i [] p = omega arith
  execute_from-skipped ctx i (tx ∷ txs) p = omega (
    arith,
    execute_from-skipped ctx (suc i) txs (execute_one ctx i tx p),
    execute_one-skipped ctx i tx p,
  )

  -- By any measure the skipped transactions are no more than those of the block.
  pub execute_transactions-skipped :
      (s : S) (txs : List Tx) (ctx : ExecutionContext)
      → sum_by g (execute_transactions s txs ctx).skipped ≤ sum_by g txs
  unfolding execute_transactions get_hash_func
  execute_transactions-skipped s txs ctx =
      let le =
        execute_from-skipped
          (record {
            get_hash = get_hash_func ctx.parent_hash ctx.block_number;
            coinbase = ctx.coinbase;
            block_number = ctx.block_number;
            time = ctx.timestamp;
            gas_limit = ctx.gas_limit;
            base_fee = ctx.base_fee;
            blob_base_fee = some (evm.calc_blob_fee 1);
          })
          0 txs (record { state = s; executed = []; skipped = []; cumulative_gas = 0 }) in
      omega (arith, le)
