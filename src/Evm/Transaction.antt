-- ===== src/Evm/Transaction.antt =====
-- internal/execution/evm.go: applyTransaction.
use inso_sequencer.Base.{
  some, ℕ, ◌+◌, ◌-◌, ◌*◌, ◌^◌, ◌≤◌, ◌<◌, ◌≡◌, refl, ap, Bool, true, false, not, List, ltb, ◌==◌,
  if◌then◌else◌, arith, Option-cases, inl, inr,
}
use inso_sequencer.Word.{u64_mod, add64, sub64}
use inso_sequencer.Types.{Tx, Receipt}
use inso_sequencer.Evm.{
  StateDb, BlockContext, Evm, ExecutionResult, rejected, applied, u256, buy_gas, run_vm,
  capped_refund, settle, charge_and_run, apply_transaction,
}

-- What the source relies on: a balance is a 256-bit word, which the context of a transaction leaves
-- alone, and a run of the EVM leaves at most the gas that it is given.
pub record EvmLaws (S : Type 0) ⦃db : StateDb S⦄ ⦃evm : Evm S⦄ : Type 0 where
  pub balance_word : (s : S) (a : ℕ) → db.get_balance s a < 2 ^ 256
  pub create_leftover :
      (c : BlockContext) (p from : ℕ) (code : List ℕ) (g v : ℕ) (s : S)
      → (evm.create c p from code g v s).leftover ≤ g
  pub call_leftover :
      (c : BlockContext) (p from to : ℕ) (input : List ℕ) (g v : ℕ) (s : S)
      → (evm.call c p from to input g v s).leftover ≤ g

module _ {S : Type 0} ⦃db : StateDb S⦄ ⦃evm : Evm S⦄ where
  -- The sender could pay, the EVM ran with the gas above the intrinsic gas on the state in which the gas
  -- was bought, and the gas that was bought is split, to the last unit, between what the sender gets
  -- back and the fee of the coinbase.
  pub record IsPaid (ctx : BlockContext) (tx : Tx) (i used sender intrinsic back : ℕ)
      (before after : S) : Type 0 where
    pub signed : evm.sender_of tx ≡ some sender
    pub nonce_eq : tx.nonce ≡ db.get_nonce before sender
    pub can_pay : tx.gas * tx.gas_price + tx.value ≤ db.get_balance before sender
    pub charged : evm.intrinsic_gas tx ≡ some intrinsic
    pub intrinsic_le : intrinsic ≤ tx.gas
    pub after_eq :
        after
        ≡ db.add_balance
            (db.add_balance
              (run_vm ctx tx sender (tx.gas - intrinsic) (buy_gas tx sender i before)).state
              sender
              back)
            ctx.coinbase
            (used * tx.gas_price)
    pub split : back + used * tx.gas_price ≡ tx.gas * tx.gas_price

  -- What a receipt says of the transaction and of the gas before it, and what became of the state.
  pub record IsApplied (ctx : BlockContext) (tx : Tx) (cumulative i : ℕ) (before after : S)
      (r : Receipt) (used : ℕ) : Type 0 where
    pub hash_eq : r.tx_hash ≡ tx.hash
    pub gas_eq : r.gas_used ≡ used
    pub cumulative_eq : r.cumulative_gas_used ≡ add64 cumulative used
    pub used_le : used ≤ tx.gas
    pub paid :
        (sender : ℕ) × (intrinsic : ℕ) × (back : ℕ) × IsPaid ctx tx i used sender intrinsic back
          before after

  abbrev pub Sound : BlockContext → Tx → ℕ → ℕ → S → ExecutionResult S → Type 0
  Sound ctx tx cumulative i s (rejected e dirty) = Unit {0}
  Sound ctx tx cumulative i s (applied r used failed s') = IsApplied ctx tx cumulative i s s' r used

  Sound-if :
      (ctx : BlockContext) (tx : Tx) (cumulative i : ℕ) (s : S) (b : Bool) (x y : ExecutionResult S)
      → (b ≡ true → Sound ctx tx cumulative i s x)
      → (b ≡ false → Sound ctx tx cumulative i s y)
      → Sound ctx tx cumulative i s (if b then x else y)
  Sound-if ctx tx cumulative i s true x y p q = p refl
  Sound-if ctx tx cumulative i s false x y p q = q refl

-- The gas splits into what is paid back and what the coinbase gets.
split_gas :
    (gas price leftover refund : ℕ)
    → leftover ≤ gas
    → gas < u64_mod
    → let used_by_vm = sub64 gas leftover in
      let back = capped_refund refund used_by_vm in
      (add64 leftover back + sub64 used_by_vm back ≡ gas)
      × (sub64 used_by_vm back ≤ gas)
      × (add64 leftover back * price + sub64 used_by_vm back * price ≡ gas * price)
unfolding capped_refund
split_gas gas price leftover refund h k =
    let used_by_vm = sub64 gas leftover in
    let back = capped_refund refund used_by_vm in
    let half : back ≤ used_by_vm = ground arith in
    let e : add64 leftover back + sub64 used_by_vm back ≡ gas = omega (arith, half) in
    (e, omega (arith, half), omega (arith, ap (λ (t : ℕ). t * price) e))

module _ {S : Type 0} ⦃db : StateDb S⦄ ⦃evm : Evm S⦄ (laws : EvmLaws S) where
  run_vm_leftover :
      (ctx : BlockContext) (tx : Tx) (sender gas : ℕ) (s : S)
      → (run_vm ctx tx sender gas s).leftover ≤ gas
  unfolding run_vm
  run_vm_leftover ctx tx sender gas s = elim (Option-cases tx.to) [
    | inl e ↦ rw e (laws.create_leftover ctx tx.gas_price sender tx.payload gas (u256 tx.value) s)
    | inr (to, e) ↦
        rw e (laws.call_leftover ctx tx.gas_price sender to tx.payload gas (u256 tx.value) s)
  ]

  settle-Sound :
      (ctx : BlockContext) (tx : Tx) (sender cumulative i intrinsic : ℕ) (s : S)
      → tx.gas < u64_mod
      → evm.sender_of tx ≡ some sender
      → tx.nonce ≡ db.get_nonce s sender
      → tx.gas * tx.gas_price + tx.value ≤ db.get_balance s sender
      → evm.intrinsic_gas tx ≡ some intrinsic
      → intrinsic ≤ tx.gas
      → Sound ctx tx cumulative i s (
          settle ctx tx sender cumulative i
            (run_vm ctx tx sender (tx.gas - intrinsic) (buy_gas tx sender i s)))
  unfolding settle
  settle-Sound ctx tx sender cumulative i intrinsic s small signed nonce pays charged le =
      let r = run_vm ctx tx sender (tx.gas - intrinsic) (buy_gas tx sender i s) in
      let left : r.leftover ≤ tx.gas =
        omega (arith, run_vm_leftover ctx tx sender (tx.gas - intrinsic) (buy_gas tx sender i s)) in
      let (_, used, money) =
        split_gas tx.gas tx.gas_price r.leftover (db.get_refund r.state) left small in
      let word = laws.balance_word s sender in
      let used_by_vm = sub64 tx.gas r.leftover in
      let refund = capped_refund (db.get_refund r.state) used_by_vm in
      let back = add64 r.leftover refund * tx.gas_price in
      let fee = sub64 used_by_vm refund * tx.gas_price in
      let back_fits : u256 back ≡ back = omega (arith, money, pays, word) in
      let fee_fits : u256 fee ≡ fee = omega (arith, money, pays, word) in
      record {
        hash_eq = refl;
        gas_eq = refl;
        cumulative_eq = refl;
        used_le = used;
        paid = (
          sender,
          intrinsic,
          back,
          record {
            signed = signed;
            nonce_eq = nonce;
            can_pay = pays;
            charged = charged;
            intrinsic_le = le;
            after_eq = rw (back_fits, fee_fits) refl;
            split = money;
          },
        );
      }

  charge_and_run-Sound :
      (ctx : BlockContext) (tx : Tx) (sender cumulative i : ℕ) (s : S)
      → tx.gas < u64_mod
      → evm.sender_of tx ≡ some sender
      → tx.nonce ≡ db.get_nonce s sender
      → tx.gas * tx.gas_price + tx.value ≤ db.get_balance s sender
      → Sound ctx tx cumulative i s
          (charge_and_run ctx tx sender cumulative i (buy_gas tx sender i s))
  unfolding charge_and_run
  charge_and_run-Sound ctx tx sender cumulative i s small signed nonce pays =
      elim (Option-cases (evm.intrinsic_gas tx)) [
        | inl n ↦ rw (n, charge_and_run) tt
        | inr (intrinsic, n) ↦
            rw (n, charge_and_run)
              (Sound-if ctx tx cumulative i s (ltb tx.gas intrinsic) _ _ (λ _. tt)
                λ enough.
                  settle-Sound ctx tx sender cumulative i intrinsic s small signed nonce pays n
                    (ground arith))
      ]

  -- When the gas of a transaction fits in 64 bits and applyTransaction applies it, the receipt names the
  -- transaction and its gas, the cumulative gas is that before it plus this gas, and the gas used is at
  -- most the gas of the transaction; its sender signed it with the account's nonce and could pay for the
  -- gas and the value; and the state is what the EVM makes, with the gas above the intrinsic gas, of the
  -- state in which the gas was bought, but that the price of that gas is split, to the last unit, between
  -- what the sender gets back and the fee of the coinbase.
  pub apply_transaction-Sound :
      (s : S) (tx : Tx) (ctx : BlockContext) (cumulative i : ℕ)
      → tx.gas < u64_mod
      → Sound ctx tx cumulative i s (apply_transaction s tx ctx cumulative i)
  unfolding apply_transaction
  apply_transaction-Sound s tx ctx cumulative i small = elim (Option-cases (evm.sender_of tx)) [
    | inl e ↦ rw (e, apply_transaction) tt
    | inr (sender, e) ↦
        rw (e, apply_transaction)
          (Sound-if ctx tx cumulative i s (not (tx.nonce == db.get_nonce s sender)) _ _ (λ _. tt)
            λ next.
              Sound-if ctx tx cumulative i s
                (ltb (db.get_balance s sender) (tx.gas * tx.gas_price + tx.value)) _ _ (λ _. tt)
                λ rich.
                  charge_and_run-Sound ctx tx sender cumulative i s small e (ground arith)
                    (ground arith))
  ]
