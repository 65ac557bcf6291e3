-- ===== src/Manager/Commit.antt =====
-- internal/state/manager.go: ExecuteAndCommitBlock on each of its branches.
use inso_sequencer.Base.{
  ℕ, suc, ◌+◌, ◌≤◌, ◌<◌, ◌≡◌, refl, ap, ◌⊎◌, inl, inr, Bool, true, false, List, [], ◌∷◌, Option,
  none, some, ◌==◌, if◌then◌else◌, length, sum_by, arith, Returns, returns, Returns-inv, Bool-cases,
  Option-cases,
}
use mathlib.Core.List.{Mem}
use inso_sequencer.Word.{u64_mod}
use inso_sequencer.Types.{Tx, Receipt, L2Block}
use inso_sequencer.StateStore.{TrieDb, open_state, commit_state}
use inso_sequencer.Evm.{StateDb, Evm, Executed, Progress, execute_transactions}
use inso_sequencer.Evm.Transaction.{EvmLaws}
use inso_sequencer.Evm.Block.{
  hash_sum, executed_sum, gas_sum, Accounts, IsRunning, execute_transactions-Accounts,
  execute_transactions-skipped,
}
use inso_sequencer.ChainDb.{ChainDb, found, write_block}
use inso_sequencer.ChainDb.Store.{write_block-read}
use inso_sequencer.Manager.{
  Manager, Outcome, compute_block_hash, block_receipts, find_tx, executed_txs, block_gas_limit,
  build_block, execution_context, execute_and_commit_block, get_block, get_block_by_hash, persist,
  after_commit,
}

-- The transaction at each place is the one that the receipt there names, and there are as many.
abbrev pub IsAligned : List Receipt → List Tx → Type 0
IsAligned [] [] = Unit {0}
IsAligned (r ∷ rs) (t ∷ ts) = (t.hash ≡ r.tx_hash) × IsAligned rs ts
IsAligned _ _ = ⊥

abbrev one_at : ℕ → ℕ → ℕ
one_at h j = if j == h then 1 else 0

find_tx_finds :
    (h : ℕ) (ts : List Tx) → 0 < hash_sum (one_at h) ts → Returns (λ t. t.hash ≡ h) (find_tx h ts)
unfolding find_tx
find_tx_finds h [] n = absurd (omega arith)
find_tx_finds h (t ∷ ts) n = elim (Bool-cases (t.hash == h)) [
  | inl e ↦ rw e (returns (ground arith))
  | inr e ↦ rw e (find_tx_finds h ts (ground arith))
]

executed_txs-IsAligned :
    (txs : List Tx) (es : List Executed) (hash number i : ℕ)
    → ((h : ℕ) → executed_sum (one_at h) es ≤ hash_sum (one_at h) txs)
    → IsAligned (block_receipts hash number i es) (executed_txs txs es)
      × (length (executed_txs txs es) ≡ length es)
      × ((g : ℕ → ℕ) → hash_sum g (executed_txs txs es) ≡ executed_sum g es)
unfolding block_receipts executed_txs
executed_txs-IsAligned txs [] hash number i le = (tt, refl, λ g. refl)
executed_txs-IsAligned txs (e ∷ es) hash number i le =
    let h = e.receipt.tx_hash in
    let (t, at, same) = Returns-inv (find_tx_finds h txs (ground (arith, le h))) in
    let (rest, count, sums) =
      executed_txs-IsAligned txs es hash number (suc i) (λ j. omega (arith, le j)) in
    rw (at, executed_txs)
      ((same, rest), omega (arith, count), λ g. omega (arith, ap g same, sums g))

block_receipts-gas :
    (es : List Executed) (hash number i c : ℕ)
    → IsRunning c es
    → (sum_by (λ r. r.gas_used) (block_receipts hash number i es) ≡ gas_sum es)
      × (length (block_receipts hash number i es) ≡ length es)
unfolding block_receipts
block_receipts-gas [] hash number i c r = (refl, refl)
block_receipts-gas (e ∷ es) hash number i c r =
    let k = block_receipts-gas es hash number (suc i) (c + e.gas_used) r.2 in
    (omega (arith, r.0, k.0), omega (arith, k.1))

-- `b` is a block with this number of these transactions, but for the skipped ones.
pub record IsBlockOf (txs skipped : List Tx) (number : ℕ) (b : L2Block) : Type 0 where
  pub number_eq : b.header.number ≡ number
  pub gas_le : b.header.gas_used ≤ block_gas_limit
  pub gas_eq : sum_by (λ r. r.gas_used) b.receipts ≡ b.header.gas_used
  pub count_eq : b.header.tx_count ≡ length b.receipts
  pub aligned : IsAligned b.receipts b.transactions
  pub all_seen : (g : ℕ → ℕ) → hash_sum g b.transactions + hash_sum g skipped ≡ hash_sum g txs

module _ {D S : Type 0} (trie : TrieDb D S) ⦃db : StateDb S⦄ ⦃evm : Evm S⦄ where
  module _ (laws : EvmLaws S) where
    build_block-IsBlockOf :
        (m : Manager D) (txs : List Tx) (number timestamp parent base_fee root : ℕ) (p : Progress S)
        → Accounts block_gas_limit txs p
        → IsBlockOf txs p.skipped number (build_block m txs number timestamp parent base_fee root p)
    unfolding build_block
    build_block-IsBlockOf m txs number timestamp parent base_fee root p a =
        let hash = compute_block_hash number root timestamp parent in
        let (aligned, count, sums) =
          executed_txs-IsAligned txs p.executed hash number 0
            (λ h. omega (arith, a.all_seen (one_at h))) in
        let (gas, size) = block_receipts-gas p.executed hash number 0 0 a.running in
        record {
          number_eq = refl;
          gas_le = a.gas_le;
          gas_eq = omega (arith, gas, a.gas_eq);
          count_eq = omega (arith, count, size);
          aligned = aligned;
          all_seen = λ g. omega (arith, sums g, a.all_seen g);
        }

  -- What ExecuteAndCommitBlock returns on each branch: no block, and the chain and its tip as they
  -- were; or a block, which is stored and is the new tip.
  abbrev pub IsOutcome : Manager D → List Tx → ℕ → Outcome × Manager D → Type 0
  IsOutcome m txs number r =
      ((r.0.block ≡ none)
        × (r.1.chain ≡ m.chain)
        × (r.1.current_block ≡ m.current_block)
        × (r.1.state_root ≡ m.state_root))
      ⊎ ((b : L2Block) × (r.0.block ≡ some b)
          × IsBlockOf txs r.0.skipped number b
          × (get_block r.1 b.header.number ≡ found b)
          × (get_block_by_hash r.1 b.header.hash ≡ found b)
          × (r.1.current_block ≡ number)
          × (r.1.state_root ≡ b.header.state_root))

  persist-IsOutcome :
      (writes : Bool) (m : Manager D) (d : D) (txs skipped : List Tx) (number : ℕ) (b : L2Block)
      → IsBlockOf txs skipped number b
      → IsOutcome m txs number
          (persist (record m { disk = d }) b skipped (write_block writes m.chain b))
  unfolding persist write_block get_block get_block_by_hash
  persist-IsOutcome true m d txs skipped number b v =
      let (at_number, at_hash) = write_block-read m.chain b in
      inr (b, refl, v, at_number, rw (at_hash, get_block_by_hash) refl, v.number_eq, refl)
  persist-IsOutcome false m d txs skipped number b v = inl (refl, refl, refl, refl)

  module _ (laws : EvmLaws S) where
    after_commit-IsOutcome :
        (writes : Bool) (m : Manager D) (txs : List Tx) (number timestamp parent base_fee : ℕ)
        (p : Progress S) (c : Option ℕ × D)
        → Accounts block_gas_limit txs p
        → IsOutcome m txs number
            (after_commit trie writes m txs number timestamp parent base_fee p c)
    unfolding after_commit
    after_commit-IsOutcome writes m txs number timestamp parent base_fee p (none, d) a =
        inl (refl, refl, refl, refl)
    after_commit-IsOutcome writes m txs number timestamp parent base_fee p (some root, d) a =
        persist-IsOutcome writes m d txs p.skipped number _
          (build_block-IsBlockOf laws m txs number timestamp parent base_fee root p a)

    -- When no sum of the block gas limit and the gas of a transaction passes 64 bits, then
    -- ExecuteAndCommitBlock returns no block and leaves the chain and its tip as they were, or it
    -- returns a block of that number, which is stored and is the new tip: every transaction is in the
    -- block or skipped, the receipts stand at the places of their transactions, and their gas adds up
    -- to the gas of the header, which is within the limit.
    pub execute_and_commit_block-IsOutcome :
        (writes : Bool) (m : Manager D) (txs : List Tx) (number timestamp parent base_fee : ℕ)
        → ((t : Tx) → Mem t txs → block_gas_limit + t.gas < u64_mod)
        → IsOutcome m txs number
            (execute_and_commit_block trie writes m txs number timestamp parent base_fee)
    unfolding execute_and_commit_block
    execute_and_commit_block-IsOutcome writes m txs number timestamp parent base_fee small =
        elim (Option-cases (open_state trie m.disk m.state_root)) [
          | inl e ↦ rw (e, execute_and_commit_block) (inl (refl, refl, refl, refl))
          | inr (s, e) ↦
              rw (e, execute_and_commit_block)
                (after_commit-IsOutcome writes m txs number timestamp parent base_fee _ _ (
                  execute_transactions-Accounts laws s txs
                    (execution_context m number timestamp parent base_fee) small))
        ]

  persist-skipped :
      (m : Manager D) (b : L2Block) (skipped : List Tx) (r : Bool × ChainDb)
      → (persist m b skipped r).0.skipped ≡ skipped
  unfolding persist
  persist-skipped m b skipped (true, c) = refl
  persist-skipped m b skipped (false, c) = refl

  after_commit-skipped :
      (writes : Bool) (m : Manager D) (txs : List Tx) (number timestamp parent base_fee : ℕ)
      (p : Progress S) (c : Option ℕ × D)
      → (after_commit trie writes m txs number timestamp parent base_fee p c).0.skipped ≡ p.skipped
  unfolding after_commit
  after_commit-skipped writes m txs number timestamp parent base_fee p (none, d) = refl
  after_commit-skipped writes m txs number timestamp parent base_fee p (some root, d) =
      persist-skipped (record m { disk = d })
        (build_block m txs number timestamp parent base_fee root p) p.skipped
        (write_block writes m.chain (build_block m txs number timestamp parent base_fee root p))

  -- By any measure ExecuteAndCommitBlock skips no more than it is given.
  pub execute_and_commit_block-skipped :
      (g : Tx → ℕ) (writes : Bool) (m : Manager D) (txs : List Tx)
      (number timestamp parent base_fee : ℕ)
      → sum_by g
          (execute_and_commit_block trie writes m txs number timestamp parent base_fee).0.skipped
        ≤ sum_by g txs
  unfolding execute_and_commit_block
  execute_and_commit_block-skipped g writes m txs number timestamp parent base_fee =
      elim (Option-cases (open_state trie m.disk m.state_root)) [
        | inl e ↦ rw (e, execute_and_commit_block) (omega arith)
        | inr (s, e) ↦
            let ctx = execution_context m number timestamp parent base_fee in
            let p = execute_transactions s txs ctx in
            rw (e, execute_and_commit_block)
              (rw
                (after_commit-skipped writes m txs number timestamp parent base_fee p
                  (commit_state trie m.disk p.state number))
                (execute_transactions-skipped g s txs ctx))
      ]
