-- ===== src/Tests/Node.antt =====
-- internal/state, internal/batcher and internal/producer on small inputs.
use mathlib.Core.List.{Mem, mem-cons, not-mem-nil}
use mathlib.Core.Bool.{Bool-set}
use mathlib.Core.Logic.Or
use inso_sequencer.Base.{
  Option, Returns-inv, ℕ, ◌+◌, ◌≤◌, ◌<◌, ◌≡◌, ◌⊎◌, refl, true, [], ◌∷◌, none, some, ltb, arith,
  Returns, returns,
}
use inso_sequencer.Float.Milli.{Milli, pos, milli_float, Milli-IsIeee}
use inso_sequencer.Word.{u64_mod}
use inso_sequencer.Types.{Batch, Tx, L2Block, submitted}
use inso_sequencer.ChainDb.{
  read_genesis_root, to_number, value_from, number_bytes, bytes_from, read_l1_origin, new_chain_db,
  write_genesis_root, found, write_block,
}
use inso_sequencer.Manager.{
  no_origin, origin_or_none, Manager, block_gas_limit, compute_block_hash, execute_and_commit_block,
  new_manager, fresh_manager, get_latest_batch, get_block, from_genesis, genesis_committed,
}
use inso_sequencer.StateStore.{open_state, commit_state}
use inso_sequencer.ChainDb.Store.{write_block-read}
use inso_sequencer.Manager.Hash.{compute_block_hash-parent}
use inso_sequencer.Manager.Commit.{IsOutcome, execute_and_commit_block-IsOutcome}
use inso_sequencer.Manager.Restart.{
  IsStored, IsRestored, here, next, produce, new_manager-Reach, new_manager-genesis,
}
use inso_sequencer.Batcher
use inso_sequencer.Batcher.{
  Writes, World, L1Client, simulated_l1_client, submit_batch, check_confirmations,
}
use inso_sequencer.Batcher.Cover.{IsCovered, Run-IsCovered, logged, start, submit}
use inso_sequencer.Batcher.Submission.{
  IsTotal, Accepts, submit_batch_live, submit_batch_stores, confirm_rounds,
}
use inso_sequencer.Batcher.Confirmation.{IsSorted, check_confirmations-IsSorted}
use inso_sequencer.Mempool
use inso_sequencer.Mempool.{Mempool}
use inso_sequencer.Queue.{IsNumbered}
use inso_sequencer.Pool.Small.{IsProper}
use inso_sequencer.Pool.{basic_pool, IsPool}
use inso_sequencer.Pool.Basic.{basic_pool_laws}
use inso_sequencer.Producer.{Producer, Hashes, limits, produce_block}
use inso_sequencer.Producer.Production.{IsProduced, produce_block_returns}
use inso_sequencer.Receipts.{new_receipt_store}
use inso_sequencer.Tests.Toys.{
  model, toy_state, toy_evm, toy_laws, toy_trie, toy_codec, a_tx, a_block, empty_db,
}

compute_block_hash-parent_example : compute_block_hash 7 8 9 3 ≡ 3
compute_block_hash-parent_example = compute_block_hash-parent 7 8 9 3 (omega arith)

abbrev first_block : L2Block
first_block = record a_block { header = record a_block.header { number = 1 } }

-- A manager after the first block, with the genesis root 5.
abbrev pub manager : Manager ℕ
manager =
    record (fresh_manager 42 3 0 (write_block true (write_genesis_root empty_db 5) first_block).1) {
      current_block = 1;
      state_root = 8;
    }

pub a_tx-small_gas : (t : Tx) → Mem t (a_tx ∷ []) → block_gas_limit + t.gas < u64_mod
a_tx-small_gas t m =
    let e : ltb (block_gas_limit + t.gas) u64_mod ≡ true =
      Or.elim (Bool-set _ _) (mem-cons.0 m) (λ e. rw e refl) (λ n. absurd (not-mem-nil n)) in
    ground (arith, e)

execute_and_commit_block-IsOutcome_example :
    IsOutcome toy_trie manager
      (a_tx ∷ [])
      2
      (execute_and_commit_block toy_trie true manager (a_tx ∷ []) 2 5 0 1)
execute_and_commit_block-IsOutcome_example =
    execute_and_commit_block-IsOutcome toy_trie toy_laws true manager (a_tx ∷ []) 2 5 0 1
      a_tx-small_gas

manager-IsStored : IsStored manager no_origin
unfolding write_block new_chain_db write_genesis_root read_genesis_root to_number value_from
    number_bytes bytes_from origin_or_none read_l1_origin
manager-IsStored = record {
  genesis = 4;
  genesis_eq = refl;
  block_eq = refl;
  root_eq = refl;
  origin_eq = refl;
}

abbrev second : Manager ℕ
second = (execute_and_commit_block toy_trie true manager (a_tx ∷ []) 2 5 0 1).1

new_manager-Reach_example :
    Returns
      (IsRestored toy_trie second no_origin)
      (new_manager toy_trie 42 3 second.disk second.chain.db (λ s. some 5))
new_manager-Reach_example =
    new_manager-Reach toy_trie 42 3 (λ s. some 5) manager-IsStored
      (next here (produce true manager (a_tx ∷ []) 5 0 1 no_origin))

abbrev at_genesis : Manager ℕ
at_genesis = record (fresh_manager 42 3 1 (write_genesis_root (new_chain_db []) 5)) {
  state_root = 5;
}

at_genesis-made : new_manager toy_trie 42 3 0 [] (λ s. some 5) ≡ some at_genesis
unfolding new_manager from_genesis genesis_committed open_state commit_state new_chain_db
    read_genesis_root
at_genesis-made = refl

new_manager-genesis_example :
    Returns
      (λ n. (n.current_block ≡ at_genesis.current_block) × (n.state_root ≡ 0))
      (new_manager toy_trie 42 3 at_genesis.disk at_genesis.chain.db (λ s. some 5))
new_manager-genesis_example =
    new_manager-genesis toy_trie 42 3 0 (λ s. some 5) at_genesis at_genesis-made
      (λ e. absurd (omega (arith, e)))

abbrev world : World ℕ ℕ
world = record { batcher = Batcher.new 42; manager = manager; l1 = 10 }

toy_codec-IsTotal : IsTotal toy_codec
toy_codec-IsTotal = record {
  tx = λ t. returns tt;
  frame = λ f. returns tt;
  compressed = λ bs. returns tt;
}

simulated-Accepts : Accepts simulated_l1_client
simulated-Accepts l bs = returns tt

first_block-stored : (i : ℕ) → 0 < i → i ≤ 1 → (b : L2Block) × (get_block manager i ≡ found b)
unfolding get_block
first_block-stored i low high =
    let e : i ≡ 1 = omega arith in
    rw e (first_block, (write_block-read (write_genesis_root empty_db 5) first_block).0)

abbrev both : Writes
both = record { origin = true; batch = true }

submit_batch_live_example :
    Returns
      (λ r.
        Returns
          (λ b. (b.start_block ≡ 1) × (b.end_block ≡ 1) × (r.1.batcher.last_batch_block ≡ 1))
          r.0)
      (submit_batch simulated_l1_client toy_codec both world 6)
unfolding Batcher.new
submit_batch_live_example =
    submit_batch_live simulated_l1_client toy_codec both world 6 toy_codec-IsTotal simulated-Accepts
      (omega arith) (omega arith) first_block-stored

-- What that submission returns.
submission :
    (r : Option Batch × World ℕ ℕ) × (submit_batch simulated_l1_client toy_codec both world 6
      ≡ some r)
unfolding Batcher.new
submission =
    let (r, e, p) = Returns-inv (
      submit_batch_live simulated_l1_client toy_codec both world 6 toy_codec-IsTotal
        simulated-Accepts (omega arith) (omega arith) first_block-stored) in
    (r, e)

submit_batch_stores_example :
    Returns
      (λ sent.
        (sent.status ≡ submitted)
        × (get_latest_batch (confirm_rounds simulated_l1_client 2 submission.0.1).manager
            ≡ found sent))
      submission.0.0
    ⊎ (submission.0.0 ≡ none)
submit_batch_stores_example =
    submit_batch_stores simulated_l1_client toy_codec both world 6 2 submission.0 refl submission.1

Run-IsCovered_example : IsCovered submission.0.1 (logged [] submission.0.0)
Run-IsCovered_example =
    Run-IsCovered simulated_l1_client toy_codec
      (submit both 6 (start manager 10 42 (omega arith)) submission.1)

abbrev after_submission : World ℕ ℕ
after_submission = submission.0.1

check_confirmations-IsSorted_example :
    IsSorted simulated_l1_client after_submission.l1 after_submission.batcher.pending_batches
      (check_confirmations simulated_l1_client after_submission).1.batcher.pending_batches
      (check_confirmations simulated_l1_client after_submission).0
    × ((check_confirmations simulated_l1_client after_submission).1.manager
        ≡ after_submission.manager)
    × ((check_confirmations simulated_l1_client after_submission).1.batcher.batch_index
        ≡ after_submission.batcher.batch_index)
    × ((check_confirmations simulated_l1_client after_submission).1.batcher.last_batch_block
        ≡ after_submission.batcher.last_batch_block)
check_confirmations-IsSorted_example =
    check_confirmations-IsSorted simulated_l1_client after_submission

-- A pool of one transaction.
abbrev pool : Mempool Milli
pool = record {
  pending =
      record {
        tx = a_tx;
        taste_score = pos 800;
        priority = pos 700;
        received_at = 1;
        sender = 9;
        nonce = 0;
        gas_price = none;
        gas_tip_cap = none;
        gas_fee_cap = none;
      }
      ∷ [];
  known = (1, tt) ∷ [];
  sender_nonces = [];
  taste_score_weight = pos 500;
  max_size = 100;
}

pub milli-IsNumbered :
    (weight : Milli) (tx : Tx) (sender : ℕ) (score : Milli) (now : ℕ)
    → IsNumbered (Mempool.new_meta weight tx sender score now)
milli-IsNumbered weight tx sender score now = refl

pub all-IsProper : IsProper {W = Milli} (λ w. true)
all-IsProper = record {
  zero = refl;
  numbered = λ weight tx sender score now p q. milli-IsNumbered weight tx sender score now;
}

abbrev laws : IsPool {W = Milli} basic_pool 60_000_000
laws = basic_pool_laws 60_000_000 (λ w. true) Milli-IsIeee all-IsProper

abbrev producer : Producer Milli (Mempool Milli) ℕ
producer = record {
  max_tx_per_block = 100;
  max_block_gas = 30_000_000;
  pool = pool;
  manager = manager;
  fee_model = model;
  sizer = none;
  receipt_store = some new_receipt_store;
}

abbrev pub hashes : Hashes
hashes = record { sha = λ p. p.gas_used; keccak = λ _. 1; logs_hash = λ _. 2; sender = λ t. 9 }

pool-Valid : laws.Valid pool
pool-Valid = record {
  valid = record {
    queue = record { heap = λ c p q. absurd (omega arith); good = λ i. refl };
    known_eq = λ h. ground arith;
    bounded = omega arith;
  };
  small = refl;
  scores = refl;
  weight = refl;
}

produce_block_returns_example :
    Returns
      (IsProduced basic_pool toy_trie hashes laws (limits producer.sizer 100 30_000_000).1 producer)
      (produce_block basic_pool toy_trie hashes true 5 6 producer)
unfolding limits get_block
produce_block_returns_example =
    produce_block_returns basic_pool toy_trie hashes laws toy_laws true 5 6 producer (omega arith)
      (omega arith) pool-Valid
      (rw (write_block-read (write_genesis_root empty_db 5) first_block).0 tt)
