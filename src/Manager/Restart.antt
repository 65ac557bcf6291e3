-- ===== src/Manager/Restart.antt =====
-- internal/state/manager.go: what NewManager restores from the disk of a manager that has run.
use inso_sequencer.Base.{
  if◌then◌else◌, ℕ, suc, ◌+◌, ◌-◌, ◌%◌, ◌^◌, ◌<◌, ◌≡◌, ◌≢◌, refl, ap, ◌∙◌, Bool, true, false, List,
  [], Option, none, some, arith, Returns, returns, Option-cases, inl, inr,
}
use inso_sequencer.Types.{Tx, L2Block, L1Origin, Batch}
use inso_sequencer.StateStore.{TrieDb, open_state, commit_state}
use inso_sequencer.Evm.{StateDb, Evm, Progress, execute_transactions}
use inso_sequencer.ChainDb.{
  Db, ChainDb, get, new_chain_db, write_block, write_genesis_root, read_genesis_root,
  read_l1_origin,
}
use inso_sequencer.ChainDb.Store.{new_chain_db-write_block}
use inso_sequencer.ChainDb.Meta.{write_block-meta, write_batch-meta, write_l1_origin-meta}
use inso_sequencer.Manager.{
  Manager, build_block, persist, after_commit, execution_context, execute_and_commit_block,
  from_genesis, genesis_committed, origin_or_none, new_manager, fresh_manager, set_l1_origin,
  add_batch,
}

module _ {D : Type 0} where
  -- The disk holds the genesis root, which is not zero, and what the manager has in memory.
  pub record IsStored (m : Manager D) (origin : L1Origin) : Type 0 where
    pub genesis : ℕ
    pub genesis_eq : read_genesis_root m.chain ≡ some (suc genesis)
    pub block_eq : (new_chain_db m.chain.db).current_block ≡ m.current_block
    pub root_eq : (new_chain_db m.chain.db).state_root ≡ m.state_root
    pub origin_eq : origin_or_none (read_l1_origin m.chain) ≡ origin

  persist-IsStored :
      (writes : Bool) (m : Manager D) (d : D) (b : L2Block) (skipped : List Tx) (o : L1Origin)
      → b.header.number < 2 ^ 64
      → IsStored m o
      → IsStored (persist (record m { disk = d }) b skipped (write_block writes m.chain b)).1 o
  unfolding persist write_block
  persist-IsStored true m d b skipped o small v =
      let tip = new_chain_db-write_block m.chain b small in
      let (kept, origin) = write_block-meta true m.chain b in
      record {
        genesis = v.genesis;
        genesis_eq = kept ∙ v.genesis_eq;
        block_eq = ap (λ (c : ChainDb). c.current_block) tip;
        root_eq = ap (λ (c : ChainDb). c.state_root) tip;
        origin_eq = ap origin_or_none origin ∙ v.origin_eq;
      }
  persist-IsStored false m d b skipped o small v = record {
    genesis = v.genesis;
    genesis_eq = v.genesis_eq;
    block_eq = v.block_eq;
    root_eq = v.root_eq;
    origin_eq = v.origin_eq;
  }

  set_l1_origin-IsStored :
      (writes : Bool) (m : Manager D) (old o : L1Origin)
      → IsStored m old
      → IsStored (set_l1_origin writes m o) (if writes then o else old)
  unfolding set_l1_origin origin_or_none
  set_l1_origin-IsStored true m old o v =
      let (block, root, kept, origin) = write_l1_origin-meta true m.chain o in
      record {
        genesis = v.genesis;
        genesis_eq = kept ∙ v.genesis_eq;
        block_eq = block ∙ v.block_eq;
        root_eq = root ∙ v.root_eq;
        origin_eq = ap origin_or_none origin;
      }
  set_l1_origin-IsStored false m old o v =
      let (block, root, kept, origin) = write_l1_origin-meta false m.chain o in
      record {
        genesis = v.genesis;
        genesis_eq = kept ∙ v.genesis_eq;
        block_eq = block ∙ v.block_eq;
        root_eq = root ∙ v.root_eq;
        origin_eq = ap origin_or_none origin ∙ v.origin_eq;
      }

  add_batch-IsStored :
      (writes : Bool) (m : Manager D) (b : Batch) (o : L1Origin)
      → IsStored m o
      → IsStored (add_batch writes m b) o
  unfolding add_batch
  add_batch-IsStored writes m b o v =
      let (block, root, kept, origin) = write_batch-meta writes m.chain b in
      record {
        genesis = v.genesis;
        genesis_eq = kept ∙ v.genesis_eq;
        block_eq = block ∙ v.block_eq;
        root_eq = root ∙ v.root_eq;
        origin_eq = ap origin_or_none origin ∙ v.origin_eq;
      }

genesis_committed-inv :
    {D : Type 0} (m n : Manager D) (c : Option ℕ × D)
    → genesis_committed m c ≡ some n
    → (root : ℕ) × (d : D) × (n
        ≡ record m { disk = d; state_root = root; chain = write_genesis_root m.chain root })
unfolding genesis_committed
genesis_committed-inv m n (none, d) e = cc
genesis_committed-inv m n (some root, d) e = (root, d, cc)

module _ {D S : Type 0} (trie : TrieDb D S) ⦃db : StateDb S⦄ ⦃evm : Evm S⦄ where
  after_commit-IsStored :
      (writes : Bool) (m : Manager D) (txs : List Tx) (number timestamp parent base_fee : ℕ)
      (p : Progress S) (c : Option ℕ × D) (o : L1Origin)
      → number < 2 ^ 64
      → IsStored m o
      → IsStored (after_commit trie writes m txs number timestamp parent base_fee p c).1 o
  unfolding after_commit build_block
  after_commit-IsStored writes m txs number timestamp parent base_fee p (none, d) o small v =
      record {
        genesis = v.genesis;
        genesis_eq = v.genesis_eq;
        block_eq = v.block_eq;
        root_eq = v.root_eq;
        origin_eq = v.origin_eq;
      }
  after_commit-IsStored writes m txs number timestamp parent base_fee p (some root, d) o small v =
      persist-IsStored writes m d (build_block m txs number timestamp parent base_fee root p)
        p.skipped o small v

  execute_and_commit_block-IsStored :
      (writes : Bool) (m : Manager D) (txs : List Tx) (number timestamp parent base_fee : ℕ)
      (o : L1Origin)
      → number < 2 ^ 64
      → IsStored m o
      → IsStored (execute_and_commit_block trie writes m txs number timestamp parent base_fee).1 o
  unfolding execute_and_commit_block
  execute_and_commit_block-IsStored writes m txs number timestamp parent base_fee o small v =
      elim (Option-cases (open_state trie m.disk m.state_root)) [
        | inl e ↦ rw (e, execute_and_commit_block) v
        | inr (s, e) ↦
            rw (e, execute_and_commit_block)
              (let p =
                  execute_transactions s txs
                    (execution_context m number timestamp parent base_fee) in
                after_commit-IsStored writes m txs number timestamp parent base_fee p
                  (commit_state trie m.disk p.state number) o small v)
      ]

  -- What the producer and the batcher do with the manager; beside each manager stands the last origin
  -- whose write succeeded.
  pub data Step : Manager D → L1Origin → Manager D → L1Origin → Type 0 where
    produce :
        (writes : Bool) (m : Manager D) (txs : List Tx) (timestamp parent base_fee : ℕ)
        (o : L1Origin)
        → Step m o
            (execute_and_commit_block trie writes m txs
              ((m.current_block + 1) % 2 ^ 64)
              timestamp
              parent
              base_fee).1
            o
    move_origin :
        (writes : Bool) (m : Manager D) (old o : L1Origin)
        → Step m old (set_l1_origin writes m o) (if writes then o else old)
    store_batch :
        (writes : Bool) (m : Manager D) (b : Batch) (o : L1Origin)
        → Step m o (add_batch writes m b) o

  pub data Reach (m : Manager D) (start : L1Origin) : Manager D → L1Origin → Type 0 where
    here : Reach m start m start
    next : {n k : Manager D} {o p : L1Origin} → Reach m start n o → Step n o k p → Reach m start k p

  Step-IsStored : {m n : Manager D} {o p : L1Origin} → Step m o n p → IsStored m o → IsStored n p
  Step-IsStored (produce writes m txs timestamp parent base_fee o) v =
      execute_and_commit_block-IsStored writes m txs _ timestamp parent base_fee o (omega arith) v
  Step-IsStored (move_origin writes m old o) v = set_l1_origin-IsStored writes m old o v
  Step-IsStored (store_batch writes m b o) v = add_batch-IsStored writes m b o v

  Reach-IsStored :
      {m : Manager D} {start : L1Origin} {n : Manager D} {o : L1Origin}
      → Reach m start n o
      → IsStored m start
      → IsStored n o
  Reach-IsStored here v = v
  Reach-IsStored (next r s) v = Step-IsStored s (Reach-IsStored r v)

  -- A manager that NewManager makes of the disk of `m` knows what `m` knew, and has the origin `o`.
  pub record IsRestored (m : Manager D) (o : L1Origin) (n : Manager D) : Type 0 where
    pub chain_db : n.chain.db ≡ m.chain.db
    pub block_eq : n.current_block ≡ m.current_block
    pub root_eq : n.state_root ≡ m.state_root
    pub origin_eq : n.l1_origin ≡ o

  -- On a disk with a genesis root, NewManager reads the tip and the origin.
  new_manager-known :
      (chain_id addr : ℕ) (d : D) (entries : Db) (init : S → Option S) (r : ℕ)
      → read_genesis_root (new_chain_db entries) ≡ some (suc r)
      → new_manager trie chain_id addr d entries init
        ≡ some (record {
          disk = d;
          chain = new_chain_db entries;
          current_block = (new_chain_db entries).current_block;
          state_root = (new_chain_db entries).state_root;
          l1_origin = origin_or_none (read_l1_origin (new_chain_db entries));
          is_sequencing = true;
          sequencer_addr = addr;
          chain_id = chain_id;
        })
  unfolding new_manager
  new_manager-known chain_id addr d entries init r e = rw (new_manager, e) refl

  -- From a manager that the disk agrees with, and after any blocks, whether they are written or not,
  -- and any changes of the L1 origin and batches, whether they are written or not, NewManager on the disk
  -- returns a manager with the block number and the state root that were in memory, and with the last L1
  -- origin whose write succeeded.
  pub new_manager-Reach :
      {m n : Manager D} {start o : L1Origin} (chain_id addr : ℕ) (init : S → Option S)
      → IsStored m start
      → Reach m start n o
      → Returns (IsRestored n o) (new_manager trie chain_id addr n.disk n.chain.db init)
  unfolding new_chain_db read_genesis_root read_l1_origin
  new_manager-Reach {m} {n} chain_id addr init v r =
      let w = Reach-IsStored r v in
      rw (new_manager-known chain_id addr n.disk n.chain.db init w.genesis w.genesis_eq) (
        returns (record {
          chain_db = refl;
          block_eq = w.block_eq;
          root_eq = w.root_eq;
          origin_eq = w.origin_eq;
        }))

  from_genesis-inv :
      (m n : Manager D) (init : S → Option S)
      → from_genesis trie m init ≡ some n
      → (root : ℕ) × (d : D) × (n
          ≡ record m { disk = d; state_root = root; chain = write_genesis_root m.chain root })
  unfolding from_genesis
  from_genesis-inv m n init e = elim (Option-cases (open_state trie m.disk 0)) [
    | inl z ↦ absurd (ground arith)
    | inr (s, z) ↦ elim (Option-cases (init s)) [
      | inl y ↦ absurd (ground arith)
      | inr (s', y) ↦
          genesis_committed-inv m n (commit_state trie m.disk s' 0) (ground (arith, z, y))
    ]
  ]

  -- After NewManager has made a manager from genesis on an empty disk, and before the first block,
  -- NewManager on its disk gives the state root zero, and not the root of the genesis state.
  pub new_manager-genesis :
      (chain_id addr : ℕ) (d : D) (init : S → Option S) (m : Manager D)
      → new_manager trie chain_id addr d [] init ≡ some m
      → m.state_root ≢ 0
      → Returns
          (λ n. (n.current_block ≡ m.current_block) × (n.state_root ≡ 0))
          (new_manager trie chain_id addr m.disk m.chain.db init)
  unfolding new_manager read_genesis_root read_l1_origin get new_chain_db write_genesis_root
  new_manager-genesis chain_id addr d init m e n =
      let (root, d', eq) =
        from_genesis-inv (fresh_manager chain_id addr d (new_chain_db [])) m init e in
      let at : m.state_root ≡ root = rw eq refl in
      let r : root ≡ suc (root - 1) = ground (arith, at) in
      let known : read_genesis_root (new_chain_db m.chain.db) ≡ some (suc (root - 1)) =
        rw eq (rw (← r) refl) in
      let tip : (new_chain_db m.chain.db).current_block ≡ m.current_block = rw eq refl in
      let zero_root : (new_chain_db m.chain.db).state_root ≡ 0 = rw eq refl in
      rw (new_manager-known chain_id addr m.disk m.chain.db init (root - 1) known)
        (returns (tip, zero_root))
