-- ===== src/Producer/Production.antt =====
-- internal/producer/producer.go: produceBlock returns, whatever happens to the block.
use inso_sequencer.Base.{
  ℕ, suc, ◌+◌, ◌-◌, ◌%◌, ◌^◌, ◌≤◌, ◌<◌, ◌≡◌, refl, ◌∙◌, ◌⊎◌, inl, inr, Bool, List, [], ◌∷◌, Option,
  none, some, ltb, get_elem?_total, length, arith, Returns, returns, Returns-bind, Returns-if,
  Bool-cases, ◌==◌,
}
use inso_sequencer.Float.{Float}
use inso_sequencer.Word.{u64_mod}
use inso_sequencer.Types.{Tx, TxMeta, Receipt, L2Block, L1Origin}
use inso_sequencer.StateStore.{TrieDb}
use inso_sequencer.Evm.{StateDb, Evm}
use inso_sequencer.Evm.Transaction.{EvmLaws}
use inso_sequencer.Manager.{
  Manager, Outcome, get_block, block_gas_limit, execute_and_commit_block, get_block_hash,
}
use inso_sequencer.Manager.Commit.{
  IsAligned, IsOutcome, execute_and_commit_block-IsOutcome, execute_and_commit_block-skipped,
}
use inso_sequencer.Manager.Restart.{Step, produce}
use inso_sequencer.Receipts.{ReceiptStore}
use inso_sequencer.Pool.{TxPool, IsPool, AllSmall, AllFine, txs_of}
use inso_sequencer.Pool.Small.{big, AllSmall-big, big-AllSmall, AllSmall-mem}
use inso_sequencer.Fees
use inso_sequencer.ChainDb.{found, IsReadable, read_block, read_block_hash}
use inso_sequencer.ChainDb.Store.{hash_of_total}
use inso_sequencer.Producer.{
  adjust_sizer, Producer, Hashes, limits, find_meta, return_all, return_one, return_skipped,
  store_receipts, keep_receipts, finish, produce_block,
}

-- `n` more transactions stand from the index `i` on.
store_receipts_total :
    (h : Hashes) (b : L2Block) (number pre now i : ℕ) (more : List Receipt) (rs : ReceiptStore)
    → i + length more ≤ length b.transactions
    → Returns (λ _. Unit {0}) (store_receipts h b number pre now i more rs)
unfolding store_receipts
store_receipts_total h b number pre now i [] rs le = returns tt
store_receipts_total h b number pre now i (r ∷ more) rs le =
    Returns-bind (get_elem?_total b.transactions i (omega arith))
      λ tx _. store_receipts_total h b number pre now (suc i) more _ (omega arith)

keep_receipts_total :
    (h : Hashes) (b : L2Block) (number pre now : ℕ) (o : Option ReceiptStore)
    → length b.receipts ≤ length b.transactions
    → Returns (λ _. Unit {0}) (keep_receipts h b number pre now o)
unfolding keep_receipts
keep_receipts_total h b number pre now none le = returns tt
keep_receipts_total h b number pre now (some rs) le =
    Returns-if (ltb 0 (length b.transactions))
      (λ _.
        Returns-bind (store_receipts_total h b number pre now 0 b.receipts rs (omega (arith, le)))
          λ k _. returns tt)
      (λ _. returns tt)

length-IsAligned : (rs : List Receipt) (ts : List Tx) → IsAligned rs ts → length rs ≡ length ts
length-IsAligned [] [] a = refl
length-IsAligned (r ∷ rs) (t ∷ ts) a = omega (arith, length-IsAligned rs ts a.1)
length-IsAligned [] (t ∷ ts) a = absurd a
length-IsAligned (r ∷ rs) [] a = absurd a

get_block_hash_total :
    {D : Type 0} (m : Manager D) (n : ℕ)
    → IsReadable (get_block m n)
    → Returns (λ _. Unit {0}) (get_block_hash m n)
unfolding get_block_hash read_block_hash get_block
get_block_hash_total m n ok = hash_of_total (read_block m.chain n) ok

-- The entry, if there is one, has a fine score.
abbrev FineEntry : {W : Type 0} → (W → Type 0) → Option (TxMeta W) → Type 0
FineEntry Fine none = Unit {0}
FineEntry Fine (some m) = Fine m.taste_score

find_meta-Fine :
    {W : Type 0} (Fine : W → Type 0) (h : ℕ) (ms : List (TxMeta W))
    → AllFine Fine ms
    → FineEntry Fine (find_meta h ms)
unfolding find_meta
find_meta-Fine Fine h [] fine = tt
find_meta-Fine Fine h (m ∷ ms) fine = elim (Bool-cases (m.tx.hash == h)) [
  | inl e ↦ rw e fine.0
  | inr e ↦ rw e (find_meta-Fine Fine h ms fine.1)
]

module _ {W P : Type 0} ⦃f : Float W⦄ (pool : TxPool W P) (limit : ℕ)
    (laws : IsPool pool limit) where
  return_all_keeps :
      (tick : ℕ) (ts : List Tx) (p : P)
      → AllSmall limit ts
      → laws.Valid p
      → Returns laws.Valid (return_all pool tick ts p)
  unfolding return_all
  return_all_keeps tick [] p a v = returns v
  return_all_keeps tick (t ∷ ts) p a v =
      Returns-bind (laws.add_keeps p t 0 (f.decimal 0 0) tick v laws.fine_zero a.0)
        λ (e, q) w. return_all_keeps tick ts q a.1 w

  return_one_keeps :
      (tick : ℕ) (t : Tx) (o : Option (TxMeta W)) (p : P)
      → limit + t.gas < u64_mod
      → FineEntry laws.Fine o
      → laws.Valid p
      → Returns laws.Valid (return_one pool tick t o p)
  unfolding return_one
  return_one_keeps tick t none p a fine v = returns v
  return_one_keeps tick t (some m) p a fine v =
      Returns-bind (laws.add_keeps p t m.sender m.taste_score tick v fine a) λ (e, q) w. returns w

  return_skipped_keeps :
      (tick : ℕ) (metas : List (TxMeta W)) (ts : List Tx) (p : P)
      → AllSmall limit ts
      → AllFine laws.Fine metas
      → laws.Valid p
      → Returns laws.Valid (return_skipped pool tick metas ts p)
  unfolding return_skipped
  return_skipped_keeps tick metas [] p a fine v = returns v
  return_skipped_keeps tick metas (t ∷ ts) p a fine v =
      Returns-bind
        (return_one_keeps tick t (find_meta t.hash metas) p a.0
          (find_meta-Fine laws.Fine t.hash metas fine) v)
        λ q w. return_skipped_keeps tick metas ts q a.1 fine w

module _ {W P D S : Type 0} ⦃f : Float W⦄ ⦃db : StateDb S⦄ ⦃evm : Evm S⦄ (pool : TxPool W P)
    (trie : TrieDb D S) (hashes : Hashes) {limit : ℕ} (pool_laws : IsPool pool limit) where
  -- What a round of production makes of the producer `p`: the pool stays valid; the state manager made
  -- a step; and either there is no block, and the tip and the fees are as they were, or there is one,
  -- the next, and the base fee and the sizer follow its gas.
  pub record IsProduced (gas_limit : ℕ) (p q : Producer W P D) : Type 0 where
    pub valid : pool_laws.Valid q.pool
    pub step : (o : L1Origin) → Step trie p.manager o q.manager o
    pub branch :
        ((q.manager.chain ≡ p.manager.chain)
          × (q.manager.current_block ≡ p.manager.current_block)
          × (q.fee_model ≡ p.fee_model)
          × (q.sizer ≡ p.sizer))
        ⊎ ((b : L2Block) × (q.manager.current_block ≡ (p.manager.current_block + 1) % 2 ^ 64)
            × (q.manager.state_root ≡ b.header.state_root)
            × (get_block q.manager b.header.number ≡ found b)
            × (b.header.gas_used ≤ block_gas_limit)
            × (q.fee_model ≡ Fees.adjust_after_block p.fee_model b.header.gas_used gas_limit)
            × (q.sizer ≡ adjust_sizer b.header.gas_used gas_limit p.sizer))

  finish_produces :
      (tick now gas_limit number : ℕ) (metas : List (TxMeta W)) (left : P) (p : Producer W P D)
      (m : Manager D) (o : Outcome)
      → number ≡ (p.manager.current_block + 1) % 2 ^ 64
      → pool_laws.Valid left
      → AllSmall limit (txs_of metas)
      → AllSmall limit o.skipped
      → AllFine pool_laws.Fine metas
      → ((o : L1Origin) → Step trie p.manager o m o)
      → IsOutcome trie p.manager (txs_of metas) number (o, m)
      → Returns
          (IsProduced gas_limit p)
          (finish pool trie hashes tick now gas_limit number metas left p m o.skipped o.block)
  unfolding finish
  finish_produces tick now gas_limit number metas left p m o n v small small' fine s
        (inl (e, chain, tip, root)) =
      rw (e, finish)
        (Returns-bind (return_all_keeps pool limit pool_laws tick (txs_of metas) left small v)
          λ q w. returns (record { valid = w; step = s; branch = inl (chain, tip, refl, refl) }))
  finish_produces tick now gas_limit number metas left p m o n v small small' fine s
        (inr (b, e, is_block, stored, by_hash, tip, root)) =
      rw (e, finish)
        (Returns-bind
          (return_skipped_keeps pool limit pool_laws tick metas o.skipped left small' fine v)
          λ q w.
            Returns-bind
              (keep_receipts_total hashes b number p.manager.state_root now p.receipt_store
                (omega (arith, length-IsAligned b.receipts b.transactions is_block.aligned)))
              λ kept _. returns (record {
                valid = w;
                step = s;
                branch = inr (b, tip ∙ n, root, stored, is_block.gas_le, refl, refl);
              }))

  module _ (laws : EvmLaws S) where
    -- When the pool keeps its promises up to `limit`, the gas limit of the batch is at most `limit`,
    -- and that of a block too, and no batch stands under the key of the block at the tip, then produceBlock
    -- returns, and does not panic: the pool stays valid, the
    -- state manager made a step, and either there is no block, and the chain, the fees and the sizer
    -- are as they were, or there is one: it is stored and is the new tip, the gas it used is within
    -- the limit of a block, and the base fee and the sizer follow that gas.
    pub produce_block_returns :
        (writes : Bool) (now tick : ℕ) (p : Producer W P D)
        → (limits p.sizer p.max_tx_per_block p.max_block_gas).1 ≤ limit
        → block_gas_limit ≤ limit
        → pool_laws.Valid p.pool
        → IsReadable (get_block p.manager (p.manager.current_block % 2 ^ 64))
        → Returns
            (IsProduced (limits p.sizer p.max_tx_per_block p.max_block_gas).1 p)
            (produce_block pool trie hashes writes now tick p)
    unfolding produce_block
    produce_block_returns writes now tick p in_pool in_block v tip =
        let (max_tx, gas_limit) = limits p.sizer p.max_tx_per_block p.max_block_gas in
        let number = (p.manager.current_block + 1) % 2 ^ 64 in
        let same : (number + 2 ^ 64 - 1) % 2 ^ 64 ≡ p.manager.current_block % 2 ^ 64 =
          omega arith in
        Returns-bind (pool_laws.pop_keeps p.pool max_tx gas_limit in_pool v)
          λ (metas, left) (small, fine, w).
            Returns-bind {P = λ _. Unit {0}}
              (rw same (get_block_hash_total p.manager (p.manager.current_block % 2 ^ 64) tip))
              λ parent _.
                let txs = txs_of metas in
                let (o, m) =
                  execute_and_commit_block trie writes p.manager txs number now parent
                    p.fee_model.base_fee in
                finish_produces tick now gas_limit number metas left p m o refl w small
                  (big-AllSmall limit o.skipped (
                    omega (
                      arith,
                      AllSmall-big limit txs small,
                      execute_and_commit_block-skipped trie (big limit) writes p.manager txs number
                          now parent p.fee_model.base_fee,
                    )))
                  fine (λ o. produce writes p.manager txs now parent p.fee_model.base_fee o)
                  (execute_and_commit_block-IsOutcome trie laws writes p.manager txs number now
                    parent p.fee_model.base_fee
                    (λ t m. ground (arith, AllSmall-mem limit txs t small m)))
