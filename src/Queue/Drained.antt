-- ===== src/Queue/Drained.antt =====
-- internal/mempool: what the draining loop takes from a queue, and why it stops.
use mathlib.Core.Logic.Or
use mathlib.Core.Bool.{Bool-set}
use mathlib.Core.List.{
  Mem, Pairwise, mem-cons, mem-append, not-mem-nil, mem-cons_of_mem, mem-cons_self, append-nil,
  append_assoc,
}
use mathlib.Core.List.Perm
use inso_sequencer.Base.{
  ℕ, zero, suc, ◌+◌, ◌≤◌, ◌<◌, ◌≡◌, refl, sym, ◌∙◌, false, ◌&&◌, List, [], ◌∷◌, ◌++◌, none,
  if◌then◌else◌, Perm, ltb, ◌==◌, arith, length, length-append, length-perm, get, get-delete,
  delete, Returns, returns, Returns-bind, Returns-if, Returns-map,
}
use inso_sequencer.Float.{Float, IsIeee}
use inso_sequencer.Word.{u64_mod, add64}
use inso_sequencer.Types.{TxMeta}
use inso_sequencer.Heap.Laws.{push_correct, pop_correct, root-IsFirst}
use inso_sequencer.Queue.{
  less, IsNumbered, less-IsWeakOrder, Drain, drain_loop, occurs, total_gas, blank, IsQueue, IsFirst,
}

module _ {W V : Type 0} ⦃f : Float W⦄ where
  -- `t` is what the loop makes of `s`.
  pub record Drained (max_tx limit : ℕ) (s t : Drain W V) : Type 0 where
    pub taken : List (TxMeta W)
    pub batch_eq : t.batch ≡ s.batch ++ taken
    pub same : Perm (taken ++ t.queue) s.queue
    pub valid : IsQueue t.queue
    pub known_eq : (h : ℕ) → get h t.known ≡ (if occurs h taken == 0 then get h s.known else none)
    pub count_le : length s.batch ≤ max_tx → length t.batch ≤ max_tx
    pub gas_le :
        s.gas_used ≤ limit
        → ((m : TxMeta W) → Mem m s.queue → limit + m.tx.gas < u64_mod)
        → (t.gas_used ≡ s.gas_used + total_gas taken) × (t.gas_used ≤ limit)
    pub sorted : Pairwise (λ x y. less y x ≡ false) taken
    pub before : (x y : TxMeta W) → Mem x taken → Mem y t.queue → less y x ≡ false
    pub stop :
        0 < length t.queue
        → length t.batch < max_tx
        → (m : TxMeta W) × Mem m t.queue × IsFirst m t.queue × (limit < add64 t.gas_used m.tx.gas)

  -- The loop stops at once.
  Drained-here :
      (max_tx limit : ℕ) (s : Drain W V) (q : List (TxMeta W))
      → IsQueue q
      → Perm q s.queue
      → (0 < length q
          → length s.batch < max_tx
          → (m : TxMeta W) × Mem m q × IsFirst m q × (limit < add64 s.gas_used m.tx.gas))
      → Drained max_tx limit s (record s { queue = q })
  Drained-here max_tx limit s q v p stop = record {
    taken = [];
    batch_eq = sym (append-nil s.batch);
    same = p;
    valid = v;
    known_eq = λ h. refl;
    count_le = λ h. h;
    gas_le = λ h _. (omega arith, h);
    sorted = Pairwise.nil;
    before = λ x y m. absurd (not-mem-nil m);
    stop = stop;
  }

  -- The loop takes `item` and goes on.
  Drained-cons :
      (max_tx limit : ℕ) (s t : Drain W V) (item : TxMeta W) (rest : List (TxMeta W))
      → IsFirst item s.queue
      → Perm (item ∷ rest) s.queue
      → length s.batch < max_tx
      → add64 s.gas_used item.tx.gas ≤ limit
      → Drained max_tx limit
          (record {
            queue = rest;
            known = delete item.tx.hash s.known;
            batch = s.batch ++ item ∷ [];
            gas_used = add64 s.gas_used item.tx.gas;
          })
          t
      → Drained max_tx limit s t
  Drained-cons max_tx limit s t item rest first p room fits r =
      let whole : Perm (item ∷ (r.taken ++ t.queue)) s.queue =
        Perm.trans (Perm.cons item r.same) p in
      record {
        taken = item ∷ r.taken;
        batch_eq = r.batch_eq ∙ append_assoc s.batch (item ∷ []) r.taken;
        same = whole;
        valid = r.valid;
        known_eq = λ h. ground (arith, r.known_eq h, get-delete item.tx.hash h s.known);
        count_le = λ h. r.count_le (omega (arith, length-append s.batch (item ∷ [])));
        gas_le = λ h small.
            let now : s.gas_used + item.tx.gas < u64_mod =
              omega (arith, small item ((Perm.mem_iff p).0 mem-cons_self)) in
            let (e, le) =
              r.gas_le fits (λ m mem. small m ((Perm.mem_iff p).0 (mem-cons_of_mem item mem))) in
            (omega (arith, e, now), le);
        sorted =
            Pairwise.cons
              (λ u m.
                first u ((Perm.mem_iff whole).0 (mem-cons_of_mem item (mem-append.1 (Or.inl m)))))
              r.sorted;
        before = λ x y mx my.
            Or.elim (Bool-set _ _) (mem-cons.0 mx)
              (λ e. rw e (
                first y ((Perm.mem_iff whole).0 (mem-cons_of_mem item (mem-append.1 (Or.inr my))))))
              (λ m. r.before x y m my);
        stop = r.stop;
      }

  module _ (laws : IsIeee W) where
    -- With fuel for each entry the loop returns.
    pub drain_loop_drains :
        (k max_tx limit : ℕ) (s : Drain W V)
        → length s.queue < k
        → IsQueue s.queue
        → Returns (Drained max_tx limit s) (drain_loop k max_tx limit s)
    unfolding drain_loop
    drain_loop_drains zero max_tx limit s f v = absurd (omega arith)
    drain_loop_drains (suc k) max_tx limit s f v =
        Returns-if (ltb 0 (length s.queue) && ltb (length s.batch) max_tx)
          (λ more.
            Returns-bind
              (pop_correct less IsNumbered blank less-IsWeakOrder s.queue (laws.decimal_number 0 0)
                v (ground arith))
              λ (item, rest) (e, q, p).
                let first : IsFirst item s.queue =
                  rw e (root-IsFirst less IsNumbered blank less-IsWeakOrder s.queue v) in
                Returns-if (ltb limit (add64 s.gas_used item.tx.gas))
                  (λ over.
                    Returns-bind
                      (push_correct less IsNumbered blank less-IsWeakOrder rest item
                        (laws.decimal_number 0 0) (rw e (v.good 0)) q)
                      λ back (w, p').
                        let whole = Perm.trans p' p in
                        returns (
                          Drained-here max_tx limit s back w whole λ h room. (
                            item,
                            (Perm.mem_iff p').1 mem-cons_self,
                            λ y m. first y ((Perm.mem_iff whole).0 m),
                            ground arith,
                          )))
                  (λ fits.
                    Returns-map
                      (drain_loop_drains k max_tx limit _ (omega (arith, length-perm p)) q)
                      λ t r.
                        Drained-cons max_tx limit s t item rest first p (ground arith)
                          (ground arith) r))
          (λ done.
            returns (Drained-here max_tx limit s s.queue v Perm.rfl λ h k. absurd (ground arith)))
