-- ===== src/Queue.antt =====
-- internal/mempool/queue.go: the priority queue of transactions, and the draining loop that
-- mempool.go and lanes.go share.
pub mod Drained
use inso_sequencer.Base.{
  ℕ, zero, suc, ◌+◌, ◌≡◌, Bool, true, false, not, ◌&&◌, List, [], ◌∷◌, ◌++◌, Option, none, some,
  ltb, arith, if◌then◌else◌, ◌>>=◌, length, delete, sum_by, ◌==◌,
}
use mathlib.Core.List.{Mem}
use inso_sequencer.Float.{Float, flt, feq}
use inso_sequencer.Word.{add64}
use inso_sequencer.Types.{Tx, TxMeta}
use inso_sequencer.Heap
use inso_sequencer.Heap.Order.{IsWeakOrder}

-- What the loop changes: the queue, the map `known`, the batch so far and its gas.
pub record Drain (W V : Type 0) : Type 0 where
  pub queue : List (TxMeta W)
  pub known : List (ℕ × V)
  pub batch : List (TxMeta W)
  pub gas_used : ℕ

module _ {W : Type 0} ⦃f : Float W⦄ where
  -- A higher priority first; on a tie the earlier received.
  unfoldable pub less : TxMeta W → TxMeta W → Bool
  less x y =
      if not (feq x.priority y.priority)
      then flt y.priority x.priority
      else ltb x.received_at y.received_at

  -- The priority is a number.
  abbrev pub IsNumbered : TxMeta W → Type 0
  IsNumbered m = f.is_nan m.priority ≡ false

  pub less-IsWeakOrder : IsWeakOrder less IsNumbered
  unfolding less
  less-IsWeakOrder = record {
    asym = λ x y e. ground arith;
    trans = λ x y z gx gy gz e e'. ground arith;
  }

  -- `heap.Pop` until the queue is empty, the batch is full, or an entry does not fit; that entry is
  -- put back. Each round of the loop spends one unit of fuel.
  unfoldable pub drain_loop : {V : Type 0} → ℕ → ℕ → ℕ → Drain W V → Option (Drain W V)
  drain_loop zero max_tx gas_limit s = none
  drain_loop {V} (suc k) max_tx gas_limit s =
      let round : Option (Drain W V) = do
        (item, rest) ← Heap.pop less s.queue
        let tx_gas = item.tx.gas
        let back = Heap.push less rest item >>= λ q. some (record s { queue = q })
        let next = drain_loop k max_tx gas_limit (record {
          queue = rest;
          known = delete item.tx.hash s.known;
          batch = s.batch ++ item ∷ [];
          gas_used = add64 s.gas_used tx_gas;
        })
        if ltb gas_limit (add64 s.gas_used tx_gas) then back else next
      in if ltb 0 (length s.queue) && ltb (length s.batch) max_tx then round else some s

  -- How often a hash occurs among the entries.
  abbrev pub occurs : ℕ → List (TxMeta W) → ℕ
  occurs h = sum_by λ m. if m.tx.hash == h then 1 else 0

  abbrev pub total_gas : List (TxMeta W) → ℕ
  total_gas = sum_by λ m. m.tx.gas

  -- The filler of the heap lemmas, for indices that are out of range.
  abbrev pub blank : TxMeta W
  blank = record {
    tx = record {
      hash = 0;
      nonce = 0;
      gas = 0;
      gas_price = 0;
      gas_tip_cap = 0;
      gas_fee_cap = 0;
      value = 0;
      to = none;
      payload = [];
      kind = 0;
    };
    taste_score = f.decimal 0 0;
    priority = f.decimal 0 0;
    received_at = 0;
    sender = 0;
    nonce = 0;
    gas_price = none;
    gas_tip_cap = none;
    gas_fee_cap = none;
  }

  -- The queue is a heap of entries whose priorities are numbers.
  abbrev pub IsQueue : List (TxMeta W) → Type 0
  IsQueue = Heap.Laws.IsQueue less IsNumbered blank less-IsWeakOrder

  -- No entry of the queue comes before this one.
  abbrev pub IsFirst : TxMeta W → List (TxMeta W) → Type 0
  IsFirst x a = (y : TxMeta W) → Mem y a → less y x ≡ false
