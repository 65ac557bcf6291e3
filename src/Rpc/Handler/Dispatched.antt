-- ===== src/Rpc/Handler/Dispatched.antt =====
-- internal/rpc/handler.go: what each method makes of the handler.
use inso_sequencer.Base.{
  ◌+◌, ◌<◌, ◌≡◌, refl, ◌⊎◌, inl, inr, Option, none, some, Returns, returns, Returns-bind,
  Option-cases, ◌>>=◌,
}
use inso_sequencer.Word.{u64_mod}
use inso_sequencer.Float.{Float, IsIeee}
use inso_sequencer.StateStore.{TrieDb}
use inso_sequencer.Evm.{StateDb, Evm}
use inso_sequencer.Lanes.Invariant.{IsValid}
use inso_sequencer.TasteScore.{Client}
use inso_sequencer.Manager.{Manager}
use inso_sequencer.Rpc.{LogFilter, resolve}
use inso_sequencer.Rpc.Scan.{get_logs_scans}
use inso_sequencer.Rpc.Json.{Params, first}
use inso_sequencer.Rpc.Admission.Laned.{NumberedFor, send_raw_transaction-IsAdmitted}
use inso_sequencer.Rpc.Admission.{decode}
use inso_sequencer.Rpc.Chain.Readable.{
  NumberReadable, HashReadable, PlaceReadable, get_block_by_number_total, block_by_hash_total,
  get_transaction_by_hash_total,
}
use inso_sequencer.Rpc.Status.Receipt.{get_block_receipt_root-Returns}
use inso_sequencer.Rpc.Calls.Estimate.{eth_estimate_gas-Returns}
use inso_sequencer.Rpc.Protocol.{
  Read, eth_get_logs, eth_estimate_gas, eth_get_block_by_number, eth_get_block_by_hash,
  eth_get_transaction_by_hash, inso_get_block_receipt_root, eth_chain_id, Method, read,
  eth_send_raw_transaction, inso_get_taste_score_ordering, inso_get_ai_score_preview,
  inso_get_compliance_status, Outcome,
}
use inso_sequencer.Rpc.Handler.{Handler, Libraries, Moment, logs_of, answer_read, dispatch}

-- What eth_getLogs needs to end: the blocks asked for stay below the end of the 64 bits.
abbrev pub Scannable : {D : Type 0} → Manager D → Option LogFilter → Type 0
Scannable m none = Unit {0}
Scannable m (some filter) =
    (resolve 0 m.current_block filter.from_block + 1001 < u64_mod)
    × (resolve m.current_block m.current_block filter.to_block + 1 < u64_mod)

-- What the read requests need to return: the scan of eth_getLogs ends, and no batch stands under the
-- key of a block whose header is read.
abbrev pub Readable : {D S : Type 0} → Libraries S → Manager D → Read → Params → Type 0
Readable lib m eth_get_logs params = Scannable m (params >>= first >>= lib.decode_filter)
Readable lib m eth_get_block_by_number params = NumberReadable lib.hex m params
Readable lib m eth_get_block_by_hash params = HashReadable lib.hex m params
Readable lib m eth_get_transaction_by_hash params = PlaceReadable lib.hex m params
Readable lib m _ params = Unit {0}

-- What a method needs to return: a read as above; for a transaction, that the priority that Add
-- computes for it is a number.
abbrev pub IsReady :
    {W D S : Type 0} ⦃f : Float W⦄ → Libraries S → Method → Params → Moment W → Handler W D → Type 0
IsReady lib (read r) params t h = Readable lib h.state r params
IsReady lib eth_send_raw_transaction params t h =
    NumberedFor (decode lib.codec params) h.mempool h.tastescore (t.calls 0).before
      (t.calls 0).fetched (t.calls 0).after t.now
IsReady lib _ params t h = Unit {0}

module _ {W D : Type 0} ⦃f : Float W⦄ where
  -- The chain, the fees, the receipts and the sizer stay as they are.
  pub record IsKept (h n : Handler W D) : Type 0 where
    pub state : n.state ≡ h.state
    pub fees : n.fee_model ≡ h.fee_model
    pub receipts : n.receipt_store ≡ h.receipt_store
    pub sizer : n.sizer ≡ h.sizer
    pub chain : n.chain_id ≡ h.chain_id

  -- What a method makes of the handler.
  pub record IsDispatched (m : Method) (h : Handler W D) (o : Outcome W × Handler W D)
      : Type 0 where
    pub valid : IsValid o.1.mempool
    pub kept : IsKept h o.1
    pub pool : (m ≡ eth_send_raw_transaction) ⊎ (o.1.mempool ≡ h.mempool)
    pub metrics : o.1.metrics ≡ h.metrics

  logs_of-Returns :
      {S : Type 0} (lib : Libraries S) (m : Manager D) (params : Params)
      → Scannable m (params >>= first >>= lib.decode_filter)
      → Returns (λ o. Unit {0}) (logs_of {W = W} lib m params)
  unfolding logs_of
  logs_of-Returns lib m params fits = elim (Option-cases (params >>= first)) [
    | inl e ↦ rw (e, logs_of) (returns tt)
    | inr (j, e) ↦ elim (Option-cases (lib.decode_filter j)) [
      | inl z ↦ rw (e, logs_of) (rw z (returns tt))
      | inr (filter, z) ↦
          let same : (params >>= first >>= lib.decode_filter) ≡ some filter = rw e z in
          let (low, high) = rw same at fits in
          rw (e, logs_of) (rw z (rw (get_logs_scans lib.view m filter low high) (returns tt)))
    ]
  ]

  module _ {S : Type 0} (trie : TrieDb D S) ⦃db : StateDb S⦄ ⦃evm : Evm S⦄ (lib : Libraries S) where
    answer_read-Returns :
        (r : Read) (params : Params) (t : Moment W) (h : Handler W D)
        → Readable lib h.state r params
        → Returns (λ o. Unit {0}) (answer_read trie lib r params t h)
    unfolding answer_read
    answer_read-Returns eth_get_logs params t h fits = logs_of-Returns lib h.state params fits
    answer_read-Returns eth_estimate_gas params t h fits =
        Returns-bind
          (eth_estimate_gas-Returns trie lib.output h.state lib.decode_args h.fee_model.base_fee
            t.now params)
          λ r _. returns tt
    answer_read-Returns inso_get_block_receipt_root params t h fits =
        Returns-bind (get_block_receipt_root-Returns lib.hex lib.pair_hash h.receipt_store params)
          λ r _. returns tt
    answer_read-Returns eth_get_block_by_number params t h fits =
        Returns-bind (get_block_by_number_total lib.hex h.state params fits) λ r _. returns tt
    answer_read-Returns eth_get_block_by_hash params t h fits =
        Returns-bind (block_by_hash_total lib.hex h.state params fits) λ r _. returns tt
    answer_read-Returns eth_get_transaction_by_hash params t h fits =
        Returns-bind (get_transaction_by_hash_total lib.hex h.state lib.codec.sender_of params fits)
          λ r _. returns tt
    answer_read-Returns eth_chain_id params t h fits = returns tt
    answer_read-Returns _ params t h fits = returns tt

    with_client-IsDispatched :
        (m : Method) (h : Handler W D) (o : Outcome W) (client : Option (Client W))
        → IsValid h.mempool
        → IsDispatched m h (o, record h { tastescore = client })
    with_client-IsDispatched m h o client v = record {
      valid = v;
      kept = record { state = refl; fees = refl; receipts = refl; sizer = refl; chain = refl };
      pool = inr refl;
      metrics = refl;
    }

    pub dispatch-IsDispatched :
        (laws : IsIeee W) (m : Method) (params : Params) (t : Moment W) (h : Handler W D)
        → IsReady lib m params t h
        → IsValid h.mempool
        → Returns (IsDispatched m h) (dispatch trie lib m params t h)
    unfolding dispatch
    dispatch-IsDispatched laws (read r) params t h fits v =
        Returns-bind (answer_read-Returns r params t h fits)
          λ o _. returns (with_client-IsDispatched (read r) h o h.tastescore v)
    dispatch-IsDispatched laws eth_send_raw_transaction params t h fits v =
        Returns-bind
          (send_raw_transaction-IsAdmitted laws lib.codec params h.mempool h.tastescore
            (t.calls 0).before (t.calls 0).fetched (t.calls 0).after t.now fits v)
          λ a is. returns (record {
            valid = is.valid;
            kept = record {
              state = refl;
              fees = refl;
              receipts = refl;
              sizer = refl;
              chain = refl;
            };
            pool = inl refl;
            metrics = refl;
          })
    dispatch-IsDispatched laws inso_get_taste_score_ordering params t h fits v =
        returns (with_client-IsDispatched inso_get_taste_score_ordering h _ _ v)
    dispatch-IsDispatched laws inso_get_ai_score_preview params t h fits v =
        returns (with_client-IsDispatched inso_get_ai_score_preview h _ _ v)
    dispatch-IsDispatched laws inso_get_compliance_status params t h fits v =
        returns (with_client-IsDispatched inso_get_compliance_status h _ _ v)
