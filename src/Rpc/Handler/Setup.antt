-- ===== src/Rpc/Handler/Setup.antt =====
-- internal/rpc/handler.go: NewHandler and the setters, and what main attaches to the handler.
use inso_sequencer.Base.{ℕ, true, false, Option, none, some}
use inso_sequencer.Manager.{Manager}
use inso_sequencer.Lanes.{LanedMempool}
use inso_sequencer.Fees.{DynamicFeeModel}
use inso_sequencer.Sizer.{AdaptiveBlockSizer}
use inso_sequencer.Receipts.{ReceiptStore}
use inso_sequencer.TasteScore.{Client}
use inso_sequencer.Rpc.Handler.{Handler, RpcMetrics}

module _ {W D : Type 0} where
  new_handler : LanedMempool W → Manager D → Option (Client W) → ℕ → DynamicFeeModel W → Handler W D
  new_handler mp sm ts chain_id fm = record {
    mempool = mp;
    state = sm;
    tastescore = ts;
    fee_model = fm;
    receipt_store = none;
    laned_pool = false;
    sizer = none;
    metrics = none;
    chain_id = chain_id;
  }

  set_receipt_store : ReceiptStore → Handler W D → Handler W D
  set_receipt_store rs h = record h { receipt_store = some rs }

  -- The pool that main attaches is the one that it gave to NewHandler.
  set_laned_pool : Handler W D → Handler W D
  set_laned_pool h = record h { laned_pool = true }

  set_adaptive_sizer : AdaptiveBlockSizer W → Handler W D → Handler W D
  set_adaptive_sizer s h = record h { sizer = some s }

  set_metrics : RpcMetrics → Handler W D → Handler W D
  set_metrics m h = record h { metrics = some m }

  -- The handler as main sets it up.
  unfoldable pub set_up :
      LanedMempool W
      → Manager D
      → Option (Client W)
      → ℕ
      → DynamicFeeModel W
      → ReceiptStore
      → AdaptiveBlockSizer W
      → RpcMetrics
      → Handler W D
  unfolding new_handler set_receipt_store set_laned_pool set_adaptive_sizer set_metrics
  set_up mp sm ts chain_id fm rs s m = set_metrics m (
      set_adaptive_sizer s
        (set_laned_pool (set_receipt_store rs (new_handler mp sm ts chain_id fm))))
