-- ===== src/Rpc/Handler/Handled.antt =====
-- internal/rpc/handler.go: what Handle does, whatever the method.
use inso_sequencer.Base.{◌≡◌, ◌⊎◌, Bool, true, false, Option, none, some, if◌then◌else◌}
use inso_sequencer.Word.{add64}
use inso_sequencer.Float.{Float}
use inso_sequencer.Evm.{Evm}
use inso_sequencer.Lanes.Invariant.{IsValid}
use inso_sequencer.Rpc.Protocol.{
  Method, eth_send_raw_transaction, method_of, Result, HandlerError, Request, returned,
  method_not_found, server_error, RpcResponse,
}
use inso_sequencer.Rpc.Handler.{RpcMetrics, Handler}
use inso_sequencer.Rpc.Handler.Dispatched.{IsKept}

abbrev pub counted : Bool → Option RpcMetrics → Option RpcMetrics
counted failed none = none
counted failed (some c) = some (record {
  rpc_requests = add64 c.rpc_requests 1;
  rpc_errors = if failed then add64 c.rpc_errors 1 else c.rpc_errors;
})

module _ {W D : Type 0} ⦃f : Float W⦄ where
  -- The result or the error of a method, with the request and the error counted.
  abbrev pub Answers : Handler W D → RpcResponse W × Handler W D → Type 0
  Answers h o =
      ((r : Result W) × (o.0.payload ≡ returned r) × (o.1.metrics ≡ counted false h.metrics))
      ⊎ ((e : HandlerError) × (o.0.payload ≡ server_error e)
          × (o.1.metrics ≡ counted true h.metrics))

  pub record IsHandled (req : Request) (h : Handler W D) (o : RpcResponse W × Handler W D)
      : Type 0 where
    pub valid : IsValid o.1.mempool
    pub kept : IsKept h o.1
    pub pool : (method_of req.method ≡ some eth_send_raw_transaction) ⊎ (o.1.mempool ≡ h.mempool)
    pub same_id : o.0.id ≡ req.id
    pub branch :
        ((method_of req.method ≡ none)
          × (o.0.payload ≡ method_not_found req.method)
          × (o.1.metrics ≡ counted false h.metrics))
        ⊎ ((m : Method) × (method_of req.method ≡ some m) × Answers h o)
