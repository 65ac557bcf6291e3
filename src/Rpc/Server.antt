-- ===== src/Rpc/Server.antt =====
-- internal/rpc/server.go, and the loop of HandleWS in internal/rpc/websocket.go: what the server makes of
-- an HTTP request and of a message of a WebSocket client. Listening, the upgrade of a connection and
-- writing to it are calls of libraries. `decode` is what encoding/json makes of the bytes of a request,
-- none for an error.
pub mod Serving
use text.Mathlib.Text.{◌==◌ as str_eq}
use inso_sequencer.Base.{
  ℕ, ◌%◌, ◌^◌, Bool, true, false, List, [], ◌∷◌, Option, none, some, take, ◌==◌, if◌then◌else◌,
  ◌>>=◌,
}
use inso_sequencer.Float.{Float}
use inso_sequencer.StateStore.{TrieDb}
use inso_sequencer.Evm.{StateDb, Evm}
use inso_sequencer.Rpc.Json.{null}
use inso_sequencer.Rpc.Subscriptions.{
  Reply, WsSubscriptionManager, handle_subscribe, handle_unsubscribe, cleanup_conn,
}
use inso_sequencer.Rpc.Protocol.{Request, parse_error, RpcResponse}
use inso_sequencer.Rpc.Handler.{Handler, Libraries, Moment, handle}

pub data HttpReply (W : Type 0) : Type 0 where
  method_not_allowed : HttpReply W
  encoded : RpcResponse W → HttpReply W

-- `writeError` with the code -32700, where the request has no id yet.
parse_failure : {W : Type 0} → RpcResponse W
parse_failure = record { id = null; payload = parse_error }

-- The status 200 or 503, with the block number if there is one.
pub data Readiness : Type 0 where
  ready : ℕ → Readiness
  not_ready : Readiness

pub record Health : Type 0 where
  pub current_block : ℕ
  pub chain_id : ℕ

pub data WsReply (W : Type 0) : Type 0 where
  subscription_reply : Reply → WsReply W
  response : RpcResponse W → WsReply W

module _ {W D : Type 0} where
  pub handle_health : Handler W D → Health
  handle_health h = record { current_block = h.state.current_block; chain_id = h.chain_id % 2 ^ 64 }

  pub handle_ready : Handler W D → Readiness
  handle_ready h = if h.state.current_block == 0 then not_ready else ready h.state.current_block

module _ {W D S : Type 0} ⦃f : Float W⦄ (trie : TrieDb D S) ⦃db : StateDb S⦄ ⦃evm : Evm S⦄
    (lib : Libraries S) (decode : List ℕ → Option Request) where
  -- `handleHTTP`: `post` is whether the method is POST, `body` what is read, none for an error. No more
  -- than the first 2^20 bytes are read.
  pub handle_http :
      Bool → Option (List ℕ) → Moment W → Handler W D → Option (HttpReply W × Handler W D)
  unfolding parse_failure
  handle_http false body t h = some (method_not_allowed, h)
  handle_http true body t h = elim (body >>= λ bs. decode (take (2 ^ 20) bs)) [
    | none ↦ some (encoded parse_failure, h)
    | some req ↦ do (r, next) ← handle trie lib req t h; some (encoded r, next)
  ]

  -- A message of the connection `conn`.
  pub serve_message :
      ℕ
      → List ℕ
      → Moment W
      → WsSubscriptionManager
      → Handler W D
      → Option (WsReply W × WsSubscriptionManager × Handler W D)
  unfolding parse_failure
  serve_message conn bytes t m h = elim (decode bytes) [
    | none ↦ some (response parse_failure, m, h)
    | some req ↦
        let subscribed = handle_subscribe m conn req.params in
        let unsubscribed = handle_unsubscribe lib.hex m req.params in
        let handled : Option (WsReply W × WsSubscriptionManager × Handler W D) = do
          (r, next) ← handle trie lib req t h
          some (response r, m, next)
        in if str_eq req.method "eth_subscribe"
          then some (subscription_reply subscribed.0, subscribed.1, h)
          else if str_eq req.method "eth_unsubscribe"
          then some (subscription_reply unsubscribed.0, unsubscribed.1, h)
          else handled
  ]

  -- `HandleWS` after the upgrade: the messages until a read fails, each with its moment.
  pub serve :
      ℕ
      → List (List ℕ × Moment W)
      → WsSubscriptionManager
      → Handler W D
      → Option (List (WsReply W) × WsSubscriptionManager × Handler W D)
  unfolding serve_message
  serve conn [] m h = some ([], cleanup_conn m conn, h)
  serve conn ((bytes, t) ∷ rest) m h = do
    (reply, m', h') ← serve_message conn bytes t m h
    (replies, last, end) ← serve conn rest m' h'
    some (reply ∷ replies, last, end)
