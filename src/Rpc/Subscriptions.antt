-- ===== src/Rpc/Subscriptions.antt =====
-- internal/rpc/websocket.go: the subscriptions of the WebSocket clients. A connection is a number.
-- `write` says whether a connection takes a message. The map of subscriptions is the list of its
-- entries; the order in which Go goes through a map is not specified, and no theorem relies on it.
pub mod Silence
pub mod Reached
use inso_sequencer.Base.{
  ℕ, zero, suc, ◌+◌, ◌&&◌, not, Bool, true, false, List, [], ◌∷◌, Option, none, some, ◌==◌,
  if◌then◌else◌, get, put, delete, contains, length,
}
use Prim.Native.String.{String}
use text.Mathlib.Text.{◌==◌ as str_eq}
use inso_sequencer.Word.{add64}
use inso_sequencer.Rpc.Json.{Json, Params, Hex, first_text}

pub data SubType : Type 0 where
  new_heads logs new_pending_transactions : SubType

abbrev pub same_type : SubType → SubType → Bool
same_type new_heads new_heads = true
same_type logs logs = true
same_type new_pending_transactions new_pending_transactions = true
same_type _ _ = false

-- `wsSubscription`
pub record Subscription : Type 0 where
  pub id : ℕ
  pub conn : ℕ
  pub sub_type : SubType
  pub closed : Bool

-- `WSSubscriptionManager`
pub record WsSubscriptionManager : Type 0 where
  pub subscribers : List (ℕ × Subscription)
  pub next_id : ℕ

-- What a client gets back. Each error of the subscriptions has the code -32602.
pub data Reply : Type 0 where
  invalid_params : Reply
  subscribed : ℕ → Reply
  unsubscribed : Bool → Reply

-- `NewWSSubscriptionManager`
unfoldable pub new : WsSubscriptionManager
new = record { subscribers = []; next_id = 0 }

-- The subscription types that are supported.
unfoldable pub sub_type_of : String → Option SubType
sub_type_of s =
    if str_eq s "newHeads"
    then some new_heads
    else if str_eq s "logs"
    then some logs
    else if str_eq s "newPendingTransactions"
    then some new_pending_transactions
    else none

unfoldable pub subscribe :
    WsSubscriptionManager → ℕ → Option SubType → Reply × WsSubscriptionManager
subscribe m conn none = (invalid_params, m)
subscribe m conn (some kind) =
    let id = add64 m.next_id 1 in
    let sub : Subscription = record { id = id; conn = conn; sub_type = kind; closed = false } in
    (subscribed id, record { subscribers = put id sub m.subscribers; next_id = id })

unfoldable pub handle_subscribe : WsSubscriptionManager → ℕ → Params → Reply × WsSubscriptionManager
unfolding subscribe sub_type_of
handle_subscribe m conn params = elim (first_text params) [
  | none ↦ (invalid_params, m)
  | some s ↦ subscribe m conn (sub_type_of s)
]

pub unsubscribe : WsSubscriptionManager → ℕ → Reply × WsSubscriptionManager
unsubscribe m id =
    (unsubscribed (contains id m.subscribers), record m { subscribers = delete id m.subscribers })

-- A text that is no number is taken for 0. Nothing asks whose the subscription is.
pub handle_unsubscribe : Hex → WsSubscriptionManager → Params → Reply × WsSubscriptionManager
unfolding unsubscribe
handle_unsubscribe hex m params = elim (first_text params) [
  | none ↦ (invalid_params, m)
  | some s ↦ elim (hex.scan s) [ none ↦ unsubscribe m 0 | some id ↦ unsubscribe m id ]
]

-- A notification: the connection that it is written to, and the subscription.
pub record Notification : Type 0 where
  pub conn : ℕ
  pub subscription : ℕ

-- Whether a subscription is to be notified.
abbrev pub wants : SubType → Subscription → Bool
wants kind s = same_type s.sub_type kind && not s.closed

notify : (ℕ → Bool) → SubType → Subscription → List Notification → List Notification
notify write kind s ns =
    if wants kind s && write s.conn then record { conn = s.conn; subscription = s.id } ∷ ns else ns

-- A subscription whose connection fails is closed.
close_failed : (ℕ → Bool) → SubType → Subscription → Subscription
close_failed write kind s =
    if wants kind s && not (write s.conn) then record s { closed = true } else s

pub broadcast_each :
    (ℕ → Bool) → SubType → List (ℕ × Subscription) → List Notification × List (ℕ × Subscription)
unfolding notify close_failed
broadcast_each write kind [] = ([], [])
broadcast_each write kind ((k, s) ∷ subs) =
    let (ns, rest) = broadcast_each write kind subs in
    (notify write kind s ns, (k, close_failed write kind s) ∷ rest)

-- `BroadcastNewHead` and `BroadcastNewPendingTx`, which differ in the type and the content only.
pub broadcast :
    (ℕ → Bool) → SubType → WsSubscriptionManager → List Notification × WsSubscriptionManager
unfolding broadcast_each
broadcast write kind m =
    let (ns, subs) = broadcast_each write kind m.subscribers in
    (ns, record m { subscribers = subs })

pub subscriber_count : WsSubscriptionManager → ℕ
subscriber_count m = length m.subscribers

pub drop_conn : ℕ → List (ℕ × Subscription) → List (ℕ × Subscription)
drop_conn conn [] = []
drop_conn conn ((k, s) ∷ subs) =
    let rest = drop_conn conn subs in if s.conn == conn then rest else (k, s) ∷ rest

pub cleanup_conn : WsSubscriptionManager → ℕ → WsSubscriptionManager
unfolding drop_conn
cleanup_conn m conn = record m { subscribers = drop_conn conn m.subscribers }
