-- ===== src/Rpc/Subscriptions/Silence.antt =====
-- internal/rpc/websocket.go: a subscription that was ended gets nothing more, and none is
-- left of a connection that was closed.
use Prim.Native.String.{String}
use inso_sequencer.Base.{
  ℕ, ◌+◌, ◌≤◌, ◌<◌, ◌≡◌, refl, ◌∙◌, Bool, false, List, [], ◌∷◌, Option, none, some, ◌==◌, inl, inr,
  get, get-delete, arith, Option-cases, Bool-cases,
}
use inso_sequencer.Word.{u64_mod, add64}
use inso_sequencer.Rpc.Json.{Params, Hex, first_text}
use inso_sequencer.Rpc.Subscriptions.{
  SubType, Subscription, drop_conn, WsSubscriptionManager, new, sub_type_of, subscribe,
  handle_subscribe, unsubscribe, handle_unsubscribe, broadcast, cleanup_conn,
}
use inso_sequencer.Rpc.Subscriptions.Reached.{
  Step, subscribes, unsubscribes, broadcasts, disconnects, Reach, here, next, Reach-IsRegistered,
  Step-IsRegistered, count_for, deliverable, broadcast_each-count, get-put_ne, get-delete-none,
  get-drop_conn-none, get-broadcast_each-none,
}

-- There is no subscription with the id, and it was given out before.
abbrev Gone : ℕ → WsSubscriptionManager → Type 0
Gone id m = (get id m.subscribers ≡ none) × (id ≤ m.next_id)

subscribe-Gone :
    (id : ℕ) (m : WsSubscriptionManager) (conn : ℕ) (kind : Option SubType)
    → m.next_id + 1 < u64_mod
    → Gone id m
    → Gone id (subscribe m conn kind).1
unfolding subscribe
subscribe-Gone id m conn none small g = g
subscribe-Gone id m conn (some kind) small g =
    let other : (add64 m.next_id 1 == id) ≡ false = ground (arith, g.1, small) in
    (get-put_ne (add64 m.next_id 1) id _ m.subscribers other ∙ g.0, omega (arith, g.1, small))

Step-Gone :
    {hex : Hex} {m n : WsSubscriptionManager} (id : ℕ) → Step hex m n → Gone id m → Gone id n
unfolding handle_subscribe handle_unsubscribe unsubscribe broadcast cleanup_conn
Step-Gone id (subscribes m conn params small) g = elim (Option-cases (first_text params)) [
  | inl e ↦ rw (e, handle_subscribe) g
  | inr (s, e) ↦ rw (e, handle_subscribe) (subscribe-Gone id m conn (sub_type_of s) small g)
]
Step-Gone {hex} id (unsubscribes m params) g = elim (Option-cases (first_text params)) [
  | inl e ↦ rw (e, handle_unsubscribe) g
  | inr (s, e) ↦ elim (Option-cases (hex.scan s)) [
    | inl z ↦ rw (e, handle_unsubscribe) (rw z (get-delete-none 0 id m.subscribers g.0, g.1))
    | inr (k, z) ↦ rw (e, handle_unsubscribe) (rw z (get-delete-none k id m.subscribers g.0, g.1))
  ]
]
Step-Gone id (broadcasts write kind m) g =
    (get-broadcast_each-none write kind id m.subscribers g.0, g.1)
Step-Gone id (disconnects m conn) g = (get-drop_conn-none conn id m.subscribers g.0, g.1)

Reach-Gone :
    {hex : Hex} {m n : WsSubscriptionManager} (id : ℕ) → Reach hex m n → Gone id m → Gone id n
Reach-Gone id here g = g
Reach-Gone id (next r s) g = Step-Gone id s (Reach-Gone id r g)

unsubscribe-Gone :
    (hex : Hex) (m : WsSubscriptionManager) (params : Params) (s : String) (id : ℕ)
    → first_text params ≡ some s
    → hex.scan s ≡ some id
    → id ≤ m.next_id
    → Gone id (handle_unsubscribe hex m params).1
unfolding handle_unsubscribe unsubscribe
unsubscribe-Gone hex m params s id e z le =
    rw (e, handle_unsubscribe) (rw z (ground (arith, get-delete id id m.subscribers), le))

-- Once a client, whichever it is, has ended a subscription by its id, no broadcast notifies this
-- subscription again, whatever the clients do, with fewer than 2^64 subscriptions in all.
pub unsubscribe_silences :
    {hex : Hex} {m n : WsSubscriptionManager} (params : Params) (s : String) (id : ℕ)
    (write : ℕ → Bool) (kind : SubType)
    → Reach hex new m
    → first_text params ≡ some s
    → hex.scan s ≡ some id
    → id ≤ m.next_id
    → Reach hex (handle_unsubscribe hex m params).1 n
    → count_for id (broadcast write kind n).0 ≡ 0
unfolding broadcast new
unsubscribe_silences {hex} {m} {n} params s id write kind r e z le q =
    let v =
      Reach-IsRegistered q (Step-IsRegistered (unsubscribes m params) (Reach-IsRegistered r tt)) in
    let gone = (Reach-Gone id q (unsubscribe-Gone hex m params s id e z le)).0 in
    let none_left : deliverable write kind (get id n.subscribers) ≡ 0 = rw gone refl in
    broadcast_each-count n.next_id write kind n.subscribers id v ∙ none_left

-- No subscription of the connection is left.
abbrev pub NoneOf : ℕ → List (ℕ × Subscription) → Type 0
NoneOf conn [] = Unit {0}
NoneOf conn ((k, s) ∷ subs) = ((s.conn == conn) ≡ false) × NoneOf conn subs

pub cleanup_conn-NoneOf :
    (conn : ℕ) (m : WsSubscriptionManager) → NoneOf conn (cleanup_conn m conn).subscribers
unfolding cleanup_conn
cleanup_conn-NoneOf conn m = dropped m.subscribers
  where
    dropped : (subs : List (ℕ × Subscription)) → NoneOf conn (drop_conn conn subs)
    dropped [] = tt
    dropped ((k, s) ∷ subs) = elim (Bool-cases (s.conn == conn)) [
      | inl e ↦ rw e (dropped subs)
      | inr e ↦ rw e (e, dropped subs)
    ]
