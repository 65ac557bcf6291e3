-- ===== src/Rpc/Subscriptions/Reached.antt =====
-- internal/rpc/websocket.go: whom a broadcast reaches, in any manager that the code can make.
use inso_sequencer.Base.{
  ℕ, ◌+◌, ◌≤◌, ◌<◌, ◌≡◌, refl, ◌∙◌, ◌&&◌, not, inl, inr, Bool, false, List, [], ◌∷◌, Option, none,
  some, ◌==◌, if◌then◌else◌, get, put, delete, arith, Bool-cases, Option-cases, sum_by,
}
use inso_sequencer.Word.{u64_mod, add64}
use inso_sequencer.Rpc.Json.{Params, Hex, first_text}
use inso_sequencer.Rpc.Subscriptions.{
  SubType, Subscription, WsSubscriptionManager, new, sub_type_of, subscribe, handle_subscribe,
  handle_unsubscribe, Notification, wants, notify, close_failed, broadcast_each, broadcast,
  drop_conn, cleanup_conn,
}

-- Each key is the id of its subscription, is between 1 and `last`, and stands once.
abbrev pub Registered : ℕ → List (ℕ × Subscription) → Type 0
Registered last [] = Unit {0}
Registered last ((k, s) ∷ subs) =
    (s.id ≡ k) × (0 < k) × (k ≤ last) × (get k subs ≡ none) × Registered last subs

pub get-put_ne :
    (k j : ℕ) (s : Subscription) (subs : List (ℕ × Subscription))
    → (k == j) ≡ false
    → get j (put k s subs) ≡ get j subs
get-put_ne k j s [] e = rw e refl
get-put_ne k j s ((i, t) ∷ subs) e = ground (arith, get-put_ne k j s subs e)

fresh_none :
    (last k : ℕ) (subs : List (ℕ × Subscription))
    → Registered last subs
    → last < k
    → get k subs ≡ none
fresh_none last k [] v h = refl
fresh_none last k ((i, t) ∷ subs) v h = ground (arith, fresh_none last k subs v.4 h)

put-Registered :
    (last k : ℕ) (s : Subscription) (subs : List (ℕ × Subscription))
    → Registered last subs
    → s.id ≡ k
    → last < k
    → Registered k (put k s subs)
put-Registered last k s [] v e h = (e, omega arith, omega arith, refl, tt)
put-Registered last k s ((i, t) ∷ subs) v e h =
    let other : (i == k) ≡ false = ground (arith, v.2, h) in
    let other' : (k == i) ≡ false = ground (arith, v.2, h) in
    rw other (
      v.0,
      v.1,
      omega (arith, v.2, h),
      get-put_ne k i s subs other' ∙ v.3,
      put-Registered last k s subs v.4 e h,
    )

pub get-delete-none :
    (k j : ℕ) (subs : List (ℕ × Subscription)) → get j subs ≡ none → get j (delete k subs) ≡ none
get-delete-none k j [] e = refl
get-delete-none k j ((i, t) ∷ subs) e = ground (arith, get-delete-none k j subs)

delete-Registered :
    (last k : ℕ) (subs : List (ℕ × Subscription))
    → Registered last subs
    → Registered last (delete k subs)
delete-Registered last k [] v = tt
delete-Registered last k ((i, t) ∷ subs) v = elim (Bool-cases (i == k)) [
  | inl e ↦ rw e (delete-Registered last k subs v.4)
  | inr e ↦ rw e (v.0, v.1, v.2, get-delete-none k i subs v.3, delete-Registered last k subs v.4)
]

pub get-drop_conn-none :
    (conn j : ℕ) (subs : List (ℕ × Subscription))
    → get j subs ≡ none
    → get j (drop_conn conn subs) ≡ none
unfolding drop_conn
get-drop_conn-none conn j [] e = refl
get-drop_conn-none conn j ((i, t) ∷ subs) e = ground (arith, get-drop_conn-none conn j subs)

drop_conn-Registered :
    (last conn : ℕ) (subs : List (ℕ × Subscription))
    → Registered last subs
    → Registered last (drop_conn conn subs)
unfolding drop_conn
drop_conn-Registered last conn [] v = tt
drop_conn-Registered last conn ((i, t) ∷ subs) v = elim (Bool-cases (t.conn == conn)) [
  | inl e ↦ rw e (drop_conn-Registered last conn subs v.4)
  | inr e ↦
      rw e
        (v.0, v.1, v.2, get-drop_conn-none conn i subs v.3, drop_conn-Registered last conn subs v.4)
]

pub get-broadcast_each-none :
    (write : ℕ → Bool) (kind : SubType) (j : ℕ) (subs : List (ℕ × Subscription))
    → get j subs ≡ none
    → get j (broadcast_each write kind subs).1 ≡ none
unfolding broadcast_each
get-broadcast_each-none write kind j [] e = refl
get-broadcast_each-none write kind j ((i, t) ∷ subs) e =
    ground (arith, get-broadcast_each-none write kind j subs)

close_failed-id :
    (write : ℕ → Bool) (kind : SubType) (s : Subscription) → (close_failed write kind s).id ≡ s.id
unfolding close_failed
close_failed-id write kind s = elim (Bool-cases (wants kind s && not (write s.conn))) [
  | inl e ↦ rw e refl
  | inr e ↦ rw e refl
]

broadcast_each-Registered :
    (last : ℕ) (write : ℕ → Bool) (kind : SubType) (subs : List (ℕ × Subscription))
    → Registered last subs
    → Registered last (broadcast_each write kind subs).1
unfolding broadcast_each
broadcast_each-Registered last write kind [] v = tt
broadcast_each-Registered last write kind ((i, t) ∷ subs) v = (
  close_failed-id write kind t ∙ v.0,
  v.1,
  v.2,
  get-broadcast_each-none write kind i subs v.3,
  broadcast_each-Registered last write kind subs v.4,
)

-- The number of notifications for a subscription.
abbrev pub count_for : ℕ → List Notification → ℕ
count_for id = sum_by λ (n : Notification). if n.subscription == id then 1 else 0

-- 1 for an open subscription of the type whose connection takes what is written.
abbrev pub deliverable : (ℕ → Bool) → SubType → Option Subscription → ℕ
deliverable write kind none = 0
deliverable write kind (some s) = if wants kind s && write s.conn then 1 else 0

notify-count :
    (write : ℕ → Bool) (kind : SubType) (s : Subscription) (ns : List Notification) (id : ℕ)
    → count_for id (notify write kind s ns)
      ≡ (if s.id == id then deliverable write kind (some s) else 0) + count_for id ns
unfolding notify
notify-count write kind s ns id = elim (Bool-cases (wants kind s && write s.conn)) [
  | inl e ↦ rw e (ground arith)
  | inr e ↦ rw e (ground arith)
]

pub broadcast_each-count :
    (last : ℕ) (write : ℕ → Bool) (kind : SubType) (subs : List (ℕ × Subscription)) (id : ℕ)
    → Registered last subs
    → count_for id (broadcast_each write kind subs).0 ≡ deliverable write kind (get id subs)
unfolding broadcast_each
broadcast_each-count last write kind [] id v = refl
broadcast_each-count last write kind ((i, t) ∷ subs) id v =
    let ih = broadcast_each-count last write kind subs id v.4 in
    let here = notify-count write kind t (broadcast_each write kind subs).0 id in
    elim (Bool-cases (i == id)) [
      | inl e ↦
          let same : id ≡ i = ground arith in
          let gone : get id subs ≡ none = rw same v.3 in
          let none_left : deliverable write kind (get id subs) ≡ 0 = rw gone refl in
          rw e (here ∙ rw (v.0, e) (omega (arith, ih, none_left)))
      | inr e ↦ rw e (here ∙ rw (v.0, e) (omega (arith, ih)))
    ]

-- What the code does with the manager.
pub data Step (hex : Hex) : WsSubscriptionManager → WsSubscriptionManager → Type 0 where
  subscribes :
      (m : WsSubscriptionManager) (conn : ℕ) (params : Params)
      → m.next_id + 1 < u64_mod
      → Step hex m (handle_subscribe m conn params).1
  unsubscribes :
      (m : WsSubscriptionManager) (params : Params) → Step hex m (handle_unsubscribe hex m params).1
  broadcasts :
      (write : ℕ → Bool) (kind : SubType) (m : WsSubscriptionManager)
      → Step hex m (broadcast write kind m).1
  disconnects : (m : WsSubscriptionManager) (conn : ℕ) → Step hex m (cleanup_conn m conn)

pub data Reach (hex : Hex) (m : WsSubscriptionManager) : WsSubscriptionManager → Type 0 where
  here : Reach hex m m
  next : {n o : WsSubscriptionManager} → Reach hex m n → Step hex n o → Reach hex m o

abbrev pub IsRegistered : WsSubscriptionManager → Type 0
IsRegistered m = Registered m.next_id m.subscribers

subscribe-IsRegistered :
    (m : WsSubscriptionManager) (conn : ℕ) (kind : Option SubType)
    → m.next_id + 1 < u64_mod
    → IsRegistered m
    → IsRegistered (subscribe m conn kind).1
unfolding subscribe
subscribe-IsRegistered m conn none small v = v
subscribe-IsRegistered m conn (some kind) small v =
    put-Registered m.next_id (add64 m.next_id 1) _ m.subscribers v refl (omega arith)

pub Step-IsRegistered :
    {hex : Hex} {m n : WsSubscriptionManager} → Step hex m n → IsRegistered m → IsRegistered n
unfolding handle_subscribe handle_unsubscribe broadcast cleanup_conn
Step-IsRegistered (subscribes m conn params small) v = elim (Option-cases (first_text params)) [
  | inl e ↦ rw (e, handle_subscribe) v
  | inr (s, e) ↦ rw (e, handle_subscribe) (subscribe-IsRegistered m conn (sub_type_of s) small v)
]
Step-IsRegistered {hex} (unsubscribes m params) v = elim (Option-cases (first_text params)) [
  | inl e ↦ rw (e, handle_unsubscribe) v
  | inr (s, e) ↦ elim (Option-cases (hex.scan s)) [
    | inl z ↦ rw (e, handle_unsubscribe) (rw z (delete-Registered m.next_id 0 m.subscribers v))
    | inr (id, z) ↦
        rw (e, handle_unsubscribe) (rw z (delete-Registered m.next_id id m.subscribers v))
  ]
]
Step-IsRegistered (broadcasts write kind m) v =
    broadcast_each-Registered m.next_id write kind m.subscribers v
Step-IsRegistered (disconnects m conn) v = drop_conn-Registered m.next_id conn m.subscribers v

pub Reach-IsRegistered :
    {hex : Hex} {m n : WsSubscriptionManager} → Reach hex m n → IsRegistered m → IsRegistered n
Reach-IsRegistered here v = v
Reach-IsRegistered (next r s) v = Step-IsRegistered s (Reach-IsRegistered r v)

-- In whatever state the clients bring the manager, with fewer than 2^64 subscriptions in all, a
-- broadcast notifies a subscription once if it is open, is of the type, and its connection takes what
-- is written, and else not at all.
pub broadcast_reaches :
    {hex : Hex} {m : WsSubscriptionManager} (write : ℕ → Bool) (kind : SubType) (id : ℕ)
    → Reach hex new m
    → count_for id (broadcast write kind m).0 ≡ deliverable write kind (get id m.subscribers)
unfolding broadcast new
broadcast_reaches {hex} {m} write kind id r =
    broadcast_each-count m.next_id write kind m.subscribers id (Reach-IsRegistered r tt)
