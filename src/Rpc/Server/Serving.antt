-- ===== src/Rpc/Server/Serving.antt =====
-- internal/rpc/websocket.go: what HandleWS does over a whole connection.
use text.Mathlib.Text.{◌==◌ as str_eq}
use inso_sequencer.Base.{ℕ, ◌≡◌, List, [], ◌∷◌, Option, length, none, some}
use inso_sequencer.Float.{Float}
use inso_sequencer.StateStore.{TrieDb}
use inso_sequencer.Evm.{StateDb, Evm}
use inso_sequencer.Lanes.Invariant.{IsValid}
use inso_sequencer.Rpc.Subscriptions.{WsSubscriptionManager}
use inso_sequencer.Rpc.Subscriptions.Silence.{NoneOf}
use inso_sequencer.Rpc.Protocol.{Request, Method, method_of}
use inso_sequencer.Rpc.Handler.{Handler, Libraries, Moment}
use inso_sequencer.Rpc.Handler.Dispatched.{IsReady, IsKept}
use inso_sequencer.Rpc.Server.{WsReply, serve_message}

module _ {W D : Type 0} ⦃f : Float W⦄ where
  -- What a connection leaves behind.
  pub record IsServed (conn count : ℕ) (h : Handler W D)
      (o : List (WsReply W) × WsSubscriptionManager × Handler W D) : Type 0 where
    pub answered : length o.0 ≡ count
    pub gone : NoneOf conn o.1.subscribers
    pub valid : IsValid o.2.mempool
    pub kept : IsKept h o.2

  module _ {S : Type 0} (trie : TrieDb D S) ⦃db : StateDb S⦄ ⦃evm : Evm S⦄ (lib : Libraries S)
      (decode : List ℕ → Option Request) where
    -- What a request needs to return, where it is handled.
    abbrev pub Ready : Option Request → Moment W → Handler W D → Type 0
    Ready none t h = Unit {0}
    Ready (some req) t h =
        (k : Method) → method_of req.method ≡ some k → IsReady lib k req.params t h

    -- Each message of the connection has what its request needs, in the state in which it is handled.
    abbrev pub Fits : ℕ → List (List ℕ × Moment W) → WsSubscriptionManager → Handler W D → Type 0
    Fits conn [] m h = Unit {0}
    Fits conn ((bytes, t) ∷ rest) m h =
        Ready (decode bytes) t h
        × ((reply : WsReply W) (n : WsSubscriptionManager) (next : Handler W D)
            → serve_message trie lib decode conn bytes t m h ≡ some (reply, n, next)
            → Fits conn rest n next)
