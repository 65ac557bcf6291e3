-- ===== src/Tests/Service.antt =====
-- internal/rpc/websocket.go, eth_sendRawTransaction and internal/genesis on small inputs.
use inso_sequencer.Base.{
  ◌≤◌, ℕ, ◌+◌, ◌≡◌, ◌⊎◌, refl, true, [], ◌∷◌, none, some, get, arith, Returns,
}
use inso_sequencer.Float.Milli.{Milli, milli_float, Milli-IsIeee}
use inso_sequencer.Tests.Node.{milli-IsNumbered}
use inso_sequencer.Pool.{laned_pool}
use inso_sequencer.TasteScore.{Client}
use inso_sequencer.Rpc.Json.{Hex, string}
use inso_sequencer.Rpc.Subscriptions.{
  WsSubscriptionManager, new, new_heads, handle_subscribe, subscribe, sub_type_of,
  handle_unsubscribe, broadcast,
}
use inso_sequencer.Rpc.Subscriptions.Reached.{
  Reach, here, next, subscribes, count_for, deliverable, broadcast_reaches,
}
use inso_sequencer.Rpc.Subscriptions.Silence.{unsubscribe_silences}
use inso_sequencer.Rpc.Admission.{TxCodec, decode, score_of, send_raw_transaction}
use inso_sequencer.Rpc.Admission.Laned.{IsAdmitted, send_raw_transaction-IsAdmitted}
use inso_sequencer.Genesis.{Genesis, GenesisText, GenesisDb, initialize_state}
use inso_sequencer.Genesis.Supply.{GenesisLaws, allocated, initialize_state_allocates}
use inso_sequencer.Tests.Toys.{toy_state, toy_evm, a_tx}
use inso_sequencer.Tests.Pools.{laned, laned-IsValid}

abbrev pub hex : Hex
hex = record {
  decode_uint64 = λ s. some 7;
  to_hash = λ s. 4;
  to_address = λ s. 5;
  scan = λ s. some 1;
}

-- The manager after a subscription of connection 4 to the new heads.
abbrev one_client : WsSubscriptionManager
one_client = (handle_subscribe new 4 (some (string "newHeads" ∷ []))).1

one_client-Reach : Reach hex new one_client
unfolding new
one_client-Reach = next here (subscribes new 4 (some (string "newHeads" ∷ [])) (omega arith))

broadcast_reaches_example :
    count_for 1 (broadcast (λ c. true) new_heads one_client).0
    ≡ deliverable (λ c. true) new_heads (get 1 one_client.subscribers)
broadcast_reaches_example = broadcast_reaches {hex = hex} (λ c. true) new_heads 1 one_client-Reach

one_client-next_id : one_client.next_id ≡ 1
unfolding handle_subscribe subscribe sub_type_of new
one_client-next_id = refl

unsubscribe_silences_example :
    count_for 1
      (broadcast
        (λ c. true)
        new_heads
        (handle_unsubscribe hex one_client (some (string "0x1" ∷ []))).1).0
    ≡ 0
unsubscribe_silences_example =
    unsubscribe_silences {hex = hex} (some (string "0x1" ∷ [])) "0x1" 1 (λ c. true) new_heads
      one_client-Reach refl refl (omega (arith, one_client-next_id)) here

abbrev pub codec : TxCodec
codec = record { decode_hex = λ s. some []; decode_tx = λ bs. some a_tx; sender_of = λ t. some 9 }

abbrev pub client : Client Milli
client = record { enabled = true; cache_ttl = 60; cache = [] }

send_raw_transaction-IsAdmitted_example :
    Returns
      (IsAdmitted
        (decode codec (some (string "0x02" ∷ [])))
        laned
        (λ sender. (score_of laned_pool (some client) sender 1 none 2).0))
      (send_raw_transaction laned_pool codec
        (some (string "0x02" ∷ []))
        laned
        (some client)
        1
        none
        2
        3)
send_raw_transaction-IsAdmitted_example =
    send_raw_transaction-IsAdmitted Milli-IsIeee codec (some (string "0x02" ∷ [])) laned
      (some client) 1 none 2 3
      (λ tx sender e.
        milli-IsNumbered laned.taste_score_weight tx sender
          (score_of laned_pool (some client) sender 1 none 2).0 3)
      laned-IsValid

abbrev genesis_text : GenesisText ℕ
genesis_text = record {
  set_string = λ s. some 700;
  uint64_of = λ n. n;
  from_big = λ n. n;
  to_address = λ s. 5;
  from_hex = λ s. [];
  to_hash = λ s. 6;
}

abbrev genesis_db : GenesisDb ℕ
genesis_db = record { set_code = λ s a code. s; set_state = λ s a key val. s }

balance-le : (s a : ℕ) → toy_state.get_balance s a ≤ s
balance-le s a = ground arith

abbrev genesis_laws : GenesisLaws genesis_db
genesis_laws = record {
  supply = λ s. s;
  balance_le = balance-le;
  supply_add = λ s a v h. refl;
  supply_nonce = λ s a n. refl;
  supply_code = λ s a code. refl;
  supply_state = λ s a key val. refl;
}

abbrev two_accounts : Genesis
two_accounts = record {
  gas_limit = "0x1c9c380";
  alloc =
      ("0x1", record { balance = "700"; code = ""; nonce = 0; storage = [] })
      ∷ ("0x2", record { balance = "700"; code = "0x60"; nonce = 1; storage = ("0x0", "0x1") ∷ [] })
      ∷ [];
}

initialize_state_allocates_example :
    ((allocated genesis_text two_accounts.alloc ≡ none)
      × (initialize_state genesis_text genesis_db two_accounts 3 ≡ none))
    ⊎ ((total : ℕ) × (allocated genesis_text two_accounts.alloc ≡ some total)
        × Returns
            (λ t. genesis_laws.supply t ≡ genesis_laws.supply 3 + total)
            (initialize_state genesis_text genesis_db two_accounts 3))
initialize_state_allocates_example =
    initialize_state_allocates genesis_text genesis_db genesis_laws two_accounts 3
      (λ total e. ground arith)
