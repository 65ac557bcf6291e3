-- ===== src/Tests/Requests.antt =====
-- The requests of internal/rpc on small inputs.
use inso_sequencer.Base.{
  ℕ, ◌+◌, ◌≡◌, refl, true, List, [], ◌∷◌, none, some, ◌==◌, if◌then◌else◌, arith, Option,
}
use inso_sequencer.Float.Milli.{Milli, milli_float}
use inso_sequencer.Evm.{BlockContext}
use inso_sequencer.Evm.Contract.{Message}
use inso_sequencer.Receipts.{Preimage, new_receipt_store, create_receipt, store}
use inso_sequencer.Rpc.{LogFilter, latest, at_block}
use inso_sequencer.Manager.{get_block_hash, add_batch}
use inso_sequencer.Rpc.Chain.Readable.{add_batch-panics}
use inso_sequencer.Rpc.Json.{Hex, Params, other, number, string}
use inso_sequencer.Rpc.Chain.{block_number_of, get_block_by_number, answer}
use inso_sequencer.Rpc.Calls.{CallArgs, to_message}
use inso_sequencer.Rpc.Status.{get_compute_receipt}
use inso_sequencer.Rpc.Status.Receipt.{get_compute_receipt-store}
use inso_sequencer.Rpc.Protocol.{Request}
use inso_sequencer.Pool.{laned_pool}
use inso_sequencer.Rpc.Handler.{Handler, Libraries, Moment}
use inso_sequencer.Rpc.Handler.Setup.{set_up}
use inso_sequencer.Sizer.{AdaptiveBlockSizer}
use inso_sequencer.Tests.Toys.{model, toy_state, toy_evm, a_tx, a_receipt}
use inso_sequencer.Tests.Node.{manager}
use inso_sequencer.Tests.Chain.{a_batch}
use inso_sequencer.Tests.Pools.{laned}
use inso_sequencer.Tests.Service.{hex, codec, client}

abbrev call_args : CallArgs
call_args = record {
  from = some 9;
  to = some 5;
  gas = none;
  gas_price = none;
  value = some 3;
  payload = none;
  input = some (1 ∷ 2 ∷ []);
}

abbrev output : BlockContext → Message → ℕ → ℕ → List ℕ
output ctx msg gas s = 7 ∷ []

abbrev estimate_params : Params
estimate_params = some (other 1 ∷ [])

abbrev a_message : Message
a_message = to_message call_args 8

abbrev toy_sha : Preimage → ℕ
toy_sha p = p.tx_hash + p.gas_used

get_compute_receipt-store_example :
    get_compute_receipt hex toy_sha
      (some (
        store new_receipt_store
          (create_receipt toy_sha (λ _. 1) (λ _. 2) a_tx a_receipt 7 0 9 3 8 [] 5)))
      (some (string "0x1" ∷ []))
    ≡ (if a_tx.hash == hex.to_hash "0x1"
        then answer (record {
          receipt = create_receipt toy_sha (λ _. 1) (λ _. 2) a_tx a_receipt 7 0 9 3 8 [] 5;
          verified = true;
        })
        else get_compute_receipt hex toy_sha (some new_receipt_store) (some (string "0x1" ∷ [])))
get_compute_receipt-store_example =
    get_compute_receipt-store hex toy_sha (λ _. 1) (λ _. 2) new_receipt_store a_tx a_receipt 7 0 9 3
      8 [] 5 "0x1"

abbrev filter : LogFilter
filter = record { from_block = at_block 0; to_block = latest; address = none; topics = [] }

abbrev libraries : Libraries ℕ
libraries = record {
  hex = hex;
  codec = codec;
  decode_args = λ j. some call_args;
  decode_filter = λ j. some filter;
  view = λ n. record { address = n; topics = [] };
  sha = toy_sha;
  pair_hash = λ a b. a + b;
  reads = record { get_code = λ s a. []; get_state = λ s a k. 0 };
  output = output;
}

abbrev handler : Handler Milli ℕ
handler = record {
  mempool = laned;
  state = manager;
  tastescore = some client;
  fee_model = model;
  receipt_store = some new_receipt_store;
  laned_pool = true;
  sizer = none;
  metrics = some (record { rpc_requests = 4; rpc_errors = 1 });
  chain_id = 42;
}

handler-set_up :
    (s : AdaptiveBlockSizer Milli)
    → record handler { sizer = some s }
      ≡ set_up laned manager
          (some client)
          42
          model
          new_receipt_store
          s
          (record { rpc_requests = 4; rpc_errors = 1 })
unfolding set_up
handler-set_up s = refl

abbrev moment : Moment Milli
moment = record { now = 6; calls = λ i. record { before = 5; fetched = none; after = 5 } }

abbrev a_request : Request
a_request = record {
  method = "eth_sendRawTransaction";
  params = some (string "0x02" ∷ []);
  id = number 3;
}

-- A message that asks for a subscription, and one that is no request.
abbrev decode_message : List ℕ → Option Request
decode_message [] = none
decode_message (b ∷ bs) =
    some
      (record { method = "eth_subscribe"; params = some (string "newHeads" ∷ []); id = number b })

-- A batch with the index 3, and the text that is read as the number of the block that it hides.
abbrev hiding_hex : Hex
hiding_hex = record hex { decode_uint64 = λ s. some 29_699 }

add_batch-panics_example :
    (get_block_hash (add_batch true manager a_batch) 29_699 ≡ none)
    × (get_block_by_number hiding_hex (add_batch true manager a_batch) (some (string "0x7403" ∷ []))
        ≡ none)
unfolding block_number_of
add_batch-panics_example =
    add_batch-panics hiding_hex manager a_batch "0x7403" (omega arith) (omega arith) refl
