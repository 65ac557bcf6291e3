-- ===== src/Tests/Toys.antt =====
-- Small implementations of the parameters: a state, an EVM, a store of states, an encoding; and data.
use inso_sequencer.Base.{
  ℕ, ◌+◌, ◌-◌, ◌/◌, ◌^◌, true, false, [], ◌∷◌, some, ltb, arith, if◌then◌else◌,
}
use inso_sequencer.Types.{Tx, Receipt, L2Block}
use inso_sequencer.Float.Milli.{Milli, pos, milli_float}
use inso_sequencer.Fees.{DynamicFeeModel}
use inso_sequencer.Evm.{StateDb, Evm}
use inso_sequencer.Evm.Transaction.{EvmLaws}
use inso_sequencer.ChainDb.{ChainDb}
use inso_sequencer.StateStore.{TrieDb}
use inso_sequencer.Batcher.{Codec}

abbrev pub model : DynamicFeeModel Milli
model = record {
  base_fee = 1_000_000_000;
  min_base_fee = 100_000_000;
  max_base_fee = 100_000_000_000;
  target_gas_usage = pos 500;
  ema_gas_usage = pos 500;
  ema_alpha = pos 125;
  discount_cache = [];
  discount_ttl = 60;
}

-- A state with one balance for all, which a run of the EVM leaves alone, together with its gas.
instance abbrev pub toy_state : StateDb ℕ
toy_state = record {
  get_nonce = λ _ _. 0;
  get_balance = λ s _. if ltb s (2 ^ 256) then s else 2 ^ 256 - 1;
  set_nonce = λ s _ _. s;
  add_balance = λ s _ v. s + v;
  sub_balance = λ s _ v. s - v;
  set_tx_context = λ s _ _. s;
  get_refund = λ _. 1_000;
  get_logs = λ _ _ _. [];
}

instance abbrev pub toy_evm : Evm ℕ
toy_evm = record {
  sender_of = λ _. some 9;
  intrinsic_gas = λ _. some 21_000;
  create = λ _ _ _ _ g _ s. record { leftover = g / 2; failed = false; state = s };
  call = λ _ _ _ _ _ g _ s. record { leftover = g / 2; failed = false; state = s };
  create_address = λ a n. a + n;
  create_bloom = λ r. r.status;
  calc_blob_fee = λ n. n;
}

pub toy_laws : EvmLaws ℕ
toy_laws = record {
  balance_word = λ s a. ground arith;
  create_leftover = λ c p from code g v s. omega arith;
  call_leftover = λ c p from to input g v s. omega arith;
}

abbrev pub a_tx : Tx
a_tx = record {
  hash = 1;
  nonce = 0;
  gas = 50_000;
  gas_price = 2;
  gas_tip_cap = 0;
  gas_fee_cap = 0;
  value = 0;
  to = some 5;
  payload = [];
  kind = 0;
}

abbrev pub a_receipt : Receipt
a_receipt = record {
  kind = 0;
  tx_hash = 1;
  gas_used = 25_000;
  cumulative_gas_used = 25_000;
  block_hash = 4;
  block_number = 7;
  transaction_index = 0;
  status = 1;
  contract_address = 0;
  logs = [];
  bloom = 0;
}

abbrev pub a_block : L2Block
a_block = record {
  header = record {
    number = 7;
    hash = 4;
    parent_hash = 3;
    timestamp = 5;
    state_root = 8;
    gas_used = 25_000;
    gas_limit = 60_000;
    tx_count = 1;
    sequencer_addr = 3;
    l1_origin = record { block_number = 0; block_hash = 0; timestamp = 0 };
    base_fee = 1;
  };
  transactions = a_tx ∷ [];
  receipts = a_receipt ∷ [];
}

abbrev pub empty_db : ChainDb
empty_db = record { db = []; current_block = 0; state_root = 0 }

-- A store that keeps any state, with itself as the root.
abbrev pub toy_trie : TrieDb ℕ ℕ
toy_trie = record {
  state_at = λ d root. some root;
  commit_nodes = λ d s number. (some s, d + 1);
  flush = λ d root. (true, d);
  initialized = λ d root. true;
}

-- Bytes as they are, and the hash of a transaction for its bytes.
abbrev pub toy_codec : Codec
toy_codec = record {
  encode_tx = λ t. some (t.hash ∷ []);
  encode_frame = λ f. some (f.start_block ∷ f.end_block ∷ []);
  compress = λ bs. some bs;
}
