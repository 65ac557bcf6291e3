-- ===== src/Rpc/Chain/Readable.antt =====
-- internal/rpc/handler.go: the requests that read a block return where no batch stands under its key.
use Prim.Native.String.{String}
use inso_sequencer.Base.{
  ℕ, ◌+◌, ◌<◌, ◌≡◌, refl, true, inl, inr, Bool, List, ◌∷◌, [], Option, none, some, Returns, returns,
  Returns-bind, Option-cases,
}
use inso_sequencer.Types.{Tx, L2Block, Batch}
use inso_sequencer.ChainDb.{
  Found, absent, found, foreign, IsReadable, read_block, read_block_hash, hash_of,
}
use inso_sequencer.ChainDb.Store.{hash_of_total, write_batch_overwrites}
use inso_sequencer.Manager.{
  Manager, get_block, get_block_by_hash, get_block_hash, get_transaction, get_tx_block_number,
  add_batch,
}
use inso_sequencer.Rpc.Json.{Json, string, Params, Hex, text_of, first_of_texts}
use inso_sequencer.Rpc.Chain.{
  block_or_nothing, full_tx_flag, block_number_of, block_at, block_by_text, get_block_by_number,
  block_by_hash_text, block_by_hash, place_of, transaction_at, get_transaction_by_hash,
}

block_or_nothing_total :
    (r : Found L2Block) (full_tx : Bool)
    → IsReadable r
    → Returns (λ _. Unit {0}) (block_or_nothing r full_tx)
unfolding block_or_nothing
block_or_nothing_total absent full_tx ok = returns tt
block_or_nothing_total (found b) full_tx ok = returns tt
block_or_nothing_total (foreign v) full_tx ok = absurd ok

module _ {D : Type 0} (hex : Hex) (m : Manager D) where
  -- The block that eth_getBlockByNumber, eth_getBlockByHash and eth_getTransactionByHash read.
  abbrev pub NumberReadable : Params → Type 0
  NumberReadable params =
      (j : Json) (js : List Json) (s : String) (n : ℕ)
      → params ≡ some (j ∷ js)
      → text_of j ≡ some s
      → block_number_of hex m.current_block s ≡ some n
      → IsReadable (get_block m n)

  abbrev pub HashReadable : Params → Type 0
  HashReadable params =
      (j : Json) (js : List Json) (s : String)
      → params ≡ some (j ∷ js)
      → text_of j ≡ some s
      → IsReadable (get_block_by_hash m (hex.to_hash s))

  abbrev pub PlaceReadable : Params → Type 0
  PlaceReadable params =
      (s : String) (n : ℕ)
      → first_of_texts params ≡ some s
      → get_tx_block_number m (hex.to_hash s) ≡ some n
      → IsReadable (get_block m n)

  pub get_block_by_number_total :
      (params : Params)
      → NumberReadable params
      → Returns (λ _. Unit {0}) (get_block_by_number hex m params)
  unfolding get_block_by_number block_by_text block_at
  get_block_by_number_total none ok = returns tt
  get_block_by_number_total (some []) ok = returns tt
  get_block_by_number_total (some (j ∷ js)) ok = elim (Option-cases (text_of j)) [
    | inl e ↦ rw (e, get_block_by_number) (returns tt)
    | inr (s, e) ↦ elim (Option-cases (block_number_of hex m.current_block s)) [
      | inl n ↦ rw (e, get_block_by_number) (rw (n, block_at) (returns tt))
      | inr (n, at) ↦
          rw (e, get_block_by_number)
            (rw (at, block_at)
              (block_or_nothing_total (get_block m n) (full_tx_flag (j ∷ js))
                (ok j js s n refl e at)))
    ]
  ]

  -- A batch that is written, with an index from 1 to 255, hides block 29,696 plus the index: reading the
  -- hash of this block panics, and so does eth_getBlockByNumber that is asked for it.
  pub add_batch-panics :
      (b : Batch) (s : String)
      → 0 < b.index
      → b.index < 256
      → block_number_of hex m.current_block s ≡ some (29_696 + b.index)
      → (get_block_hash (add_batch true m b) (29_696 + b.index) ≡ none)
        × (get_block_by_number hex (add_batch true m b) (some (string s ∷ [])) ≡ none)
  unfolding get_block_by_number block_by_text block_at block_or_nothing get_block get_block_hash
      read_block_hash hash_of add_batch
  add_batch-panics b s low high at =
      let hidden = write_batch_overwrites m.chain b low high in
      (rw (get_block_hash, hidden) refl, rw (at, get_block_by_number) (rw (block_at, hidden) refl))

  pub block_by_hash_total :
      (params : Params) → HashReadable params → Returns (λ _. Unit {0}) (block_by_hash hex m params)
  unfolding block_by_hash block_by_hash_text
  block_by_hash_total none ok = returns tt
  block_by_hash_total (some []) ok = returns tt
  block_by_hash_total (some (j ∷ js)) ok = elim (Option-cases (text_of j)) [
    | inl e ↦ rw (e, block_by_hash) (returns tt)
    | inr (s, e) ↦
        rw (e, block_by_hash)
          (block_or_nothing_total (get_block_by_hash m (hex.to_hash s)) (full_tx_flag (j ∷ js))
            (ok j js s refl e))
  ]

  place_of_total :
      (sender_of : Tx → Option ℕ) (o : Option ℕ)
      → ((n : ℕ) → o ≡ some n → IsReadable (get_block m n))
      → Returns (λ _. Unit {0}) (place_of hex sender_of m o)
  unfolding place_of get_block_hash read_block_hash get_block
  place_of_total sender_of none ok = returns tt
  place_of_total sender_of (some n) ok =
      Returns-bind (hash_of_total (read_block m.chain n) (ok n refl)) λ h _. returns tt

  transaction_at_total :
      (sender_of : Tx → Option ℕ) (h : ℕ) (r : Found Tx)
      → ((n : ℕ) → get_tx_block_number m h ≡ some n → IsReadable (get_block m n))
      → Returns (λ _. Unit {0}) (transaction_at hex sender_of m h r)
  unfolding transaction_at
  transaction_at_total sender_of h absent ok = returns tt
  transaction_at_total sender_of h (foreign v) ok = returns tt
  transaction_at_total sender_of h (found t) ok =
      Returns-bind (place_of_total sender_of (get_tx_block_number m h) ok) λ p _. returns tt

  pub get_transaction_by_hash_total :
      (sender_of : Tx → Option ℕ) (params : Params)
      → PlaceReadable params
      → Returns (λ _. Unit {0}) (get_transaction_by_hash hex sender_of m params)
  unfolding get_transaction_by_hash
  get_transaction_by_hash_total sender_of params ok = elim (Option-cases (first_of_texts params)) [
    | inl e ↦ rw (e, get_transaction_by_hash) (returns tt)
    | inr (s, e) ↦
        rw (e, get_transaction_by_hash)
          (transaction_at_total sender_of (hex.to_hash s) (get_transaction m (hex.to_hash s))
            (λ n at. ok s n e at))
  ]
