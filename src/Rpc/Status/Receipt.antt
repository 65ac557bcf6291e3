-- ===== src/Rpc/Status/Receipt.antt =====
-- internal/rpc/handler.go: what inso_getComputeReceipt answers after a receipt was stored.
use Prim.Native.String.{String}
use inso_sequencer.Base.{
  ℕ, ◌≡◌, refl, ap, ◌∙◌, inl, inr, true, List, [], ◌∷◌, Option, none, some, ◌==◌, map, length,
  Option-cases, Returns, returns, if◌then◌else◌, Bool-cases,
}
use inso_sequencer.Types.{Tx, Receipt}
use inso_sequencer.Receipts.{
  ComputeReceipt, Preimage, ReceiptStore, get_by_block, compute_block_receipt_root, create_receipt,
  store, verify, store_stores, verify-create_receipt, create_receipt-tx_hash,
}
use inso_sequencer.Merkle.Binding.{merkle_root-total}
use inso_sequencer.Rpc.Json.{Params, string, Hex, first_of_texts}
use inso_sequencer.Rpc.Chain.{answer}
use inso_sequencer.Rpc.Status.{
  get_compute_receipt, receipt_or_nothing, get_block_receipt_root, root_of,
}

module _ (hex : Hex) (sha : Preimage → ℕ) (keccak logs_hash : List ℕ → ℕ) where
  stored_answer :
      (s : ReceiptStore) (r : ComputeReceipt) (text : String)
      → verify sha r ≡ true
      → get_compute_receipt hex sha (some (store s r)) (some (string text ∷ [])) ≡ (
          if r.tx_hash == hex.to_hash text
          then answer (record { receipt = r; verified = true })
          else get_compute_receipt hex sha (some s) (some (string text ∷ [])))
  unfolding get_compute_receipt receipt_or_nothing
  stored_answer s r text good =
      let stored = (store_stores s r (hex.to_hash text) 0).0 in
      elim (Bool-cases (r.tx_hash == hex.to_hash text)) [
        | inl e ↦ rw (stored, e, receipt_or_nothing) (rw good refl)
        | inr e ↦ rw (stored, e) refl
      ]

  -- Once the receipt that CreateReceipt makes of a transaction is stored, inso_getComputeReceipt answers
  -- that receipt, as a verified one, for the hash of this transaction, and for any other hash it answers
  -- what it answered before.
  pub get_compute_receipt-store :
      (s : ReceiptStore) (tx : Tx) (receipt : Receipt) (number index sender pre post : ℕ)
      (returned : List ℕ) (now : ℕ) (text : String)
      → get_compute_receipt hex sha
          (some (
            store s (
              create_receipt sha keccak logs_hash tx receipt number index sender pre post returned
                now)))
          (some (string text ∷ []))
        ≡ (if tx.hash == hex.to_hash text
            then answer (record {
              receipt =
                  create_receipt sha keccak logs_hash tx receipt number index sender pre post
                    returned now;
              verified = true;
            })
            else get_compute_receipt hex sha (some s) (some (string text ∷ [])))
  get_compute_receipt-store s tx receipt number index sender pre post returned now text =
      let cr =
        create_receipt sha keccak logs_hash tx receipt number index sender pre post returned now in
      let before = get_compute_receipt hex sha (some s) (some (string text ∷ [])) in
      stored_answer s cr text (
        verify-create_receipt sha keccak logs_hash tx receipt number index sender pre post returned
          now)
      ∙ ap
          (λ h.
            if h == hex.to_hash text
            then answer (record { receipt = cr; verified = true })
            else before)
          (create_receipt-tx_hash sha keccak logs_hash tx receipt number index sender pre post
            returned now)

compute_block_receipt_root-total :
    (pair_hash : ℕ → ℕ → ℕ) (s : ReceiptStore) (number : ℕ)
    → (root : ℕ) × (compute_block_receipt_root pair_hash s number ≡ some root)
unfolding compute_block_receipt_root
compute_block_receipt_root-total pair_hash s number =
    let hashes : List ℕ = map (λ r. r.receipt_hash) (get_by_block s number) in
    let (root, at) = merkle_root-total pair_hash hashes in
    elim (Bool-cases (length (get_by_block s number) == 0)) [
      | inl e ↦ (0, rw e refl)
      | inr e ↦ (root, rw e at)
    ]

-- The Merkle root never runs out of fuel.
pub get_block_receipt_root-Returns :
    (hex : Hex) (pair_hash : ℕ → ℕ → ℕ) (s : Option ReceiptStore) (params : Params)
    → Returns (λ r. Unit {0}) (get_block_receipt_root hex pair_hash s params)
unfolding get_block_receipt_root root_of
get_block_receipt_root-Returns hex pair_hash none params = returns tt
get_block_receipt_root-Returns hex pair_hash (some s) params =
    elim (Option-cases (first_of_texts params)) [
      | inl e ↦ rw (e, get_block_receipt_root) (returns tt)
      | inr (text, e) ↦ elim (Option-cases (hex.decode_uint64 text)) [
        | inl z ↦ rw (e, get_block_receipt_root) (rw z (returns tt))
        | inr (n, z) ↦
            let (root, at) = compute_block_receipt_root-total pair_hash s n in
            rw (e, get_block_receipt_root) (rw z (rw (at, root_of) (returns tt)))
      ]
    ]
