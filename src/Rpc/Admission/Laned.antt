-- ===== src/Rpc/Admission/Laned.antt =====
-- internal/rpc/handler.go: eth_sendRawTransaction on the pool with lanes, on each of its branches.
use inso_sequencer.Base.{
  ℕ, ◌≤◌, ◌<◌, ◌≡◌, refl, ◌⊎◌, inl, inr, true, false, Option, some, get, arith, Returns, returns,
  Returns-bind,
}
use inso_sequencer.Float.{Float, IsIeee}
use inso_sequencer.Types.{Tx, compute_priority}
use inso_sequencer.Queue.{IsNumbered}
use inso_sequencer.Mempool.{Error, new_meta}
use inso_sequencer.Lanes.{LanedMempool, classify_lane, total_len, has}
use inso_sequencer.Lanes.Invariant.{IsValid, Added, add_routes}
use inso_sequencer.Pool.{laned_pool}
use inso_sequencer.TasteScore.{Client, ScoreResult}
use inso_sequencer.Rpc.Json.{Params}
use inso_sequencer.Rpc.Admission.{
  TxCodec, RpcError, mempool_reject, accepted, refused, Admission, Decoded, bad, good, decode,
  answer_of, score_of, admit, send_raw_transaction,
}

module _ {W : Type 0} ⦃f : Float W⦄ where
  -- What the call makes of the pool `m`: an error and the same pool, or the hash of the transaction and
  -- a pool that has it in the lane of the sender's score.
  pub record IsAdmitted (d : Decoded) (m : LanedMempool W) (score : ℕ → W)
      (a : Admission W (LanedMempool W)) : Type 0 where
    pub valid : IsValid a.pool
    pub branch :
        ((e : RpcError) × (d ≡ bad e) × (a.answer ≡ refused e) × (a.pool ≡ m))
        ⊎ ((e : Error) × (tx : Tx) × (sender : ℕ) × (d ≡ good tx sender)
            × (a.answer ≡ refused (mempool_reject e))
            × (a.pool ≡ m)
            × ((has m tx.hash ≡ true) ⊎ (m.max_size ≤ total_len m)))
        ⊎ ((tx : Tx) × (sender : ℕ) × (d ≡ good tx sender)
            × (a.answer ≡ accepted tx.hash)
            × (has m tx.hash ≡ false)
            × (total_len m < m.max_size)
            × (get tx.hash a.pool.known ≡ some (classify_lane (score sender))))

  Added-branch :
      (m : LanedMempool W) (tx : Tx) (sender : ℕ) (score : ℕ → W) (now : ℕ) (e : Option Error)
      (q : LanedMempool W) (client : Option (Client W))
      → Added m (new_meta m.taste_score_weight tx sender (score sender) now) (e, q)
      → IsAdmitted
          (good tx sender)
          m
          score
          (record { answer = answer_of tx e; pool = q; tastescore = client })
  unfolding answer_of new_meta compute_priority
  Added-branch m tx sender score now e q client a = record {
    valid = a.valid;
    branch = elim a.branch [
      | inl (known, err, same) ↦
          inr (inl (Error.already_known, tx, sender, refl, ground (arith, err), same, inl known))
      | inr (inl (fresh, full, err, same)) ↦
          inr (inl (Error.mempool_full, tx, sender, refl, ground (arith, err), same, inr full))
      | inr (inr (fresh, room, err, at, grown)) ↦
          inr (inr (tx, sender, refl, ground (arith, err), fresh, room, at))
    ];
  }

  -- The priority that Add computes for the decoded transaction, of the weight of the pool and the score
  -- of the sender, is a number.
  abbrev pub NumberedFor :
      Decoded → LanedMempool W → Option (Client W) → ℕ → Option (ScoreResult W) → ℕ → ℕ → Type 0
  NumberedFor d m client before fetch after now =
      (tx : Tx) (sender : ℕ)
      → d ≡ good tx sender
      → IsNumbered (
          new_meta m.taste_score_weight tx sender
            (score_of laned_pool client sender before fetch after).0 now)

  admit-IsAdmitted :
      (laws : IsIeee W) (d : Decoded) (m : LanedMempool W) (client : Option (Client W)) (before : ℕ)
      (fetch : Option (ScoreResult W)) (after now : ℕ)
      → NumberedFor d m client before fetch after now
      → IsValid m
      → Returns
          (IsAdmitted d m (λ sender. (score_of laned_pool client sender before fetch after).0))
          (admit laned_pool d m client before fetch after now)
  unfolding admit
  admit-IsAdmitted laws (bad e) m client before fetch after now numbered v =
      returns (record { valid = v; branch = inl (e, refl, refl, refl) })
  admit-IsAdmitted laws (good tx sender) m client before fetch after now numbered v =
      Returns-bind
        (add_routes laws m tx sender (score_of laned_pool client sender before fetch after).0 now v
          (numbered tx sender refl))
        λ (e, q) a. returns (
          Added-branch m tx sender
            (λ sender. (score_of laned_pool client sender before fetch after).0) now e q
            (score_of laned_pool client sender before fetch after).1 a)

  -- On a valid pool, and when the priority that Add computes for the decoded transaction, of the weight of
  -- the pool and the score of the sender, is a number, eth_sendRawTransaction returns and keeps the pool valid: with the error of the decoding, or with that of a pool that knows
  -- the hash or is full, and then with the same pool; or else with the hash of the transaction, which is
  -- new and for which there was room, and which is then known in the lane of the score of its sender.
  pub send_raw_transaction-IsAdmitted :
      (laws : IsIeee W) (codec : TxCodec) (params : Params) (m : LanedMempool W)
      (client : Option (Client W)) (before : ℕ) (fetch : Option (ScoreResult W)) (after now : ℕ)
      → NumberedFor (decode codec params) m client before fetch after now
      → IsValid m
      → Returns
          (IsAdmitted
            (decode codec params)
            m
            (λ sender. (score_of laned_pool client sender before fetch after).0))
          (send_raw_transaction laned_pool codec params m client before fetch after now)
  unfolding send_raw_transaction
  send_raw_transaction-IsAdmitted laws codec params m client before fetch after now numbered v =
      admit-IsAdmitted laws (decode codec params) m client before fetch after now numbered v
