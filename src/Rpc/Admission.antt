-- ===== src/Rpc/Admission.antt =====
-- internal/rpc/handler.go: eth_sendRawTransaction, over any pool. The decoders of go-ethereum are a
-- parameter, `TxCodec`, with none for an error. `fetch` is what the TasteScore service answers, `before`
-- and `after` are the clock around that call, and `now` is the clock of the pool.
pub mod Laned
use Prim.Native.String.{String}
use inso_sequencer.Base.{ℕ, List, Option, none, some, ◌>>=◌}
use inso_sequencer.Float.{Float}
use inso_sequencer.Types.{Tx}
use inso_sequencer.Mempool.{Error}
use inso_sequencer.Pool.{TxPool}
use inso_sequencer.TasteScore.{Client, ScoreResult, get_score_result, effective_score}
use inso_sequencer.Rpc.Json.{Params, first_of_texts}

pub record TxCodec : Type 0 where
  pub decode_hex : String → Option (List ℕ)
  pub decode_tx : List ℕ → Option Tx
  -- `types.Sender`
  pub sender_of : Tx → Option ℕ

pub data RpcError : Type 0 where
  invalid_params invalid_hex_data invalid_transaction invalid_sender : RpcError
  mempool_reject : Error → RpcError

-- The hash of the transaction, or the error.
pub data Answer : Type 0 where
  accepted : ℕ → Answer
  refused : RpcError → Answer

-- What the call changes: the pool and the cache of scores.
pub record Admission (W P : Type 0) : Type 0 where
  pub answer : Answer
  pub pool : P
  pub tastescore : Option (Client W)

-- What is decoded of the parameters, or the error.
pub data Decoded : Type 0 where
  bad : RpcError → Decoded
  good : Tx → ℕ → Decoded

unfoldable pub decode_sender : TxCodec → Tx → Decoded
decode_sender codec tx = elim (codec.sender_of tx) [
  | none ↦ bad invalid_sender
  | some sender ↦ good tx sender
]

unfoldable pub decode : TxCodec → Params → Decoded
unfolding decode_sender
decode codec params = elim (first_of_texts params) [
  | none ↦ bad invalid_params
  | some s ↦ elim (codec.decode_hex s) [
    | none ↦ bad invalid_hex_data
    | some raw ↦ elim (codec.decode_tx raw) [
      | none ↦ bad invalid_transaction
      | some tx ↦ decode_sender codec tx
    ]
  ]
]

answer_of : Tx → Option Error → Answer
answer_of tx none = accepted tx.hash
answer_of tx (some e) = refused (mempool_reject e)

module _ {W P : Type 0} ⦃f : Float W⦄ (pool : TxPool W P) where
  -- The score of the sender, 0 without a client.
  unfoldable pub score_of :
      Option (Client W) → ℕ → ℕ → Option (ScoreResult W) → ℕ → W × Option (Client W)
  score_of none sender before fetch after = (f.decimal 0 0, none)
  score_of (some c) sender before fetch after =
      let (r, d) = get_score_result c sender before fetch after in
      (effective_score (some r), some d)

  unfoldable pub admit :
      Decoded → P → Option (Client W) → ℕ → Option (ScoreResult W) → ℕ → ℕ → Option (Admission W P)
  unfolding answer_of
  admit (bad e) p client before fetch after now =
      some (record { answer = refused e; pool = p; tastescore = client })
  admit (good tx sender) p client before fetch after now = do
    let (score, client') = score_of client sender before fetch after
    (e, q) ← pool.add p tx sender score now
    some (record { answer = answer_of tx e; pool = q; tastescore = client' })

  unfoldable pub send_raw_transaction :
      TxCodec
      → Params
      → P
      → Option (Client W)
      → ℕ
      → Option (ScoreResult W)
      → ℕ
      → ℕ
      → Option (Admission W P)
  unfolding admit
  send_raw_transaction codec params p client before fetch after now =
      admit (decode codec params) p client before fetch after now
