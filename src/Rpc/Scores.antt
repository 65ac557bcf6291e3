-- ===== src/Rpc/Scores.antt =====
-- internal/rpc/handler.go: the custom requests that ask for scores: inso_getTasteScoreOrdering,
-- inso_getAIScorePreview and inso_getComplianceStatus. Each call of the TasteScore service is a
-- `ScoreCall`: the clock around it and its answer. A response leaves out the constant fields.
pub mod Tiers
use Prim.Native.String.{String}
use text.Mathlib.Text.{◌==◌ as str_eq}
use inso_sequencer.Base.{
  ℕ, zero, suc, List, [], ◌∷◌, Option, none, some, ltb, leb, if◌then◌else◌, ◌>>=◌,
}
use inso_sequencer.Float.{Float, flt, feq}
use inso_sequencer.Types.{TxMeta}
use inso_sequencer.TasteScore.{Client, ScoreResult, Tier, unscored, get_score_result}
use inso_sequencer.Rpc.Json.{Params, Hex, first, first_text}
use inso_sequencer.Rpc.Chain.{Failure, invalid_params, invalid_address, Response, answer, failed}

pub record ScoreCall (W : Type 0) : Type 0 where
  pub before : ℕ
  pub fetched : Option (ScoreResult W)
  pub after : ℕ

-- An entry of the ordering. Without a client the last three are the zero values.
pub record OrderingEntry (W : Type 0) : Type 0 where
  pub tx_hash : ℕ
  pub sender : ℕ
  pub taste_score : W
  pub confidence : W
  pub tier : Option Tier
  pub chain_breakdown : List (String × W)
  pub priority : W
  pub gas_price : Option ℕ

pub record ScorePreview (W : Type 0) : Type 0 where
  pub address : ℕ
  pub taste_score : W
  pub confidence : W
  pub tier : Tier
  pub ai_model : String
  pub chain_breakdown : List (String × W)

pub data FatfTier : Type 0 where
  tier_a tier_b tier_c tier_d tier_e tier_f : FatfTier

pub data Risk : Type 0 where
  minimal low medium elevated high prohibited : Risk

pub data OrderingPriority : Type 0 where
  high_priority normal_priority low_priority deprioritized rejected : OrderingPriority

pub record Screening : Type 0 where
  pub fatf_tier : FatfTier
  pub tier_label : Risk
  pub priority : OrderingPriority

pub record ComplianceStatus (W : Type 0) : Type 0 where
  pub address : ℕ
  pub taste_score : W
  pub taste_tier : Option Tier
  pub screening : Screening

-- The tier of a score in thousandths.
pub screen : ℕ → Screening
screen bps =
    if leb 850 bps
    then record { fatf_tier = tier_a; tier_label = minimal; priority = high_priority }
    else if leb 750 bps
    then record { fatf_tier = tier_b; tier_label = low; priority = normal_priority }
    else if leb 500 bps
    then record { fatf_tier = tier_c; tier_label = medium; priority = normal_priority }
    else if leb 300 bps
    then record { fatf_tier = tier_d; tier_label = elevated; priority = low_priority }
    else if leb 100 bps
    then record { fatf_tier = tier_e; tier_label = high; priority = deprioritized }
    else record { fatf_tier = tier_f; tier_label = prohibited; priority = rejected }

address_param : Hex → Params → Response ℕ
address_param hex params = elim (params >>= first) [
  | none ↦ failed invalid_params
  | some j ↦ elim (first_text params) [
    | none ↦ failed invalid_address
    | some s ↦ answer (hex.to_address s)
  ]
]

module _ {W : Type 0} ⦃float : Float W⦄ where
  -- Without a client there is no result.
  pub ask : Option (Client W) → ℕ → ScoreCall W → Option (ScoreResult W) × Option (Client W)
  ask none addr call = (none, none)
  ask (some client) addr call =
      let (r, next) = get_score_result client addr call.before call.fetched call.after in
      (some r, some next)

  entry_of : TxMeta W → Option (ScoreResult W) → OrderingEntry W
  entry_of meta r = record {
    tx_hash = meta.tx.hash;
    sender = meta.sender;
    taste_score = meta.taste_score;
    confidence = elim r [ none ↦ float.decimal 0 0 | some x ↦ x.confidence ];
    tier = elim r [ none ↦ none | some x ↦ some x.tier ];
    chain_breakdown = elim r [ none ↦ [] | some x ↦ x.chain_breakdown ];
    priority = meta.priority;
    gas_price = meta.gas_price;
  }

  -- The loop over the pending transactions, with the call for each.
  pub taste_score_ordering :
      List (TxMeta W)
      → (ℕ → ScoreCall W)
      → Option (Client W)
      → List (OrderingEntry W) × Option (Client W)
  unfolding ask entry_of
  taste_score_ordering [] calls client = ([], client)
  taste_score_ordering (meta ∷ rest) calls client =
      let (r, client') = ask client meta.sender (calls 0) in
      let (entries, last) = taste_score_ordering rest (λ i. calls (suc i)) client' in
      (entry_of meta r ∷ entries, last)

  -- A score of 0 is shown as 0.5, a tier or a model that is missing by its name.
  preview : ℕ → Option (ScoreResult W) → ScorePreview W
  preview addr none = record {
    address = addr;
    taste_score = float.decimal 5 1;
    confidence = float.decimal 0 0;
    tier = unscored;
    ai_model = "tastescore-v2";
    chain_breakdown = [];
  }
  preview addr (some r) = record {
    address = addr;
    taste_score =
        if feq r.composite_score (float.decimal 0 0) then float.decimal 5 1 else r.composite_score;
    confidence = if feq r.confidence (float.decimal 0 0) then float.decimal 0 1 else r.confidence;
    tier = r.tier;
    ai_model = if str_eq r.model_version "" then "tastescore-v2" else r.model_version;
    chain_breakdown = r.chain_breakdown;
  }

  -- int(score * 1000), as far as the bounds need it: a negative number is below all of them.
  thousandths : W → ℕ
  thousandths score =
      if flt score (float.decimal 0 0)
      then 0
      else float.trunc (float.mul score (float.decimal 1000 0))

  -- Without a client the score is 0.
  compliance : ℕ → Option (ScoreResult W) → ComplianceStatus W
  unfolding screen thousandths
  compliance addr none = record {
    address = addr;
    taste_score = float.decimal 0 0;
    taste_tier = none;
    screening = screen (thousandths (float.decimal 0 0));
  }
  compliance addr (some r) = record {
    address = addr;
    taste_score = r.composite_score;
    taste_tier = some r.tier;
    screening = screen (thousandths r.composite_score);
  }

  -- A request about an address: an error asks for no score.
  about :
      {A : Type 0}
      → (ℕ → Option (ScoreResult W) → A)
      → Response ℕ
      → ScoreCall W
      → Option (Client W)
      → Response A × Option (Client W)
  unfolding ask
  about make (Response.nothing) call client = (Response.nothing, client)
  about make (failed e) call client = (failed e, client)
  about make (answer addr) call client =
      let (r, client') = ask client addr call in (answer (make addr r), client')

  pub get_ai_score_preview :
      Hex → Params → ScoreCall W → Option (Client W) → Response (ScorePreview W) × Option (Client W)
  unfolding about address_param preview
  get_ai_score_preview hex params call client = about preview (address_param hex params) call client

  pub get_compliance_status :
      Hex
      → Params
      → ScoreCall W
      → Option (Client W)
      → Response (ComplianceStatus W) × Option (Client W)
  unfolding about address_param compliance
  get_compliance_status hex params call client =
      about compliance (address_param hex params) call client
