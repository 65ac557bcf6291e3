-- ===== src/TasteScore.antt =====
-- internal/tastescore/client.go: the client with its cache. For the cache, `fetch` is what fetchScore
-- returns, none for any error, for a call that ends at a time. Times are nanoseconds; `before` and
-- `after` are the clock at the two places that read it. For fetchScore, the exchange with the HTTP
-- service is a parameter.
use Prim.Native.String.{String}
use text.Mathlib.Text.{◌==◌ as str_eq}
use inso_sequencer.Base.{
  ℕ, ◌-◌, ◌≡◌, Bool, true, List, [], ◌∷◌, Option, none, some, ltb, ◌==◌, if◌then◌else◌, get, put,
  get-put, length, arith,
}
use inso_sequencer.Float.{Float, flt, fle}
use inso_sequencer.Config.{TasteScoreConfig}

pub data Tier : Type 0 where
  platinum gold silver bronze unscored unknown : Tier

pub record ScoreResult (W : Type 0) : Type 0 where
  pub composite_score : W
  pub confidence : W
  pub tier : Tier
  pub model_version : String
  pub chain_breakdown : List (String × W)

pub record CachedScore (W : Type 0) : Type 0 where
  pub result : ScoreResult W
  pub fetched_at : ℕ

pub record Client (W : Type 0) : Type 0 where
  pub enabled : Bool
  pub cache_ttl : ℕ
  pub cache : List (ℕ × CachedScore W)

-- `New`, of which the HTTP client is left out.
unfoldable pub new : {W : Type 0} → TasteScoreConfig W → Client W
new cfg = record { enabled = cfg.enabled; cache_ttl = cfg.cache_ttl; cache = [] }

-- `v2TasteScoreEngine` and `v2Summary`, the fields that are read.
pub record ScoreEngine (W : Type 0) : Type 0 where
  pub score : W
  pub confidence : W
  pub model_ver : String

pub record Summary (W : Type 0) : Type 0 where
  pub chains_checked : List String
  pub engine : ScoreEngine W

-- The status code, and the summary in the body; none where either of the two decoders fails.
pub record HttpReply (W : Type 0) : Type 0 where
  pub status_code : ℕ
  pub summary : Option (Summary W)

module _ {W : Type 0} ⦃f : Float W⦄ where
  unfoldable pub classify_tier : W → Tier
  classify_tier score =
      if fle (f.decimal 75 2) score
      then platinum
      else if fle (f.decimal 50 2) score
      then gold
      else if fle (f.decimal 25 2) score
      then silver
      else if flt (f.decimal 0 0) score
      then bronze
      else unscored

  default_result : Tier → String → ScoreResult W
  default_result t version = record {
    composite_score = f.decimal 5 1;
    confidence = f.decimal 0 1;
    tier = t;
    model_version = version;
    chain_breakdown = [];
  }

  -- The entry of the cache, if it is not expired.
  unfoldable pub fresh : Client W → ℕ → ℕ → Option (ScoreResult W)
  fresh c addr now = elim (get addr c.cache) [
    | some e ↦ if ltb (now - e.fetched_at) c.cache_ttl then some e.result else none
    | none ↦ none
  ]

  -- `chainBreakdown[chain] = score`
  set_chain : String → W → List (String × W) → List (String × W)
  set_chain chain score [] = (chain, score) ∷ []
  set_chain chain score ((c, s) ∷ rest) =
      if str_eq c chain then (chain, score) ∷ rest else (c, s) ∷ set_chain chain score rest

  pub breakdown : List String → W → List (String × W) → List (String × W)
  unfolding set_chain
  breakdown [] score m = m
  breakdown (chain ∷ chains) score m = breakdown chains score (set_chain chain score m)

  score_of_summary : Summary W → ScoreResult W
  unfolding breakdown classify_tier
  score_of_summary s = record {
    composite_score = s.engine.score;
    confidence = s.engine.confidence;
    tier = classify_tier s.engine.score;
    model_version = s.engine.model_ver;
    chain_breakdown = breakdown s.chains_checked s.engine.score [];
  }

  -- `fetchScore`, of what the HTTP client makes of the request: none for an error.
  unfoldable pub fetch_score : Option (HttpReply W) → Option (ScoreResult W)
  unfolding score_of_summary
  fetch_score none = none
  fetch_score (some r) =
      if r.status_code == 200
      then (elim r.summary [ none ↦ none | some s ↦ some (score_of_summary s) ])
      else none

  unfoldable pub get_score_result :
      Client W → ℕ → ℕ → Option (ScoreResult W) → ℕ → ScoreResult W × Client W
  unfolding fresh default_result
  get_score_result c addr before fetch after =
      if c.enabled
      then (elim (fresh c addr before) [
        | some r ↦ (r, c)
        | none ↦ elim fetch [
          | some r ↦
              (r, record c { cache = put addr (record { result = r; fetched_at = after }) c.cache })
          | none ↦ (default_result unknown "fallback", c)
        ]
      ])
      else (default_result unscored "disabled", c)

  -- GetScoreResult returns no error.
  unfoldable pub get_score : Client W → ℕ → ℕ → Option (ScoreResult W) → ℕ → W × Client W
  unfolding get_score_result
  get_score c addr before fetch after =
      let (r, d) = get_score_result c addr before fetch after in (r.composite_score, d)

  unfoldable pub effective_score : Option (ScoreResult W) → W
  effective_score none = f.decimal 5 1
  effective_score (some r) = f.mul r.composite_score r.confidence

  unfoldable pub clear_cache : Client W → Client W
  clear_cache c = record c { cache = [] }

  unfoldable pub cache_size : Client W → ℕ
  cache_size c = length c.cache

  -- The client once a score is in its cache.
  abbrev pub with_score : Client W → ℕ → ScoreResult W → ℕ → Client W
  with_score c addr r at = record c {
    cache = put addr (record { result = r; fetched_at = at }) c.cache;
  }

  -- With an enabled client, a score that is fetched because no fresh one is in the cache is the
  -- answer, and is the answer again until its time to live has passed, whatever the service would
  -- return then.
  pub get_score_result_caches :
      (c : Client W) (addr before after now later : ℕ) (r : ScoreResult W)
      (next : Option (ScoreResult W))
      → c.enabled ≡ true
      → fresh c addr before ≡ none
      → ltb (now - after) c.cache_ttl ≡ true
      → (get_score_result c addr before (some r) after ≡ (r, with_score c addr r after))
        × (get_score_result (with_score c addr r after) addr now next later
            ≡ (r, with_score c addr r after))
  unfolding get_score_result fresh
  get_score_result_caches c addr before after now later r next e miss young =
      let kept : fresh (with_score c addr r after) addr now ≡ some r =
        ground (arith, get-put addr addr (record { result = r; fetched_at = after }) c.cache) in
      (ground arith, ground arith)
