-- ===== src/Config.antt =====
-- internal/config/config.go: the records of the configuration and the defaults. Reading the file,
-- expanding the environment and parsing YAML are calls of libraries, which Load puts in a row.
-- Durations are nanoseconds.
use Prim.Native.String.{String}
use inso_sequencer.Base.{ℕ, Bool, true, List, [], ◌∷◌}
use inso_sequencer.Float.{Float}

pub record SequencerConfig : Type 0 where
  pub listen_addr : String
  pub ws_addr : String
  pub block_time : ℕ
  pub max_block_gas : ℕ
  pub max_tx_per_block : ℕ
  pub chain_id : ℕ
  pub data_dir : String

pub record L1Config : Type 0 where
  pub rpc_url : String
  pub chain_id : ℕ
  pub batch_inbox_addr : String
  pub batch_submitter_key : String
  pub submission_interval : ℕ

pub record TasteScoreConfig (W : Type 0) : Type 0 where
  pub enabled : Bool
  pub api_url : String
  pub api_key : String
  pub api_version : String
  pub chains : List String
  pub ordering_weight : W
  pub cache_ttl : ℕ

pub record LoggingConfig : Type 0 where
  pub level : String
  pub format : String

pub record MetricsConfig : Type 0 where
  pub enabled : Bool
  pub addr : String

pub record DidConfig : Type 0 where
  pub enabled : Bool
  pub registry_address : String

pub record SovereigntyConfig : Type 0 where
  pub enabled : Bool
  pub engine_address : String
  pub oracle_address : String
  pub sbt_address : String
  pub fee_discounts : Bool

pub record AdaptiveBlockConfig (W : Type 0) : Type 0 where
  pub enabled : Bool
  pub min_gas_limit : ℕ
  pub max_gas_limit : ℕ
  pub min_max_tx : ℕ
  pub max_max_tx : ℕ
  pub alpha : W
  pub target_utilization : W
  pub adjust_step_bps : ℕ

pub record Config (W : Type 0) : Type 0 where
  pub sequencer : SequencerConfig
  pub l1 : L1Config
  pub tastescore : TasteScoreConfig W
  pub did : DidConfig
  pub sovereignty : SovereigntyConfig
  pub adaptive_block : AdaptiveBlockConfig W
  pub logging : LoggingConfig
  pub metrics : MetricsConfig

module _ {W : Type 0} ⦃f : Float W⦄ where
  abbrev pub default_config : Config W
  default_config = record {
    sequencer = record {
      listen_addr = "0.0.0.0:8545";
      ws_addr = "0.0.0.0:8546";
      block_time = 500_000_000;
      max_block_gas = 30_000_000;
      max_tx_per_block = 5_000;
      chain_id = 42_069;
      data_dir = "/data";
    };
    l1 = record {
      rpc_url = "http://localhost:8551";
      chain_id = 1;
      batch_inbox_addr = "";
      batch_submitter_key = "";
      submission_interval = 30_000_000_000;
    };
    tastescore = record {
      enabled = true;
      api_url = "https://api.insoblokai.io";
      api_key = "";
      api_version = "v2";
      chains = "ethereum" ∷ "base" ∷ "arbitrum" ∷ "inso" ∷ [];
      ordering_weight = f.decimal 3 1;
      cache_ttl = 60_000_000_000;
    };
    did = record { enabled = true; registry_address = "" };
    sovereignty = record {
      enabled = true;
      engine_address = "";
      oracle_address = "";
      sbt_address = "";
      fee_discounts = true;
    };
    adaptive_block = record {
      enabled = true;
      min_gas_limit = 15_000_000;
      max_gas_limit = 60_000_000;
      min_max_tx = 1_000;
      max_max_tx = 10_000;
      alpha = f.decimal 2 1;
      target_utilization = f.decimal 5 1;
      adjust_step_bps = 500;
    };
    logging = record { level = "info"; format = "json" };
    metrics = record { enabled = true; addr = "0.0.0.0:6060" };
  }
