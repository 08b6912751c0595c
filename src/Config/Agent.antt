-- ===== src/Config/Agent.antt =====
-- internal/config/agent.go: `NewAgentConfig`.
pub mod OfFile
pub mod OfEnvironment
pub mod Laws
use Prim.Native.String
use go_metrics_stas.Prelude.{
  ℕ, String, Option, none, some, Bool, not, ◌&&◌, ◌||◌, ◌==◌, eqb, if◌then◌else◌, starts_with,
}
use go_metrics_stas.Http.{Bytes}
use go_metrics_stas.Model.{Int64}
use go_metrics_stas.Outcome.{Result, ok, err, failure}
use go_metrics_stas.Outcome.Results.{◌>>=◌}
use go_metrics_stas.Config.{
  Env, Duration, seconds, negative, get_or, config_path, over_text, over_env, over_number,
  over_duration,
}

pub record AgentJsonConfig : Type 0 where
  pub address : String
  pub report_interval : String
  pub poll_interval : String
  pub crypto_key : String
  pub grpc_address : String

-- The flags that the command line sets.
pub record AgentFlags : Type 0 where
  pub a : Option String
  pub r : Option Int64
  pub p : Option Int64
  pub k : Option String
  pub l : Option Int64
  pub crypto_key : Option String
  pub grpc : Option String
  pub config : Option String

pub record AgentConfig : Type 0 where
  pub poll_interval : Duration
  pub report_interval : Duration
  pub server_address : String
  pub key : String
  pub rate_limit : Int64
  pub crypto_key : String
  pub grpc_address : String

unfoldable pub of_flags : AgentFlags → AgentConfig
of_flags fl = record {
  server_address = get_or fl.a "localhost:8080";
  report_interval = seconds (get_or fl.r 10);
  poll_interval = seconds (get_or fl.p 2);
  key = get_or fl.k "";
  rate_limit = get_or fl.l 0;
  crypto_key = get_or fl.crypto_key "";
  grpc_address = get_or fl.grpc "";
}

abbrev pub overlaid : AgentFlags → AgentJsonConfig → Duration → Duration → AgentConfig → AgentConfig
overlaid fl jc report poll cfg = record cfg {
  server_address = over_text jc.address fl.a cfg.server_address;
  report_interval = report;
  poll_interval = poll;
  crypto_key = over_text jc.crypto_key fl.crypto_key cfg.crypto_key;
  grpc_address = over_text jc.grpc_address fl.grpc cfg.grpc_address;
}

unfoldable pub over_json : Env → AgentFlags → AgentJsonConfig → AgentConfig → Result AgentConfig
over_json env fl jc cfg = do
  report ← over_duration env.parse_duration (λ d. d) jc.report_interval fl.r cfg.report_interval
  poll ← over_duration env.parse_duration (λ d. d) jc.poll_interval fl.p cfg.poll_interval
  ok (overlaid fl jc report poll cfg)

abbrev pub not_positive : Int64 → Bool
not_positive n = eqb n 0 || negative n

-- RATE_LIMIT: a value that is no positive number is only logged.
abbrev pub over_rate_limit : Env → Option String → Int64 → Int64
over_rate_limit env none v = v
over_rate_limit env (some t) v = elim (env.atoi t) [
  | none ↦ v
  | some n ↦ if not_positive n then v else n
]

abbrev pub at_least_one : Int64 → Int64
at_least_one n = if not_positive n then 1 else n

abbrev pub with_scheme : String → String
with_scheme address =
    if not (starts_with address "http://") && not (starts_with address "https://")
    then String.◌++◌ "http://" address
    else address

abbrev pub with_variables : Env → Duration → Duration → AgentConfig → AgentConfig
with_variables env report poll cfg = record cfg {
  server_address = with_scheme (over_env (env.lookup_env "ADDRESS") cfg.server_address);
  report_interval = report;
  poll_interval = poll;
  key = over_env (env.lookup_env "KEY") cfg.key;
  crypto_key = over_env (env.lookup_env "CRYPTO_KEY") cfg.crypto_key;
  grpc_address = over_env (env.lookup_env "GRPC_ADDRESS") cfg.grpc_address;
  rate_limit = at_least_one (over_rate_limit env (env.lookup_env "RATE_LIMIT") cfg.rate_limit);
}

unfoldable pub over_environment : Env → AgentConfig → Result AgentConfig
over_environment env cfg = do
  report ← over_number env.atoi seconds (env.lookup_env "REPORT_INTERVAL") cfg.report_interval
  poll ← over_number env.atoi seconds (env.lookup_env "POLL_INTERVAL") cfg.poll_interval
  ok (with_variables env report poll cfg)

module _ (unmarshal : Bytes → Option AgentJsonConfig) (env : Env) (fl : AgentFlags) where
  unfoldable pub of_file : Option Bytes → AgentConfig → Result AgentConfig
  unfolding over_json
  of_file none cfg = err (failure "reading config file")
  of_file (some b) cfg = elim (unmarshal b) [
    | none ↦ err (failure "parsing config file")
    | some jc ↦ over_json env fl jc cfg
  ]

  unfoldable pub over_config_file : AgentConfig → Result AgentConfig
  unfolding of_file
  over_config_file cfg =
      if config_path env fl.config == ""
      then ok cfg
      else of_file (env.read_file (config_path env fl.config)) cfg

  unfoldable pub new_agent_config : Result AgentConfig
  unfolding of_flags over_config_file over_environment
  new_agent_config = do cfg ← over_config_file (of_flags fl); over_environment env cfg
