-- ===== src/Config/Tests.antt =====
-- An environment and flags on which both configurations are built.
use go_metrics_stas.Prelude.{
  String, ◌≡◌, refl, Option, none, some, false, ◌==◌, if◌then◌else◌, starts_with, [], ◌∷◌,
}
use go_metrics_stas.Http.{Bytes}
use go_metrics_stas.Outcome.{ok}
use go_metrics_stas.Outcome.Results.{◌>>=◌}
use go_metrics_stas.Config.{Env}
use go_metrics_stas.Config.Server.{ServerJsonConfig, ServerFlags, ServerConfig, new_server_config}
use go_metrics_stas.Config.Server.Laws.{Prioritised, new_server_config_priority}
use go_metrics_stas.Config.Agent
use go_metrics_stas.Config.Agent.{AgentJsonConfig, AgentFlags, AgentConfig}
use go_metrics_stas.Config.Agent.Laws.{Arranged, new_agent_config_lem}

abbrev variables : String → Option String
variables name =
    if name == "ADDRESS"
    then some "metrics:9090"
    else if name == "CONFIG"
    then some "/etc/metrics.json"
    else none

abbrev host : Env
host = record {
  lookup_env = variables;
  read_file = λ path. if path == "/etc/metrics.json" then some (123 ∷ 125 ∷ []) else none;
  atoi = λ t. none;
  parse_bool = λ t. none;
  parse_duration = λ t. if t == "2s" then some 2000000000 else none;
  whole_seconds = λ d. 2;
}

abbrev server_flags : ServerFlags
server_flags = record {
  a = some "localhost:1";
  i = none;
  f = none;
  r = none;
  d = some "dsn";
  k = none;
  crypto_key = none;
  audit_file = none;
  audit_url = none;
  t = none;
  grpc = none;
  config = none;
}

abbrev server_file : Bytes → Option ServerJsonConfig
server_file b = some (record {
  address = "localhost:2";
  restore = some false;
  store_interval = "2s";
  store_file = "/tmp/metrics";
  database_dsn = "other";
  crypto_key = "";
  trusted_subnet = "10.0.0.0/8";
  grpc_address = "";
})

abbrev server_config : ServerConfig
server_config = record {
  listen_address = "metrics:9090";
  store_interval = 2000000000;
  file_storage_path = "/tmp/metrics";
  restore = false;
  database_dsn = "dsn";
  key = "";
  crypto_key = "";
  audit_file = "";
  audit_url = "";
  trusted_subnet = "10.0.0.0/8";
  grpc_address = "";
}

new_server_config-server_config : new_server_config server_file host server_flags ≡ ok server_config
unfolding new_server_config ◌>>=◌
new_server_config-server_config = refl

new_server_config_priority_example :
    Prioritised server_file host server_flags server_config
    × (starts_with "metrics:9090" "http://" ≡ false)
    × (starts_with "metrics:9090" "https://" ≡ false)
new_server_config_priority_example =
    new_server_config_priority server_file host server_flags server_config
      new_server_config-server_config

abbrev agent_flags : AgentFlags
agent_flags = record {
  a = none;
  r = none;
  p = some 3;
  k = some "secret";
  l = none;
  crypto_key = none;
  grpc = none;
  config = none;
}

abbrev agent_file : Bytes → Option AgentJsonConfig
agent_file b = some (record {
  address = "localhost:2";
  report_interval = "2s";
  poll_interval = "2s";
  crypto_key = "key.pem";
  grpc_address = "";
})

abbrev agent_config : AgentConfig
agent_config = record {
  poll_interval = 3000000000;
  report_interval = 2000000000;
  server_address = "http://metrics:9090";
  key = "secret";
  rate_limit = 1;
  crypto_key = "key.pem";
  grpc_address = "";
}

new_agent_config-agent_config : Agent.new_agent_config agent_file host agent_flags ≡ ok agent_config
unfolding Agent.new_agent_config ◌>>=◌
new_agent_config-agent_config = refl

new_agent_config_lem_example : Arranged agent_file host agent_flags agent_config
new_agent_config_lem_example =
    new_agent_config_lem agent_file host agent_flags agent_config new_agent_config-agent_config
