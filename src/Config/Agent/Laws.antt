-- ===== src/Config/Agent/Laws.antt =====
-- The priority of the sources of an agent's settings, and what every configuration keeps.
use go_metrics_stas.Prelude.{◌≡◌, ap, ◌∙◌, Option, none, false}
use go_metrics_stas.Http.{Bytes}
use go_metrics_stas.Outcome.{ok}
use go_metrics_stas.Outcome.Results.{bind-eq-ok}
use go_metrics_stas.Config.{Env, Duration, seconds, get_or}
use go_metrics_stas.Config.Priority.{json_text, setting, mapped, FromFlag, Parsed, config_file}
use go_metrics_stas.Config.Agent.{
  AgentJsonConfig, AgentFlags, AgentConfig, new_agent_config, with_scheme, at_least_one,
  over_rate_limit, not_positive,
}
use go_metrics_stas.Config.Agent.OfFile.{over_config_file-Read}
use go_metrics_stas.Config.Agent.OfEnvironment.{
  HasScheme, positive, number_of, at_least_one-over_rate_limit, over_environment-Settled,
}

module _ (unmarshal : Bytes → Option AgentJsonConfig) (env : Env) (fl : AgentFlags) where
  abbrev file : Option AgentJsonConfig
  file = config_file unmarshal env fl.config

  -- What holds of a configuration that is returned.
  abbrev pub Arranged : AgentConfig → Type 0
  Arranged cfg =
      (not_positive cfg.rate_limit ≡ false)
      × HasScheme cfg.server_address
      × (cfg.server_address
          ≡ with_scheme (
              setting (env.lookup_env "ADDRESS") fl.a
                (json_text (λ (c : AgentJsonConfig). c.address) file) "localhost:8080"))
      × (cfg.rate_limit
          ≡ get_or (positive (number_of env (env.lookup_env "RATE_LIMIT")))
              (get_or (positive fl.l) 1))
      × ((d : Duration) × FromFlag env.parse_duration (mapped seconds fl.r)
            (json_text (λ (c : AgentJsonConfig). c.report_interval) file) (seconds 10) d
          × Parsed (λ t. mapped seconds (env.atoi t)) (env.lookup_env "REPORT_INTERVAL") d
              cfg.report_interval)
      × ((d : Duration) × FromFlag env.parse_duration (mapped seconds fl.p)
            (json_text (λ (c : AgentJsonConfig). c.poll_interval) file) (seconds 2) d
          × Parsed (λ t. mapped seconds (env.atoi t)) (env.lookup_env "POLL_INTERVAL") d
              cfg.poll_interval)
      × (cfg.key ≡ setting (env.lookup_env "KEY") fl.k none "")
      × (cfg.crypto_key
          ≡ setting (env.lookup_env "CRYPTO_KEY") fl.crypto_key
              (json_text (λ (c : AgentJsonConfig). c.crypto_key) file) "")
      × (cfg.grpc_address
          ≡ setting (env.lookup_env "GRPC_ADDRESS") fl.grpc
              (json_text (λ (c : AgentJsonConfig). c.grpc_address) file) "")

  -- An agent's configuration that is returned without an error has a rate limit above 0 and a server
  -- address with a scheme. Its texts and its two intervals come from the environment, else from a flag,
  -- else from a field of the configuration file that is not empty, else from the default; a flag and a
  -- variable give an interval in seconds, and a text that gives one must parse. The rate limit is the
  -- variable RATE_LIMIT if that is a number above 0, else the flag if it is above 0, else 1. An address
  -- that names no scheme is given http.
  pub new_agent_config_lem :
      (cfg : AgentConfig) → new_agent_config unmarshal env fl ≡ ok cfg → Arranged cfg
  unfolding new_agent_config
  new_agent_config_lem cfg h =
      let (c1, p, h1) = bind-eq-ok _ _ cfg h in
      let r = over_config_file-Read unmarshal env fl c1 p in
      let s = over_environment-Settled env c1 cfg h1 in
      (
        s.above_0,
        s.has_scheme,
        s.address ∙ ap (λ a. with_scheme (get_or (env.lookup_env "ADDRESS") a)) r.address,
        s.rate
            ∙ ap (λ n. at_least_one (over_rate_limit env (env.lookup_env "RATE_LIMIT") n)) r.rate
            ∙ at_least_one-over_rate_limit env (env.lookup_env "RATE_LIMIT") fl.l,
        (c1.report_interval, r.report, s.report),
        (c1.poll_interval, r.poll, s.poll),
        s.key ∙ ap (get_or (env.lookup_env "KEY")) r.key,
        s.crypto ∙ ap (get_or (env.lookup_env "CRYPTO_KEY")) r.crypto,
        s.grpc ∙ ap (get_or (env.lookup_env "GRPC_ADDRESS")) r.grpc,
      )
