-- ===== src/Config/Server/Laws.antt =====
-- The priority of the sources of a server's settings.
use mathlib.Core.Path.{subst}
use go_metrics_stas.Model.{Int64}
use go_metrics_stas.Prelude.{
  ◌≡◌, sym, ap, ◌∙◌, Option, none, true, false, starts_with, arith, Bool-cases, inl, inr,
}
use go_metrics_stas.Http.{Bytes}
use go_metrics_stas.Outcome.{ok}
use go_metrics_stas.Outcome.Results.{bind-eq-ok}
use go_metrics_stas.Config.{Env, seconds, get_or}
use go_metrics_stas.Config.Priority.{json_text, setting, mapped, FromFlag, Parsed, config_file}
use go_metrics_stas.Config.Server.{
  ServerJsonConfig, ServerFlags, ServerConfig, checked, new_server_config,
}
use go_metrics_stas.Config.Server.OfFile.{Read, json_restore, over_config_file-Read}
use go_metrics_stas.Config.Server.OfEnvironment.{Settled, IntervalFrom, over_environment-Settled}

checked-eq-ok :
    (c cfg : ServerConfig)
    → checked c ≡ ok cfg
    → (c ≡ cfg)
      × (starts_with cfg.listen_address "http://" ≡ false)
      × (starts_with cfg.listen_address "https://" ≡ false)
unfolding checked
checked-eq-ok c cfg h = elim (Bool-cases (starts_with c.listen_address "http://")) [
  | inl a ↦ absurd (ground arith)
  | inr a ↦ elim (Bool-cases (starts_with c.listen_address "https://")) [
    | inl b ↦ absurd (ground arith)
    | inr b ↦
        let e : c ≡ cfg = ground arith in
        (
          e,
          ap (λ (x : ServerConfig). starts_with x.listen_address "http://") (sym e) ∙ a,
          ap (λ (x : ServerConfig). starts_with x.listen_address "https://") (sym e) ∙ b,
        )
  ]
]

module _ (unmarshal : Bytes → Option ServerJsonConfig) (env : Env) (fl : ServerFlags) where
  abbrev file : Option ServerJsonConfig
  file = config_file unmarshal env fl.config

  -- What holds of a configuration that is returned.
  abbrev pub Prioritised : ServerConfig → Type 0
  Prioritised cfg =
      (cfg.listen_address
        ≡ setting (env.lookup_env "ADDRESS") fl.a
            (json_text (λ (c : ServerJsonConfig). c.address) file) "localhost:8080")
      × (cfg.file_storage_path
          ≡ setting (env.lookup_env "FILE_STORAGE_PATH") fl.f
              (json_text (λ (c : ServerJsonConfig). c.store_file) file) "")
      × (cfg.database_dsn
          ≡ setting (env.lookup_env "DATABASE_DSN") fl.d
              (json_text (λ (c : ServerJsonConfig). c.database_dsn) file) "")
      × (cfg.crypto_key
          ≡ setting (env.lookup_env "CRYPTO_KEY") fl.crypto_key
              (json_text (λ (c : ServerJsonConfig). c.crypto_key) file) "")
      × (cfg.trusted_subnet
          ≡ setting (env.lookup_env "TRUSTED_SUBNET") fl.t
              (json_text (λ (c : ServerJsonConfig). c.trusted_subnet) file) "")
      × (cfg.grpc_address
          ≡ setting (env.lookup_env "GRPC_ADDRESS") fl.grpc
              (json_text (λ (c : ServerJsonConfig). c.grpc_address) file) "")
      × (cfg.key ≡ setting (env.lookup_env "KEY") fl.k none "")
      × (cfg.audit_file ≡ setting (env.lookup_env "AUDIT_FILE") fl.audit_file none "")
      × (cfg.audit_url ≡ setting (env.lookup_env "AUDIT_URL") fl.audit_url none "")
      × Parsed env.parse_bool (env.lookup_env "RESTORE")
          (get_or fl.r (get_or (json_restore file) true)) cfg.restore
      × ((n : Int64) × ((m : Int64) × FromFlag
              (λ t. mapped env.whole_seconds (env.parse_duration t)) fl.i
              (json_text (λ (c : ServerJsonConfig). c.store_interval) file) 300 n
            × IntervalFrom env (env.lookup_env "STORE_INTERVAL") n m
            × (cfg.store_interval ≡ seconds m)))

  settled : (c1 c2 : ServerConfig) → Read env file fl c1 → Settled env c1 c2 → Prioritised c2
  settled c1 c2 r s = (
    s.address ∙ ap (get_or (env.lookup_env "ADDRESS")) r.address,
    s.path ∙ ap (get_or (env.lookup_env "FILE_STORAGE_PATH")) r.path,
    s.dsn ∙ ap (get_or (env.lookup_env "DATABASE_DSN")) r.dsn,
    s.crypto ∙ ap (get_or (env.lookup_env "CRYPTO_KEY")) r.crypto,
    s.subnet ∙ ap (get_or (env.lookup_env "TRUSTED_SUBNET")) r.subnet,
    s.grpc ∙ ap (get_or (env.lookup_env "GRPC_ADDRESS")) r.grpc,
    s.key ∙ ap (get_or (env.lookup_env "KEY")) r.key,
    s.audit_file ∙ ap (get_or (env.lookup_env "AUDIT_FILE")) r.audit_file,
    s.audit_url ∙ ap (get_or (env.lookup_env "AUDIT_URL")) r.audit_url,
    subst (λ v. Parsed env.parse_bool (env.lookup_env "RESTORE") v c2.restore) r.restore s.restore,
    (c1.store_interval, (s.interval.0, r.interval, s.interval.1, s.interval.2)),
  )

  -- Each setting of a server's configuration that is returned without an error comes from its variable
  -- of the environment if that is set, else from its flag if that is given, else from the field of the
  -- configuration file if there is one and it is not empty, else from the default. RESTORE and
  -- STORE_INTERVAL must parse where they are set, and so must the interval of the file where no flag
  -- overrides it; an interval of the environment is not negative. The listen address has no scheme.
  pub new_server_config_priority :
      (cfg : ServerConfig)
      → new_server_config unmarshal env fl ≡ ok cfg
      → Prioritised cfg
        × (starts_with cfg.listen_address "http://" ≡ false)
        × (starts_with cfg.listen_address "https://" ≡ false)
  unfolding new_server_config
  new_server_config_priority cfg h =
      let (c1, p, h1) = bind-eq-ok _ _ cfg h in
      let (c2, q, h2) = bind-eq-ok _ _ cfg h1 in
      let (e, a, b) = checked-eq-ok c2 cfg h2 in
      (
        subst Prioritised e (
            settled c1 c2 (over_config_file-Read unmarshal env fl c1 p)
              (over_environment-Settled env c1 c2 q)),
        a,
        b,
      )
