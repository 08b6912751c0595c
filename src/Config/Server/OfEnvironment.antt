-- ===== src/Config/Server/OfEnvironment.antt =====
-- What the environment makes of the configuration of a server.
use mathlib.Core.Path.{subst}
use go_metrics_stas.Model.{Int64}
use go_metrics_stas.Prelude.{
  String, ◌≡◌, refl, Option, none, some, Bool, false, ◌==◌, arith, Bool-cases, Option-cases, inl,
  inr,
}
use go_metrics_stas.Outcome.{ok}
use go_metrics_stas.Outcome.Results.{bind-eq-ok}
use go_metrics_stas.Config.{Env, seconds, negative, get_or, over_number}
use go_metrics_stas.Config.Priority.{Parsed, over_env-eq-get_or}
use go_metrics_stas.Config.Server.{
  ServerConfig, over_environment, with_variables, over_nonempty, over_env_bool, natural,
}

over_nonempty-eq-get_or :
    (x : Option String) (v a : String) → over_nonempty x v ≡ ok a → a ≡ get_or x v
over_nonempty-eq-get_or none v a h = cc
over_nonempty-eq-get_or (some x) v a h = ground arith

over_env_bool-Parsed :
    (parse : String → Option Bool) (x : Option String) (v a : Bool)
    → over_env_bool parse x v ≡ ok a
    → Parsed parse x v a
over_env_bool-Parsed parse none v a h = cc
over_env_bool-Parsed parse (some t) v a h = elim (Bool-cases (t == "")) [
  | inl e ↦ absurd (ground arith)
  | inr e ↦ elim (Option-cases (parse t)) [
    | inl n ↦ absurd (ground arith)
    | inr (b, p) ↦ rw p (ground arith)
  ]
]

-- A number of the environment that is not negative, if its variable is set, else the number below.
abbrev pub IntervalFrom : Env → Option String → Int64 → Int64 → Type 0
IntervalFrom env none below n = n ≡ below
IntervalFrom env (some t) below n = (env.atoi t ≡ some n) × (negative n ≡ false)

over_number-IntervalFrom :
    (env : Env) (x : Option String) (below n : Int64)
    → over_number (natural env) (λ k. k) x below ≡ ok n
    → IntervalFrom env x below n
over_number-IntervalFrom env none below n h = cc
over_number-IntervalFrom env (some t) below n h = elim (Option-cases (env.atoi t)) [
  | inl e ↦ absurd (ground arith)
  | inr (k, e) ↦ elim (Bool-cases (negative k)) [
    | inl g ↦ absurd (ground arith)
    | inr g ↦
        let same : k ≡ n = ground arith in
        rw e (subst (λ x. (some k ≡ some x) × (negative x ≡ false)) same (refl, g))
  ]
]

-- The settings after the environment.
pub record Settled (env : Env) (cfg cfg' : ServerConfig) : Type 0 where
  pub address : cfg'.listen_address ≡ get_or (env.lookup_env "ADDRESS") cfg.listen_address
  pub path :
      cfg'.file_storage_path ≡ get_or (env.lookup_env "FILE_STORAGE_PATH") cfg.file_storage_path
  pub dsn : cfg'.database_dsn ≡ get_or (env.lookup_env "DATABASE_DSN") cfg.database_dsn
  pub key : cfg'.key ≡ get_or (env.lookup_env "KEY") cfg.key
  pub audit_file : cfg'.audit_file ≡ get_or (env.lookup_env "AUDIT_FILE") cfg.audit_file
  pub audit_url : cfg'.audit_url ≡ get_or (env.lookup_env "AUDIT_URL") cfg.audit_url
  pub crypto : cfg'.crypto_key ≡ get_or (env.lookup_env "CRYPTO_KEY") cfg.crypto_key
  pub subnet : cfg'.trusted_subnet ≡ get_or (env.lookup_env "TRUSTED_SUBNET") cfg.trusted_subnet
  pub grpc : cfg'.grpc_address ≡ get_or (env.lookup_env "GRPC_ADDRESS") cfg.grpc_address
  pub restore : Parsed env.parse_bool (env.lookup_env "RESTORE") cfg.restore cfg'.restore
  pub interval :
      (n : Int64) × IntervalFrom env (env.lookup_env "STORE_INTERVAL") cfg.store_interval n
      × (cfg'.store_interval ≡ seconds n)

Settled-with_variables :
    (env : Env) (cfg : ServerConfig) (address : String) (interval : Int64) (path : String)
    (restore : Bool)
    → over_nonempty (env.lookup_env "ADDRESS") cfg.listen_address ≡ ok address
    → over_nonempty (env.lookup_env "FILE_STORAGE_PATH") cfg.file_storage_path ≡ ok path
    → over_env_bool env.parse_bool (env.lookup_env "RESTORE") cfg.restore ≡ ok restore
    → over_number (natural env) (λ k. k) (env.lookup_env "STORE_INTERVAL") cfg.store_interval
      ≡ ok interval
    → Settled env cfg (with_variables env address interval path restore cfg)
Settled-with_variables env cfg address interval path restore p r s q = record {
  address = over_nonempty-eq-get_or (env.lookup_env "ADDRESS") cfg.listen_address address p;
  path = over_nonempty-eq-get_or (env.lookup_env "FILE_STORAGE_PATH") cfg.file_storage_path path r;
  dsn = over_env-eq-get_or (env.lookup_env "DATABASE_DSN") cfg.database_dsn;
  key = over_env-eq-get_or (env.lookup_env "KEY") cfg.key;
  audit_file = over_env-eq-get_or (env.lookup_env "AUDIT_FILE") cfg.audit_file;
  audit_url = over_env-eq-get_or (env.lookup_env "AUDIT_URL") cfg.audit_url;
  crypto = over_env-eq-get_or (env.lookup_env "CRYPTO_KEY") cfg.crypto_key;
  subnet = over_env-eq-get_or (env.lookup_env "TRUSTED_SUBNET") cfg.trusted_subnet;
  grpc = over_env-eq-get_or (env.lookup_env "GRPC_ADDRESS") cfg.grpc_address;
  restore = over_env_bool-Parsed env.parse_bool (env.lookup_env "RESTORE") cfg.restore restore s;
  interval = (
    interval,
    over_number-IntervalFrom env (env.lookup_env "STORE_INTERVAL") cfg.store_interval interval q,
    refl,
  );
}

pub over_environment-Settled :
    (env : Env) (cfg cfg' : ServerConfig)
    → over_environment env cfg ≡ ok cfg'
    → Settled env cfg cfg'
unfolding over_environment
over_environment-Settled env cfg cfg' h =
    let (address, p, h1) = bind-eq-ok _ _ cfg' h in
    let (interval, q, h2) = bind-eq-ok _ _ cfg' h1 in
    let (path, r, h3) = bind-eq-ok _ _ cfg' h2 in
    let (restore, s, h4) = bind-eq-ok _ _ cfg' h3 in
    let e : with_variables env address interval path restore cfg ≡ cfg' = cc in
    subst (λ c. Settled env cfg c) e
      (Settled-with_variables env cfg address interval path restore p r s q)
