-- ===== src/Config/Server.antt =====
-- internal/config/server.go: `NewServerConfig`.
pub mod OfFile
pub mod OfEnvironment
pub mod Laws
use go_metrics_stas.Prelude.{
  ℕ, String, Option, none, some, Bool, true, false, not, ◌||◌, ◌==◌, if◌then◌else◌, starts_with,
}
use go_metrics_stas.Http.{Bytes}
use go_metrics_stas.Model.{Int64}
use go_metrics_stas.Outcome.{Result, ok, err, failure}
use go_metrics_stas.Outcome.Results.{◌>>=◌}
use go_metrics_stas.Config.{
  Env, Duration, seconds, negative, get_or, config_path, over_text, over_env, over_number,
  over_duration,
}

pub record ServerJsonConfig : Type 0 where
  pub address : String
  pub restore : Option Bool
  pub store_interval : String
  pub store_file : String
  pub database_dsn : String
  pub crypto_key : String
  pub trusted_subnet : String
  pub grpc_address : String

-- The flags that the command line sets.
pub record ServerFlags : Type 0 where
  pub a : Option String
  pub i : Option Int64
  pub f : Option String
  pub r : Option Bool
  pub d : Option String
  pub k : Option String
  pub crypto_key : Option String
  pub audit_file : Option String
  pub audit_url : Option String
  pub t : Option String
  pub grpc : Option String
  pub config : Option String

-- While it is built, `store_interval` counts seconds.
pub record ServerConfig : Type 0 where
  pub listen_address : String
  pub store_interval : Int64
  pub file_storage_path : String
  pub restore : Bool
  pub database_dsn : String
  pub key : String
  pub crypto_key : String
  pub audit_file : String
  pub audit_url : String
  pub trusted_subnet : String
  pub grpc_address : String

-- The configuration of the flags alone, with their defaults.
unfoldable pub of_flags : ServerFlags → ServerConfig
of_flags fl = record {
  listen_address = get_or fl.a "localhost:8080";
  store_interval = get_or fl.i 300;
  file_storage_path = get_or fl.f "";
  restore = get_or fl.r true;
  database_dsn = get_or fl.d "";
  key = get_or fl.k "";
  crypto_key = get_or fl.crypto_key "";
  audit_file = get_or fl.audit_file "";
  audit_url = get_or fl.audit_url "";
  trusted_subnet = get_or fl.t "";
  grpc_address = get_or fl.grpc "";
}

abbrev pub over_bool : Option Bool → Option Bool → Bool → Bool
over_bool json (some flag) v = v
over_bool json none v = get_or json v

-- The fields of the file, where they are set and the flag is not.
abbrev pub overlaid : ServerFlags → ServerJsonConfig → Int64 → ServerConfig → ServerConfig
overlaid fl jc interval cfg = record cfg {
  listen_address = over_text jc.address fl.a cfg.listen_address;
  restore = over_bool jc.restore fl.r cfg.restore;
  store_interval = interval;
  file_storage_path = over_text jc.store_file fl.f cfg.file_storage_path;
  database_dsn = over_text jc.database_dsn fl.d cfg.database_dsn;
  crypto_key = over_text jc.crypto_key fl.crypto_key cfg.crypto_key;
  trusted_subnet = over_text jc.trusted_subnet fl.t cfg.trusted_subnet;
  grpc_address = over_text jc.grpc_address fl.grpc cfg.grpc_address;
}

unfoldable pub over_json : Env → ServerFlags → ServerJsonConfig → ServerConfig → Result ServerConfig
over_json env fl jc cfg = do
  interval ←
      over_duration env.parse_duration env.whole_seconds jc.store_interval fl.i cfg.store_interval
  ok (overlaid fl jc interval cfg)

-- A variable that may be set, but not to the empty text.
abbrev pub over_nonempty : Option String → String → Result String
over_nonempty none v = ok v
over_nonempty (some x) v = if x == "" then err (failure "set but empty") else ok x

abbrev pub over_env_bool : (String → Option Bool) → Option String → Bool → Result Bool
over_env_bool parse none v = ok v
over_env_bool parse (some x) v =
    if x == ""
    then err (failure "set but empty")
    else elim (parse x) [ none ↦ err (failure "invalid RESTORE") | some b ↦ ok b ]

-- `strconv.Atoi` of a number that must not be negative.
abbrev pub natural : Env → String → Option Int64
natural env t = elim (env.atoi t) [ none ↦ none | some n ↦ if negative n then none else some n ]

-- The variables that need no check, beside those that passed theirs.
abbrev pub with_variables : Env → String → Int64 → String → Bool → ServerConfig → ServerConfig
with_variables env address interval path restore cfg = record cfg {
  listen_address = address;
  store_interval = seconds interval;
  file_storage_path = path;
  restore = restore;
  database_dsn = over_env (env.lookup_env "DATABASE_DSN") cfg.database_dsn;
  key = over_env (env.lookup_env "KEY") cfg.key;
  audit_file = over_env (env.lookup_env "AUDIT_FILE") cfg.audit_file;
  audit_url = over_env (env.lookup_env "AUDIT_URL") cfg.audit_url;
  crypto_key = over_env (env.lookup_env "CRYPTO_KEY") cfg.crypto_key;
  trusted_subnet = over_env (env.lookup_env "TRUSTED_SUBNET") cfg.trusted_subnet;
  grpc_address = over_env (env.lookup_env "GRPC_ADDRESS") cfg.grpc_address;
}

unfoldable pub over_environment : Env → ServerConfig → Result ServerConfig
over_environment env cfg = do
  address ← over_nonempty (env.lookup_env "ADDRESS") cfg.listen_address
  interval ← over_number (natural env) (λ n. n) (env.lookup_env "STORE_INTERVAL") cfg.store_interval
  path ← over_nonempty (env.lookup_env "FILE_STORAGE_PATH") cfg.file_storage_path
  restore ← over_env_bool env.parse_bool (env.lookup_env "RESTORE") cfg.restore
  ok (with_variables env address interval path restore cfg)

unfoldable pub checked : ServerConfig → Result ServerConfig
checked cfg =
    if starts_with cfg.listen_address "http://" || starts_with cfg.listen_address "https://"
    then err (failure "invalid value for LISTEN_ADDRESS URL")
    else ok cfg

module _ (unmarshal : Bytes → Option ServerJsonConfig) (env : Env) (fl : ServerFlags) where
  unfoldable pub of_file : Option Bytes → ServerConfig → Result ServerConfig
  unfolding over_json
  of_file none cfg = err (failure "reading config file")
  of_file (some b) cfg = elim (unmarshal b) [
    | none ↦ err (failure "parsing config file")
    | some jc ↦ over_json env fl jc cfg
  ]

  unfoldable pub over_config_file : ServerConfig → Result ServerConfig
  unfolding of_file
  over_config_file cfg =
      if config_path env fl.config == ""
      then ok cfg
      else of_file (env.read_file (config_path env fl.config)) cfg

  unfoldable pub new_server_config : Result ServerConfig
  unfolding of_flags over_config_file over_environment checked
  new_server_config = do
    cfg ← over_config_file (of_flags fl)
    cfg' ← over_environment env cfg
    checked cfg'
