-- ===== src/Config/Server/OfFile.antt =====
-- What the configuration of a server is after the flags and the file.
use mathlib.Core.Path.{subst}
use go_metrics_stas.Model.{Int64}
use go_metrics_stas.Prelude.{
  String, ◌≡◌, refl, Option, none, some, Bool, true, ◌==◌, arith, Bool-cases, Option-cases, inl,
  inr,
}
use go_metrics_stas.Http.{Bytes}
use go_metrics_stas.Outcome.{ok}
use go_metrics_stas.Outcome.Results.{bind-eq-ok}
use go_metrics_stas.Config.{Env, get_or, config_path, over_duration}
use go_metrics_stas.Config.Priority.{
  json_text, mapped, FromFlag, over_duration-FromFlag, over_text-eq-get_or, config_file, decoded,
}
use go_metrics_stas.Config.Server.{
  ServerJsonConfig, ServerFlags, ServerConfig, of_flags, over_json, of_file, over_config_file,
  overlaid, over_bool,
}

-- A field of the file that may be left out.
abbrev pub json_restore : Option ServerJsonConfig → Option Bool
json_restore none = none
json_restore (some jc) = jc.restore

-- The settings of a configuration, as a flag, a field of the file and a default give them; the interval
-- is in seconds.
pub record Read (env : Env) (jc : Option ServerJsonConfig) (fl : ServerFlags) (cfg : ServerConfig)
    : Type 0 where
  pub address :
      cfg.listen_address
      ≡ get_or fl.a (get_or (json_text (λ (c : ServerJsonConfig). c.address) jc) "localhost:8080")
  pub path :
      cfg.file_storage_path
      ≡ get_or fl.f (get_or (json_text (λ (c : ServerJsonConfig). c.store_file) jc) "")
  pub dsn :
      cfg.database_dsn
      ≡ get_or fl.d (get_or (json_text (λ (c : ServerJsonConfig). c.database_dsn) jc) "")
  pub crypto :
      cfg.crypto_key
      ≡ get_or fl.crypto_key (get_or (json_text (λ (c : ServerJsonConfig). c.crypto_key) jc) "")
  pub subnet :
      cfg.trusted_subnet
      ≡ get_or fl.t (get_or (json_text (λ (c : ServerJsonConfig). c.trusted_subnet) jc) "")
  pub grpc :
      cfg.grpc_address
      ≡ get_or fl.grpc (get_or (json_text (λ (c : ServerJsonConfig). c.grpc_address) jc) "")
  pub key : cfg.key ≡ get_or fl.k ""
  pub audit_file : cfg.audit_file ≡ get_or fl.audit_file ""
  pub audit_url : cfg.audit_url ≡ get_or fl.audit_url ""
  pub restore : cfg.restore ≡ get_or fl.r (get_or (json_restore jc) true)
  pub interval :
      FromFlag
        (λ t. mapped env.whole_seconds (env.parse_duration t))
        fl.i
        (json_text (λ (c : ServerJsonConfig). c.store_interval) jc)
        300
        cfg.store_interval

no_file :
    {A : Type 0} (parse : String → Option A) (flag : Option A) (default : A)
    → FromFlag parse flag none default (get_or flag default)
no_file parse none default = refl
no_file parse (some v) default = refl

mapped-id : (o : Option Int64) → mapped (λ n. n) o ≡ o
mapped-id none = refl
mapped-id (some n) = refl

over_bool-eq-get_or :
    (json flag : Option Bool) (default : Bool)
    → over_bool json flag (get_or flag default) ≡ get_or flag (get_or json default)
over_bool-eq-get_or json none default = refl
over_bool-eq-get_or json (some v) default = refl

Read-of_flags : (env : Env) (fl : ServerFlags) → Read env none fl (of_flags fl)
unfolding of_flags
Read-of_flags env fl = record {
  address = refl;
  path = refl;
  dsn = refl;
  crypto = refl;
  subnet = refl;
  grpc = refl;
  key = refl;
  audit_file = refl;
  audit_url = refl;
  restore = refl;
  interval = no_file (λ t. mapped env.whole_seconds (env.parse_duration t)) fl.i 300;
}

Read-overlaid :
    (env : Env) (fl : ServerFlags) (jc : ServerJsonConfig) (interval : Int64)
    → over_duration env.parse_duration env.whole_seconds jc.store_interval fl.i (get_or fl.i 300)
      ≡ ok interval
    → Read env (some jc) fl (overlaid fl jc interval (of_flags fl))
unfolding of_flags
Read-overlaid env fl jc interval p = record {
  address = over_text-eq-get_or (λ (c : ServerJsonConfig). c.address) jc fl.a "localhost:8080";
  path = over_text-eq-get_or (λ (c : ServerJsonConfig). c.store_file) jc fl.f "";
  dsn = over_text-eq-get_or (λ (c : ServerJsonConfig). c.database_dsn) jc fl.d "";
  crypto = over_text-eq-get_or (λ (c : ServerJsonConfig). c.crypto_key) jc fl.crypto_key "";
  subnet = over_text-eq-get_or (λ (c : ServerJsonConfig). c.trusted_subnet) jc fl.t "";
  grpc = over_text-eq-get_or (λ (c : ServerJsonConfig). c.grpc_address) jc fl.grpc "";
  key = refl;
  audit_file = refl;
  audit_url = refl;
  restore = over_bool-eq-get_or jc.restore fl.r true;
  interval =
      subst
        (λ flag.
          FromFlag (λ t. mapped env.whole_seconds (env.parse_duration t)) flag
            (json_text (λ (c : ServerJsonConfig). c.store_interval) (some jc)) 300 interval)
        (mapped-id fl.i)
        (over_duration-FromFlag env.parse_duration env.whole_seconds (λ n. n)
          (λ (c : ServerJsonConfig). c.store_interval) jc fl.i 300 interval p);
}

over_json-Read :
    (env : Env) (fl : ServerFlags) (jc : ServerJsonConfig) (cfg : ServerConfig)
    → over_json env fl jc (of_flags fl) ≡ ok cfg
    → Read env (some jc) fl cfg
unfolding over_json of_flags
over_json-Read env fl jc cfg h =
    let (interval, p, q) = bind-eq-ok _ _ cfg h in
    let e : overlaid fl jc interval (of_flags fl) ≡ cfg = cc in
    subst (λ c. Read env (some jc) fl c) e (Read-overlaid env fl jc interval p)

module _ (unmarshal : Bytes → Option ServerJsonConfig) (env : Env) (fl : ServerFlags) where
  of_file-Read :
      (o : Option Bytes) (cfg : ServerConfig)
      → of_file unmarshal env fl o (of_flags fl) ≡ ok cfg
      → Read env (decoded unmarshal o) fl cfg
  unfolding of_file
  of_file-Read none cfg h = absurd (cc)
  of_file-Read (some b) cfg h = elim (Option-cases (unmarshal b)) [
    | inl e ↦ absurd (ground arith)
    | inr (jc, e) ↦ rw e (over_json-Read env fl jc cfg (ground arith))
  ]

  pub over_config_file-Read :
      (cfg : ServerConfig)
      → over_config_file unmarshal env fl (of_flags fl) ≡ ok cfg
      → Read env (config_file unmarshal env fl.config) fl cfg
  unfolding over_config_file
  over_config_file-Read cfg h = elim (Bool-cases (config_path env fl.config == "")) [
    | inl e ↦
        let same : of_flags fl ≡ cfg = ground arith in
        rw e (subst (λ c. Read env none fl c) same (Read-of_flags env fl))
    | inr e ↦ rw e (of_file-Read (env.read_file (config_path env fl.config)) cfg (ground arith))
  ]
