-- ===== src/Config/Agent/OfFile.antt =====
-- What the configuration of an agent is after the flags and the file.
use mathlib.Core.Path.{subst, fun_ext}
use go_metrics_stas.Prelude.{
  String, ◌≡◌, refl, Option, none, some, ◌==◌, arith, Bool-cases, Option-cases, inl, inr,
}
use go_metrics_stas.Http.{Bytes}
use go_metrics_stas.Model.{Int64}
use go_metrics_stas.Outcome.{ok}
use go_metrics_stas.Outcome.Results.{bind-eq-ok}
use go_metrics_stas.Config.{Env, Duration, seconds, get_or, config_path, over_duration}
use go_metrics_stas.Config.Priority.{
  json_text, mapped, FromFlag, over_duration-FromFlag, over_text-eq-get_or, config_file, decoded,
}
use go_metrics_stas.Config.Agent.{
  AgentJsonConfig, AgentFlags, AgentConfig, of_flags, overlaid, over_json, of_file,
  over_config_file,
}

-- The settings of a configuration, as a flag, a field of the file and a default give them.
pub record Read (env : Env) (jc : Option AgentJsonConfig) (fl : AgentFlags) (cfg : AgentConfig)
    : Type 0 where
  pub address :
      cfg.server_address
      ≡ get_or fl.a (get_or (json_text (λ (c : AgentJsonConfig). c.address) jc) "localhost:8080")
  pub crypto :
      cfg.crypto_key
      ≡ get_or fl.crypto_key (get_or (json_text (λ (c : AgentJsonConfig). c.crypto_key) jc) "")
  pub grpc :
      cfg.grpc_address
      ≡ get_or fl.grpc (get_or (json_text (λ (c : AgentJsonConfig). c.grpc_address) jc) "")
  pub key : cfg.key ≡ get_or fl.k ""
  pub report :
      FromFlag env.parse_duration
        (mapped seconds fl.r)
        (json_text (λ (c : AgentJsonConfig). c.report_interval) jc)
        (seconds 10)
        cfg.report_interval
  pub poll :
      FromFlag env.parse_duration
        (mapped seconds fl.p)
        (json_text (λ (c : AgentJsonConfig). c.poll_interval) jc)
        (seconds 2)
        cfg.poll_interval
  pub rate : cfg.rate_limit ≡ get_or fl.l 0

no_file :
    (parse : String → Option Duration) (flag : Option Int64) (default : Int64)
    → FromFlag parse (mapped seconds flag) none (seconds default) (seconds (get_or flag default))
no_file parse none default = refl
no_file parse (some v) default = refl

Read-of_flags : (env : Env) (fl : AgentFlags) → Read env none fl (of_flags fl)
unfolding of_flags
Read-of_flags env fl = record {
  address = refl;
  crypto = refl;
  grpc = refl;
  key = refl;
  report = no_file env.parse_duration fl.r 10;
  poll = no_file env.parse_duration fl.p 2;
  rate = refl;
}

mapped-id : (o : Option Int64) → mapped (λ n. n) o ≡ o
mapped-id none = refl
mapped-id (some n) = refl

-- An interval of the file, where no flag overrides it.
interval-FromFlag :
    (env : Env) (field : AgentJsonConfig → String) (jc : AgentJsonConfig) (flag : Option Int64)
    (default : Int64) (x : Duration)
    → over_duration env.parse_duration (λ d. d) (field jc) flag (seconds (get_or flag default))
      ≡ ok x
    → FromFlag env.parse_duration
        (mapped seconds flag)
        (json_text field (some jc))
        (seconds default)
        x
interval-FromFlag env field jc flag default x h =
    subst
      (λ parse.
        FromFlag parse (mapped seconds flag) (json_text field (some jc)) (seconds default) x)
      (fun_ext (λ t. mapped-id (env.parse_duration t)))
      (over_duration-FromFlag env.parse_duration (λ d. d) seconds field jc flag default x h)

Read-overlaid :
    (env : Env) (fl : AgentFlags) (jc : AgentJsonConfig) (report poll : Duration)
    → over_duration env.parse_duration (λ d. d) jc.report_interval fl.r (seconds (get_or fl.r 10))
      ≡ ok report
    → over_duration env.parse_duration (λ d. d) jc.poll_interval fl.p (seconds (get_or fl.p 2))
      ≡ ok poll
    → Read env (some jc) fl (overlaid fl jc report poll (of_flags fl))
unfolding of_flags
Read-overlaid env fl jc report poll p q = record {
  address = over_text-eq-get_or (λ (c : AgentJsonConfig). c.address) jc fl.a "localhost:8080";
  crypto = over_text-eq-get_or (λ (c : AgentJsonConfig). c.crypto_key) jc fl.crypto_key "";
  grpc = over_text-eq-get_or (λ (c : AgentJsonConfig). c.grpc_address) jc fl.grpc "";
  key = refl;
  report = interval-FromFlag env (λ (c : AgentJsonConfig). c.report_interval) jc fl.r 10 report p;
  poll = interval-FromFlag env (λ (c : AgentJsonConfig). c.poll_interval) jc fl.p 2 poll q;
  rate = refl;
}

over_json-Read :
    (env : Env) (fl : AgentFlags) (jc : AgentJsonConfig) (cfg : AgentConfig)
    → over_json env fl jc (of_flags fl) ≡ ok cfg
    → Read env (some jc) fl cfg
unfolding over_json of_flags
over_json-Read env fl jc cfg h =
    let (report, p, h1) = bind-eq-ok _ _ cfg h in
    let (poll, q, h2) = bind-eq-ok _ _ cfg h1 in
    let e : overlaid fl jc report poll (of_flags fl) ≡ cfg = cc in
    subst (λ c. Read env (some jc) fl c) e (Read-overlaid env fl jc report poll p q)

module _ (unmarshal : Bytes → Option AgentJsonConfig) (env : Env) (fl : AgentFlags) where
  of_file-Read :
      (o : Option Bytes) (cfg : AgentConfig)
      → of_file unmarshal env fl o (of_flags fl) ≡ ok cfg
      → Read env (decoded unmarshal o) fl cfg
  unfolding of_file
  of_file-Read none cfg h = absurd (cc)
  of_file-Read (some b) cfg h = elim (Option-cases (unmarshal b)) [
    | inl e ↦ absurd (ground arith)
    | inr (jc, e) ↦ rw e (over_json-Read env fl jc cfg (ground arith))
  ]

  pub over_config_file-Read :
      (cfg : AgentConfig)
      → over_config_file unmarshal env fl (of_flags fl) ≡ ok cfg
      → Read env (config_file unmarshal env fl.config) fl cfg
  unfolding over_config_file
  over_config_file-Read cfg h = elim (Bool-cases (config_path env fl.config == "")) [
    | inl e ↦
        let same : of_flags fl ≡ cfg = ground arith in
        rw e (subst (λ c. Read env none fl c) same (Read-of_flags env fl))
    | inr e ↦ rw e (of_file-Read (env.read_file (config_path env fl.config)) cfg (ground arith))
  ]
