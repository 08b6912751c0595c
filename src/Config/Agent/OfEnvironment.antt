-- ===== src/Config/Agent/OfEnvironment.antt =====
-- What the environment makes of the configuration of an agent.
use mathlib.Core.Path.{subst}
use go_metrics_stas.Prelude.{
  String, ◌≡◌, ◌⊎◌, refl, ap, Option, none, some, if◌then◌else◌, true, false, starts_with, arith,
  Bool-cases, Option-cases, inl, inr,
}
use text.Mathlib.TextPositions.{starts_with-append}
use go_metrics_stas.Model.{Int64}
use go_metrics_stas.Outcome.{ok}
use go_metrics_stas.Outcome.Results.{bind-eq-ok}
use go_metrics_stas.Config.{Env, Duration, seconds, get_or, over_env, over_number}
use go_metrics_stas.Config.Priority.{mapped, Parsed, over_number-Parsed, over_env-eq-get_or}
use go_metrics_stas.Config.Agent.{
  AgentConfig, with_variables, over_environment, with_scheme, at_least_one, over_rate_limit,
  not_positive,
}

-- An address that names its scheme.
abbrev pub HasScheme : String → Type 0
HasScheme address = (starts_with address "http://" ≡ true) ⊎ (starts_with address "https://" ≡ true)

with_scheme-HasScheme : (address : String) → HasScheme (with_scheme address)
with_scheme-HasScheme address = elim (Bool-cases (starts_with address "http://")) [
  | inl a ↦ rw a (inl a)
  | inr a ↦ elim (Bool-cases (starts_with address "https://")) [
    | inl b ↦ rw (a, b) (inr b)
    | inr b ↦ rw (a, b) (inl (starts_with-append "http://" address))
  ]
]

-- A number above 0.
abbrev pub positive : Option Int64 → Option Int64
positive none = none
positive (some n) = if not_positive n then none else some n

-- The number of a variable that is set.
abbrev pub number_of : Env → Option String → Option Int64
number_of env none = none
number_of env (some t) = env.atoi t

at_least_one-flag : (flag : Option Int64) → at_least_one (get_or flag 0) ≡ get_or (positive flag) 1
at_least_one-flag none = refl
at_least_one-flag (some v) = ground arith

-- The rate limit: the number of the variable if it is above 0, else that of the flag, else 1.
pub at_least_one-over_rate_limit :
    (env : Env) (x : Option String) (flag : Option Int64)
    → at_least_one (over_rate_limit env x (get_or flag 0))
      ≡ get_or (positive (number_of env x)) (get_or (positive flag) 1)
at_least_one-over_rate_limit env none flag = at_least_one-flag flag
at_least_one-over_rate_limit env (some t) flag = elim (Option-cases (env.atoi t)) [
  | inl e ↦ ground (arith, at_least_one-flag flag)
  | inr (n, e) ↦ elim (Bool-cases (not_positive n)) [
    | inl g ↦ ground (arith, at_least_one-flag flag)
    | inr g ↦ ground arith
  ]
]

at_least_one_positive : (n : Int64) → not_positive (at_least_one n) ≡ false
at_least_one_positive n = ground arith

-- What the environment makes of a configuration.
pub record Settled (env : Env) (cfg cfg' : AgentConfig) : Type 0 where
  pub address :
      cfg'.server_address ≡ with_scheme (get_or (env.lookup_env "ADDRESS") cfg.server_address)
  pub key : cfg'.key ≡ get_or (env.lookup_env "KEY") cfg.key
  pub crypto : cfg'.crypto_key ≡ get_or (env.lookup_env "CRYPTO_KEY") cfg.crypto_key
  pub grpc : cfg'.grpc_address ≡ get_or (env.lookup_env "GRPC_ADDRESS") cfg.grpc_address
  pub has_scheme : HasScheme cfg'.server_address
  pub above_0 : not_positive cfg'.rate_limit ≡ false
  pub rate :
      cfg'.rate_limit
      ≡ at_least_one (over_rate_limit env (env.lookup_env "RATE_LIMIT") cfg.rate_limit)
  pub report :
      Parsed
        (λ t. mapped seconds (env.atoi t))
        (env.lookup_env "REPORT_INTERVAL")
        cfg.report_interval
        cfg'.report_interval
  pub poll :
      Parsed
        (λ t. mapped seconds (env.atoi t))
        (env.lookup_env "POLL_INTERVAL")
        cfg.poll_interval
        cfg'.poll_interval

Settled-with_variables :
    (env : Env) (report poll : Duration) (cfg : AgentConfig)
    → over_number env.atoi seconds (env.lookup_env "REPORT_INTERVAL") cfg.report_interval
      ≡ ok report
    → over_number env.atoi seconds (env.lookup_env "POLL_INTERVAL") cfg.poll_interval ≡ ok poll
    → Settled env cfg (with_variables env report poll cfg)
Settled-with_variables env report poll cfg p q = record {
  address = ap with_scheme (over_env-eq-get_or (env.lookup_env "ADDRESS") cfg.server_address);
  key = over_env-eq-get_or (env.lookup_env "KEY") cfg.key;
  crypto = over_env-eq-get_or (env.lookup_env "CRYPTO_KEY") cfg.crypto_key;
  grpc = over_env-eq-get_or (env.lookup_env "GRPC_ADDRESS") cfg.grpc_address;
  has_scheme = with_scheme-HasScheme (over_env (env.lookup_env "ADDRESS") cfg.server_address);
  above_0 =
      at_least_one_positive (over_rate_limit env (env.lookup_env "RATE_LIMIT") cfg.rate_limit);
  rate = refl;
  report =
      over_number-Parsed env.atoi seconds (env.lookup_env "REPORT_INTERVAL") cfg.report_interval
        report p;
  poll =
      over_number-Parsed env.atoi seconds (env.lookup_env "POLL_INTERVAL") cfg.poll_interval poll q;
}

pub over_environment-Settled :
    (env : Env) (cfg cfg' : AgentConfig) → over_environment env cfg ≡ ok cfg' → Settled env cfg cfg'
unfolding over_environment
over_environment-Settled env cfg cfg' h =
    let (report, p, h1) = bind-eq-ok _ _ cfg' h in
    let (poll, q, h2) = bind-eq-ok _ _ cfg' h1 in
    let e : with_variables env report poll cfg ≡ cfg' = cc in
    subst (λ c. Settled env cfg c) e (Settled-with_variables env report poll cfg p q)
