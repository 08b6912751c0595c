-- ===== src/Config.antt =====
-- internal/config: what the two programs read their settings from. The flags that the command line
-- sets, the environment, the files, and the parsers of the standard library are arguments.
pub mod Server
pub mod Agent
pub mod Priority
mod Tests
use go_metrics_stas.Prelude.{
  ℕ, ◌*◌, ◌%◌, ◌^◌, String, Option, none, some, Bool, true, false, not, ◌&&◌, ◌==◌, leb,
  if◌then◌else◌,
}
use go_metrics_stas.Http.{Bytes, text_or_empty}
use go_metrics_stas.Model.{Int64}
use go_metrics_stas.Outcome.{Result, ok, err, failure}

-- A `time.Duration` is an int64, in nanoseconds.
abbrev pub Duration : Type 0
Duration = Int64

-- `time.Duration(n) * time.Second`.
abbrev pub seconds : Int64 → Duration
seconds n = n * 1000000000 % 2 ^ 64

abbrev pub negative : Int64 → Bool
negative n = leb (2 ^ 63) n

-- What both configurations use of os, strconv and time. `whole_seconds d` is `int(d.Seconds())`.
pub record Env : Type 0 where
  pub lookup_env : String → Option String
  pub read_file : String → Option Bytes
  pub atoi : String → Option Int64
  pub parse_bool : String → Option Bool
  pub parse_duration : String → Option Duration
  pub whole_seconds : Duration → Int64

abbrev pub get_or {ℓ} : {A : Type ℓ} → Option A → A → A
get_or none a = a
get_or (some b) a = b

-- `-c` or `-config` if it is not empty, else the variable CONFIG.
abbrev pub config_path : Env → Option String → String
config_path env flag =
    if get_or flag "" == "" then text_or_empty (env.lookup_env "CONFIG") else get_or flag ""

-- `if jc.X != "" && !setFlags["x"] { cfg.X = jc.X }`
abbrev pub over_text : String → Option String → String → String
over_text json none v = if not (json == "") then json else v
over_text json (some flag) v = v

-- `if v, ok := os.LookupEnv("X"); ok { cfg.X = v }`
abbrev pub over_env : Option String → String → String
over_env none v = v
over_env (some x) v = x

-- The same for a number; it must parse.
abbrev pub over_number :
    (String → Option Int64) → (Int64 → Int64) → Option String → Int64 → Result Int64
over_number parse unit none v = ok v
over_number parse unit (some t) v = elim (parse t) [
  | none ↦ err (failure "invalid number")
  | some n ↦ ok (unit n)
]

-- A duration of the file, if it is there and no flag is set.
abbrev pub over_duration :
    (String → Option Duration) → (Duration → Int64) → String → Option Int64 → Int64 → Result Int64
over_duration parse unit json (some flag) v = ok v
over_duration parse unit json none v =
    if json == ""
    then ok v
    else elim (parse json) [ none ↦ err (failure "invalid duration") | some d ↦ ok (unit d) ]
