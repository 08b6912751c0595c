-- ===== src/Config/Priority.antt =====
-- Where a setting comes from: the environment, else a flag, else the file, else the default.
use go_metrics_stas.Prelude.{
  String, ◌≡◌, refl, Option, none, some, ◌==◌, if◌then◌else◌, arith, Bool-cases, Option-cases, inl,
  inr,
}
use go_metrics_stas.Outcome.{ok}
use go_metrics_stas.Model.{Int64}
use go_metrics_stas.Http.{Bytes}
use go_metrics_stas.Config.{
  Env, Duration, get_or, config_path, over_text, over_env, over_number, over_duration,
}

-- A field of the file, if there is a file and the field is not empty.
abbrev pub json_text : {J : Type 0} → (J → String) → Option J → Option String
json_text field none = none
json_text field (some jc) = if field jc == "" then none else some (field jc)

abbrev pub setting : Option String → Option String → Option String → String → String
setting variable flag json default = get_or variable (get_or flag (get_or json default))

pub over_text-eq-get_or :
    {J : Type 0} (field : J → String) (jc : J) (flag : Option String) (default : String)
    → over_text (field jc) flag (get_or flag default)
      ≡ get_or flag (get_or (json_text field (some jc)) default)
over_text-eq-get_or field jc none default = ground arith
over_text-eq-get_or field jc (some f) default = refl

pub over_env-eq-get_or :
    (variable : Option String) (v : String) → over_env variable v ≡ get_or variable v
over_env-eq-get_or none v = refl
over_env-eq-get_or (some x) v = refl

abbrev pub decoded : {J : Type 0} → (Bytes → Option J) → Option Bytes → Option J
decoded unmarshal none = none
decoded unmarshal (some b) = unmarshal b

-- What the file holds that the flag `-c` or the variable CONFIG names, if either does.
abbrev pub config_file : {J : Type 0} → (Bytes → Option J) → Env → Option String → Option J
config_file unmarshal env flag =
    if config_path env flag == ""
    then none
    else decoded unmarshal (env.read_file (config_path env flag))

-- What a function makes of a value that may be missing.
abbrev pub mapped {ℓ ℓ'} : {A : Type ℓ} {B : Type ℓ'} → (A → B) → Option A → Option B
mapped f none = none
mapped f (some a) = some (f a)

-- A value that a text gives, if there is one; then the text must parse. Else it is the one below.
abbrev pub Parsed : {A : Type 0} → (String → Option A) → Option String → A → A → Type 0
Parsed parse none below x = x ≡ below
Parsed parse (some t) below x = parse t ≡ some x

-- A value of a flag, else of a field of the file, which must parse, else the default.
abbrev pub FromFlag : {A : Type 0} → (String → Option A) → Option A → Option String → A → A → Type 0
FromFlag parse (some v) json default x = x ≡ v
FromFlag parse none json default x = Parsed parse json default x

pub over_number-Parsed :
    (parse : String → Option Int64) (unit : Int64 → Int64) (variable : Option String)
    (below x : Int64)
    → over_number parse unit variable below ≡ ok x
    → Parsed (λ t. mapped unit (parse t)) variable below x
over_number-Parsed parse unit none below x h = cc
over_number-Parsed parse unit (some t) below x h = elim (Option-cases (parse t)) [
  | inl e ↦ absurd (ground arith)
  | inr (n, e) ↦ rw e (ground arith)
]

-- The flag is given in another unit.
pub over_duration-FromFlag :
    {J : Type 0} (parse : String → Option Duration) (unit : Duration → Int64)
    (scale : Int64 → Int64) (field : J → String) (jc : J) (flag : Option Int64) (default x : Int64)
    → over_duration parse unit (field jc) flag (scale (get_or flag default)) ≡ ok x
    → FromFlag
        (λ t. mapped unit (parse t))
        (mapped scale flag)
        (json_text field (some jc))
        (scale default)
        x
over_duration-FromFlag parse unit scale field jc (some f) default x h = cc
over_duration-FromFlag parse unit scale field jc none default x h =
    elim (Bool-cases (field jc == "")) [
      | inl e ↦ rw e (ground arith)
      | inr e ↦ elim (Option-cases (parse (field jc))) [
        | inl n ↦ absurd (ground arith)
        | inr (d, p) ↦ rw (e, p) (ground arith)
      ]
    ]
