-- ===== src/Audit.antt =====
-- internal/audit/audit.go: events, the address of the client, and the publisher.
pub mod Sinks
use Prim.Native.Char.{Char, code}
use go_metrics_stas.Prelude.{
  ℕ, String, Option, none, some, Bool, ◌&&◌, ◌||◌, List, [], ◌∷◌, ◌==◌, eqb, leb, if◌then◌else◌,
}
use go_metrics_stas.Dict.{Dict, put, remove}
use go_metrics_stas.Http.{Request, header}

pub record AuditEvent : Type 0 where
  pub timestamp : ℕ
  pub metrics : List String
  pub ip_address : String

-- `unicode.IsSpace`.
pub is_space : ℕ → Bool
is_space c =
    (leb 9 c && leb c 13)
    || eqb c 32
    || eqb c 0x85
    || eqb c 0xA0
    || eqb c 0x1680
    || (leb 0x2000 c && leb c 0x200a)
    || eqb c 0x2028
    || eqb c 0x2029
    || eqb c 0x202f
    || eqb c 0x205f
    || eqb c 0x3000

pub trim_left : String → String
unfolding is_space
trim_left String.[] = ""
trim_left (String.◌∷◌ c s) =
    let rest = trim_left s in if is_space (code c) then rest else String.◌∷◌ c s

pub trim_right : String → String
unfolding is_space
trim_right String.[] = ""
trim_right (String.◌∷◌ c s) =
    let rest = trim_right s in if is_space (code c) && rest == "" then "" else String.◌∷◌ c rest

-- `strings.TrimSpace`.
unfoldable pub trim_space : String → String
unfolding trim_left trim_right
trim_space s = trim_right (trim_left s)

cons_head : Char → List String → List String
cons_head c [] = String.◌∷◌ c "" ∷ []
cons_head c (part ∷ parts) = String.◌∷◌ c part ∷ parts

-- `strings.Split(s, ",")`.
unfoldable pub split_comma : String → List String
unfolding cons_head
split_comma String.[] = "" ∷ []
split_comma (String.◌∷◌ c s) =
    let parts = split_comma s in if eqb (code c) b',' then "" ∷ parts else cons_head c parts

-- The loop of `parseXForwardedFor`.
trimmed_parts : List String → List String
unfolding trim_space
trimmed_parts [] = []
trimmed_parts (ip ∷ ips) =
    let rest = trimmed_parts ips in if trim_space ip == "" then rest else trim_space ip ∷ rest

unfoldable pub parse_x_forwarded_for : String → List String
unfolding trimmed_parts split_comma
parse_x_forwarded_for h = trimmed_parts (split_comma h)

first_or : String → List String → String
first_or other [] = other
first_or other (ip ∷ ips) = ip

or_whole : String → Option String → String
or_whole addr none = addr
or_whole addr (some host) = host

module _ (split_host_port : String → Option String) where
  -- The address behind both headers; `net.SplitHostPort` is a parameter, none where it fails.
  direct_address : Request → String
  unfolding or_whole
  direct_address r =
      if header "X-Real-IP" r == ""
      then or_whole r.remote_addr (split_host_port r.remote_addr)
      else header "X-Real-IP" r

  unfoldable pub get_client_ip : Request → String
  unfolding direct_address first_or parse_x_forwarded_for
  get_client_ip r =
      if header "X-Forwarded-For" r == ""
      then direct_address r
      else first_or (direct_address r) (parse_x_forwarded_for (header "X-Forwarded-For" r))

  unfoldable pub create_audit_event : ℕ → Request → List String → AuditEvent
  unfolding get_client_ip
  create_audit_event now r metrics = record {
    timestamp = now;
    metrics = metrics;
    ip_address = get_client_ip r;
  }

-- The publisher's map of observers, by their identifiers. Each `Update` that `Notify` starts runs in
-- a goroutine of its own; `notify` gives the calls, in the order of the range.
module _ {ℓ} {Observer : Type ℓ} (get_id : Observer → String) where
  unfoldable pub subscribe : Observer → Dict Observer → Dict Observer
  subscribe o observers = put (get_id o) o observers

  unfoldable pub unsubscribe : Observer → Dict Observer → Dict Observer
  unsubscribe o observers = remove (get_id o) observers

unfoldable pub notify {ℓ} :
    {Observer : Type ℓ} → Dict Observer → AuditEvent → List (Observer × AuditEvent)
notify [] event = []
notify ((id, o) ∷ observers) event = (o, event) ∷ notify observers event
