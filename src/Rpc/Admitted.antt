-- ===== src/Rpc/Admitted.antt =====
-- Which calls pass the interceptor of the trusted subnet.
use go_metrics_stas.Prelude.{
  String, ◌≡◌, ◌≢◌, refl, Option, none, some, Bool, false, not, ◌&&◌, List, [], ◌∷◌, ◌==◌,
  if◌then◌else◌, Bool-cases, inl, inr,
}
use go_metrics_stas.Prelude.Text.{eq_false_of_ne}
use go_metrics_stas.Outcome.{ok}
use go_metrics_stas.Middleware.{Net}
use go_metrics_stas.Middleware.Guard.{ip_in}
use go_metrics_stas.Rpc.{Status, permission_denied, let_in, intercept, trusted_subnet_interceptor}

abbrev pub ip_refusal {ℓ} : {Ip : Type ℓ} → Option Ip → String
ip_refusal none = "invalid X-Real-IP"
ip_refusal (some ip) = "forbidden"

module _ (net : Net) where
  abbrev pub admitted : net.Subnet → Option (List String) → Bool
  admitted subnet none = false
  admitted subnet (some []) = false
  admitted subnet (some (v ∷ vals)) = not (v == "") && ip_in net subnet (net.parse_ip v)

  abbrev pub refusal : Option (List String) → String
  refusal none = "missing metadata"
  refusal (some []) = "missing X-Real-IP"
  refusal (some (v ∷ vals)) = if v == "" then "missing X-Real-IP" else ip_refusal (net.parse_ip v)

  module _ {S : Type 0} (subnet : net.Subnet) (handler : S → Status × S) (s : S) where
    let_in_lem :
        (o : Option net.Ip)
        → let_in net subnet o handler s
          ≡ (if ip_in net subnet o then handler s else (permission_denied (ip_refusal o), s))
    unfolding let_in
    let_in_lem none = refl
    let_in_lem (some ip) = refl

    intercept_lem :
        (md : Option (List String))
        → intercept net subnet md handler s
          ≡ (if admitted subnet md then handler s else (permission_denied (refusal md), s))
    unfolding intercept
    intercept_lem none = refl
    intercept_lem (some []) = refl
    intercept_lem (some (v ∷ vals)) = elim (Bool-cases (v == "")) [
      | inl h ↦ rw h refl
      | inr h ↦ rw h (let_in_lem (net.parse_ip v))
    ]

    -- Behind a subnet that parses, a call reaches its handler just when the first value of x-real-ip in
    -- its metadata is an address of that subnet; else permission is denied and nothing changes.
    pub trusted_subnet_interceptor_lem :
        (cidr : String) (md : Option (List String))
        → cidr ≢ ""
        → net.parse_cidr cidr ≡ some subnet
        → (guard : Option (List String) → (S → Status × S) → S → Status × S)
          × (trusted_subnet_interceptor net cidr ≡ ok guard)
          × (guard md handler s
              ≡ (if admitted subnet md then handler s else (permission_denied (refusal md), s)))
    unfolding trusted_subnet_interceptor
    trusted_subnet_interceptor_lem cidr md h p =
        (intercept net subnet, rw (eq_false_of_ne h, p) refl, intercept_lem md)
