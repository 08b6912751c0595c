-- ===== src/Middleware/Guard.antt =====
-- When a guard calls the handler that it wraps, and what it answers where it does not.
use go_metrics_stas.Prelude.{
  String, ◌≡◌, ◌≢◌, refl, ◌∙◌, Option, none, some, Bool, true, false, not, ◌&&◌, ◌==◌, ◌<◌, ◌^◌,
  if◌then◌else◌, starts_with, Bool-cases, inl, inr,
}
use go_metrics_stas.Prelude.Text.{eq_false_of_ne}
use go_metrics_stas.Http.{Bytes, Request, Writer, header, http_error}
use go_metrics_stas.Outcome.{ok}
use go_metrics_stas.Handler.{Server, Handler}
use go_metrics_stas.Crypto.{Ciphers, Draw, encrypt}
use go_metrics_stas.Crypto.RoundTrip.{decrypt-encrypt}
use go_metrics_stas.Middleware.{
  Net, known_ip, check_subnet, check_trusted_subnet, check_body, check_hash, verify_hash,
  decrypt_body, decrypted, decrypt,
}

abbrev pub body_reason : Option Bytes → String
body_reason none = "error found while reading request body"
body_reason (some b) = "bad signature"

abbrev pub ip_reason {ℓ} : {Ip : Type ℓ} → Option Ip → String
ip_reason none = "invalid X-Real-IP header"
ip_reason (some ip) = "forbidden"

if-not {ℓ} : {A : Type ℓ} (b : Bool) (x y : A) → (if b then x else y) ≡ (if not b then y else x)
if-not true x y = refl
if-not false x y = refl

module _ (net : Net) where
  abbrev pub signed_body : String → String → Option Bytes → Bool
  signed_body key provided none = false
  signed_body key provided (some b) =
      net.to_lower provided == net.to_lower (net.hmac_sha256_hex b key)

  -- The requests that are to be signed, and those that are.
  abbrev pub guarded : String → Request → Bool
  guarded key r =
      not (key == "")
      && r.method == "POST"
      && starts_with (net.clean r.path) "/update"
      && starts_with (net.clean r.path) "/updates"
      && starts_with (header "Content-Type" r) "application/json"

  abbrev pub signed : String → Request → Bool
  signed key r = not (header "HashSHA256" r == "") && signed_body key (header "HashSHA256" r) r.body

  abbrev pub why_unsigned : Request → String
  why_unsigned r = if header "HashSHA256" r == "" then "missing HashSHA256" else body_reason r.body

  abbrev pub ip_in : net.Subnet → Option net.Ip → Bool
  ip_in subnet none = false
  ip_in subnet (some ip) = net.contains subnet ip

  abbrev pub trusted : net.Subnet → Request → Bool
  trusted subnet r =
      not (header "X-Real-IP" r == "") && ip_in subnet (net.parse_ip (header "X-Real-IP" r))

  abbrev pub why_untrusted : Request → String
  why_untrusted r =
      if header "X-Real-IP" r == ""
      then "missing X-Real-IP header"
      else ip_reason (net.parse_ip (header "X-Real-IP" r))

  module _ {S : Type 0} (next : Handler S) (r : Request) (w : Writer) (s : Server S) where
    check_body_lem :
        (key provided : String) (o : Option Bytes)
        → check_body net key provided o next (record r { body = o }) w s ≡ (
            if signed_body key provided o
            then next (record r { body = o }) w s
            else (http_error (body_reason o) 400 w, s))
    unfolding check_body
    check_body_lem key provided none = refl
    check_body_lem key provided (some b) = refl

    check_hash_lem :
        (key : String)
        → (key == "") ≡ false
        → check_hash net key next r w s ≡ (
            if guarded key r && not (signed key r)
            then (http_error (why_unsigned r) 400 w, s)
            else next r w s)
    unfolding check_hash
    check_hash_lem key h = elim (Bool-cases (r.method == "POST")) [
      | inr a ↦ rw (h, a) refl
      | inl a ↦ elim (Bool-cases (starts_with (net.clean r.path) "/update")) [
        | inr b ↦ rw (h, a, b) refl
        | inl b ↦ elim (Bool-cases (starts_with (net.clean r.path) "/updates")) [
          | inr c ↦ rw (h, a, b, c) refl
          | inl c ↦ elim (Bool-cases (starts_with (header "Content-Type" r) "application/json")) [
            | inr d ↦ rw (h, a, b, c, d) refl
            | inl d ↦ elim (Bool-cases (header "HashSHA256" r == "")) [
              | inl e ↦ rw (h, a, b, c, d, e) refl
              | inr e ↦
                  rw (h, a, b, c, d, e)
                    (check_body_lem key (header "HashSHA256" r) r.body
                      ∙ if-not (signed_body key (header "HashSHA256" r) r.body) (next r w s)
                          (http_error (body_reason r.body) 400 w, s))
            ]
          ]
        ]
      ]
    ]

    known_ip_lem :
        (subnet : net.Subnet) (o : Option net.Ip)
        → known_ip net subnet o next r w s
          ≡ (if ip_in subnet o then next r w s else (http_error (ip_reason o) 403 w, s))
    unfolding known_ip
    known_ip_lem subnet none = refl
    known_ip_lem subnet (some ip) = refl

    check_subnet_lem :
        (subnet : net.Subnet)
        → check_subnet net subnet next r w s
          ≡ (if trusted subnet r then next r w s else (http_error (why_untrusted r) 403 w, s))
    unfolding check_subnet
    check_subnet_lem subnet = elim (Bool-cases (header "X-Real-IP" r == "")) [
      | inl h ↦ rw h refl
      | inr h ↦ rw h (known_ip_lem subnet (net.parse_ip (header "X-Real-IP" r)))
    ]

    -- A request that is to be signed (there is a key, the method is POST, the cleaned path starts with
    -- "/update" and with "/updates", and the body is JSON) reaches the handler just when its header
    -- bears the HMAC of its body, in either case of letters; else it is answered with 400 and the
    -- server stays as it is. Every other request passes unverified.
    pub verify_hash_lem :
        (key : String)
        → verify_hash net key next r w s ≡ (
            if guarded key r && not (signed key r)
            then (http_error (why_unsigned r) 400 w, s)
            else next r w s)
    unfolding verify_hash
    verify_hash_lem key = elim (Bool-cases (key == "")) [
      | inl h ↦ rw h refl
      | inr h ↦ rw h (check_hash_lem key h ∙ rw h refl)
    ]

    -- Behind a subnet that parses, a request reaches the handler just when its header X-Real-IP holds
    -- an address of that subnet; else it is answered with 403 and the server stays as it is.
    pub check_trusted_subnet_lem :
        (cidr : String) (subnet : net.Subnet)
        → cidr ≢ ""
        → net.parse_cidr cidr ≡ some subnet
        → (guard : Handler S → Handler S) × (check_trusted_subnet net cidr ≡ ok guard)
          × (guard next r w s
              ≡ (if trusted subnet r then next r w s else (http_error (why_untrusted r) 403 w, s)))
    unfolding check_trusted_subnet check_subnet known_ip
    check_trusted_subnet_lem cidr subnet h p =
        (check_subnet net subnet, rw (eq_false_of_ne h, p) refl, check_subnet_lem subnet)

-- A body that `Encrypt` has made of a text for a key reaches the handler behind the guard of the other
-- key of the pair as that text, in a POST request.
pub decrypt_body-encrypt :
    (cs : Ciphers) {S : Type 0} (next : Handler S) (r : Request) (w : Writer) (s : Server S)
    (key_draw : Draw) (seed : Bytes) (nonce_draw : Draw) (plaintext : Bytes)
    (pub_key : cs.PublicKey) (priv_key : cs.PrivateKey) (out : Bytes)
    → cs.IsPair pub_key priv_key
    → cs.modulus_size pub_key < 2 ^ 16
    → encrypt cs key_draw seed nonce_draw plaintext (some pub_key) ≡ ok out
    → (r.method == "POST") ≡ true
    → r.body ≡ some out
    → decrypt cs (some priv_key) next r w s ≡ next (record r { body = some plaintext }) w s
unfolding decrypt decrypt_body decrypted
decrypt_body-encrypt cs next r w s key_draw seed nonce_draw plaintext pub_key priv_key out pair
      small h post body =
    rw
      (
        post,
        body,
        decrypt-encrypt cs key_draw seed nonce_draw plaintext pub_key priv_key out pair small h,
      )
      refl
