-- ===== src/Middleware.antt =====
-- internal/middleware/subnet.go, hash.go and decrypt.go: the guards that wrap a handler. What they
-- use of net, crypto/hmac and path is a parameter.
pub mod Guard
pub mod Compression
pub mod Logging
mod Tests
use go_metrics_stas.Prelude.{
  ℕ, String, Option, none, some, Bool, true, false, not, ◌||◌, List, [], ◌∷◌, ◌==◌, if◌then◌else◌,
  starts_with,
}
use go_metrics_stas.Http.{Bytes, Request, Writer, header, http_error}
use go_metrics_stas.Outcome.{Result, ok, err, failure}
use go_metrics_stas.Handler.{Server, Handler}
use go_metrics_stas.Crypto
use go_metrics_stas.Crypto.{Ciphers}

-- What the guards use of the standard library: `net.ParseCIDR`, `net.ParseIP`, `Contains`, the HMAC
-- with SHA-256 in hexadecimal digits, `strings.ToLower` and `path.Clean`.
pub record Net : Type 1 where
  pub Subnet : Type 0
  pub Ip : Type 0
  pub parse_cidr : String → Option Subnet
  pub parse_ip : String → Option Ip
  pub contains : Subnet → Ip → Bool
  pub hmac_sha256_hex : Bytes → String → String
  pub to_lower : String → String
  pub clean : String → String

module _ (net : Net) {S : Type 0} where
  unfoldable pub known_ip : net.Subnet → Option net.Ip → Handler S → Handler S
  known_ip subnet none next r w s = (http_error "invalid X-Real-IP header" 403 w, s)
  known_ip subnet (some ip) next r w s =
      if net.contains subnet ip then next r w s else (http_error "forbidden" 403 w, s)

  unfoldable pub check_subnet : net.Subnet → Handler S → Handler S
  unfolding known_ip
  check_subnet subnet next r w s =
      if header "X-Real-IP" r == ""
      then (http_error "missing X-Real-IP header" 403 w, s)
      else known_ip subnet (net.parse_ip (header "X-Real-IP" r)) next r w s

  with_subnet : Option net.Subnet → Result (Handler S → Handler S)
  unfolding check_subnet
  with_subnet none = err (failure "invalid trusted_subnet CIDR")
  with_subnet (some subnet) = ok (check_subnet subnet)

  unfoldable pub check_trusted_subnet : String → Result (Handler S → Handler S)
  unfolding with_subnet
  check_trusted_subnet cidr =
      if cidr == "" then ok (λ next. next) else with_subnet (net.parse_cidr cidr)

  unfoldable pub check_body : String → String → Option Bytes → Handler S → Handler S
  check_body key provided none next r w s =
      (http_error "error found while reading request body" 400 w, s)
  check_body key provided (some b) next r w s =
      if net.to_lower provided == net.to_lower (net.hmac_sha256_hex b key)
      then next (record r { body = some b }) w s
      else (http_error "bad signature" 400 w, s)

  unfoldable pub check_hash : String → Handler S → Handler S
  unfolding check_body
  check_hash key next r w s =
      if not (r.method == "POST")
      then next r w s
      else if not (starts_with (net.clean r.path) "/update")
          || not (starts_with (net.clean r.path) "/updates")
      then next r w s
      else if not (starts_with (header "Content-Type" r) "application/json")
      then next r w s
      else if header "HashSHA256" r == ""
      then (http_error "missing HashSHA256" 400 w, s)
      else check_body key (header "HashSHA256" r) r.body next r w s

  unfoldable pub verify_hash : String → Handler S → Handler S
  unfolding check_hash
  verify_hash key next r w s = if key == "" then next r w s else check_hash key next r w s

module _ (cs : Ciphers) {S : Type 0} where
  unfoldable pub decrypted : Bytes → Result Bytes → Handler S → Handler S
  decrypted b (err e) next r w s = next (record r { body = some b }) w s
  decrypted b (ok plaintext) next r w s = next (record r { body = some plaintext }) w s

  -- A body that cannot be read stays as it is: unreadable.
  unfoldable pub decrypt_body : cs.PrivateKey → Option Bytes → Handler S → Handler S
  unfolding decrypted
  decrypt_body key none next r w s = next r w s
  decrypt_body key (some b) next r w s = decrypted b (Crypto.decrypt cs b (some key)) next r w s

  unfoldable pub decrypt : Option cs.PrivateKey → Handler S → Handler S
  unfolding decrypt_body
  decrypt none next r w s = next r w s
  decrypt (some key) next r w s =
      if not (r.method == "POST") then next r w s else decrypt_body key r.body next r w s
