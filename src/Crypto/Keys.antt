-- ===== src/Crypto/Keys.antt =====
-- internal/crypto/crypto.go: `LoadPublicKey` and `LoadPrivateKey`, which differ only in the parsers of
-- crypto/x509. Reading a file and decoding PEM are parameters; so are the parsers.
use go_metrics_stas.Prelude.{
  String, ◌≡◌, Option, none, some, refl, false, ◌==◌, if◌then◌else◌, arith,
}
use go_metrics_stas.Http.{Bytes}
use go_metrics_stas.Outcome.{Result, ok, err, failure}

-- A key that the first format holds: an RSA key, or one of another kind.
pub data Parsed (K : Type 0) : Type 0 where
  rsa : K → Parsed K
  other_key : Parsed K

pub record Loader (K : Type 0) : Type 0 where
  pub read_file : String → Option Bytes
  pub pem_block : Bytes → Option Bytes
  -- PKIX or PKCS #8, and PKCS #1
  pub parse : Bytes → Option (Parsed K)
  pub parse_pkcs1 : Bytes → Option K

module _ {K : Type 0} (l : Loader K) where
  abbrev pub of_pkcs1 : Option K → Result K
  of_pkcs1 none = err (failure "parse key")
  of_pkcs1 (some k) = ok k

  abbrev pub of_parsed : Bytes → Option (Parsed K) → Result K
  of_parsed block none = of_pkcs1 (l.parse_pkcs1 block)
  of_parsed block (some (rsa k)) = ok k
  of_parsed block (some other_key) = err (failure "not an RSA key")

  abbrev pub of_block : Option Bytes → Result K
  of_block none = err (failure "no PEM block found")
  of_block (some block) = of_parsed block (l.parse block)

  abbrev pub of_file : Option Bytes → Result K
  of_file none = err (failure "read key file")
  of_file (some text) = of_block (l.pem_block text)

  unfoldable pub load_key : String → Result K
  load_key path = of_file (l.read_file path)

  -- `loadPrivateKey` of internal/server/server.go and `loadPublicKey` of internal/agent/agent.go: no
  -- path, no key.
  abbrev pub map_some : Result K → Result (Option K)
  map_some (ok k) = ok (some k)
  map_some (err e) = err e

  unfoldable pub load_optional_key : String → Result (Option K)
  unfolding load_key
  load_optional_key path = if path == "" then ok none else map_some (load_key path)

  map_some-eq-ok :
      (r : Result K) (o : Option K) → map_some r ≡ ok o → (k : K) × (o ≡ some k) × (r ≡ ok k)
  map_some-eq-ok (ok k) o h = (k, cc, refl)
  map_some-eq-ok (err e) o h = absurd (cc)

  -- With a path, a start that succeeds has the key of that file.
  pub load_optional_key-eq-ok :
      (path : String) (o : Option K)
      → (path == "") ≡ false
      → load_optional_key path ≡ ok o
      → (k : K) × (o ≡ some k) × (load_key path ≡ ok k)
  unfolding load_optional_key
  load_optional_key-eq-ok path o p h =
      let q : map_some (load_key path) ≡ ok o = ground arith in map_some-eq-ok (load_key path) o q
