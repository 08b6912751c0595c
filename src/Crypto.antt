-- ===== src/Crypto.antt =====
-- internal/crypto/crypto.go: `Encrypt` and `Decrypt`, the envelope around an AES key that RSA has
-- encrypted. The packages crypto/rsa, crypto/aes, crypto/cipher and crypto/rand are a parameter.
pub mod Keys
pub mod Layout
pub mod RoundTrip
pub mod Sample
mod Tests
use go_metrics_stas.Prelude.{
  ℕ, zero, suc, ◌+◌, ◌*◌, ◌/◌, ◌%◌, ◌^◌, String, ◌≡◌, Option, none, some, List, [], ◌∷◌, length,
  take, drop, ltb, if◌then◌else◌,
}
use go_metrics_stas.Outcome.{Error, failure, Result, ok, err}
use go_metrics_stas.Outcome.Results.{◌>>=◌}

abbrev pub Bytes : Type 0
Bytes = List ℕ

-- What the program uses of Go's cryptography, and what its documentation promises of it.
pub record Ciphers : Type 1 where
  pub PublicKey : Type 0
  pub PrivateKey : Type 0
  -- the two keys belong together
  pub IsPair : PublicKey → PrivateKey → Type 0
  pub modulus_size : PublicKey → ℕ
  -- `rsa.EncryptOAEP` and `rsa.DecryptOAEP` with SHA-256 and no label; the first takes what it draws
  -- from `rand.Reader`
  pub encrypt_oaep : PublicKey → Bytes → Bytes → Option Bytes
  pub decrypt_oaep : PrivateKey → Bytes → Option Bytes
  -- an AES-GCM of a key: `aes.NewCipher`, `cipher.NewGCM`
  pub Block : Type 0
  pub Gcm : Type 0
  pub new_cipher : Bytes → Option Block
  pub new_gcm : Block → Option Gcm
  pub nonce_size : Gcm → ℕ
  pub seal : Gcm → Bytes → Bytes → Bytes
  pub open_sealed : Gcm → Bytes → Bytes → Option Bytes
  pub length-encrypt_oaep :
      (k : PublicKey) (seed b c : Bytes)
      → encrypt_oaep k seed b ≡ some c
      → length c ≡ modulus_size k
  pub decrypt-encrypt_oaep :
      (k : PublicKey) (p : PrivateKey) (seed b c : Bytes)
      → IsPair k p
      → encrypt_oaep k seed b ≡ some c
      → decrypt_oaep p c ≡ some b
  pub nonce_size-new_gcm : (b : Block) (g : Gcm) → new_gcm b ≡ some g → nonce_size g ≡ 12
  pub open-seal : (g : Gcm) (n b : Bytes) → open_sealed g n (seal g n b) ≡ some b

-- A call of `rand.Read` fills a slice of a given size, or fails.
pub record Draw : Type 0 where
  pub read : ℕ → Option Bytes
  pub length-read : (n : ℕ) (b : Bytes) → read n ≡ some b → length b ≡ n

unfoldable pub zeros : ℕ → Bytes
zeros zero = []
zeros (suc n) = 0 ∷ zeros n

-- `copy(dst, src)` stops at the end of the shorter one.
unfoldable pub copy : Bytes → Bytes → Bytes
copy [] dst = dst
copy (x ∷ src) [] = []
copy (x ∷ src) (y ∷ dst) = x ∷ copy src dst

-- `copy(dst[i:], src)`.
unfoldable pub copy_at : ℕ → Bytes → Bytes → Bytes
unfolding copy
copy_at zero src dst = copy src dst
copy_at (suc i) src [] = []
copy_at (suc i) src (y ∷ dst) = y ∷ copy_at i src dst

-- `binary.BigEndian.PutUint16` of `uint16(n)`.
abbrev pub put_uint16 : ℕ → Bytes
put_uint16 n = n % 2 ^ 16 / 256 ∷ n % 2 ^ 16 % 256 ∷ []

pub envelope : Bytes → Bytes → Bytes → Bytes
envelope enc_key nonce ciphertext = copy_at (2 + length enc_key + length nonce) ciphertext (
    copy_at (2 + length enc_key) nonce (
      copy_at 2 enc_key (
        copy_at 0 (put_uint16 (length enc_key))
          (zeros (2 + length enc_key + length nonce + length ciphertext)))))

abbrev pub need {ℓ} : {A : Type ℓ} → String → Option A → Result A
need what none = err (failure what)
need what (some a) = ok a

module _ (cs : Ciphers) where
  encrypt_with : Draw → Bytes → Draw → Bytes → cs.PublicKey → Result Bytes
  unfolding envelope zeros copy_at
  encrypt_with key_draw seed nonce_draw plaintext pub_key = do
    aes_key ← need "generate AES key" (key_draw.read 32)
    enc_key ← need "RSA encrypt" (cs.encrypt_oaep pub_key seed aes_key)
    block ← need "AES cipher" (cs.new_cipher aes_key)
    gcm ← need "GCM" (cs.new_gcm block)
    nonce ← need "generate nonce" (nonce_draw.read (cs.nonce_size gcm))
    ok (envelope enc_key nonce (cs.seal gcm nonce plaintext))

  -- The draws of one call are arguments. With no key the text passes as it is.
  unfoldable pub encrypt : Draw → Bytes → Draw → Bytes → Option cs.PublicKey → Result Bytes
  unfolding encrypt_with
  encrypt key_draw seed nonce_draw plaintext none = ok plaintext
  encrypt key_draw seed nonce_draw plaintext (some k) =
      encrypt_with key_draw seed nonce_draw plaintext k

  open_envelope : cs.PrivateKey → Bytes → Bytes → Bytes → Result Bytes
  open_envelope priv enc_key nonce ciphertext = do
    aes_key ← need "RSA decrypt" (cs.decrypt_oaep priv enc_key)
    block ← need "AES cipher" (cs.new_cipher aes_key)
    gcm ← need "GCM" (cs.new_gcm block)
    need "GCM decrypt" (cs.open_sealed gcm nonce ciphertext)

  -- The slices of an envelope of at least two bytes.
  split_envelope : cs.PrivateKey → ℕ → ℕ → Bytes → Result Bytes
  unfolding open_envelope
  split_envelope priv hi lo data_bytes =
      let n = hi * 256 + lo in
      if ltb (length data_bytes) (2 + n + 12)
      then err (failure "envelope too short for key+nonce")
      else open_envelope priv (take n (drop 2 data_bytes)) (take 12 (drop (2 + n) data_bytes))
          (drop (2 + n + 12) data_bytes)

  decrypt_with : cs.PrivateKey → Bytes → Result Bytes
  unfolding split_envelope
  decrypt_with priv [] = err (failure "envelope too short")
  decrypt_with priv (hi ∷ []) = err (failure "envelope too short")
  decrypt_with priv (hi ∷ lo ∷ rest) = split_envelope priv hi lo (hi ∷ lo ∷ rest)

  unfoldable pub decrypt : Bytes → Option cs.PrivateKey → Result Bytes
  unfolding decrypt_with
  decrypt data_bytes none = ok data_bytes
  decrypt data_bytes (some priv) = decrypt_with priv data_bytes
