-- ===== src/Crypto/Sample.antt =====
-- Ciphers that hide nothing: the laws asked of Go's cryptography can hold.
use go_metrics_stas.Prelude.{
  ℕ, ◌≡◌, refl, arith, Option, none, some, [], ◌∷◌, eqb, length, if◌then◌else◌,
}
use go_metrics_stas.Outcome.{ok}
use go_metrics_stas.Outcome.Results.{◌>>=◌}
use go_metrics_stas.Crypto.{Bytes, Ciphers, Draw, zeros, envelope, encrypt}
use go_metrics_stas.Crypto.Layout.{length-zeros}

abbrev pub plain_oaep : ℕ → Bytes → Bytes → Option Bytes
plain_oaep k seed b = if eqb (length b) k then some b else none

pub length-plain_oaep : (k : ℕ) (seed b c : Bytes) → plain_oaep k seed b ≡ some c → length c ≡ k
length-plain_oaep k seed b c h = ground arith

pub eq_of_plain_oaep : (k : ℕ) (seed b c : Bytes) → plain_oaep k seed b ≡ some c → some c ≡ some b
eq_of_plain_oaep k seed b c h = ground arith

abbrev pub plain : Ciphers
plain = record {
  PublicKey = ℕ;
  PrivateKey = ℕ;
  IsPair = λ k p. k ≡ p;
  modulus_size = λ k. k;
  encrypt_oaep = plain_oaep;
  decrypt_oaep = λ p c. some c;
  Block = Bytes;
  Gcm = Bytes;
  new_cipher = λ b. some b;
  new_gcm = λ b. some b;
  nonce_size = λ g. 12;
  seal = λ g n b. b;
  open_sealed = λ g n b. some b;
  length-encrypt_oaep = length-plain_oaep;
  decrypt-encrypt_oaep = λ k p seed b c e h. eq_of_plain_oaep k seed b c h;
  nonce_size-new_gcm = λ b g h. refl;
  open-seal = λ g n b. refl;
}

pub length-read_zeros : (n : ℕ) (b : Bytes) → some (zeros n) ≡ some b → length b ≡ n
length-read_zeros n b h = ground (arith, length-zeros n)

abbrev pub steady : Draw
steady = record { read = λ n. some (zeros n); length-read = length-read_zeros }

abbrev pub out : Bytes
out = envelope (zeros 32) (zeros 12) (7 ∷ 8 ∷ [])

pub encrypts : encrypt plain steady [] steady (7 ∷ 8 ∷ []) (some 32) ≡ ok out
unfolding encrypt ◌>>=◌
encrypts = refl
