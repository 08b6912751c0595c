-- ===== src/Crypto/RoundTrip.antt =====
-- `Decrypt` gives back what `Encrypt` was given.
use go_metrics_stas.Prelude.{
  ℕ, zero, suc, ltb-eq-false_of_le, ◌+◌, ◌*◌, ◌^◌, ◌<◌, ◌≡◌, sym, ap, ◌∙◌, String, Option, none,
  some, [], ◌∷◌, ◌++◌, length, take, drop, length-append, take-append, drop-append, arith,
}
use go_metrics_stas.Outcome.{ok}
use go_metrics_stas.Outcome.Results.{◌>>=◌, bind-eq-ok}
use go_metrics_stas.Crypto.{
  Bytes, Ciphers, Draw, envelope, need, encrypt, open_envelope, split_envelope, decrypt,
}
use go_metrics_stas.Crypto.Layout.{envelope-eq-append}

drop-add : (m n : ℕ) (xs : Bytes) → drop (m + n) xs ≡ drop n (drop m xs)
drop-add zero n xs = let e : zero + n ≡ n = omega arith in ap (λ i. drop i xs) e
drop-add (suc m) zero [] =
    let e : suc m + zero ≡ suc m = omega arith in ap (λ i. drop {A = ℕ} i []) e
drop-add (suc m) (suc n) [] =
    let e : suc m + suc n ≡ suc (m + suc n) = omega arith in ap (λ i. drop {A = ℕ} i []) e
drop-add (suc m) n (x ∷ xs) =
    let e : suc m + n ≡ suc (m + n) = omega arith in ap (λ i. drop i (x ∷ xs)) e ∙ drop-add m n xs

drop_of_length : (n : ℕ) (xs ys : Bytes) → n ≡ length xs → drop n (xs ++ ys) ≡ ys
drop_of_length n xs ys e = ap (λ i. drop i (xs ++ ys)) e ∙ drop-append xs ys

take_of_length : (n : ℕ) (xs ys : Bytes) → n ≡ length xs → take n (xs ++ ys) ≡ xs
take_of_length n xs ys e = ap (λ i. take i (xs ++ ys)) e ∙ take-append xs ys

module _ (cs : Ciphers) where
  split-append :
      (priv : cs.PrivateKey) (hi lo : ℕ) (k n c : Bytes)
      → hi * 256 + lo ≡ length k
      → length n ≡ 12
      → split_envelope cs priv hi lo (hi ∷ lo ∷ (k ++ (n ++ c))) ≡ open_envelope cs priv k n c
  unfolding split_envelope
  split-append priv hi lo k n c hk hn = rw (
    drop-add (2 + (hi * 256 + lo)) 12 (hi ∷ lo ∷ (k ++ (n ++ c))),
    drop-add 2 (hi * 256 + lo) (hi ∷ lo ∷ (k ++ (n ++ c))),
    drop_of_length (hi * 256 + lo) k (n ++ c) hk,
    take_of_length (hi * 256 + lo) k (n ++ c) hk,
    drop_of_length 12 n c (sym hn),
    take_of_length 12 n c (sym hn),
    ltb-eq-false_of_le (length (hi ∷ lo ∷ (k ++ (n ++ c)))) (2 + (hi * 256 + lo) + 12)
        (omega (arith, length-append k (n ++ c), length-append n c)),
  )

  need-eq-ok : {A : Type 0} (what : String) (o : Option A) (a : A) → need what o ≡ ok a → o ≡ some a
  need-eq-ok what none a h = cc
  need-eq-ok what (some b) a h = cc

  -- The parts of an envelope that `Encrypt` returns, and the calls that made them.
  record Sealed (pub_key : cs.PublicKey) (seed plaintext out : Bytes) : Type 1 where
    aes_key : Bytes
    enc_key : Bytes
    block : cs.Block
    gcm : cs.Gcm
    nonce : Bytes
    wrapped : cs.encrypt_oaep pub_key seed aes_key ≡ some enc_key
    ciphered : cs.new_cipher aes_key ≡ some block
    mode : cs.new_gcm block ≡ some gcm
    length_nonce : length nonce ≡ 12
    whole : envelope enc_key nonce (cs.seal gcm nonce plaintext) ≡ out

  encrypt-Sealed :
      (key_draw : Draw) (seed : Bytes) (nonce_draw : Draw) (plaintext : Bytes)
      (pub_key : cs.PublicKey) (out : Bytes)
      → encrypt cs key_draw seed nonce_draw plaintext (some pub_key) ≡ ok out
      → Sealed pub_key seed plaintext out
  unfolding encrypt
  encrypt-Sealed key_draw seed nonce_draw plaintext pub_key out h =
      let (aes_key, p1, h1) = bind-eq-ok _ _ out h in
      let (enc_key, p2, h2) = bind-eq-ok _ _ out h1 in
      let (block, p3, h3) = bind-eq-ok _ _ out h2 in
      let (gcm, p4, h4) = bind-eq-ok _ _ out h3 in
      let (nonce, p5, h5) = bind-eq-ok _ _ out h4 in
      let mode = need-eq-ok _ _ gcm p4 in
      record {
        aes_key = aes_key;
        enc_key = enc_key;
        block = block;
        gcm = gcm;
        nonce = nonce;
        wrapped = need-eq-ok _ _ enc_key p2;
        ciphered = need-eq-ok _ _ block p3;
        mode = mode;
        length_nonce =
            nonce_draw.length-read _ nonce (need-eq-ok _ _ nonce p5)
            ∙ cs.nonce_size-new_gcm block gcm mode;
        whole = cc;
      }

  -- A text that `Encrypt` has encrypted for a key, `Decrypt` gives back with the other key of the
  -- pair, if the modulus of the key fits the two bytes of the length field.
  pub decrypt-encrypt :
      (key_draw : Draw) (seed : Bytes) (nonce_draw : Draw) (plaintext : Bytes)
      (pub_key : cs.PublicKey) (priv_key : cs.PrivateKey) (out : Bytes)
      → cs.IsPair pub_key priv_key
      → cs.modulus_size pub_key < 2 ^ 16
      → encrypt cs key_draw seed nonce_draw plaintext (some pub_key) ≡ ok out
      → decrypt cs out (some priv_key) ≡ ok plaintext
  unfolding decrypt
  decrypt-encrypt key_draw seed nonce_draw plaintext pub_key priv_key out pair small h =
      let x = encrypt-Sealed key_draw seed nonce_draw plaintext pub_key out h in
      let size = cs.length-encrypt_oaep pub_key seed x.aes_key x.enc_key x.wrapped in
      rw (← x.whole, envelope-eq-append x.enc_key x.nonce (cs.seal x.gcm x.nonce plaintext))
        (split-append priv_key _ _ x.enc_key x.nonce (cs.seal x.gcm x.nonce plaintext)
            (omega (arith, size)) x.length_nonce
          ∙ (unfold open_envelope ◌>>=◌ in
              rw (
                cs.decrypt-encrypt_oaep pub_key priv_key seed x.aes_key x.enc_key pair x.wrapped,
                x.ciphered,
                x.mode,
                cs.open-seal x.gcm x.nonce plaintext,
              )))
