-- ===== src/Crypto/Tests.antt =====
-- The round trip at the ciphers of the sample.
use go_metrics_stas.Prelude.{◌≡◌, refl, arith, some, [], ◌∷◌}
use go_metrics_stas.Outcome.{ok}
use go_metrics_stas.Outcome.Results.{◌>>=◌}
use go_metrics_stas.Crypto.{zeros, copy_at, envelope, decrypt}
use go_metrics_stas.Crypto.RoundTrip.{decrypt-encrypt}
use go_metrics_stas.Crypto.Sample.{plain, steady, out, encrypts}

decrypt-encrypt_example : decrypt plain out (some 32) ≡ ok (7 ∷ 8 ∷ [])
decrypt-encrypt_example =
    decrypt-encrypt plain steady [] steady (7 ∷ 8 ∷ []) 32 32 out refl (omega arith) encrypts

runs : decrypt plain out (some 32) ≡ ok (7 ∷ 8 ∷ [])
unfolding decrypt envelope zeros copy_at ◌>>=◌
runs = refl
