-- ===== src/Middleware/Compression/Signature.antt =====
-- The status and the signature of a response behind `CompressAndSign`.
use go_metrics_stas.Prelude.{
  ℕ, String, ◌≡◌, refl, ap, ◌∙◌, none, some, Bool, true, false, not, ◌||◌, List, [], ◌==◌, leb, eqb,
  if◌then◌else◌,
}
use go_metrics_stas.Dict.{Dict, get, put, remove}
use go_metrics_stas.Dict.Laws.{get-put, get-remove}
use go_metrics_stas.Http.{Bytes, text_or_empty}
use go_metrics_stas.Config.{get_or}
use go_metrics_stas.Middleware.Compression.{
  Gzip, Reply, new_reply, Call, ContentWriter, compress_and_sign, sign_and_compress,
  is_compressible, answer_plain, answer_gzip,
}
use go_metrics_stas.Middleware.Compression.Calls.{
  written, headers_after, status_after, content, serve_content-content,
}
use go_metrics_stas.Middleware.Compression.Answers.{
  zipped_headers, answer_gzip-content, sign_content-content,
}

-- The status that a handler has chosen, 200 if none.
abbrev pub chosen : List Call → ℕ
chosen calls =
    if eqb (get_or (status_after calls none) 0) 0 then 200 else get_or (status_after calls none) 0

-- A response that is not compressed.
abbrev pub stays_plain : Gzip → String → List Call → Bool
stays_plain gz accepted calls =
    not (is_compressible (text_or_empty (get "Content-Type" (headers_after calls []))))
    || leb 300 (chosen calls)
    || not (gz.contains accepted "gzip")

zipped_headers-signature :
    (gz : Gzip) (headers : Dict String)
    → get "HashSHA256" (zipped_headers gz headers) ≡ get "HashSHA256" headers
zipped_headers-signature gz headers =
    get-put "Vary" "HashSHA256" "Accept-Encoding"
      (put "Content-Encoding" "gzip" (remove "Content-Length" headers))
    ∙ get-put "Content-Encoding" "HashSHA256" "gzip" (remove "Content-Length" headers)
    ∙ get-remove "Content-Length" "HashSHA256" headers

module _ (gz : Gzip) (hmac : Bytes → String → String) (key accepted : String) (calls : List Call)
    (k : (key == "") ≡ false) (h : (hmac (written calls) key == "") ≡ false) where
  abbrev signed : Dict String
  signed = put "HashSHA256" (hmac (written calls) key) (headers_after calls [])

  abbrev buffered : ContentWriter
  buffered = content signed (written calls) (status_after calls none)

  compress_and_sign-buffered :
      compress_and_sign gz hmac key accepted calls new_reply
      ≡ sign_and_compress gz accepted buffered
  unfolding compress_and_sign
  compress_and_sign-buffered =
      rw
        (
          k,
          serve_content-content calls [] [] none,
          sign_content-content gz hmac key (headers_after calls []) (written calls)
              (status_after calls none),
          h,
        )
        refl

  sign_and_compress-buffered : sign_and_compress gz accepted buffered ≡ (
      if stays_plain gz accepted calls then answer_plain gz buffered else answer_gzip gz buffered)
  unfolding sign_and_compress
  sign_and_compress-buffered =
      rw (get-put "HashSHA256" "Content-Type" (hmac (written calls) key) (headers_after calls []))
        refl

  answer-buffered :
      (plain : Bool)
      → (if plain then answer_plain gz buffered else answer_gzip gz buffered).sent
        ≡ some (
          if plain then chosen calls else 200,
          if plain then signed else zipped_headers gz signed,
        )
  answer-buffered true = refl
  answer-buffered false =
      ap (λ (r : Reply). r.sent)
        (answer_gzip-content gz signed (written calls) (status_after calls none))

  answer-signature :
      (plain : Bool)
      → get "HashSHA256" (if plain then signed else zipped_headers gz signed)
        ≡ some (hmac (written calls) key)
  answer-signature true =
      get-put "HashSHA256" "HashSHA256" (hmac (written calls) key) (headers_after calls [])
  answer-signature false =
      zipped_headers-signature gz signed
      ∙ get-put "HashSHA256" "HashSHA256" (hmac (written calls) key) (headers_after calls [])

-- Behind CompressAndSign with a key, the header that is sent bears the HMAC of what the handler has
-- written, before any compression, and the status is the one that the handler chose where the
-- response is not compressed, but 200 where it is.
pub compress_and_sign-sent :
    (gz : Gzip) (hmac : Bytes → String → String) (key accepted : String) (calls : List Call)
    → (key == "") ≡ false
    → (hmac (written calls) key == "") ≡ false
    → (headers : Dict String) × ((compress_and_sign gz hmac key accepted calls new_reply).sent
        ≡ some (if stays_plain gz accepted calls then chosen calls else 200, headers))
      × (get "HashSHA256" headers ≡ some (hmac (written calls) key))
compress_and_sign-sent gz hmac key accepted calls k h =
    let plain = stays_plain gz accepted calls in
    let all = signed gz hmac key accepted calls k h in
    (
      if plain then all else zipped_headers gz all,
      ap (λ (r : Reply). r.sent)
            (compress_and_sign-buffered gz hmac key accepted calls k h
              ∙ sign_and_compress-buffered gz hmac key accepted calls k h)
          ∙ answer-buffered gz hmac key accepted calls k h plain,
      answer-signature gz hmac key accepted calls k h plain,
    )
