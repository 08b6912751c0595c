-- ===== src/Middleware/Compression/Answers.antt =====
-- What the client of a buffered, signed and compressed response gets.
use go_metrics_stas.Prelude.{
  ℕ, String, ◌≡◌, refl, sym, ap, ◌∙◌, Option, none, some, Bool, true, false, not, List, [], ◌==◌,
  if◌then◌else◌, All, Bool-cases, inl, inr, arith,
}
use go_metrics_stas.Dict.{Dict, get, put, remove}
use go_metrics_stas.Dict.Laws.{get-put}
use go_metrics_stas.Http.{Bytes}
use go_metrics_stas.Middleware.Compression.{
  Gzip, Reply, new_reply, Call, serve, answer_plain, answer_gzip, compress_content,
  compress_accepted, sign_content, sign_and_compress, compress_and_sign,
}
use go_metrics_stas.Middleware.Compression.Calls.{
  written, Leaves, encoding, encoding-nil, headers_after, status_after, content,
  serve_content-content, headers_after-encoding, serve-body, sent_encoding, serve-encoding,
}

module _ (gz : Gzip) where
  -- The body as a client reads it that undoes the compression that the header names.
  abbrev pub decoded_with : Option String → Bytes → Option Bytes
  decoded_with none b = some b
  decoded_with (some e) b = if e == "gzip" then gz.expand (some b) else some b

  abbrev pub decoded : Reply → Option Bytes
  decoded w = elim w.sent [
    | none ↦ some w.body
    | some (code, headers) ↦ decoded_with (get "Content-Encoding" headers) w.body
  ]

module _ (gz : Gzip) where
  decoded-sent :
      (o : Option (ℕ × Dict String)) (w : Reply)
      → sent_encoding o ≡ none
      → decoded gz (record w { sent = o }) ≡ some w.body
  decoded-sent none w h = refl
  decoded-sent (some (code, headers)) w h = rw h refl

  abbrev pub reply : ℕ → Dict String → Bytes → Reply
  reply code headers b = record { headers = headers; sent = some (code, headers); body = b }

  abbrev pub zipped_headers : Dict String → Dict String
  zipped_headers headers =
      put "Vary" "Accept-Encoding" (put "Content-Encoding" "gzip" (remove "Content-Length" headers))

  pub answer_gzip-content :
      (headers : Dict String) (b : Bytes) (o : Option ℕ)
      → answer_gzip gz (content headers b o) ≡ reply 200 (zipped_headers headers) (gz.compress b)
  answer_gzip-content headers b none = refl
  answer_gzip-content headers b (some code) = refl

  decoded-reply :
      (code : ℕ) (headers : Dict String) (b : Bytes)
      → encoding headers ≡ none
      → decoded gz (reply code headers b) ≡ some b
  decoded-reply code headers b h = rw h refl

  zipped_headers-encoding :
      (headers : Dict String) → encoding (zipped_headers headers) ≡ some "gzip"
  zipped_headers-encoding headers =
      get-put "Vary" "Content-Encoding" "Accept-Encoding"
        (put "Content-Encoding" "gzip" (remove "Content-Length" headers))
      ∙ get-put "Content-Encoding" "Content-Encoding" "gzip" (remove "Content-Length" headers)

  module _ (hmac : Bytes → String → String) (key : String) where
    abbrev pub signed_headers : Bytes → Dict String → Dict String
    signed_headers b headers =
        if not (hmac b key == "") then put "HashSHA256" (hmac b key) headers else headers

    pub sign_content-content :
        (headers : Dict String) (b : Bytes) (o : Option ℕ)
        → sign_content gz hmac key (content headers b o) ≡ content (signed_headers b headers) b o
    sign_content-content headers b o = elim (Bool-cases (hmac b key == "")) [
      | inl e ↦ rw e refl
      | inr e ↦ rw e refl
    ]

    signed_headers-encoding :
        (headers : Dict String) (b : Bytes) → encoding (signed_headers b headers) ≡ encoding headers
    signed_headers-encoding headers b =
        ground (arith, get-put "HashSHA256" "Content-Encoding" (hmac b key) headers)

  module _ (law : (b : Bytes) → gz.expand (some (gz.compress b)) ≡ some b) where
    decoded-answer_gzip :
        (headers : Dict String) (b : Bytes) (o : Option ℕ)
        → decoded gz (answer_gzip gz (content headers b o)) ≡ some b
    decoded-answer_gzip headers b o =
        ap (decoded gz) (answer_gzip-content headers b o)
        ∙ ap (λ e. decoded_with gz e (gz.compress b)) (zipped_headers-encoding headers)
        ∙ law b

    decoded-answer :
        (plain : Bool) (headers : Dict String) (b : Bytes) (o : Option ℕ)
        → encoding headers ≡ none
        → decoded gz (
            if plain
            then answer_plain gz (content headers b o)
            else answer_gzip gz (content headers b o))
          ≡ some b
    decoded-answer true headers b o h = rw h refl
    decoded-answer false headers b o h = decoded-answer_gzip headers b o

    decoded-compress_accepted :
        (accepted : String) (calls : List Call)
        → All Leaves calls
        → decoded gz (compress_accepted gz accepted calls new_reply) ≡ some (written calls)
    unfolding compress_accepted compress_content
    decoded-compress_accepted accepted calls h = elim (Bool-cases (gz.contains accepted "gzip")) [
      | inr e ↦
          rw (e, sym (serve-body calls new_reply))
            (decoded-sent (serve calls new_reply).sent (serve calls new_reply)
              (serve-encoding calls new_reply h encoding-nil refl))
      | inl e ↦
          rw (e, serve_content-content calls [] [] none)
            (decoded-answer _ (headers_after calls []) (written calls) (status_after calls none)
              (headers_after-encoding calls [] h ∙ encoding-nil))
    ]

    module _ (hmac : Bytes → String → String) (key : String) where
      -- Whatever a handler writes, a client that gunzips what is marked as gzip reads it back from the
      -- response of CompressAndSign, with a key or without one and whatever the request accepts: where
      -- gzip is undone by its reader, and the handler does not set Content-Encoding itself.
      pub decoded-compress_and_sign :
          (accepted : String) (calls : List Call)
          → All Leaves calls
          → decoded gz (compress_and_sign gz hmac key accepted calls new_reply)
            ≡ some (written calls)
      unfolding compress_and_sign sign_and_compress
      decoded-compress_and_sign accepted calls h = elim (Bool-cases (key == "")) [
        | inl e ↦ rw e (decoded-compress_accepted accepted calls h)
        | inr e ↦
            let b = written calls in
            rw
              (
                e,
                serve_content-content calls [] [] none,
                sign_content-content hmac key (headers_after calls []) b (status_after calls none),
              )
              (decoded-answer _ (signed_headers hmac key b (headers_after calls [])) b
                (status_after calls none)
                (signed_headers-encoding hmac key (headers_after calls []) b
                  ∙ headers_after-encoding calls [] h
                  ∙ encoding-nil))
      ]
