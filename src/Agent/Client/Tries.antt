-- ===== src/Agent/Client/Tries.antt =====
-- What the retries of `Do` send.
use mathlib.Core.List.{append_assoc}
use mathlib.Core.Path.{subst}
use go_metrics_stas.Prelude.{
  ℕ, zero, suc, ◌≤◌, ◌≡◌, refl, ◌∙◌, some, List, [], ◌∷◌, ◌++◌, length, arith, Bool-cases, inl, inr,
}
use go_metrics_stas.Http.{Bytes}
use go_metrics_stas.Model.{Metrics}
use go_metrics_stas.Outcome.{ok}
use go_metrics_stas.Crypto.{Ciphers, Draw, encrypt}
use go_metrics_stas.Agent.Client.{
  Post, Answer, broken, Wire, should_retry_http, after_try, tries, retry_schedule, do_request,
  Tools, MetricsClient, post_for, send_encrypted, send_zipped, send_json, send_batch,
}

abbrev pub repeat {ℓ} : {A : Type ℓ} → ℕ → A → List A
repeat zero a = []
repeat (suc n) a = a ∷ repeat n a

-- What the tries of a request may have sent on a network that had carried `old`: the request, `k`
-- times, each time with its whole body.
pub record Tried (waits : List ℕ) (p : Post) (old : List Post) (out : Answer × Wire) : Type 0 where
  pub k : ℕ
  pub tried_once : 1 ≤ k
  pub tries_bounded : k ≤ suc (length waits)
  pub sent_whole : out.1.sent ≡ old ++ repeat k p

Tried-cons :
    (t : ℕ) (waits : List ℕ) (p : Post) (old : List Post) (out : Answer × Wire)
    → Tried waits p (old ++ p ∷ []) out
    → Tried (t ∷ waits) p old out
Tried-cons t waits p old out d = record {
  k = suc d.k;
  tried_once = omega arith;
  tries_bounded = omega (arith, d.tries_bounded);
  sent_whole = d.sent_whole ∙ append_assoc old (p ∷ []) (repeat d.k p);
}

Tried-once :
    (t : ℕ) (waits : List ℕ) (p : Post) (old : List Post) (a : Answer) (w : Wire)
    → w.sent ≡ old ++ p ∷ []
    → Tried (t ∷ waits) p old (a, w)
Tried-once t waits p old a w h = record {
  k = 1;
  tried_once = omega arith;
  tries_bounded = omega arith;
  sent_whole = h;
}

module _ (t : ℕ) (waits : List ℕ) (p : Post) (old : List Post) where
  after_try-Tried :
      (a : Answer) (w : Wire) (again : Post → Wire → Answer × Wire)
      → p.body ≡ p.get_body
      → w.sent ≡ old ++ p ∷ []
      → Tried waits p w.sent (again p w)
      → Tried (t ∷ waits) p old (after_try again (a, record p { body = [] }, w))
  unfolding after_try
  after_try-Tried a w again whole h d = elim (Bool-cases (should_retry_http a)) [
    | inr r ↦ rw r (Tried-once t waits p old a w h)
    | inl r ↦ elim (Bool-cases (w.cancelled (length w.sent))) [
      | inl c ↦ rw (r, c) (Tried-once t waits p old broken w h)
      | inr c ↦
          let d' = subst (λ o. Tried waits p o (again p w)) h d in
          rw (r, c)
            (subst (λ b. Tried (t ∷ waits) p old (again (record p { body = b }) w)) whole
              (Tried-cons t waits p old (again p w) d'))
    ]
  ]

tries-Tried :
    (waits : List ℕ) (p : Post) (w : Wire)
    → p.body ≡ p.get_body
    → Tried waits p w.sent (tries waits p w)
unfolding tries
tries-Tried [] p w whole = record {
  k = 1;
  tried_once = omega arith;
  tries_bounded = omega arith;
  sent_whole = refl;
}
tries-Tried (t ∷ waits) p w whole =
    let w' : Wire = record w { sent = w.sent ++ p ∷ [] } in
    after_try-Tried t waits p w.sent (w.answer (length w.sent)) w' (tries waits) whole refl
      (tries-Tried waits p w' whole)

module _ (cs : Ciphers) (tools : Tools) (mc : MetricsClient cs) where
  pub send_batch_sends :
      (key_draw : Draw) (seed : Bytes) (nonce_draw : Draw) (m : Metrics) (metrics : List Metrics)
      (w : Wire) (json gz body : Bytes)
      → tools.encode_batch (m ∷ metrics) ≡ some json
      → tools.gzip json ≡ some gz
      → encrypt cs key_draw seed nonce_draw gz mc.public_key ≡ ok body
      → (k : ℕ) × (1 ≤ k)
        × (k ≤ 4)
        × ((send_batch cs tools mc key_draw seed nonce_draw (m ∷ metrics) w).1.sent
            ≡ w.sent ++ repeat k (post_for cs tools mc "/updates" json body))
  unfolding send_batch send_json send_zipped send_encrypted do_request
  send_batch_sends key_draw seed nonce_draw m metrics w json gz body e z c =
      let d =
        tries-Tried retry_schedule (post_for cs tools mc "/updates" json body) w
          (unfold post_for in refl) in
      (d.k, d.tried_once, d.tries_bounded, rw (e, z, c) d.sent_whole)
