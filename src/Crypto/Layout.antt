-- ===== src/Crypto/Layout.antt =====
-- The envelope is the length of the encrypted key in two bytes, the encrypted key, the nonce and the
-- ciphertext, one after the other: each `copy` fills the room that was made for it.
use mathlib.Core.List.{append_assoc, append-nil}
use go_metrics_stas.Prelude.{
  ℕ, zero, suc, ◌+◌, ◌≡◌, refl, ap, ◌∙◌, [], ◌∷◌, ◌++◌, length, length-append, arith,
}
use go_metrics_stas.Crypto.{Bytes, zeros, copy, copy_at, put_uint16, envelope}

pub length-zeros : (n : ℕ) → length (zeros n) ≡ n
unfolding zeros
length-zeros zero = refl
length-zeros (suc n) = ap suc (length-zeros n)

zeros-add : (m n : ℕ) → zeros (m + n) ≡ zeros m ++ zeros n
unfolding zeros
zeros-add zero n = ap zeros (omega arith)
zeros-add (suc m) n =
    let e : suc m + n ≡ suc (m + n) = omega arith in
    ap zeros e ∙ ap (λ (z : Bytes). 0 ∷ z) (zeros-add m n)

copy-append : (s z r : Bytes) → length z ≡ length s → copy s (z ++ r) ≡ s ++ r
unfolding copy
copy-append [] [] r h = refl
copy-append [] (y ∷ z) r h = absurd (omega arith)
copy-append (x ∷ s) [] r h = absurd (omega arith)
copy-append (x ∷ s) (y ∷ z) r h = ap (λ t. x ∷ t) (copy-append s z r (omega arith))

-- Filling the room behind what is written.
fill :
    (p s z r : Bytes) (i : ℕ)
    → i ≡ length p
    → length z ≡ length s
    → copy_at i s (p ++ (z ++ r)) ≡ (p ++ s) ++ r
unfolding copy_at
fill [] s z r zero e h = copy-append s z r h
fill [] s z r (suc i) e h = absurd (omega arith)
fill (x ∷ p) s z r zero e h = absurd (omega arith)
fill (x ∷ p) s z r (suc i) e h = ap (λ t. x ∷ t) (fill p s z r i (omega arith) h)

module _ (k n c : Bytes) where
  room :
      zeros (2 + length k + length n + length c)
      ≡ zeros 2 ++ (zeros (length k) ++ (zeros (length n) ++ (zeros (length c) ++ [])))
  room = simp (zeros-add, append_assoc, append-nil)

  -- What the three slices and the length field of an envelope hold.
  pub envelope-eq-append : envelope k n c ≡ put_uint16 (length k) ++ (k ++ (n ++ c))
  unfolding envelope zeros
  envelope-eq-append =
      let u = put_uint16 (length k) in
      rw
        (
          room,
          fill [] u (zeros 2) (zeros (length k) ++ (zeros (length n) ++ (zeros (length c) ++ []))) 0
              refl refl,
          fill u k (zeros (length k)) (zeros (length n) ++ (zeros (length c) ++ [])) 2 refl
              (length-zeros _),
          fill (u ++ k) n (zeros (length n)) (zeros (length c) ++ []) (2 + length k)
              (omega (arith, length-append u k)) (length-zeros _),
          fill ((u ++ k) ++ n) c (zeros (length c)) [] (2 + length k + length n)
              (omega (arith, length-append (u ++ k) n, length-append u k)) (length-zeros _),
        )
        (simp (append_assoc, append-nil))
