-- ===== src/Auth/Totp/Laws.antt =====
-- The laws of the one-time codes and of the sealed secrets.
use shortr.Base.{
  ℕ, zero, suc, ◌+◌, ◌-◌, ◌≡◌, ◌≤◌, refl, ap, ◌∙◌, subst, inl, inr, false, List, [], ◌∷◌, ◌++◌,
  some, length, take, drop, ltb, All, Bool-cases, Option-cases, length-append, ◌==◌, arith,
}
use shortr.Base.Bytes.{Bytes, bytes_eq, bytes_eq_sound}
use shortr.Validate.{trim_space}
use shortr.Auth.Totp.{
  Crypto, totp_code, totp_step, match_step, verify_totp, without, seal_secret, open_secret, mfa_key,
}

take-append : (n : ℕ) (xs ys : Bytes) → length xs ≡ n → take n (xs ++ ys) ≡ xs
take-append zero [] ys h = refl
take-append zero (x ∷ xs) ys h = absurd (omega (arith, h))
take-append (suc n) [] ys h = absurd (omega (arith, h))
take-append (suc n) (x ∷ xs) ys h = ap (λ l. x ∷ l) (take-append n xs ys (omega (arith, h)))

drop-append : (n : ℕ) (xs ys : Bytes) → length xs ≡ n → drop n (xs ++ ys) ≡ ys
drop-append zero [] ys h = refl
drop-append zero (x ∷ xs) ys h = absurd (omega (arith, h))
drop-append (suc n) [] ys h = absurd (omega (arith, h))
drop-append (suc n) (x ∷ xs) ys h = drop-append n xs ys (omega (arith, h))

module _ (cr : Crypto) where
  match_step_sound {ℓ} :
      (P : ℕ → Type ℓ) (secret code : Bytes) (steps : List ℕ) (step : ℕ)
      → All P steps
      → match_step cr secret code steps ≡ some step
      → (totp_code cr secret step ≡ some code) × P step
  unfolding match_step
  match_step_sound P secret code [] step near h = cc
  match_step_sound P secret code (s ∷ steps) step (here, near) h =
      elim (Option-cases (totp_code cr secret s)) [
        | inl bad ↦ match_step_sound P secret code steps step near (ground (arith, bad))
        | inr (want, good) ↦ elim (Bool-cases (bytes_eq want code)) [
          | inr other ↦ match_step_sound P secret code steps step near (ground (arith, good, other))
          | inl same ↦
              let e : s ≡ step = ground (arith, good, same) in
              subst (λ t. (totp_code cr secret t ≡ some code) × P t) e
                (good ∙ ap some (bytes_eq_sound want code same), here)
        ]
      ]

  -- A code that is accepted is, without its spaces, the six-digit code of the step that is returned,
  -- which is at most one step away from that of the clock.
  pub verify_totp_sound :
      (secret code : Bytes) (now step : ℕ)
      → verify_totp cr secret code now ≡ some step
      → (totp_code cr secret step ≡ some (without b' ' (trim_space code)))
        × ((totp_step now ≤ step + 1) × (step ≤ totp_step now + 1))
  unfolding verify_totp
  verify_totp_sound secret code now step h =
      elim (Bool-cases (length (without b' ' (trim_space code)) == 6)) [
        | inr short ↦ absurd (ground (arith, short))
        | inl six ↦
            match_step_sound (λ s. (totp_step now ≤ s + 1) × (s ≤ totp_step now + 1)) secret
              (without b' ' (trim_space code))
              (totp_step now ∷ (totp_step now - 1) ∷ (totp_step now + 1) ∷ []) step
              (omega arith, (omega arith, (omega arith, tt))) (ground (arith, six))
      ]

  -- A secret that was sealed with a nonce of twelve bytes is opened by the same instance secret.
  pub open_secret-seal_secret :
      (nonce instance_secret plaintext sealed : Bytes)
      → length nonce ≡ 12
      → seal_secret cr (some nonce) instance_secret plaintext ≡ some sealed
      → open_secret cr instance_secret sealed ≡ some plaintext
  unfolding seal_secret open_secret
  open_secret-seal_secret n secret p sealed size h =
      let raw : Bytes = n ++ cr.gcm_seal (mfa_key cr secret) n p in
      let decoded : cr.unb64 sealed ≡ some raw = cc (h, cr.unb64_b64 raw) in
      let long : ltb (length raw) 12 ≡ false =
        ground (arith, length-append n (cr.gcm_seal (mfa_key cr secret) n p)) in
      let nonce : take 12 raw ≡ n = take-append 12 n (cr.gcm_seal (mfa_key cr secret) n p) size in
      let text : drop 12 raw ≡ cr.gcm_seal (mfa_key cr secret) n p =
        drop-append 12 n (cr.gcm_seal (mfa_key cr secret) n p) size in
      rw (decoded, long, nonce, text, open_secret) (cr.gcm_open_seal (mfa_key cr secret) n p)
