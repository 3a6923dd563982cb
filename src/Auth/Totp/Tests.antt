-- ===== src/Auth/Totp/Tests.antt =====
-- Tests of the one-time codes and the sealed secrets, with a small `Crypto`.
use shortr.Base.{ℕ, ◌+◌, ◌≡◌, ◌≤◌, refl, [], ◌∷◌, some, get_or}
use shortr.Base.Bytes.{codes}
use shortr.Validate.{trim_space, trim_left}
use shortr.Base.Table.{remove_rows, filter}
use shortr.Base.Bytes.{bytes_eq}
use shortr.Auth.Totp.{
  Crypto, totp_code, totp_step, match_step, verify_totp, without, seal_secret, open_secret, decimal,
  dynamic_truncate, big_endian, trim_padding,
}
use shortr.Auth.Totp.Laws.{verify_totp_sound, open_secret-seal_secret}

-- A MAC that shows the last byte of the message, so that the code of a step is its last byte.
abbrev pub small_crypto : Crypto
small_crypto = record {
  unb32 = some;
  hmac_sha1 = λ k m.
      0 ∷ 0 ∷ 0 ∷ get_or m 7 0 ∷ 0 ∷ 0 ∷ 0 ∷ 0 ∷ 0 ∷ 0 ∷ 0 ∷ 0 ∷ 0 ∷ 0 ∷ 0 ∷ 0 ∷ 0 ∷ 0 ∷ 0 ∷ 0 ∷ [];
  sha256 = λ s. s;
  hex = λ s. s;
  b64 = λ s. s;
  unb64 = some;
  gcm_seal = λ k n p. p;
  gcm_open = λ k n s. some s;
  hmac_sha1_length = λ k m. refl;
  unb64_b64 = λ s. refl;
  gcm_open_seal = λ k n p. refl;
}

abbrev minute : ℕ
minute = 61_000_000_000

verify_totp_sound_example :
    (totp_code small_crypto (codes "abc") 2 ≡ some (without b' ' (trim_space (codes " 000 002"))))
    × ((totp_step minute ≤ 2 + 1) × (2 ≤ totp_step minute + 1))
unfolding verify_totp match_step totp_code totp_step trim_space trim_left remove_rows filter
    bytes_eq decimal dynamic_truncate big_endian trim_padding
verify_totp_sound_example =
    verify_totp_sound small_crypto (codes "abc") (codes " 000 002") minute 2 refl

open_secret-seal_secret_example :
    open_secret small_crypto (codes "key") (codes "123456789012abc") ≡ some (codes "abc")
unfolding seal_secret
open_secret-seal_secret_example =
    open_secret-seal_secret small_crypto (codes "123456789012") (codes "key") (codes "abc")
      (codes "123456789012abc") refl refl
