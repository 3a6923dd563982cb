-- ===== src/Auth/Totp.antt =====
-- internal/auth/totp.go: one-time codes, sealed secrets and recovery codes. HMAC-SHA-1, AES-GCM,
-- SHA-256, base32 and base64 are Go's; the model takes them with laws that they document. A step is a
-- natural number: the clock stands at least half a minute after 1970.
pub mod Laws
pub mod Tests
use mathlib.Core.List.{reverse}
use shortr.Base.{
  ℕ, zero, suc, ◌+◌, ◌-◌, ◌*◌, ◌/◌, ◌%◌, ◌^◌, ◌≡◌, ◌≤◌, Bool, true, false, not, ◌&&◌, ◌||◌, List,
  [], ◌∷◌, ◌++◌, map, Option, none, some, length, get_or, take, drop, ltb, ◌==◌, if◌then◌else◌,
}
use shortr.Base.Bytes.{Bytes, codes, bytes_eq, to_lower}
use shortr.Base.Table.{remove_rows}
use shortr.Validate.{trim_space}
use shortr.Auth.SignedCookie.{seconds}

pub record Crypto : Type 0 where
  -- `b32.DecodeString` of the secret in upper case, without padding.
  pub unb32 : Bytes → Option Bytes
  pub hmac_sha1 : Bytes → Bytes → Bytes
  pub sha256 : Bytes → Bytes
  pub hex : Bytes → Bytes
  -- `base64.RawStdEncoding`
  pub b64 : Bytes → Bytes
  pub unb64 : Bytes → Option Bytes
  -- AES-GCM with the key and the nonce, whose size is 12.
  pub gcm_seal : Bytes → Bytes → Bytes → Bytes
  pub gcm_open : Bytes → Bytes → Bytes → Option Bytes
  pub hmac_sha1_length : (k m : Bytes) → length (hmac_sha1 k m) ≡ 20
  pub unb64_b64 : (s : Bytes) → unb64 (b64 s) ≡ some s
  pub gcm_open_seal : (k n p : Bytes) → gcm_open k n (gcm_seal k n p) ≡ some p

-- `strings.ReplaceAll(s, " ", "")`, for any byte.
abbrev pub without : ℕ → Bytes → Bytes
without c s = remove_rows (λ d. d == c) s

-- `strings.TrimRight(s, "=")`
unfoldable pub trim_padding : Bytes → Bytes
trim_padding s = reverse (trim_equals (reverse s))
  where
    trim_equals : Bytes → Bytes
    trim_equals [] = []
    trim_equals (c ∷ s) = let rest = trim_equals s in if c == b'=' then rest else c ∷ s

-- `strings.ToUpper`, on ASCII text.
abbrev pub to_upper : Bytes → Bytes
to_upper s = map (λ c. if (ltb 96 c) && (ltb c 123) then c - 32 else c) s

-- The last `n` bytes of a number, the highest first.
unfoldable pub big_endian : ℕ → ℕ → Bytes
big_endian zero v = []
big_endian (suc n) v = big_endian n (v / 256) ++ (v % 256) ∷ []

-- `%0*d` of a number below a power of ten.
unfoldable pub decimal : ℕ → ℕ → Bytes
decimal zero v = []
decimal (suc n) v = decimal n (v / 10) ++ (48 + v % 10) ∷ []

-- The four bytes at the offset in the last byte's low half, without the sign bit.
unfoldable pub dynamic_truncate : Bytes → ℕ
dynamic_truncate sum =
    let off = get_or sum (length sum - 1) 0 % 16 in
    let v =
      ((get_or sum off 0 * 256 + get_or sum (off + 1) 0) * 256 + get_or sum (off + 2) 0) * 256
      + get_or sum (off + 3) 0 in
    v % 2 ^ 31

unfoldable pub totp_step : ℕ → ℕ
totp_step now = seconds now / 30

abbrev pub recovery_alphabet : Bytes
recovery_alphabet = codes "abcdefghjkmnpqrstuvwxyz23456789"

-- The characters of the random bytes, a dash before every fourth but the first.
unfoldable pub recovery_chars : ℕ → Bytes → Bytes
recovery_chars j [] = []
recovery_chars j (b ∷ buf) =
    let c = get_or recovery_alphabet (b % length recovery_alphabet) 0 in
    let rest = recovery_chars (j + 1) buf in
    if (ltb 0 j) && (j % 4 == 0) then b'-' ∷ c ∷ rest else c ∷ rest

module _ (cr : Crypto) where
  open cr use {unb32, hmac_sha1, sha256, hex, b64, unb64, gcm_seal, gcm_open}

  unfoldable pub totp_code : Bytes → ℕ → Option Bytes
  totp_code secret step = elim (unb32 (to_upper (trim_padding secret))) [
    | none ↦ none
    | some key ↦ some (decimal 6 (dynamic_truncate (hmac_sha1 key (big_endian 8 step)) % 1000000))
  ]

  -- The loop over the steps.
  unfoldable pub match_step : Bytes → Bytes → List ℕ → Option ℕ
  match_step secret code [] = none
  match_step secret code (step ∷ steps) =
      let rest = match_step secret code steps in
      elim (totp_code secret step) [
        | none ↦ rest
        | some want ↦ if bytes_eq want code then some step else rest
      ]

  unfoldable pub verify_totp : Bytes → Bytes → ℕ → Option ℕ
  verify_totp secret code now =
      let code' = without b' ' (trim_space code) in
      let cur = totp_step now in
      if not (length code' == 6)
      then none
      else match_step secret code' (cur ∷ (cur - 1) ∷ (cur + 1) ∷ [])

  unfoldable pub mfa_key : Bytes → Bytes
  mfa_key instance_secret = sha256 (codes "shortr-mfa-v1:" ++ instance_secret)

  -- `nonce` is what `rand.Read` gives, `none` if it fails.
  unfoldable pub seal_secret : Option Bytes → Bytes → Bytes → Option Bytes
  seal_secret nonce instance_secret plaintext = elim nonce [
    | none ↦ none
    | some n ↦ some (b64 (n ++ gcm_seal (mfa_key instance_secret) n plaintext))
  ]

  unfoldable pub open_secret : Bytes → Bytes → Option Bytes
  open_secret instance_secret sealed = elim (unb64 sealed) [
    | none ↦ none
    | some raw ↦
        if ltb (length raw) 12
        then none
        else gcm_open (mfa_key instance_secret) (take 12 raw) (drop 12 raw)
  ]

  unfoldable pub hash_recovery_code : Bytes → Bytes
  hash_recovery_code code = hex (
      sha256 (codes "shortr-recovery:" ++ to_lower (without b' ' (without b'-' (trim_space code)))))

  -- A code and its hash for each buffer; a buffer that could not be read is `none`.
  unfoldable pub new_recovery_codes : List (Option Bytes) → Option (List Bytes × List Bytes)
  new_recovery_codes [] = some ([], [])
  new_recovery_codes (none ∷ reads) = none
  new_recovery_codes (some buf ∷ reads) = elim (new_recovery_codes reads) [
    | none ↦ none
    | some (cs, hs) ↦ let c = recovery_chars 0 buf in some (c ∷ cs, hash_recovery_code c ∷ hs)
  ]
