-- ===== src/Auth/SignedCookie.antt =====
-- internal/auth/signedcookie.go: a signed value that expires. HMAC, base64 and the decimal notation are
-- Go's; the model takes them with the laws that they document. Times are nanoseconds.
pub mod Laws
use shortr.Base.{
  ℕ, ◌+◌, ◌/◌, ◌≡◌, Bool, true, false, not, ◌&&◌, List, [], ◌∷◌, ◌++◌, Option, none, some, all, ltb,
  ◌==◌, if◌then◌else◌,
}
use shortr.Base.Bytes.{Bytes, bytes_eq}

pub record Codec : Type 0 where
  pub b64 : Bytes → Bytes
  pub unb64 : Bytes → Option Bytes
  pub format_int : ℕ → Bytes
  pub parse_int : Bytes → Option ℕ
  pub hmac : Bytes → Bytes → Bytes
  -- What is encoded is decoded; the URL alphabet has no dot; a number that is written is read.
  pub unb64_b64 : (s : Bytes) → unb64 (b64 s) ≡ some s
  pub b64_no_dot : (s : Bytes) → all (λ c. not (c == b'.')) (b64 s) ≡ true
  pub parse_format : (n : ℕ) → parse_int (format_int n) ≡ some n

abbrev pub seconds : ℕ → ℕ
seconds t = t / 1000000000

-- The text before the first dot and the text after it: a step of `strings.SplitN(token, ".", 3)`.
unfoldable pub split_dot : Bytes → Option (Bytes × Bytes)
split_dot [] = none
split_dot (c ∷ s) = elim (c == b'.') [
  | true ↦ some ([], s)
  | false ↦ elim (split_dot s) [ none ↦ none | some (a, b) ↦ some (c ∷ a, b) ]
]

module _ (cd : Codec) where
  open cd use {b64, unb64, format_int, parse_int, hmac}

  unfoldable pub compute_mac : Bytes → Bytes → Bytes → Bytes
  compute_mac secret payload exp = hmac secret (payload ++ 0 ∷ exp)

  unfoldable pub seal_value : Bytes → Bytes → ℕ → ℕ → Bytes
  seal_value secret payload ttl now =
      let exp = format_int (seconds (now + ttl)) in
      let mac = compute_mac secret payload exp in b64 payload ++ b'.' ∷ (b64 exp ++ b'.' ∷ b64 mac)

  -- The checks on the decoded parts.
  unfoldable pub open_parts : Bytes → ℕ → Option Bytes → Option Bytes → Option Bytes → Option Bytes
  open_parts secret now (some payload) (some exp) (some mac) =
      if not (bytes_eq mac (compute_mac secret payload exp)) then none else elim (parse_int exp) [
        | none ↦ none
        | some e ↦ if ltb e (seconds now) then none else some payload
      ]
  open_parts secret now _ _ _ = none

  unfoldable pub open_value : Bytes → Bytes → ℕ → Option Bytes
  unfolding open_parts
  open_value secret token now = elim (split_dot token) [
    | none ↦ none
    | some (p, rest) ↦ elim (split_dot rest) [
      | none ↦ none
      | some (e, m) ↦ open_parts secret now (unb64 p) (unb64 e) (unb64 m)
    ]
  ]
