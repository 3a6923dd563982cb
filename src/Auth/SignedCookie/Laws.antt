-- ===== src/Auth/SignedCookie/Laws.antt =====
-- What opening a sealed value gives, and what an opened value proves.
use shortr.Base.{
  ℕ, ◌+◌, ◌≤◌, ◌≡◌, refl, true, not, [], ◌∷◌, ◌++◌, Option, none, some, all, ltb, ◌==◌,
  if◌then◌else◌, Option-cases, inl, inr, arith,
}
use shortr.Base.Bytes.{Bytes, bytes_eq_refl, bytes_eq_iff}
use shortr.Auth.SignedCookie.{
  Codec, seconds, split_dot, compute_mac, seal_value, open_parts, open_value,
}

split_dot-append :
    (a b : Bytes) → all (λ c. not (c == b'.')) a ≡ true → split_dot (a ++ b'.' ∷ b) ≡ some (a, b)
unfolding split_dot
split_dot-append [] b h = refl
split_dot-append (c ∷ a) b h = ground (arith, split_dot-append a b)

module _ (cd : Codec) (secret : Bytes) where
  -- A sealed value opens to its payload until the second of its expiry is over, and not after it.
  pub open_value-seal_value :
      (payload : Bytes) (ttl now now' : ℕ)
      → open_value cd secret (seal_value cd secret payload ttl now) now'
        ≡ (if ltb (seconds (now + ttl)) (seconds now') then none else some payload)
  unfolding open_value seal_value
  open_value-seal_value payload ttl now now' =
      let exp = cd.format_int (seconds (now + ttl)) in
      let mac = compute_mac cd secret payload exp in
      rw
        (
          split_dot-append (cd.b64 payload) (cd.b64 exp ++ b'.' ∷ cd.b64 mac)
              (cd.b64_no_dot payload),
          open_value,
        )
        (rw (split_dot-append (cd.b64 exp) (cd.b64 mac) (cd.b64_no_dot exp), open_value)
          (rw (cd.unb64_b64 payload, cd.unb64_b64 exp, cd.unb64_b64 mac, open_parts)
            (rw (bytes_eq_refl mac, cd.parse_format (seconds (now + ttl))))))

  parts_sound :
      (now : ℕ) (p e m : Option Bytes) (payload : Bytes)
      → open_parts cd secret now p e m ≡ some payload
      → (p ≡ some payload)
        × ((exp : Bytes) × (expiry : ℕ) × (e ≡ some exp)
            × (m ≡ some (compute_mac cd secret payload exp))
            × (cd.parse_int exp ≡ some expiry)
            × (seconds now ≤ expiry))
  unfolding open_parts
  parts_sound now (some p) (some e) (some m) payload h = elim (Option-cases (cd.parse_int e)) [
    | inl bad ↦ absurd (ground arith)
    | inr (n, good) ↦ (
      ground arith,
      (e, n, refl, ground (arith, bytes_eq_iff m (compute_mac cd secret p e)), good, ground arith),
    )
  ]
  parts_sound now none _ _ payload h = absurd (ground arith)
  parts_sound now (some p) none _ payload h = absurd (ground arith)
  parts_sound now (some p) (some e) none payload h = absurd (ground arith)

  -- Whatever token a browser sends, OpenValue returns a payload only if the token has three parts that
  -- decode to the payload, to an expiry that has not passed, and to the MAC of the two under the
  -- secret.
  pub open_value_sound :
      (token payload : Bytes) (now : ℕ)
      → open_value cd secret token now ≡ some payload
      → (p : Bytes) × (e : Bytes) × (m : Bytes) × (rest : Bytes) × (exp : Bytes) × (expiry : ℕ)
        × (split_dot token ≡ some (p, rest))
        × (split_dot rest ≡ some (e, m))
        × (cd.unb64 p ≡ some payload)
        × (cd.unb64 e ≡ some exp)
        × (cd.unb64 m ≡ some (compute_mac cd secret payload exp))
        × (cd.parse_int exp ≡ some expiry)
        × (seconds now ≤ expiry)
  unfolding open_value
  open_value_sound token payload now h = elim (Option-cases (split_dot token)) [
    | inl bad ↦ absurd (ground arith)
    | inr ((p, rest), one) ↦ elim (Option-cases (split_dot rest)) [
      | inl bad ↦ absurd (ground arith)
      | inr ((e, m), two) ↦
          let (text, (exp, expiry, dated, signed, parsed, live)) =
            parts_sound now (cd.unb64 p) (cd.unb64 e) (cd.unb64 m) payload (ground arith) in
          (p, e, m, rest, exp, expiry, one, two, text, dated, signed, parsed, live)
    ]
  ]
