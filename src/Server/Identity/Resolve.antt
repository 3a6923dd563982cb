-- ===== src/Server/Identity/Resolve.antt =====
-- The whole of `resolveIdentity`.
use shortr.Base.{
  ℕ, ◌≡◌, refl, sym, ap, ◌∙◌, subst, inl, inr, true, false, ◌&&◌, ◌++◌, Option, none, some, length,
  ltb, ◌==◌, Bool-cases, Option-cases,
}
use shortr.Base.Bytes.{Bytes, codes, has_prefix, trim_prefix, append-trim_prefix}
use shortr.Base.Table.{first, filter}
use shortr.Store.{User, Store, select_user, Res, ok, err, get_user_by_id, is_active}
use shortr.Store.Types.{ApiKey, OidcIdentity}
use shortr.Store.Accounts.{get_api_key_by_hash, get_oidc_identity, has_key_hash, is_linked}
use shortr.Store.Reads.{
  get_user_by_id-found, get_api_key_by_hash-found, get_api_key_by_hash-queried,
  get_oidc_identity-found, get_oidc_identity-queried,
}
use shortr.Server.Console.{Env, hash_token}
use shortr.Server.Identity.{
  Headers, Provider, Credential, Identity, is_past, resolve_oidc_bearer, try_cookie, key_user,
  try_bearer, resolve_identity,
}
use shortr.Server.Identity.Proven.{
  by_api_key, by_access_token, AllProven, SameRows, SameRows-queried, SameRows-trans, Answered,
  try_cookie-Answered,
}

module _ (env : Env) (now : ℕ) (oidc : Option Provider) (h : Headers) (st st' : Store)
    (same : SameRows st st') (raw : Bytes) (sent : h.authorization ≡ codes "Bearer " ++ raw) where
  key_user-AllProven :
      (k : ApiKey) (st'' : Store)
      → SameRows st st''
      → first (has_key_hash (hash_token env.crypto raw)) st.api_keys ≡ some k
      → AllProven env now oidc h st (key_user env now k st'').0
  unfolding key_user
  key_user-AllProven k st'' rows here = elim (Option-cases k.revoked_at) [
    | inr (t, revoked) ↦ rw (revoked, key_user) tt
    | inl kept ↦ elim (Bool-cases (is_past now k.expires_at)) [
      | inl old ↦
          let e : key_user env now k st'' ≡ (none, st'') = simp (kept, old, key_user) in
          subst (λ r. AllProven env now oidc h st r.0) (sym e) tt
      | inr valid ↦ cases kept valid (get_user_by_id k.user_id st'').0 refl
    ]
  ]
    where
      cases :
          k.revoked_at ≡ none
          → is_past now k.expires_at ≡ false
          → (r : Res User) → (get_user_by_id k.user_id st'').0 ≡ r
          → AllProven env now oidc h st (key_user env now k st'').0
      cases kept valid (err e) q =
          let n : (key_user env now k st'').0 ≡ none = simp (kept, valid, q, key_user) in
          subst (AllProven env now oidc h st) (sym n) tt
      cases kept valid (ok u) q = elim (Bool-cases (is_active u)) [
        | inr off ↦
            let n : (key_user env now k st'').0 ≡ none = simp (kept, valid, q, off, key_user) in
            subst (AllProven env now oidc h st) (sym n) tt
        | inl active ↦
            let id : Identity = record { user = u; credential = Credential.by_key k } in
            let n : (key_user env now k st'').0 ≡ some id =
              simp (kept, valid, q, active, key_user) in
            subst (AllProven env now oidc h st) (sym n) (
              by_api_key raw k sent here kept valid
                (ap (select_user k.user_id) (sym rows.0) ∙ get_user_by_id-found k.user_id st'' u q)
                active)
      ]

  resolve_oidc_bearer-AllProven :
      (p : Provider) → oidc ≡ some p → AllProven env now oidc h st (resolve_oidc_bearer p raw st').0
  unfolding resolve_oidc_bearer
  resolve_oidc_bearer-AllProven p on = elim (Option-cases (p.verify raw)) [
    | inl bad ↦ rw (bad, resolve_oidc_bearer) tt
    | inr (sub, good) ↦ by_row sub good (get_oidc_identity p.issuer sub st').0 refl
  ]
    where
      linked : Bytes → Res OidcIdentity × Store
      linked sub = get_oidc_identity p.issuer sub st'

      by_user :
          (sub : Bytes)
          → p.verify raw ≡ some sub
          → (o : OidcIdentity) → (linked sub).0 ≡ ok o
          → (r : Res User) → (get_user_by_id o.user_id (linked sub).1).0 ≡ r
          → AllProven env now oidc h st (resolve_oidc_bearer p raw st').0
      by_user sub good o found (err e) q = rw (good, found, q, resolve_oidc_bearer) tt
      by_user sub good o found (ok u) q = elim (Bool-cases (is_active u)) [
        | inr off ↦ rw (good, found, q, off, resolve_oidc_bearer) tt
        | inl active ↦
            rw (good, found, q, active, resolve_oidc_bearer)
              (by_access_token raw sub p o _ sent on good
                (ap (first (is_linked p.issuer sub)) (sym same.2)
                  ∙ get_oidc_identity-found p.issuer sub st' o found)
                refl
                (ap (select_user o.user_id) (
                    sym same.0
                    ∙ sym (ap (λ s. s.users) (get_oidc_identity-queried p.issuer sub st')))
                  ∙ get_user_by_id-found o.user_id (linked sub).1 u q)
                active)
      ]

      by_row :
          (sub : Bytes)
          → p.verify raw ≡ some sub
          → (r : Res OidcIdentity) → (linked sub).0 ≡ r
          → AllProven env now oidc h st (resolve_oidc_bearer p raw st').0
      by_row sub good (err e) q = rw (good, q, resolve_oidc_bearer) tt
      by_row sub good (ok o) q =
          by_user sub good o q (get_user_by_id o.user_id (linked sub).1).0 refl

module _ (env : Env) (now : ℕ) (oidc : Option Provider) (h : Headers) (st : Store) where
  try_bearer-AllProven :
      (st' : Store)
      → SameRows st st'
      → AllProven env now oidc h st (try_bearer env now oidc h st').0
  unfolding try_bearer
  try_bearer-AllProven st' same = elim (Bool-cases (has_prefix (codes "Bearer ") h.authorization)) [
    | inr absent ↦ rw (absent, try_bearer) tt
    | inl given ↦ elim (Bool-cases (has_prefix (codes "sk_") raw)) [
      | inl ours ↦ by_row given ours (get_api_key_by_hash (hash_token env.crypto raw) st').0 refl
      | inr foreign ↦ elim (Option-cases oidc) [
        | inl off ↦
            let n : (try_bearer env now oidc h st').0 ≡ none =
              simp (given, foreign, off, try_bearer) in
            subst (AllProven env now oidc h st) (sym n) tt
        | inr (p, on) ↦
            elim (Bool-cases
              (ltb 0 (length p.audiences) && (length (filter (λ c. c == b'.') raw) == 2))) [
                | inr other ↦
                    let n : (try_bearer env now oidc h st').0 ≡ none =
                      simp (given, foreign, on, other, try_bearer) in
                    subst (AllProven env now oidc h st) (sym n) tt
                | inl token ↦
                    let n : (try_bearer env now oidc h st').0 ≡ (resolve_oidc_bearer p raw st').0 =
                      simp (given, foreign, on, token, try_bearer) in
                    subst (AllProven env now oidc h st) (sym n) (
                      resolve_oidc_bearer-AllProven env now oidc h st st' same raw (sent given) p
                        on)
              ]
      ]
    ]
  ]
    where
      raw : Bytes
      raw = trim_prefix (codes "Bearer ") h.authorization

      sent :
          has_prefix (codes "Bearer ") h.authorization ≡ true
          → h.authorization ≡ codes "Bearer " ++ raw
      sent given = append-trim_prefix (codes "Bearer ") h.authorization given

      read : Res ApiKey × Store
      read = get_api_key_by_hash (hash_token env.crypto raw) st'

      rows : SameRows st read.1
      rows = SameRows-trans st st' read.1 same (
          SameRows-queried st' read.1 (get_api_key_by_hash-queried (hash_token env.crypto raw) st'))

      by_row :
          has_prefix (codes "Bearer ") h.authorization ≡ true
          → has_prefix (codes "sk_") raw ≡ true
          → (r : Res ApiKey) → read.0 ≡ r
          → AllProven env now oidc h st (try_bearer env now oidc h st').0
      by_row given ours (err e) q =
          let n : (try_bearer env now oidc h st').0 ≡ none = simp (given, ours, q, try_bearer) in
          subst (AllProven env now oidc h st) (sym n) tt
      by_row given ours (ok k) q =
          let n : (try_bearer env now oidc h st').0 ≡ (key_user env now k read.1).0 =
            simp (given, ours, q, try_bearer) in
          subst (AllProven env now oidc h st) (sym n) (
            key_user-AllProven env now oidc h st st' same raw (sent given) k read.1 rows (
              ap (first (has_key_hash (hash_token env.crypto raw))) (sym same.1)
              ∙ get_api_key_by_hash-found (hash_token env.crypto raw) st' k q))

  -- A request has an identity only if it carries a credential of an active user that is stored: on a
  -- listener that takes cookies, the token of a stored session that has not expired; or in its
  -- Authorization header a stored API key that is neither revoked nor expired; or there a token that the
  -- configured provider verifies and whose subject is linked to the user, and then it has only the
  -- scopes of such tokens. Failing statements give no identity that the tables do not.
  pub resolve_identity-AllProven :
      AllProven env now oidc h st (resolve_identity env now oidc h st).0
  unfolding resolve_identity
  resolve_identity-AllProven = cases (try_cookie env now h st).0 refl
    where
      cases :
          (r : Option (Option Identity))
          → (try_cookie env now h st).0 ≡ r
          → AllProven env now oidc h st (resolve_identity env now oidc h st).0
      cases none q =
          let n : (resolve_identity env now oidc h st).0
              ≡ (try_bearer env now oidc h (try_cookie env now h st).1).0 =
            simp (q, resolve_identity) in
          subst (AllProven env now oidc h st) (sym n) (
            try_bearer-AllProven (try_cookie env now h st).1 (
              subst (λ o. Answered env now oidc h st o (try_cookie env now h st).1) q
                (try_cookie-Answered env now oidc h st)))
      cases (some id) q =
          let n : (resolve_identity env now oidc h st).0 ≡ id = simp (q, resolve_identity) in
          subst (AllProven env now oidc h st) (sym n) (
            subst (λ o. Answered env now oidc h st o (try_cookie env now h st).1) q
              (try_cookie-Answered env now oidc h st))
