-- ===== src/Server/Identity/Proven.antt =====
-- Where an identity comes from.
use shortr.Base.{
  ℕ, ◌≡◌, ◌≢◌, refl, sym, ap, ◌∙◌, subst, inl, inr, Bool, true, false, [], ◌++◌, Option, none, some,
  ltb, Bool-cases, Option-cases, arith,
}
use shortr.Base.Bytes.{Bytes, codes, bytes_eq}
use shortr.Base.Map.{lookup}
use shortr.Base.Table.{first}
use shortr.Store.{User, Store, select_user, Res, ok, err, get_user_by_id, is_active}
use shortr.Store.Types.{Session, ApiKey, OidcIdentity}
use shortr.Store.Accounts.{get_session, has_key_hash, is_linked}
use shortr.Store.Reads.{
  queried, get_user_by_id-found, get_user_by_id-queried, get_session-found, get_session-queried,
}
use shortr.Server.Console.{Env, hash_token}
use shortr.Server.Plane.{Plane, plane_all, plane_public, plane_admin}
use shortr.Server.Identity.{
  Headers, Provider, Credential, by_session, by_key, Identity, is_past, oidc_token_scopes,
  session_user, try_cookie,
}

-- The credential that a request carries for an active stored user: the token of a stored session that
-- has not expired, on a listener that takes cookies; a stored key that is neither revoked nor expired;
-- or an access token of a linked account, which gets the three scopes of such tokens.
pub data Proven (env : Env) (now : ℕ) (oidc : Option Provider) (h : Headers) (st : Store) (u : User)
    : Credential → Type 0 where
  by_cookie :
      (token : Bytes) (s : Session)
      → h.cookie ≡ some token
      → h.plane ≢ plane_public
      → lookup (hash_token env.crypto token) st.sessions ≡ some s
      → ltb s.expires_at now ≡ false
      → select_user s.user_id st.users ≡ some u
      → is_active u ≡ true
      → Proven env now oidc h st u (by_session s)
  by_api_key :
      (raw : Bytes) (k : ApiKey)
      → h.authorization ≡ codes "Bearer " ++ raw
      → first (has_key_hash (hash_token env.crypto raw)) st.api_keys ≡ some k
      → k.revoked_at ≡ none
      → is_past now k.expires_at ≡ false
      → select_user k.user_id st.users ≡ some u
      → is_active u ≡ true
      → Proven env now oidc h st u (by_key k)
  by_access_token :
      (raw sub : Bytes) (p : Provider) (o : OidcIdentity) (k : ApiKey)
      → h.authorization ≡ codes "Bearer " ++ raw
      → oidc ≡ some p
      → p.verify raw ≡ some sub
      → first (is_linked p.issuer sub) st.oidc_identities ≡ some o
      → k.scopes ≡ oidc_token_scopes
      → select_user o.user_id st.users ≡ some u
      → is_active u ≡ true
      → Proven env now oidc h st u (by_key k)

-- The outcome of a handler's search for an identity.
abbrev pub AllProven : Env → ℕ → Option Provider → Headers → Store → Option Identity → Type 0
AllProven env now oidc h st none = Unit
AllProven env now oidc h st (some id) = Proven env now oidc h st id.user id.credential

-- The tables that are read.
abbrev pub SameRows : Store → Store → Type 0
SameRows st st' =
    (st'.users ≡ st.users)
    × (st'.api_keys ≡ st.api_keys)
    × (st'.oidc_identities ≡ st.oidc_identities)

pub SameRows-queried : (st st' : Store) → st' ≡ queried st → SameRows st st'
SameRows-queried st st' e =
    (ap (λ s. s.users) e, ap (λ s. s.api_keys) e, ap (λ s. s.oidc_identities) e)

pub SameRows-trans : (a b c : Store) → SameRows a b → SameRows b c → SameRows a c
SameRows-trans a b c (u, k, o) (u', k', o') = (u' ∙ u, k' ∙ k, o' ∙ o)

-- The outcome of the cookie: an answer, or the header is read next.
abbrev pub Answered :
    Env → ℕ → Option Provider → Headers → Store → Option (Option Identity) → Store → Type 0
Answered env now oidc h st none st' = SameRows st st'
Answered env now oidc h st (some id) st' = AllProven env now oidc h st id

module _ (env : Env) (now : ℕ) (oidc : Option Provider) (h : Headers) (st : Store) where
  session_user-Answered :
      (token : Bytes) (s : Session) (st' : Store)
      → SameRows st st'
      → h.cookie ≡ some token
      → h.plane ≢ plane_public
      → lookup (hash_token env.crypto token) st.sessions ≡ some s
      → Answered env now oidc h st (session_user env now s st').0 (session_user env now s st').1
  unfolding session_user
  session_user-Answered token s st' same sent plane here =
      elim (Bool-cases (ltb s.expires_at now)) [
        | inl old ↦ rw (old, session_user) tt
        | inr valid ↦ cases valid (get_user_by_id s.user_id st').0 refl
      ]
    where
      then_same : SameRows st (get_user_by_id s.user_id st').1
      then_same = SameRows-trans st st' (get_user_by_id s.user_id st').1 same (
          SameRows-queried st' (get_user_by_id s.user_id st').1
            (get_user_by_id-queried s.user_id st'))

      cases :
          ltb s.expires_at now ≡ false
          → (r : Res User) → (get_user_by_id s.user_id st').0 ≡ r
          → Answered env now oidc h st (session_user env now s st').0 (session_user env now s st').1
      cases valid (err e) q = rw (valid, q, session_user) then_same
      cases valid (ok u) q = elim (Bool-cases (is_active u)) [
        | inr off ↦ rw (valid, q, off, session_user) then_same
        | inl active ↦
            rw (valid, q, active, session_user)
              (by_cookie token s sent plane here valid
                (ap (select_user s.user_id) (sym same.0) ∙ get_user_by_id-found s.user_id st' u q)
                active)
      ]

  pub try_cookie-Answered :
      Answered env now oidc h st (try_cookie env now h st).0 (try_cookie env now h st).1
  unfolding try_cookie
  try_cookie-Answered = elim (Option-cases h.cookie) [
    | inl absent ↦ rw (absent, try_cookie) (refl, refl, refl)
    | inr (token, sent) ↦ elim (Bool-cases (bytes_eq token [])) [
      | inl empty ↦ rw (sent, empty, try_cookie) (refl, refl, refl)
      | inr given ↦ by_plane token sent given h.plane refl
    ]
  ]
    where
      goal : Type 0
      goal = Answered env now oidc h st (try_cookie env now h st).0 (try_cookie env now h st).1

      read : (token : Bytes) → Res Session × Store
      read token = get_session (hash_token env.crypto token) st

      by_row :
          (token : Bytes)
          → h.cookie ≡ some token
          → bytes_eq token [] ≡ false
          → (p : Plane) → h.plane ≡ p
          → (elim p as (λ x. Bool) [ plane_public ↦ true | _ ↦ false ]) ≡ false
          → h.plane ≢ plane_public
          → (r : Res Session) → (read token).0 ≡ r
          → goal
      by_row token sent given p is_p open_ other (err e) q =
          rw (sent, given, is_p, open_, q, try_cookie)
            (SameRows-queried st (read token).1
              (get_session-queried (hash_token env.crypto token) st))
      by_row token sent given p is_p open_ other (ok s) q =
          let e : try_cookie env now h st ≡ session_user env now s (read token).1 =
            simp (sent, given, is_p, open_, q, try_cookie) in
          subst (λ x. Answered env now oidc h st x.0 x.1) (sym e)
            (session_user-Answered token s (read token).1
              (SameRows-queried st (read token).1
                (get_session-queried (hash_token env.crypto token) st))
              sent other (get_session-found (hash_token env.crypto token) st s q))

      by_plane :
          (token : Bytes)
          → h.cookie ≡ some token
          → bytes_eq token [] ≡ false
          → (p : Plane) → h.plane ≡ p
          → goal
      by_plane token sent given plane_public e = rw (sent, given, e, try_cookie) (refl, refl, refl)
      by_plane token sent given plane_all e =
          by_row token sent given plane_all e refl (λ x. ground (arith, e, x)) (read token).0 refl
      by_plane token sent given plane_admin e =
          by_row token sent given plane_admin e refl (λ x. ground (arith, e, x)) (read token).0 refl
