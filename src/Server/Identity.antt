-- ===== src/Server/Identity.antt =====
-- internal/server/auth_middleware.go: who a request comes from, and what the routes require of it.
-- `auth.ConstantTimeEqual` is equality; the verification of an access token is go-oidc's.
pub mod Proven
pub mod Resolve
pub mod Guards
pub mod Tests
use shortr.Base.{
  ℕ, ◌+◌, ◌-◌, Bool, true, false, not, ◌&&◌, ◌||◌, List, [], ◌∷◌, ◌++◌, Option, none, some, is_some,
  length, any, ltb, ◌==◌, if◌then◌else◌,
}
use shortr.Base.Bytes.{Bytes, codes, bytes_eq, has_prefix, trim_prefix}
use shortr.Base.Table.{filter}
use shortr.Store.{User, Store, Res, ok, err, get_user_by_id, is_active, is_admin}
use shortr.Store.Types.{Session, ApiKey, OidcIdentity}
use shortr.Store.Accounts.{
  get_session, touch_session, get_api_key_by_hash, touch_api_key, get_oidc_identity,
}
use shortr.Server.Console.{
  Env, Caller, ApiError, unauthenticated, forbidden, csrf_failed, mfa_enroll_required,
  missing_scope, hash_token,
}
use shortr.Server.Plane.{Plane, plane_public, PlaneConfig, same_origin}
use shortr.Server.Mfa.{mfa_gate_allows, mfa_enroll_required as is_enroll_required}
use shortr.Server.Redirect.{Method, get, head, options}

-- What the middleware reads of a request. `origin` and `csrf_header` are empty if they are absent.
pub record Headers : Type 0 where
  pub path : Bytes
  pub method : Method
  pub plane : Plane
  pub cookie : Option Bytes
  pub authorization : Bytes
  pub origin : Bytes
  pub csrf_header : Bytes
  pub host : Bytes

-- The provider of identities: `none` if it is not configured. `verify` is the subject of a token.
pub record Provider : Type 0 where
  pub issuer : Bytes
  pub audiences : List Bytes
  pub verify : Bytes → Option Bytes

-- A session, or an API key; an access token stands for a key.
pub data Credential : Type 0 where
  by_session : Session → Credential
  by_key : ApiKey → Credential

pub record Identity : Type 0 where
  pub user : User
  pub credential : Credential

abbrev pub oidc_token_scopes : List Bytes
oidc_token_scopes = codes "links:read" ∷ codes "links:write" ∷ codes "stats:read" ∷ []

-- `t.Before(now)` of a time that may be unset.
abbrev pub is_past : ℕ → Option ℕ → Bool
is_past now t = elim t [ none ↦ false | some x ↦ ltb x now ]

unfoldable pub resolve_oidc_bearer : Provider → Bytes → Store → Option Identity × Store
resolve_oidc_bearer p raw st = elim (p.verify raw) [
  | none ↦ (none, st)
  | some sub ↦
      let (o, st') = get_oidc_identity p.issuer sub st in
      elim o [
        | err e ↦ (none, st')
        | ok oid ↦
            let (r, st'') = get_user_by_id oid.user_id st' in
            elim r [
              | err e ↦ (none, st'')
              | ok u ↦
                  let key : ApiKey = record {
                    id = codes "oidc:" ++ sub;
                    user_id = u.id;
                    name = codes "SSO access token";
                    prefix = [];
                    key_hash = [];
                    scopes = oidc_token_scopes;
                    last_used_at = none;
                    expires_at = none;
                    revoked_at = none;
                    created_at = 0;
                  } in
                  let id : Identity = record { user = u; credential = by_key key } in
                  if not (is_active u) then (none, st'') else (some id, st'')
            ]
      ]
]

module _ (env : Env) (now : ℕ) where
  -- A session that is found: its answer is final if it has expired, and `none` otherwise if the
  -- session's user does not count, so that the header is read next.
  unfoldable pub session_user : Session → Store → Option (Option Identity) × Store
  session_user s st =
      if ltb s.expires_at now
      then (some none, st)
      else let (r, st') = get_user_by_id s.user_id st in
        elim r [
          | err e ↦ (none, st')
          | ok u ↦
              let id : Identity = record { user = u; credential = by_session s } in
              let st'' : Store =
                if ltb 300000000000 (now - s.last_seen_at)
                then (touch_session s.id now st').1
                else st' in
              if is_active u then (some (some id), st'') else (none, st')
        ]

  -- The session cookie; a cookie is worth nothing on the public listener.
  unfoldable pub try_cookie : Headers → Store → Option (Option Identity) × Store
  try_cookie h st = elim h.cookie [
    | none ↦ (none, st)
    | some v ↦
        if bytes_eq v [] || elim h.plane [ plane_public ↦ true | _ ↦ false ]
        then (none, st)
        else let (r, st') = get_session (hash_token env.crypto v) st in
          elim r [ err e ↦ (none, st') | ok s ↦ session_user s st' ]
  ]

  unfoldable pub key_user : ApiKey → Store → Option Identity × Store
  key_user k st =
      if is_some k.revoked_at || is_past now k.expires_at
      then (none, st)
      else let (r, st') = get_user_by_id k.user_id st in
        elim r [
          | err e ↦ (none, st')
          | ok u ↦
              let id : Identity = record { user = u; credential = by_key k } in
              let st'' : Store =
                if elim k.last_used_at [ none ↦ true | some t ↦ ltb 60000000000 (now - t) ]
                then (touch_api_key k.id now st').1
                else st' in
              if is_active u then (some id, st'') else (none, st')
        ]

  -- The Authorization header.
  unfoldable pub try_bearer : Option Provider → Headers → Store → Option Identity × Store
  unfolding filter
  try_bearer oidc h st =
      if not (has_prefix (codes "Bearer ") h.authorization)
      then (none, st)
      else let raw = trim_prefix (codes "Bearer ") h.authorization in
        if has_prefix (codes "sk_") raw
        then (let (r, st') = get_api_key_by_hash (hash_token env.crypto raw) st in
            elim r [ err e ↦ (none, st') | ok k ↦ key_user k st' ])
        else elim oidc [
          | none ↦ (none, st)
          | some p ↦
              if ltb 0 (length p.audiences) && (length (filter (λ c. c == b'.') raw) == 2)
              then resolve_oidc_bearer p raw st
              else (none, st)
        ]

  unfoldable pub resolve_identity : Option Provider → Headers → Store → Option Identity × Store
  resolve_identity oidc h st =
      let (r, st') = try_cookie h st in
      elim r [ some id ↦ (id, st') | none ↦ try_bearer oidc h st' ]

unfoldable pub has_scope : List Bytes → Bytes → Bool
has_scope scopes want = any (λ s. bytes_eq s want || bytes_eq s (codes "admin:*")) scopes

-- What a route requires: any user, a browser session, an admin, or a scope.
pub data Guard : Type 0 where
  auth session_only admin_only : Guard
  scope : Bytes → Guard

abbrev pub session_of : Identity → Option Session
session_of id = elim id.credential [ by_session s ↦ some s | by_key k ↦ none ]

abbrev pub key_of : Identity → Option ApiKey
key_of id = elim id.credential [ by_session s ↦ none | by_key k ↦ some k ]

-- The test of a guard after `requireAuth`; `none` lets the handler run.
unfoldable pub check_guard : Guard → Identity → Option ApiError
unfolding has_scope
check_guard auth id = none
check_guard session_only id = if is_some (key_of id) then some forbidden else none
check_guard admin_only id = if not (is_admin id.user) then some forbidden else elim (key_of id) [
  | none ↦ none
  | some k ↦
      if has_scope k.scopes (codes "admin:*") then none else some (missing_scope (codes "admin:*"))
]
check_guard (scope want) id = elim (key_of id) [
  | none ↦ none
  | some k ↦ if has_scope k.scopes want then none else some (missing_scope want)
]

-- `requireAuth`, `requireSession`, `requireAdmin` and `requireScope`: the user, or the error.
unfoldable pub require : Env → Guard → Caller → Option Identity → Store → Option ApiError × Store
unfolding check_guard
require env g caller who st = elim who [
  | none ↦ (some unauthenticated, st)
  | some id ↦
      if mfa_gate_allows caller.path
      then (check_guard g id, st)
      else let (blocked, st') =
          is_enroll_required env (record caller { session = session_of id }) id.user st in
        if blocked then (some mfa_enroll_required, st') else (check_guard g id, st')
]

abbrev pub is_safe : Method → Bool
is_safe get = true
is_safe head = true
is_safe options = true
is_safe _ = false

-- Whether the request reaches the handler.
unfoldable pub csrf_middleware : PlaneConfig → Headers → Option Session → Bool
csrf_middleware cfg h session = if is_safe h.method then true else elim session [
  | none ↦ true
  | some s ↦
      if not (bytes_eq h.origin []) && not (same_origin cfg h.plane h.host h.origin)
      then false
      else not (bytes_eq h.csrf_header []) && bytes_eq h.csrf_header s.csrf_token
]
