-- ===== src/Server/Identity/Guards.antt =====
-- What a request needs to reach a handler.
use shortr.Base.{
  ◌≡◌, ◌≢◌, refl, ◌⊎◌, inl, inr, true, false, [], Option, none, some, Bool-cases, arith,
}
use shortr.Base.Bytes.{Bytes, codes, bytes_eq, bytes_eq_sound, bytes_eq_iff}
use shortr.Store.{Store, is_admin}
use shortr.Store.Types.{Session}
use shortr.Server.Console.{Env, Caller}
use shortr.Server.Plane.{PlaneConfig, same_origin}
use shortr.Server.Mfa.{mfa_gate_allows, mfa_enroll_required}
use shortr.Server.Identity.{
  Headers, Credential, by_session, by_key, Identity, Guard, auth, session_only, admin_only, scope,
  has_scope, check_guard, require, session_of, is_safe, csrf_middleware,
}

-- The scope is listed, or the one of administrators is.
abbrev pub Grants : Bytes → Credential → Type 0
Grants want (by_session s) = Unit
Grants want (by_key k) = has_scope k.scopes want ≡ true

-- What a guard lets through.
abbrev pub Permits : Guard → Identity → Type 0
Permits auth id = Unit
Permits session_only id = (s : Session) × (id.credential ≡ by_session s)
Permits admin_only id = (is_admin id.user ≡ true) × Grants (codes "admin:*") id.credential
Permits (scope want) id = Grants want id.credential

check_guard-Permits : (g : Guard) (id : Identity) → check_guard g id ≡ none → Permits g id
unfolding check_guard
check_guard-Permits auth id h = tt
check_guard-Permits session_only id h = cases id.credential refl
  where
    cases : (c : Credential) → id.credential ≡ c → Permits session_only id
    cases (by_session s) e = (s, e)
    cases (by_key k) e = absurd (ground (arith, e, h))
check_guard-Permits admin_only id h = elim (Bool-cases (is_admin id.user)) [
  | inr plain ↦ absurd (ground (arith, plain, h))
  | inl chief ↦ (chief, cases chief id.credential refl)
]
  where
    cases :
        is_admin id.user ≡ true
        → (c : Credential) → id.credential ≡ c
        → Grants (codes "admin:*") id.credential
    cases chief (by_session s) e = rw e tt
    cases chief (by_key k) e = rw e (ground (arith, chief, e, h))
check_guard-Permits (scope want) id h = cases id.credential refl
  where
    cases : (c : Credential) → id.credential ≡ c → Grants want id.credential
    cases (by_session s) e = rw e tt
    cases (by_key k) e = rw e (ground (arith, e, h))

-- A handler runs only for an identity that meets the guard of its route: any guard needs an identity;
-- a session guard refuses API keys; an administrator's guard needs the role and, of an API key, the
-- administrators' scope; a scope's guard needs the scope of an API key. And the policy of two factors
-- does not hold the user back, or the path is one that it leaves open.
pub require-Permits :
    (env : Env) (g : Guard) (caller : Caller) (who : Option Identity) (st : Store)
    → (require env g caller who st).0 ≡ none
    → (id : Identity) × (who ≡ some id)
      × Permits g id
      × ((mfa_gate_allows caller.path ≡ true)
          ⊎ ((mfa_enroll_required env (record caller { session = session_of id }) id.user st).0
              ≡ false))
unfolding require
require-Permits env g caller none st h = absurd (ground (arith, h))
require-Permits env g caller (some id) st h = elim (Bool-cases (mfa_gate_allows caller.path)) [
  | inl open_ ↦ (id, refl, check_guard-Permits g id (ground (arith, open_, h)), inl open_)
  | inr gated ↦
      elim (Bool-cases
        (mfa_enroll_required env (record caller { session = session_of id }) id.user st).0) [
          | inl blocked ↦ absurd (ground (arith, gated, blocked, h))
          | inr free ↦
              (id, refl, check_guard-Permits g id (ground (arith, gated, free, h)), inr free)
        ]
]

-- A mutating request of a browser session reaches its handler only with the session's token in the
-- header, and from the same origin if an origin is given.
pub csrf_middleware_sound :
    (cfg : PlaneConfig) (h : Headers) (s : Session)
    → is_safe h.method ≡ false
    → csrf_middleware cfg h (some s) ≡ true
    → (h.csrf_header ≡ s.csrf_token)
      × (h.csrf_header ≢ [])
      × ((h.origin ≡ []) ⊎ (same_origin cfg h.plane h.host h.origin ≡ true))
unfolding csrf_middleware
csrf_middleware_sound cfg h s unsafe passed = elim (Bool-cases (bytes_eq h.csrf_header [])) [
  | inl empty ↦ absurd (ground (arith, unsafe, empty, passed))
  | inr sent ↦ elim (Bool-cases (bytes_eq h.csrf_header s.csrf_token)) [
    | inr other ↦ absurd (ground (arith, unsafe, sent, other, passed))
    | inl same ↦ (
      bytes_eq_sound h.csrf_header s.csrf_token same,
      λ e. ground (arith, sent, e, bytes_eq_iff h.csrf_header []),
      elim (Bool-cases (bytes_eq h.origin [])) [
        | inl absent ↦ inl (bytes_eq_sound h.origin [] absent)
        | inr given ↦ inr (ground (arith, unsafe, given, passed))
      ],
    )
  ]
]
