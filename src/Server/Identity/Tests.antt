-- ===== src/Server/Identity/Tests.antt =====
-- Tests of the identity of a request and of the guards of routes.
use shortr.Base.{◌≡◌, ◌≢◌, refl, ◌⊎◌, true, false, [], ◌∷◌, none, some}
use shortr.Base.Bytes.{codes, bytes_eq, has_prefix}
use shortr.Store.{Store}
use shortr.Store.Types.{Session, ApiKey}
use shortr.Server.Console.{Caller}
use shortr.Server.Console.Samples.{small_env, small_user, accounts, caller}
use shortr.Server.Plane.{plane_all, PlaneConfig, same_origin}
use shortr.Server.Redirect.{post}
use shortr.Server.Mfa.{mfa_gate_allows, mfa_enroll_required}
use shortr.Server.Identity.{
  Headers, by_key, Identity, scope, session_of, resolve_identity, csrf_middleware, require,
  check_guard, has_scope,
}
use shortr.Server.Identity.Proven.{AllProven}
use shortr.Server.Identity.Resolve.{resolve_identity-AllProven}
use shortr.Server.Identity.Guards.{Permits, require-Permits, csrf_middleware_sound}

abbrev small_session : Session
small_session = record {
  id = codes "tok";
  user_id = codes "u1";
  csrf_token = codes "csrf";
  ip = [];
  user_agent = [];
  created_at = 0;
  expires_at = 100;
  last_seen_at = 0;
  auth_method = codes "password";
}

abbrev signed_in : Store
signed_in = record accounts { sessions = (codes "tok", small_session) ∷ [] }

abbrev headers : Headers
headers = record {
  path = codes "/api/v1/links";
  method = post;
  plane = plane_all;
  cookie = some (codes "tok");
  authorization = [];
  origin = [];
  csrf_header = codes "csrf";
  host = codes "example.com";
}

resolve_identity-AllProven_example :
    AllProven small_env 5 none headers signed_in
      (resolve_identity small_env 5 none headers signed_in).0
resolve_identity-AllProven_example = resolve_identity-AllProven small_env 5 none headers signed_in

abbrev reader : ApiKey
reader = record {
  id = codes "k1";
  user_id = codes "u1";
  name = [];
  prefix = [];
  key_hash = codes "sk_1";
  scopes = codes "links:read" ∷ [];
  last_used_at = none;
  expires_at = none;
  revoked_at = none;
  created_at = 0;
}

abbrev who : Identity
who = record { user = small_user; credential = by_key reader }

abbrev reading : Caller
reading = record caller { path = codes "/api/v1/links" }

require-Permits_example :
    (id : Identity) × (some who ≡ some id)
    × Permits (scope (codes "links:read")) id
    × ((mfa_gate_allows (codes "/api/v1/links") ≡ true)
        ⊎ ((mfa_enroll_required small_env
              (record reading { session = session_of id })
              id.user
              accounts).0
            ≡ false))
unfolding require check_guard has_scope bytes_eq mfa_gate_allows has_prefix mfa_enroll_required
require-Permits_example =
    require-Permits small_env (scope (codes "links:read")) reading (some who) accounts refl

abbrev config : PlaneConfig
config = record {
  public_api = true;
  public_admin_api = false;
  ui_enabled = true;
  root_redirect = [];
  admin_url = [];
  base_url = codes "https://example.com";
  cookie_secure = true;
}

csrf_middleware_sound_example :
    (codes "csrf" ≡ codes "csrf")
    × (codes "csrf" ≢ [])
    × ((headers.origin ≡ []) ⊎ (same_origin config plane_all headers.host headers.origin ≡ true))
unfolding csrf_middleware bytes_eq
csrf_middleware_sound_example = csrf_middleware_sound config headers small_session refl refl
