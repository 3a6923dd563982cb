-- ===== src/Server/Console.antt =====
-- internal/server: what the handlers of accounts share: the state that they change, the errors of
-- errors.go, the audit trail and the sessions of auth.go. Random values are arguments of a request.
-- `now` is the clock's value throughout one request; messages and JSON details are left out.
pub mod Sessions
pub mod Samples
use shortr.Base.{
  ℕ, ◌+◌, Bool, true, false, not, ◌&&◌, ◌||◌, List, [], ◌∷◌, ◌++◌, Option, none, some, is_some,
  length, take, ltb, leb, if◌then◌else◌,
}
use shortr.Base.Bytes.{Bytes, codes, bytes_eq}
use shortr.Store.{Store, User, StoreError, Res, ok, err, not_found, conflict, db_error}
use shortr.Store.Types.{Session, ApiKey, UserMfa, AuditEntry, enabled}
use shortr.Store.Accounts.{create_session, get_user_mfa, add_audit}
use shortr.RateLimit.{Limiter}
use shortr.Auth.SignedCookie.{Codec}
use shortr.Auth.Totp.{Crypto}

-- What the handlers take from the configuration and from other code: the decision of argon2id with
-- the need of a new hash, a new hash (`none` if the random salt fails), and the parser of addresses.
pub record Env : Type 0 where
  pub crypto : Crypto
  pub codec : Codec
  pub secret_key : Bytes
  pub session_ttl : ℕ
  pub mfa_required : Bool
  pub registration : Bytes
  pub verify_password : Bytes → Bytes → Option (Bool × Bool)
  pub hash_password : Bytes → Option Bytes
  pub parse_address : Bytes → Option Bytes

-- Of a request: the client, and the identity that the middleware found.
pub record Caller : Type 0 where
  pub path : Bytes
  pub ip : Bytes
  pub ip_key : Bytes
  pub user_agent : Bytes
  pub session : Option Session
  pub api_key : Option ApiKey

-- The random values that a request may draw, `none` if the source fails. The second token's error is
-- not read: it is empty then. `recovery` holds the buffers of ten recovery codes.
pub record Fresh : Type 0 where
  pub token : Option Bytes
  pub csrf_token : Bytes
  pub ulid : Bytes
  pub nonce : Option Bytes
  pub secret : Option Bytes
  pub recovery : List (Option Bytes)

pub record Console : Type 0 where
  pub store : Store
  pub rl_auth : Limiter
  pub sudo_until : List (Bytes × ℕ)

pub data ApiError : Type 0 where
  bad_request unauthenticated forbidden csrf_failed sudo_required user_disabled not_found_error :
      ApiError
  conflict_error locked_out setup_done email_taken internal bad_credentials mfa_expired
        mfa_invalid :
      ApiError
  mfa_enroll_required mfa_no_password mfa_already_enabled mfa_not_pending mfa_not_enabled : ApiError
  last_admin : ApiError
  missing_scope : Bytes → ApiError
  validation_failed : List Bytes → ApiError

-- `respondError` on an error of the store.
unfoldable pub of_store : StoreError → ApiError
of_store not_found = not_found_error
of_store conflict = conflict_error
of_store db_error = internal

-- `signed_in` carries the status, the raw token of the cookie, the session, the user, and whether the
-- second factor is on; `saved` the status, the user and the password that was generated for it.
pub data Reply : Type 0 where
  refused : ApiError → Reply
  mfa_token : Bytes → Reply
  signed_in : ℕ → Bytes → Session → User → Bool → Reply
  no_content : Reply
  mfa_setup : Bytes → Reply
  recovery_codes : List Bytes → Reply
  saved : ℕ → User → Option Bytes → Reply
  new_password : Bytes → Reply
  new_key : ApiKey → Bytes → Reply

-- A row of the audit trail; a failure is only logged.
unfoldable pub audit : ℕ → Caller → Bytes → Bytes → Bytes → Store → Store
audit now caller actor action target st =
    let entry : AuditEntry = record {
      ts = now;
      actor_user_id = actor;
      actor_ip = caller.ip;
      action = action;
      target_type = codes "user";
      target_id = target;
    } in
    (add_audit entry st).1

-- The enrollment of a user, `none` also if the query fails.
unfoldable pub user_mfa : Bytes → Store → Option UserMfa × Store
user_mfa user st =
    let (r, st') = get_user_mfa user st in elim r [ ok m ↦ (some m, st') | err e ↦ (none, st') ]

abbrev pub truncate_str : Bytes → ℕ → Bytes
truncate_str s n = if leb (length s) n then s else take n s

-- `HashToken`
abbrev pub hash_token : Crypto → Bytes → Bytes
hash_token cr raw = cr.hex (cr.sha256 raw)

-- The session that is asked of the store.
abbrev pub session_for : Env → ℕ → Caller → Fresh → Bytes → User → Bytes → Session
session_for env now caller fresh raw u method = record {
  id = hash_token env.crypto raw;
  user_id = u.id;
  csrf_token = fresh.csrf_token;
  ip = caller.ip;
  user_agent = truncate_str caller.user_agent 300;
  created_at = now;
  expires_at = now + env.session_ttl;
  last_seen_at = now;
  auth_method = method;
}

-- The session with the raw token of its cookie, or the error that has been answered.
pub data Started : Type 0 where
  started : Bytes → Session → Started
  not_started : ApiError → Started

unfoldable pub start_session : Env → ℕ → Caller → Fresh → User → Bytes → Store → Started × Store
start_session env now caller fresh u method st = elim fresh.token [
  | none ↦ (not_started internal, st)
  | some raw ↦
      let (r, st') = create_session now (session_for env now caller fresh raw u method) st in
      elim r [ ok s ↦ (started raw s, st') | err e ↦ (not_started (of_store e), st') ]
]

-- `startSession` and the answer with `meDTOWithSession`.
unfoldable pub sign_in : Env → ℕ → Caller → Fresh → ℕ → User → Store → Reply × Store
sign_in env now caller fresh status u st =
    let (r, st') = start_session env now caller fresh u (codes "password") st in
    elim r [
      | not_started e ↦ (refused e, st')
      | started raw s ↦
          let (m, st'') = user_mfa u.id st' in (signed_in status raw s u (enabled m), st'')
    ]

-- `hasSudo` (oidc.go): a session that is young, or that has proved its password again.
unfoldable pub has_sudo : ℕ → Caller → Console → Bool
has_sudo now caller c = elim caller.session [
  | none ↦ false
  | some s ↦
      if ltb now (s.created_at + 600000000000)
      then true
      else elim (sudo_of s.id c.sudo_until) [ none ↦ false | some t ↦ ltb now t ]
]
  where
    sudo_of : Bytes → List (Bytes × ℕ) → Option ℕ
    sudo_of id [] = none
    sudo_of id ((j, t) ∷ m) = let rest = sudo_of id m in if bytes_eq j id then some t else rest
