-- ===== src/Server/Login.antt =====
-- internal/server/auth.go: setup, sign-in, registration and sign-out. Notifications are left out; the
-- lock on the setup makes one setup one step.
pub mod Credentials
pub mod FailOpen
pub mod Setup
pub mod Tests
use shortr.Base.{
  ℕ, Bool, true, false, not, ◌&&◌, ◌||◌, List, [], ◌∷◌, ◌++◌, Option, none, some, is_some, ltb,
  if◌then◌else◌,
}
use shortr.Base.Bytes.{Bytes, codes, bytes_eq, to_lower}
use shortr.Validate.{trim_space, str_len}
use shortr.Validate.Email.{email}
use shortr.Store.{User, Store, Res, ok, err, is_active}
use shortr.Store.Types.{Session, enabled}
use shortr.Store.Users.{create_user, get_user_by_email, count_users, update_user}
use shortr.Store.Accounts.{delete_session, set_setting}
use shortr.RateLimit.{allow, peek, reset}
use shortr.Auth.SignedCookie.{seal_value}
use shortr.Server.Console.{
  Env, Caller, Fresh, Console, ApiError, bad_request, forbidden, locked_out, user_disabled,
  setup_done, email_taken, internal, bad_credentials, validation_failed, of_store, Reply, refused,
  mfa_token, no_content, audit, user_mfa, sign_in,
}
use shortr.Server.Mfa.{mfa_token_prefix, stamped}

pub record LoginReq : Type 0 where
  pub email : Bytes
  pub password : Bytes

pub record RegisterReq : Type 0 where
  pub email : Bytes
  pub password : Bytes
  pub name : Bytes

-- The base URL, which is not read, is left out, and so are the JSON quotes of the stored site name.
pub record SetupReq : Type 0 where
  pub email : Bytes
  pub password : Bytes
  pub name : Bytes
  pub site_name : Bytes

-- The fields of a new account that are refused.
unfoldable pub account_errors : Option Bytes → Bytes → List Bytes
account_errors address password =
    (if is_some address then [] else codes "email" ∷ [])
    ++ (if str_len password 10 128 then [] else codes "password" ∷ [])

-- A user that is not yet stored.
abbrev pub new_account : ℕ → Bytes → Bytes → Bytes → Bytes → Bool → User
new_account now address name hash role first_admin = record {
  id = [];
  email = address;
  email_verified = first_admin;
  name = trim_space name;
  password_hash = some hash;
  role = role;
  status = codes "active";
  max_links = none;
  role_locked = first_admin;
  must_change_password = false;
  last_login_at = none;
  password_changed_at = some now;
  created_at = now;
  updated_at = now;
}

abbrev pub lock_key : Caller → LoginReq → Bytes
lock_key caller req =
    codes "login-fail:" ++ (to_lower (trim_space req.email) ++ b'|' ∷ caller.ip_key)

module _ (env : Env) (now : ℕ) (caller : Caller) (fresh : Fresh) where
  -- The store of a setup after the user is created.
  unfoldable pub finish_setup : SetupReq → User → Store → Reply × Store
  finish_setup req u st =
      let st' : Store =
        if bytes_eq (trim_space req.site_name) []
        then st
        else (set_setting (codes "site_name") (trim_space req.site_name) st).1 in
      sign_in env now caller fresh 201 u (audit now caller u.id (codes "user.setup") u.id st')

  -- A new account: the address and the password are checked, the password is hashed.
  unfoldable pub create_account : Bytes → Bytes → Bytes → Bytes → Bool → Store → Res User × Store
  create_account address hash name role first_admin st =
      create_user now fresh.ulid (new_account now address name hash role first_admin) st

  unfoldable pub setup_admin : SetupReq → Store → Reply × Store
  setup_admin req st = elim (email env.parse_address req.email) [
    | none ↦ (refused (validation_failed (account_errors none req.password)), st)
    | some address ↦
        if not (str_len req.password 10 128)
        then (refused (validation_failed (account_errors (some address) req.password)), st)
        else elim (env.hash_password req.password) [
          | none ↦ (refused internal, st)
          | some hash ↦
              let (r, st') = create_account address hash req.name (codes "admin") true st in
              elim r [ err e ↦ (refused (of_store e), st') | ok u ↦ finish_setup req u st' ]
        ]
  ]

  unfoldable pub handle_setup : Option SetupReq → Store → Reply × Store
  handle_setup body st = elim body [
    | none ↦ (refused bad_request, st)
    | some req ↦
        let (r, st') = count_users st in
        elim r [
          | err e ↦ (refused (of_store e), st')
          | ok n ↦ if ltb 0 n then (refused setup_done, st') else setup_admin req st'
        ]
  ]

  unfoldable pub bad_login : LoginReq → Bytes → Console → Reply × Console
  bad_login req user c = (
    refused bad_credentials,
    record c {
      rl_auth = (allow now (lock_key caller req) c.rl_auth).1;
      store = audit now caller user (codes "user.login_failed") user c.store;
    },
  )

  -- A new hash, if the parameters of the old one are out of date.
  unfoldable pub rehash : Bool → Bytes → User → Store → User × Store
  rehash needed password u st = elim needed [
    | false ↦ (u, st)
    | true ↦ elim (env.hash_password password) [
      | none ↦ (u, st)
      | some h ↦
          let u' : User = record u { password_hash = some h; updated_at = now } in
          (u', (update_user now u' st).1)
    ]
  ]

  -- After the right password of an active user: the token of the second step, or the session.
  unfoldable pub finish_login : User → Store → Reply × Store
  finish_login u st =
      let (m, st') = user_mfa u.id st in
      if enabled m
      then (
        mfa_token (seal_value env.codec env.secret_key (mfa_token_prefix ++ u.id) 300000000000 now),
        st',
      )
      else let u' = stamped now u in
        let st'' = (update_user now u' st').1 in
        sign_in env now caller fresh 200 u' (audit now caller u.id (codes "user.login") u.id st'')

  -- The check of the password of a user that is found.
  unfoldable pub check_login : LoginReq → User → Bytes → Console → Reply × Console
  check_login req u hash c = elim (env.verify_password req.password hash) [
    | none ↦ bad_login req u.id c
    | some (good, needs_rehash) ↦
        if not good
        then bad_login req u.id c
        else let c' : Console = record c { rl_auth = reset (lock_key caller req) c.rl_auth } in
          if not (is_active u)
          then (refused user_disabled, c')
          else let (u', st) = rehash needs_rehash req.password u c'.store in
            let (reply, st') = finish_login u' st in (reply, record c' { store = st' })
  ]

  unfoldable pub handle_login : Option LoginReq → Console → Reply × Console
  handle_login body c = elim body [
    | none ↦ (refused bad_request, c)
    | some req ↦
        if not (peek now (lock_key caller req) c.rl_auth)
        then (
          refused locked_out,
          record c { store = audit now caller [] (codes "user.login_locked") [] c.store },
        )
        else elim (email env.parse_address req.email) [
          | none ↦ bad_login req [] c
          | some address ↦
              let (r, st) = get_user_by_email address c.store in
              let c' : Console = record c { store = st } in
              elim r [
                | err e ↦ bad_login req [] c'
                | ok u ↦ elim u.password_hash [
                  | none ↦ bad_login req [] c'
                  | some hash ↦ check_login req u hash c'
                ]
              ]
        ]
  ]

  unfoldable pub handle_logout : Store → Reply × Store
  handle_logout st = elim caller.session [
    | none ↦ (no_content, st)
    | some s ↦ (
      no_content,
      audit now caller s.user_id (codes "user.logout") s.user_id (delete_session s.id st).1,
    )
  ]

  -- The part of a registration after the address is known to be free.
  unfoldable pub register_user : RegisterReq → Bytes → Store → Reply × Store
  register_user req address st = elim (env.hash_password req.password) [
    | none ↦ (refused internal, st)
    | some hash ↦
        let (r, st') = create_account address hash req.name (codes "user") false st in
        elim r [
          | err e ↦ (refused (of_store e), st')
          | ok u ↦
              sign_in env now caller fresh 201 u
                (audit now caller u.id (codes "user.register") u.id st')
        ]
  ]

  unfoldable pub handle_register : Option RegisterReq → Store → Reply × Store
  handle_register body st =
      if not (bytes_eq env.registration (codes "open"))
      then (refused forbidden, st)
      else elim body [
        | none ↦ (refused bad_request, st)
        | some req ↦ elim (email env.parse_address req.email) [
          | none ↦ (refused (validation_failed (account_errors none req.password)), st)
          | some address ↦
              if not (str_len req.password 10 128)
              then (refused (validation_failed (account_errors (some address) req.password)), st)
              else let (r, st') = get_user_by_email address st in
                elim r [ ok u ↦ (refused email_taken, st') | err e ↦ register_user req address st' ]
        ]
      ]
