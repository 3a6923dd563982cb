-- ===== src/Server/Mfa.antt =====
-- internal/server/mfa.go: the second factor of password accounts. Notifications and logs are left out.
pub mod Judged
pub mod Rows
pub mod Replay
pub mod Second
pub mod Tests
use shortr.Base.{
  ℕ, Bool, true, false, not, ◌&&◌, ◌||◌, List, [], ◌∷◌, ◌++◌, Option, none, some, is_some,
  if◌then◌else◌,
}
use shortr.Base.Bytes.{Bytes, codes, bytes_eq, has_prefix, trim_prefix}
use shortr.Validate.{trim_space}
use shortr.Store.{User, Store, Res, ok, err, not_found, get_user_by_id, is_active}
use shortr.Store.Types.{Session, UserMfa, enabled}
use shortr.Store.Users.{update_user}
use shortr.Store.Accounts.{
  put_user_mfa, advance_mfa_step, consume_recovery_code, delete_user_mfa, delete_sessions_for_user,
}
use shortr.RateLimit.{Limiter, allow, peek, reset}
use shortr.Auth.SignedCookie.{open_value}
use shortr.Auth.Totp.{verify_totp, open_secret, seal_secret, hash_recovery_code, new_recovery_codes}
use shortr.Server.Console.{
  Env, Caller, Fresh, Console, ApiError, bad_request, unauthenticated, locked_out, sudo_required,
  internal, mfa_invalid, mfa_expired, mfa_no_password, mfa_already_enabled, mfa_not_pending,
  mfa_not_enabled, not_found_error, validation_failed, of_store, Reply, refused, mfa_setup,
  recovery_codes, no_content, audit, user_mfa, sign_in, has_sudo,
}

pub data Factor : Type 0 where
  totp recovery_code : Factor

pub data Verdict : Type 0 where
  passed : Factor → Verdict
  denied : ApiError → Verdict

pub record MfaLoginReq : Type 0 where
  pub mfa_token : Bytes
  pub code : Bytes
  pub recovery_code : Bytes

abbrev pub mfa_token_prefix : Bytes
mfa_token_prefix = codes "mfa-login|"

unfoldable pub mfa_gate_allows : Bytes → Bool
mfa_gate_allows p =
    bytes_eq p (codes "/api/v1/me")
    || has_prefix (codes "/api/v1/me/") p
    || has_prefix (codes "/api/v1/notifications") p
    || has_prefix (codes "/auth/") p

-- The user as it is written at a sign-in.
abbrev pub stamped : ℕ → User → User
stamped now u = record u { last_login_at = some now; updated_at = now }

unfoldable pub mfa_enroll_required : Env → Caller → User → Store → Bool × Store
mfa_enroll_required env caller u st =
    if not env.mfa_required || not (is_some u.password_hash)
    then (false, st)
    else elim caller.session [
      | none ↦ (false, st)
      | some s ↦
          if bytes_eq s.auth_method (codes "oidc")
          then (false, st)
          else let (m, st') = user_mfa u.id st in (not (enabled m), st')
    ]

module _ (env : Env) (now : ℕ) where
  open env use {crypto, secret_key}

  unfoldable pub check_totp : UserMfa → Bytes → Bytes → Store → Verdict × Store
  check_totp m user code st = elim (open_secret crypto secret_key m.sealed_secret) [
    | none ↦ (denied internal, st)
    | some secret ↦ elim (verify_totp crypto secret code now) [
      | none ↦ (denied mfa_invalid, st)
      | some step ↦
          let (r, st') = advance_mfa_step user step st in
          elim r [
            | err e ↦ (denied mfa_invalid, st')
            | ok fresh ↦ if fresh then (passed totp, st') else (denied mfa_invalid, st')
          ]
    ]
  ]

  unfoldable pub check_recovery : Bytes → Bytes → Store → Verdict × Store
  check_recovery user recovery st =
      let (r, st') = consume_recovery_code user (hash_recovery_code crypto recovery) st in
      elim r [
        | err e ↦ (denied mfa_invalid, st')
        | ok done ↦ if done then (passed Factor.recovery_code, st') else (denied mfa_invalid, st')
      ]

  unfoldable pub check_second_factor : Bytes → Bytes → Bytes → Store → Verdict × Store
  unfolding enabled
  check_second_factor user code recovery st =
      let (m, st') = user_mfa user st in
      elim m [
        | none ↦ (denied mfa_invalid, st')
        | some r ↦
            if not (is_some r.enabled_at)
            then (denied mfa_invalid, st')
            else if not (bytes_eq (trim_space recovery) [])
            then check_recovery user recovery st'
            else check_totp r user code st'
      ]

  -- The second step of a sign-in, once the token is read.
  unfoldable pub login_mfa_user : Caller → Fresh → MfaLoginReq → Bytes → Console → Reply × Console
  login_mfa_user caller fresh req user c =
      let lock_key = codes "mfa-fail:" ++ user in
      if not (peek now lock_key c.rl_auth)
      then (refused locked_out, c)
      else let (r, st) = get_user_by_id user c.store in
        elim r [
          | err e ↦ (refused unauthenticated, record c { store = st })
          | ok u ↦
              if not (is_active u)
              then (refused unauthenticated, record c { store = st })
              else let (v, st') = check_second_factor u.id req.code req.recovery_code st in
                elim v [
                  | denied e ↦ (
                    refused e,
                    record c {
                      rl_auth = (allow now lock_key c.rl_auth).1;
                      store = audit now caller u.id (codes "user.mfa_failed") u.id st';
                    },
                  )
                  | passed method ↦
                      let u' = stamped now u in
                      let st1 = (update_user now u' st').1 in
                      let st2 : Store = elim method [
                        | totp ↦ st1
                        | recovery_code ↦ (user_mfa u.id st1).1
                      ] in
                      let st3 = audit now caller u.id (codes "user.login") u.id st2 in
                      let (reply, st4) = sign_in env now caller fresh 200 u' st3 in
                      (reply, record c { rl_auth = reset lock_key c.rl_auth; store = st4 })
                ]
        ]

  unfoldable pub handle_login_mfa : Caller → Fresh → Option MfaLoginReq → Console → Reply × Console
  handle_login_mfa caller fresh body c = elim body [
    | none ↦ (refused bad_request, c)
    | some req ↦ elim (open_value env.codec secret_key req.mfa_token now) [
      | none ↦ (refused mfa_expired, c)
      | some payload ↦
          if not (has_prefix mfa_token_prefix payload)
          then (refused mfa_expired, c)
          else login_mfa_user caller fresh req (trim_prefix mfa_token_prefix payload) c
    ]
  ]

  -- A fresh secret, not yet confirmed.
  unfoldable pub handle_mfa_setup : Caller → Fresh → User → Console → Reply × Console
  handle_mfa_setup caller fresh u c =
      if not (is_some u.password_hash)
      then (refused mfa_no_password, c)
      else if not (has_sudo now caller c)
      then (refused sudo_required, c)
      else let (m, st) = user_mfa u.id c.store in
        if enabled m
        then (refused mfa_already_enabled, record c { store = st })
        else elim fresh.secret [
          | none ↦ (refused internal, record c { store = st })
          | some secret ↦ elim (seal_secret crypto fresh.nonce secret_key secret) [
            | none ↦ (refused internal, record c { store = st })
            | some sealed ↦
                let row : UserMfa = record {
                  user_id = u.id;
                  sealed_secret = sealed;
                  enabled_at = none;
                  last_step = 0;
                  recovery_codes = [];
                } in
                let (r, st') = put_user_mfa row st in
                elim r [
                  | err e ↦ (refused (of_store e), record c { store = st' })
                  | ok done ↦ (mfa_setup secret, record c { store = st' })
                ]
          ]
        ]

  -- The row that an enrollment is confirmed with.
  unfoldable pub confirm_mfa : Caller → Fresh → User → UserMfa → ℕ → Store → Reply × Store
  confirm_mfa caller fresh u m step st = elim (new_recovery_codes crypto fresh.recovery) [
    | none ↦ (refused internal, st)
    | some (cs, hashes) ↦
        let m' : UserMfa = record m {
          enabled_at = some now;
          last_step = step;
          recovery_codes = hashes;
        } in
        let (r, st') = put_user_mfa m' st in
        elim r [
          | err e ↦ (refused (of_store e), st')
          | ok done ↦
              (Reply.recovery_codes cs, audit now caller u.id (codes "user.mfa_enabled") u.id st')
        ]
  ]

  unfoldable pub handle_mfa_enable :
      Caller → Fresh → Option Bytes → User → Console → Reply × Console
  handle_mfa_enable caller fresh body u c = elim body [
    | none ↦ (refused bad_request, c)
    | some code ↦
        let (m, st) = user_mfa u.id c.store in
        elim m [
          | none ↦ (refused mfa_not_pending, record c { store = st })
          | some row ↦
              if is_some row.enabled_at
              then (refused mfa_not_pending, record c { store = st })
              else elim (open_secret crypto secret_key row.sealed_secret) [
                | none ↦ (refused internal, record c { store = st })
                | some secret ↦ elim (verify_totp crypto secret code now) [
                  | none ↦
                      (refused (validation_failed (codes "code" ∷ [])), record c { store = st })
                  | some step ↦
                      let (reply, st') = confirm_mfa caller fresh u row step st in
                      (reply, record c { store = st' })
                ]
              ]
        ]
  ]

  unfoldable pub handle_mfa_regenerate_codes : Caller → Fresh → User → Console → Reply × Console
  handle_mfa_regenerate_codes caller fresh u c =
      if not (has_sudo now caller c)
      then (refused sudo_required, c)
      else let (m, st) = user_mfa u.id c.store in
        elim m [
          | none ↦ (refused mfa_not_enabled, record c { store = st })
          | some row ↦
              if not (is_some row.enabled_at)
              then (refused mfa_not_enabled, record c { store = st })
              else elim (new_recovery_codes crypto fresh.recovery) [
                | none ↦ (refused internal, record c { store = st })
                | some (cs, hashes) ↦
                    let row' : UserMfa = record row { recovery_codes = hashes } in
                    let (r, st') = put_user_mfa row' st in
                    elim r [
                      | err e ↦ (refused (of_store e), record c { store = st' })
                      | ok done ↦ (
                        Reply.recovery_codes cs,
                        record c {
                          store =
                              audit now caller u.id (codes "user.mfa_recovery_regenerated") u.id
                                st';
                        },
                      )
                    ]
              ]
        ]

  unfoldable pub handle_mfa_disable : Caller → User → Console → Reply × Console
  handle_mfa_disable caller u c =
      if not (has_sudo now caller c)
      then (refused sudo_required, c)
      else let (r, st) = delete_user_mfa u.id c.store in
        let done = audit now caller u.id (codes "user.mfa_disabled") u.id st in
        elim r [
          | ok ok_ ↦ (no_content, record c { store = done })
          | err not_found ↦ (no_content, record c { store = done })
          | err e ↦ (refused (of_store e), record c { store = st })
        ]

  unfoldable pub handle_admin_reset_mfa : Caller → User → Bytes → Console → Reply × Console
  handle_admin_reset_mfa caller actor id c =
      let (r, st) = get_user_by_id id c.store in
      elim r [
        | err e ↦ (refused not_found_error, record c { store = st })
        | ok u ↦
            let (d, st') = delete_user_mfa u.id st in
            elim d [
              | err e ↦ (refused (of_store e), record c { store = st' })
              | ok done ↦
                  let st'' = (delete_sessions_for_user u.id st').1 in
                  (
                    no_content,
                    record c {
                      store = audit now caller actor.id (codes "user.admin_reset_mfa") u.id st'';
                    },
                  )
            ]
      ]
