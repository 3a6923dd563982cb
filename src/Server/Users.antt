-- ===== src/Server/Users.antt =====
-- internal/server/api_admin.go, api_me.go and api_apikeys.go: the handlers that write accounts. The part
-- of a request that is absent is `none`; notifications are left out.
pub mod Admins
pub mod Edits
pub mod Patch
pub mod Tests
pub mod LastAdmin
use shortr.Base.{
  ℕ, Bool, true, false, not, ◌&&◌, ◌||◌, List, [], ◌∷◌, ◌++◌, Option, none, some, is_some, leb, ltb,
  ◌==◌, if◌then◌else◌, length,
}
use shortr.Base.Bytes.{Bytes, codes, bytes_eq, member}
use shortr.Validate.{trim_space, str_len}
use shortr.Validate.Email.{email}
use shortr.Store.{User, Store, Res, ok, err, get_user_by_id, is_admin}
use shortr.Store.Types.{Session, ApiKey}
use shortr.Store.Users.{create_user, get_user_by_email, update_user, delete_user, count_admins}
use shortr.Store.Accounts.{
  delete_sessions_for_user, delete_sessions_for_user_except, create_api_key, get_api_key,
  revoke_api_key,
}
use shortr.Server.Console.{
  Env, Caller, Fresh, Console, ApiError, bad_request, not_found_error, email_taken, last_admin,
  internal, sudo_required, validation_failed, of_store, Reply, refused, saved, no_content,
  new_password, new_key, audit, has_sudo, hash_token,
}

pub record CreateUserReq : Type 0 where
  pub email : Bytes
  pub name : Bytes
  pub password : Bytes
  pub role : Bytes

-- `limit_negative` says that the limit is a number below 0, which is refused.
pub record PatchUserReq : Type 0 where
  pub name : Option Bytes
  pub role : Option Bytes
  pub status : Option Bytes
  pub max_links : Option (Option ℕ)
  pub limit_negative : Bool

abbrev pub is_role : Bytes → Bool
is_role r = bytes_eq r (codes "admin") || bytes_eq r (codes "user")

abbrev pub is_status : Bytes → Bool
is_status s = bytes_eq s (codes "active") || bytes_eq s (codes "disabled")

abbrev pub field_if : Bool → Bytes → List Bytes
field_if b f = if b then f ∷ [] else []

unfoldable pub patch_errors : PatchUserReq → List Bytes
patch_errors req =
    field_if (elim req.name [ none ↦ false | some n ↦ not (str_len (trim_space n) 0 100) ])
      (codes "name")
    ++ field_if (elim req.role [ none ↦ false | some r ↦ not (is_role r) ]) (codes "role")
    ++ field_if (elim req.status [ none ↦ false | some s ↦ not (is_status s) ]) (codes "status")
    ++ field_if req.limit_negative (codes "maxLinks")

-- An edit of a user, or the error that is answered instead.
pub data Edited : Type 0 where
  edited : User → Edited
  stopped : ApiError → Edited

-- The count of the other administrators, before one is lost.
unfoldable pub guard_last_admin : Bool → User → User → Store → Edited × Store
guard_last_admin needed u u' st = elim needed [
  | false ↦ (edited u', st)
  | true ↦
      let (r, st') = count_admins u.id st in
      elim r [
        | err e ↦ (stopped (of_store e), st')
        | ok n ↦ if n == 0 then (stopped last_admin, st') else (edited u', st')
      ]
]

unfoldable pub patch_role : Option Bytes → User → Store → Edited × Store
patch_role role u st = elim role [
  | none ↦ (edited u, st)
  | some r ↦
      let u' : User = record u { role = r; role_locked = true } in
      if bytes_eq r u.role
      then (edited u, st)
      else guard_last_admin (is_admin u && not (bytes_eq r (codes "admin"))) u u' st
]

-- A user that is disabled loses its sessions.
unfoldable pub end_sessions : Bytes → User → Store → Store
end_sessions status u st =
    if bytes_eq status (codes "disabled") then (delete_sessions_for_user u.id st).1 else st

unfoldable pub patch_status : Option Bytes → User → Store → Edited × Store
patch_status status u st = elim status [
  | none ↦ (edited u, st)
  | some s ↦
      let u' : User = record u { status = s } in
      if bytes_eq s u.status
      then (edited u, st)
      else let (e, st') =
          guard_last_admin
            (bytes_eq u.status (codes "active") && bytes_eq s (codes "disabled") && is_admin u) u u'
            st in
        elim e [ stopped x ↦ (stopped x, st') | edited w ↦ (edited w, end_sessions s u st') ]
]

abbrev pub patch_name : Option Bytes → User → User
patch_name name u = elim name [ none ↦ u | some n ↦ record u { name = trim_space n } ]

abbrev pub patch_limit : Option (Option ℕ) → User → User
patch_limit limit u = elim limit [ none ↦ u | some m ↦ record u { max_links = m } ]

unfoldable pub save_user : ℕ → Caller → User → User → Store → Reply × Store
save_user now caller actor u st =
    let (r, st') = update_user now u st in
    elim r [
      | err e ↦ (refused (of_store e), st')
      | ok done ↦ (
        saved 200 (record u { updated_at = now }) none,
        audit now caller actor.id (codes "user.admin_update") u.id st',
      )
    ]

unfoldable pub apply_patch : ℕ → Caller → User → PatchUserReq → User → Store → Reply × Store
apply_patch now caller actor req u st =
    let (e, st1) = patch_role req.role (patch_name req.name u) st in
    elim e [
      | stopped x ↦ (refused x, st1)
      | edited u1 ↦
          let (e', st2) = patch_status req.status u1 st1 in
          elim e' [
            | stopped x ↦ (refused x, st2)
            | edited u2 ↦ save_user now caller actor (patch_limit req.max_links u2) st2
          ]
    ]

unfoldable pub handle_admin_patch_user :
    ℕ → Caller → User → Bytes → Option PatchUserReq → Store → Reply × Store
unfolding patch_errors
handle_admin_patch_user now caller actor id body st =
    let (r, st') = get_user_by_id id st in
    elim r [
      | err e ↦ (refused not_found_error, st')
      | ok u ↦ elim body [
        | none ↦ (refused bad_request, st')
        | some req ↦
            if ltb 0 (length (patch_errors req))
            then (refused (validation_failed (patch_errors req)), st')
            else apply_patch now caller actor req u st'
      ]
    ]

unfoldable pub delete_account : ℕ → Caller → User → Bytes → Bytes → Store → Reply × Store
delete_account now caller actor action id st =
    let (r, st') = delete_user id st in
    elim r [
      | err e ↦ (refused (of_store e), st')
      | ok done ↦ (no_content, audit now caller actor.id action id st')
    ]

unfoldable pub handle_admin_delete_user : ℕ → Caller → User → Bytes → Store → Reply × Store
handle_admin_delete_user now caller actor id st =
    let (r, st') = get_user_by_id id st in
    elim r [
      | err e ↦ (refused not_found_error, st')
      | ok u ↦
          let (e, st'') = guard_last_admin (is_admin u) u u st' in
          elim e [
            | stopped x ↦ (refused x, st'')
            | edited w ↦ delete_account now caller actor (codes "user.admin_delete") id st''
          ]
    ]

module _ (env : Env) (now : ℕ) (caller : Caller) (fresh : Fresh) where
  -- `generatePassword` of the first token: empty if the source of randomness fails.
  abbrev pub generated : Bytes
  generated = fresh.csrf_token

  unfoldable pub create_checked : User → CreateUserReq → Bytes → Store → Reply × Store
  create_checked actor req address st =
      let pw = if bytes_eq req.password [] then generated else req.password in
      elim (env.hash_password pw) [
        | none ↦ (refused internal, st)
        | some hash ↦
            let u : User = record {
              id = [];
              email = address;
              email_verified = false;
              name = trim_space req.name;
              password_hash = some hash;
              role = if bytes_eq req.role [] then codes "user" else req.role;
              status = codes "active";
              max_links = none;
              role_locked = false;
              must_change_password = true;
              last_login_at = none;
              password_changed_at = none;
              created_at = now;
              updated_at = now;
            } in
            let (r, st') = create_user now fresh.ulid u st in
            elim r [
              | err e ↦ (refused (of_store e), st')
              | ok w ↦ (
                saved 201 w (if bytes_eq req.password [] then some pw else none),
                audit now caller actor.id (codes "user.admin_create") w.id st',
              )
            ]
      ]

  unfoldable pub create_errors : CreateUserReq → List Bytes
  create_errors req =
      field_if (not (is_some (email env.parse_address req.email))) (codes "email")
      ++ field_if (not (bytes_eq req.role []) && not (is_role req.role)) (codes "role")
      ++ field_if (not (bytes_eq req.password []) && not (str_len req.password 10 128))
          (codes "password")

  unfoldable pub handle_admin_create_user : User → Option CreateUserReq → Store → Reply × Store
  unfolding create_errors
  handle_admin_create_user actor body st = elim body [
    | none ↦ (refused bad_request, st)
    | some req ↦ elim (email env.parse_address req.email) [
      | none ↦ (refused (validation_failed (create_errors req)), st)
      | some address ↦
          if ltb 0 (length (create_errors req))
          then (refused (validation_failed (create_errors req)), st)
          else let (r, st') = get_user_by_email address st in
            elim r [
              | ok u ↦ (refused email_taken, st')
              | err e ↦ create_checked actor req address st'
            ]
    ]
  ]

  unfoldable pub handle_admin_reset_password : User → Bytes → Store → Reply × Store
  handle_admin_reset_password actor id st =
      let (r, st') = get_user_by_id id st in
      elim r [
        | err e ↦ (refused not_found_error, st')
        | ok u ↦ elim (env.hash_password generated) [
          | none ↦ (refused internal, st')
          | some hash ↦
              let u' : User = record u {
                password_hash = some hash;
                password_changed_at = some now;
                must_change_password = true;
              } in
              let (d, st1) = update_user now u' st' in
              elim d [
                | err e ↦ (refused (of_store e), st1)
                | ok done ↦ (
                  new_password generated,
                  audit now caller actor.id (codes "user.admin_reset_password") u.id
                      (delete_sessions_for_user u.id st1).1,
                )
              ]
        ]
      ]

unfoldable pub handle_admin_delete_user_sessions : ℕ → Caller → User → Bytes → Store → Reply × Store
handle_admin_delete_user_sessions now caller actor id st =
    let (r, st') = delete_sessions_for_user id st in
    elim r [
      | err e ↦ (refused (of_store e), st')
      | ok done ↦
          (no_content, audit now caller actor.id (codes "user.admin_revoke_sessions") id st')
    ]
