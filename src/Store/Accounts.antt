-- ===== src/Store/Accounts.antt =====
-- internal/store/sessions.go, apikeys.go, mfa.go, oidc.go, settings.go and audit.go: the statements on
-- the rows that belong to a user. A row of a user that is missing is refused by the foreign key.
use mathlib.Core.Option
use shortr.Base.{
  ℕ, Bool, true, false, not, ◌&&◌, ◌||◌, List, [], ◌∷◌, ◌++◌, Option, none, some, is_some, any,
  length, ltb, if◌then◌else◌,
}
use shortr.Base.Bytes.{Bytes, codes, bytes_eq}
use shortr.Base.Map.{lookup, insert, delete}
use shortr.Base.Table.{first, change, filter, remove_rows}
use shortr.Store.{Store, Res, ok, err, not_found, conflict, db_error, attempt, to_millis}
use shortr.Store.Users.{references_user}
use shortr.Store.Types.{Session, ApiKey, OidcIdentity, UserMfa, AuditEntry}

-- The assignments of `CreateSession` before the statement.
abbrev pub prepare_session : ℕ → Session → Session
prepare_session now s = record s {
  created_at = now;
  last_seen_at = now;
  auth_method = if bytes_eq s.auth_method [] then codes "password" else s.auth_method;
}

abbrev pub round_session : Session → Session
round_session s = record s {
  created_at = to_millis s.created_at;
  expires_at = to_millis s.expires_at;
  last_seen_at = to_millis s.last_seen_at;
}

unfoldable pub create_session : ℕ → Session → Store → Res Session × Store
create_session now s st =
    let s' = prepare_session now s in
    attempt st (λ st'.
      if is_some (lookup s'.id st'.sessions) || not (references_user s'.user_id st')
      then (err db_error, st')
      else (ok s', record st' { sessions = insert s'.id (round_session s') st'.sessions }))

unfoldable pub get_session : Bytes → Store → Res Session × Store
get_session id st =
    attempt st
      (λ st'. elim (lookup id st'.sessions) [ none ↦ (err not_found, st') | some s ↦ (ok s, st') ])

unfoldable pub touch_session : Bytes → ℕ → Store → Res (Unit {0}) × Store
touch_session id at st = attempt st (λ st'. elim (lookup id st'.sessions) [
  | none ↦ (ok tt, st')
  | some s ↦
      let s' : Session = record s { last_seen_at = to_millis at } in
      (ok tt, record st' { sessions = insert id s' st'.sessions })
])

unfoldable pub delete_session : Bytes → Store → Res (Unit {0}) × Store
delete_session id st = attempt st (λ st'. (ok tt, record st' { sessions = delete id st'.sessions }))

unfoldable pub delete_sessions_for_user : Bytes → Store → Res (Unit {0}) × Store
unfolding remove_rows
delete_sessions_for_user user st = attempt st (λ st'. (
  ok tt,
  record st' {
    sessions = remove_rows (λ (r : Bytes × Session). bytes_eq r.1.user_id user) st'.sessions;
  },
))

unfoldable pub delete_sessions_for_user_except : Bytes → Bytes → Store → Res (Unit {0}) × Store
unfolding remove_rows
delete_sessions_for_user_except user keep st = attempt st (λ st'. (
  ok tt,
  record st' {
    sessions =
        remove_rows (λ (r : Bytes × Session). bytes_eq r.1.user_id user && not (bytes_eq r.0 keep))
          st'.sessions;
  },
))

-- The number of rows that the statement removes.
unfoldable pub delete_expired_sessions : ℕ → Store → Res ℕ × Store
unfolding remove_rows filter
delete_expired_sessions now st = attempt st (λ st'.
    let expired : Bytes × Session → Bool = λ r. ltb r.1.expires_at (to_millis now) in
    (
      ok (length (filter expired st'.sessions)),
      record st' { sessions = remove_rows expired st'.sessions },
    ))

abbrev pub round_key : ApiKey → ApiKey
round_key k = record k {
  last_used_at = Option.map to_millis k.last_used_at;
  expires_at = Option.map to_millis k.expires_at;
  revoked_at = Option.map to_millis k.revoked_at;
  created_at = to_millis k.created_at;
}

abbrev pub has_key_id : Bytes → ApiKey → Bool
has_key_id id k = bytes_eq k.id id

abbrev pub has_key_hash : Bytes → ApiKey → Bool
has_key_hash hash k = bytes_eq k.key_hash hash

-- `ulid` is the id that `ulid.New` returns.
unfoldable pub create_api_key : ℕ → Bytes → ApiKey → Store → Res ApiKey × Store
create_api_key now ulid k st =
    let k' : ApiKey = record k { id = if bytes_eq k.id [] then ulid else k.id; created_at = now } in
    attempt st (λ st'.
      if any (has_key_id k'.id) st'.api_keys || any (has_key_hash k'.key_hash) st'.api_keys
      then (err conflict, st')
      else if not (references_user k'.user_id st')
      then (err db_error, st')
      else (ok k', record st' { api_keys = st'.api_keys ++ round_key k' ∷ [] }))

unfoldable pub get_api_key_by_hash : Bytes → Store → Res ApiKey × Store
unfolding first
get_api_key_by_hash hash st = attempt st (λ st'. elim (first (has_key_hash hash) st'.api_keys) [
  | none ↦ (err not_found, st')
  | some k ↦ (ok k, st')
])

unfoldable pub get_api_key : Bytes → Store → Res ApiKey × Store
unfolding first
get_api_key id st = attempt st (λ st'. elim (first (has_key_id id) st'.api_keys) [
  | none ↦ (err not_found, st')
  | some k ↦ (ok k, st')
])

unfoldable pub touch_api_key : Bytes → ℕ → Store → Res (Unit {0}) × Store
unfolding change
touch_api_key id at st = attempt st (λ st'. (
  ok tt,
  record st' {
    api_keys =
        change (has_key_id id) (λ k. record k { last_used_at = some (to_millis at) }) st'.api_keys;
  },
))

unfoldable pub revoke_api_key : Bytes → ℕ → Store → Res (Unit {0}) × Store
unfolding change
revoke_api_key id at st = attempt st (λ st'. (
  ok tt,
  record st' {
    api_keys =
        change (has_key_id id) (λ k. record k { revoked_at = some (to_millis at) }) st'.api_keys;
  },
))

unfoldable pub get_user_mfa : Bytes → Store → Res UserMfa × Store
get_user_mfa user st =
    attempt st (λ st'. elim (lookup user st'.user_mfa) [
      | none ↦ (err not_found, st')
      | some m ↦ (ok m, st')
    ])

unfoldable pub put_user_mfa : UserMfa → Store → Res (Unit {0}) × Store
put_user_mfa m st = attempt st (λ st'.
    let m' : UserMfa = record m { enabled_at = Option.map to_millis m.enabled_at } in
    if references_user m.user_id st'
    then (ok tt, record st' { user_mfa = insert m.user_id m' st'.user_mfa })
    else (err db_error, st'))

-- Whether the statement changed the row.
unfoldable pub advance_mfa_step : Bytes → ℕ → Store → Res Bool × Store
advance_mfa_step user step st = attempt st (λ st'. elim (lookup user st'.user_mfa) [
  | none ↦ (ok false, st')
  | some m ↦
      let m' : UserMfa = record m { last_step = step } in
      if ltb m.last_step step
      then (ok true, record st' { user_mfa = insert user m' st'.user_mfa })
      else (ok false, st')
])

-- The hashes without the first that is the given one, if it is there.
unfoldable pub take_out : Bytes → List Bytes → Option (List Bytes)
take_out h [] = none
take_out h (c ∷ cs) =
    let rest = take_out h cs in if bytes_eq c h then some cs else Option.map (λ l. c ∷ l) rest

-- Equality of the JSON text of two lists is that of the lists.
unfoldable pub same_codes : List Bytes → List Bytes → Bool
same_codes [] [] = true
same_codes (c ∷ cs) (d ∷ ds) = bytes_eq c d && same_codes cs ds
same_codes _ _ = false

-- The compare-and-swap of the recovery codes of a user.
unfoldable pub swap_codes : Bytes → List Bytes → List Bytes → Store → Res Bool × Store
unfolding same_codes
swap_codes user old new st = attempt st (λ st'. elim (lookup user st'.user_mfa) [
  | none ↦ (ok false, st')
  | some m ↦
      let m' : UserMfa = record m { recovery_codes = new } in
      if same_codes m.recovery_codes old
      then (ok true, record st' { user_mfa = insert user m' st'.user_mfa })
      else (ok false, st')
])

unfoldable pub consume_recovery_code : Bytes → Bytes → Store → Res Bool × Store
consume_recovery_code user hash st =
    let (r, st') = get_user_mfa user st in
    elim r [
      | err e ↦ (err e, st')
      | ok m ↦ elim (take_out hash m.recovery_codes) [
        | none ↦ (ok false, st')
        | some left ↦ swap_codes user m.recovery_codes left st'
      ]
    ]

unfoldable pub delete_user_mfa : Bytes → Store → Res (Unit {0}) × Store
delete_user_mfa user st =
    attempt st (λ st'. (ok tt, record st' { user_mfa = delete user st'.user_mfa }))

abbrev pub is_linked : Bytes → Bytes → OidcIdentity → Bool
is_linked issuer subject o = bytes_eq o.issuer issuer && bytes_eq o.subject subject

unfoldable pub get_oidc_identity : Bytes → Bytes → Store → Res OidcIdentity × Store
unfolding first
get_oidc_identity issuer subject st = attempt st (λ st'.
    elim (first (is_linked issuer subject) st'.oidc_identities) [
      | none ↦ (err not_found, st')
      | some o ↦ (ok o, st')
    ])

unfoldable pub set_setting : Bytes → Bytes → Store → Res (Unit {0}) × Store
set_setting key value st =
    attempt st (λ st'. (ok tt, record st' { settings = insert key value st'.settings }))

unfoldable pub add_audit : AuditEntry → Store → Res (Unit {0}) × Store
add_audit e st = attempt st (λ st'. (ok tt, record st' { audit_log = st'.audit_log ++ e ∷ [] }))
