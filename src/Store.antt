-- ===== src/Store.antt =====
-- internal/store: the table of links (types.go, links.go). The database engine is not modelled: a
-- statement has its documented meaning on a list of rows, and any statement may fail. Times are
-- nanoseconds, kept to the millisecond in a row. The unset `LastClickAt` and the like are `none`.
pub mod Types
pub mod Users
pub mod Accounts
pub mod Reads
pub mod Rows
pub mod Lookup
use mathlib.Core.Option
use shortr.Base.{
  ℕ, ◌+◌, ◌*◌, ◌/◌, Bool, true, false, not, ◌&&◌, List, [], ◌∷◌, ◌++◌, map, Option, none, some,
  is_some, length, any, ltb, if◌then◌else◌,
}
use shortr.Base.Bytes.{Bytes, codes, bytes_eq, to_lower}
use shortr.Store.Types.{Session, ApiKey, OidcIdentity, UserMfa, AuditEntry}

pub record Link : Type 0 where
  pub id : Bytes
  pub code : Bytes
  pub target_url : Bytes
  pub title : Bytes
  pub description : Bytes
  pub user_id : Option Bytes
  pub redirect_status : ℕ
  pub password_hash : Option Bytes
  pub expires_at : Option ℕ
  pub max_clicks : Option ℕ
  pub click_count : ℕ
  pub last_click_at : Option ℕ
  pub status : Bytes
  pub deleted_at : Option ℕ
  pub utm_source : Bytes
  pub utm_medium : Bytes
  pub utm_campaign : Bytes
  pub utm_term : Bytes
  pub utm_content : Bytes
  pub pass_query : Bool
  pub tags : List Bytes
  pub created_at : ℕ
  pub updated_at : ℕ
  pub created_by_ip : Bytes

pub record User : Type 0 where
  pub id : Bytes
  pub email : Bytes
  pub email_verified : Bool
  pub name : Bytes
  pub password_hash : Option Bytes
  pub role : Bytes
  pub status : Bytes
  pub max_links : Option ℕ
  pub role_locked : Bool
  pub must_change_password : Bool
  pub last_login_at : Option ℕ
  pub password_changed_at : Option ℕ
  pub created_at : ℕ
  pub updated_at : ℕ

abbrev pub is_admin : User → Bool
is_admin u = bytes_eq u.role (codes "admin")

abbrev pub is_active : User → Bool
is_active u = bytes_eq u.status (codes "active")

abbrev pub has_password : Link → Bool
has_password l = elim l.password_hash [ none ↦ false | some h ↦ not (bytes_eq h []) ]

-- `fromMillis(toMillis(t))`
abbrev pub to_millis : ℕ → ℕ
to_millis t = t / 1000000 * 1000000

-- The tables. Sessions are keyed by their id, the rows of `user_mfa` by their user, settings by name.
-- `faults n` says that statement number `n` fails; `queries` counts the statements.
pub record Store : Type 0 where
  pub links : List Link
  pub users : List User
  pub sessions : List (Bytes × Session)
  pub api_keys : List ApiKey
  pub oidc_identities : List OidcIdentity
  pub user_mfa : List (Bytes × UserMfa)
  pub settings : List (Bytes × Bytes)
  pub audit_log : List AuditEntry
  pub queries : ℕ
  pub faults : ℕ → Bool

pub data StoreError : Type 0 where
  not_found conflict db_error : StoreError

pub data Res {ℓ} (A : Type ℓ) : Type ℓ where
  ok : A → Res A
  err : StoreError → Res A

abbrev pub attempt {ℓ} : {A : Type ℓ} → Store → (Store → Res A × Store) → Res A × Store
attempt st f =
    let st' = record st { queries = st.queries + 1 } in
    if st.faults st.queries then (err db_error, st') else f st'

-- The first row that a test selects.
unfoldable pub select : (Link → Bool) → List Link → Option Link
select p [] = none
select p (l ∷ ls) = if p l then some l else select p ls

-- `LOWER(code) = LOWER(?)`, the key lowered before.
abbrev pub has_key : Bytes → Link → Bool
has_key k l = bytes_eq (to_lower l.code) k

abbrev pub has_id : Bytes → Link → Bool
has_id id l = bytes_eq l.id id

-- The primary key and the unique index on LOWER(code).
unfoldable pub constraints : List Link → Bool
constraints [] = true
constraints (l ∷ ls) =
    not (is_some (select (has_key (to_lower l.code)) ls))
    && not (is_some (select (has_id l.id) ls))
    && constraints ls

-- A statement that writes rows takes effect only if the constraints hold after it.
abbrev pub commit {ℓ} : {A : Type ℓ} → Store → List Link → A → Res A × Store
commit st rows a =
    if constraints rows then (ok a, record st { links = rows }) else (err conflict, st)

abbrev pub round_link : Link → Link
round_link l = record l {
  expires_at = Option.map to_millis l.expires_at;
  last_click_at = Option.map to_millis l.last_click_at;
  deleted_at = Option.map to_millis l.deleted_at;
  created_at = to_millis l.created_at;
  updated_at = to_millis l.updated_at;
}

-- The assignments of `CreateLink` before the statement; `ulid` is the id that `ulid.New` returns.
abbrev pub prepare : ℕ → Bytes → Link → Link
prepare now ulid l = record l {
  id = if bytes_eq l.id [] then ulid else l.id;
  created_at = now;
  updated_at = now;
  status = if bytes_eq l.status [] then codes "active" else l.status;
}

abbrev pub select_user : Bytes → List User → Option User
select_user id [] = none
select_user id (u ∷ us) = if bytes_eq u.id id then some u else select_user id us

-- `user_id REFERENCES users(id)`
abbrev pub owner_exists : Link → Store → Bool
owner_exists l st = elim l.user_id [ none ↦ true | some u ↦ is_some (select_user u st.users) ]

-- The unique constraints are checked first, as the row is written, the reference at the statement's end.
unfoldable pub create_link : ℕ → Bytes → Link → Store → Res Link × Store
create_link now ulid l st =
    let l' = prepare now ulid l in
    let rows = st.links ++ round_link l' ∷ [] in
    attempt st (λ st'.
      if constraints rows && not (owner_exists l' st')
      then (err db_error, st')
      else commit st' rows l')

unfoldable pub get_link_by_id : Bytes → Store → Res Link × Store
get_link_by_id id st = attempt st (λ st'. elim (select (has_id id) st'.links) [
  | none ↦ (err not_found, st')
  | some l ↦ (ok l, st')
])

-- The exact match first, then the match without case.
unfoldable pub get_link_by_code : Bytes → Store → Res Link × Store
get_link_by_code code st = attempt st (λ st'. elim (select (λ l. bytes_eq l.code code) st'.links) [
  | some l ↦ (ok l, st')
  | none ↦ attempt st' (λ st''. elim (select (has_key (to_lower code)) st''.links) [
    | none ↦ (err not_found, st'')
    | some l ↦ (ok l, st'')
  ])
])

unfoldable pub code_exists : Bytes → Store → Res Bool × Store
code_exists code st =
    attempt st (λ st'. (ok (is_some (select (has_key (to_lower code)) st'.links)), st'))

-- The columns that the UPDATE statement sets.
abbrev pub merge : ℕ → Link → Link → Link
merge now l r = record r {
  code = l.code;
  target_url = l.target_url;
  title = l.title;
  description = l.description;
  user_id = l.user_id;
  redirect_status = l.redirect_status;
  password_hash = l.password_hash;
  expires_at = Option.map to_millis l.expires_at;
  max_clicks = l.max_clicks;
  status = l.status;
  utm_source = l.utm_source;
  utm_medium = l.utm_medium;
  utm_campaign = l.utm_campaign;
  utm_term = l.utm_term;
  utm_content = l.utm_content;
  pass_query = l.pass_query;
  tags = l.tags;
  updated_at = to_millis now;
}

-- `UPDATE links SET … WHERE id = ?`
unfoldable pub update_where : Bytes → (Link → Link) → List Link → List Link
update_where id f [] = []
update_where id f (l ∷ ls) = (if has_id id l then f l else l) ∷ update_where id f ls

-- `DELETE FROM links WHERE id = ?`
unfoldable pub delete_where : Bytes → List Link → List Link
delete_where id [] = []
delete_where id (l ∷ ls) = let rest = delete_where id ls in if has_id id l then rest else l ∷ rest

unfoldable pub update_link : ℕ → Link → Store → Res (Unit {0}) × Store
update_link now l st = attempt st (λ st'. commit st' (update_where l.id (merge now l) st'.links) tt)

unfoldable pub soft_delete_link : Bytes → ℕ → Store → Res (Unit {0}) × Store
soft_delete_link id at st = attempt st (λ st'.
    commit st'
      (update_where id
        (λ r. record r { deleted_at = some (to_millis at); updated_at = to_millis at }) st'.links)
      tt)

unfoldable pub restore_link : Bytes → ℕ → Store → Res (Unit {0}) × Store
restore_link id now st = attempt st (λ st'.
    commit st'
      (update_where id (λ r. record r { deleted_at = none; updated_at = to_millis now }) st'.links)
      tt)

-- One transaction: the statements on the clicks and the rollups are its other rows.
unfoldable pub purge_link : Bytes → Store → Res (Unit {0}) × Store
purge_link id st = attempt st (λ st'. (ok tt, record st' { links = delete_where id st'.links }))

unfoldable pub increment_click_count : Bytes → ℕ → ℕ → Store → Res (Unit {0}) × Store
increment_click_count id n at st = attempt st (λ st'.
    commit st'
      (update_where id
        (λ r. record r { click_count = r.click_count + n; last_click_at = some (to_millis at) })
        st'.links)
      tt)

-- `user_id = ? AND deleted_at IS NULL`
abbrev pub owns : Bytes → Link → Bool
owns user l =
    elim l.user_id [ none ↦ false | some u ↦ bytes_eq u user ] && not (is_some l.deleted_at)

abbrev pub count {ℓ} : {A : Type ℓ} → (A → Bool) → List A → ℕ
count p [] = 0
count p (l ∷ ls) = (if p l then 1 else 0) + count p ls

unfoldable pub count_links_for_user : Bytes → Store → Res ℕ × Store
count_links_for_user user st = attempt st (λ st'. (ok (count (owns user) st'.links), st'))

unfoldable pub get_user_by_id : Bytes → Store → Res User × Store
get_user_by_id id st =
    attempt st (λ st'. elim (select_user id st'.users) [
      | none ↦ (err not_found, st')
      | some u ↦ (ok u, st')
    ])
