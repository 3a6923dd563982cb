-- ===== src/Store/Users.antt =====
-- internal/store/users.go: the table of users, with its primary key and its unique addresses.
use mathlib.Core.Option
use shortr.Base.{
  ℕ, Bool, true, not, ◌&&◌, List, [], ◌∷◌, ◌++◌, none, some, is_some, length, if◌then◌else◌,
}
use shortr.Base.Bytes.{Bytes, codes, bytes_eq}
use shortr.Base.Table.{first, change, filter, remove_rows}
use shortr.Store.{
  Link, User, Store, Res, ok, err, not_found, conflict, attempt, to_millis, is_admin, is_active,
  count, select_user,
}
use shortr.Store.Types.{Session, ApiKey, OidcIdentity, UserMfa}

abbrev pub has_user_id : Bytes → User → Bool
has_user_id id u = bytes_eq u.id id

abbrev pub has_email : Bytes → User → Bool
has_email email u = bytes_eq u.email email

unfoldable pub user_constraints : List User → Bool
unfolding first
user_constraints [] = true
user_constraints (u ∷ us) =
    not (is_some (first (has_user_id u.id) us))
    && not (is_some (first (has_email u.email) us))
    && user_constraints us

abbrev pub commit_users {ℓ} : {A : Type ℓ} → Store → List User → A → Res A × Store
commit_users st rows a =
    if user_constraints rows then (ok a, record st { users = rows }) else (err conflict, st)

abbrev pub round_user : User → User
round_user u = record u {
  last_login_at = Option.map to_millis u.last_login_at;
  password_changed_at = Option.map to_millis u.password_changed_at;
  created_at = to_millis u.created_at;
  updated_at = to_millis u.updated_at;
}

abbrev pub prepare_user : ℕ → Bytes → User → User
prepare_user now ulid u = record u {
  id = if bytes_eq u.id [] then ulid else u.id;
  created_at = now;
  updated_at = now;
  role = if bytes_eq u.role [] then codes "user" else u.role;
  status = if bytes_eq u.status [] then codes "active" else u.status;
}

unfoldable pub create_user : ℕ → Bytes → User → Store → Res User × Store
unfolding user_constraints
create_user now ulid u st =
    let u' = prepare_user now ulid u in
    attempt st (λ st'. commit_users st' (st'.users ++ round_user u' ∷ []) u')

unfoldable pub get_user_by_email : Bytes → Store → Res User × Store
unfolding first
get_user_by_email email st = attempt st (λ st'. elim (first (has_email email) st'.users) [
  | none ↦ (err not_found, st')
  | some u ↦ (ok u, st')
])

unfoldable pub count_users : Store → Res ℕ × Store
count_users st = attempt st (λ st'. (ok (length st'.users), st'))

-- `role = 'admin' AND status = 'active' AND id != ?`
abbrev pub is_other_admin : Bytes → User → Bool
is_other_admin id u = is_admin u && is_active u && not (bytes_eq u.id id)

unfoldable pub count_admins : Bytes → Store → Res ℕ × Store
count_admins id st = attempt st (λ st'. (ok (count (is_other_admin id) st'.users), st'))

-- The columns that the UPDATE statement sets.
abbrev pub merge_user : ℕ → User → User → User
merge_user now u r = record r {
  email = u.email;
  email_verified = u.email_verified;
  name = u.name;
  password_hash = u.password_hash;
  role = u.role;
  status = u.status;
  max_links = u.max_links;
  role_locked = u.role_locked;
  must_change_password = u.must_change_password;
  last_login_at = Option.map to_millis u.last_login_at;
  password_changed_at = Option.map to_millis u.password_changed_at;
  updated_at = to_millis now;
}

unfoldable pub update_user : ℕ → User → Store → Res (Unit {0}) × Store
unfolding change user_constraints
update_user now u st =
    attempt st (λ st'. commit_users st' (change (has_user_id u.id) (merge_user now u) st'.users) tt)

-- Rows that reference the user go with it; its links stay, without an owner.
abbrev pub disown : Bytes → Link → Link
disown id l =
    if elim l.user_id [ none ↦ Bool.false | some u ↦ bytes_eq u id ]
    then record l { user_id = none }
    else l

unfoldable pub delete_user : Bytes → Store → Res (Unit {0}) × Store
unfolding remove_rows
delete_user id st = attempt st (λ st'. (
  ok tt,
  record st' {
    users = remove_rows (has_user_id id) st'.users;
    sessions = remove_rows (λ (r : Bytes × Session). bytes_eq r.1.user_id id) st'.sessions;
    api_keys = remove_rows (λ (k : ApiKey). bytes_eq k.user_id id) st'.api_keys;
    oidc_identities = remove_rows (λ (o : OidcIdentity). bytes_eq o.user_id id) st'.oidc_identities;
    user_mfa = remove_rows (λ (r : Bytes × UserMfa). bytes_eq r.0 id) st'.user_mfa;
    links = disown_all st'.links;
  },
))
  where
    disown_all : List Link → List Link
    disown_all [] = []
    disown_all (l ∷ ls) = disown id l ∷ disown_all ls

unfoldable pub list_active_admins : Store → Res (List User) × Store
unfolding filter
list_active_admins st =
    attempt st (λ st'. (ok (filter (λ u. is_admin u && is_active u) st'.users), st'))

-- A foreign key to a user.
abbrev pub references_user : Bytes → Store → Bool
references_user id st = is_some (select_user id st.users)
