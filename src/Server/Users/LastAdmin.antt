-- ===== src/Server/Users/LastAdmin.antt =====
-- The last active administrator cannot be lost.
use shortr.Base.{
  ℕ, ◌≡◌, ◌≤◌, refl, sym, ap, ◌∙◌, subst, ◌⊎◌, inl, inr, Bool, true, false, List, [], ◌∷◌, Option,
  some, ◌==◌, Bool-cases, arith,
}
use shortr.Base.Bytes.{Bytes, codes}
use shortr.Base.Table.{remove_rows}
use shortr.Store.{User, Store, Res, ok, err, get_user_by_id, select_user, count, is_admin}
use shortr.Store.Reads.{get_user_by_id-found, get_user_by_id-queried}
use shortr.Store.Users.{count_admins, delete_user, is_other_admin, has_user_id}
use shortr.Server.Console.{Caller, ApiError, of_store, audit}
use shortr.Server.Users.{
  PatchUserReq, Edited, edited, stopped, guard_last_admin, handle_admin_patch_user, delete_account,
  handle_admin_delete_user,
}
use shortr.Server.Users.Admins.{
  rules, others-remove-le, found-Powerless, Powerless-remove-le, user_constraints-remove,
}
use shortr.Server.Users.Edits.{
  HasAdmin, HasAdmin-same, count_admins-users, count_admins-ok, audit-users,
}
use shortr.Server.Users.Patch.{
  get_user_by_id-HasAdmin, select_user-id, handle_admin_patch_user-HasAdmin,
}

-- Deleting a user is harmless if another administrator is active, or the user has no such rights.
delete_user-HasAdmin :
    (id : Bytes) (u : User) (st : Store)
    → HasAdmin st
    → select_user id st.users ≡ some u
    → (1 ≤ count (is_other_admin id) st.users) ⊎ (rules u ≡ false)
    → HasAdmin (delete_user id st).1
unfolding delete_user
delete_user-HasAdmin id u st (unique, some_admin) here safe =
    elim (Bool-cases (st.faults st.queries)) [
      | inl fault ↦ rw (fault, delete_user) (unique, some_admin)
      | inr fine ↦ rw (fine, delete_user) (user_constraints-remove id st.users unique, enough safe)
    ]
  where
    enough :
        (1 ≤ count (is_other_admin id) st.users) ⊎ (rules u ≡ false)
        → 1 ≤ count rules (remove_rows (has_user_id id) st.users)
    enough (inl others) = omega (arith, others, others-remove-le id st.users)
    enough (inr weak) = omega (
      arith,
      some_admin,
      Powerless-remove-le id st.users (found-Powerless id st.users u unique here weak),
    )

delete_account-HasAdmin :
    (now : ℕ) (caller : Caller) (actor : User) (action id : Bytes) (u : User) (st : Store)
    → HasAdmin st
    → select_user id st.users ≡ some u
    → (1 ≤ count (is_other_admin id) st.users) ⊎ (rules u ≡ false)
    → HasAdmin (delete_account now caller actor action id st).1
unfolding delete_account
delete_account-HasAdmin now caller actor action id u st h here safe =
    cases (delete_user id st).0 refl
  where
    cases :
        (r : Res (Unit {0}))
        → (delete_user id st).0 ≡ r
        → HasAdmin (delete_account now caller actor action id st).1
    cases (err e) q = rw (q, delete_account) (delete_user-HasAdmin id u st h here safe)
    cases (ok done) q =
        rw (q, delete_account)
          (HasAdmin-same (delete_user id st).1
            (audit now caller actor.id action id (delete_user id st).1)
            (audit-users now caller actor.id action id (delete_user id st).1)
            (delete_user-HasAdmin id u st h here safe))

-- A guard that is needed lets through only if another administrator is active.
data Asked (u : User) (st : Store) (r : Edited × Store) : Type 0 where
  refused_last : (x : ApiError) → r.0 ≡ stopped x → r.1.users ≡ st.users → Asked u st r
  let_through :
      r.0 ≡ edited u
      → r.1.users ≡ st.users
      → (is_admin u ≡ true → 1 ≤ count (is_other_admin u.id) st.users)
      → Asked u st r

guard_last_admin-Asked : (u : User) (st : Store) → Asked u st (guard_last_admin (is_admin u) u u st)
unfolding guard_last_admin
guard_last_admin-Asked u st = by_role (is_admin u) refl
  where
    counted :
        is_admin u ≡ true
        → (r : Res ℕ) → (count_admins u.id st).0 ≡ r
        → Asked u st (guard_last_admin true u u st)
    counted chief (err e) q =
        rw (q, guard_last_admin) (refused_last (of_store e) refl (count_admins-users u.id st))
    counted chief (ok n) q = elim (Bool-cases (n == 0)) [
      | inl zero_left ↦
          rw (q, zero_left, guard_last_admin)
            (refused_last ApiError.last_admin refl (count_admins-users u.id st))
      | inr more ↦
          rw (q, more, guard_last_admin)
            (let_through refl (count_admins-users u.id st)
              (λ x. ground (arith, more, count_admins-ok u.id st n q)))
    ]

    by_role : (b : Bool) → is_admin u ≡ b → Asked u st (guard_last_admin b u u st)
    by_role true chief = counted chief (count_admins u.id st).0 refl
    by_role false plain = let_through refl refl (λ x. absurd (ground (arith, plain, x)))

handle_admin_delete_user-HasAdmin :
    (now : ℕ) (caller : Caller) (actor : User) (id : Bytes) (st : Store)
    → HasAdmin st
    → HasAdmin (handle_admin_delete_user now caller actor id st).1
unfolding handle_admin_delete_user
handle_admin_delete_user-HasAdmin now caller actor id st h = cases (get_user_by_id id st).0 refl
  where
    read : Store
    read = (get_user_by_id id st).1

    asked : User → Edited × Store
    asked u = guard_last_admin (is_admin u) u u read

    kept : HasAdmin read
    kept = get_user_by_id-HasAdmin id st h

    guarded :
        (u : User)
        → (get_user_by_id id st).0 ≡ ok u
        → u.id ≡ id
        → select_user id read.users ≡ some u
        → Asked u read (asked u)
        → HasAdmin (handle_admin_delete_user now caller actor id st).1
    guarded u q same here (refused_last x e t) =
        rw (q, e, handle_admin_delete_user) (HasAdmin-same read (asked u).1 t kept)
    guarded u q same here (let_through e t others) =
        rw (q, e, handle_admin_delete_user)
          (delete_account-HasAdmin now caller actor (codes "user.admin_delete") id u (asked u).1
            (HasAdmin-same read (asked u).1 t kept) (ap (select_user id) t ∙ here)
            (elim (Bool-cases (is_admin u)) [
              | inr plain ↦ inr (ground (arith, plain))
              | inl chief ↦ inl (
                  subst (λ us. 1 ≤ count (is_other_admin id) us) (sym t)
                    (subst (λ x. 1 ≤ count (is_other_admin x) read.users) same (others chief)))
            ]))

    cases :
        (r : Res User)
        → (get_user_by_id id st).0 ≡ r
        → HasAdmin (handle_admin_delete_user now caller actor id st).1
    cases (err e) q = rw (q, handle_admin_delete_user) kept
    cases (ok u) q =
        let found : select_user id st.users ≡ some u = get_user_by_id-found id st u q in
        guarded u q (select_user-id id st.users u found)
          (ap (λ s. select_user id s.users) (get_user_by_id-queried id st) ∙ found)
          (guard_last_admin-Asked u read)

-- A request to the administration of users, handleAdminPatchUser or handleAdminDeleteUser, and its
-- time. What users do to their own accounts, and the roles that a sign-in with a provider sets, are not
-- among these.
pub data AdminAction : Type 0 where
  patch : ℕ → Caller → User → Bytes → Option PatchUserReq → AdminAction
  remove : ℕ → Caller → User → Bytes → AdminAction

unfoldable pub act : List AdminAction → Store → Store
act [] st = st
act (patch now caller actor id body ∷ as') st =
    act as' (handle_admin_patch_user now caller actor id body st).1
act (remove now caller actor id ∷ as') st =
    act as' (handle_admin_delete_user now caller actor id st).1

-- After any sequence of requests of administrators to handleAdminPatchUser and handleAdminDeleteUser,
-- one after another and with no other writes in between, whatever statements fail, the constraints on
-- the rows of users hold and a user is an active administrator, if that was so before.
pub act-HasAdmin :
    (actions : List AdminAction) (st : Store) → HasAdmin st → HasAdmin (act actions st)
unfolding act
act-HasAdmin [] st h = h
act-HasAdmin (patch now caller actor id body ∷ as') st h =
    act-HasAdmin as' (handle_admin_patch_user now caller actor id body st).1
      (handle_admin_patch_user-HasAdmin now caller actor id body st h)
act-HasAdmin (remove now caller actor id ∷ as') st h =
    act-HasAdmin as' (handle_admin_delete_user now caller actor id st).1
      (handle_admin_delete_user-HasAdmin now caller actor id st h)
