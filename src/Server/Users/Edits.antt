-- ===== src/Server/Users/Edits.antt =====
-- What the edits of a user do to the rights of users.
use shortr.Base.{
  ℕ, ◌≡◌, ◌≤◌, refl, sym, ap, ◌∙◌, subst, ◌⊎◌, inl, inr, Bool, true, false, not, ◌&&◌, List, Option,
  none, some, ◌==◌, Bool-cases, arith,
}
use shortr.Base.Bytes.{Bytes, codes, bytes_eq, bytes_eq_iff}
use shortr.Base.Table.{change}
use shortr.Store.{User, Store, Res, ok, err, select_user, count, is_admin}
use shortr.Store.Users.{
  count_admins, update_user, is_other_admin, has_user_id, merge_user, user_constraints,
}
use shortr.Store.Accounts.{delete_sessions_for_user, add_audit}
use shortr.Server.Console.{Caller, ApiError, of_store, audit}
use shortr.Server.Users.{
  Edited, edited, stopped, guard_last_admin, patch_role, patch_status, end_sessions, is_status,
}
use shortr.Server.Users.Admins.{
  rules, others-change-le, found-Powerless, Powerless-change-le, found-change-rules,
}

-- The rows are unique, and one of them at least is that of an active administrator.
abbrev pub HasAdmin : Store → Type 0
HasAdmin st = (user_constraints st.users ≡ true) × (1 ≤ count rules st.users)

pub HasAdmin-same : (st st' : Store) → st'.users ≡ st.users → HasAdmin st → HasAdmin st'
HasAdmin-same st st' e (c, h) =
    (ap user_constraints e ∙ c, subst (λ us. 1 ≤ count rules us) (sym e) h)

-- What an edit may do to the rights of a user.
abbrev pub Harmless : List User → User → User → Type 0
Harmless us u w =
    (w.id ≡ u.id) × ((1 ≤ count (is_other_admin u.id) us) ⊎ (rules u ≡ true → rules w ≡ true))

pub Harmless-trans :
    (us : List User) (u v w : User) → Harmless us u v → Harmless us v w → Harmless us u w
Harmless-trans us u v w (a, inl others) (b, q) = (b ∙ a, inl others)
Harmless-trans us u v w (a, inr f) (b, inl others) =
    (b ∙ a, inl (subst (λ x. 1 ≤ count (is_other_admin x) us) a others))
Harmless-trans us u v w (a, inr f) (b, inr g) = (b ∙ a, inr (λ h. g (f h)))

pub count_admins-users : (id : Bytes) (st : Store) → (count_admins id st).1.users ≡ st.users
unfolding count_admins
count_admins-users id st = ground arith

pub count_admins-ok :
    (id : Bytes) (st : Store) (n : ℕ)
    → (count_admins id st).0 ≡ ok n
    → n ≡ count (is_other_admin id) st.users
unfolding count_admins
count_admins-ok id st n h = elim (Bool-cases (st.faults st.queries)) [
  | inl fault ↦ absurd (ground (arith, fault, h))
  | inr fine ↦ ground (arith, fine, h)
]

-- The outcome of a guard: the users stay, and a user that is let through is the edited one, which is
-- harmless if the guard was not needed only when nothing is lost.
pub data Guarded (us : List User) (u w : User) (r : Edited × Store) : Type 0 where
  was_stopped : (x : ApiError) → r.0 ≡ stopped x → r.1.users ≡ us → Guarded us u w r
  was_edited : r.0 ≡ edited w → r.1.users ≡ us → Harmless us u w → Guarded us u w r

pub guard_last_admin-Guarded :
    (needed : Bool) (u w : User) (st : Store)
    → w.id ≡ u.id
    → (needed ≡ false → rules u ≡ true → rules w ≡ true)
    → Guarded st.users u w (guard_last_admin needed u w st)
unfolding guard_last_admin
guard_last_admin-Guarded false u w st same safe = was_edited refl refl (same, inr (safe refl))
guard_last_admin-Guarded true u w st same safe = cases (count_admins u.id st).0 refl
  where
    cases :
        (r : Res ℕ)
        → (count_admins u.id st).0 ≡ r
        → Guarded st.users u w (guard_last_admin true u w st)
    cases (err e) q =
        rw (q, guard_last_admin) (was_stopped (of_store e) refl (count_admins-users u.id st))
    cases (ok n) q = elim (Bool-cases (n == 0)) [
      | inl zero_left ↦
          rw (q, zero_left, guard_last_admin)
            (was_stopped ApiError.last_admin refl (count_admins-users u.id st))
      | inr more ↦
          rw (q, more, guard_last_admin)
            (was_edited refl (count_admins-users u.id st)
              (same, inl (ground (arith, more, count_admins-ok u.id st n q))))
    ]

pub patch_role-Guarded :
    (role : Option Bytes) (u : User) (st : Store)
    → (w : User) × Guarded st.users u w (patch_role role u st)
unfolding patch_role
patch_role-Guarded none u st = (u, was_edited refl refl (refl, inr (λ h. h)))
patch_role-Guarded (some r) u st = elim (Bool-cases (bytes_eq r u.role)) [
  | inl same ↦ (u, rw (same, patch_role) (was_edited refl refl (refl, inr (λ h. h))))
  | inr other ↦
      let w : User = record u { role = r; role_locked = true } in
      let g : Guarded st.users u w
          (guard_last_admin (is_admin u && not (bytes_eq r (codes "admin"))) u w st) =
        guard_last_admin-Guarded (is_admin u && not (bytes_eq r (codes "admin"))) u w st refl
          (λ free strong. ground (arith, free, strong)) in
      (w, rw (other, patch_role) g)
]

delete_sessions_for_user-users :
    (id : Bytes) (st : Store) → (delete_sessions_for_user id st).1.users ≡ st.users
unfolding delete_sessions_for_user
delete_sessions_for_user-users id st = ground arith

end_sessions-users : (s : Bytes) (u : User) (st : Store) → (end_sessions s u st).users ≡ st.users
unfolding end_sessions
end_sessions-users s u st = elim (Bool-cases (bytes_eq s (codes "disabled"))) [
  | inl off ↦ rw (off, end_sessions) (delete_sessions_for_user-users u.id st)
  | inr on ↦ rw (on, end_sessions) refl
]

pub patch_status-Guarded :
    (status : Option Bytes) (u : User) (st : Store)
    → (elim status as (λ x. Bool) [ none ↦ false | some s ↦ not (is_status s) ]) ≡ false
    → (w : User) × Guarded st.users u w (patch_status status u st)
unfolding patch_status
patch_status-Guarded none u st good = (u, was_edited refl refl (refl, inr (λ h. h)))
patch_status-Guarded (some s) u st good = elim (Bool-cases (bytes_eq s u.status)) [
  | inl same ↦ (u, rw (same, patch_status) (was_edited refl refl (refl, inr (λ h. h))))
  | inr other ↦
      let w : User = record u { status = s } in
      (
        w,
        cases other
            (guard_last_admin-Guarded _ u w st refl (λ free strong. safe other free strong)),
      )
]
  where
    needed : Bool
    needed = bytes_eq u.status (codes "active") && bytes_eq s (codes "disabled") && is_admin u

    new_user : User
    new_user = record u { status = s }

    safe : bytes_eq s u.status ≡ false → needed ≡ false → rules u ≡ true → rules new_user ≡ true
    safe other free strong = ground (
      arith,
      good,
      other,
      free,
      strong,
      bytes_eq_iff s (codes "active"),
      bytes_eq_iff u.status (codes "active"),
      bytes_eq_iff s u.status,
    )

    cases :
        bytes_eq s u.status ≡ false
        → Guarded st.users u new_user (guard_last_admin needed u new_user st)
        → Guarded st.users u new_user (patch_status (some s) u st)
    cases other (was_stopped x h t) = rw (other, h, patch_status) (was_stopped x refl t)
    cases other (was_edited h t safe') =
        rw (other, h, patch_status)
          (was_edited refl (end_sessions-users s u (guard_last_admin needed u new_user st).1 ∙ t)
            safe')

pub audit-users :
    (now : ℕ) (caller : Caller) (actor action target : Bytes) (st : Store)
    → (audit now caller actor action target st).users ≡ st.users
unfolding audit add_audit
audit-users now caller actor action target st = ground arith

-- A harmless edit of a stored user that is written leaves an administrator.
pub update_user-HasAdmin :
    (now : ℕ) (u w : User) (st : Store)
    → HasAdmin st
    → select_user u.id st.users ≡ some u
    → Harmless st.users u w
    → HasAdmin (update_user now w st).1
unfolding update_user
update_user-HasAdmin now u w st (unique, some_admin) here (same, safe) =
    elim (Bool-cases (st.faults st.queries)) [
      | inl fault ↦ rw (fault, update_user) (unique, some_admin)
      | inr fine ↦ elim (Bool-cases (user_constraints rows)) [
        | inr bad ↦ rw (fine, bad, update_user) (unique, some_admin)
        | inl good ↦ rw (fine, good, update_user) (good, enough safe)
      ]
    ]
  where
    rows : List User
    rows = change (has_user_id w.id) (merge_user now w) st.users

    here' : select_user w.id st.users ≡ some u
    here' = ap (λ x. select_user x st.users) same ∙ here

    enough :
        (1 ≤ count (is_other_admin u.id) st.users) ⊎ (rules u ≡ true → rules w ≡ true)
        → 1 ≤ count rules rows
    enough (inl others) = omega (
      arith,
      others-change-le w.id (merge_user now w) st.users,
      subst (λ x. 1 ≤ count (is_other_admin x) st.users) (sym same) others,
    )
    enough (inr keeps) = elim (Bool-cases (rules u)) [
      | inl strong ↦ found-change-rules now w.id w st.users u (keeps strong) here'
      | inr weak ↦ omega (
        arith,
        some_admin,
        Powerless-change-le w.id (merge_user now w) st.users
            (found-Powerless w.id st.users u unique here' weak),
      )
    ]
