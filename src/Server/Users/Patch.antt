-- ===== src/Server/Users/Patch.antt =====
-- An edit of a user does not take away the last active administrator.
use shortr.Base.{
  ℕ, ◌≡◌, refl, sym, ap, ◌∙◌, subst, inl, inr, Bool, false, not, List, [], ◌∷◌, Option, none, some,
  length, ltb, Bool-cases, Option-cases, arith,
}
use shortr.Base.Bytes.{Bytes, codes, bytes_eq, bytes_eq_sound}
use shortr.Store.{User, Store, Res, ok, err, get_user_by_id, select_user}
use shortr.Store.Reads.{get_user_by_id-found, get_user_by_id-queried}
use shortr.Store.Users.{update_user}
use shortr.Server.Console.{Caller, audit}
use shortr.Server.Users.{
  PatchUserReq, Edited, edited, patch_role, patch_status, patch_name, patch_limit, patch_errors,
  is_status, save_user, apply_patch, handle_admin_patch_user,
}
use shortr.Server.Users.Edits.{
  HasAdmin, HasAdmin-same, Harmless, Harmless-trans, Guarded, was_stopped, was_edited,
  patch_role-Guarded, patch_status-Guarded, audit-users, update_user-HasAdmin,
}

pub get_user_by_id-HasAdmin :
    (id : Bytes) (st : Store) → HasAdmin st → HasAdmin (get_user_by_id id st).1
get_user_by_id-HasAdmin id st h =
    HasAdmin-same st (get_user_by_id id st).1 (ap (λ s. s.users) (get_user_by_id-queried id st)) h

pub select_user-id :
    (id : Bytes) (us : List User) (u : User) → select_user id us ≡ some u → u.id ≡ id
select_user-id id [] u h = absurd (ground (arith, h))
select_user-id id (v ∷ us) u h = elim (Bool-cases (bytes_eq v.id id)) [
  | inl same ↦
      let e : v ≡ u = ground (arith, same, h) in
      ap (λ w. w.id) (sym e) ∙ bytes_eq_sound v.id id same
  | inr other ↦ select_user-id id us u (ground (arith, other, h))
]

save_user-HasAdmin :
    (now : ℕ) (caller : Caller) (actor u w : User) (st : Store)
    → HasAdmin st
    → select_user u.id st.users ≡ some u
    → Harmless st.users u w
    → HasAdmin (save_user now caller actor w st).1
unfolding save_user
save_user-HasAdmin now caller actor u w st h here safe = cases (update_user now w st).0 refl
  where
    kept : HasAdmin (update_user now w st).1
    kept = update_user-HasAdmin now u w st h here safe

    cases :
        (r : Res (Unit {0}))
        → (update_user now w st).0 ≡ r
        → HasAdmin (save_user now caller actor w st).1
    cases (err e) q = rw (q, save_user) kept
    cases (ok done) q =
        rw (q, save_user)
          (HasAdmin-same (update_user now w st).1
            (audit now caller actor.id (codes "user.admin_update") w.id (update_user now w st).1)
            (audit-users now caller actor.id (codes "user.admin_update") w.id
              (update_user now w st).1)
            kept)

patch_name-Harmless :
    (name : Option Bytes) (us : List User) (u : User) → Harmless us u (patch_name name u)
patch_name-Harmless none us u = (refl, inr (λ h. h))
patch_name-Harmless (some n) us u = (refl, inr (λ h. h))

patch_limit-Harmless :
    (limit : Option (Option ℕ)) (us : List User) (u : User) → Harmless us u (patch_limit limit u)
patch_limit-Harmless none us u = (refl, inr (λ h. h))
patch_limit-Harmless (some n) us u = (refl, inr (λ h. h))

module _ (now : ℕ) (caller : Caller) (actor : User) (req : PatchUserReq) (u : User) (st : Store)
    (h : HasAdmin st) (here : select_user u.id st.users ≡ some u) where
  -- The user and the store after the change of the role.
  abbrev after_role : Edited × Store
  after_role = patch_role req.role (patch_name req.name u) st

  abbrev after_status : User → Edited × Store
  after_status w = patch_status req.status w after_role.1

  apply_patch-status :
      (w1 w2 : User)
      → after_role.0 ≡ edited w1
      → after_role.1.users ≡ st.users
      → Harmless st.users u w1
      → Guarded after_role.1.users w1 w2 (after_status w1)
      → HasAdmin (apply_patch now caller actor req u st).1
  unfolding apply_patch
  apply_patch-status w1 w2 e t safe (was_stopped x e' t') =
      rw (e, e', apply_patch) (HasAdmin-same st (after_status w1).1 (t' ∙ t) h)
  apply_patch-status w1 w2 e t safe (was_edited e' t' safe') =
      rw (e, e', apply_patch)
        (save_user-HasAdmin now caller actor u (patch_limit req.max_links w2) (after_status w1).1
          (HasAdmin-same st (after_status w1).1 (t' ∙ t) h) (ap (select_user u.id) (t' ∙ t) ∙ here)
          (subst (λ us. Harmless us u (patch_limit req.max_links w2)) (sym (t' ∙ t))
            (Harmless-trans st.users u w2 (patch_limit req.max_links w2)
              (Harmless-trans st.users u w1 w2 safe (subst (λ us. Harmless us w1 w2) t safe'))
              (patch_limit-Harmless req.max_links st.users w2))))

  apply_patch-HasAdmin :
      (elim req.status as (λ x. Bool) [ none ↦ false | some s ↦ not (is_status s) ]) ≡ false
      → HasAdmin (apply_patch now caller actor req u st).1
  unfolding apply_patch
  apply_patch-HasAdmin good =
      let (w1, g) = patch_role-Guarded req.role (patch_name req.name u) st in cases w1 g
    where
      cases :
          (w1 : User)
          → Guarded st.users (patch_name req.name u) w1 after_role
          → HasAdmin (apply_patch now caller actor req u st).1
      cases w1 (was_stopped x e t) = rw (e, apply_patch) (HasAdmin-same st after_role.1 t h)
      cases w1 (was_edited e t safe) =
          let (w2, g) = patch_status-Guarded req.status w1 after_role.1 good in
          apply_patch-status w1 w2 e t
            (Harmless-trans st.users u (patch_name req.name u) w1
              (patch_name-Harmless req.name st.users u) safe)
            g

patch_errors-status :
    (req : PatchUserReq)
    → ltb 0 (length (patch_errors req)) ≡ false
    → (elim req.status as (λ x. Bool) [ none ↦ false | some s ↦ not (is_status s) ]) ≡ false
unfolding patch_errors
patch_errors-status req h = elim (Option-cases req.status) [
  | inl absent ↦ rw absent refl
  | inr (s, given) ↦ elim (Bool-cases (is_status s)) [
    | inl good ↦ rw given (ground (arith, good))
    | inr bad ↦ absurd (ground (arith, given, bad, h))
  ]
]

pub handle_admin_patch_user-HasAdmin :
    (now : ℕ) (caller : Caller) (actor : User) (id : Bytes) (body : Option PatchUserReq)
    (st : Store)
    → HasAdmin st
    → HasAdmin (handle_admin_patch_user now caller actor id body st).1
unfolding handle_admin_patch_user
handle_admin_patch_user-HasAdmin now caller actor id body st h =
    cases (get_user_by_id id st).0 refl body refl
  where
    kept : HasAdmin (get_user_by_id id st).1
    kept = get_user_by_id-HasAdmin id st h

    cases :
        (r : Res User)
        → (get_user_by_id id st).0 ≡ r
        → (b : Option PatchUserReq) → body ≡ b
        → HasAdmin (handle_admin_patch_user now caller actor id body st).1
    cases (err e) q b sent = rw (q, handle_admin_patch_user) kept
    cases (ok u) q none sent = rw (q, sent, handle_admin_patch_user) kept
    cases (ok u) q (some req) sent = elim (Bool-cases (ltb 0 (length (patch_errors req)))) [
      | inl bad ↦ rw (q, sent, bad, handle_admin_patch_user) kept
      | inr good ↦
          let found : select_user id st.users ≡ some u = get_user_by_id-found id st u q in
          rw (q, sent, good, handle_admin_patch_user)
            (apply_patch-HasAdmin now caller actor req u (get_user_by_id id st).1 kept
              (ap (λ s. select_user u.id s.users) (get_user_by_id-queried id st)
                ∙ ap (λ x. select_user x st.users) (select_user-id id st.users u found)
                ∙ found)
              (patch_errors-status req good))
    ]
