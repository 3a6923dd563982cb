-- ===== src/Server/Mfa/Second.antt =====
-- Whom the second step of a sign-in signs in.
use shortr.Base.{
  ℕ, ◌≡◌, ◌<◌, refl, sym, ap, ◌∙◌, subst, inl, inr, true, false, List, [], ◌∷◌, ◌++◌, Option, some,
  is_some, Bool-cases, Option-cases, arith,
}
use shortr.Base.Bytes.{
  Bytes, codes, bytes_eq, bytes_eq_sound, has_prefix, trim_prefix, append-trim_prefix,
}
use shortr.Base.Map.{lookup}
use shortr.Store.{User, Store, select_user, Res, ok, err, get_user_by_id, is_active}
use shortr.Store.Types.{UserMfa}
use shortr.Store.Accounts.{take_out}
use shortr.RateLimit.{peek}
use shortr.Auth.SignedCookie.{open_value}
use shortr.Auth.Totp.{verify_totp, open_secret, hash_recovery_code}
use shortr.Server.Console.{Env, Caller, Fresh, Console, Reply}
use shortr.Server.Console.Sessions.{Yields, IsSessionOf, sign_in-Yields}
use shortr.Server.Mfa.{
  Factor, Verdict, passed, denied, MfaLoginReq, mfa_token_prefix, stamped, check_second_factor,
  login_mfa_user, handle_login_mfa,
}
use shortr.Server.Mfa.Judged.{Judged, refused, by_code, by_recovery, check_second_factor-Judged}

-- The second factor that a request carries, for the rows that are stored.
pub data HasFactor (env : Env) (now : ℕ) (user code recovery : Bytes)
    (rows : List (Bytes × UserMfa)) : Type 0 where
  code_of_step :
      (m : UserMfa) (secret : Bytes) (step : ℕ)
      → lookup user rows ≡ some m
      → is_some m.enabled_at ≡ true
      → open_secret env.crypto env.secret_key m.sealed_secret ≡ some secret
      → verify_totp env.crypto secret code now ≡ some step
      → m.last_step < step
      → HasFactor env now user code recovery rows
  stored_code :
      (m : UserMfa) (left : List Bytes)
      → lookup user rows ≡ some m
      → is_some m.enabled_at ≡ true
      → take_out (hash_recovery_code env.crypto recovery) m.recovery_codes ≡ some left
      → HasFactor env now user code recovery rows

Judged-HasFactor :
    (env : Env) (now : ℕ) (user code recovery : Bytes) (st : Store) (r : Verdict × Store)
    (f : Factor)
    → r.0 ≡ passed f
    → Judged env now user code recovery st r
    → HasFactor env now user code recovery st.user_mfa
Judged-HasFactor env now user code recovery st r f p (refused e h t) = absurd (ground (arith, p, h))
Judged-HasFactor env now user code recovery st r f p
      (by_code m secret step here on opened good later h t) =
    code_of_step m secret step here on opened good later
Judged-HasFactor env now user code recovery st r f p (by_recovery m left here on known h t) =
    stored_code m left here on known

select_user-id : (id : Bytes) (us : List User) (u : User) → select_user id us ≡ some u → u.id ≡ id
select_user-id id [] u h = absurd (ground (arith, h))
select_user-id id (v ∷ us) u h = elim (Bool-cases (bytes_eq v.id id)) [
  | inl same ↦
      let e : v ≡ u = ground (arith, same, h) in
      ap (λ w. w.id) (sym e) ∙ bytes_eq_sound v.id id same
  | inr other ↦ select_user-id id us u (ground (arith, other, h))
]

get_user_by_id-found :
    (id : Bytes) (st : Store) (u : User)
    → (get_user_by_id id st).0 ≡ ok u
    → select_user id st.users ≡ some u
unfolding get_user_by_id
get_user_by_id-found id st u h = elim (Bool-cases (st.faults st.queries)) [
  | inl fault ↦ absurd (ground (arith, fault, h))
  | inr fine ↦ elim (Option-cases (select_user id st.users)) [
    | inl out ↦ absurd (ground (arith, fine, out, h))
    | inr (u', here) ↦ ground (arith, fine, here, h)
  ]
]

get_user_by_id-rows : (id : Bytes) (st : Store) → (get_user_by_id id st).1.user_mfa ≡ st.user_mfa
unfolding get_user_by_id
get_user_by_id-rows id st = ground arith

-- What the second step takes to sign a user in.
pub record Confirmed (env : Env) (now : ℕ) (req : MfaLoginReq) (c : Console) (u : User)
    : Type 0 where
  pub token :
      open_value env.codec env.secret_key req.mfa_token now ≡ some (mfa_token_prefix ++ u.id)
  pub not_locked : peek now (codes "mfa-fail:" ++ u.id) c.rl_auth ≡ true
  pub found : select_user u.id c.store.users ≡ some u
  pub active : is_active u ≡ true
  pub factor : HasFactor env now u.id req.code req.recovery_code c.store.user_mfa

module _ (env : Env) (now : ℕ) (caller : Caller) (fresh : Fresh) (req : MfaLoginReq)
    (c : Console) where
  -- What the second step hands out: sessions of such users, and no token.
  abbrev pub SignsIn : Reply → Type 0
  SignsIn reply =
      Yields (λ raw s. (u : User) × Confirmed env now req c u × IsSessionOf env u.id raw s)
        (λ t. true ≡ false) reply

  login_mfa_user-SignsIn :
      (user : Bytes)
      → open_value env.codec env.secret_key req.mfa_token now ≡ some (mfa_token_prefix ++ user)
      → SignsIn (login_mfa_user env now caller fresh req user c).0
  unfolding login_mfa_user
  login_mfa_user-SignsIn user token =
      elim (Bool-cases (peek now (codes "mfa-fail:" ++ user) c.rl_auth)) [
        | inr locked ↦ rw (locked, login_mfa_user) tt
        | inl not_locked ↦ cases not_locked (get_user_by_id user c.store).0 refl
      ]
    where
      found_user : Res User × Store
      found_user = get_user_by_id user c.store

      verdict : User → Verdict × Store
      verdict u = check_second_factor env now u.id req.code req.recovery_code found_user.1

      confirmed :
          (u : User) (f : Factor)
          → peek now (codes "mfa-fail:" ++ user) c.rl_auth ≡ true
          → found_user.0 ≡ ok u
          → is_active u ≡ true
          → (verdict u).0 ≡ passed f
          → Confirmed env now req c u
      confirmed u f not_locked h active p =
          let here : select_user user c.store.users ≡ some u =
            get_user_by_id-found user c.store u h in
          let id : user ≡ u.id = sym (select_user-id user c.store.users u here) in
          record {
            token = token ∙ ap (λ x. some (mfa_token_prefix ++ x)) id;
            not_locked =
                ap (λ x. peek now (codes "mfa-fail:" ++ x) c.rl_auth) (sym id) ∙ not_locked;
            found = ap (λ x. select_user x c.store.users) (sym id) ∙ here;
            active = active;
            factor =
                subst (HasFactor env now u.id req.code req.recovery_code)
                  (get_user_by_id-rows user c.store)
                  (Judged-HasFactor env now u.id req.code req.recovery_code found_user.1 (verdict u)
                    f p
                    (check_second_factor-Judged env now u.id req.code req.recovery_code
                      found_user.1));
          }

      judge :
          (u : User)
          → peek now (codes "mfa-fail:" ++ user) c.rl_auth ≡ true
          → found_user.0 ≡ ok u
          → is_active u ≡ true
          → (v : Verdict) → (verdict u).0 ≡ v
          → SignsIn (login_mfa_user env now caller fresh req user c).0
      judge u not_locked h active (denied e) p = rw (not_locked, h, active, p, login_mfa_user) tt
      judge u not_locked h active (passed f) p =
          rw (not_locked, h, active, p, login_mfa_user)
            (sign_in-Yields env now caller fresh _ _ 200 (stamped now u) _
              (λ raw s mine. (u, confirmed u f not_locked h active p, mine)))

      cases :
          peek now (codes "mfa-fail:" ++ user) c.rl_auth ≡ true
          → (r : Res User) → found_user.0 ≡ r
          → SignsIn (login_mfa_user env now caller fresh req user c).0
      cases not_locked (err e) h = rw (not_locked, h, login_mfa_user) tt
      cases not_locked (ok u) h = elim (Bool-cases (is_active u)) [
        | inr off ↦ rw (not_locked, h, off, login_mfa_user) tt
        | inl active ↦ judge u not_locked h active (verdict u).0 refl
      ]

  -- The second step hands out a session only for a token that names a stored active user, who is not
  -- locked out, with a second factor: a code of a step after the last one stored for a confirmed
  -- enrollment, or a recovery code that is stored. The session is of that user.
  pub handle_login_mfa-SignsIn :
      (body : Option MfaLoginReq)
      → body ≡ some req
      → SignsIn (handle_login_mfa env now caller fresh body c).0
  unfolding handle_login_mfa
  handle_login_mfa-SignsIn body sent =
      elim (Option-cases (open_value env.codec env.secret_key req.mfa_token now)) [
        | inl expired ↦ rw (sent, expired, handle_login_mfa) tt
        | inr (payload, opened) ↦ elim (Bool-cases (has_prefix mfa_token_prefix payload)) [
          | inr other ↦ rw (sent, opened, other, handle_login_mfa) tt
          | inl ours ↦
              rw (sent, opened, ours, handle_login_mfa)
                (login_mfa_user-SignsIn (trim_prefix mfa_token_prefix payload)
                  (opened ∙ ap some (append-trim_prefix mfa_token_prefix payload ours)))
        ]
      ]
