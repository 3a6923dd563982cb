-- ===== src/Server/Login/Credentials.antt =====
-- Whom `handleLogin` signs in.
use shortr.Base.{
  ℕ, ◌≡◌, refl, sym, ap, ◌∙◌, subst, ◌⊎◌, inl, inr, Bool, true, false, ◌++◌, Option, some,
  Bool-cases, Option-cases, arith,
}
use shortr.Base.Bytes.{Bytes}
use shortr.Base.Table.{first}
use shortr.Base.Map.{lookup}
use shortr.Validate.Email.{email}
use shortr.Store.{User, Store, Res, ok, err, is_active}
use shortr.Store.Types.{enabled}
use shortr.Store.Users.{get_user_by_email, update_user, has_email}
use shortr.Store.Accounts.{get_user_mfa}
use shortr.RateLimit.{peek}
use shortr.Auth.SignedCookie.{seal_value}
use shortr.Server.Console.{Env, Caller, Fresh, Console, Reply, user_mfa}
use shortr.Server.Mfa.{mfa_token_prefix, stamped}
use shortr.Server.Login.{
  LoginReq, lock_key, bad_login, rehash, finish_login, check_login, handle_login,
}
use shortr.Server.Console.Sessions.{Yields, Yields-mono, IsSessionOf, sign_in-Yields}

-- The user has no confirmed second factor, or a statement fails.
abbrev pub NoFactor : Bytes → Store → Type 0
NoFactor user st = (enabled (lookup user st.user_mfa) ≡ false) ⊎ ((n : ℕ) × (st.faults n ≡ true))

-- The password of an active user is the one that was sent, and the client is not locked out.
pub record Credentials (env : Env) (now : ℕ) (caller : Caller) (req : LoginReq) (c : Console)
    (u : User) : Type 0 where
  pub address : Bytes
  pub hash : Bytes
  pub needs_rehash : Bool
  pub not_locked : peek now (lock_key caller req) c.rl_auth ≡ true
  pub normal : email env.parse_address req.email ≡ some address
  pub found : first (has_email address) c.store.users ≡ some u
  pub stored : u.password_hash ≡ some hash
  pub verified : env.verify_password req.password hash ≡ some (true, needs_rehash)
  pub active : is_active u ≡ true

get_user_by_email-found :
    (address : Bytes) (st : Store) (u : User)
    → (get_user_by_email address st).0 ≡ ok u
    → first (has_email address) st.users ≡ some u
unfolding get_user_by_email
get_user_by_email-found address st u h = elim (Bool-cases (st.faults st.queries)) [
  | inl fault ↦ absurd (ground (arith, fault, h))
  | inr fine ↦ elim (Option-cases (first (has_email address) st.users)) [
    | inl out ↦ absurd (ground (arith, fine, out, h))
    | inr (u', here) ↦ ground (arith, fine, here, h)
  ]
]

-- The rows of the second factor and the faults of the next statements stay.
abbrev Keeps : Store → Store → Type 0
Keeps st st' = (st'.user_mfa ≡ st.user_mfa) × (st'.faults ≡ st.faults)

get_user_by_email-Keeps : (address : Bytes) (st : Store) → Keeps st (get_user_by_email address st).1
unfolding get_user_by_email
get_user_by_email-Keeps address st = (ground arith, ground arith)

update_user-Keeps : (now : ℕ) (u : User) (st : Store) → Keeps st (update_user now u st).1
unfolding update_user
update_user-Keeps now u st = (ground arith, ground arith)

NoFactor-same :
    (user : Bytes) (st st' : Store) → Keeps st st' → NoFactor user st' → NoFactor user st
NoFactor-same user st st' (rows, faults) (inl off) =
    inl (ap (λ r. enabled (lookup user r)) (sym rows) ∙ off)
NoFactor-same user st st' (rows, faults) (inr (n, h)) = inr (n, ap (λ f. f n) (sym faults) ∙ h)

user_mfa-NoFactor :
    (user : Bytes) (st : Store) → enabled (user_mfa user st).0 ≡ false → NoFactor user st
unfolding user_mfa get_user_mfa enabled
user_mfa-NoFactor user st h = elim (Bool-cases (st.faults st.queries)) [
  | inl fault ↦ inr (st.queries, fault)
  | inr fine ↦ elim (Option-cases (lookup user st.user_mfa)) [
    | inl out ↦ inl (ground (arith, out))
    | inr (m, here) ↦ inl (ground (arith, fine, here, h))
  ]
]

module _ (env : Env) (now : ℕ) (caller : Caller) (fresh : Fresh) where
  -- What the second half of a sign-in hands out for a user.
  abbrev pub Finished : Bytes → Store → Reply → Type 0
  Finished user st reply =
      Yields (λ raw s. IsSessionOf env user raw s × NoFactor user st)
        (λ t. t ≡ seal_value env.codec env.secret_key (mfa_token_prefix ++ user) 300000000000 now)
        reply

  finish_login-Finished :
      (u : User) (st : Store) → Finished u.id st (finish_login env now caller fresh u st).0
  unfolding finish_login
  finish_login-Finished u st = elim (Bool-cases (enabled (user_mfa u.id st).0)) [
    | inl on ↦ rw (on, finish_login) refl
    | inr off ↦
        rw (off, finish_login)
          (sign_in-Yields env now caller fresh _ _ 200 (stamped now u) _
            (λ raw s mine. (mine, user_mfa-NoFactor u.id st off)))
  ]

  rehash-Keeps :
      (needed : Bool) (password : Bytes) (u : User) (st : Store)
      → ((rehash env now caller fresh needed password u st).0.id ≡ u.id)
        × Keeps st (rehash env now caller fresh needed password u st).1
  unfolding rehash
  rehash-Keeps false password u st = (refl, (refl, refl))
  rehash-Keeps true password u st = elim (Option-cases (env.hash_password password)) [
    | inl bad ↦ rw (bad, rehash) (refl, (refl, refl))
    | inr (h, good) ↦
        rw (good, rehash)
          (refl, update_user-Keeps now (record u { password_hash = some h; updated_at = now }) st)
  ]

  module _ (req : LoginReq) (c : Console) where
    -- What a sign-in hands out, and to whom.
    abbrev pub Allowed : Reply → Type 0
    Allowed reply =
        Yields
          (λ raw s.
            (u : User) × Credentials env now caller req c u
            × IsSessionOf env u.id raw s
            × NoFactor u.id c.store)
          (λ t.
            (u : User) × Credentials env now caller req c u
            × (t ≡ seal_value env.codec env.secret_key (mfa_token_prefix ++ u.id) 300000000000 now))
          reply

    -- A user whose password is right.
    check_login-Allowed :
        (u : User) (hash : Bytes) (c' : Console)
        → Keeps c.store c'.store
        → ((needs : Bool)
            → env.verify_password req.password hash ≡ some (true, needs)
            → is_active u ≡ true
            → Credentials env now caller req c u)
        → Allowed (check_login env now caller fresh req u hash c').0
    unfolding check_login bad_login
    check_login-Allowed u hash c' keep mine =
        elim (Option-cases (env.verify_password req.password hash)) [
          | inl broken ↦ rw (broken, check_login, bad_login) tt
          | inr ((good, needs), checked) ↦ elim (Bool-cases good) [
            | inr wrong ↦ rw (checked, wrong, check_login, bad_login) tt
            | inl right ↦ elim (Bool-cases (is_active u)) [
              | inr off ↦ rw (checked, right, off, check_login) tt
              | inl active ↦
                  rw (checked, right, active, check_login)
                    (done needs (checked ∙ ap (λ b. some (b, needs)) right) active)
            ]
          ]
        ]
      where
        next : Bool → User × Store
        next needs = rehash env now caller fresh needs req.password u c'.store

        done :
            (needs : Bool)
            → env.verify_password req.password hash ≡ some (true, needs)
            → is_active u ≡ true
            → Allowed (finish_login env now caller fresh (next needs).0 (next needs).1).0
        done needs checked active =
            let (same, kept) = rehash-Keeps needs req.password u c'.store in
            let keeps : Keeps c.store (next needs).1 = (kept.0 ∙ keep.0, kept.1 ∙ keep.1) in
            Yields-mono _ _ _ _ (finish_login env now caller fresh (next needs).0 (next needs).1).0
              (λ raw s (mine', free). (
                u,
                mine needs checked active,
                (mine'.0 ∙ same, mine'.1),
                NoFactor-same u.id c.store (next needs).1 keeps
                    (subst (λ id. NoFactor id (next needs).1) same free),
              ))
              (λ t sealed. (
                u,
                mine needs checked active,
                sealed
                    ∙ ap
                        (λ id.
                          seal_value env.codec env.secret_key (mfa_token_prefix ++ id) 300000000000
                            now)
                        same,
              ))
              (finish_login-Finished (next needs).0 (next needs).1)

    -- A session is handed out only if the client is not locked out, and the address and the password
    -- that were sent are those of a stored active user; the session is of that user and known by the
    -- hash of its token; and the user has no confirmed second factor, or a statement fails. A token for
    -- the second step is handed out only to such a user, and names it.
    pub handle_login-Allowed :
        (body : Option LoginReq)
        → body ≡ some req
        → Allowed (handle_login env now caller fresh body c).0
    unfolding handle_login bad_login
    handle_login-Allowed body sent = elim (Bool-cases (peek now (lock_key caller req) c.rl_auth)) [
      | inr locked ↦ rw (sent, locked, handle_login) tt
      | inl open_ ↦ elim (Option-cases (email env.parse_address req.email)) [
        | inl bad ↦ rw (sent, open_, bad, handle_login, bad_login) tt
        | inr (address, normal) ↦
            cases open_ address normal (get_user_by_email address c.store).0 refl
      ]
    ]
      where
        cases :
            peek now (lock_key caller req) c.rl_auth ≡ true
            → (address : Bytes) → email env.parse_address req.email ≡ some address
            → (r : Res User) → (get_user_by_email address c.store).0 ≡ r
            → Allowed (handle_login env now caller fresh body c).0
        cases open_ address normal (err e) h =
            rw (sent, open_, normal, h, handle_login, bad_login) tt
        cases open_ address normal (ok u) h = elim (Option-cases u.password_hash) [
          | inl unset ↦ rw (sent, open_, normal, h, unset, handle_login, bad_login) tt
          | inr (hash, stored) ↦
              rw (sent, open_, normal, h, stored, handle_login)
                (check_login-Allowed u hash
                  (record c { store = (get_user_by_email address c.store).1 })
                  (get_user_by_email-Keeps address c.store)
                  (λ needs verified active. record {
                    address = address;
                    hash = hash;
                    needs_rehash = needs;
                    not_locked = open_;
                    normal = normal;
                    found = get_user_by_email-found address c.store u h;
                    stored = stored;
                    verified = verified;
                    active = active;
                  }))
        ]
