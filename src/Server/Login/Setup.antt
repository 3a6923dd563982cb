-- ===== src/Server/Login/Setup.antt =====
-- The setup creates at most the first user.
use shortr.Base.{
  ℕ, ◌≡◌, refl, sym, ap, ◌∙◌, ◌⊎◌, inl, inr, true, false, List, [], ◌∷◌, length, Option, none, some,
  ltb, Bool-cases, Option-cases, arith,
}
use shortr.Base.Bytes.{Bytes, codes, bytes_eq}
use shortr.Base.Table.{first}
use shortr.Validate.{trim_space, str_len}
use shortr.Validate.Email.{email}
use shortr.Store.{User, Store, Res, ok, err, is_admin, is_active}
use shortr.Store.Users.{create_user, count_users, user_constraints, round_user, prepare_user}
use shortr.Store.Accounts.{create_session, get_user_mfa, set_setting, add_audit}
use shortr.Server.Console.{
  Env, Caller, Fresh, Started, started, not_started, audit, user_mfa, start_session, sign_in,
}
use shortr.Server.Login.{
  SetupReq, new_account, create_account, finish_setup, setup_admin, handle_setup,
}

audit-users :
    (now : ℕ) (caller : Caller) (actor action target : Bytes) (st : Store)
    → (audit now caller actor action target st).users ≡ st.users
unfolding audit add_audit
audit-users now caller actor action target st = ground arith

get_user_mfa-users : (user : Bytes) (st : Store) → (get_user_mfa user st).1.users ≡ st.users
unfolding get_user_mfa
get_user_mfa-users user st = ground arith

user_mfa-users : (user : Bytes) (st : Store) → (user_mfa user st).1.users ≡ st.users
unfolding user_mfa
user_mfa-users user st = ground (arith, get_user_mfa-users user st)

set_setting-users : (key v : Bytes) (st : Store) → (set_setting key v st).1.users ≡ st.users
unfolding set_setting
set_setting-users key v st = ground arith

module _ (env : Env) (now : ℕ) (caller : Caller) (fresh : Fresh) where
  start_session-users :
      (u : User) (method : Bytes) (st : Store)
      → (start_session env now caller fresh u method st).1.users ≡ st.users
  unfolding start_session create_session
  start_session-users u method st = ground arith

  sign_in-users :
      (status : ℕ) (u : User) (st : Store)
      → (sign_in env now caller fresh status u st).1.users ≡ st.users
  unfolding sign_in
  sign_in-users status u st =
      cases (start_session env now caller fresh u (codes "password") st).0 refl
    where
      cases :
          (r : Started)
          → (start_session env now caller fresh u (codes "password") st).0 ≡ r
          → (sign_in env now caller fresh status u st).1.users ≡ st.users
      cases (not_started e) q = rw (q, sign_in) (start_session-users u (codes "password") st)
      cases (started raw s) q =
          rw (q, sign_in) (user_mfa-users u.id _ ∙ start_session-users u (codes "password") st)

  finish_setup-users :
      (req : SetupReq) (u : User) (st : Store)
      → (finish_setup env now caller fresh req u st).1.users ≡ st.users
  unfolding finish_setup
  finish_setup-users req u st = elim (Bool-cases (bytes_eq (trim_space req.site_name) [])) [
    | inl blank ↦
        rw (blank, finish_setup) (sign_in-users 201 u _ ∙ audit-users now caller u.id _ u.id _)
    | inr named ↦
        rw (named, finish_setup)
          (sign_in-users 201 u _ ∙ audit-users now caller u.id _ u.id _ ∙ set_setting-users _ _ st)
  ]

  -- The users after a setup: as they were, or an active administrator where there was none at all.
  abbrev pub SetUp : Store → Store → Type 0
  SetUp st st' =
      (st'.users ≡ st.users)
      ⊎ ((st.users ≡ [])
          × ((u : User) × (st'.users ≡ u ∷ []) × (is_admin u ≡ true) × (is_active u ≡ true)))

  SetUp-users : (a b c : Store) → SetUp a b → c.users ≡ b.users → SetUp a c
  SetUp-users a b c (inl same) e = inl (e ∙ same)
  SetUp-users a b c (inr (empty, (u, rows, chief, active))) e =
      inr (empty, (u, e ∙ rows, chief, active))

  SetUp-same : (a b c : Store) → b.users ≡ a.users → SetUp b c → SetUp a c
  SetUp-same a b c e (inl same) = inl (same ∙ e)
  SetUp-same a b c e (inr (empty, made)) = inr (sym e ∙ empty, made)

  create_account-SetUp :
      (address hash name : Bytes) (st : Store)
      → st.users ≡ []
      → SetUp st (create_account env now caller fresh address hash name (codes "admin") true st).1
  unfolding create_account create_user user_constraints first bytes_eq
  create_account-SetUp address hash name st empty = elim (Bool-cases (st.faults st.queries)) [
    | inl fault ↦ inl (ground (arith, fault))
    | inr fine ↦ inr (empty, (_, rows fine, refl, refl))
  ]
    where
      account : User
      account =
          round_user
            (prepare_user now fresh.ulid (new_account now address name hash (codes "admin") true))

      rows :
          st.faults st.queries ≡ false
          → (create_account env now caller fresh address hash name (codes "admin") true st).1.users
            ≡ account ∷ []
      rows fine = simp (fine, empty, create_account, create_user, user_constraints, first)

  setup_admin-SetUp :
      (req : SetupReq) (st : Store)
      → st.users ≡ []
      → SetUp st (setup_admin env now caller fresh req st).1
  unfolding setup_admin
  setup_admin-SetUp req st empty = elim (Option-cases (email env.parse_address req.email)) [
    | inl bad ↦ rw (bad, setup_admin) (inl refl)
    | inr (address, good) ↦ elim (Bool-cases (str_len req.password 10 128)) [
      | inr short ↦ rw (good, short, setup_admin) (inl refl)
      | inl fits ↦ elim (Option-cases (env.hash_password req.password)) [
        | inl failed ↦ rw (good, fits, failed, setup_admin) (inl refl)
        | inr (hash, hashed) ↦ cases address good fits hash hashed (made address hash).0 refl
      ]
    ]
  ]
    where
      made : Bytes → Bytes → Res User × Store
      made address hash =
          create_account env now caller fresh address hash req.name (codes "admin") true st

      cases :
          (address : Bytes)
          → email env.parse_address req.email ≡ some address
          → str_len req.password 10 128 ≡ true
          → (hash : Bytes) → env.hash_password req.password ≡ some hash
          → (r : Res User) → (made address hash).0 ≡ r
          → SetUp st (setup_admin env now caller fresh req st).1
      cases address good fits hash hashed (err e) q =
          rw (good, fits, hashed, q, setup_admin)
            (create_account-SetUp address hash req.name st empty)
      cases address good fits hash hashed (ok u) q =
          rw (good, fits, hashed, q, setup_admin)
            (SetUp-users st (made address hash).1
              (finish_setup env now caller fresh req u (made address hash).1).1
              (create_account-SetUp address hash req.name st empty)
              (finish_setup-users req u (made address hash).1))

  count_users-ok : (st : Store) (n : ℕ) → (count_users st).0 ≡ ok n → n ≡ length st.users
  unfolding count_users
  count_users-ok st n h = elim (Bool-cases (st.faults st.queries)) [
    | inl fault ↦ absurd (ground (arith, fault, h))
    | inr fine ↦ ground (arith, fine, h)
  ]

  count_users-rows : (st : Store) → (count_users st).1.users ≡ st.users
  unfolding count_users
  count_users-rows st = ground arith

  no_users : (us : List User) → ltb 0 (length us) ≡ false → us ≡ []
  no_users [] h = refl
  no_users (u ∷ us) h = absurd (ground (arith, h))

  -- A setup either leaves the users as they were, or there were none, and an active administrator is
  -- then the only one, whatever is sent and whatever statements fail.
  pub handle_setup-SetUp :
      (body : Option SetupReq) (st : Store) → SetUp st (handle_setup env now caller fresh body st).1
  unfolding handle_setup
  handle_setup-SetUp none st = inl refl
  handle_setup-SetUp (some req) st = cases (count_users st).0 refl
    where
      cases :
          (r : Res ℕ)
          → (count_users st).0 ≡ r
          → SetUp st (handle_setup env now caller fresh (some req) st).1
      cases (err e) q = rw (q, handle_setup) (inl (count_users-rows st))
      cases (ok n) q = elim (Bool-cases (ltb 0 n)) [
        | inl some_users ↦ rw (q, some_users, handle_setup) (inl (count_users-rows st))
        | inr free ↦
            let empty : st.users ≡ [] =
              no_users st.users (ap (ltb 0) (sym (count_users-ok st n q)) ∙ free) in
            rw (q, free, handle_setup)
              (SetUp-same st (count_users st).1
                (setup_admin env now caller fresh req (count_users st).1).1 (count_users-rows st)
                (setup_admin-SetUp req (count_users st).1 (count_users-rows st ∙ empty)))
      ]
