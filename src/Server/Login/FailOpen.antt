-- ===== src/Server/Login/FailOpen.antt =====
-- The second factor when its query fails.
use shortr.Base.{
  ℕ, ◌+◌, ◌≡◌, refl, ap, ◌∙◌, Bool, true, false, List, [], ◌∷◌, ◌++◌, Option, none, some, is_some,
  arith,
}
use shortr.Base.Bytes.{Bytes, codes}
use shortr.Base.Map.{lookup}
use shortr.Base.Table.{change}
use shortr.Store.{User, Store, select_user, ok}
use shortr.Store.Types.{UserMfa, Session, enabled}
use shortr.Store.Users.{update_user, merge_user, has_user_id}
use shortr.Store.Accounts.{get_user_mfa, create_session, prepare_session, add_audit}
use shortr.Auth.SignedCookie.{seal_value}
use shortr.Server.Console.{
  Env, Caller, Fresh, Reply, signed_in, mfa_token, user_mfa, audit, start_session, sign_in,
  session_for, hash_token,
}
use shortr.Server.Mfa.{stamped, mfa_token_prefix}
use shortr.Server.Login.{finish_login}

user_mfa-fault :
    (user : Bytes) (st : Store)
    → st.faults st.queries ≡ true
    → user_mfa user st ≡ (none, record st { queries = st.queries + 1 })
unfolding user_mfa get_user_mfa
user_mfa-fault user st fault = simp (fault, user_mfa, get_user_mfa)

user_mfa-enrolled :
    (user : Bytes) (m : UserMfa) (st : Store)
    → st.faults st.queries ≡ false
    → lookup user st.user_mfa ≡ some m
    → (user_mfa user st).0 ≡ some m
unfolding user_mfa get_user_mfa
user_mfa-enrolled user m st fine here = ground (arith, fine, here)

-- The user is still there after an update.
select_user-change :
    (id other : Bytes) (now : ℕ) (u : User) (us : List User)
    → is_some (select_user id (change (has_user_id other) (merge_user now u) us))
      ≡ is_some (select_user id us)
unfolding change
select_user-change id other now u [] = refl
select_user-change id other now u (v ∷ us) = ground (arith, select_user-change id other now u us)

update_user-kept :
    (id : Bytes) (now : ℕ) (u : User) (st : Store)
    → (is_some (select_user id (update_user now u st).1.users) ≡ is_some (select_user id st.users))
      × ((update_user now u st).1.sessions ≡ st.sessions)
      × ((update_user now u st).1.queries ≡ st.queries + 1)
      × ((update_user now u st).1.faults ≡ st.faults)
unfolding update_user
update_user-kept id now u st = (
  ground (arith, select_user-change id u.id now u st.users),
  ground arith,
  ground arith,
  ground arith,
)

-- The raw token and the session that a reply hands out.
abbrev pub session_of : Reply → Option (Bytes × Session)
session_of (signed_in status raw s u on) = some (raw, s)
session_of _ = none

create_session-made :
    (now : ℕ) (s : Session) (st : Store)
    → st.faults st.queries ≡ false
    → is_some (select_user s.user_id st.users) ≡ true
    → lookup s.id st.sessions ≡ none
    → (create_session now s st).0 ≡ ok (prepare_session now s)
unfolding create_session
create_session-made now s st fine known new = rw (fine, known, new, create_session) refl

module _ (env : Env) (now : ℕ) (caller : Caller) (fresh : Fresh) where
  sign_in-session :
      (u : User) (raw : Bytes) (st : Store)
      → fresh.token ≡ some raw
      → st.faults st.queries ≡ false
      → is_some (select_user u.id st.users) ≡ true
      → lookup (hash_token env.crypto raw) st.sessions ≡ none
      → session_of (sign_in env now caller fresh 200 u st).0
        ≡ some
            (raw, prepare_session now (session_for env now caller fresh raw u (codes "password")))
  unfolding sign_in start_session
  sign_in-session u raw st drawn fine known new =
      let made =
        create_session-made now (session_for env now caller fresh raw u (codes "password")) st fine
          known new in
      rw (drawn, made, start_session, sign_in) refl

  audit-kept :
      (actor action target : Bytes) (st : Store)
      → ((audit now caller actor action target st).users ≡ st.users)
        × ((audit now caller actor action target st).sessions ≡ st.sessions)
        × ((audit now caller actor action target st).queries ≡ st.queries + 1)
        × ((audit now caller actor action target st).faults ≡ st.faults)
  unfolding audit add_audit
  audit-kept actor action target st = (ground arith, ground arith, ground arith, ground arith)

  -- Let the user's second factor be on, its row stored, and the new session's id unused. If the query
  -- for the enrollment fails and the insertion of the session does not, a user whose password was
  -- right is answered with the session of a new token; with the same rows and no failing statement the
  -- answer is instead the token of the second step.
  pub finish_login-fault :
      (u : User) (raw : Bytes) (m : UserMfa) (st : Store)
      → fresh.token ≡ some raw
      → lookup u.id st.user_mfa ≡ some m
      → enabled (some m) ≡ true
      → is_some (select_user u.id st.users) ≡ true
      → lookup (hash_token env.crypto raw) st.sessions ≡ none
      → st.faults st.queries ≡ true
      → st.faults (st.queries + 3) ≡ false
      → (session_of (finish_login env now caller fresh u st).0
          ≡ some (
            raw,
            prepare_session now
                (session_for env now caller fresh raw (stamped now u) (codes "password")),
          ))
        × ((finish_login env now caller fresh u (record st { faults = λ n. false })).0
            ≡ mfa_token
                (seal_value env.codec env.secret_key (mfa_token_prefix ++ u.id) 300000000000 now))
  unfolding finish_login enabled sign_in
  finish_login-fault u raw m st drawn enrolled on known new down up =
      let fixed : Store = record st { faults = λ n. false } in
      let st1 : Store = record st { queries = st.queries + 1 } in
      let st2 = (update_user now (stamped now u) st1).1 in
      let st3 = audit now caller u.id (codes "user.login") u.id st2 in
      let (users2, sessions2, queries2, faults2) = update_user-kept u.id now (stamped now u) st1 in
      let (users3, sessions3, queries3, faults3) = audit-kept u.id (codes "user.login") u.id st2 in
      let count : st3.queries ≡ st.queries + 3 = omega (arith, queries2, queries3) in
      let fine : st3.faults st3.queries ≡ false =
        ap (λ (f : ℕ → Bool). f st3.queries) (faults3 ∙ faults2) ∙ ap st.faults count ∙ up in
      let known3 : is_some (select_user u.id st3.users) ≡ true =
        ap (λ us. is_some (select_user u.id us)) users3 ∙ users2 ∙ known in
      let new3 : lookup (hash_token env.crypto raw) st3.sessions ≡ none =
        ap (λ ss. lookup (hash_token env.crypto raw) ss) (sessions3 ∙ sessions2) ∙ new in
      (
        rw (user_mfa-fault u.id st down, finish_login)
            (sign_in-session (stamped now u) raw st3 drawn fine known3 new3),
        rw (user_mfa-enrolled u.id m fixed refl enrolled, on, finish_login) refl,
      )
