-- ===== src/Server/Console/Sessions.antt =====
-- The sessions that `startSession` hands out.
use shortr.Base.{
  ℕ, ◌≡◌, refl, sym, ap, ◌∙◌, inl, inr, not, some, is_some, ◌||◌, Bool-cases, Option-cases, arith,
}
use shortr.Base.Bytes.{Bytes, codes}
use shortr.Base.Map.{lookup}
use shortr.Store.{User, Store, select_user, Res, ok, err}
use shortr.Store.Types.{Session}
use shortr.Store.Accounts.{create_session, prepare_session}
use shortr.Server.Console.{
  Env, Caller, Fresh, Reply, refused, signed_in, mfa_token, start_session, sign_in, session_for,
  hash_token, Started, started, not_started,
}

-- A predicate of the sessions and of the tokens that a reply hands out.
abbrev pub Yields {ℓ} : (Bytes → Session → Type ℓ) → (Bytes → Type ℓ) → Reply → Type ℓ
Yields S T (signed_in status raw s u on) = S raw s
Yields S T (mfa_token t) = T t
Yields S T _ = Unit

pub Yields-mono {ℓ κ} :
    (S : Bytes → Session → Type ℓ) (T : Bytes → Type ℓ) (S' : Bytes → Session → Type κ)
    (T' : Bytes → Type κ) (r : Reply)
    → ((raw : Bytes) (s : Session) → S raw s → S' raw s)
    → ((t : Bytes) → T t → T' t)
    → Yields S T r
    → Yields S' T' r
Yields-mono S T S' T' (signed_in status raw s u on) f g h = f raw s h
Yields-mono S T S' T' (mfa_token t) f g h = g t h
Yields-mono S T S' T' (refused e) f g h = tt
Yields-mono S T S' T' Reply.no_content f g h = tt
Yields-mono S T S' T' (Reply.mfa_setup x) f g h = tt
Yields-mono S T S' T' (Reply.recovery_codes x) f g h = tt
Yields-mono S T S' T' (Reply.saved n u p) f g h = tt
Yields-mono S T S' T' (Reply.new_password p) f g h = tt
Yields-mono S T S' T' (Reply.new_key k p) f g h = tt

-- A session of a user, known by the hash of its raw token.
abbrev pub IsSessionOf : Env → Bytes → Bytes → Session → Type 0
IsSessionOf env user raw s = (s.user_id ≡ user) × (s.id ≡ hash_token env.crypto raw)

create_session-ok :
    (now : ℕ) (s s' : Session) (st : Store)
    → (create_session now s st).0 ≡ ok s'
    → s' ≡ prepare_session now s
unfolding create_session
create_session-ok now s s' st h = elim (Bool-cases (st.faults st.queries)) [
  | inl fault ↦ absurd (ground (arith, fault, h))
  | inr fine ↦
      elim (Bool-cases
        (is_some (lookup s.id st.sessions) || not (is_some (select_user s.user_id st.users)))) [
          | inl bad ↦ absurd (ground (arith, fine, bad, h))
          | inr good ↦ ground (arith, fine, good, h)
        ]
]

module _ (env : Env) (now : ℕ) (caller : Caller) (fresh : Fresh) where
  start_session-IsSessionOf :
      (u : User) (method raw : Bytes) (s : Session) (st : Store)
      → (start_session env now caller fresh u method st).0 ≡ started raw s
      → IsSessionOf env u.id raw s
  unfolding start_session
  start_session-IsSessionOf u method raw s st h = elim (Option-cases fresh.token) [
    | inl none_left ↦ absurd (ground (arith, none_left, h))
    | inr (raw', drawn) ↦
        cases raw' drawn (create_session now (session_for env now caller fresh raw' u method) st).0
          refl
  ]
    where
      cases :
          (raw' : Bytes)
          → fresh.token ≡ some raw'
          → (r : Res Session)
          → (create_session now (session_for env now caller fresh raw' u method) st).0 ≡ r
          → IsSessionOf env u.id raw s
      cases raw' drawn (err e) eq = absurd (ground (arith, drawn, eq, h))
      cases raw' drawn (ok s') eq =
          let made : s' ≡ prepare_session now (session_for env now caller fresh raw' u method) =
            create_session-ok now (session_for env now caller fresh raw' u method) s' st eq in
          let same : s' ≡ s = ground (arith, drawn, eq, h) in
          let token : raw' ≡ raw = ground (arith, drawn, eq, h) in
          let s-made : s ≡ prepare_session now (session_for env now caller fresh raw' u method) =
            sym same ∙ made in
          (ap (λ x. x.user_id) s-made, ap (λ x. x.id) s-made ∙ ap (hash_token env.crypto) token)

  pub sign_in-Yields {ℓ} :
      (S : Bytes → Session → Type ℓ) (T : Bytes → Type ℓ) (status : ℕ) (u : User) (st : Store)
      → ((raw : Bytes) (s : Session) → IsSessionOf env u.id raw s → S raw s)
      → Yields S T (sign_in env now caller fresh status u st).0
  unfolding sign_in
  sign_in-Yields S T status u st f =
      cases (start_session env now caller fresh u (codes "password") st).0 refl
    where
      cases :
          (r : Started)
          → (start_session env now caller fresh u (codes "password") st).0 ≡ r
          → Yields S T (sign_in env now caller fresh status u st).0
      cases (not_started e) h = rw (h, sign_in) tt
      cases (started raw s) h =
          rw (h, sign_in) (f raw s (start_session-IsSessionOf u (codes "password") raw s st h))
