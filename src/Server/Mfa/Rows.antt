-- ===== src/Server/Mfa/Rows.antt =====
-- The step and the recovery codes that are stored for a user, as the rows change.
use shortr.Base.{
  ℕ, ◌+◌, ◌≡◌, ◌<◌, refl, sym, ap, ◌∙◌, subst, inl, inr, true, List, [], ◌∷◌, none, some,
  Bool-cases, Option-cases, if◌then◌else◌, arith,
}
use shortr.Base.Bytes.{Bytes, bytes_eq, bytes_eq_sound}
use shortr.Base.Map.{lookup, insert, lookup-insert}
use shortr.Store.{Store}
use shortr.Store.Types.{UserMfa}
use shortr.Store.Accounts.{take_out}

pub record Attempt : Type 0 where
  pub user : Bytes
  pub code : Bytes
  pub recovery : Bytes
  pub at : ℕ

-- The step that is stored for a user.
unfoldable pub step_of : Bytes → Store → ℕ
step_of user st = elim (lookup user st.user_mfa) [ none ↦ 0 | some m ↦ m.last_step ]

-- The stored hashes of a user.
unfoldable pub codes_of : Bytes → Store → List Bytes
codes_of user st = elim (lookup user st.user_mfa) [ none ↦ [] | some m ↦ m.recovery_codes ]

unfoldable pub occurrences : Bytes → List Bytes → ℕ
occurrences h [] = 0
occurrences h (c ∷ cs) = (if bytes_eq c h then 1 else 0) + occurrences h cs

-- Each is greater than those before it, and than a bound.
abbrev pub Above : ℕ → List ℕ → Type 0
Above n [] = Unit
Above n (x ∷ xs) = (n < x) × Above x xs

lookup-rows :
    (u v : Bytes) (m : UserMfa) (st st' : Store)
    → st'.user_mfa ≡ insert u m st.user_mfa
    → lookup v st'.user_mfa ≡ (if bytes_eq u v then some m else lookup v st.user_mfa)
lookup-rows u v m st st' t = ap (lookup v) t ∙ lookup-insert u v m st.user_mfa

pub step_of-insert :
    (u v : Bytes) (m : UserMfa) (st st' : Store)
    → st'.user_mfa ≡ insert u m st.user_mfa
    → step_of v st' ≡ (if bytes_eq u v then m.last_step else step_of v st)
unfolding step_of
step_of-insert u v m st st' t = elim (Bool-cases (bytes_eq u v)) [
  | inl same ↦ rw (lookup-rows u v m st st' t, same, step_of) refl
  | inr other ↦ rw (lookup-rows u v m st st' t, other, step_of) refl
]

pub codes_of-insert :
    (u v : Bytes) (m : UserMfa) (st st' : Store)
    → st'.user_mfa ≡ insert u m st.user_mfa
    → codes_of v st' ≡ (if bytes_eq u v then m.recovery_codes else codes_of v st)
unfolding codes_of
codes_of-insert u v m st st' t = elim (Bool-cases (bytes_eq u v)) [
  | inl same ↦ rw (lookup-rows u v m st st' t, same, codes_of) refl
  | inr other ↦ rw (lookup-rows u v m st st' t, other, codes_of) refl
]

pub step_of-same :
    (v : Bytes) (st st' : Store) → st'.user_mfa ≡ st.user_mfa → step_of v st' ≡ step_of v st
unfolding step_of
step_of-same v st st' t =
    let e : lookup v st'.user_mfa ≡ lookup v st.user_mfa = ap (lookup v) t in rw (e, step_of) refl

pub codes_of-same :
    (v : Bytes) (st st' : Store) → st'.user_mfa ≡ st.user_mfa → codes_of v st' ≡ codes_of v st
unfolding codes_of
codes_of-same v st st' t =
    let e : lookup v st'.user_mfa ≡ lookup v st.user_mfa = ap (lookup v) t in rw (e, codes_of) refl

-- The step and the codes of the user whose row is found.
pub step_of-found :
    (u v : Bytes) (m : UserMfa) (st : Store)
    → lookup u st.user_mfa ≡ some m
    → bytes_eq u v ≡ true
    → step_of v st ≡ m.last_step
unfolding step_of
step_of-found u v m st here same =
    let e : lookup v st.user_mfa ≡ some m =
      subst (λ w. lookup w st.user_mfa ≡ some m) (bytes_eq_sound u v same) here in
    rw (e, step_of) refl

pub codes_of-found :
    (u v : Bytes) (m : UserMfa) (st : Store)
    → lookup u st.user_mfa ≡ some m
    → bytes_eq u v ≡ true
    → codes_of v st ≡ m.recovery_codes
unfolding codes_of
codes_of-found u v m st here same =
    let e : lookup v st.user_mfa ≡ some m =
      subst (λ w. lookup w st.user_mfa ≡ some m) (bytes_eq_sound u v same) here in
    rw (e, codes_of) refl

pub occurrences-take_out :
    (h g : Bytes) (cs left : List Bytes)
    → take_out h cs ≡ some left
    → occurrences g cs ≡ (if bytes_eq h g then 1 else 0) + occurrences g left
unfolding take_out occurrences
occurrences-take_out h g [] left e = cc
occurrences-take_out h g (c ∷ cs) left e = elim (Bool-cases (bytes_eq c h)) [
  | inl same ↦
      let l : cs ≡ left = ground (arith, same, e) in rw (sym l, bytes_eq_sound c h same) refl
  | inr other ↦ elim (Option-cases (take_out h cs)) [
    | inl out ↦ absurd (ground (arith, other, out, e))
    | inr (rest, known) ↦
        let l : c ∷ rest ≡ left = ground (arith, other, known, e) in
        rw (sym l) (ground (arith, occurrences-take_out h g cs rest known))
  ]
]
