-- ===== src/Server/Users/Admins.antt =====
-- The active administrators among the rows of users, as rows change.
use shortr.Base.{
  ℕ, ◌≡◌, ◌≤◌, refl, sym, ap, ◌∙◌, inl, inr, Bool, true, false, ◌&&◌, List, [], ◌∷◌, none, some,
  is_some, All, Bool-cases, Option-cases, arith,
}
use shortr.Base.Bytes.{Bytes, bytes_eq_sound}
use shortr.Base.Table.{first, change, filter, remove_rows}
use shortr.Store.{User, is_admin, is_active, count, select_user}
use shortr.Store.Users.{has_user_id, has_email, is_other_admin, merge_user, user_constraints}

abbrev pub rules : User → Bool
rules u = is_admin u && is_active u

pub others-change-le :
    (id : Bytes) (f : User → User) (us : List User)
    → count (is_other_admin id) us ≤ count rules (change (has_user_id id) f us)
unfolding change
others-change-le id f [] = omega arith
others-change-le id f (u ∷ us) = ground (arith, others-change-le id f us)

pub others-remove-le :
    (id : Bytes) (us : List User)
    → count (is_other_admin id) us ≤ count rules (remove_rows (has_user_id id) us)
unfolding remove_rows filter
others-remove-le id [] = omega arith
others-remove-le id (u ∷ us) = ground (arith, others-remove-le id us)

-- The rows of a user are not those of an active administrator.
abbrev pub Powerless : Bytes → List User → Type 0
Powerless id us = All (λ u. has_user_id id u ≡ true → rules u ≡ false) us

no-row-Powerless :
    (id : Bytes) (us : List User) → first (has_user_id id) us ≡ none → Powerless id us
unfolding first
no-row-Powerless id [] h = tt
no-row-Powerless id (u ∷ us) h = elim (Bool-cases (has_user_id id u)) [
  | inl mine ↦ absurd (ground (arith, mine, h))
  | inr other ↦
      (λ e. absurd (ground (arith, e, other)), no-row-Powerless id us (ground (arith, other, h)))
]

pub found-Powerless :
    (id : Bytes) (us : List User) (u : User)
    → user_constraints us ≡ true
    → select_user id us ≡ some u
    → rules u ≡ false
    → Powerless id us
unfolding user_constraints
found-Powerless id [] u ok here weak = tt
found-Powerless id (v ∷ us) u ok here weak = elim (Bool-cases (has_user_id id v)) [
  | inl mine ↦
      let same : v ≡ u = ground (arith, mine, here) in
      let id_same : v.id ≡ id = bytes_eq_sound v.id id mine in
      elim (Option-cases (first (has_user_id v.id) us)) [
        | inr (w, twin) ↦ absurd (ground (arith, twin, ok))
        | inl alone ↦ (
          λ e. ap rules same ∙ weak,
          no-row-Powerless id us (ap (λ x. first (has_user_id x) us) (sym id_same) ∙ alone),
        )
      ]
  | inr other ↦ (
    λ e. absurd (ground (arith, e, other)),
    found-Powerless id us u (ground (arith, ok)) (ground (arith, other, here)) weak,
  )
]

pub Powerless-change-le :
    (id : Bytes) (f : User → User) (us : List User)
    → Powerless id us
    → count rules us ≤ count rules (change (has_user_id id) f us)
unfolding change
Powerless-change-le id f [] h = omega arith
Powerless-change-le id f (u ∷ us) (hu, h) = ground (arith, hu, Powerless-change-le id f us h)

pub Powerless-remove-le :
    (id : Bytes) (us : List User)
    → Powerless id us
    → count rules us ≤ count rules (remove_rows (has_user_id id) us)
unfolding remove_rows filter
Powerless-remove-le id [] h = omega arith
Powerless-remove-le id (u ∷ us) (hu, h) = ground (arith, hu, Powerless-remove-le id us h)

-- A row that is written with the rights of an active administrator is one.
pub found-change-rules :
    (now : ℕ) (id : Bytes) (w : User) (us : List User) (u : User)
    → rules w ≡ true
    → select_user id us ≡ some u
    → 1 ≤ count rules (change (has_user_id id) (merge_user now w) us)
unfolding change
found-change-rules now id w [] u strong here = absurd (ground (arith, here))
found-change-rules now id w (v ∷ us) u strong here = elim (Bool-cases (has_user_id id v)) [
  | inl mine ↦ ground (arith, mine, strong)
  | inr other ↦
      ground (arith, other, found-change-rules now id w us u strong (ground (arith, other, here)))
]

first-remove :
    (p : User → Bool) (id : Bytes) (us : List User)
    → is_some (first p us) ≡ false
    → is_some (first p (remove_rows (has_user_id id) us)) ≡ false
unfolding first remove_rows filter
first-remove p id [] h = refl
first-remove p id (u ∷ us) h = ground (arith, first-remove p id us)

pub user_constraints-remove :
    (id : Bytes) (us : List User)
    → user_constraints us ≡ true
    → user_constraints (remove_rows (has_user_id id) us) ≡ true
unfolding user_constraints remove_rows filter
user_constraints-remove id [] h = refl
user_constraints-remove id (u ∷ us) h = ground (
  arith,
  user_constraints-remove id us,
  first-remove (has_user_id u.id) id us,
  first-remove (has_email u.email) id us,
)
