-- ===== src/Server/Mfa/Replay.antt =====
-- No one-time code and no recovery code is accepted twice, over sequences of checks.
use shortr.Base.{
  ℕ, ◌+◌, ◌≡◌, ap, ◌∙◌, subst, inl, inr, List, [], ◌∷◌, Bool-cases, if◌then◌else◌, arith,
}
use shortr.Base.Bytes.{Bytes, bytes_eq}
use shortr.Store.{Store}
use shortr.Auth.Totp.{hash_recovery_code}
use shortr.Server.Console.{Env}
use shortr.Server.Mfa.{totp, recovery_code, Verdict, passed, denied, check_second_factor}
use shortr.Server.Mfa.Judged.{Judged, refused, by_code, by_recovery, check_second_factor-Judged}
use shortr.Server.Mfa.Rows.{
  Attempt, step_of, codes_of, occurrences, Above, step_of-insert, codes_of-insert, step_of-same,
  codes_of-same, step_of-found, codes_of-found, occurrences-take_out,
}

module _ (env : Env) where
  abbrev pub check : Attempt → Store → Verdict × Store
  check a st = check_second_factor env a.at a.user a.code a.recovery st

  -- The steps that a user's accepted one-time codes store, over attempts of any users.
  unfoldable pub accepted_steps : Bytes → List Attempt → Store → List ℕ
  unfolding step_of
  accepted_steps user [] st = []
  accepted_steps user (a ∷ as') st =
      let (v, st') = check a st in
      let rest = accepted_steps user as' st' in
      elim v [
        | passed totp ↦ if bytes_eq a.user user then step_of user st' ∷ rest else rest
        | passed recovery_code ↦ rest
        | denied e ↦ rest
      ]

  -- How often a recovery code with a hash signs a user in, and the hashes that are left.
  unfoldable pub uses_of : Bytes → Bytes → List Attempt → Store → ℕ × List Bytes
  unfolding codes_of
  uses_of user hash [] st = (0, codes_of user st)
  uses_of user hash (a ∷ as') st =
      let (v, st') = check a st in
      let (n, left) = uses_of user hash as' st' in
      elim v [
        | passed recovery_code ↦
            if bytes_eq a.user user
            then (
              (if bytes_eq (hash_recovery_code env.crypto a.recovery) hash then 1 else 0) + n,
              left,
            )
            else (n, left)
        | passed totp ↦ (n, left)
        | denied e ↦ (n, left)
      ]

  accepted_steps-step :
      (user : Bytes) (a : Attempt) (as' : List Attempt) (st : Store)
      → Above (step_of user (check a st).1) (accepted_steps user as' (check a st).1)
      → Judged env a.at a.user a.code a.recovery st (check a st)
      → Above (step_of user st) (accepted_steps user (a ∷ as') st)
  unfolding accepted_steps
  accepted_steps-step user a as' st rest (refused e h t) =
      let same : step_of user (check a st).1 ≡ step_of user st =
        step_of-same user st (check a st).1 t in
      rw (h, accepted_steps)
        (subst (λ n. Above n (accepted_steps user as' (check a st).1)) same rest)
  accepted_steps-step user a as' st rest (by_code m secret step here on opened good later h t) =
      let next : step_of user (check a st).1
          ≡ (if bytes_eq a.user user then step else step_of user st) =
        step_of-insert a.user user _ st (check a st).1 t in
      elim (Bool-cases (bytes_eq a.user user)) [
        | inr other ↦
            let same : step_of user (check a st).1 ≡ step_of user st =
              ground (arith, next, other) in
            rw (h, other, accepted_steps)
              (subst (λ n. Above n (accepted_steps user as' (check a st).1)) same rest)
        | inl mine ↦
            let now : step_of user (check a st).1 ≡ step = ground (arith, next, mine) in
            let before : step_of user st ≡ m.last_step = step_of-found a.user user m st here mine in
            rw (h, mine, accepted_steps) (omega (arith, now, before, later), rest)
      ]
  accepted_steps-step user a as' st rest (by_recovery m left here on known h t) =
      let next : step_of user (check a st).1
          ≡ (if bytes_eq a.user user then m.last_step else step_of user st) =
        step_of-insert a.user user _ st (check a st).1 t in
      let same : step_of user (check a st).1 ≡ step_of user st =
        elim (Bool-cases (bytes_eq a.user user)) [
          | inr other ↦ ground (arith, next, other)
          | inl mine ↦ ground (arith, next, mine, step_of-found a.user user m st here mine)
        ] in
      rw (h, accepted_steps)
        (subst (λ n. Above n (accepted_steps user as' (check a st).1)) same rest)

  -- Over any sequence of second-factor checks of any users, at any times and whatever statements fail,
  -- the steps whose codes are accepted for a user are each greater than all accepted before and than
  -- the step stored at the start: no one-time code is accepted twice.
  pub accepted_steps-Above :
      (user : Bytes) (attempts : List Attempt) (st : Store)
      → Above (step_of user st) (accepted_steps user attempts st)
  unfolding accepted_steps
  accepted_steps-Above user [] st = tt
  accepted_steps-Above user (a ∷ as') st =
      accepted_steps-step user a as' st (accepted_steps-Above user as' (check a st).1)
        (check_second_factor-Judged env a.at a.user a.code a.recovery st)

  uses_of-step :
      (user hash : Bytes) (a : Attempt) (as' : List Attempt) (st : Store)
      → (uses_of user hash as' (check a st).1).0
          + occurrences hash (uses_of user hash as' (check a st).1).1
        ≡ occurrences hash (codes_of user (check a st).1)
      → Judged env a.at a.user a.code a.recovery st (check a st)
      → (uses_of user hash (a ∷ as') st).0 + occurrences hash (uses_of user hash (a ∷ as') st).1
        ≡ occurrences hash (codes_of user st)
  unfolding uses_of
  uses_of-step user hash a as' st rest (refused e h t) =
      let same : codes_of user (check a st).1 ≡ codes_of user st =
        codes_of-same user st (check a st).1 t in
      rw (h, uses_of) (rest ∙ ap (occurrences hash) same)
  uses_of-step user hash a as' st rest (by_code m secret step here on opened good later h t) =
      let next : codes_of user (check a st).1
          ≡ (if bytes_eq a.user user then m.recovery_codes else codes_of user st) =
        codes_of-insert a.user user _ st (check a st).1 t in
      let same : codes_of user (check a st).1 ≡ codes_of user st =
        elim (Bool-cases (bytes_eq a.user user)) [
          | inr other ↦ ground (arith, next, other)
          | inl mine ↦ ground (arith, next, mine, codes_of-found a.user user m st here mine)
        ] in
      rw (h, uses_of) (rest ∙ ap (occurrences hash) same)
  uses_of-step user hash a as' st rest (by_recovery m left here on known h t) =
      let next : codes_of user (check a st).1
          ≡ (if bytes_eq a.user user then left else codes_of user st) =
        codes_of-insert a.user user _ st (check a st).1 t in
      elim (Bool-cases (bytes_eq a.user user)) [
        | inr other ↦
            let same : codes_of user (check a st).1 ≡ codes_of user st =
              ground (arith, next, other) in
            rw (h, other, uses_of) (rest ∙ ap (occurrences hash) same)
        | inl mine ↦
            let now : codes_of user (check a st).1 ≡ left = ground (arith, next, mine) in
            let before : codes_of user st ≡ m.recovery_codes =
              codes_of-found a.user user m st here mine in
            let taken =
              occurrences-take_out (hash_recovery_code env.crypto a.recovery) hash m.recovery_codes
                left known in
            rw (h, mine, uses_of)
              (omega (arith, rest, ap (occurrences hash) now, ap (occurrences hash) before, taken))
      ]

  -- Over any sequence of second-factor checks of any users, at any times and whatever statements fail,
  -- the number of times that a recovery code with a hash is accepted for a user, and the number of
  -- times that the hash is still stored, add up to the number of times that it was stored at the start:
  -- a stored code is accepted at most once.
  pub uses_of-occurrences :
      (user hash : Bytes) (attempts : List Attempt) (st : Store)
      → (uses_of user hash attempts st).0 + occurrences hash (uses_of user hash attempts st).1
        ≡ occurrences hash (codes_of user st)
  unfolding uses_of
  uses_of-occurrences user hash [] st = omega arith
  uses_of-occurrences user hash (a ∷ as') st =
      uses_of-step user hash a as' st (uses_of-occurrences user hash as' (check a st).1)
        (check_second_factor-Judged env a.at a.user a.code a.recovery st)
