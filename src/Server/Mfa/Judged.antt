-- ===== src/Server/Mfa/Judged.antt =====
-- What `checkSecondFactor` accepts, and the row that it leaves.
use shortr.Base.{
  ℕ, ◌≡◌, ◌<◌, refl, ap, ◌∙◌, inl, inr, Bool, true, false, List, [], some, is_some, ltb, Bool-cases,
  Option-cases, arith,
}
use shortr.Base.Bytes.{Bytes, bytes_eq}
use shortr.Base.Map.{lookup, insert}
use shortr.Validate.{trim_space}
use shortr.Store.{Store, Res, ok, err, StoreError}
use shortr.Store.Types.{UserMfa}
use shortr.Store.Accounts.{
  get_user_mfa, advance_mfa_step, take_out, same_codes, swap_codes, consume_recovery_code,
}
use shortr.Auth.Totp.{verify_totp, open_secret, hash_recovery_code}
use shortr.Server.Console.{Env, ApiError, user_mfa}
use shortr.Server.Mfa.{
  totp, recovery_code, Verdict, passed, denied, check_totp, check_recovery, check_second_factor,
}

-- The outcomes of a check: refused with the rows as they were, or accepted for a confirmed enrollment
-- by a one-time code of a step after the stored one, which is stored, or by a recovery code that is
-- stored, which is taken out.
pub data Judged (env : Env) (now : ℕ) (user code recovery : Bytes) (st : Store)
    (r : Verdict × Store) : Type 0 where
  refused :
      (e : ApiError)
      → r.0 ≡ denied e
      → r.1.user_mfa ≡ st.user_mfa
      → Judged env now user code recovery st r
  by_code :
      (m : UserMfa) (secret : Bytes) (step : ℕ)
      → lookup user st.user_mfa ≡ some m
      → is_some m.enabled_at ≡ true
      → open_secret env.crypto env.secret_key m.sealed_secret ≡ some secret
      → verify_totp env.crypto secret code now ≡ some step
      → m.last_step < step
      → r.0 ≡ passed totp
      → r.1.user_mfa ≡ insert user (record m { last_step = step }) st.user_mfa
      → Judged env now user code recovery st r
  by_recovery :
      (m : UserMfa) (left : List Bytes)
      → lookup user st.user_mfa ≡ some m
      → is_some m.enabled_at ≡ true
      → take_out (hash_recovery_code env.crypto recovery) m.recovery_codes ≡ some left
      → r.0 ≡ passed recovery_code
      → r.1.user_mfa ≡ insert user (record m { recovery_codes = left }) st.user_mfa
      → Judged env now user code recovery st r

-- A statement that changes the row of one user, or none.
data Changed (user : Bytes) (rows : List (Bytes × UserMfa)) (m : UserMfa) (r : Res Bool × Store)
    : Type 0 where
  failed : (e : StoreError) → r.0 ≡ err e → r.1.user_mfa ≡ rows → Changed user rows m r
  skipped : r.0 ≡ ok false → r.1.user_mfa ≡ rows → Changed user rows m r
  changed : r.0 ≡ ok true → r.1.user_mfa ≡ insert user m rows → Changed user rows m r

get_user_mfa-rows : (user : Bytes) (st : Store) → (get_user_mfa user st).1.user_mfa ≡ st.user_mfa
unfolding get_user_mfa
get_user_mfa-rows user st = ground arith

get_user_mfa-found :
    (user : Bytes) (st : Store) (m : UserMfa)
    → (get_user_mfa user st).0 ≡ ok m
    → lookup user st.user_mfa ≡ some m
unfolding get_user_mfa
get_user_mfa-found user st m h = elim (Bool-cases (st.faults st.queries)) [
  | inl fault ↦ absurd (ground (arith, fault))
  | inr fine ↦ elim (Option-cases (lookup user st.user_mfa)) [
    | inl out ↦ absurd (ground (arith, fine, out))
    | inr (m', here) ↦ ground (arith, fine, here)
  ]
]

user_mfa-rows : (user : Bytes) (st : Store) → (user_mfa user st).1.user_mfa ≡ st.user_mfa
unfolding user_mfa
user_mfa-rows user st = cases (get_user_mfa user st).0 refl
  where
    cases :
        (r : Res UserMfa)
        → (get_user_mfa user st).0 ≡ r
        → (user_mfa user st).1.user_mfa ≡ st.user_mfa
    cases (ok m) e = rw (e, user_mfa) (get_user_mfa-rows user st)
    cases (err x) e = rw (e, user_mfa) (get_user_mfa-rows user st)

user_mfa-found :
    (user : Bytes) (st : Store) (m : UserMfa)
    → (user_mfa user st).0 ≡ some m
    → lookup user st.user_mfa ≡ some m
unfolding user_mfa
user_mfa-found user st m h = cases (get_user_mfa user st).0 refl
  where
    cases : (r : Res UserMfa) → (get_user_mfa user st).0 ≡ r → lookup user st.user_mfa ≡ some m
    cases (ok m') e =
        let same : m' ≡ m = ground (arith, e, h) in get_user_mfa-found user st m' e ∙ ap some same
    cases (err x) e = absurd (ground (arith, e, h))

advance_mfa_step-Changed :
    (user : Bytes) (step : ℕ) (st : Store) (m : UserMfa)
    → lookup user st.user_mfa ≡ some m
    → Changed user st.user_mfa (record m { last_step = step }) (advance_mfa_step user step st)
unfolding advance_mfa_step
advance_mfa_step-Changed user step st m here = elim (Bool-cases (st.faults st.queries)) [
  | inl fault ↦ rw (fault, advance_mfa_step) (failed StoreError.db_error refl refl)
  | inr fine ↦ elim (Bool-cases (ltb m.last_step step)) [
    | inl later ↦ rw (fine, here, later, advance_mfa_step) (changed refl refl)
    | inr stale ↦ rw (fine, here, stale, advance_mfa_step) (skipped refl refl)
  ]
]

advance_mfa_step-later :
    (user : Bytes) (step : ℕ) (st : Store) (m : UserMfa)
    → lookup user st.user_mfa ≡ some m
    → (advance_mfa_step user step st).0 ≡ ok true
    → m.last_step < step
unfolding advance_mfa_step
advance_mfa_step-later user step st m here h = elim (Bool-cases (st.faults st.queries)) [
  | inl fault ↦ absurd (ground (arith, fault))
  | inr fine ↦ ground (arith, fine, here)
]

swap_codes-Changed :
    (user : Bytes) (old new : List Bytes) (st : Store) (m : UserMfa)
    → lookup user st.user_mfa ≡ some m
    → Changed user st.user_mfa (record m { recovery_codes = new }) (swap_codes user old new st)
unfolding swap_codes
swap_codes-Changed user old new st m here = elim (Bool-cases (st.faults st.queries)) [
  | inl fault ↦ rw (fault, swap_codes) (failed StoreError.db_error refl refl)
  | inr fine ↦ elim (Bool-cases (same_codes m.recovery_codes old)) [
    | inl same ↦ rw (fine, here, same, swap_codes) (changed refl refl)
    | inr other ↦ rw (fine, here, other, swap_codes) (skipped refl refl)
  ]
]

-- What `ConsumeRecoveryCode` does to the rows.
data Consumed (user hash : Bytes) (rows : List (Bytes × UserMfa)) (m : UserMfa)
    (r : Res Bool × Store) : Type 0 where
  not_consumed : (e : StoreError) → r.0 ≡ err e → r.1.user_mfa ≡ rows → Consumed user hash rows m r
  unknown : r.0 ≡ ok false → r.1.user_mfa ≡ rows → Consumed user hash rows m r
  consumed :
      (left : List Bytes)
      → take_out hash m.recovery_codes ≡ some left
      → r.0 ≡ ok true
      → r.1.user_mfa ≡ insert user (record m { recovery_codes = left }) rows
      → Consumed user hash rows m r

module _ (user hash : Bytes) (st : Store) (m : UserMfa) where
  consume-swap :
      (left : List Bytes)
      → (get_user_mfa user st).0 ≡ ok m
      → take_out hash m.recovery_codes ≡ some left
      → Changed user
          (get_user_mfa user st).1.user_mfa
          (record m { recovery_codes = left })
          (swap_codes user m.recovery_codes left (get_user_mfa user st).1)
      → Consumed user hash st.user_mfa m (consume_recovery_code user hash st)
  unfolding consume_recovery_code
  consume-swap left e known (failed x h t) =
      rw (e, known, consume_recovery_code) (not_consumed x h (t ∙ get_user_mfa-rows user st))
  consume-swap left e known (skipped h t) =
      rw (e, known, consume_recovery_code) (unknown h (t ∙ get_user_mfa-rows user st))
  consume-swap left e known (changed h t) =
      rw (e, known, consume_recovery_code)
        (consumed left known h
          (t ∙ ap (insert user (record m { recovery_codes = left })) (get_user_mfa-rows user st)))

  consume_recovery_code-Consumed :
      lookup user st.user_mfa ≡ some m
      → Consumed user hash st.user_mfa m (consume_recovery_code user hash st)
  unfolding consume_recovery_code
  consume_recovery_code-Consumed here = cases (get_user_mfa user st).0 refl
    where
      cases :
          (r : Res UserMfa)
          → (get_user_mfa user st).0 ≡ r
          → Consumed user hash st.user_mfa m (consume_recovery_code user hash st)
      cases (err x) e =
          rw (e, consume_recovery_code) (not_consumed x refl (get_user_mfa-rows user st))
      cases (ok m') e =
          let same : m' ≡ m = ground (arith, get_user_mfa-found user st m' e, here) in
          let e' : (get_user_mfa user st).0 ≡ ok m = e ∙ ap ok same in
          elim (Option-cases (take_out hash m.recovery_codes)) [
            | inl out ↦
                rw (e', out, consume_recovery_code) (unknown refl (get_user_mfa-rows user st))
            | inr (left, known) ↦ consume-swap left e' known (
                swap_codes-Changed user m.recovery_codes left (get_user_mfa user st).1 m
                  (ap (lookup user) (get_user_mfa-rows user st) ∙ here))
          ]

module _ (env : Env) (now : ℕ) (user code recovery : Bytes) where
  check_totp-Judged :
      (st : Store) (m : UserMfa)
      → lookup user st.user_mfa ≡ some m
      → is_some m.enabled_at ≡ true
      → Judged env now user code recovery st (check_totp env now m user code st)
  unfolding check_totp
  check_totp-Judged st m here on =
      elim (Option-cases (open_secret env.crypto env.secret_key m.sealed_secret)) [
        | inl bad ↦ rw (bad, check_totp) (refused ApiError.internal refl refl)
        | inr (secret, opened) ↦ elim (Option-cases (verify_totp env.crypto secret code now)) [
          | inl wrong ↦ rw (opened, wrong, check_totp) (refused ApiError.mfa_invalid refl refl)
          | inr (step, good) ↦
              cases secret step opened good (advance_mfa_step-Changed user step st m here)
        ]
      ]
    where
      cases :
          (secret : Bytes) (step : ℕ)
          → open_secret env.crypto env.secret_key m.sealed_secret ≡ some secret
          → verify_totp env.crypto secret code now ≡ some step
          → Changed user st.user_mfa (record m { last_step = step }) (advance_mfa_step user step st)
          → Judged env now user code recovery st (check_totp env now m user code st)
      cases secret step opened good (failed e h t) =
          rw (opened, good, h, check_totp) (refused ApiError.mfa_invalid refl t)
      cases secret step opened good (skipped h t) =
          rw (opened, good, h, check_totp) (refused ApiError.mfa_invalid refl t)
      cases secret step opened good (changed h t) =
          rw (opened, good, h, check_totp)
            (by_code m secret step here on opened good
              (advance_mfa_step-later user step st m here h) refl t)

  check_recovery-Judged :
      (st : Store) (m : UserMfa)
      → lookup user st.user_mfa ≡ some m
      → is_some m.enabled_at ≡ true
      → Judged env now user code recovery st (check_recovery env now user recovery st)
  unfolding check_recovery
  check_recovery-Judged st m here on =
      cases (consume_recovery_code-Consumed user (hash_recovery_code env.crypto recovery) st m here)
    where
      cases :
          Consumed user
            (hash_recovery_code env.crypto recovery)
            st.user_mfa
            m
            (consume_recovery_code user (hash_recovery_code env.crypto recovery) st)
          → Judged env now user code recovery st (check_recovery env now user recovery st)
      cases (not_consumed e h t) = rw (h, check_recovery) (refused ApiError.mfa_invalid refl t)
      cases (unknown h t) = rw (h, check_recovery) (refused ApiError.mfa_invalid refl t)
      cases (consumed left known h t) =
          rw (h, check_recovery) (by_recovery m left here on known refl t)

  -- The same outcomes for a store with the same rows.
  Judged-same :
      (st st' : Store) (r : Verdict × Store)
      → st'.user_mfa ≡ st.user_mfa
      → Judged env now user code recovery st' r
      → Judged env now user code recovery st r
  Judged-same st st' r same (refused e h t) = refused e h (t ∙ same)
  Judged-same st st' r same (by_code m secret step here on opened good later h t) =
      by_code m secret step (cc (here, same)) on opened good later h (cc (t, same))
  Judged-same st st' r same (by_recovery m left here on known h t) =
      by_recovery m left (cc (here, same)) on known h (cc (t, same))

  -- Whatever statements fail, a second factor is accepted only for a confirmed enrollment: either by a
  -- code that is, within one step of the clock, that of a step after the last one stored, and then that
  -- step is stored; or by a recovery code whose hash is stored, and then it is taken out. A check that
  -- is refused leaves the enrollments as they were.
  pub check_second_factor-Judged :
      (st : Store)
      → Judged env now user code recovery st (check_second_factor env now user code recovery st)
  unfolding check_second_factor
  check_second_factor-Judged st = elim (Option-cases (user_mfa user st).0) [
    | inl out ↦
        rw (out, check_second_factor) (refused ApiError.mfa_invalid refl (user_mfa-rows user st))
    | inr (m, found) ↦
        let here : lookup user st.user_mfa ≡ some m = user_mfa-found user st m found in
        let here' : lookup user (user_mfa user st).1.user_mfa ≡ some m =
          cc (here, user_mfa-rows user st) in
        elim (Bool-cases (is_some m.enabled_at)) [
          | inr off ↦
              rw (found, off, check_second_factor)
                (refused ApiError.mfa_invalid refl (user_mfa-rows user st))
          | inl on ↦ elim (Bool-cases (bytes_eq (trim_space recovery) [])) [
            | inl blank ↦
                rw (found, on, blank, check_second_factor)
                  (Judged-same st (user_mfa user st).1 _ (user_mfa-rows user st)
                    (check_totp-Judged (user_mfa user st).1 m here' on))
            | inr given ↦
                rw (found, on, given, check_second_factor)
                  (Judged-same st (user_mfa user st).1 _ (user_mfa-rows user st)
                    (check_recovery-Judged (user_mfa user st).1 m here' on))
          ]
        ]
  ]
