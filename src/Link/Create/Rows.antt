-- ===== src/Link/Create/Rows.antt =====
-- The rows that Create writes, on any state of the cache and the table.
use shortr.Base.{
  ℕ, zero, suc, ◌+◌, ◌==◌, ◌≡◌, refl, sym, subst, ap, ◌∙◌, true, false, Bool, List, [], ◌∷◌, ◌++◌,
  Option, ◌⊎◌, inl, inr, Bool-cases, Option-cases, if◌then◌else◌, arith,
}
use shortr.Base.Bytes.{Bytes, bytes_eq}
use shortr.Store.{
  Link, Store, StoreError, Res, ok, err, not_found, conflict, db_error, round_link, prepare,
  create_link,
}
use shortr.Store.Lookup.{Wrote, failed, wrote, create_link-Wrote}
use shortr.Validate.{Net, Checked, trim_space, target_url as check_target}
use shortr.Link.Code.{Generated, code, rand_failed, out_of_fuel, generate_code, is_reserved}
use shortr.Link.Input.{FieldError}
use shortr.Link.Service.{Service, invalidate_cache}
use shortr.Link.Create.{
  Config, CreateInput, store_link, try_codes, insert_link, create_valid, create, alias_errors,
  at_limit, input_errors, hashed, new_link, target_of,
}
use shortr.Link.Create.Outcome.{alias_errors-links, at_limit-links}

-- The rows are as they were, or a new one follows them.
abbrev pub Grown : List Link → List Link → Type 0
Grown before after = (after ≡ before) ⊎ ((l : Link) × (after ≡ before ++ l ∷ []))

-- What an insertion answers: a link and a new row, or an error and no new row.
data Stored (before : List Link) (r : Res Link × Service) : Type 0 where
  stored : (l new : Link) → r.0 ≡ ok l → r.1.store.links ≡ before ++ new ∷ [] → Stored before r
  not_stored : (e : StoreError) → r.0 ≡ err e → r.1.store.links ≡ before → Stored before r

store_link-Stored :
    (now : ℕ) (ulid : Bytes) (l : Link) (s : Service)
    → Stored s.store.links (store_link now ulid l s)
unfolding store_link create_link invalidate_cache
store_link-Stored now ulid l s = cases (create_link-Wrote now ulid l s.store)
  where
    l' : Link
    l' = prepare now ulid l

    cases :
        Wrote s.store.links
          (s.store.links ++ round_link l' ∷ [])
          l'
          (create_link now ulid l s.store)
        → Stored s.store.links (store_link now ulid l s)
    cases (failed e res same) = rw (res, store_link) (not_stored e refl same)
    cases (wrote res new good) = rw (res, store_link) (stored l' (round_link l') refl new)

module _ (net : Net) (hash : Bytes → Option Bytes) (cfg : Config) (now : ℕ) (ulid : Bytes)
    (read : ℕ → ℕ → Option (List ℕ)) (fuel : ℕ) where
  try_codes-Grown :
      (left i len : ℕ) (l : Link) (s : Service)
      → Grown s.store.links (try_codes net hash cfg now ulid read fuel left i len l s).1.store.links
  unfolding try_codes
  try_codes-Grown zero i len l s = inl refl
  try_codes-Grown (suc left) i len l s =
      drawn (generate_code (read i) fuel cfg.alphabet (if i == 4 then len + 1 else len)) refl
        (try_codes-Grown left (suc i) len l)
    where
      drawn :
          (g : Generated)
          → generate_code (read i) fuel cfg.alphabet (if i == 4 then len + 1 else len) ≡ g
          → ((s' : Service)
              → Grown s'.store.links
                  (try_codes net hash cfg now ulid read fuel left (suc i) len l s').1.store.links)
          → Grown s.store.links
              (try_codes net hash cfg now ulid read fuel (suc left) i len l s).1.store.links
      drawn rand_failed e ih = rw (e, try_codes) (inl refl)
      drawn out_of_fuel e ih = rw (e, try_codes) (inl refl)
      drawn (code gc) e ih = elim (Bool-cases (is_reserved gc)) [
        | inl word ↦ rw (e, word, try_codes) (ih s)
        | inr free ↦ elim (store_link-Stored now ulid (record l { code = gc }) s) [
          | stored l' new res rows ↦ rw (e, free, res, try_codes) (inr (new, rows))
          | not_stored not_found res rows ↦ rw (e, free, res, try_codes) (inl rows)
          | not_stored db_error res rows ↦ rw (e, free, res, try_codes) (inl rows)
          | not_stored conflict res rows ↦
              rw (e, free, res, try_codes)
                (subst
                  (λ b.
                    Grown b
                      (try_codes net hash cfg now ulid read fuel left (suc i) len l
                        (store_link now ulid (record l { code = gc }) s).1).1.store.links)
                  rows (ih (store_link now ulid (record l { code = gc }) s).1))
        ]
      ]

  insert_link-Grown :
      (alias : Bytes) (len : ℕ) (l : Link) (s : Service)
      → Grown s.store.links
          (insert_link net hash cfg now ulid read fuel alias len l s).1.store.links
  unfolding insert_link
  insert_link-Grown alias len l s = elim (Bool-cases (bytes_eq alias [])) [
    | inl empty ↦ rw (empty, insert_link) (try_codes-Grown 5 0 _ l s)
    | inr given ↦ elim (store_link-Stored now ulid (record l { code = alias }) s) [
      | stored l' new res rows ↦ rw (given, res, insert_link) (inr (new, rows))
      | not_stored not_found res rows ↦ rw (given, res, insert_link) (inl rows)
      | not_stored db_error res rows ↦ rw (given, res, insert_link) (inl rows)
      | not_stored conflict res rows ↦ rw (given, res, insert_link) (inl rows)
    ]
  ]

  module _ (actor : Option Bytes) (ip : Bytes) (given : CreateInput) where
    create_valid-Grown :
        (target : Bytes) (s : Service)
        → Grown s.store.links
            (create_valid net hash cfg now ulid read fuel actor ip given target s).1.store.links
    unfolding create_valid
    create_valid-Grown target s = cases full.0 refl
      where
        full : Res Bool × Store
        full = at_limit actor s.policy.max_links_per_user s.store

        rows : full.1.links ≡ s.store.links
        rows = at_limit-links actor s.policy.max_links_per_user s.store

        cases :
            (r : Res Bool)
            → full.0 ≡ r
            → Grown s.store.links
                (create_valid net hash cfg now ulid read fuel actor ip given target s).1.store.links
        cases (err e) h = rw (h, create_valid) (inl rows)
        cases (ok true) h = rw (h, create_valid) (inl rows)
        cases (ok false) h = elim (Option-cases (hashed hash given.password)) [
          | inl unhashed ↦ rw (h, unhashed, create_valid) (inl rows)
          | inr (pw, good) ↦
              rw (h, good, create_valid)
                (subst
                  (λ b.
                    Grown b
                      (insert_link net hash cfg now ulid read fuel (trim_space given.code)
                        given.length (new_link actor ip s.policy target given pw)
                        (record s { store = full.1 })).1.store.links)
                  rows
                  (insert_link-Grown (trim_space given.code) given.length
                    (new_link actor ip s.policy target given pw) (record s { store = full.1 })))
        ]

    -- Create leaves the rows as they are, but for at most one new row behind them.
    pub create-Grown :
        (s : Service)
        → Grown s.store.links
            (create net hash cfg now ulid read fuel actor ip given s).1.store.links
    unfolding create
    create-Grown s = cases checked.0 refl
      where
        target : Checked
        target =
            check_target net given.target_url cfg.max_url_length cfg.allow_private_targets
              s.policy.blocked_domains cfg.base_host

        checked : Res (List FieldError) × Store
        checked = alias_errors (trim_space given.code) s.store

        rows : checked.1.links ≡ s.store.links
        rows = alias_errors-links (trim_space given.code) s.store

        out : Service
        out = (create net hash cfg now ulid read fuel actor ip given s).1

        later : Service
        later = record s { store = checked.1 }

        grown :
            Grown s.store.links
              (create_valid net hash cfg now ulid read fuel actor ip given
                (target_of target)
                later).1.store.links
        grown =
            subst
              (λ b.
                Grown b
                  (create_valid net hash cfg now ulid read fuel actor ip given (target_of target)
                    later).1.store.links)
              rows (create_valid-Grown (target_of target) later)

        reached :
            (more : List FieldError)
            → checked.0 ≡ ok more
            → input_errors now s.policy target given ++ more ≡ []
            → out
              ≡ (create_valid net hash cfg now ulid read fuel actor ip given
                  (target_of target)
                  later).1
        reached more h a = ground (arith, h, a)

        valid :
            (more : List FieldError)
            → checked.0 ≡ ok more
            → (all : List FieldError) → input_errors now s.policy target given ++ more ≡ all
            → Grown s.store.links out.store.links
        valid more h (e ∷ es) a =
            let same : out ≡ later = ground (arith, h, a) in
            inl (ap (λ (x : Service). x.store.links) same ∙ rows)
        valid more h [] a =
            subst (λ (x : Service). Grown s.store.links x.store.links) (sym (reached more h a))
              grown

        cases : (r : Res (List FieldError)) → checked.0 ≡ r → Grown s.store.links out.store.links
        cases (err e) h =
            let same : out ≡ later = ground (arith, h) in
            inl (ap (λ (x : Service). x.store.links) same ∙ rows)
        cases (ok more) h = valid more h (input_errors now s.policy target given ++ more) refl
