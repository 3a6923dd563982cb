-- ===== src/Link/Create/Laws.antt =====
-- Create: every outcome, its effect on the table, and the coherence of the cache.
use shortr.Base.{
  ℕ, zero, suc, ◌+◌, ◌≡◌, refl, sym, ◌∙◌, ap, false, List, [], ◌∷◌, ◌++◌, Option, ◌==◌,
  if◌then◌else◌, Bool-cases, inl, inr,
}
use shortr.Base.Bytes.{Bytes, bytes_eq}
use shortr.Store.{
  Link, Res, ok, err, not_found, conflict, db_error, round_link, prepare, create_link,
}
use shortr.Store.Rows.{row_of-append}
use shortr.Store.Lookup.{Wrote, failed, wrote, create_link-Wrote}
use shortr.Validate.{Net}
use shortr.Link.Code.{Generated, code, rand_failed, out_of_fuel, generate_code, is_reserved}
use shortr.Link.Service.{Service}
use shortr.Link.Service.Coherent.{Coherent, same-Coherent, invalidate-Coherent}
use shortr.Link.Create.{
  Config, CreateResult, created, code_taken, store_failed, store_link, try_codes, insert_link,
}

-- What a run that was to make a link from `l` leaves of the rows.
abbrev pub MadeRows : ℕ → Bytes → List Link → Link → CreateResult → List Link → Type 0
MadeRows now ulid rows l (created l') after =
    (after ≡ rows ++ round_link l' ∷ [])
    × (is_reserved l'.code ≡ false)
    × (l' ≡ prepare now ulid (record l { code = l'.code }))
MadeRows now ulid rows l _ after = after ≡ rows

abbrev pub Made : ℕ → Bytes → List Link → Link → CreateResult × Service → Type 0
Made now ulid rows l r = Coherent r.1 × MadeRows now ulid rows l r.0 r.1.store.links

-- The insertion of a link.
abbrev StoredRows : ℕ → Bytes → Link → List Link → Res Link → List Link → Type 0
StoredRows now ulid l rows (ok l') after =
    (after ≡ rows ++ round_link l' ∷ []) × (l' ≡ prepare now ulid l)
StoredRows now ulid l rows (err e) after = after ≡ rows

module _ (now : ℕ) (ulid : Bytes) (l : Link) (s : Service) (co : Coherent s) where
  store_link-Coherent :
      Coherent (store_link now ulid l s).1
      × StoredRows now ulid l s.store.links
          (store_link now ulid l s).0
          (store_link now ulid l s).1.store.links
  unfolding store_link create_link
  store_link-Coherent = stored (create_link-Wrote now ulid l s.store)
    where
      l' : Link
      l' = prepare now ulid l

      stored :
          Wrote s.store.links
            (s.store.links ++ round_link l' ∷ [])
            l'
            (create_link now ulid l s.store)
          → Coherent (store_link now ulid l s).1
            × StoredRows now ulid l s.store.links
                (store_link now ulid l s).0
                (store_link now ulid l s).1.store.links
      stored (failed e res same) = rw (res, store_link) (same-Coherent s _ same refl co, same)
      stored (wrote res new good) =
          rw (res, store_link)
            (
              invalidate-Coherent s _ l.code (rw new good)
                  (λ k other. rw new (row_of-append k s.store.links (round_link l') other)) refl co,
              (new, refl),
            )

made_of_stored :
    (now : ℕ) (ulid gc : Bytes) (rows : List Link) (l l' : Link) (after : List Link)
    → is_reserved gc ≡ false
    → after ≡ rows ++ round_link l' ∷ []
    → l' ≡ prepare now ulid (record l { code = gc })
    → MadeRows now ulid rows l (created l') after
made_of_stored now ulid gc rows l l' after free same prep =
    let named : l'.code ≡ gc = ap (λ x. x.code) prep in
    (same, rw named free, prep ∙ ap (λ c. prepare now ulid (record l { code = c })) (sym named))

module _ (net : Net) (hash : Bytes → Option Bytes) (cfg : Config) (now : ℕ) (ulid : Bytes)
    (read : ℕ → ℕ → Option (List ℕ)) (fuel : ℕ) (rows : List Link) (l : Link) where
  -- One attempt with a code that is not reserved.
  insert_step :
      (gc : Bytes) (s : Service) (other : CreateResult × Service)
      → is_reserved gc ≡ false
      → Coherent s
      → s.store.links ≡ rows
      → (Coherent (store_link now ulid (record l { code = gc }) s).1
          → (store_link now ulid (record l { code = gc }) s).1.store.links ≡ rows
          → Made now ulid rows l other)
      → Made now ulid rows l (elim (store_link now ulid (record l { code = gc }) s).0 [
        | ok l' ↦ (created l', (store_link now ulid (record l { code = gc }) s).1)
        | err conflict ↦ other
        | err not_found ↦
            (store_failed not_found, (store_link now ulid (record l { code = gc }) s).1)
        | err db_error ↦ (store_failed db_error, (store_link now ulid (record l { code = gc }) s).1)
      ])
  insert_step gc s other free co same next =
      let (kept, stored) = store_link-Coherent now ulid (record l { code = gc }) s co in
      cases (store_link now ulid (record l { code = gc }) s).0 refl kept stored
    where
      out : Res Link × Service
      out = store_link now ulid (record l { code = gc }) s

      cases :
          (r : Res Link)
          → out.0 ≡ r
          → Coherent out.1
          → StoredRows now ulid (record l { code = gc }) s.store.links out.0 out.1.store.links
          → Made now ulid rows l (elim out.0 [
            | ok l' ↦ (created l', out.1)
            | err conflict ↦ other
            | err not_found ↦ (store_failed not_found, out.1)
            | err db_error ↦ (store_failed db_error, out.1)
          ])
      cases (ok l') e kept stored =
          let (rows', prep) = rw e at stored in
          rw e (kept, made_of_stored now ulid gc rows l l' _ free (rw (← same) rows') prep)
      cases (err conflict) e kept stored = rw e (next kept ((rw e at stored) ∙ same))
      cases (err not_found) e kept stored = rw e (kept, (rw e at stored) ∙ same)
      cases (err db_error) e kept stored = rw e (kept, (rw e at stored) ∙ same)

  -- The random attempts, by induction on how many are left.
  pub try_codes-Made :
      (left i len : ℕ) (s : Service)
      → Coherent s
      → s.store.links ≡ rows
      → Made now ulid rows l (try_codes net hash cfg now ulid read fuel left i len l s)
  unfolding try_codes
  try_codes-Made zero i len s co same = (co, same)
  try_codes-Made (suc left) i len s co same =
      drawn (generate_code (read i) fuel cfg.alphabet (if i == 4 then len + 1 else len)) refl
        (try_codes-Made left (suc i) len)
    where
      rest : Service → CreateResult × Service
      rest s' = try_codes net hash cfg now ulid read fuel left (suc i) len l s'

      drawn :
          (g : Generated)
          → generate_code (read i) fuel cfg.alphabet (if i == 4 then len + 1 else len) ≡ g
          → ((s' : Service) → Coherent s' → s'.store.links ≡ rows → Made now ulid rows l (rest s'))
          → Made now ulid rows l (try_codes net hash cfg now ulid read fuel (suc left) i len l s)
      drawn rand_failed e ih = rw (e, try_codes) (co, same)
      drawn out_of_fuel e ih = rw (e, try_codes) (co, same)
      drawn (code gc) e ih = elim (Bool-cases (is_reserved gc)) [
        | inl word ↦ rw (e, word, try_codes) (ih s co same)
        | inr free ↦
            rw (e, free, try_codes)
              (insert_step gc s (rest (store_link now ulid (record l { code = gc }) s).1) free co
                same (ih _))
      ]

  pub insert_link-Made :
      (alias : Bytes) (len : ℕ) (s : Service)
      → (bytes_eq alias [] ≡ false → is_reserved alias ≡ false)
      → Coherent s
      → s.store.links ≡ rows
      → Made now ulid rows l (insert_link net hash cfg now ulid read fuel alias len l s)
  unfolding insert_link
  insert_link-Made alias len s free co same = elim (Bool-cases (bytes_eq alias [])) [
    | inl empty ↦ rw (empty, insert_link) (try_codes-Made 5 0 _ s co same)
    | inr given ↦
        rw (given, insert_link)
          (insert_step alias s (code_taken, (store_link now ulid (record l { code = alias }) s).1)
            (free given) co same (λ kept rows'. (kept, rows')))
  ]
