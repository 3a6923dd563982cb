-- ===== src/Link/Update/Laws.antt =====
-- Update keeps the cache coherent, also where it changes a link's code.
use shortr.Base.{
  ℕ, ◌≡◌, refl, sym, subst, ap, ◌∙◌, true, false, List, [], ◌∷◌, ◌++◌, Option, none, some,
  Bool-cases, Option-cases, inl, inr, arith,
}
use shortr.Base.Bytes.{Bytes, bytes_eq, bytes_eq_iff, to_lower}
use shortr.Store.{
  Link, Store, Res, StoreError, ok, err, not_found, conflict, db_error, merge, update_where,
  update_link, code_exists, constraints,
}
use shortr.Store.Rows.{row_of, IdHasKey, row_of-update_where_ne}
use shortr.Store.Lookup.{Wrote, failed, wrote, attempt-commit}
use shortr.Validate.{Net}
use shortr.Link.Cache
use shortr.Link.Cache.{Cache, Entry}
use shortr.Link.Cache.History.{peek, invalidate-AllValid, peek-invalidate}
use shortr.Link.Create.{Config}
use shortr.Link.Input.{FieldError}
use shortr.Link.Service.{Service, invalidate_cache}
use shortr.Link.Service.Coherent.{Coherent, Matches, same-Coherent, invalidate-Coherent}
use shortr.Link.Update.{
  UpdateInput, Draft, edit, edit_code, edit_target, edit_texts, edit_password, edit_utm, edit_rest,
  save, finish_update, update_draft, update,
}

id-edit {ℓ} :
    {A : Type ℓ} (given : Option A) (check : A → List FieldError) (set : A → Link → Link)
    (d : Draft)
    → ((v : A) (l : Link) → (set v l).id ≡ l.id)
    → (edit given check set d).1.id ≡ d.1.id
unfolding edit
id-edit none check set d keeps = refl
id-edit (some v) check set (errs, l) keeps = cases (check v)
  where
    cases :
        (es : List FieldError)
        → (elim es as (λ _. Draft) [ [] ↦ (errs, set v l) | e ∷ es' ↦ (errs ++ e ∷ es', l) ]).1.id
          ≡ l.id
    cases [] = keeps v l
    cases (e ∷ es) = refl

pub edit_code-kept :
    (given : Option Bytes) (l : Link) (st : Store) → (edit_code given l st).1.links ≡ st.links
unfolding edit_code code_exists
edit_code-kept none l st = refl
edit_code-kept (some c) l st = ground arith

pub id-edit_code :
    (given : Option Bytes) (l : Link) (st : Store) (d : Draft)
    → (edit_code given l st).0 ≡ ok d
    → d.1.id ≡ l.id
unfolding edit_code code_exists
id-edit_code none l st d e = ground arith
id-edit_code (some c) l st d e = ground arith

module _ (net : Net) (hash : Bytes → Option Bytes) (cfg : Config) where
  pub id-edit_texts :
      (blocked : List Bytes) (given : UpdateInput) (d : Draft)
      → (edit_texts net hash cfg blocked given d).1.id ≡ d.1.id
  unfolding edit_texts edit_target
  id-edit_texts blocked given d =
      id-edit given.redirect_status _ _ _ (λ v l. refl)
      ∙ id-edit given.description _ _ _ (λ v l. refl)
      ∙ id-edit given.title _ _ _ (λ v l. refl)
      ∙ id-edit given.target_url _ _ d (λ v l. ground arith)

  pub id-edit_password :
      (given : Option Bytes) (d d' : Draft)
      → edit_password net hash cfg given d ≡ some d'
      → d'.1.id ≡ d.1.id
  unfolding edit_password
  id-edit_password none d d' e = ground arith
  id-edit_password (some pw) (errs, l) d' e = ground arith

  pub id-edit_rest :
      (now : ℕ) (given : UpdateInput) (d : Draft)
      → (edit_rest net hash cfg now given d).1.id ≡ d.1.id
  unfolding edit_rest edit_utm
  id-edit_rest now given d =
      id-edit given.pass_query _ _ _ (λ v l. refl)
      ∙ id-edit given.tags _ _ _ (λ v l. refl)
      ∙ id-edit given.status _ _ _ (λ v l. refl)
      ∙ id-edit given.max_clicks _ _ _ (λ v l. refl)
      ∙ id-edit given.expires_at _ _ d (λ v l. refl)

-- The cache after two invalidations.
two-Coherent :
    (s s' : Service) (a b : Bytes)
    → constraints s'.store.links ≡ true
    → ((k : Bytes)
        → bytes_eq (to_lower a) k ≡ false
        → bytes_eq (to_lower b) k ≡ false
        → row_of k s'.store.links ≡ row_of k s.store.links)
    → s'.cache ≡ Cache.invalidate (Cache.invalidate s.cache a) b
    → Coherent s
    → Coherent s'
two-Coherent s s' a b rows other cache co = record {
  rows = rows;
  valid = rw cache (invalidate-AllValid c b (invalidate-AllValid s.cache a co.valid));
  held = λ k e h. pick k e (ap (λ x. peek x k) (sym cache) ∙ h);
}
  where
    c : Cache Link
    c = Cache.invalidate s.cache a

    pick :
        (k : Bytes) (e : Entry Link)
        → peek (Cache.invalidate c b) k ≡ some e
        → Matches e (row_of k s'.store.links)
    pick k e h =
        let one = peek-invalidate s.cache a co.valid k in
        let two = peek-invalidate c b (invalidate-AllValid s.cache a co.valid) k in
        elim (Bool-cases (bytes_eq (to_lower a) k)) [
          | inl gone ↦ absurd (ground arith)
          | inr differs ↦ elim (Bool-cases (bytes_eq (to_lower b) k)) [
            | inl gone ↦ absurd (ground arith)
            | inr differs' ↦ rw (other k differs differs') (co.held k e (ground arith))
          ]
        ]

module _ (now : ℕ) (old : Bytes) (l : Link) (s : Service)
    (owned : IdHasKey l.id (to_lower old) s.store.links) (co : Coherent s) where
  moved_rows :
      (k : Bytes)
      → bytes_eq (to_lower old) k ≡ false
      → bytes_eq (to_lower l.code) k ≡ false
      → row_of k (update_where l.id (merge now l) s.store.links) ≡ row_of k s.store.links
  moved_rows k a b =
      row_of-update_where_ne k l.id (to_lower old) (merge now l) s.store.links owned a (λ r i h. b)

  save-Coherent : Coherent (save now old l s).1
  unfolding save update_link invalidate_cache
  save-Coherent = cases (update_link now l s.store) refl (attempt-commit s.store _ tt)
    where
      unsaved :
          (y : StoreError)
          → (update_link now l s.store).0 ≡ err y
          → (update_link now l s.store).1.links ≡ s.store.links
          → Coherent (save now old l s).1
      unsaved conflict e same = rw (e, save) (same-Coherent s _ same refl co)
      unsaved not_found e same = rw (e, save) (same-Coherent s _ same refl co)
      unsaved db_error e same = rw (e, save) (same-Coherent s _ same refl co)

      cases :
          (r : Res (Unit {0}) × Store)
          → update_link now l s.store ≡ r
          → Wrote s.store.links (update_where l.id (merge now l) s.store.links) tt r
          → Coherent (save now old l s).1
      cases (err y, st) e (failed x res same) =
          unsaved y (ap (λ r. r.0) e) (ap (λ r. r.1.links) e ∙ same)
      cases (ok u, st) e (failed x res same) = absurd (ground arith)
      cases (err y, st) e (wrote res new good) = absurd (ground arith)
      cases (ok u, st) e (wrote res new good) =
          let rows : (update_link now l s.store).1.links
              ≡ update_where l.id (merge now l) s.store.links =
            ap (λ r. r.1.links) e ∙ new in
          let done : (update_link now l s.store).0 ≡ ok u = ap (λ r. r.0) e in
          elim (Bool-cases (bytes_eq l.code old)) [
            | inl same ↦
                let this : l.code ≡ old = (bytes_eq_iff l.code old).0 same in
                rw (done, same, save)
                  (invalidate-Coherent s _ old (rw rows good)
                    (λ k h. rw rows (moved_rows k h (rw this h))) refl co)
            | inr differs ↦
                rw (done, differs, save)
                  (two-Coherent s _ old l.code (rw rows good) (λ k a b. rw rows (moved_rows k a b))
                    refl co)
          ]

module _ (net : Net) (hash : Bytes → Option Bytes) (cfg : Config) where
  finish_update-Coherent :
      (now : ℕ) (old : Bytes) (d : Draft) (s : Service)
      → IdHasKey d.1.id (to_lower old) s.store.links
      → Coherent s
      → Coherent (finish_update now old d s).1
  unfolding finish_update
  finish_update-Coherent now old ([], l) s owned co = save-Coherent now old l s owned co
  finish_update-Coherent now old (e ∷ es, l) s owned co = co

  update_draft-Coherent :
      (now : ℕ) (old : Bytes) (given : UpdateInput) (d : Draft) (s : Service)
      → IdHasKey d.1.id (to_lower old) s.store.links
      → Coherent s
      → Coherent (update_draft net hash cfg now old given d s).1
  unfolding update_draft
  update_draft-Coherent now old given d s owned co =
      let texts = edit_texts net hash cfg s.policy.blocked_domains given d in
      elim (Option-cases (edit_password net hash cfg given.password texts)) [
        | inl unhashed ↦ rw (unhashed, update_draft) co
        | inr (d', hashed) ↦
            let same : (edit_rest net hash cfg now given d').1.id ≡ d.1.id =
              id-edit_rest net hash cfg now given d'
              ∙ id-edit_password net hash cfg given.password texts d' hashed
              ∙ id-edit_texts net hash cfg s.policy.blocked_domains given d in
            rw (hashed, update_draft)
              (finish_update-Coherent now old (edit_rest net hash cfg now given d') s
                (rw same owned) co)
      ]

  -- Update, called with a link that has the id of its row and the row's code up to the case of its
  -- letters, leaves a coherent cache coherent, on every outcome: after a change of the code neither the
  -- old code nor the new one is answered from an entry that the table does not hold.
  pub update-Coherent :
      (now : ℕ) (l : Link) (given : UpdateInput) (s : Service)
      → IdHasKey l.id (to_lower l.code) s.store.links
      → Coherent s
      → Coherent (update net hash cfg now l given s).1
  unfolding update
  update-Coherent now l given s owned co = cases coded.0 refl
    where
      coded : Res Draft × Store
      coded = edit_code given.code l s.store

      s' : Service
      s' = record s { store = coded.1 }

      rows : coded.1.links ≡ s.store.links
      rows = edit_code-kept given.code l s.store

      kept : Coherent s'
      kept = same-Coherent s s' rows refl co

      out : Service
      out = (update net hash cfg now l given s).1

      cases : (r : Res Draft) → coded.0 ≡ r → Coherent out
      cases (err e) h =
          let same : (update net hash cfg now l given s).1 ≡ s' = simp (h, update) in rw same kept
      cases (ok d) h =
          let same : update net hash cfg now l given s
              ≡ update_draft net hash cfg now l.code given d s' =
            simp (h, update) in
          subst (λ r. Coherent r.1) (sym same)
            (update_draft-Coherent now l.code given d s'
              (rw (id-edit_code given.code l s.store d h, rows) owned) kept)
