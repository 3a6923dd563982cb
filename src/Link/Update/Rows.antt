-- ===== src/Link/Update/Rows.antt =====
-- The rows that Update writes.
use shortr.Base.{
  ℕ, ◌≡◌, refl, subst, ap, ◌∙◌, List, [], ◌∷◌, Option, ◌⊎◌, inl, inr, Bool-cases, Option-cases,
  arith,
}
use shortr.Base.Bytes.{Bytes, bytes_eq}
use shortr.Store.{
  Link, Store, Res, ok, err, not_found, conflict, db_error, merge, update_where, update_link,
}
use shortr.Store.Lookup.{Wrote, failed, wrote, attempt-commit}
use shortr.Validate.{Net}
use shortr.Link.Create.{Config}
use shortr.Link.Service.{Service, invalidate_cache}
use shortr.Link.Update.{
  UpdateInput, Draft, edit_code, edit_texts, edit_password, edit_rest, save, finish_update,
  update_draft, update,
}
use shortr.Link.Update.Laws.{
  edit_code-kept, id-edit_code, id-edit_texts, id-edit_password, id-edit_rest,
}

-- The rows are as they were, or the columns of a link with the id are written to its row.
abbrev pub Written : Bytes → List Link → List Link → Type 0
Written id before after =
    (after ≡ before) ⊎ ((now : ℕ) × ((l : Link) × (after ≡ update_where id (merge now l) before)))

module _ (net : Net) (hash : Bytes → Option Bytes) (cfg : Config) (now : ℕ) where
  save-Written :
      (old : Bytes) (l : Link) (s : Service)
      → Written l.id s.store.links (save now old l s).1.store.links
  unfolding save update_link invalidate_cache
  save-Written old l s = cases (update_link now l s.store) refl (attempt-commit s.store _ tt)
    where
      cases :
          (r : Res (Unit {0}) × Store)
          → update_link now l s.store ≡ r
          → Wrote s.store.links (update_where l.id (merge now l) s.store.links) tt r
          → Written l.id s.store.links (save now old l s).1.store.links
      cases (err conflict, st) e (failed x res same) =
          rw (ap (λ r. r.0) e, save) (inl (ap (λ r. r.1.links) e ∙ same))
      cases (err not_found, st) e (failed x res same) =
          rw (ap (λ r. r.0) e, save) (inl (ap (λ r. r.1.links) e ∙ same))
      cases (err db_error, st) e (failed x res same) =
          rw (ap (λ r. r.0) e, save) (inl (ap (λ r. r.1.links) e ∙ same))
      cases (ok u, st) e (failed x res same) = absurd (ground arith)
      cases (err y, st) e (wrote res new good) = absurd (ground arith)
      cases (ok u, st) e (wrote res new good) =
          let rows : (update_link now l s.store).1.links
              ≡ update_where l.id (merge now l) s.store.links =
            ap (λ r. r.1.links) e ∙ new in
          elim (Bool-cases (bytes_eq l.code old)) [
            | inl same ↦ rw (ap (λ r. r.0) e, same, save) (inr (now, (l, rows)))
            | inr differs ↦ rw (ap (λ r. r.0) e, differs, save) (inr (now, (l, rows)))
          ]

  finish_update-Written :
      (old : Bytes) (d : Draft) (s : Service)
      → Written d.1.id s.store.links (finish_update now old d s).1.store.links
  unfolding finish_update
  finish_update-Written old ([], l) s = save-Written old l s
  finish_update-Written old (e ∷ es, l) s = inl refl

  update_draft-Written :
      (old : Bytes) (given : UpdateInput) (d : Draft) (s : Service)
      → Written d.1.id s.store.links (update_draft net hash cfg now old given d s).1.store.links
  unfolding update_draft
  update_draft-Written old given d s =
      let texts = edit_texts net hash cfg s.policy.blocked_domains given d in
      elim (Option-cases (edit_password net hash cfg given.password texts)) [
        | inl unhashed ↦ rw (unhashed, update_draft) (inl refl)
        | inr (d', hashed) ↦
            let same : (edit_rest net hash cfg now given d').1.id ≡ d.1.id =
              id-edit_rest net hash cfg now given d'
              ∙ id-edit_password net hash cfg given.password texts d' hashed
              ∙ id-edit_texts net hash cfg s.policy.blocked_domains given d in
            rw (hashed, update_draft)
              (subst
                (λ id.
                  Written id s.store.links
                    (finish_update now old (edit_rest net hash cfg now given d') s).1.store.links)
                same (finish_update-Written old (edit_rest net hash cfg now given d') s))
      ]

  -- Update writes at most the columns of the row with the link's id.
  pub update-Written :
      (l : Link) (given : UpdateInput) (s : Service)
      → Written l.id s.store.links (update net hash cfg now l given s).1.store.links
  unfolding update
  update-Written l given s = cases coded.0 refl
    where
      coded : Res Draft × Store
      coded = edit_code given.code l s.store

      s' : Service
      s' = record s { store = coded.1 }

      rows : coded.1.links ≡ s.store.links
      rows = edit_code-kept given.code l s.store

      cases :
          (r : Res Draft)
          → coded.0 ≡ r
          → Written l.id s.store.links (update net hash cfg now l given s).1.store.links
      cases (err e) h = rw (h, update) (inl rows)
      cases (ok d) h =
          rw (h, update)
            (subst
              (λ b. Written l.id b (update_draft net hash cfg now l.code given d s').1.store.links)
              rows
              (subst
                (λ id.
                  Written id coded.1.links
                    (update_draft net hash cfg now l.code given d s').1.store.links)
                (id-edit_code given.code l s.store d h) (update_draft-Written l.code given d s')))
